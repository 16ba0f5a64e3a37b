-- ===== src/Kube/Lock/Calls.antt =====
-- kube/lock.go: the calls of the loop of `modify`, and of the function that `Acquire` passes to it.
use pharos_host_upgrades.Prelude.{
  ℕ, zero, suc, none, some, StringMap, Option-cases, inl, inr, ◌==◌, not, ◌&&◌,
}
use pharos_host_upgrades.Effects.{
  MaybeError, ok, err, is_conflict, DaemonSet, Context, Op, kube, process, get_daemonset,
  update_daemonset, watch_daemonset, watch_until, now, panics, ctx_err, sleep_jittered, Prog, ret,
}
use pharos_host_upgrades.Effects.Logic.{Within, Within-bind, Within-if}
use pharos_host_upgrades.Kube.Lock.{
  Lock, lock_value, test_object, assign, set, get, update, finish_round, modify, backoff_duration,
  watch, wait, context_timeout, acquire_object, wait_and_acquire,
}

-- A bound on the calls that holds of those of the loop itself.
module _ (P : Op → Type 0) (lock : Lock) (ctx : Context) (may_look : P (process (ctx_err ctx)))
    (may_get : P (kube (get_daemonset lock.client lock.namespace lock.name)))
    (may_update : (new : DaemonSet) → P (kube (update_daemonset lock.client lock.namespace new)))
    (may_sleep : P (process (sleep_jittered backoff_duration)))
    (fn : DaemonSet → Prog (MaybeError × DaemonSet)) where
  finish_round-Within :
      (again : Prog MaybeError)
      → Within P again
      → (failure : MaybeError) (new : DaemonSet)
      → Within P (finish_round lock ctx fn again (failure, new))
  unfolding finish_round update
  finish_round-Within again next (some e) new = tt
  finish_round-Within again next none new = (
    may_update new,
    elim [ ok stored ↦ tt | err e ↦ Within-if P (is_conflict e) _ _ (may_sleep, λ _. next) tt ],
  )

  -- It holds of the loop if it holds of the function that is passed to it.
  pub modify-Within :
      ((object : DaemonSet) → Within P (fn object))
      → (rounds : ℕ) → Within P (modify lock ctx fn rounds)
  unfolding modify get
  modify-Within bound zero = tt
  modify-Within bound (suc rounds) = (
    may_look,
    elim [
      | some e ↦ tt
      | none ↦ (
        may_get,
        elim [
          | err e ↦ tt
          | ok object ↦
              let again = modify lock ctx fn rounds in
              Within-bind P (fn object) (finish_round lock ctx fn again) (bound object)
                λ r. finish_round-Within again (modify-Within bound rounds) r.0 r.1
        ],
      )
    ],
  )

-- The calls of a wait for the lock: a watch, the clock, and the panic on a nil map.
abbrev pub IsWatch : Op → Type 0
IsWatch (kube (watch_daemonset _ _ _ _)) = Unit {0}
IsWatch (kube (watch_until _ _ _)) = Unit {0}
IsWatch (process now) = Unit {0}
IsWatch (process (panics _)) = Unit {0}
IsWatch _ = ⊥

module _ (lock : Lock) (ctx : Context) where
  context_timeout-IsWatch : Within IsWatch (context_timeout ctx)
  unfolding context_timeout
  context_timeout-IsWatch = elim (Option-cases ctx.deadline) [
    | inl e ↦ rw (e, context_timeout) tt
    | inr (d, e) ↦ rw (e, context_timeout) (tt, λ _. tt)
  ]

  wait-IsWatch : (object : DaemonSet) → Within IsWatch (wait lock ctx object)
  unfolding wait watch
  wait-IsWatch object = Within-if IsWatch (test_object lock object).1 _ _ tt (
    tt,
    elim [
      | err e ↦ tt
      | ok watcher ↦
          Within-bind IsWatch (context_timeout ctx) _ context_timeout-IsWatch
            λ timeout. (tt, elim [ err e ↦ tt | ok ev ↦ tt ])
    ],
  )

  assign-IsWatch :
      (annotations : StringMap) (object : DaemonSet)
      → Within IsWatch (assign lock.annotation lock.value annotations object)
  unfolding assign
  assign-IsWatch none object = (tt, λ r. absurd r)
  assign-IsWatch (some m) object = tt

  acquire_object-IsWatch : (object : DaemonSet) → Within IsWatch (acquire_object lock object)
  unfolding acquire_object set
  acquire_object-IsWatch object =
      Within-if IsWatch
        (not (lock_value lock object == "") && not (lock_value lock object == lock.value)) _ _ tt
        (assign-IsWatch object.annotations object)

  pub wait_and_acquire-IsWatch :
      (object : DaemonSet) → Within IsWatch (wait_and_acquire lock ctx object)
  unfolding wait_and_acquire
  wait_and_acquire-IsWatch object =
      Within-bind IsWatch (wait lock ctx object) _ (wait-IsWatch object)
        λ (failure, current). after_wait failure current
    where
      after_wait :
          (failure : MaybeError) (current : DaemonSet)
          → Within IsWatch {A = MaybeError × DaemonSet}
              (elim failure [ some e ↦ ret (some e, current) | none ↦ acquire_object lock current ])
      after_wait (some e) current = tt
      after_wait none current = acquire_object-IsWatch current
