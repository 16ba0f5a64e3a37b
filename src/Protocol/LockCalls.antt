-- ===== src/Protocol/LockCalls.antt =====
-- The methods of kube/lock.go against the rules of the lock.
use mathlib.Core.List.{Memᴰ}
use pharos_host_upgrades.Prelude.{
  ℕ, zero, suc, String, ◌≡◌, refl, Bool, true, false, not, ◌&&◌, inl, inr, none, some,
  if◌then◌else◌, List, StringMap, ◌==◌, ==-refl, eq_iff, arith, Bool-cases, Option-cases,
  get_or_empty, insert, find-insert, delete, lookup-delete,
}
use pharos_host_upgrades.Effects.{
  Error, MaybeError, is_conflict, sleep_jittered, ask_process, ◌>>◌, ok, err, DaemonSet, Context,
  Prog, ret,
}
use pharos_host_upgrades.Effects.Logic.{Safe, Safe-bind, Safe-weaken, Safe-if}
use pharos_host_upgrades.Kube.Lock.{
  Lock, lock_value, test_object, assign, set, finish_round, modify, wait, context_timeout,
  acquire_object, wait_and_acquire, acquire, clear, release_object, release, background,
  backoff_duration, test,
}
use pharos_host_upgrades.Protocol.{Local, lock_id, IsFreeOrMine, CanWrite, protocol}

get_or_empty-insert_self :
    (k v : String) (m : List (String × String)) → get_or_empty k (some (insert k v m)) ≡ v
unfolding get_or_empty
get_or_empty-insert_self k v m = ground (arith, find-insert k k v m, ==-refl k)

get_or_empty-delete_self : (k : String) (m : StringMap) → get_or_empty k (delete k m) ≡ ""
unfolding get_or_empty
get_or_empty-delete_self k m = ground (arith, lookup-delete k k m, ==-refl k)

module _ (lock : Lock) where
  -- What a function passed to `modify` leaves: on success an object that may be written.
  abbrev pub Writes : (DaemonSet → Type 0) → MaybeError × DaemonSet → Local → Type 0
  Writes R (failure, new) m = failure ≡ none → CanWrite (lock_id lock) m new × R new

  -- The test at the head of `set`: it lets through a free lock and the node's own.
  set_test-IsFreeOrMine :
      (object : DaemonSet)
      → (not (lock_value lock object == "") && not (lock_value lock object == lock.value)) ≡ false
      → IsFreeOrMine (lock_id lock) object
  set_test-IsFreeOrMine object h =
      ground (arith, eq_iff (lock_value lock object) "", eq_iff (lock_value lock object) lock.value)

  assign-Safe :
      (annotations : StringMap) (object : DaemonSet) (m : Local)
      → Memᴰ object m.known
      → IsFreeOrMine (lock_id lock) object
      → Safe
          (protocol (lock_id lock))
          (assign lock.annotation lock.value annotations object)
          m
          (Writes (λ new. lock_value lock new ≡ lock.value))
  unfolding assign
  assign-Safe none object m known free = (tt, λ r _. absurd r)
  assign-Safe (some a) object m known free =
      let mine = get_or_empty-insert_self lock.annotation lock.value a in
      λ _. ((object, known, refl, free, inr mine), mine)

  set-Safe :
      (object : DaemonSet) (m : Local)
      → Memᴰ object m.known
      → Safe
          (protocol (lock_id lock))
          (set lock object)
          m
          (Writes (λ new. lock_value lock new ≡ lock.value))
  unfolding set
  set-Safe object m known =
      Safe-if (protocol (lock_id lock)) _ _ _ m _ (λ _ e. cc)
        (λ h. assign-Safe object.annotations object m known (set_test-IsFreeOrMine object h))

  context_timeout-Safe :
      (ctx : Context) (m : Local)
      → Safe (protocol (lock_id lock)) (context_timeout ctx) m (λ _ m'. m' ≡ m)
  unfolding context_timeout
  context_timeout-Safe ctx m = elim (Option-cases ctx.deadline) [
    | inl e ↦ rw (e, context_timeout) refl
    | inr (d, e) ↦ rw (e, context_timeout) (tt, λ _ _. refl)
  ]

  -- `wait` gives back a copy that has been read.
  wait-Safe :
      (ctx : Context) (object : DaemonSet) (m : Local)
      → Memᴰ object m.known
      → Safe
          (protocol (lock_id lock))
          (wait lock ctx object)
          m
          (λ r m'. r.0 ≡ none → Memᴰ r.1 m'.known)
  unfolding wait
  wait-Safe ctx object m known = elim (Bool-cases (test_object lock object).1) [
    | inl free ↦ rw (free, wait) (λ _. known)
    | inr busy ↦
        rw (busy, wait)
          (
            tt,
            elim [
              | err e ↦ λ _ h. cc
              | ok watcher ↦ λ _.
                  Safe-bind (protocol (lock_id lock)) (context_timeout ctx) _ m (λ _ m'. m' ≡ m) _
                    (context_timeout-Safe ctx m)
                    λ timeout m' _. (tt, elim [ err e ↦ λ _ h. cc | ok ev ↦ λ _ _. Memᴰ.head refl ])
            ],
          )
  ]

  wait_and_acquire-Safe :
      (ctx : Context) (object : DaemonSet) (m : Local)
      → Memᴰ object m.known
      → Safe
          (protocol (lock_id lock))
          (wait_and_acquire lock ctx object)
          m
          (Writes (λ new. lock_value lock new ≡ lock.value))
  unfolding wait_and_acquire acquire_object
  wait_and_acquire-Safe ctx object m known =
      Safe-bind (protocol (lock_id lock)) (wait lock ctx object) _ m
        (λ r m'. r.0 ≡ none → Memᴰ r.1 m'.known) _ (wait-Safe ctx object m known)
        λ (failure, current) m' read. after_wait failure current m' read
    where
      after_wait :
          (failure : MaybeError) (current : DaemonSet) (m' : Local)
          → (failure ≡ none → Memᴰ current m'.known)
          → Safe
              (protocol (lock_id lock))
              (elim failure [ some e ↦ ret (some e, current) | none ↦ acquire_object lock current ])
              m'
              (Writes (λ new. lock_value lock new ≡ lock.value))
      after_wait none current m' read = set-Safe current m' (read refl)
      after_wait (some e) current m' read = λ h. cc

  pub release_object-Safe :
      (object : DaemonSet) (m : Local)
      → Memᴰ object m.known
      → Writes (λ new. lock_value lock new ≡ "") (release_object lock object) m
  unfolding release_object
  release_object-Safe object m known = elim (Bool-cases (lock_value lock object == lock.value)) [
    | inl mine ↦
        rw (mine, clear)
          (λ _. (
            (
              object,
              known,
              refl,
              inr ((eq_iff _ _).0 mine),
              inl (get_or_empty-delete_self lock.annotation object.annotations),
            ),
            get_or_empty-delete_self lock.annotation object.annotations,
          ))
    | inr other ↦ rw (other, clear) (λ h. cc)
  ]

  module _ (R : DaemonSet → Type 0) (Done : Local → Type 0) where
    finish_round-Safe :
        (again : Prog MaybeError) (r : MaybeError × DaemonSet) (m : Local)
        → ((new : DaemonSet) (m' : Local)
            → R new
            → Done (record m' { held = lock_value lock new == lock.value }))
        → Writes R r m
        → ((m' : Local) → Safe (protocol (lock_id lock)) again m' (λ e m''. e ≡ none → Done m''))
        → (ctx : Context) (fn : DaemonSet → Prog (MaybeError × DaemonSet))
        → Safe
            (protocol (lock_id lock))
            (finish_round lock ctx fn again r)
            m
            (λ e m''. e ≡ none → Done m'')
    unfolding finish_round
    finish_round-Safe again (some e, object) m done w next ctx fn = λ h. cc
    finish_round-Safe again (none, object) m done w next ctx fn = (
      (refl, (w refl).0),
      elim [ ok stored ↦ λ _ _. done object m (w refl).1 | err e ↦ λ _. retry (is_conflict e) e ],
    )
      where
        retry :
            (conflicting : Bool) (e : Error)
            → Safe
                (protocol (lock_id lock))
                (if conflicting
                  then (do ask_process (sleep_jittered backoff_duration); again)
                  else ret (some e))
                (record m { held = m.held && (lock_value lock object == lock.value) })
                (λ e' m''. e' ≡ none → Done m'')
        retry true e = (tt, λ _ _. next _)
        retry false e = λ h. cc

    pub modify-Safe :
        ((new : DaemonSet) (m : Local)
          → R new
          → Done (record m { held = lock_value lock new == lock.value }))
        → (ctx : Context) (fn : DaemonSet → Prog (MaybeError × DaemonSet))
        → ((object : DaemonSet) (m : Local)
            → Memᴰ object m.known
            → Safe (protocol (lock_id lock)) (fn object) m (Writes R))
        → (rounds : ℕ) (m : Local)
        → Safe (protocol (lock_id lock)) (modify lock ctx fn rounds) m (λ e m'. e ≡ none → Done m')
    unfolding modify
    modify-Safe done ctx fn safe zero m = tt
    modify-Safe done ctx fn safe (suc rounds) m = (
      tt,
      elim [
        | some e ↦ λ _ h. cc
        | none ↦ λ _. (
          (refl, refl),
          elim [
            | err e ↦ λ _ h. cc
            | ok object ↦ λ _.
                Safe-bind (protocol (lock_id lock)) (fn object) _ _ (Writes R) _
                  (safe object _ (Memᴰ.head refl))
                  λ r m' w.
                    finish_round-Safe (modify lock ctx fn rounds) r m' done w
                      (modify-Safe done ctx fn safe rounds) ctx fn
          ],
        )
      ],
    )

  -- `Acquire` follows the rules of the lock, and if it returns no error then the lock is held.
  pub acquire-Safe :
      (rounds : ℕ) (ctx : Context) (m : Local)
      → Safe
          (protocol (lock_id lock))
          (acquire rounds lock ctx)
          m
          (λ e m'. e ≡ none → m'.held ≡ true)
  unfolding acquire
  acquire-Safe rounds ctx m =
      modify-Safe (λ new. lock_value lock new ≡ lock.value) (λ m'. m'.held ≡ true)
        (λ new m' mine. (eq_iff _ _).1 mine) ctx (wait_and_acquire lock ctx)
        (wait_and_acquire-Safe ctx) rounds m

  pub release-Safe :
      (rounds : ℕ) (m : Local)
      → Safe (protocol (lock_id lock)) (release rounds lock) m (λ e m'. Unit {0})
  unfolding release
  release-Safe rounds m =
      Safe-weaken (protocol (lock_id lock)) _ m {Q = λ e _. e ≡ none → Unit {0}} (λ _ _ _. tt)
        (modify-Safe (λ new. lock_value lock new ≡ "") (λ _. Unit {0}) (λ _ _ _. tt) background
          (λ object. ret (release_object lock object)) release_object-Safe rounds m)

  pub test-Safe :
      (m : Local) → Safe (protocol (lock_id lock)) (test lock) m (λ _ m'. m'.held ≡ m.held)
  unfolding test
  test-Safe m = ((refl, refl), elim [ err e ↦ λ _. refl | ok object ↦ λ _. refl ])
