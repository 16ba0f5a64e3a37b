-- ===== src/Kube/Lock/Rounds.antt =====
-- The rounds of the loop of `modify` in kube/lock.go, counted against the conflicts.
use pharos_host_upgrades.Prelude.{
  inl, inr, ◌∙◌, not, ◌==◌, ◌&&◌, ℕ, zero, suc, ◌-◌, ◌<◌, ◌≡◌, refl, Bool, true, false, none, some,
  arith, if◌then◌else◌, StringMap, Option-cases,
}
use pharos_host_upgrades.Effects.{
  Error, MaybeError, ok, err, is_conflict, DaemonSet, Context, Op, Resp, kube, update_daemonset,
  Prog, ret, ◌>>◌, ask_process, sleep_jittered,
}
use pharos_host_upgrades.Effects.Logic.{Monitor, Safe, Safe-bind, Safe-if, Safe-weaken}
use pharos_host_upgrades.Kube.Lock.{
  Lock, lock_value, test_object, assign, set, finish_round, modify, wait, context_timeout,
  acquire_object, wait_and_acquire, acquire, release, release_object, background, backoff_duration,
}

-- How many updates may still fail with a conflict.
abbrev CanConflict : ℕ → (o : Op) → Resp o → Type 0
CanConflict n (kube (update_daemonset _ _ _)) (err e) = is_conflict e ≡ true → 0 < n
CanConflict n _ _ = Unit {0}

abbrev conflicts_left : ℕ → (o : Op) → Resp o → ℕ
conflicts_left n (kube (update_daemonset _ _ _)) (err e) = if is_conflict e then n - 1 else n
conflicts_left n _ _ = n

-- A loop that uses up its rounds breaks the rules of this monitor.
abbrev pub conflicts : Monitor ℕ
conflicts = record {
  Pre = λ _ _. Unit {0};
  Admits = CanConflict;
  next = conflicts_left;
  Out = λ _. ⊥;
}

abbrev Unchanged : ℕ → {A : Type 0} → A → ℕ → Type 0
Unchanged n a m = m ≡ n

abbrev pub Anyhow : {A : Type 0} → A → ℕ → Type 0
Anyhow a m = Unit {0}

module _ (lock : Lock) where
  context_timeout-quiet :
      (ctx : Context) (n : ℕ) → Safe conflicts (context_timeout ctx) n (Unchanged n)
  unfolding context_timeout
  context_timeout-quiet ctx n = elim (Option-cases ctx.deadline) [
    | inl e ↦ rw (e, context_timeout) refl
    | inr (d, e) ↦ rw (e, context_timeout) (tt, λ _ _. refl)
  ]

  wait-quiet :
      (ctx : Context) (object : DaemonSet) (n : ℕ)
      → Safe conflicts (wait lock ctx object) n (Unchanged n)
  unfolding wait
  wait-quiet ctx object n =
      Safe-if conflicts (test_object lock object).1 _ _ n (Unchanged n) (λ _. refl)
        λ _. (
          tt,
          elim [
            | err e ↦ λ _. refl
            | ok watcher ↦ λ _.
                Safe-bind conflicts (context_timeout ctx) _ n (Unchanged n) (Unchanged n)
                  (context_timeout-quiet ctx n)
                  λ timeout m same. (tt, elim [ err e ↦ λ _. same | ok ev ↦ λ _. same ])
          ],
        )

  assign-quiet :
      (annotations : StringMap) (object : DaemonSet) (n : ℕ)
      → Safe conflicts (assign lock.annotation lock.value annotations object) n (Unchanged n)
  unfolding assign
  assign-quiet none object n = (tt, λ r _. absurd r)
  assign-quiet (some m) object n = refl

  acquire_object-quiet :
      (object : DaemonSet) (n : ℕ) → Safe conflicts (acquire_object lock object) n (Unchanged n)
  unfolding acquire_object set
  acquire_object-quiet object n =
      Safe-if conflicts
        (not (lock_value lock object == "") && not (lock_value lock object == lock.value)) _ _ n
        (Unchanged n) (λ _. refl) (λ _. assign-quiet object.annotations object n)

  wait_and_acquire-quiet :
      (ctx : Context) (object : DaemonSet) (n : ℕ)
      → Safe conflicts (wait_and_acquire lock ctx object) n (Unchanged n)
  unfolding wait_and_acquire
  wait_and_acquire-quiet ctx object n =
      Safe-bind conflicts (wait lock ctx object) _ n (Unchanged n) (Unchanged n)
        (wait-quiet ctx object n) λ (failure, current) m same. after_wait failure current m same
    where
      after_wait :
          (failure : MaybeError) (current : DaemonSet) (m : ℕ)
          → m ≡ n
          → Safe conflicts {A = MaybeError × DaemonSet}
              (elim failure [ some e ↦ ret (some e, current) | none ↦ acquire_object lock current ])
              m
              (Unchanged n)
      after_wait none current m same =
          Safe-weaken conflicts (acquire_object lock current) m {Q = Unchanged m}
            (λ _ _ still. still ∙ same) (acquire_object-quiet current m)
      after_wait (some e) current m same = same

  finish_round-ends :
      (ctx : Context) (fn : DaemonSet → Prog (MaybeError × DaemonSet)) (again : Prog MaybeError)
      (r : MaybeError × DaemonSet) (n : ℕ)
      → ((left : ℕ) → left < n → Safe conflicts again left Anyhow)
      → Safe conflicts (finish_round lock ctx fn again r) n Anyhow
  unfolding finish_round
  finish_round-ends ctx fn again (some e, object) n next = tt
  finish_round-ends ctx fn again (none, object) n next =
      (tt, elim [ ok stored ↦ λ _. tt | err e ↦ retry (is_conflict e) e ])
    where
      retry :
          (conflicting : Bool) (e : Error)
          → (conflicting ≡ true → 0 < n)
          → Safe conflicts
              (if conflicting
                then (do ask_process (sleep_jittered backoff_duration); again)
                else ret (some e))
              (if conflicting then n - 1 else n)
              Anyhow
      retry true e more =
          (tt, λ _ _. next (n - 1) (let positive = more refl in omega (arith, positive)))
      retry false e more = tt

  modify-ends :
      (ctx : Context) (fn : DaemonSet → Prog (MaybeError × DaemonSet))
      → ((object : DaemonSet) (n : ℕ) → Safe conflicts (fn object) n (Unchanged n))
      → (rounds n : ℕ) → n < rounds
      → Safe conflicts (modify lock ctx fn rounds) n Anyhow
  unfolding modify
  modify-ends ctx fn quiet zero n less = absurd (omega (arith, less))
  modify-ends ctx fn quiet (suc rounds) n less = (
    tt,
    elim [
      | some e ↦ λ _. tt
      | none ↦ λ _. (
        tt,
        elim [
          | err e ↦ λ _. tt
          | ok object ↦ λ _.
              Safe-bind conflicts (fn object) _ n (Unchanged n) Anyhow (quiet object n) λ r m same.
                finish_round-ends ctx fn (modify lock ctx fn rounds) r m λ left fewer.
                  modify-ends ctx fn quiet rounds left (omega (arith, less, same, fewer))
        ],
      )
    ],
  )

  -- `Acquire` does not use up its rounds if these are more than the conflicts that the API server
  -- answers with.
  pub acquire-ends :
      (rounds n : ℕ) (ctx : Context)
      → n < rounds
      → Safe conflicts (acquire rounds lock ctx) n Anyhow
  unfolding acquire
  acquire-ends rounds n ctx =
      modify-ends ctx (wait_and_acquire lock ctx) (wait_and_acquire-quiet ctx) rounds n

  -- `Release` does not use up its rounds if these are more than the conflicts that the API server
  -- answers with.
  pub release-ends : (rounds n : ℕ) → n < rounds → Safe conflicts (release rounds lock) n Anyhow
  unfolding release
  release-ends rounds n =
      modify-ends background (λ object. ret (release_object lock object)) (λ _ _. refl) rounds n
