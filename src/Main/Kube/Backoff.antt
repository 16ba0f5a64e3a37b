-- ===== src/Main/Kube/Backoff.antt =====
-- kube.go: how long `AcquireLock` waits between its attempts.
use pharos_host_upgrades.Prelude.{
  ℕ, zero, suc, ◌*◌, ◌^◌, ◌≡◌, refl, sym, ◌∙◌, ap, subst, Bool, true, false, Option, none, some,
  inl, inr, Option-cases, ltb, if◌then◌else◌, arith,
}
use native.Mathlib.Nat.{pow-suc}
use pharos_host_upgrades.Effects.{
  MaybeError, ok, err, is_conflict, DaemonSet, Context, Op, Resp, kube, process, get_daemonset,
  sleep, sleep_jittered, Prog,
}
use pharos_host_upgrades.Effects.Logic.{Monitor, Safe, Safe-bind, Safe-if, Safe-Within, Ignores}
use pharos_host_upgrades.Kube.Lock
use pharos_host_upgrades.Kube.Lock.{Lock, finish_round, modify, wait_and_acquire, acquire}
use pharos_host_upgrades.Kube.Lock.Calls.{IsWatch, wait_and_acquire-IsWatch}
use pharos_host_upgrades.Main.Kube
use pharos_host_upgrades.Main.Kube.{Kube, acquire_loop, first_wait, max_wait, next_wait}

-- The wait after so many failures, as the loop computes it.
abbrev wait_after : ℕ → ℕ
wait_after zero = first_wait
wait_after (suc failures) = next_wait (wait_after failures)

abbrev pub min : ℕ → ℕ → ℕ
min a b = if ltb b a then b else a

next_wait-min : (n : ℕ) → next_wait (min n max_wait) ≡ min (2 * n) max_wait
unfolding next_wait
next_wait-min n = ground arith

twice : (n : ℕ) → 2 * (2 ^ n * first_wait) ≡ 2 ^ suc n * first_wait
twice n = let e = pow-suc 2 n in omega (arith, e)

wait_after-eq-min : (failures : ℕ) → wait_after failures ≡ min (2 ^ failures * first_wait) max_wait
wait_after-eq-min zero = refl
wait_after-eq-min (suc n) =
    ap next_wait (wait_after-eq-min n)
    ∙ next_wait-min (2 ^ n * first_wait)
    ∙ ap (λ w. min w max_wait) (twice n)

-- How often the program has slept, and whether it has slept, or waited out a conflict, since it last
-- read the DaemonSet.
pub record Waits : Type 0 where
  pub slept : ℕ
  pub rested : Bool

-- The n-th sleep, from 0 on, is of 2 ^ n seconds and at most a minute, and the DaemonSet is not read
-- twice without a wait.
abbrev BacksOff : Waits → Op → Type 0
BacksOff m (process (sleep d)) = d ≡ min (2 ^ m.slept * first_wait) max_wait
BacksOff m (kube (get_daemonset _ _ _)) = m.rested ≡ true
BacksOff m _ = Unit {0}

abbrev waited : Waits → (o : Op) → Resp o → Waits
waited m (process (sleep _)) r = record { slept = suc m.slept; rested = true }
waited m (process (sleep_jittered _)) r = record m { rested = true }
waited m (kube (get_daemonset _ _ _)) r = record m { rested = false }
waited m _ r = m

abbrev pub backoff : Monitor Waits
backoff = record { Pre = BacksOff; Admits = λ _ _ _. Unit {0}; next = waited; Out = λ _. Unit {0} }

-- About to make the attempt after so many sleeps.
abbrev pub after_sleeps : ℕ → Waits
after_sleeps n = record { slept = n; rested = true }

-- It has made an attempt after so many sleeps.
abbrev Tried : ℕ → MaybeError → Waits → Type 0
Tried n e m = m.slept ≡ n

abbrev pub Anyhow : MaybeError → Waits → Type 0
Anyhow e m = Unit {0}

IsWatch-Ignores : (m : Waits) → Ignores backoff IsWatch m
IsWatch-Ignores m = record { allowed = may; unmoved = stays; ends = tt }
  where
    may : (o : Op) → IsWatch o → BacksOff m o
    may (process (sleep d)) watches = absurd watches
    may (kube (get_daemonset c s n)) watches = absurd watches
    may _ watches = tt

    stays : (o : Op) (r : Resp o) → IsWatch o → waited m o r ≡ m
    stays (process (sleep d)) r watches = absurd watches
    stays (process (sleep_jittered d)) r watches = absurd watches
    stays (kube (get_daemonset c s n)) r watches = absurd watches
    stays _ r watches = refl

module _ (lock : Lock) (ctx : Context) where
  finish_round-Tried :
      (fn : DaemonSet → Prog (MaybeError × DaemonSet)) (again : Prog MaybeError)
      (failure : MaybeError) (new : DaemonSet) (n : ℕ)
      → Safe backoff again (after_sleeps n) (Tried n)
      → Safe backoff
          (finish_round lock ctx fn again (failure, new))
          (record { slept = n; rested = false })
          (Tried n)
  unfolding finish_round Lock.update
  finish_round-Tried fn again (some e) new n next = refl
  finish_round-Tried fn again none new n next = (
    tt,
    elim [
      | ok stored ↦ λ _. refl
      | err e ↦ λ _.
          Safe-if backoff (is_conflict e) _ _ (record { slept = n; rested = false }) (Tried n)
            (λ _. (tt, λ _ _. next)) (λ _. refl)
    ],
  )

  acquire-Tried :
      (rounds n : ℕ)
      → Safe backoff (modify lock ctx (wait_and_acquire lock ctx) rounds) (after_sleeps n) (Tried n)
  unfolding modify Lock.get
  acquire-Tried zero n = tt
  acquire-Tried (suc rounds) n = (
    tt,
    elim [
      | some e ↦ λ _. refl
      | none ↦ λ _. (
        refl,
        elim [
          | err e ↦ λ _. refl
          | ok object ↦ λ _.
              let again = modify lock ctx (wait_and_acquire lock ctx) rounds in
              let read : Waits = record { slept = n; rested = false } in
              Safe-bind backoff (wait_and_acquire lock ctx object)
                (finish_round lock ctx (wait_and_acquire lock ctx) again) read (λ _ m. m ≡ read)
                (Tried n)
                (Safe-Within backoff IsWatch read (IsWatch-Ignores read) _
                  (wait_and_acquire-IsWatch lock ctx object))
                λ r m same. rw same (
                  finish_round-Tried (wait_and_acquire lock ctx) again r.0 r.1 n
                    (acquire-Tried rounds n))
        ],
      )
    ],
  )

  acquire_loop-BacksOff :
      (rounds inner n : ℕ)
      → Safe backoff (acquire_loop rounds inner lock ctx (wait_after n)) (after_sleeps n) Anyhow
  unfolding acquire_loop acquire
  acquire_loop-BacksOff zero inner n = tt
  acquire_loop-BacksOff (suc rounds) inner n = (
    tt,
    elim [
      | some e ↦ λ _. tt
      | none ↦ λ _.
          Safe-bind backoff (modify lock ctx (wait_and_acquire lock ctx) inner) _ (after_sleeps n)
            (Tried n) Anyhow (acquire-Tried inner n)
            (elim [
              | none ↦ λ _ _. tt
              | some e ↦ λ m same. (
                wait_after-eq-min n ∙ ap (λ k. min (2 ^ k * first_wait) max_wait) (sym same),
                λ _ _.
                    subst
                      (λ k.
                        Safe backoff (acquire_loop rounds inner lock ctx (wait_after (suc n)))
                          (after_sleeps (suc k)) Anyhow)
                      (sym same) (acquire_loop-BacksOff rounds inner (suc n)),
              )
            ])
    ],
  )

-- `AcquireLock` sleeps after each failed attempt for the lock, 2 ^ n seconds after n others and at
-- most one minute: it does not read the DaemonSet again without such a sleep, or the shorter one
-- after a conflict.
pub acquire_lock-BacksOff :
    (rounds : ℕ) (k : Option Kube) (ctx : Context)
    → Safe backoff (Kube.acquire_lock rounds k ctx) (after_sleeps 0) Anyhow
unfolding Kube.acquire_lock
acquire_lock-BacksOff rounds k ctx = elim (Option-cases (Kube.lock_of k)) [
  | inl e ↦ rw (e, Kube.acquire_lock) tt
  | inr (lock, e) ↦ rw (e, Kube.acquire_lock) (acquire_loop-BacksOff lock ctx rounds rounds 0)
]
