-- ===== src/Main/Kube/Deadline.antt =====
-- kube.go: `AcquireLock` and the window of a run.
use pharos_host_upgrades.Prelude.{
  ℕ, zero, suc, ◌<◌, ◌≤◌, ◌≡◌, ◌≢◌, refl, Bool, true, false, Option, none, some, inl, inr,
  Option-cases, arith,
}
use pharos_host_upgrades.Effects.{
  Error, MaybeError, ok, err, is_conflict, DaemonSet, Context, Op, Resp, kube, process, file,
  system, now, ctx_err, sleep, sleep_jittered, receive_start, run_command, panics, log_fatal, Prog,
}
use pharos_host_upgrades.Effects.Logic.{
  Monitor, Safe, Safe-bind, Safe-weaken, Safe-if, Safe-Within, Within, Within-weaken, Ignores,
}
use pharos_host_upgrades.Kube.Lock
use pharos_host_upgrades.Kube.Lock.{Lock, finish_round, modify, wait_and_acquire, acquire}
use pharos_host_upgrades.Kube.Lock.Calls.{IsWatch, wait_and_acquire-IsWatch}
use pharos_host_upgrades.Kube.Node.{is_some}
use pharos_host_upgrades.Main.Kube
use pharos_host_upgrades.Main.Kube.{Kube, acquire_loop, next_wait, first_wait}

abbrev pub has_deadline : Context → Bool
has_deadline ctx = is_some ctx.deadline

-- The window of a run: it is over after so many more looks at a context with a deadline, or it has
-- been seen to be over.
pub data Window : Type 0 where
  live : ℕ → Window
  over : Window

-- Once the window is seen to be over, the program only waits and looks at the context.
abbrev MayCall : Window → Op → Type 0
MayCall (live _) _ = Unit {0}
MayCall over (process (ctx_err _)) = Unit {0}
MayCall over (process (sleep _)) = Unit {0}
MayCall over _ = ⊥

-- A context with a deadline is over from then on.
abbrev Expires : Window → (o : Op) → Resp o → Type 0
Expires over (process (ctx_err c)) r = has_deadline c ≡ true → r ≢ none
Expires (live zero) (process (ctx_err c)) r = has_deadline c ≡ true → r ≢ none
Expires _ _ _ = Unit {0}

abbrev look : Bool → ℕ → MaybeError → Window
look false n r = live n
look true n (some e) = over
look true zero none = live zero
look true (suc n) none = live n

abbrev looked : Window → (o : Op) → Resp o → Window
looked (live n) (process (ctx_err c)) r = look (has_deadline c) n r
looked m _ _ = m

-- A loop may not use up its rounds once the window is seen to be over.
abbrev MayStop : Window → Type 0
MayStop (live _) = Unit {0}
MayStop over = ⊥

abbrev pub expiry : Monitor Window
expiry = record { Pre = MayCall; Admits = Expires; next = looked; Out = MayStop }

-- A function that has seen the window to be over returns an error.
abbrev pub GivesUp : MaybeError → Window → Type 0
GivesUp e over = e ≢ none
GivesUp e (live _) = Unit {0}

-- The same, where the window is over after at most `n` more looks.
abbrev LooksOn : ℕ → MaybeError → Window → Type 0
LooksOn n e over = e ≢ none
LooksOn n e (live k) = k ≤ n

-- Calls that neither look at a context with a deadline nor receive from the scheduler's channel.
abbrev pub IsTimeless : Op → Type 0
IsTimeless (process (ctx_err c)) = has_deadline c ≡ false
IsTimeless (process receive_start) = ⊥
IsTimeless _ = Unit {0}

IsTimeless-looked : (n : ℕ) (o : Op) (r : Resp o) → IsTimeless o → looked (live n) o r ≡ live n
IsTimeless-looked n (kube o) r other = refl
IsTimeless-looked n (file o) r other = refl
IsTimeless-looked n (system o) r other = refl
IsTimeless-looked n (process (ctx_err c)) r other = rw other refl
IsTimeless-looked n (process now) r other = refl
IsTimeless-looked n (process (sleep d)) r other = refl
IsTimeless-looked n (process (sleep_jittered d)) r other = refl
IsTimeless-looked n (process receive_start) r other = refl
IsTimeless-looked n (process (run_command name args)) r other = refl
IsTimeless-looked n (process (panics text)) r other = refl
IsTimeless-looked n (process (log_fatal e)) r other = refl

pub IsTimeless-Ignores : (n : ℕ) → Ignores expiry IsTimeless (live n)
IsTimeless-Ignores n = record {
  allowed = λ o _. tt;
  unmoved = λ o r h. IsTimeless-looked n o r h;
  ends = tt;
}

pub some-ne-none : (e : Error) → Path MaybeError (some e) none → ⊥
some-ne-none e n = cc

IsWatch-IsTimeless : (o : Op) → IsWatch o → IsTimeless o
IsWatch-IsTimeless (process (ctx_err c)) watches = absurd watches
IsWatch-IsTimeless (process receive_start) watches = absurd watches
IsWatch-IsTimeless _ watches = tt

pub wait_and_acquire-IsTimeless :
    (lock : Lock) (ctx : Context) (object : DaemonSet)
    → Within IsTimeless (wait_and_acquire lock ctx object)
wait_and_acquire-IsTimeless lock ctx object =
    Within-weaken IsWatch IsTimeless IsWatch-IsTimeless _ (wait_and_acquire-IsWatch lock ctx object)

LooksOn-suc : (n : ℕ) (e : MaybeError) (m : Window) → LooksOn n e m → LooksOn (suc n) e m
LooksOn-suc n e over fails = fails
LooksOn-suc n e (live k) fewer = omega (arith, fewer)

module _ (lock : Lock) (ctx : Context) (limited : has_deadline ctx ≡ true) where
  module _ (fn : DaemonSet → Prog (MaybeError × DaemonSet)) where
    finish_round-GivesUp :
        (again : Prog MaybeError) (failure : MaybeError) (new : DaemonSet) (n : ℕ)
        → Safe expiry again (live n) (LooksOn (suc n))
        → Safe expiry (finish_round lock ctx fn again (failure, new)) (live n) (LooksOn (suc n))
    unfolding finish_round Lock.update
    finish_round-GivesUp again (some e) new n next = omega arith
    finish_round-GivesUp again none new n next = (
      tt,
      elim [
        | ok stored ↦ λ _. omega arith
        | err e ↦ λ _.
            Safe-if expiry (is_conflict e) _ _ (live n) (LooksOn (suc n)) (λ _. (tt, λ _ _. next))
              (λ _. omega arith)
      ],
    )

    modify-GivesUp :
        (other : (object : DaemonSet) → Within IsTimeless (fn object)) (rounds n : ℕ)
        → n < rounds
        → Safe expiry (modify lock ctx fn rounds) (live n) (LooksOn n)
    unfolding modify Lock.get
    modify-GivesUp other zero n fewer = absurd (omega (arith, fewer))
    modify-GivesUp other (suc rounds) zero fewer = (
      tt,
      elim [
        | some e ↦ λ _. rw limited (some-ne-none e)
        | none ↦ λ ends. absurd (ends limited refl)
      ],
    )
    modify-GivesUp other (suc rounds) (suc n) fewer = (
      tt,
      elim [
        | some e ↦ λ _. rw limited (some-ne-none e)
        | none ↦ λ _. rw limited (
          tt,
          elim [
            | err e ↦ λ _. omega arith
            | ok object ↦ λ _.
                let again = modify lock ctx fn rounds in
                Safe-bind expiry (fn object) (finish_round lock ctx fn again) (live n)
                  (λ _ m. m ≡ live n) (LooksOn (suc n))
                  (Safe-Within expiry IsTimeless (live n) (IsTimeless-Ignores n) (fn object)
                    (other object))
                  λ r m same. rw same (
                    finish_round-GivesUp again r.0 r.1 n (
                      Safe-weaken expiry again (live n) (LooksOn-suc n)
                        (modify-GivesUp other rounds n (omega (arith, fewer)))))
          ],
        )
      ],
    )

  over-GivesUp :
      (rounds inner wait : ℕ)
      → 0 < rounds
      → Safe expiry (acquire_loop rounds inner lock ctx wait) over GivesUp
  unfolding acquire_loop
  over-GivesUp zero inner wait left = absurd (omega (arith, left))
  over-GivesUp (suc rounds) inner wait left =
      (tt, elim [ some e ↦ λ _. some-ne-none e | none ↦ λ ends. absurd (ends limited refl) ])

  acquire_loop-GivesUp :
      (rounds inner wait n : ℕ)
      → n < rounds
      → n < inner
      → Safe expiry (acquire_loop rounds inner lock ctx wait) (live n) GivesUp
  unfolding acquire_loop acquire
  acquire_loop-GivesUp zero inner wait n fewer inside = absurd (omega (arith, fewer))
  acquire_loop-GivesUp (suc rounds) inner wait zero fewer inside = (
    tt,
    elim [ some e ↦ λ _. rw limited (some-ne-none e) | none ↦ λ ends. absurd (ends limited refl) ],
  )
  acquire_loop-GivesUp (suc rounds) inner wait (suc n) fewer inside = (
    tt,
    elim [
      | some e ↦ λ _. rw limited (some-ne-none e)
      | none ↦ λ _. rw limited (
          Safe-bind expiry (modify lock ctx (wait_and_acquire lock ctx) inner) _ (live n)
            (LooksOn n) GivesUp
            (modify-GivesUp (wait_and_acquire lock ctx) (wait_and_acquire-IsTimeless lock ctx) inner
              n (omega (arith, inside)))
            (elim [
              | none ↦ elim [ over ↦ λ fails. fails | live k ↦ λ _. tt ]
              | some e ↦ elim [
                | over ↦ λ _.
                    (tt, λ _ _. over-GivesUp rounds inner (next_wait wait) (omega (arith, fewer)))
                | live k ↦ λ looks. (
                  tt,
                  λ _ _.
                      acquire_loop-GivesUp rounds inner (next_wait wait) k
                        (omega (arith, looks, fewer)) (omega (arith, looks, inside)),
                )
              ]
            ]))
    ],
  )

-- If the context has a deadline and is over after fewer looks at it than there are rounds, then
-- `AcquireLock` ends, and once it has seen the context to be over it makes no more calls than to
-- wait and to look at the context, and returns an error. Without a lock it returns at once.
pub acquire_lock-GivesUp :
    (rounds : ℕ) (k : Option Kube) (ctx : Context) (n : ℕ)
    → has_deadline ctx ≡ true
    → n < rounds
    → Safe expiry (Kube.acquire_lock rounds k ctx) (live n) GivesUp
unfolding Kube.acquire_lock
acquire_lock-GivesUp rounds k ctx n limited fewer = elim (Option-cases (Kube.lock_of k)) [
  | inl e ↦ rw (e, Kube.acquire_lock) tt
  | inr (lock, e) ↦
      rw (e, Kube.acquire_lock)
        (acquire_loop-GivesUp lock ctx limited rounds rounds first_wait n fewer fewer)
]
