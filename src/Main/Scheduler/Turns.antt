-- ===== src/Main/Scheduler/Turns.antt =====
-- scheduler.go: the turns of the loop over the channel.
use pharos_host_upgrades.Prelude.{
  ℕ, zero, suc, ◌≡◌, ◌≢◌, refl, sym, ◌∙◌, ap, subst, Option, none, some, List, ◌∷◌, ◌++◌,
}
use pharos_host_upgrades.Effects.{
  MaybeError, Time, Context, Op, Resp, process, receive_start, now, Prog, ret, call, out_of_rounds,
  fatal, ◌>>=◌, ◌>>◌, ask_process,
}
use pharos_host_upgrades.Effects.Logic.{Within}
use pharos_host_upgrades.Main.Scheduler.{Scheduler, run_context, run_loop, goroutine}
use pharos_host_upgrades.Main.Scheduler.Threads.{
  Loop, runs, parked, Threads, send, trigger, tick, select, park, act, Reach, start, next,
}

-- Calls that do not receive from the channel.
abbrev pub Silent : Op → Type 0
Silent o = o ≢ process receive_start

-- A program after some of its calls.
pub data Leads {A : Type 0} (p : Prog A) : Prog A → Type 0 where
  here : Leads p p
  later : {o : Op} {k : Resp o → Prog A} (r : Resp o) → Leads p (call o k) → Leads p (k r)

Leads-Within : {A : Type 0} {p q : Prog A} → Leads p q → Within Silent p → Within Silent q
Leads-Within here within = within
Leads-Within (later r leads) within = (Leads-Within leads within).1 r

-- A call other than a receive leads from one program to the other.
abbrev Resumes : Loop → Prog (Unit {0}) → Type 0
Resumes (runs (call o k)) q = Silent o × ((r : Resp o) × (k r ≡ q))
Resumes _ q = ⊥

-- The program comes to a receive, and goes on so.
abbrev Parks : Prog (Unit {0}) → (Option Time → Prog (Unit {0})) → Type 0
Parks (call (process receive_start) k) k' = k ≡ k'
Parks _ k' = ⊥

abbrev ParksAt : Loop → (Option Time → Prog (Unit {0})) → Type 0
ParksAt (runs p) k = Parks p k
ParksAt (parked _) k = ⊥

Parks-Silent :
    (o : Op) (k : Resp o → Prog (Unit {0})) (k' : Option Time → Prog (Unit {0}))
    → Silent o
    → Parks (call o k) k'
    → ⊥
Parks-Silent (process receive_start) k k' silent parks = silent refl
Parks-Silent _ k k' silent parks = parks

module _ (scheduler : Scheduler) (f : Context → Prog MaybeError) where
  -- What the loop does with the end of a run.
  abbrev pub after_run : ℕ → MaybeError → Prog (Unit {0})
  after_run rounds failure = elim failure [
    | some e ↦ fatal e
    | none ↦ do ask_process now; run_loop rounds scheduler f
  ]

  -- What the loop does with what it receives.
  abbrev pub received : ℕ → Option Time → Prog (Unit {0})
  received rounds r = elim r [
    | none ↦ ret tt
    | some t ↦ do
      failure ← f (run_context scheduler t)
      elim failure [ some e ↦ fatal e | none ↦ do ask_process now; run_loop rounds scheduler f ]
  ]

  -- The loop is at the start, is about to receive or has used up its rounds, is blocked at its
  -- receive, or is in the run of the latest time that was sent.
  pub data Turn (started : List Time) (loop : Loop) : Type 0 where
    starting : (rounds : ℕ) → loop ≡ runs (goroutine rounds scheduler f) → Turn started loop
    between : (rounds : ℕ) → loop ≡ runs (run_loop rounds scheduler f) → Turn started loop
    waiting :
        (rounds : ℕ) (k : Option Time → Prog (Unit {0}))
        → loop ≡ parked k
        → ((t : Time) → k (some t) ≡ received rounds (some t))
        → Turn started loop
    running :
        (rounds : ℕ) (t : Time) (earlier : List Time) (p : Prog MaybeError)
        → started ≡ t ∷ earlier
        → Leads (f (run_context scheduler t)) p
        → loop ≡ runs (p >>= after_run rounds)
        → Turn started loop

  -- How a trigger's choice turns out: its time is sent to the loop that is blocked at its receive,
  -- which begins a run with the context of that time, or it is skipped by a loop that is not
  -- blocked there.
  pub data Choice (t : Time) (s : Threads) : Type 0 where
    sent :
        (rounds : ℕ) (k : Option Time → Prog (Unit {0}))
        → s.loop ≡ parked k
        → trigger t s ≡ record s {
          loop = runs (f (run_context scheduler t) >>= after_run rounds);
          started = t ∷ s.started;
        }
        → Choice t s
    skip :
        Turn s.started s.loop
        → (p : Prog (Unit {0})) → s.loop ≡ runs p
        → trigger t s ≡ s
        → Choice t s

  -- A run does not come to a receive.
  run-Parks :
      (rounds : ℕ) (p : Prog MaybeError) (k : Option Time → Prog (Unit {0}))
      → Within Silent p
      → Parks (p >>= after_run rounds) k
      → ⊥
  run-Parks rounds (ret (some e)) k within parks = parks
  run-Parks rounds (ret none) k within parks = parks
  run-Parks rounds (call o k') k within parks =
      Parks-Silent o (λ r. k' r >>= after_run rounds) k within.0 parks
  run-Parks rounds out_of_rounds k within parks = parks

  run_loop-Parks :
      (rounds : ℕ) (k : Option Time → Prog (Unit {0})) (started : List Time)
      → Parks (run_loop rounds scheduler f) k
      → Turn started (parked k)
  unfolding run_loop
  run_loop-Parks zero k started parks = absurd parks
  run_loop-Parks (suc rounds) k started parks =
      waiting rounds k refl (λ t. sym (ap (λ g. g (some t)) parks))

  -- A loop that goes on from a call other than a receive goes on to its next round.
  run_loop-Resumes :
      (rounds : ℕ) (q : Prog (Unit {0})) → Resumes (runs (run_loop rounds scheduler f)) q → ⊥
  unfolding run_loop
  run_loop-Resumes zero q moves = moves
  run_loop-Resumes (suc rounds) q moves = moves.0 refl

  module _ (silent : (ctx : Context) → Within Silent (f ctx)) where
    Parks-Turn :
        (started : List Time) (loop : Loop) (p : Prog (Unit {0}))
        (k : Option Time → Prog (Unit {0}))
        → loop ≡ runs p
        → Parks p k
        → Turn started loop
        → Turn started (parked k)
    unfolding goroutine
    Parks-Turn started loop p k at_p parks (starting rounds at) =
        absurd (subst (λ l. ParksAt l k) (sym at_p ∙ at) parks)
    Parks-Turn started loop p k at_p parks (between rounds at) =
        run_loop-Parks rounds k started (subst (λ l. ParksAt l k) (sym at_p ∙ at) parks)
    Parks-Turn started loop p k at_p parks (waiting rounds k' at same) =
        absurd (subst (λ l. ParksAt l k) (sym at_p ∙ at) parks)
    Parks-Turn started loop p k at_p parks (running rounds t earlier q latest leads at) = absurd (
        run-Parks rounds q k (Leads-Within leads (silent (run_context scheduler t)))
          (subst (λ l. ParksAt l k) (sym at_p ∙ at) parks))

    Resumes-Turn :
        (started : List Time) (loop : Loop) (q : Prog (Unit {0}))
        → Resumes loop q
        → Turn started loop
        → Turn started (runs q)
    unfolding goroutine
    Resumes-Turn started loop q moves (starting rounds at) =
        let (_, (_, e)) = subst (λ l. Resumes l q) at moves in between rounds (ap runs (sym e))
    Resumes-Turn started loop q moves (between rounds at) =
        absurd (run_loop-Resumes rounds q (subst (λ l. Resumes l q) at moves))
    Resumes-Turn started loop q moves (waiting rounds k at same) =
        absurd (subst (λ l. Resumes l q) at moves)
    Resumes-Turn started loop q moves (running rounds t earlier p latest leads at) =
        in_run p leads (subst (λ l. Resumes l q) at moves)
      where
        in_run :
            (p : Prog MaybeError)
            → Leads (f (run_context scheduler t)) p
            → Resumes (runs (p >>= after_run rounds)) q
            → Turn started (runs q)
        in_run (ret (some e)) leads (_, (r, _)) = absurd r
        in_run (ret none) leads (_, (r, e)) = between rounds (ap runs (sym e))
        in_run (call o k) leads (_, (r, e)) =
            running rounds t earlier (k r) latest (Leads.later r leads) (ap runs (sym e))
        in_run out_of_rounds leads n = absurd n

    Turn-Choice : (t : Time) (s : Threads) → Turn s.started s.loop → Choice t s
    Turn-Choice t s (starting rounds at) =
        skip (starting rounds at) (goroutine rounds scheduler f) at (rw (at, trigger) refl)
    Turn-Choice t s (between rounds at) =
        skip (between rounds at) (run_loop rounds scheduler f) at (rw (at, trigger) refl)
    Turn-Choice t s (waiting rounds k at same) =
        sent rounds k at (
          ap (send t s) at ∙ ap (λ p. record s { loop = runs p; started = t ∷ s.started }) (same t))
    Turn-Choice t s (running rounds t' earlier p latest leads at) =
        skip (running rounds t' earlier p latest leads at) (p >>= after_run rounds) at
          (rw (at, trigger) refl)

    Choice-Turn :
        (t : Time) (s : Threads) → Choice t s → Turn (trigger t s).started (trigger t s).loop
    Choice-Turn t s (sent rounds k at e) =
        rw e (running rounds t s.started (f (run_context scheduler t)) refl Leads.here refl)
    Choice-Turn t s (skip turn p at e) = rw e turn

    -- Whatever the threads do, the loop is in one of its turns: a run that is under way is that of
    -- the latest time that was sent, with the context of that time, so that no two runs are under
    -- way at once. The function that the scheduler runs does not receive from the channel.
    pub Reach-Turn : {rounds : ℕ} {s : Threads} → Reach rounds scheduler f s → Turn s.started s.loop
    Reach-Turn {rounds} start = starting rounds refl
    Reach-Turn (next reach (tick t)) = Reach-Turn reach
    Reach-Turn (next {s} reach (select before after t e)) =
        let kept = record s { sending = before ++ after } in
        Choice-Turn t kept (Turn-Choice t kept (Reach-Turn reach))
    Reach-Turn (next {s} reach (park {k} e)) =
        Parks-Turn s.started s.loop (call (process receive_start) k) k e refl (Reach-Turn reach)
    Reach-Turn (next {s} reach (act {o} {k} r e no_receive)) =
        Resumes-Turn s.started s.loop (k r)
          (subst (λ l. Resumes l (k r)) (sym e) (no_receive, (r, refl))) (Reach-Turn reach)

    -- A trigger's time is sent if the loop is blocked at its receive, and starts a run with the
    -- context of that time; it is skipped, and changes nothing, only while the loop is at its start,
    -- in a run, between two runs or out of rounds. The function that the scheduler runs does not
    -- receive from the channel.
    pub Reach-Choice :
        {rounds : ℕ} {s : Threads} (t : Time) → Reach rounds scheduler f s → Choice t s
    Reach-Choice {s = s} t reach = Turn-Choice t s (Reach-Turn reach)
