-- ===== src/Main/Scheduler/Threads.antt =====
-- scheduler.go, as threads: the goroutine of `run`, and one for each time that the cron library
-- calls the job, which is `trigger`. They meet at a channel without a buffer.
use pharos_host_upgrades.Prelude.{ℕ, ◌≡◌, ◌≢◌, Option, some, List, [], ◌∷◌, ◌++◌}
use pharos_host_upgrades.Effects.{
  MaybeError, Time, Context, Op, Resp, process, receive_start, Prog, call,
}
use pharos_host_upgrades.Main.Scheduler.{Scheduler, goroutine}

-- The goroutine of `run`: it goes on with the rest of its program, or it is blocked at the receive
-- of its loop and goes on from what it receives.
pub data Loop : Type 0 where
  runs : Prog (Unit {0}) → Loop
  parked : (Option Time → Prog (Unit {0})) → Loop

pub record Threads : Type 0 where
  pub loop : Loop
  -- the triggers that have read the clock, and are about to send
  pub sending : List Time
  -- the times that were sent, the latest first
  pub started : List Time

-- The `select` of `trigger`: a receiver that is blocked gets the time, and without one it is skipped.
abbrev pub send : Time → Threads → Loop → Threads
send t s (parked k) = record s { loop = runs (k (some t)); started = t ∷ s.started }
send t s (runs p) = s

abbrev pub trigger : Time → Threads → Threads
trigger t s = send t s s.loop

pub data Step (s : Threads) : Threads → Type 0 where
  -- The cron library calls the job, which reads the clock.
  tick : (t : Time) → Step s (record s { sending = t ∷ s.sending })
  -- One of the triggers makes its choice.
  select :
      (before after : List Time) (t : Time)
      → s.sending ≡ before ++ t ∷ after
      → Step s (trigger t (record s { sending = before ++ after }))
  -- The goroutine of `run` comes to the receive, and is blocked.
  park :
      {k : Option Time → Prog (Unit {0})}
      → s.loop ≡ runs (call (process receive_start) k)
      → Step s (record s { loop = parked k })
  -- The goroutine of `run` makes a call other than the receive.
  act :
      {o : Op} {k : Resp o → Prog (Unit {0})} (r : Resp o)
      → s.loop ≡ runs (call o k)
      → o ≢ process receive_start
      → Step s (record s { loop = runs (k r) })

-- `Run` on a schedule: the goroutine, and then the cron library, which does not return.
abbrev pub first : ℕ → Scheduler → (Context → Prog MaybeError) → Threads
first rounds scheduler f = record {
  loop = runs (goroutine rounds scheduler f);
  sending = [];
  started = [];
}

pub data Reach (rounds : ℕ) (scheduler : Scheduler) (f : Context → Prog MaybeError)
    : Threads → Type 0 where
  start : Reach rounds scheduler f (first rounds scheduler f)
  next : {s s' : Threads} → Reach rounds scheduler f s → Step s s' → Reach rounds scheduler f s'
