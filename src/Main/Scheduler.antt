-- ===== src/Main/Scheduler.antt =====
-- scheduler.go, as one thread: each receive from the channel gives a start time. The goroutines that
-- send to it are in Threads. The loop over the channel takes the rounds that it may make.
pub mod Threads
pub mod Turns
use pharos_host_upgrades.Prelude.{
  ℕ, zero, suc, String, ◌<>◌, Bool, true, false, Option, none, some, pos, ◌==◌, if◌then◌else◌,
}
use pharos_host_upgrades.Effects.{
  MaybeError, Result, ok, err, wrap, Time, Duration, add_duration, Context, now, receive_start,
  Prog, ret, out_of_rounds, ◌>>=◌, ◌>>◌, ask_process, fatal,
}
use pharos_host_upgrades.External.{External}
use pharos_host_upgrades.Kube.Lock.{background}
use pharos_host_upgrades.Main.Config.{Options}

pub record Scheduler : Type 0 where
  pub option : String
  -- `none` is the nil schedule
  pub schedule : Option ℕ
  pub window : Duration

unfoldable pub make_scheduler : External → Options → Result Scheduler
make_scheduler ext options =
    let scheduler : Scheduler = record {
      option = options.schedule;
      schedule = none;
      window = options.schedule_window;
    } in
    if options.schedule == "" then ok scheduler else elim (ext.parse_standard options.schedule) [
      | err e ↦ err (wrap ("Invalid --schedule=" <> options.schedule <> ": ") e)
      | ok schedule ↦ ok (record scheduler { schedule = some schedule })
    ]

abbrev is_zero : Duration → Bool
is_zero (pos zero) = true
is_zero _ = false

-- The context of the run that starts at a time.
unfoldable pub run_context : Scheduler → Time → Context
run_context scheduler start =
    if is_zero scheduler.window
    then background
    else record { deadline = some (add_duration start scheduler.window) }

-- The loop of `run` over the channel.
unfoldable pub run_loop : ℕ → Scheduler → (Context → Prog MaybeError) → Prog (Unit {0})
unfolding run_context
run_loop zero scheduler f = out_of_rounds
run_loop (suc rounds) scheduler f = do
  received ← ask_process receive_start
  elim received [
    | none ↦ ret tt
    | some start ↦ do
      failure ← f (run_context scheduler start)
      elim failure [ some e ↦ fatal e | none ↦ do ask_process now; run_loop rounds scheduler f ]
  ]

-- The goroutine that `Run` starts: `run`
unfoldable pub goroutine : ℕ → Scheduler → (Context → Prog MaybeError) → Prog (Unit {0})
unfolding run_loop
goroutine rounds scheduler f = do ask_process now; run_loop rounds scheduler f

-- `Run`: once, or on schedule
unfoldable pub run : ℕ → Scheduler → (Context → Prog MaybeError) → Prog MaybeError
unfolding goroutine
run rounds scheduler f = elim scheduler.schedule [
  | none ↦ f background
  | some _ ↦ do goroutine rounds scheduler f; ret none
]
