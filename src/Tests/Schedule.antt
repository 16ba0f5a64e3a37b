-- ===== src/Tests/Schedule.antt =====
-- The threads of the scheduler: two triggers, of which one is sent and one is skipped.
use mathlib.Core.Bool.{false≢true}
use pharos_host_upgrades.Prelude.{Bool, true, false, ap, pos, ◌≢◌, refl, some, [], ◌∷◌}
use pharos_host_upgrades.Effects.{
  Op, MaybeError, Context, process, now, ctx_err, receive_start, Prog, ask_process,
}
use pharos_host_upgrades.Effects.Logic.{Within}
use pharos_host_upgrades.Main.Scheduler.{Scheduler, goroutine, run_context, run_loop}
use pharos_host_upgrades.Main.Scheduler.Threads.{
  runs, parked, park, Threads, Reach, tick, select, act, start, next,
}
use pharos_host_upgrades.Main.Scheduler.Turns.{Silent, received, Turn, Choice, Reach-Choice}
use pharos_host_upgrades.Hosts.Apt
use pharos_host_upgrades.Hosts.Kinds
use pharos_host_upgrades.Main.Run
use pharos_host_upgrades.Protocol.Host.Kinds.{any_host-FollowsLock}
use pharos_host_upgrades.Protocol.Turns.{upgrade_run-Turn}
use pharos_host_upgrades.Tests.Tools.{tools}
use pharos_host_upgrades.Tests.Surroundings.{methods, options}
use pharos_host_upgrades.Tests.Rules.{kube}

abbrev hourly : Scheduler
hourly = record { option = "@hourly"; schedule = some 0; window = pos 10 }

-- A run that looks at its context.
abbrev look : Context → Prog MaybeError
look ctx = ask_process (ctx_err ctx)

is_receive : Op → Bool
is_receive (process receive_start) = true
is_receive _ = false

ctx_err-ne_receive : (ctx : Context) → process (ctx_err ctx) ≢ process receive_start
unfolding is_receive
ctx_err-ne_receive ctx e = false≢true (ap is_receive e)

now-ne_receive : process now ≢ process receive_start
unfolding is_receive
now-ne_receive e = false≢true (ap is_receive e)

look-Silent : (ctx : Context) → Within Silent (look ctx)
look-Silent ctx = (λ e. ctx_err-ne_receive ctx e, λ r. tt)

module _ (f : Context → Prog MaybeError) where
  abbrev ticked : Threads
  ticked = record { loop = parked (received hourly f 2); sending = 6 ∷ 5 ∷ []; started = [] }

  ticked-Reach : Reach 3 hourly f ticked
  unfolding goroutine run_loop
  ticked-Reach =
      next (next (next (next start (act 3 refl now-ne_receive)) (tick 5)) (tick 6)) (park refl)

  -- The first of the triggers is sent, and its run begins.
  abbrev sent_first : Threads
  sent_first = record ticked {
    loop = runs (received hourly f 2 (some 5));
    sending = 6 ∷ [];
    started = 5 ∷ [];
  }

  sent_first-Reach : Reach 3 hourly f sent_first
  unfolding run_context
  sent_first-Reach = next ticked-Reach (select (6 ∷ []) [] 5 refl)

-- The other trigger finds the loop in its run.
abbrev in_run : Threads
in_run = record (sent_first look) { sending = [] }

in_run-Reach : Reach 3 hourly look in_run
in_run-Reach = next (sent_first-Reach look) (select [] [] 6 refl)

abbrev upgrades : Context → Prog MaybeError
upgrades = Run.upgrade_run tools methods (options 2) 9 (Kinds.debian Apt.new) (some kube)

upgrade_run-Turn_example : Turn hourly upgrades (5 ∷ []) (sent_first upgrades).loop
upgrade_run-Turn_example =
    upgrade_run-Turn tools methods (any_host-FollowsLock tools true 9) (options 2) 9
      (Kinds.debian Apt.new) (some kube) (sent_first-Reach upgrades)

Reach-Choice_example : Choice hourly look 7 in_run
Reach-Choice_example = Reach-Choice hourly look look-Silent 7 in_run-Reach
