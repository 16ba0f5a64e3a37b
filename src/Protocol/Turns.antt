-- ===== src/Protocol/Turns.antt =====
-- scheduler.go and main.go: the turns of the scheduled upgrades.
use pharos_host_upgrades.Prelude.{ℕ, zero, suc, subst, Option, none, some, inl, inr, Option-cases}
use pharos_host_upgrades.Effects.{Context, Op, process, receive_start}
use pharos_host_upgrades.Effects.Logic.{Within, Within-bind, Within-weaken}
use pharos_host_upgrades.External.{External}
use pharos_host_upgrades.Hosts.Interface.{Host}
use pharos_host_upgrades.Kube.Lock.{Lock, modify, acquire, wait_and_acquire}
use pharos_host_upgrades.Kube.Lock.Calls.{modify-Within}
use pharos_host_upgrades.Main.Config.{Options}
use pharos_host_upgrades.Main.Kube
use pharos_host_upgrades.Main.Kube.{Kube, acquire_loop, next_wait, first_wait}
use pharos_host_upgrades.Main.Kube.Deadline.{IsTimeless, wait_and_acquire-IsTimeless}
use pharos_host_upgrades.Main.Run
use pharos_host_upgrades.Main.Scheduler.{Scheduler}
use pharos_host_upgrades.Main.Scheduler.Threads.{Threads, Reach}
use pharos_host_upgrades.Main.Scheduler.Turns.{Silent, Turn, Reach-Turn}
use pharos_host_upgrades.Protocol.{IsApart}
use pharos_host_upgrades.Protocol.Window.{finish_run-IsTimeless}
use pharos_host_upgrades.Protocol.MainCalls.{FollowsLock, upgrade_locked-Apart}

-- Calls that do not receive from the scheduler's channel.
abbrev IsDeaf : Op → Type 0
IsDeaf (process receive_start) = ⊥
IsDeaf _ = Unit {0}

IsDeaf-Silent : (o : Op) → IsDeaf o → Silent o
IsDeaf-Silent o deaf e = subst IsDeaf e deaf

IsTimeless-IsDeaf : (o : Op) → IsTimeless o → IsDeaf o
IsTimeless-IsDeaf (process receive_start) other = absurd other
IsTimeless-IsDeaf _ other = tt

IsApart-IsDeaf : (o : Op) → IsApart o → IsDeaf o
IsApart-IsDeaf (process receive_start) apart = absurd apart
IsApart-IsDeaf _ apart = tt

module _ (lock : Lock) (ctx : Context) where
  acquire_loop-IsDeaf :
      (rounds inner wait : ℕ) → Within IsDeaf (acquire_loop rounds inner lock ctx wait)
  unfolding acquire_loop acquire
  acquire_loop-IsDeaf zero inner wait = tt
  acquire_loop-IsDeaf (suc rounds) inner wait = (
    tt,
    elim [
      | some e ↦ tt
      | none ↦
          Within-bind IsDeaf (modify lock ctx (wait_and_acquire lock ctx) inner) _
            (modify-Within IsDeaf lock ctx tt tt (λ _. tt) tt (wait_and_acquire lock ctx)
              (λ object.
                Within-weaken IsTimeless IsDeaf IsTimeless-IsDeaf _
                  (wait_and_acquire-IsTimeless lock ctx object))
              inner)
            (elim [
              | none ↦ tt
              | some e ↦ (tt, λ _. acquire_loop-IsDeaf rounds inner (next_wait wait))
            ])
    ],
  )

acquire_lock-IsDeaf :
    (rounds : ℕ) (k : Option Kube) (ctx : Context) → Within IsDeaf (Kube.acquire_lock rounds k ctx)
unfolding Kube.acquire_lock
acquire_lock-IsDeaf rounds k ctx = elim (Option-cases (Kube.lock_of k)) [
  | inl e ↦ rw (e, Kube.acquire_lock) tt
  | inr (lock, e) ↦
      rw (e, Kube.acquire_lock) (acquire_loop-IsDeaf lock ctx rounds rounds first_wait)
]

module _ (ext : External) {H : Type 0} (methods : Host H) (follows : FollowsLock methods)
    (options : Options) (rounds : ℕ) (host : H) (k : Option Kube) where
  upgrade_run-IsDeaf :
      (ctx : Context) → Within IsDeaf (Run.upgrade_run ext methods options rounds host k ctx)
  unfolding Run.upgrade_run
  upgrade_run-IsDeaf ctx =
      Within-bind IsDeaf (Kube.acquire_lock rounds k ctx) _ (acquire_lock-IsDeaf rounds k ctx)
        (elim [
          | some e ↦ tt
          | none ↦
              Within-bind IsDeaf (Run.upgrade_locked ext methods options rounds host k) _
                (Within-weaken IsApart IsDeaf IsApart-IsDeaf _
                  (upgrade_locked-Apart ext methods follows options rounds host k))
                (λ outcome.
                  Within-weaken IsTimeless IsDeaf IsTimeless-IsDeaf _
                    (finish_run-IsTimeless ext methods options rounds k outcome))
        ])

  -- On a host that follows the rules, whatever the threads of the scheduler do, the loop is at its
  -- start, at its receive, out of rounds, or in one upgrade run, which is that of the latest time
  -- that was sent, with the context of that time: no two upgrade runs are under way at once.
  pub upgrade_run-Turn :
      {turns : ℕ} {scheduler : Scheduler} {s : Threads}
      → Reach turns scheduler (Run.upgrade_run ext methods options rounds host k) s
      → Turn scheduler (Run.upgrade_run ext methods options rounds host k) s.started s.loop
  upgrade_run-Turn {scheduler = scheduler} reach =
      Reach-Turn scheduler (Run.upgrade_run ext methods options rounds host k)
        (λ ctx. Within-weaken IsDeaf Silent IsDeaf-Silent _ (upgrade_run-IsDeaf ctx)) reach
