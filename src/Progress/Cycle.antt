-- ===== src/Progress/Cycle.antt =====
-- main.go and kube.go: a run that reboots its host, and the start of the program after the reboot,
-- in a world that does its part.
use pharos_host_upgrades.Prelude.{ℕ, ◌<◌, ◌≡◌, false, Option, none, some}
use pharos_host_upgrades.Effects.{MaybeError, Result, ok}
use pharos_host_upgrades.Effects.Logic.{Safe}
use pharos_host_upgrades.External.{External}
use pharos_host_upgrades.Kube.Lock.Ownership.{is_acquired}
use pharos_host_upgrades.Kube.Node.{Node, annotation_of}
use pharos_host_upgrades.Hosts.Interface.{Info}
use pharos_host_upgrades.Main.Config.{Options}
use pharos_host_upgrades.Main.Kube
use pharos_host_upgrades.Main.Kube.{Kube, kube_reboot_annotation, kube_drain_annotation}
use pharos_host_upgrades.Main.Run
use pharos_host_upgrades.Progress.{World, progress}
use pharos_host_upgrades.Progress.Restart.{lock_for}

-- The program has initialized, and the node is in service: it can be scheduled, carries neither
-- mark, and does not hold the lock.
pub record IsInService (options : Options) (r : Result (Option Kube)) (m : World) : Type 0 where
  pub client : ℕ
  pub kube : Kube
  pub made : r ≡ ok (some kube)
  pub unmarked : annotation_of m.node kube_reboot_annotation ≡ none
  pub undrained : annotation_of m.node kube_drain_annotation ≡ none
  pub schedulable : m.node.unschedulable ≡ false
  pub not_acquired : is_acquired (lock_for options.kube client) m.daemonset ≡ false

-- However far the clock has come since and however many conflicts other clients will cause: the start
-- of the program brings the node back into service.
abbrev pub ComesBack : External → ℕ → Options → Info → MaybeError → World → Type 0
ComesBack ext rounds options info e m =
    (later conflicts : ℕ)
    → conflicts < rounds
    → Safe progress (Kube.make_kube ext rounds options.kube info)
        (record m { horizon = later; conflicts = conflicts }) (IsInService options)
