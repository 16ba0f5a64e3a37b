-- ===== src/Tests/Services.antt =====
-- A node, its host and an API server that do their part, for the theorems on progress.
use pharos_host_upgrades.Prelude.{
  ◌↔◌, nat_eq, false, String, ℕ, ◌≡◌, refl, arith, true, none, some, inr, [], ◌∷◌, get_or_empty,
  find, lookup,
}
use pharos_host_upgrades.Effects.{ok, ret, ◌>>=◌}
use pharos_host_upgrades.Effects.Logic.{Safe}
use pharos_host_upgrades.Effects.Returns.{Returns}
use pharos_host_upgrades.Hosts.Apt
use pharos_host_upgrades.Hosts.Apt.{AptHost}
use pharos_host_upgrades.Hosts.Centos
use pharos_host_upgrades.Hosts.Centos.{CentosHost}
use pharos_host_upgrades.Hosts.Kinds
use pharos_host_upgrades.Hosts.Kinds.FirstMatch.{Picks, probe_first_lem}
use pharos_host_upgrades.Hosts.Interface.{Host, Status, no_info, no_status}
use pharos_host_upgrades.Kube.Lock
use pharos_host_upgrades.Kube.Lock.{Lock}
use pharos_host_upgrades.Kube.Lock.Ownership.{is_acquired, is_available}
use pharos_host_upgrades.Kube.Node.{Node, annotation_of}
use pharos_host_upgrades.Main.Kube
use pharos_host_upgrades.Main.Kube.{Kube, kube_reboot_annotation, kube_drain_annotation}
use pharos_host_upgrades.Main.Run
use pharos_host_upgrades.Main.Run.Alone.{run_alone, upgrade_run-alone, run_configured-default}
use pharos_host_upgrades.Progress.{World, Kept, progress}
use pharos_host_upgrades.Progress.Writes.{Succeeds}
use pharos_host_upgrades.Progress.Locking.{Gives, acquire-progress, release-progress}
use pharos_host_upgrades.Progress.Recovery.{IsBack}
use pharos_host_upgrades.Progress.Machine.Apt.{ubuntu-Upgrades}
use pharos_host_upgrades.Progress.Run.{RunLeaves, upgrade_run-progress}
use pharos_host_upgrades.Progress.Restart.{Makes, Recovered, lock_for, make_kube-progress}
use pharos_host_upgrades.Tests.Tools.{tools, node_name-ne_empty}
use pharos_host_upgrades.Tests.Surroundings.{daemon_set, plain_node, options}
use pharos_host_upgrades.Tests.Rules.{kube, lock, window, reboot_needed, rebooted_info}

-- The lock is free, and two updates may still meet a conflict.
abbrev at_first : World
at_first = record {
  daemonset = daemon_set;
  node = plain_node;
  conflicts = 2;
  horizon = 3;
  flagged = false;
  commands = [];
}

-- The upgrade leaves the file that asks for a reboot.
abbrev asks : World
asks = record at_first { flagged = true }

-- The node holds the lock.
abbrev locked : World
locked = record at_first {
  daemonset = record daemon_set { annotations = some ((Kube.kube_lock_annotation, "xxx") ∷ []) };
}

-- The node holds the lock, is drained, and was marked at time 2.
abbrev away : World
away = record locked {
  node = record plain_node {
    annotations = some ((kube_reboot_annotation, "xx") ∷ (kube_drain_annotation, "true") ∷ []);
    unschedulable = true;
  };
}

-- A host whose upgrade has this result.
abbrev calm : Status → Host (Unit {0})
calm status = record {
  probe = λ h. ret ((no_info, true), h);
  config = λ h _. ret (none, h);
  upgrade = λ _. ret (status, none);
  reboot = λ _. ret none;
}

-- Hosts that have been configured, in a build without cgo.
abbrev apt_host : AptHost
apt_host = record Apt.new { config = record { path = "/etc"; mount = "/run" } }

abbrev yum_host : CentosHost
yum_host = record Centos.new { config = record { path = "/etc"; mount = "/run" } }

abbrev plain_methods : Host Kinds.AnyHost
plain_methods = Kinds.host_methods tools false 9

abbrev this_node : Node
this_node = record { client = some 3; name = "xxx" }

at_first-available : is_available lock at_first.daemonset ≡ true
unfolding Lock.test_object get_or_empty find
at_first-available = refl

locked-acquired : is_acquired lock locked.daemonset ≡ true
unfolding Lock.test_object get_or_empty find
locked-acquired = refl

options-set : Kube.is_set (options 2).kube ≡ true
unfolding Kube.is_set
options-set = refl

acquire-progress_example :
    Safe progress
      (Lock.acquire 5 lock window)
      at_first
      (Succeeds (λ m'. Gives lock "xxx" (some []) m'.daemonset.annotations × Kept at_first m'))
acquire-progress_example =
    acquire-progress lock (node_name-ne_empty 2) 5 window [] at_first refl at_first-available
      (omega arith)

release-progress_example : Safe progress (Lock.release 5 lock) locked (
    Succeeds
      (λ m'. Gives lock "" locked.daemonset.annotations m'.daemonset.annotations × Kept locked m'))
release-progress_example =
    release-progress lock (node_name-ne_empty 2) 5 locked locked-acquired (omega arith)

away-IsBack : IsBack tools rebooted_info away.node
unfolding tools annotation_of lookup find
away-IsBack = inr ("xx", 2, refl, refl, refl)

make_kube-progress_example :
    Safe progress (Kube.make_kube tools 5 (options 2).kube rebooted_info) away (λ r m'.
      (c : ℕ) × (node : Node) × Makes (lock_for (options 2).kube c) node r
      × Recovered (lock_for (options 2).kube c) away m')
make_kube-progress_example =
    make_kube-progress tools 5 (options 2).kube rebooted_info away options-set
      (node_name-ne_empty 2) away-IsBack (omega arith)

upgrade_run-progress_example :
    Safe progress
      (Run.upgrade_run tools plain_methods (options 2) 9 (Kinds.ubuntu apt_host) (some kube) window)
      at_first
      (Succeeds (RunLeaves lock "" at_first))
upgrade_run-progress_example =
    upgrade_run-progress tools plain_methods (Kinds.ubuntu apt_host)
      (ubuntu-Upgrades tools apt_host refl 9) (options 2) kube lock this_node refl refl
      (node_name-ne_empty 2) 9 window [] at_first refl refl at_first-available (omega arith)

upgrade_run-alone_example :
    Run.upgrade_run tools (calm reboot_needed) (options 2) 9 tt none window
    ≡ run_alone tools (calm reboot_needed) (options 2) 9 tt
upgrade_run-alone_example = upgrade_run-alone tools (calm reboot_needed) (options 2) 9 tt window

-- No variable is set.
abbrev no_env : String → String
no_env name = ""

no_env-unset : Kube.is_set (Run.default_flags no_env).options.kube ≡ false
unfolding Kube.is_set Run.default_flags
no_env-unset = refl

run_configured-default_example :
    Run.run_configured tools (calm reboot_needed) (Run.default_flags no_env).options 9 tt no_info
    ≡ ((calm reboot_needed).upgrade tt >>= λ (_, failure). ret failure)
run_configured-default_example =
    run_configured-default tools (calm reboot_needed) 9 no_env tt no_info no_env-unset

-- Hosts that are numbers, of which 2 matches.
abbrev numbered : Host ℕ
numbered = record {
  probe = λ h. ret ((no_info, nat_eq h 2), h);
  config = λ h _. ret (none, h);
  upgrade = λ _. ret (no_status, none);
  reboot = λ _. ret none;
}

probe_first_lem_example :
    Returns (Kinds.probe_first numbered (1 ∷ 2 ∷ 3 ∷ [])) (ok (2, no_info))
    ↔ Picks numbered (1 ∷ 2 ∷ 3 ∷ []) (ok (2, no_info))
probe_first_lem_example = probe_first_lem numbered (1 ∷ 2 ∷ 3 ∷ []) (ok (2, no_info))
