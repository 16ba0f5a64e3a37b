-- ===== src/Tests/Rules.antt =====
-- The theorems on programs, at one node's lock and options.
use pharos_host_upgrades.Main.Kube.Backoff.{
  backoff, after_sleeps, Anyhow as Any_wait, acquire_lock-BacksOff,
}
use pharos_host_upgrades.Main.Kube.Deadline.{expiry, live, GivesUp}
use pharos_host_upgrades.Protocol.Window.{upgrade_run-GivesUp}
use pharos_host_upgrades.Main.Kube.Failure.{AfterFailure, update_host_status-AfterFailure}
use pharos_host_upgrades.Main.Kube.Report.{
  AreOpposite, WritesReport, update_host_status-WritesReport,
}
use pharos_host_upgrades.Main.Run.Prepared.{nothing_done, Anyhow, drain_first}
use pharos_host_upgrades.Main.Run.RebootOrder.{reboot_if_required-drain_first}
use pharos_host_upgrades.Hosts.Interface.{Status, no_status}
use pharos_host_upgrades.Hosts.Config
use pharos_host_upgrades.Hosts.Config.{Config}
use pharos_host_upgrades.Hosts.Config.Replace.{replacing, fresh, Replaced, write_host_file-Replaced}
use pharos_host_upgrades.Hosts.Config.Sources.{
  sourced, copy_host_file-Replaced, generate_file-Replaced,
}
use pharos_host_upgrades.Prelude.{String, ◌<>◌}
use pharos_host_upgrades.Prelude.{[], ◌∷◌, true, false, ◌≡◌, refl, none, some, arith}
use pharos_host_upgrades.Effects.{errorf, Context}
use pharos_host_upgrades.Effects.Logic.{Safe, Within, permissive}
use pharos_host_upgrades.Kube.Client
use pharos_host_upgrades.Kube.Lock
use pharos_host_upgrades.Kube.Lock.{Lock}
use pharos_host_upgrades.Kube.Lock.Rounds.{conflicts, Anyhow as Any_end, acquire-ends, release-ends}
use pharos_host_upgrades.Hosts.Apt
use pharos_host_upgrades.Hosts.Interface.{Info, no_info}
use pharos_host_upgrades.Hosts.Kinds
use pharos_host_upgrades.Main.Kube
use pharos_host_upgrades.Main.Kube.{Kube}
use pharos_host_upgrades.Main.Kube.Recovery.{reads_marked, Fails, make_kube-not_rebooted}
use pharos_host_upgrades.Main.Run
use pharos_host_upgrades.Protocol.{start, lock_id, protocol}
use pharos_host_upgrades.Protocol.LockCalls.{acquire-Safe}
use pharos_host_upgrades.Protocol.RunCalls.{id_of}
use pharos_host_upgrades.Protocol.MainCalls.{FollowsLock, main-Safe}
use pharos_host_upgrades.Protocol.Release.{
  Handover, handover, Freed, release-Freed, upgrade_run-Freed,
}
use pharos_host_upgrades.Protocol.Host.Kinds.{any_host-FollowsLock}
use pharos_host_upgrades.Systemd.Exec
use pharos_host_upgrades.Systemd.Exec.{ExecOptions}
use pharos_host_upgrades.Systemd.Exec.Bus.{unconnected, bus}
use pharos_host_upgrades.Systemd.Exec.Outcome.{Settles, exec-Settles}
use pharos_host_upgrades.Tests.Tools.{tools, node_name-ne_empty}
use pharos_host_upgrades.Tests.Surroundings.{methods, options}

abbrev pub lock : Lock
lock = record (Client.unconnected_lock (options 2).kube Kube.kube_lock_annotation) {
  client = some 4;
}

abbrev pub kube : Kube
kube = record {
  options = (options 2).kube;
  host_info = no_info;
  kube = some (record { config = 1; options = (options 2).kube });
  lock = some lock;
  node = some (record { client = some 3; name = "xxx" });
}

-- A window that ends at time 100.
abbrev pub window : Context
window = record { deadline = some 100 }

abbrev pub rebooted_info : Info
rebooted_info = record no_info { boot_time = 3 }

main-Safe_example :
    Safe
      (protocol (id_of (options 2).kube))
      (Run.main tools methods (options 2) 9 Kinds.probe_hosts)
      start
      (λ _ _. Unit {0})
unfolding Kube.is_set
main-Safe_example =
    main-Safe tools methods (any_host-FollowsLock tools true 9) (options 2) 9 Kinds.probe_hosts
      start refl

any_host-FollowsLock_example : FollowsLock (Kinds.host_methods tools false 3)
any_host-FollowsLock_example = any_host-FollowsLock tools false 3

acquire-Safe_example :
    Safe
      (protocol (lock_id lock))
      (Lock.acquire 5 lock window)
      start
      (λ e m. e ≡ none → m.held ≡ true)
acquire-Safe_example = acquire-Safe lock 5 window start

abbrev not_freed : Handover
not_freed = record { read = none; freed = false }

release-Freed_example : Safe (handover lock) (Lock.release 5 lock) not_freed Freed
release-Freed_example = release-Freed lock (node_name-ne_empty 2) 5 not_freed

upgrade_run-Freed_example :
    Safe
      (permissive (handover lock))
      (Run.upgrade_run tools methods (options 2) 9 (Kinds.ubuntu Apt.new) (some kube) window)
      not_freed
      Freed
upgrade_run-Freed_example =
    upgrade_run-Freed lock (node_name-ne_empty 2) tools methods (options 2) 9 (Kinds.ubuntu Apt.new)
      (some kube) window not_freed refl

make_kube-not_rebooted_example :
    Safe (reads_marked "xxxxx") (Kube.make_kube tools 9 (options 2).kube rebooted_info) tt Fails
unfolding tools Kube.is_set
make_kube-not_rebooted_example =
    make_kube-not_rebooted tools "xxxxx" 5 refl 9 (options 2).kube rebooted_info refl refl

acquire-ends_example : Safe conflicts (Lock.acquire 4 lock window) 3 Any_end
acquire-ends_example = acquire-ends lock 4 3 window (omega arith)

release-ends_example : Safe conflicts (Lock.release 4 lock) 3 Any_end
release-ends_example = release-ends lock 4 3 (omega arith)

abbrev pub reboot_needed : Status
reboot_needed = record no_status { reboot_required = true }

reboot_if_required-drain_first_example :
    Safe
      (drain_first "xxx")
      (Run.reboot_if_required tools methods
        (options 2)
        9
        (Kinds.debian Apt.new)
        (some kube)
        reboot_needed)
      nothing_done
      Anyhow
reboot_if_required-drain_first_example =
    reboot_if_required-drain_first tools true 9 (options 2) 9 refl (Kinds.debian Apt.new)
      (some kube) reboot_needed

abbrev mounted : Config
mounted = record { path = "/etc/host-upgrades"; mount = "/run/host-upgrades" }

abbrev script_path : String
script_path = Config.mount_path tools mounted ("host-upgrades.sh" ∷ [])

write_host_file-Replaced_example :
    Safe
      (replacing (script_path <> ".tmp") script_path "set -ue")
      (Config.write_host_file tools mounted "host-upgrades.sh" "set -ue" 420)
      fresh
      (Replaced (script_path <> ".tmp") script_path "set -ue")
write_host_file-Replaced_example =
    write_host_file-Replaced tools mounted "host-upgrades.sh" "set -ue" 420

update_host_status-WritesReport_example :
    Within (WritesReport AreOpposite) (Kube.update_host_status tools (some kube) reboot_needed none)
update_host_status-WritesReport_example =
    update_host_status-WritesReport tools (some kube) reboot_needed

abbrev upgrade_options : ExecOptions
upgrade_options = record { unit = ""; cmd = script_path ∷ []; env = "LC_ALL=C" ∷ [] }

exec-Settles_example :
    Safe
      (bus "host-upgrades.service")
      (Exec.exec true 9 "host-upgrades" upgrade_options)
      unconnected
      Settles
exec-Settles_example = exec-Settles true 9 "host-upgrades" upgrade_options

upgrade_run-GivesUp_example :
    Safe expiry
      (Run.upgrade_run tools methods (options 2) 9 (Kinds.debian Apt.new) (some kube) window)
      (live 3)
      GivesUp
upgrade_run-GivesUp_example =
    upgrade_run-GivesUp tools methods (options 2) 9 (any_host-FollowsLock tools true 9)
      (Kinds.debian Apt.new) (some kube) window 3 refl (omega arith)

update_host_status-AfterFailure_example :
    Within
      (WritesReport (AfterFailure true))
      (Kube.update_host_status tools (some kube) reboot_needed (some (errorf "exit status 100")))
update_host_status-AfterFailure_example =
    update_host_status-AfterFailure tools (some kube) reboot_needed (errorf "exit status 100")

copy_host_file-Replaced_example :
    Safe
      (sourced (script_path <> ".tmp") script_path "set -ue")
      (Config.copy_host_file tools mounted "host-upgrades.sh")
      fresh
      (Replaced (script_path <> ".tmp") script_path "set -ue")
copy_host_file-Replaced_example = copy_host_file-Replaced tools mounted "host-upgrades.sh" "set -ue"

generate_file-Replaced_example :
    Safe
      (sourced (script_path <> ".tmp") script_path "set -ue")
      (Config.generate_file tools mounted "host-upgrades.sh" "set -{{.Flags}}" [])
      fresh
      (Replaced (script_path <> ".tmp") script_path "set -ue")
generate_file-Replaced_example =
    generate_file-Replaced tools mounted "host-upgrades.sh" "set -ue" "set -{{.Flags}}" []

acquire_lock-BacksOff_example :
    Safe backoff (Kube.acquire_lock 9 (some kube) window) (after_sleeps 0) Any_wait
acquire_lock-BacksOff_example = acquire_lock-BacksOff 9 (some kube) window
