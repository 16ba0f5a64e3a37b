-- ===== src/Progress/Machine/Centos.antt =====
-- hosts/centos/host.go in a world that does its part.
use pharos_host_upgrades.Prelude.{
  ℕ, String, ◌≡◌, refl, Bool, true, false, none, some, List, ◌==◌, Option,
}
use pharos_host_upgrades.Effects.{MaybeError, Result, ok, err, FileInfo, Prog, ret, ◌>>=◌}
use pharos_host_upgrades.Effects.Logic.{Safe, Safe-bind}
use pharos_host_upgrades.External.{External}
use pharos_host_upgrades.Systemd.Exec
use pharos_host_upgrades.Systemd.Exec.{ExecOptions}
use pharos_host_upgrades.Hosts.Centos
use pharos_host_upgrades.Hosts.Centos.{CentosHost}
use pharos_host_upgrades.Hosts.Kinds
use pharos_host_upgrades.Hosts.Config
use pharos_host_upgrades.Hosts.Interface.{Status, no_status}
use pharos_host_upgrades.Progress.{World, IsOk, Upgrades, Reboots, progress}
use pharos_host_upgrades.Progress.Writes.{Succeeds}
use pharos_host_upgrades.Progress.Machine.{
  Found, exec-progress, reboot-progress, read_host_file-progress, stat_host_file-progress,
}

module _ (ext : External) (host : CentosHost) (mounted : (host.config.mount == "") ≡ false) where
  read_upgrade_log-progress :
      (status : Status) (m : World)
      → Safe progress
          (Centos.read_upgrade_log ext host status)
          m
          (λ r m'. (r.1 ≡ none) × (r.0.reboot_required ≡ status.reboot_required) × (m' ≡ m))
  unfolding Centos.read_upgrade_log
  read_upgrade_log-progress status m =
      Safe-bind progress (Config.read_host_file ext host.config "yum-cron.out") _ m
        (λ r m'. IsOk r × (m' ≡ m)) _
        (read_host_file-progress ext host.config mounted "yum-cron.out" m)
        (elim [ err e ↦ λ m' (n, _). absurd n | ok log ↦ λ m' (_, same). (refl, refl, same) ])

  read_restart_message-progress :
      (status : Status) (m : World) (flagged : Bool)
      → status.reboot_required ≡ flagged
      → Safe progress
          (Centos.read_restart_message ext host status)
          m
          (λ r m'. (r.1 ≡ none) × (r.0.reboot_required ≡ flagged) × (m' ≡ m))
  unfolding Centos.read_restart_message
  read_restart_message-progress status m flagged asked =
      Safe-bind progress (Config.read_host_file ext host.config "needs-restarting.out") _ m
        (λ r m'. IsOk r × (m' ≡ m)) _
        (read_host_file-progress ext host.config mounted "needs-restarting.out" m)
        (elim [ err e ↦ λ m' (n, _). absurd n | ok text ↦ λ m' (_, same). (refl, asked, same) ])

  -- What `readNeedsRestarting` does with what it finds.
  abbrev after_stat : Status → Result (Option FileInfo) → Prog (Status × MaybeError)
  after_stat status (err e) = ret (status, some e)
  after_stat status (ok none) = Centos.read_restart_message ext host status
  after_stat status (ok (some stat)) =
      Centos.read_restart_message ext host
        (record status { reboot_required = true; reboot_required_since = stat.mod_time })

  after_stat-progress :
      (status : Status) (m : World) (flagged : Bool) (answer : Result (Option FileInfo))
      → status.reboot_required ≡ false
      → Found flagged answer
      → Safe progress
          (after_stat status answer)
          m
          (λ r m'. (r.1 ≡ none) × (r.0.reboot_required ≡ flagged) × (m' ≡ m))
  after_stat-progress status m true (err e) unset found = absurd found
  after_stat-progress status m false (err e) unset found = absurd found
  after_stat-progress status m true (ok none) unset found = absurd found
  after_stat-progress status m false (ok none) unset found =
      read_restart_message-progress status m false unset
  after_stat-progress status m false (ok (some stat)) unset found = absurd found
  after_stat-progress status m true (ok (some stat)) unset found =
      read_restart_message-progress
        (record status { reboot_required = true; reboot_required_since = stat.mod_time }) m true
        refl

  read_needs_restarting-progress :
      (status : Status) (m : World)
      → status.reboot_required ≡ false
      → Safe progress
          (Centos.read_needs_restarting ext host status)
          m
          (λ r m'. (r.1 ≡ none) × (r.0.reboot_required ≡ m.flagged) × (m' ≡ m))
  unfolding Centos.read_needs_restarting
  read_needs_restarting-progress status m unset =
      Safe-bind progress (Config.stat_host_file ext host.config "needs-restarting.stamp")
        (after_stat status) m (λ r m'. Found m.flagged r × (m' ≡ m))
        (λ r m'. (r.1 ≡ none) × (r.0.reboot_required ≡ m.flagged) × (m' ≡ m))
        (stat_host_file-progress ext host.config "needs-restarting.stamp" m)
        λ answer m' (found, same).
          rw same (after_stat-progress status m m.flagged answer unset found)

  exec_command-progress :
      (rounds : ℕ) (env cmd : List String) (m : World)
      → Safe progress (Centos.exec ext false rounds env cmd) m (Succeeds (λ m'. m' ≡ m))
  unfolding Centos.exec
  exec_command-progress rounds env cmd m =
      let options : ExecOptions = record { unit = ""; cmd = cmd; env = env } in
      Safe-bind progress (Exec.exec false rounds "host-upgrades" options) _ m
        (λ r m'. (r.1 ≡ none) × (m' ≡ m)) (Succeeds (λ m'. m' ≡ m))
        (exec-progress rounds "host-upgrades" options m) λ (result, failure) m' q. q

  -- What `Upgrade` does once the script has run.
  abbrev after_script : MaybeError → Prog (Status × MaybeError)
  after_script (some e) = ret (no_status, some e)
  after_script none = do
    (logged, unread) ← Centos.read_upgrade_log ext host no_status
    elim unread [
      | some e ↦ ret (logged, some e)
      | none ↦ Centos.read_needs_restarting ext host logged
    ]

  centos_upgrade-progress :
      (rounds : ℕ) (m : World)
      → Safe progress
          (Centos.upgrade ext false rounds host)
          m
          (λ r m'. (r.1 ≡ none) × (r.0.reboot_required ≡ m.flagged) × (m' ≡ m))
  unfolding Centos.upgrade
  centos_upgrade-progress rounds m =
      Safe-bind progress (Centos.exec ext false rounds _ _) (after_script) m
        (Succeeds (λ m'. m' ≡ m))
        (λ r m'. (r.1 ≡ none) × (r.0.reboot_required ≡ m.flagged) × (m' ≡ m))
        (exec_command-progress rounds _ _ m)
        λ e m' (succeeded, same).
          rw (same, succeeded)
            (Safe-bind progress (Centos.read_upgrade_log ext host no_status) _ m
              (λ r m''. (r.1 ≡ none) × (r.0.reboot_required ≡ false) × (m'' ≡ m))
              (λ r m''. (r.1 ≡ none) × (r.0.reboot_required ≡ m.flagged) × (m'' ≡ m))
              (read_upgrade_log-progress no_status m)
              λ (status, failure) m'' (read, unset, same').
                rw (same', read) (read_needs_restarting-progress status m unset))

  -- A CentOS host whose mount is configured upgrades without an error, and requires a reboot exactly
  -- if the host's file asks for it; and it reboots without an error.
  pub centos-Upgrades :
      (rounds : ℕ) → Upgrades (Kinds.host_methods ext false rounds) (Kinds.centos host)
  unfolding Kinds.host_methods Kinds.upgrade Centos.host_methods
  centos-Upgrades rounds m = centos_upgrade-progress rounds m

  pub centos-Reboots :
      (rounds : ℕ) → Reboots (Kinds.host_methods ext false rounds) (Kinds.centos host)
  unfolding Kinds.host_methods Kinds.reboot Centos.host_methods Centos.reboot
  centos-Reboots rounds m = reboot-progress m
