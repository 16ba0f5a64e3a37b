-- ===== src/Progress/Machine/Apt.antt =====
-- hosts/debian/host.go and hosts/ubuntu/host.go in a world that does its part.
use pharos_host_upgrades.Prelude.{
  ℕ, String, ◌≡◌, refl, Bool, true, false, none, some, List, ◌==◌, Option,
}
use pharos_host_upgrades.Effects.{MaybeError, Result, ok, err, FileInfo, Prog, ret, ◌>>=◌}
use pharos_host_upgrades.Effects.Logic.{Safe, Safe-bind}
use pharos_host_upgrades.External.{External}
use pharos_host_upgrades.Systemd.Exec
use pharos_host_upgrades.Systemd.Exec.{ExecOptions}
use pharos_host_upgrades.Hosts.Apt
use pharos_host_upgrades.Hosts.Apt.{AptHost, Flavor}
use pharos_host_upgrades.Hosts.Ubuntu
use pharos_host_upgrades.Hosts.Kinds
use pharos_host_upgrades.Hosts.Config
use pharos_host_upgrades.Hosts.Interface.{Status, no_status}
use pharos_host_upgrades.Progress.{World, IsOk, Upgrades, Reboots, progress}
use pharos_host_upgrades.Progress.Writes.{Succeeds}
use pharos_host_upgrades.Progress.Machine.{
  Found, exec-progress, reboot-progress, read_host_file-progress, stat_host_file-progress,
}

module _ (ext : External) (host : AptHost) (mounted : (host.config.mount == "") ≡ false) where
  read_upgrade_log-progress :
      (flavor : Flavor) (status : Status) (m : World)
      → Safe progress
          (Apt.read_upgrade_log ext flavor host status)
          m
          (λ r m'. (r.1 ≡ none) × (r.0.reboot_required ≡ status.reboot_required) × (m' ≡ m))
  unfolding Apt.read_upgrade_log
  read_upgrade_log-progress flavor status m =
      Safe-bind progress (Config.read_host_file ext host.config "unattended-upgrade.out") _ m
        (λ r m'. IsOk r × (m' ≡ m)) _
        (read_host_file-progress ext host.config mounted "unattended-upgrade.out" m)
        (elim [ err e ↦ λ m' (n, _). absurd n | ok log ↦ λ m' (_, same). (refl, refl, same) ])

  -- What `readRebootRequired` does with what it finds.
  abbrev after_stat : Flavor → Status → Result (Option FileInfo) → Prog (Status × MaybeError)
  after_stat flavor status (err e) = ret (status, some e)
  after_stat flavor status (ok none) = ret (status, none)
  after_stat flavor status (ok (some stat)) = do
    contents ← Config.read_host_file ext host.config "reboot-required"
    elim contents [
      | err e ↦ ret (status, some e)
      | ok message ↦ ret (Apt.reboot_status ext flavor status stat message, none)
    ]

  after_stat-progress :
      (flavor : Flavor) (status : Status) (m : World) (flagged : Bool)
      (answer : Result (Option FileInfo))
      → status.reboot_required ≡ false
      → Found flagged answer
      → Safe progress
          (after_stat flavor status answer)
          m
          (λ r m'. (r.1 ≡ none) × (r.0.reboot_required ≡ flagged) × (m' ≡ m))
  after_stat-progress flavor status m true (err e) unset found = absurd found
  after_stat-progress flavor status m false (err e) unset found = absurd found
  after_stat-progress flavor status m true (ok none) unset found = absurd found
  after_stat-progress flavor status m false (ok none) unset found = (refl, unset, refl)
  after_stat-progress flavor status m false (ok (some stat)) unset found = absurd found
  after_stat-progress flavor status m true (ok (some stat)) unset found =
      Safe-bind progress (Config.read_host_file ext host.config "reboot-required") _ m
        (λ r m'. IsOk r × (m' ≡ m)) _
        (read_host_file-progress ext host.config mounted "reboot-required" m)
        (elim [ err e ↦ λ m' (n, _). absurd n | ok text ↦ λ m' (_, same). (refl, refl, same) ])

  read_reboot_required-progress :
      (flavor : Flavor) (status : Status) (m : World)
      → status.reboot_required ≡ false
      → Safe progress
          (Apt.read_reboot_required ext flavor host status)
          m
          (λ r m'. (r.1 ≡ none) × (r.0.reboot_required ≡ m.flagged) × (m' ≡ m))
  unfolding Apt.read_reboot_required
  read_reboot_required-progress flavor status m unset =
      Safe-bind progress (Config.stat_host_file ext host.config "reboot-required")
        (after_stat flavor status) m (λ r m'. Found m.flagged r × (m' ≡ m))
        (λ r m'. (r.1 ≡ none) × (r.0.reboot_required ≡ m.flagged) × (m' ≡ m))
        (stat_host_file-progress ext host.config "reboot-required" m)
        λ answer m' (found, same).
          rw same (after_stat-progress flavor status m m.flagged answer unset found)

  exec_command-progress :
      (flavor : Flavor) (rounds : ℕ) (env cmd : List String) (m : World)
      → Safe progress (Apt.exec ext flavor false rounds env cmd) m (Succeeds (λ m'. m' ≡ m))
  unfolding Apt.exec
  exec_command-progress flavor rounds env cmd m =
      let options : ExecOptions = record { unit = ""; cmd = cmd; env = env } in
      Safe-bind progress (Exec.exec false rounds "host-upgrades" options) _ m
        (λ r m'. (r.1 ≡ none) × (m' ≡ m)) (Succeeds (λ m'. m' ≡ m))
        (exec-progress rounds "host-upgrades" options m) λ (result, failure) m' q. q

  -- What `Upgrade` does once the script has run.
  abbrev after_script : Flavor → MaybeError → Prog (Status × MaybeError)
  after_script flavor (some e) = ret (no_status, some e)
  after_script flavor none = do
    (logged, unread) ← Apt.read_upgrade_log ext flavor host no_status
    elim unread [
      | some e ↦ ret (logged, some e)
      | none ↦ Apt.read_reboot_required ext flavor host logged
    ]

  apt_upgrade-progress :
      (flavor : Flavor) (rounds : ℕ) (m : World)
      → Safe progress
          (Apt.upgrade ext flavor false rounds host)
          m
          (λ r m'. (r.1 ≡ none) × (r.0.reboot_required ≡ m.flagged) × (m' ≡ m))
  unfolding Apt.upgrade
  apt_upgrade-progress flavor rounds m =
      Safe-bind progress (Apt.exec ext flavor false rounds _ _) (after_script flavor) m
        (Succeeds (λ m'. m' ≡ m))
        (λ r m'. (r.1 ≡ none) × (r.0.reboot_required ≡ m.flagged) × (m' ≡ m))
        (exec_command-progress flavor rounds _ _ m)
        λ e m' (succeeded, same).
          rw (same, succeeded)
            (Safe-bind progress (Apt.read_upgrade_log ext flavor host no_status) _ m
              (λ r m''. (r.1 ≡ none) × (r.0.reboot_required ≡ false) × (m'' ≡ m))
              (λ r m''. (r.1 ≡ none) × (r.0.reboot_required ≡ m.flagged) × (m'' ≡ m))
              (read_upgrade_log-progress flavor no_status m)
              λ (status, failure) m'' (read, unset, same').
                rw (same', read) (read_reboot_required-progress flavor status m unset))

  -- A Debian or an Ubuntu host whose mount is configured upgrades without an error, and requires a
  -- reboot exactly if the host's file asks for it; and it reboots without an error.
  pub debian-Upgrades :
      (rounds : ℕ) → Upgrades (Kinds.host_methods ext false rounds) (Kinds.debian host)
  unfolding Kinds.host_methods Kinds.upgrade Apt.host_methods
  debian-Upgrades rounds m = apt_upgrade-progress Apt.debian rounds m

  pub ubuntu-Upgrades :
      (rounds : ℕ) → Upgrades (Kinds.host_methods ext false rounds) (Kinds.ubuntu host)
  unfolding Kinds.host_methods Kinds.upgrade Ubuntu.host_methods Ubuntu.upgrade
  ubuntu-Upgrades rounds m = apt_upgrade-progress Ubuntu.ubuntu rounds m

  pub debian-Reboots :
      (rounds : ℕ) → Reboots (Kinds.host_methods ext false rounds) (Kinds.debian host)
  unfolding Kinds.host_methods Kinds.reboot Apt.host_methods Apt.reboot
  debian-Reboots rounds m = reboot-progress m

  pub ubuntu-Reboots :
      (rounds : ℕ) → Reboots (Kinds.host_methods ext false rounds) (Kinds.ubuntu host)
  unfolding Kinds.host_methods Kinds.reboot Ubuntu.host_methods Ubuntu.reboot Apt.reboot
  ubuntu-Reboots rounds m = reboot-progress m
