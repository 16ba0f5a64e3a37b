-- ===== src/Protocol/Host/Apt.antt =====
-- hosts/debian/host.go and hosts/ubuntu/host.go against the rules of the lock.
use pharos_host_upgrades.Prelude.{ℕ, String, ◌==◌, Bool, false, Option, none, some, List, [], ◌∷◌}
use pharos_host_upgrades.Effects.{MaybeError, ok, err, ret}
use pharos_host_upgrades.Effects.Logic.{Within, Within-bind, Within-if, Within-weaken}
use pharos_host_upgrades.External.{External}
use pharos_host_upgrades.Proc
use pharos_host_upgrades.Systemd.Exec
use pharos_host_upgrades.Systemd.Hostname
use pharos_host_upgrades.Hosts.Apt
use pharos_host_upgrades.Hosts.Apt.{AptHost, Flavor}
use pharos_host_upgrades.Hosts.Ubuntu
use pharos_host_upgrades.Hosts.Config
use pharos_host_upgrades.Hosts.Config.{Config}
use pharos_host_upgrades.Hosts.Interface.{Info, Status, no_status}
use pharos_host_upgrades.Protocol.{IsQuiet, IsApart, IsQuiet-IsApart}
use pharos_host_upgrades.Protocol.MainCalls.{FollowsLock}
use pharos_host_upgrades.Protocol.Host.Files.{
  get_host_info-Quiet, read_stat-Quiet, file_exists-Quiet, stat_host_file-Quiet,
  read_host_file-Quiet, write_host_file-Quiet, copy_host_file-Quiet, generate_file-Quiet,
}
use pharos_host_upgrades.Protocol.Host.Units.{exec-Apart, reboot-Apart}

module _ (ext : External) (flavor : Flavor) where
  probe_matched-Quiet :
      (host : AptHost) (hi : Hostname.HostInfo) (release : String)
      → Within IsQuiet (Apt.probe_matched ext flavor host hi release)
  unfolding Apt.probe_matched
  probe_matched-Quiet host hi release =
      Within-bind IsQuiet (Proc.read_stat ext) _ (read_stat-Quiet ext)
        (elim [ err e ↦ tt | ok stat ↦ tt ])

  probe-Quiet : (host : AptHost) → Within IsQuiet (Apt.probe ext flavor host)
  unfolding Apt.probe
  probe-Quiet host = Within-bind IsQuiet Hostname.get_host_info _ get_host_info-Quiet (elim [
    | err e ↦ tt
    | ok hi ↦ matched hi (ext.find_submatch flavor.pattern hi.operating_system_pretty_name)
  ])
    where
      matched :
          (hi : Hostname.HostInfo) (match : Option String)
          → Within IsQuiet {A = (Info × Bool) × AptHost} (elim match [
            | none ↦ ret ((host.info, false), host)
            | some release ↦ Apt.probe_matched ext flavor host hi release
          ])
      matched hi none = tt
      matched hi (some release) = probe_matched-Quiet host hi release

  configure_script-Quiet :
      (config : Config) (host : AptHost)
      → Within IsQuiet (Apt.configure_script ext flavor config host)
  unfolding Apt.configure_script
  configure_script-Quiet config host =
      Within-bind IsQuiet
        (Config.write_host_file ext config "host-upgrades.sh" Apt.upgrade_script
          Config.file_mode_default)
        _
        (write_host_file-Quiet ext config "host-upgrades.sh" Apt.upgrade_script
          Config.file_mode_default)
        (elim [ err e ↦ tt | ok path ↦ tt ])

  configure_apt-Quiet :
      (config : Config) (host : AptHost) → Within IsQuiet (Apt.configure_apt ext flavor config host)
  unfolding Apt.configure_apt
  configure_apt-Quiet config host =
      let values = ("ConfigPath", host.config_path) ∷ [] in
      Within-if IsQuiet (host.config_path == "") _ _ (configure_script-Quiet config host) (
        Within-bind IsQuiet
          (Config.generate_file ext config "apt.conf" Apt.apt_conf_template values) _
          (generate_file-Quiet ext config "apt.conf" Apt.apt_conf_template values)
          (elim [ err e ↦ tt | ok path ↦ configure_script-Quiet config _ ]))

  configure_upgrades-Quiet :
      (config : Config) (host : AptHost) (found : Bool × MaybeError)
      → Within IsQuiet (Apt.configure_upgrades ext flavor config host found)
  unfolding Apt.configure_upgrades
  configure_upgrades-Quiet config host (exists, some e) = tt
  configure_upgrades-Quiet config host (exists, none) =
      Within-if IsQuiet exists _ _
        (Within-bind IsQuiet (Config.copy_host_file ext config "unattended-upgrades.conf") _
          (copy_host_file-Quiet ext config "unattended-upgrades.conf")
          (elim [ err e ↦ tt | ok path ↦ configure_apt-Quiet config _ ]))
        (configure_apt-Quiet config host)

  configure-Quiet :
      (host : AptHost) (config : Config) → Within IsQuiet (Apt.configure ext flavor host config)
  unfolding Apt.configure
  configure-Quiet host config = Within-if IsQuiet (Config.host_path ext config [] == "") _ _ tt (
      Within-bind IsQuiet (Config.file_exists ext config "unattended-upgrades.conf") _
        (file_exists-Quiet ext config "unattended-upgrades.conf")
        (configure_upgrades-Quiet config (record host { config = config })))

  read_reboot_required-Quiet :
      (host : AptHost) (status : Status)
      → Within IsQuiet (Apt.read_reboot_required ext flavor host status)
  unfolding Apt.read_reboot_required
  read_reboot_required-Quiet host status =
      Within-bind IsQuiet (Config.stat_host_file ext host.config "reboot-required") _
        (stat_host_file-Quiet ext host.config "reboot-required")
        (elim [
          | err e ↦ tt
          | ok none ↦ tt
          | ok (some stat) ↦
              Within-bind IsQuiet (Config.read_host_file ext host.config "reboot-required") _
                (read_host_file-Quiet ext host.config "reboot-required")
                (elim [ err e ↦ tt | ok message ↦ tt ])
        ])

  read_upgrade_log-Quiet :
      (host : AptHost) (status : Status)
      → Within IsQuiet (Apt.read_upgrade_log ext flavor host status)
  unfolding Apt.read_upgrade_log
  read_upgrade_log-Quiet host status =
      Within-bind IsQuiet (Config.read_host_file ext host.config "unattended-upgrade.out") _
        (read_host_file-Quiet ext host.config "unattended-upgrade.out")
        (elim [ err e ↦ tt | ok log ↦ tt ])

  exec-env-Apart :
      (cgo : Bool) (rounds : ℕ) (env cmd : List String)
      → Within IsApart (Apt.exec ext flavor cgo rounds env cmd)
  unfolding Apt.exec
  exec-env-Apart cgo rounds env cmd =
      let options : Exec.ExecOptions = record { unit = ""; cmd = cmd; env = env } in
      Within-bind IsApart (Exec.exec cgo rounds "host-upgrades" options) _
        (exec-Apart cgo rounds "host-upgrades" options) (λ (_, failure). tt)

  upgrade-Apart :
      (cgo : Bool) (rounds : ℕ) (host : AptHost)
      → Within IsApart (Apt.upgrade ext flavor cgo rounds host)
  unfolding Apt.upgrade
  upgrade-Apart cgo rounds host =
      Within-bind IsApart (Apt.exec ext flavor cgo rounds _ _) _ (exec-env-Apart cgo rounds _ _)
        (elim [
          | some e ↦ tt
          | none ↦ Within-weaken IsQuiet IsApart IsQuiet-IsApart _ (
              Within-bind IsQuiet (Apt.read_upgrade_log ext flavor host no_status) _
                (read_upgrade_log-Quiet host no_status) λ (logged, unread). read_rest logged unread)
        ])
    where
      read_rest :
          (logged : Status) (unread : MaybeError)
          → Within IsQuiet {A = Status × MaybeError} (elim unread [
            | some e ↦ ret (logged, some e)
            | none ↦ Apt.read_reboot_required ext flavor host logged
          ])
      read_rest logged (some e) = tt
      read_rest logged none = read_reboot_required-Quiet host logged

  pub apt-FollowsLock :
      (cgo : Bool) (rounds : ℕ) → FollowsLock (Apt.host_methods ext flavor cgo rounds)
  unfolding Apt.host_methods
  apt-FollowsLock cgo rounds = record {
    probe_quiet = probe-Quiet;
    config_quiet = configure-Quiet;
    upgrade_apart = upgrade-Apart cgo rounds;
    reboot_apart = λ h. reboot-Apart;
  }

pub ubuntu-FollowsLock :
    (ext : External) (cgo : Bool) (rounds : ℕ) → FollowsLock (Ubuntu.host_methods ext cgo rounds)
unfolding Ubuntu.host_methods Apt.host_methods
ubuntu-FollowsLock ext cgo rounds = apt-FollowsLock ext Ubuntu.ubuntu cgo rounds
