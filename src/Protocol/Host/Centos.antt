-- ===== src/Protocol/Host/Centos.antt =====
-- hosts/centos/host.go against the rules of the lock.
use pharos_host_upgrades.Prelude.{ℕ, String, ◌==◌, Bool, false, Option, none, some, List, []}
use pharos_host_upgrades.Effects.{MaybeError, ok, err, ret}
use pharos_host_upgrades.Effects.Logic.{Within, Within-bind, Within-if, Within-weaken}
use pharos_host_upgrades.External.{External}
use pharos_host_upgrades.Proc
use pharos_host_upgrades.Systemd.Exec
use pharos_host_upgrades.Systemd.Hostname
use pharos_host_upgrades.Hosts.Centos
use pharos_host_upgrades.Hosts.Centos.{CentosHost}
use pharos_host_upgrades.Hosts.Config
use pharos_host_upgrades.Hosts.Config.{Config}
use pharos_host_upgrades.Hosts.Interface.{Info, Status, no_status}
use pharos_host_upgrades.Protocol.{IsQuiet, IsApart, IsQuiet-IsApart}
use pharos_host_upgrades.Protocol.MainCalls.{FollowsLock}
use pharos_host_upgrades.Protocol.Host.Files.{
  get_host_info-Quiet, read_stat-Quiet, file_exists-Quiet, stat_host_file-Quiet,
  read_host_file-Quiet, write_host_file-Quiet, copy_host_file-Quiet,
}
use pharos_host_upgrades.Protocol.Host.Units.{exec-Apart, reboot-Apart}

module _ (ext : External) where
  probe_matched-Quiet :
      (host : CentosHost) (hi : Hostname.HostInfo) (release : String)
      → Within IsQuiet (Centos.probe_matched ext host hi release)
  unfolding Centos.probe_matched
  probe_matched-Quiet host hi release =
      Within-bind IsQuiet (Proc.read_stat ext) _ (read_stat-Quiet ext)
        (elim [ err e ↦ tt | ok stat ↦ tt ])

  probe-Quiet : (host : CentosHost) → Within IsQuiet (Centos.probe ext host)
  unfolding Centos.probe
  probe-Quiet host = Within-bind IsQuiet Hostname.get_host_info _ get_host_info-Quiet (elim [
    | err e ↦ tt
    | ok hi ↦
        matched hi (ext.find_submatch Centos.os_pretty_name_regexp hi.operating_system_pretty_name)
  ])
    where
      matched :
          (hi : Hostname.HostInfo) (match : Option String)
          → Within IsQuiet {A = (Info × Bool) × CentosHost} (elim match [
            | none ↦ ret ((host.info, false), host)
            | some release ↦ Centos.probe_matched ext host hi release
          ])
      matched hi none = tt
      matched hi (some release) = probe_matched-Quiet host hi release

  configure_script-Quiet :
      (config : Config) (host : CentosHost)
      → Within IsQuiet (Centos.configure_script ext config host)
  unfolding Centos.configure_script
  configure_script-Quiet config host =
      Within-bind IsQuiet
        (Config.write_host_file ext config "host-upgrades.sh" Centos.upgrade_script
          Config.file_mode_script)
        _
        (write_host_file-Quiet ext config "host-upgrades.sh" Centos.upgrade_script
          Config.file_mode_script)
        (elim [ err e ↦ tt | ok path ↦ tt ])

  configure_upgrades-Quiet :
      (config : Config) (host : CentosHost) (found : Bool × MaybeError)
      → Within IsQuiet (Centos.configure_upgrades ext config host found)
  unfolding Centos.configure_upgrades
  configure_upgrades-Quiet config host (exists, some e) = tt
  configure_upgrades-Quiet config host (exists, none) =
      Within-if IsQuiet exists _ _
        (Within-bind IsQuiet (Config.copy_host_file ext config "yum-cron.conf") _
          (copy_host_file-Quiet ext config "yum-cron.conf")
          (elim [ err e ↦ tt | ok path ↦ configure_script-Quiet config _ ]))
        (configure_script-Quiet config host)

  configure-Quiet :
      (host : CentosHost) (config : Config) → Within IsQuiet (Centos.configure ext host config)
  unfolding Centos.configure
  configure-Quiet host config = Within-if IsQuiet (Config.host_path ext config [] == "") _ _ tt (
      Within-bind IsQuiet (Config.file_exists ext config "yum-cron.conf") _
        (file_exists-Quiet ext config "yum-cron.conf")
        (configure_upgrades-Quiet config (record host { config = config })))

  read_restart_message-Quiet :
      (host : CentosHost) (status : Status)
      → Within IsQuiet (Centos.read_restart_message ext host status)
  unfolding Centos.read_restart_message
  read_restart_message-Quiet host status =
      Within-bind IsQuiet (Config.read_host_file ext host.config "needs-restarting.out") _
        (read_host_file-Quiet ext host.config "needs-restarting.out")
        (elim [ err e ↦ tt | ok message ↦ tt ])

  read_needs_restarting-Quiet :
      (host : CentosHost) (status : Status)
      → Within IsQuiet (Centos.read_needs_restarting ext host status)
  unfolding Centos.read_needs_restarting
  read_needs_restarting-Quiet host status =
      Within-bind IsQuiet (Config.stat_host_file ext host.config "needs-restarting.stamp") _
        (stat_host_file-Quiet ext host.config "needs-restarting.stamp")
        (elim [
          | err e ↦ tt
          | ok none ↦ read_restart_message-Quiet host status
          | ok (some stat) ↦ read_restart_message-Quiet host _
        ])

  read_upgrade_log-Quiet :
      (host : CentosHost) (status : Status)
      → Within IsQuiet (Centos.read_upgrade_log ext host status)
  unfolding Centos.read_upgrade_log
  read_upgrade_log-Quiet host status =
      Within-bind IsQuiet (Config.read_host_file ext host.config "yum-cron.out") _
        (read_host_file-Quiet ext host.config "yum-cron.out") (elim [ err e ↦ tt | ok log ↦ tt ])

  exec-env-Apart :
      (cgo : Bool) (rounds : ℕ) (env cmd : List String)
      → Within IsApart (Centos.exec ext cgo rounds env cmd)
  unfolding Centos.exec
  exec-env-Apart cgo rounds env cmd =
      let options : Exec.ExecOptions = record { unit = ""; cmd = cmd; env = env } in
      Within-bind IsApart (Exec.exec cgo rounds "host-upgrades" options) _
        (exec-Apart cgo rounds "host-upgrades" options) (λ (_, failure). tt)

  upgrade-Apart :
      (cgo : Bool) (rounds : ℕ) (host : CentosHost)
      → Within IsApart (Centos.upgrade ext cgo rounds host)
  unfolding Centos.upgrade
  upgrade-Apart cgo rounds host =
      Within-bind IsApart (Centos.exec ext cgo rounds _ _) _ (exec-env-Apart cgo rounds _ _) (elim [
        | some e ↦ tt
        | none ↦ Within-weaken IsQuiet IsApart IsQuiet-IsApart _ (
            Within-bind IsQuiet (Centos.read_upgrade_log ext host no_status) _
              (read_upgrade_log-Quiet host no_status) λ (logged, unread). read_rest logged unread)
      ])
    where
      read_rest :
          (logged : Status) (unread : MaybeError)
          → Within IsQuiet {A = Status × MaybeError} (elim unread [
            | some e ↦ ret (logged, some e)
            | none ↦ Centos.read_needs_restarting ext host logged
          ])
      read_rest logged (some e) = tt
      read_rest logged none = read_needs_restarting-Quiet host logged

  pub centos-FollowsLock :
      (cgo : Bool) (rounds : ℕ) → FollowsLock (Centos.host_methods ext cgo rounds)
  unfolding Centos.host_methods
  centos-FollowsLock cgo rounds = record {
    probe_quiet = probe-Quiet;
    config_quiet = configure-Quiet;
    upgrade_apart = upgrade-Apart cgo rounds;
    reboot_apart = λ h. reboot-Apart;
  }
