-- ===== src/Hosts/Centos.antt =====
-- hosts/centos/host.go
use pharos_host_upgrades.Prelude.{
  ℕ, String, ◌<>◌, Bool, true, false, none, some, List, [], ◌∷◌, ◌==◌, if◌then◌else◌,
}
use pharos_host_upgrades.Effects.{MaybeError, err, ok, errorf, wrap, Prog, ret, ◌>>=◌}
use pharos_host_upgrades.External.{External}
use pharos_host_upgrades.Proc
use pharos_host_upgrades.Systemd.Exec
use pharos_host_upgrades.Systemd.Hostname
use pharos_host_upgrades.Systemd.Reboot
use pharos_host_upgrades.Hosts.Config
use pharos_host_upgrades.Hosts.Config.{Config}
use pharos_host_upgrades.Hosts.Interface.{Info, no_info, Status, no_status, Host}

abbrev pub operating_system : String
operating_system = "CentOS"

abbrev pub os_pretty_name_regexp : String
os_pretty_name_regexp = "CentOS Linux (.+?)( \\(.+?\\))?"

abbrev pub upgrade_script : String
upgrade_script =
    "\nset -ue\n\nyum-cron ${CONFIG_PATH:-} | tee $HOST_PATH/yum-cron.out\n\nneeds-restarting -r > $HOST_PATH/needs-restarting.out || touch -a $HOST_PATH/needs-restarting.stamp\n"

pub record CentosHost : Type 0 where
  pub info : Info
  pub config : Config
  pub config_path : String
  pub script_path : String

abbrev pub new : CentosHost
new = record {
  info = no_info;
  config = record { path = ""; mount = "" };
  config_path = "";
  script_path = "";
}

module _ (ext : External) where
  -- The probe of a host that matches: a boot time that cannot be read is left zero.
  unfoldable pub probe_matched :
      CentosHost → Hostname.HostInfo → String → Prog ((Info × Bool) × CentosHost)
  unfolding Proc.read_stat
  probe_matched host hi release = do
    let info : Info = record {
      operating_system = operating_system;
      operating_system_release = release;
      kernel = hi.kernel_name;
      kernel_release = hi.kernel_release;
      boot_time = 0;
    }
    answer ← Proc.read_stat ext
    elim answer [
      | err e ↦ ret ((info, true), record host { info = info })
      | ok stat ↦
          let timed = record info { boot_time = stat.boot_time } in
          ret ((timed, true), record host { info = timed })
    ]

  unfoldable pub probe : CentosHost → Prog ((Info × Bool) × CentosHost)
  unfolding Hostname.get_host_info probe_matched
  probe host = do
    answer ← Hostname.get_host_info
    elim answer [
      | err e ↦ ret ((host.info, false), host)
      | ok hi ↦ elim (ext.find_submatch os_pretty_name_regexp hi.operating_system_pretty_name) [
        | none ↦ ret ((host.info, false), host)
        | some release ↦ probe_matched host hi release
      ]
    ]

  -- The parts of `Config`, in order: the given yum-cron.conf, and the script.
  unfoldable pub configure_script : Config → CentosHost → Prog (MaybeError × CentosHost)
  unfolding Config.write_host_file
  configure_script config host = do
    written ←
        Config.write_host_file ext config "host-upgrades.sh" upgrade_script Config.file_mode_script
    elim written [
      | err e ↦ ret (some e, host)
      | ok path ↦ ret (none, record host { script_path = path })
    ]

  unfoldable pub configure_upgrades :
      Config → CentosHost → Bool × MaybeError → Prog (MaybeError × CentosHost)
  unfolding Config.copy_host_file configure_script
  configure_upgrades config host (exists, some e) = ret (some e, host)
  configure_upgrades config host (exists, none) =
      if exists
      then (do
        copied ← Config.copy_host_file ext config "yum-cron.conf"
        elim copied [
          | err e ↦ ret (some (wrap "hosts/centos failed to CopyHostFile yum-cron.conf: " e), host)
          | ok path ↦ configure_script config (record host { config_path = path })
        ])
      else configure_script config host

  -- `Config`
  unfoldable pub configure : CentosHost → Config → Prog (MaybeError × CentosHost)
  unfolding Config.host_path Config.file_exists configure_upgrades
  configure host config =
      let kept = record host { config = config } in
      if Config.host_path ext config [] == ""
      then ret (some (errorf "hosts/centos requires --host-path"), kept)
      else do
        found ← Config.file_exists ext config "yum-cron.conf"
        configure_upgrades config kept found

  -- `exec`; the rounds are those of the journal's loop
  unfoldable pub exec : Bool → ℕ → List String → List String → Prog MaybeError
  unfolding Exec.exec
  exec cgo rounds env cmd = do
    (_, failure) ← Exec.exec cgo rounds "host-upgrades" (record { unit = ""; cmd = cmd; env = env })
    ret failure

  -- The second half of `readNeedsRestarting`: the message is read in any case.
  unfoldable pub read_restart_message : CentosHost → Status → Prog (Status × MaybeError)
  unfolding Config.read_host_file
  read_restart_message host status = do
    contents ← Config.read_host_file ext host.config "needs-restarting.out"
    elim contents [
      | err e ↦ ret (status, some e)
      | ok message ↦ ret (record status { reboot_required_message = message }, none)
    ]

  unfoldable pub read_needs_restarting : CentosHost → Status → Prog (Status × MaybeError)
  unfolding Config.stat_host_file read_restart_message
  read_needs_restarting host status = do
    answer ← Config.stat_host_file ext host.config "needs-restarting.stamp"
    elim answer [
      | err e ↦ ret (status, some e)
      | ok none ↦ read_restart_message host status
      | ok (some stat) ↦
          read_restart_message host
            (record status { reboot_required = true; reboot_required_since = stat.mod_time })
    ]

  unfoldable pub read_upgrade_log : CentosHost → Status → Prog (Status × MaybeError)
  unfolding Config.read_host_file
  read_upgrade_log host status = do
    contents ← Config.read_host_file ext host.config "yum-cron.out"
    elim contents [
      | err e ↦ ret (status, some e)
      | ok log ↦ ret (record status { upgrade_log = log }, none)
    ]

  unfoldable pub upgrade : Bool → ℕ → CentosHost → Prog (Status × MaybeError)
  unfolding Config.host_path exec read_needs_restarting read_upgrade_log
  upgrade cgo rounds host = do
    let env =
        ("HOST_PATH=" <> Config.host_path ext host.config [])
        ∷ ("CONFIG_PATH=" <> host.config_path)
        ∷ []
    let cmd = "/bin/sh" ∷ "-x" ∷ host.script_path ∷ []
    failure ← exec cgo rounds env cmd
    elim failure [
      | some e ↦ ret (no_status, some e)
      | none ↦ do
        (logged, unread) ← read_upgrade_log host no_status
        elim unread [ some e ↦ ret (logged, some e) | none ↦ read_needs_restarting host logged ]
    ]

  unfoldable pub reboot : CentosHost → Prog MaybeError
  unfolding Reboot.reboot
  reboot host = Reboot.reboot

  -- The implementation of `hosts.Host`.
  unfoldable pub host_methods : Bool → ℕ → Host CentosHost
  unfolding probe configure upgrade reboot
  host_methods cgo rounds = record {
    probe = probe;
    config = configure;
    upgrade = upgrade cgo rounds;
    reboot = reboot;
  }
