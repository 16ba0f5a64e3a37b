-- ===== src/Hosts/Apt.antt =====
-- hosts/debian/host.go. The source repeats it for Ubuntu with another name and pattern, so both are
-- taken from a `Flavor`; hosts/ubuntu/host.go is in `Hosts/Ubuntu`.
use pharos_host_upgrades.Prelude.{
  ℕ, String, ◌<>◌, Bool, true, false, none, some, List, [], ◌∷◌, ◌==◌, if◌then◌else◌,
}
use pharos_host_upgrades.Effects.{MaybeError, ok, err, errorf, wrap, FileInfo, Prog, ret, ◌>>=◌}
use pharos_host_upgrades.External.{External}
use pharos_host_upgrades.Proc
use pharos_host_upgrades.Systemd.Exec
use pharos_host_upgrades.Systemd.Hostname
use pharos_host_upgrades.Systemd.Reboot
use pharos_host_upgrades.Hosts.Config
use pharos_host_upgrades.Hosts.Config.{Config}
use pharos_host_upgrades.Hosts.Interface.{Info, no_info, Status, no_status, Host}

-- `OperatingSystem` and `osPrettyNameRegexp`
pub record Flavor : Type 0 where
  pub operating_system : String
  pub pattern : String
  pub label : String

abbrev pub debian : Flavor
debian = record {
  operating_system = "Debian";
  pattern = "Debian (\\S+)( LTS)?";
  label = "hosts/debian";
}

abbrev pub apt_conf_template : String
apt_conf_template = "\nDir::Etc::main \"{{.ConfigPath}}\";\n"

abbrev pub upgrade_script : String
upgrade_script =
    "\nset -ue\n\napt-get update\n\nunattended-upgrade -v > $HOST_PATH/unattended-upgrade.out\n\nif [ -e /run/reboot-required ]; then\n\t# preserve timestamp\n\tcp -a /run/reboot-required $HOST_PATH/reboot-required\nfi\n\n# TODO: also restart for service upgrades?\n# which needrestart && needrestart -b > $HOST_PATH/needrestart\n"

pub record AptHost : Type 0 where
  pub info : Info
  pub config : Config
  pub config_path : String
  pub apt_config_path : String
  pub script_path : String

abbrev pub new : AptHost
new = record {
  info = no_info;
  config = record { path = ""; mount = "" };
  config_path = "";
  apt_config_path = "";
  script_path = "";
}

module _ (ext : External) (flavor : Flavor) where
  -- The probe of a host that matches: a boot time that cannot be read is left zero.
  unfoldable pub probe_matched :
      AptHost → Hostname.HostInfo → String → Prog ((Info × Bool) × AptHost)
  unfolding Proc.read_stat
  probe_matched host hi release = do
    let info : Info = record {
      operating_system = flavor.operating_system;
      operating_system_release = release;
      kernel = hi.kernel_name;
      kernel_release = hi.kernel_release;
      boot_time = 0;
    }
    answer ← Proc.read_stat ext
    elim answer [
      | err e ↦ ret ((info, true), record host { info = info })
      | ok stat ↦
          let timed = record info { boot_time = stat.boot_time } in
          ret ((timed, true), record host { info = timed })
    ]

  unfoldable pub probe : AptHost → Prog ((Info × Bool) × AptHost)
  unfolding Hostname.get_host_info probe_matched
  probe host = do
    answer ← Hostname.get_host_info
    elim answer [
      | err e ↦ ret ((host.info, false), host)
      | ok hi ↦ elim (ext.find_submatch flavor.pattern hi.operating_system_pretty_name) [
        | none ↦ ret ((host.info, false), host)
        | some release ↦ probe_matched host hi release
      ]
    ]

  -- The parts of `Config`, in order: the given unattended-upgrades.conf, apt.conf, and the script.
  unfoldable pub configure_script : Config → AptHost → Prog (MaybeError × AptHost)
  unfolding Config.write_host_file
  configure_script config host = do
    written ←
        Config.write_host_file ext config "host-upgrades.sh" upgrade_script Config.file_mode_default
    elim written [
      | err e ↦ ret (some e, host)
      | ok path ↦ ret (none, record host { script_path = path })
    ]

  unfoldable pub configure_apt : Config → AptHost → Prog (MaybeError × AptHost)
  unfolding Config.generate_file configure_script
  configure_apt config host = if host.config_path == "" then configure_script config host else do
    generated ←
        Config.generate_file ext config "apt.conf" apt_conf_template
          (("ConfigPath", host.config_path) ∷ [])
    elim generated [
      | err e ↦ ret (some (wrap (flavor.label <> " failed to GenerateFile apt.conf: ") e), host)
      | ok path ↦ configure_script config (record host { apt_config_path = path })
    ]

  unfoldable pub configure_upgrades :
      Config → AptHost → Bool × MaybeError → Prog (MaybeError × AptHost)
  unfolding Config.copy_host_file configure_apt
  configure_upgrades config host (exists, some e) = ret (some e, host)
  configure_upgrades config host (exists, none) = do
    if exists
        then (do
          copied ← Config.copy_host_file ext config "unattended-upgrades.conf"
          elim copied [
            | err e ↦ ret (
              some (wrap (flavor.label <> " failed to CopyHostFile unattended-upgrades.conf: ") e),
              host,
            )
            | ok path ↦ configure_apt config (record host { config_path = path })
          ])
        else configure_apt config host

  -- `Config`
  unfoldable pub configure : AptHost → Config → Prog (MaybeError × AptHost)
  unfolding Config.host_path Config.file_exists configure_upgrades
  configure host config =
      let kept = record host { config = config } in
      if Config.host_path ext config [] == ""
      then ret (some (errorf (flavor.label <> " requires --host-path")), kept)
      else do
        found ← Config.file_exists ext config "unattended-upgrades.conf"
        configure_upgrades config kept found

  -- `exec`; the rounds are those of the journal's loop
  unfoldable pub exec : Bool → ℕ → List String → List String → Prog MaybeError
  unfolding Exec.exec
  exec cgo rounds env cmd = do
    (_, failure) ← Exec.exec cgo rounds "host-upgrades" (record { unit = ""; cmd = cmd; env = env })
    ret failure

  abbrev pub reboot_status : Status → FileInfo → String → Status
  reboot_status status stat message = record status {
    reboot_required = true;
    reboot_required_since = stat.mod_time;
    reboot_required_message = message;
  }

  unfoldable pub read_reboot_required : AptHost → Status → Prog (Status × MaybeError)
  unfolding Config.stat_host_file Config.read_host_file
  read_reboot_required host status = do
    answer ← Config.stat_host_file ext host.config "reboot-required"
    elim answer [
      | err e ↦ ret (status, some e)
      | ok none ↦ ret (status, none)
      | ok (some stat) ↦ do
        contents ← Config.read_host_file ext host.config "reboot-required"
        elim contents [
          | err e ↦ ret (status, some e)
          | ok message ↦ ret (reboot_status status stat message, none)
        ]
    ]

  unfoldable pub read_upgrade_log : AptHost → Status → Prog (Status × MaybeError)
  unfolding Config.read_host_file
  read_upgrade_log host status = do
    contents ← Config.read_host_file ext host.config "unattended-upgrade.out"
    elim contents [
      | err e ↦ ret (status, some e)
      | ok log ↦ ret (record status { upgrade_log = log }, none)
    ]

  unfoldable pub upgrade : Bool → ℕ → AptHost → Prog (Status × MaybeError)
  unfolding Config.host_path exec read_reboot_required read_upgrade_log
  upgrade cgo rounds host = do
    let env =
        ("HOST_PATH=" <> Config.host_path ext host.config [])
        ∷ ("APT_CONFIG=" <> host.apt_config_path)
        ∷ []
    let cmd = "/bin/sh" ∷ "-x" ∷ host.script_path ∷ []
    failure ← exec cgo rounds env cmd
    elim failure [
      | some e ↦ ret (no_status, some e)
      | none ↦ do
        (logged, unread) ← read_upgrade_log host no_status
        elim unread [ some e ↦ ret (logged, some e) | none ↦ read_reboot_required host logged ]
    ]

  unfoldable pub reboot : AptHost → Prog MaybeError
  unfolding Reboot.reboot
  reboot host = Reboot.reboot

  -- The implementation of `hosts.Host`.
  unfoldable pub host_methods : Bool → ℕ → Host AptHost
  unfolding probe configure upgrade reboot
  host_methods cgo rounds = record {
    probe = probe;
    config = configure;
    upgrade = upgrade cgo rounds;
    reboot = reboot;
  }
