-- ===== src/Main/Config.antt =====
-- config.go, and the command line options of main.go.
use pharos_host_upgrades.Prelude.{String, ◌<>◌, Bool, none, some, ◌==◌, if◌then◌else◌}
use pharos_host_upgrades.Effects.{Result, ok, err, wrap, Duration, Prog, ret, ◌>>=◌}
use pharos_host_upgrades.Kube.Client
use pharos_host_upgrades.Hosts.Config
use pharos_host_upgrades.Hosts.Config.{Config}

pub record Options : Type 0 where
  pub config_path : String
  pub host_mount : String
  pub schedule : String
  pub schedule_window : Duration
  pub reboot : Bool
  pub reboot_timeout : Duration
  pub drain : Bool
  pub kube : Client.Options

unfoldable pub load_path : String → Config → Prog (Result Config)
unfolding Config.use_path
load_path path config = if path == "" then ret (ok config) else do
  ((exists, failure), config') ← Config.use_path config path
  elim failure [
    | some e ↦ ret (err (wrap ("Invalid --config-path=" <> path <> ": ") e))
    | none ↦ ret (ok config')
  ]

unfoldable pub load_mount : String → Config → Prog (Result Config)
unfolding Config.use_mount
load_mount path config = if path == "" then ret (ok config) else do
  ((exists, failure), config') ← Config.use_mount config path
  elim failure [
    | some e ↦ ret (err (wrap ("Invalid --host-mount=" <> path <> ": ") e))
    | none ↦ ret (ok config')
  ]

-- `loadConfig`
unfoldable pub load_config : Options → Prog (Result Config)
unfolding load_path load_mount
load_config options = do
  with_path ← load_path options.config_path (record { path = ""; mount = "" })
  elim with_path [ err e ↦ ret (err e) | ok config ↦ load_mount options.host_mount config ]
