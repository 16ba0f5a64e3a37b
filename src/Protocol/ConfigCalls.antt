-- ===== src/Protocol/ConfigCalls.antt =====
-- config.go against the rules of the lock.
use pharos_host_upgrades.Prelude.{String, ◌<>◌, ◌==◌, not, none, some}
use pharos_host_upgrades.Effects.{MaybeError, Result, ok, err, wrap, is_not_exist, ret}
use pharos_host_upgrades.Effects.Logic.{Within, Within-bind, Within-if}
use pharos_host_upgrades.Hosts.Config
use pharos_host_upgrades.Hosts.Config.{Config}
use pharos_host_upgrades.Main.Config.{Options, load_config, load_path, load_mount}
use pharos_host_upgrades.Protocol.{IsQuiet}

test_dir-Quiet : (path : String) → Within IsQuiet (Config.test_dir path)
unfolding Config.test_dir
test_dir-Quiet path = (
  tt,
  elim [
    | err e ↦ Within-if IsQuiet (is_not_exist e) _ _ tt tt
    | ok info ↦ Within-if IsQuiet (not info.is_dir) _ _ tt tt
  ],
)

load_path-Quiet : (path : String) (config : Config) → Within IsQuiet (load_path path config)
unfolding load_path
load_path-Quiet path config = Within-if IsQuiet (path == "") _ _ tt (
    Within-bind IsQuiet (Config.use_path config path) _
      (Within-bind IsQuiet (Config.test_dir path) _ (test_dir-Quiet path) (λ _. tt))
      λ ((exists, failure), config'). ended failure config')
  where
    ended :
        (failure : MaybeError) (config' : Config)
        → Within IsQuiet {A = Result Config} (elim failure [
          | some e ↦ ret (err (wrap ("Invalid --config-path=" <> path <> ": ") e))
          | none ↦ ret (ok config')
        ])
    ended none config' = tt
    ended (some e) config' = tt

load_mount-Quiet : (path : String) (config : Config) → Within IsQuiet (load_mount path config)
unfolding load_mount
load_mount-Quiet path config = Within-if IsQuiet (path == "") _ _ tt (
    Within-bind IsQuiet (Config.use_mount config path) _
      (Within-bind IsQuiet (Config.test_dir path) _ (test_dir-Quiet path) (λ _. tt))
      λ ((exists, failure), config'). ended failure config')
  where
    ended :
        (failure : MaybeError) (config' : Config)
        → Within IsQuiet {A = Result Config} (elim failure [
          | some e ↦ ret (err (wrap ("Invalid --host-mount=" <> path <> ": ") e))
          | none ↦ ret (ok config')
        ])
    ended none config' = tt
    ended (some e) config' = tt

pub load_config-Quiet : (options : Options) → Within IsQuiet (load_config options)
unfolding load_config
load_config-Quiet options =
    Within-bind IsQuiet (load_path options.config_path (record { path = ""; mount = "" })) _
      (load_path-Quiet options.config_path (record { path = ""; mount = "" }))
      (elim [ err e ↦ tt | ok config ↦ load_mount-Quiet options.host_mount config ])
