-- ===== src/Main/Run.antt =====
-- main.go: one upgrade run with the lock held, and the whole program.
pub mod Prepared
pub mod RebootOrder
pub mod Alone
use pharos_host_upgrades.Prelude.{
  ℕ, String, Bool, true, false, not, ◌&&◌, Option, none, some, List, pos, negsuc, if◌then◌else◌,
}
use pharos_host_upgrades.Effects.{
  MaybeError, ok, err, errorf, wrap, Context, Duration, now, sleep, Prog, ret, ◌>>=◌, ◌>>◌,
  ask_process, fatal,
}
use pharos_host_upgrades.External.{External}
use pharos_host_upgrades.Hosts.Interface.{Info, Status, Host}
use pharos_host_upgrades.Hosts.Kinds
use pharos_host_upgrades.Main.Config.{Options, load_config}
use pharos_host_upgrades.Main.Scheduler
use pharos_host_upgrades.Main.Kube
use pharos_host_upgrades.Main.Kube.{Kube}

-- `time.Sleep` returns at once for a negative duration.
abbrev sleep_time : Duration → ℕ
sleep_time (pos n) = n
sleep_time (negsuc _) = 0

module _ (ext : External) {H : Type 0} (methods : Host H) (options : Options) (rounds : ℕ) where
  -- Drain and mark the node before a reboot, with --drain.
  unfoldable pub prepare_reboot : Option Kube → Prog MaybeError
  unfolding Kube.drain_node Kube.mark_reboot
  prepare_reboot k = if not options.drain then ret none else do
    undrained ← Kube.drain_node ext k
    elim undrained [
      | some e ↦ ret (some (wrap "Failed to drain kube node for host reboot: " e))
      | none ↦ do
        t ← ask_process now
        unmarked ← Kube.mark_reboot ext k t
        elim unmarked [
          | some e ↦ ret (some (wrap "Failed to mark kube node for host reboot: " e))
          | none ↦ ret none
        ]
    ]

  unfoldable pub reboot_if_required : H → Option Kube → Status → Prog (Bool × MaybeError)
  unfolding prepare_reboot
  reboot_if_required host k status =
      if options.reboot && status.reboot_required
      then (do
        unprepared ← prepare_reboot k
        elim unprepared [
          | some e ↦ ret (false, some e)
          | none ↦ do
            failure ← methods.reboot host
            elim failure [
              | some e ↦ ret (false, some (wrap "Failed to reboot host: " e))
              | none ↦ ret (true, none)
            ]
        ])
      else ret (false, none)

  -- The function that runs with the kube lock held: whether the host is rebooting, and the error.
  unfoldable pub upgrade_locked : H → Option Kube → Prog (Bool × MaybeError)
  unfolding Kube.update_host_status reboot_if_required
  upgrade_locked host k = do
    (status, failure) ← methods.upgrade host
    elim failure [
      | some e ↦ do Kube.update_host_status ext k status (some e); ret (false, some e)
      | none ↦ do
        unreported ← Kube.update_host_status ext k status none
        elim unreported [
          | some e ↦ ret (false, some (wrap "Kube node status update failed: " e))
          | none ↦ reboot_if_required host k status
        ]
    ]

  -- After the upgrade: release the lock, or keep it and wait for the reboot to end the process.
  unfoldable pub finish_run : Option Kube → Bool × MaybeError → Prog MaybeError
  unfolding Kube.release_lock
  finish_run k (rebooting, some e) = do Kube.release_lock rounds k; ret (some e)
  finish_run k (true, none) = do
    ask_process (sleep (sleep_time options.reboot_timeout))
    ret (some (errorf "Timeout waiting for host to shutdown"))
  finish_run k (false, none) = do
    failure ← Kube.release_lock rounds k
    elim failure [ some e ↦ ret (some (wrap "Failed to release kube lock: " e)) | none ↦ ret none ]

  -- The function that `run` passes to the scheduler.
  unfoldable pub upgrade_run : H → Option Kube → Context → Prog MaybeError
  unfolding Kube.acquire_lock upgrade_locked finish_run
  upgrade_run host k ctx = do
    unlocked ← Kube.acquire_lock rounds k ctx
    elim unlocked [
      | some e ↦ ret (some (wrap "Failed to acquire kube lock: " e))
      | none ↦ do outcome ← upgrade_locked host k; finish_run k outcome
    ]

  -- `run` from the scheduler on, with a host that is configured.
  unfoldable pub run_configured : H → Info → Prog MaybeError
  unfolding Scheduler.make_scheduler Kube.make_kube Scheduler.run upgrade_run
  run_configured host info = elim (Scheduler.make_scheduler ext options) [
    | err e ↦ ret (some e)
    | ok scheduler ↦ do
      made ← Kube.make_kube ext rounds options.kube info
      elim made [
        | err e ↦ ret (some (wrap "Failed to initialize kube: " e))
        | ok k ↦ Scheduler.run rounds scheduler (upgrade_run host k)
      ]
  ]

  -- `run`
  unfoldable pub run : List H → Prog MaybeError
  unfolding load_config Kinds.probe_first run_configured
  run hosts = do
    loaded ← load_config options
    elim loaded [
      | err e ↦ ret (some (wrap "Failed to load config: " e))
      | ok config ↦ do
        probed ← Kinds.probe_first methods hosts
        elim probed [
          | err e ↦ ret (some (wrap "Failed to probe host: " e))
          | ok (host, info) ↦ do
            (unconfigured, configured) ← methods.config host config
            elim unconfigured [
              | some e ↦ ret (some (wrap "Failed to configure host: " e))
              | none ↦ run_configured configured info
            ]
        ]
    ]

  -- `main` once the options are read: an error ends the process with a message.
  unfoldable pub main : List H → Prog (Unit {0})
  unfolding run
  main hosts = do failure ← run hosts; elim failure [ some e ↦ fatal e | none ↦ ret tt ]

-- 1 hour and 5 minutes
abbrev default_schedule_window : Duration
default_schedule_window = pos 3600000000000

abbrev default_reboot_timeout : Duration
default_reboot_timeout = pos 300000000000

-- The variables that `flag.Parse` sets.
pub record Flags : Type 0 where
  pub version : Bool
  pub options : Options

-- The flags of `main` as they are defined, before the arguments are parsed.
unfoldable pub default_flags : (String → String) → Flags
default_flags getenv = record {
  version = false;
  options = record {
    config_path = "/etc/host-upgrades";
    host_mount = "/run/host-upgrades";
    schedule = "";
    schedule_window = default_schedule_window;
    reboot = false;
    reboot_timeout = default_reboot_timeout;
    drain = false;
    kube = record {
      namespace = getenv "KUBE_NAMESPACE";
      daemon_set = getenv "KUBE_DAEMONSET";
      node = getenv "KUBE_NODE";
    };
  };
}

-- `main` with the flags that were parsed; `os.Exit(0)` ends the process as a return of `main` does.
unfoldable pub command : External → {H : Type 0} → Host H → ℕ → List H → Flags → Prog (Unit {0})
unfolding main
command ext methods rounds hosts flags =
    if flags.version then ret tt else main ext methods flags.options rounds hosts
