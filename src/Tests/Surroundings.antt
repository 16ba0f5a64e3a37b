-- ===== src/Tests/Surroundings.antt =====
-- Surroundings that answer each call: an API server with the DaemonSet, and a host that matches.
use pharos_host_upgrades.Hosts.Kinds
use pharos_host_upgrades.Hosts.Interface.{Host}
use pharos_host_upgrades.Main.Config.{Options}
use pharos_host_upgrades.Cluster.{options_of}
use pharos_host_upgrades.Tests.Tools.{tools, node_name}
use pharos_host_upgrades.Prelude.{pos, ℕ}
use pharos_host_upgrades.Prelude.{
  arith, suc, String, refl, Bool, true, false, none, some, inl, [], ◌∷◌, Option, ◌==◌,
}
use native.Mathlib.Decide.{ℕ_discrete}
use pharos_host_upgrades.Effects.{
  ok, err, Client, DaemonSet, NodeObject, KubeOp, ProcessOp, FileOp, SystemOp, Op, Resp, kube,
  process, file, system, in_cluster_config, new_apps_client, new_core_client, get_daemonset,
  update_daemonset, watch_daemonset, watch_until, get_node, update_node, update_node_status, now,
  ctx_err, sleep, sleep_jittered, receive_start, run_command, panics, log_fatal, output, stat,
  open_file, read_lines, create_file, read_file, write_file, close_file, rename_file,
  parse_template, execute_template, dbus_connect, reset_failed_unit, start_transient_unit,
  get_unit_property, receive_job_result, dbus_close, new_journal, journal_add_match, journal_seek,
  journal_next, journal_entry, journal_close, login1_new, login1_reboot, login1_close,
  hostname1_new, hostname1_properties, hostname1_close, uint64, text, not_exist, conflict, failed,
  errorf,
}
use pharos_host_upgrades.Cluster.{Server, Answered}

-- A DaemonSet whose lock nobody holds.
abbrev pub daemon_set : DaemonSet
daemon_set = record {
  name = "host-upgrades";
  resource_version = 7;
  annotations = some [];
  spec = "";
}

abbrev pub plain_node : NodeObject
plain_node = record {
  name = "x";
  resource_version = 3;
  annotations = none;
  unschedulable = false;
  conditions = [];
  spec = "";
}

-- The program's parameters on node `i`.
abbrev pub methods : Host Kinds.AnyHost
methods = Kinds.host_methods tools true 9

abbrev pub options : ℕ → Options
options i = record {
  config_path = "/host";
  host_mount = "/host";
  schedule = "";
  schedule_window = pos 0;
  reboot = true;
  reboot_timeout = pos 60;
  drain = true;
  kube = options_of "kube-system" "host-upgrades" node_name i;
}

-- An answer to a call, and the server after it.
abbrev pub Reply : Server → Op → Type 0
Reply s o = (r : Resp o) × (s' : Server) × Answered s o r s'

abbrev reply_stat : (s : Server) (path : String) → Bool → Reply s (file (stat path))
reply_stat s path true = (ok (record { is_dir = true; is_regular = false; mod_time = 0 }), s, refl)
reply_stat s path false = (err (not_exist path), s, refl)

abbrev reply_file : (s : Server) (o : FileOp) → Reply s (file o)
reply_file s (stat path) = reply_stat s path (path == "/host")
reply_file s (open_file path) = (err (not_exist path), s, refl)
reply_file s (read_lines f) = ([], s, refl)
reply_file s (create_file path mode) = (ok 1, s, refl)
reply_file s (read_file f) = (ok "", s, refl)
reply_file s (write_file f contents) = (none, s, refl)
reply_file s (close_file f) = (none, s, refl)
reply_file s (rename_file old new) = (none, s, refl)
reply_file s (parse_template name body) = (none, s, refl)
reply_file s (execute_template name body values) = (ok "", s, refl)

abbrev reply_system : (s : Server) (o : SystemOp) → Reply s (system o)
reply_system s dbus_connect = (ok 1, s, refl)
reply_system s (reset_failed_unit conn unit) = (none, s, refl)
reply_system s (start_transient_unit conn unit mode properties) = (none, s, refl)
reply_system s (get_unit_property conn unit type name) = (ok (uint64 5), s, refl)
reply_system s receive_job_result = ("done", s, refl)
reply_system s (dbus_close conn) = (tt, s, refl)
reply_system s new_journal = (ok 1, s, refl)
reply_system s (journal_add_match j line) = (none, s, refl)
reply_system s (journal_seek j n) = (none, s, refl)
reply_system s (journal_next j) = (ok 0, s, refl)
reply_system s (journal_entry j) = (err (errorf "no entry"), s, refl)
reply_system s (journal_close j) = (none, s, refl)
reply_system s login1_new = (ok 1, s, refl)
reply_system s (login1_reboot conn) = (tt, s, refl)
reply_system s (login1_close conn) = (tt, s, refl)
reply_system s hostname1_new = (ok 1, s, refl)
reply_system s (hostname1_properties conn) =
    (ok (("OperatingSystemPrettyName", text "Ubuntu 18.04") ∷ []), s, refl)
reply_system s (hostname1_close conn) = (tt, s, refl)

-- An update is applied if it is made at the current version, and is a conflict otherwise.
abbrev reply_update :
    (s : Server) (c : Client) (namespace : String) (new : DaemonSet)
    → Reply s (kube (update_daemonset c namespace new))
reply_update s c namespace new = elim (ℕ_discrete new.resource_version s.current.resource_version) [
  | yes same ↦
      let stored = record new { resource_version = suc s.current.resource_version } in
      (
        ok stored,
        record { current = stored; past = s.current ∷ s.past },
        ((suc s.current.resource_version, omega arith, same, refl), refl),
      )
  | no _ ↦ (err (conflict "version"), s, inl refl)
]

abbrev reply_kube : (s : Server) (o : KubeOp) → Reply s (kube o)
reply_kube s in_cluster_config = (ok 1, s, refl)
reply_kube s (new_apps_client config) = (ok 2, s, refl)
reply_kube s (new_core_client config) = (ok 3, s, refl)
reply_kube s (get_daemonset c namespace name) = (ok s.current, s, (refl, refl))
reply_kube s (update_daemonset c namespace new) = reply_update s c namespace new
reply_kube s (watch_daemonset c namespace name version) = (err (failed "no watch"), s, refl)
reply_kube s (watch_until timeout w condition) = (err (failed "no watch"), s, refl)
reply_kube s (get_node c name) = (ok plain_node, s, refl)
reply_kube s (update_node c object) = (ok object, s, refl)
reply_kube s (update_node_status c object) = (ok object, s, refl)

abbrev reply_process : (s : Server) (o : ProcessOp) → Option (Reply s (process o))
reply_process s now = some (5, s, refl)
reply_process s (ctx_err ctx) = some (none, s, refl)
reply_process s (sleep n) = some (tt, s, refl)
reply_process s (sleep_jittered n) = some (tt, s, refl)
reply_process s receive_start = some (none, s, refl)
reply_process s (run_command name args) = some (output "", s, refl)
reply_process s (panics message) = none
reply_process s (log_fatal e) = none

unfoldable pub reply : (s : Server) (o : Op) → Option (Reply s o)
reply s (kube o) = some (reply_kube s o)
reply s (process o) = reply_process s o
reply s (file o) = some (reply_file s o)
reply s (system o) = some (reply_system s o)
