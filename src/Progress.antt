-- ===== src/Progress.antt =====
-- What the program achieves in a world that does its part: the API server answers, a read gives the
-- current object, an update at the current version is stored or, for the DaemonSet, meets one of a
-- bounded number of conflicts, no deadline passes, the host's files can be read, and systemd does
-- the job of a unit. The monitor also asks the program for its part: every update is made at the
-- current version, and the process does not end by a panic.
pub mod Writes
pub mod Locking
pub mod Recovery
pub mod Restart
pub mod Machine
pub mod Run
pub mod Marking
pub mod Reboot
pub mod Cycle
use pharos_host_upgrades.Prelude.{
  ℕ, suc, ◌-◌, ◌<◌, ◌≤◌, ◌≡◌, true, false, none, Bool, List, ◌∷◌, String,
}
use pharos_host_upgrades.Effects.{
  Result, ok, err, is_conflict, DaemonSet, NodeObject, CommandResult, output, Op, Resp, Time, now,
  kube, process, in_cluster_config, new_apps_client, new_core_client, get_daemonset,
  update_daemonset, get_node, update_node, update_node_status, ctx_err, run_command, panics,
  log_fatal, FileInfo, is_not_exist, file, system, stat, open_file, read_file, close_file,
  dbus_connect, reset_failed_unit, start_transient_unit, get_unit_property, receive_job_result,
  login1_new, uint64,
}
use pharos_host_upgrades.Effects.Logic.{Monitor, Safe}
use pharos_host_upgrades.Hosts.Interface.{Host}

pub record World : Type 0 where
  pub daemonset : DaemonSet
  pub node : NodeObject
  -- how many updates of the DaemonSet may still meet the write of another client
  pub conflicts : ℕ
  -- every reading of the clock is before this time
  pub horizon : Time
  -- whether the file by which the host asks for a reboot is there
  pub flagged : Bool
  -- the commands that have been run, the latest first
  pub commands : List (String × List String)

abbrev pub IsOk : {A : Type 0} → Result A → Type 0
IsOk (ok a) = Unit {0}
IsOk (err e) = ⊥

abbrev IsOutput : CommandResult → Type 0
IsOutput (output text) = Unit {0}
IsOutput _ = ⊥

-- An update of the DaemonSet is stored, or there is a conflict left.
abbrev IsStored : World → Result DaemonSet → Type 0
IsStored m (ok stored) = Unit {0}
IsStored m (err e) = (is_conflict e ≡ true) × (0 < m.conflicts)

-- The file is there, or it does not exist.
abbrev pub Stats : Bool → Result FileInfo → Type 0
Stats true (ok info) = Unit {0}
Stats false (err e) = is_not_exist e ≡ true
Stats _ _ = ⊥

abbrev DoesItsPart : World → (o : Op) → Resp o → Type 0
DoesItsPart m (kube in_cluster_config) r = IsOk r
DoesItsPart m (kube (new_apps_client _)) r = IsOk r
DoesItsPart m (kube (new_core_client _)) r = IsOk r
DoesItsPart m (kube (get_daemonset _ _ _)) r = r ≡ ok m.daemonset
DoesItsPart m (kube (update_daemonset _ _ _)) r = IsStored m r
DoesItsPart m (kube (get_node _ _)) r = r ≡ ok m.node
DoesItsPart m (kube (update_node _ _)) r = IsOk r
DoesItsPart m (kube (update_node_status _ _)) r = IsOk r
DoesItsPart m (process now) r = r < m.horizon
DoesItsPart m (process (ctx_err _)) r = r ≡ none
DoesItsPart m (process (run_command _ _)) r = IsOutput r
DoesItsPart m (file (stat _)) r = Stats m.flagged r
DoesItsPart m (file (open_file _)) r = IsOk r
DoesItsPart m (file (read_file _)) r = IsOk r
DoesItsPart m (file (close_file _)) r = r ≡ none
DoesItsPart m (system dbus_connect) r = IsOk r
DoesItsPart m (system (reset_failed_unit _ _)) r = r ≡ none
DoesItsPart m (system (start_transient_unit _ _ _ _)) r = r ≡ none
DoesItsPart m (system (get_unit_property _ _ _ _)) r = (n : ℕ) × (r ≡ ok (uint64 n))
DoesItsPart m (system receive_job_result) r = r ≡ "done"
DoesItsPart m (system login1_new) r = IsOk r
DoesItsPart m _ _ = Unit {0}

abbrev MayCall : World → Op → Type 0
MayCall m (kube (update_daemonset _ _ new)) = new.resource_version ≡ m.daemonset.resource_version
MayCall m (kube (update_node _ new)) = new.resource_version ≡ m.node.resource_version
MayCall m (kube (update_node_status _ new)) = new.resource_version ≡ m.node.resource_version
MayCall m (process (panics _)) = ⊥
MayCall m (process (log_fatal _)) = ⊥
MayCall m _ = Unit {0}

-- The world once an object is stored. An update of a node does not write its status, and an update
-- of its status writes nothing else.
abbrev pub with_daemonset : World → DaemonSet → World
with_daemonset m new = record m {
  daemonset = record new { resource_version = suc new.resource_version };
}

abbrev pub with_node : World → NodeObject → World
with_node m new = record m {
  node = record new { resource_version = suc new.resource_version; conditions = m.node.conditions };
}

abbrev pub with_status : World → NodeObject → World
with_status m new = record m {
  node = record m.node {
    resource_version = suc m.node.resource_version;
    conditions = new.conditions;
  };
}

-- The world after the write of another client that leaves everything but the version alone.
abbrev pub with_conflict : World → World
with_conflict m = record m {
  daemonset = record m.daemonset { resource_version = suc m.daemonset.resource_version };
  conflicts = m.conflicts - 1;
}

abbrev after_call : World → (o : Op) → Resp o → World
after_call m (kube (update_daemonset _ _ new)) (ok _) = with_daemonset m new
after_call m (kube (update_daemonset _ _ new)) (err _) = with_conflict m
after_call m (kube (update_node _ new)) (ok _) = with_node m new
after_call m (kube (update_node_status _ new)) (ok _) = with_status m new
after_call m (process (run_command name args)) (output _) = record m {
  commands = (name, args) ∷ m.commands;
}
after_call m _ _ = m

abbrev pub progress : Monitor World
progress = record { Pre = MayCall; Admits = DoesItsPart; next = after_call; Out = λ _. ⊥ }

-- The writes of the DaemonSet leave its name and spec and the rest of the world alone, but for the
-- conflicts met.
pub record Kept (before after : World) : Type 0 where
  pub same_name : after.daemonset.name ≡ before.daemonset.name
  pub same_spec : after.daemonset.spec ≡ before.daemonset.spec
  pub same_node : after.node ≡ before.node
  pub no_more : after.conflicts ≤ before.conflicts
  pub same_horizon : after.horizon ≡ before.horizon
  pub same_flagged : after.flagged ≡ before.flagged
  pub same_commands : after.commands ≡ before.commands

-- The host upgrades without an error, and requires a reboot if its file asks for it.
abbrev pub Upgrades : {H : Type 0} → Host H → H → Type 0
Upgrades methods host =
    (m : World)
    → Safe progress (methods.upgrade host) m
        (λ r m'. (r.1 ≡ none) × (r.0.reboot_required ≡ m.flagged) × (m' ≡ m))

-- The host reboots without an error.
abbrev pub Reboots : {H : Type 0} → Host H → H → Type 0
Reboots methods host =
    (m : World) → Safe progress (methods.reboot host) m (λ e m'. (e ≡ none) × (m' ≡ m))
