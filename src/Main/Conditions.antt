-- ===== src/Main/Conditions.antt =====
-- kube_conditions.go: the node conditions that report an upgrade and a reboot. Each call of
-- `metav1.Now` asks the clock.
use pharos_host_upgrades.Prelude.{String, none, some, if◌then◌else◌}
use pharos_host_upgrades.Effects.{
  MaybeError, Time, NodeCondition, condition_true, condition_false, condition_unknown, now, Prog,
  ret, ◌>>=◌, ask_process,
}
use pharos_host_upgrades.External.{External}
use pharos_host_upgrades.Hosts.Interface.{Info, Status}

abbrev pub upgrade_condition_type : String
upgrade_condition_type = "HostUpgrades"

abbrev pub reboot_condition_type : String
reboot_condition_type = "HostUpgradesReboot"

abbrev pub blank_upgrade_condition : Time → Time → NodeCondition
blank_upgrade_condition heartbeat transition = record {
  type = upgrade_condition_type;
  status = condition_unknown;
  last_heartbeat_time = heartbeat;
  last_transition_time = transition;
  reason = "";
  message = "";
}

module _ (ext : External) where
  -- `MakeUpgradeCondition` after the condition's times are set.
  abbrev pub fill_upgrade_condition : Status → MaybeError → NodeCondition → NodeCondition
  fill_upgrade_condition status (some e) condition = record condition {
    status = condition_unknown;
    reason = "UpgradeFailed";
    message = ext.error_text e;
  }
  fill_upgrade_condition status none condition =
      if status.reboot_required
      then record condition {
        status = condition_false;
        reason = "RebootRequired";
        message = status.upgrade_log;
      }
      else record condition {
        status = condition_true;
        reason = "UpToDate";
        message = status.upgrade_log;
      }

  unfoldable pub make_upgrade_condition : Status → MaybeError → Prog NodeCondition
  make_upgrade_condition status failure = do
    heartbeat ← ask_process now
    transition ← ask_process now
    ret (fill_upgrade_condition status failure (blank_upgrade_condition heartbeat transition))

-- `MakeRebootCondition`; the clock is asked again only where the upgrade failed.
unfoldable pub make_reboot_condition : Info → Status → MaybeError → Prog NodeCondition
make_reboot_condition info status failure = do
  heartbeat ← ask_process now
  let blank : NodeCondition = record {
    type = reboot_condition_type;
    status = condition_unknown;
    last_heartbeat_time = heartbeat;
    last_transition_time = 0;
    reason = "";
    message = "";
  }
  if status.reboot_required
      then ret (record blank {
        status = condition_true;
        last_transition_time = status.reboot_required_since;
        reason = "RebootRequired";
        message = status.reboot_required_message;
      })
      else elim failure [
        | some _ ↦ do
          transition ← ask_process now
          ret (record blank { last_transition_time = transition; reason = "UpgradeFailed" })
        | none ↦ ret (record blank {
          status = condition_false;
          last_transition_time = info.boot_time;
          reason = "UpToDate";
          message = status.reboot_required_message;
        })
      ]

-- The conditions of a reboot that begins and of one that is over, at the time of the heartbeat.
abbrev pub rebooting : Time → Time → NodeCondition
rebooting reboot_time heartbeat = record {
  type = reboot_condition_type;
  status = condition_true;
  last_heartbeat_time = heartbeat;
  last_transition_time = reboot_time;
  reason = "Rebooting";
  message = "";
}

abbrev pub rebooted : Time → Time → NodeCondition
rebooted boot_time heartbeat = record {
  type = reboot_condition_type;
  status = condition_false;
  last_heartbeat_time = heartbeat;
  last_transition_time = boot_time;
  reason = "Rebooted";
  message = "";
}

unfoldable pub make_reboot_condition_rebooting : Time → Prog NodeCondition
make_reboot_condition_rebooting reboot_time = do
  heartbeat ← ask_process now
  ret (rebooting reboot_time heartbeat)

unfoldable pub make_reboot_condition_rebooted : Time → Prog NodeCondition
make_reboot_condition_rebooted boot_time = do
  heartbeat ← ask_process now
  ret (rebooted boot_time heartbeat)
