-- ===== src/Main/Kube/Failure.antt =====
-- kube.go and kube_conditions.go: the conditions that a failed run reports.
use pharos_host_upgrades.Prelude.{
  Bool, true, false, refl, Option, none, some, Option-cases, Bool-cases, inl, inr,
}
use pharos_host_upgrades.Effects.{Error, ConditionStatus, condition_true, condition_unknown}
use pharos_host_upgrades.Effects.Logic.{Within}
use pharos_host_upgrades.External.{External}
use pharos_host_upgrades.Hosts.Interface.{Status}
use pharos_host_upgrades.Main.Conditions.{
  reboot_condition_type, make_upgrade_condition, make_reboot_condition,
}
use pharos_host_upgrades.Main.Kube
use pharos_host_upgrades.Main.Kube.{Kube}
use pharos_host_upgrades.Main.Kube.Report.{WritesReport, write_upgraded-WritesReport}

-- After a failed upgrade it is unknown whether the host is up to date, and it needs a reboot, or
-- that is unknown as well.
abbrev pub AfterFailure : Bool → ConditionStatus → ConditionStatus → Type 0
AfterFailure true condition_unknown condition_true = Unit {0}
AfterFailure false condition_unknown condition_unknown = Unit {0}
AfterFailure _ _ _ = ⊥

-- After an upgrade with an error, every node status that `UpdateHostStatus` writes has both
-- conditions: HostUpgrades is Unknown, and HostUpgradesReboot is True if the host requires a reboot
-- all the same, and Unknown otherwise.
pub update_host_status-AfterFailure :
    (ext : External) (k : Option Kube) (status : Status) (failure : Error)
    → Within
        (WritesReport (AfterFailure status.reboot_required))
        (Kube.update_host_status ext k status (some failure))
unfolding Kube.update_host_status make_upgrade_condition make_reboot_condition
update_host_status-AfterFailure ext none status failure = tt
update_host_status-AfterFailure ext (some k) status failure = elim (Option-cases k.node) [
  | inl e ↦ rw (e, Kube.update_host_status) tt
  | inr (node, e) ↦ elim (Bool-cases status.reboot_required) [
    | inl needed ↦
        rw (e, needed, Kube.update_host_status)
          (
            tt,
            λ h. (
              tt,
              λ t. (
                tt,
                λ h'.
                    write_upgraded-WritesReport (AfterFailure status.reboot_required) ext status
                      (some failure) h t node
                      (record {
                        type = reboot_condition_type;
                        status = condition_true;
                        last_heartbeat_time = h';
                        last_transition_time = status.reboot_required_since;
                        reason = "RebootRequired";
                        message = status.reboot_required_message;
                      })
                      refl (rw needed tt),
              ),
            ),
          )
    | inr not_needed ↦
        rw (e, not_needed, Kube.update_host_status)
          (
            tt,
            λ h. (
              tt,
              λ t. (
                tt,
                λ h'. (
                  tt,
                  λ t'.
                      write_upgraded-WritesReport (AfterFailure status.reboot_required) ext status
                        (some failure) h t node
                        (record {
                          type = reboot_condition_type;
                          status = condition_unknown;
                          last_heartbeat_time = h';
                          last_transition_time = t';
                          reason = "UpgradeFailed";
                          message = "";
                        })
                        refl (rw not_needed tt),
                ),
              ),
            ),
          )
  ]
]
