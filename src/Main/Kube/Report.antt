-- ===== src/Main/Kube/Report.antt =====
-- kube.go and kube_conditions.go: the conditions that a run reports.
use pharos_host_upgrades.Prelude.{
  ℕ, ◌≡◌, refl, ◌∙◌, Option, none, some, List, [], ◌∷◌, if◌then◌else◌, Option-cases, Bool-cases,
  inl, inr,
}
use pharos_host_upgrades.Effects.{
  MaybeError, ok, err, is_conflict, Time, ConditionStatus, condition_true, condition_false,
  NodeCondition, NodeObject, Op, kube, update_node_status, sleep_jittered, Prog, ret, ◌>>=◌, ◌>>◌,
  ask_process,
}
use pharos_host_upgrades.Effects.Logic.{Within, Within-bind, Within-if}
use pharos_host_upgrades.External.{External}
use pharos_host_upgrades.Kube.Retry.{RetryOnConflict, attempts}
use pharos_host_upgrades.Kube.Node
use pharos_host_upgrades.Kube.Node.{Node, condition_of}
use pharos_host_upgrades.Kube.Node.Conditions.{condition_of-set_conditions}
use pharos_host_upgrades.Hosts.Interface.{Status}
use pharos_host_upgrades.Main.Conditions.{
  upgrade_condition_type, reboot_condition_type, blank_upgrade_condition, fill_upgrade_condition,
  make_upgrade_condition, make_reboot_condition,
}
use pharos_host_upgrades.Main.Kube
use pharos_host_upgrades.Main.Kube.{Kube}

abbrev pub AreOpposite : ConditionStatus → ConditionStatus → Type 0
AreOpposite condition_true condition_false = Unit {0}
AreOpposite condition_false condition_true = Unit {0}
AreOpposite _ _ = ⊥

-- The node has both conditions, with statuses that are so related.
pub record Reported (Related : ConditionStatus → ConditionStatus → Type 0) (obj : NodeObject)
    : Type 0 where
  pub upgrade : NodeCondition
  pub reboot : NodeCondition
  pub has_upgrade : condition_of obj upgrade_condition_type ≡ some upgrade
  pub has_reboot : condition_of obj reboot_condition_type ≡ some reboot
  pub related : Related upgrade.status reboot.status

-- Every node status that is written reports so.
abbrev pub WritesReport : (ConditionStatus → ConditionStatus → Type 0) → Op → Type 0
WritesReport Related (kube (update_node_status _ new)) = Reported Related new
WritesReport Related _ = Unit {0}

module _ (Related : ConditionStatus → ConditionStatus → Type 0) where
  set_conditions-Reported :
      (obj : NodeObject) (u r : NodeCondition)
      → u.type ≡ upgrade_condition_type
      → r.type ≡ reboot_condition_type
      → Related u.status r.status
      → Reported Related (Node.set_conditions obj (u ∷ r ∷ []))
  set_conditions-Reported obj u r ut rt o = record {
    upgrade = u;
    reboot = r;
    has_upgrade =
        condition_of-set_conditions obj (u ∷ r ∷ []) upgrade_condition_type ∙ rw (ut, rt) refl;
    has_reboot =
        condition_of-set_conditions obj (u ∷ r ∷ []) reboot_condition_type ∙ rw (ut, rt) refl;
    related = o;
  }

  attempts-WritesReport :
      (pauses : List ℕ) (fn : Prog MaybeError)
      → Within (WritesReport Related) fn
      → Within
          (WritesReport Related)
          (attempts pauses (λ (_ : Unit {0}). fn >>= λ e. ret (e, tt)) tt)
  unfolding attempts
  attempts-WritesReport [] fn w = Within-bind (WritesReport Related) fn _ w (λ e. tt)
  attempts-WritesReport (pause ∷ pauses) fn w =
      Within-bind (WritesReport Related) (fn >>= λ e. ret (e, tt)) _
        (Within-bind (WritesReport Related) fn _ w (λ e. tt))
        λ (failure, s). once_more failure (attempts-WritesReport pauses fn w)
    where
      once_more :
          (failure : MaybeError)
          → Within
              (WritesReport Related)
              (attempts pauses (λ (_ : Unit {0}). fn >>= λ e. ret (e, tt)) tt)
          → Within (WritesReport Related) {A = MaybeError × Unit {0}} (elim failure [
            | none ↦ ret (none, tt)
            | some e ↦
                if is_conflict e
                then (do
                  ask_process (sleep_jittered pause)
                  attempts pauses (λ (_ : Unit {0}). fn >>= λ e. ret (e, tt)) tt)
                else ret (some e, tt)
          ])
      once_more none next = tt
      once_more (some e) next =
          Within-if (WritesReport Related) (is_conflict e) _ _ (tt, λ _. next) tt

  write_conditions-WritesReport :
      (retry : RetryOnConflict) (node : Node) (u r : NodeCondition)
      → u.type ≡ upgrade_condition_type
      → r.type ≡ reboot_condition_type
      → Related u.status r.status
      → Within (WritesReport Related) (Node.write_conditions retry node (u ∷ r ∷ []))
  unfolding Node.write_conditions Node.change_node_status
  write_conditions-WritesReport retry node u r ut rt o =
      let fn = Node.change_node_status node (λ obj. Node.set_conditions obj (u ∷ r ∷ [])) in
      Within-bind (WritesReport Related) (retry.run (Unit {0}) (λ _. fn >>= λ e. ret (e, tt)) tt) _
        (rw (retry.run-eq-attempts (Unit {0}) (λ _. fn >>= λ e. ret (e, tt)) tt) (
          attempts-WritesReport retry.pauses fn (
            tt,
            elim [
              | err e ↦ tt
              | ok obj ↦ (set_conditions-Reported obj u r ut rt o, elim [ err e ↦ tt | ok _ ↦ tt ])
            ],
          )))
        (λ _. tt)

  module _ (ext : External) (status : Status) (failure : MaybeError)
      (heartbeat transition : Time) where
    -- The upgrade condition of a run.
    abbrev upgraded : NodeCondition
    upgraded =
        fill_upgrade_condition ext status failure (blank_upgrade_condition heartbeat transition)

    type-upgraded : upgraded.type ≡ upgrade_condition_type
    type-upgraded = elim (Option-cases failure) [
      | inr (e, failed) ↦ rw failed refl
      | inl done ↦ elim (Bool-cases status.reboot_required) [
        | inl needed ↦ rw (done, needed) refl
        | inr not_needed ↦ rw (done, not_needed) refl
      ]
    ]

    pub write_upgraded-WritesReport :
        (node : Node) (r : NodeCondition)
        → r.type ≡ reboot_condition_type
        → Related upgraded.status r.status
        → Within
            (WritesReport Related)
            {A = MaybeError}
            (Node.write_conditions ext.retry node (upgraded ∷ r ∷ []) >> ret none)
    write_upgraded-WritesReport node r rt o =
        Within-bind (WritesReport Related)
          (Node.write_conditions ext.retry node (upgraded ∷ r ∷ [])) _
          (write_conditions-WritesReport ext.retry node upgraded r type-upgraded rt o) (λ _. tt)

-- After an upgrade without an error, every node status that `UpdateHostStatus` writes has both
-- conditions, and HostUpgrades is True and HostUpgradesReboot False, or the other way round.
pub update_host_status-WritesReport :
    (ext : External) (k : Option Kube) (status : Status)
    → Within (WritesReport AreOpposite) (Kube.update_host_status ext k status none)
unfolding Kube.update_host_status make_upgrade_condition make_reboot_condition
update_host_status-WritesReport ext none status = tt
update_host_status-WritesReport ext (some k) status = elim (Option-cases k.node) [
  | inl e ↦ rw (e, Kube.update_host_status) tt
  | inr (node, e) ↦ elim (Bool-cases status.reboot_required) [
    | inl needed ↦
        rw (e, needed, Kube.update_host_status)
          (
            tt,
            λ h. (
              tt,
              λ t. (
                tt,
                λ h'.
                    write_upgraded-WritesReport AreOpposite ext status none h t node
                      (record {
                        type = reboot_condition_type;
                        status = condition_true;
                        last_heartbeat_time = h';
                        last_transition_time = status.reboot_required_since;
                        reason = "RebootRequired";
                        message = status.reboot_required_message;
                      })
                      refl (rw needed tt),
              ),
            ),
          )
    | inr not_needed ↦
        rw (e, not_needed, Kube.update_host_status)
          (
            tt,
            λ h. (
              tt,
              λ t. (
                tt,
                λ h'.
                    write_upgraded-WritesReport AreOpposite ext status none h t node
                      (record {
                        type = reboot_condition_type;
                        status = condition_false;
                        last_heartbeat_time = h';
                        last_transition_time = k.host_info.boot_time;
                        reason = "UpToDate";
                        message = status.reboot_required_message;
                      })
                      refl (rw not_needed tt),
              ),
            ),
          )
  ]
]
