-- ===== src/Protocol/KubeCalls.antt =====
-- What kube.go does beside the lock, against the rules of the lock.
use pharos_host_upgrades.Prelude.{
  String, none, some, inl, inr, [], ◌∷◌, Option-cases, Option, not, ltb,
}
use pharos_host_upgrades.Effects.{
  MaybeError, Result, ok, err, wrap, Time, ret, exited, output, not_started,
}
use pharos_host_upgrades.Effects.Logic.{Within, Within-bind, Within-if, Within-weaken}
use pharos_host_upgrades.External.{External}
use pharos_host_upgrades.Kubectl
use pharos_host_upgrades.Kube.Node
use pharos_host_upgrades.Kube.Node.{Node}
use pharos_host_upgrades.Hosts.Interface.{Info, Status}
use pharos_host_upgrades.Main.Conditions.{
  make_upgrade_condition, make_reboot_condition, make_reboot_condition_rebooting,
  make_reboot_condition_rebooted, rebooting, rebooted, fill_upgrade_condition,
  blank_upgrade_condition,
}
use pharos_host_upgrades.Main.Kube
use pharos_host_upgrades.Main.Kube.{Kube}
use pharos_host_upgrades.Protocol.{IsQuiet, IsApart, IsQuiet-IsApart}
use pharos_host_upgrades.Protocol.NodeCalls.{
  write_conditions-Quiet, set_annotation-Quiet, clear_annotation-Quiet,
  set_schedulable_if_annotated-Quiet,
}

make_reboot_condition-Quiet :
    (info : Info) (status : Status) (failure : MaybeError)
    → Within IsQuiet (make_reboot_condition info status failure)
unfolding make_reboot_condition
make_reboot_condition-Quiet info status none =
    (tt, λ _. Within-if IsQuiet status.reboot_required _ _ tt tt)
make_reboot_condition-Quiet info status (some e) =
    (tt, λ _. Within-if IsQuiet status.reboot_required _ _ tt (tt, λ _. tt))

module _ (ext : External) where
  check_reboot-Quiet : (node : Node) → Within IsQuiet (Kube.check_reboot ext node)
  unfolding Kube.check_reboot
  check_reboot-Quiet node = (
    tt,
    elim [ err e ↦ tt | ok obj ↦ found (Node.annotation_of obj Kube.kube_reboot_annotation) ],
  )
    where
      parsed :
          (r : Result Time)
          → Within IsQuiet {A = Result (Option Time)} (elim r [
            | err e ↦ ret (err (wrap "Failed to unmarshal reboot annotation: " e))
            | ok t ↦ ret (ok (some t))
          ])
      parsed (err e) = tt
      parsed (ok t) = tt

      found :
          (o : Option String)
          → Within IsQuiet {A = Result (Option Time)} (elim o [
            | none ↦ ret (ok none)
            | some value ↦ elim (ext.unmarshal_time value) [
              | err e ↦ ret (err (wrap "Failed to unmarshal reboot annotation: " e))
              | ok t ↦ ret (ok (some t))
            ]
          ])
      found none = tt
      found (some value) = parsed (ext.unmarshal_time value)

  finish_reboot-Quiet :
      (k : Kube) (node : Node) (t : Time) → Within IsQuiet (Kube.finish_reboot ext k node t)
  unfolding Kube.finish_reboot make_reboot_condition_rebooted
  finish_reboot-Quiet k node t = Within-if IsQuiet (not (ltb t k.host_info.boot_time)) _ _ tt (
    tt,
    λ now.
        let written = rebooted k.host_info.boot_time now ∷ [] in
        Within-bind IsQuiet (Node.write_conditions ext.retry node written) _
          (write_conditions-Quiet ext node written)
          (elim [
            | some _ ↦ tt
            | none ↦
                Within-bind IsQuiet
                  (Node.clear_annotation ext.retry node Kube.kube_reboot_annotation) _
                  (clear_annotation-Quiet ext node Kube.kube_reboot_annotation)
                  (elim [ some e ↦ tt | none ↦ tt ])
          ]),
  )

  pub clear_node_reboot-Quiet : (k : Kube) → Within IsQuiet (Kube.clear_node_reboot ext k)
  unfolding Kube.clear_node_reboot
  clear_node_reboot-Quiet k = elim (Option-cases k.node) [
    | inl e ↦ rw (e, Kube.deref) (tt, λ r. absurd r)
    | inr (node, e) ↦
        rw (e, Kube.deref)
          (Within-bind IsQuiet (Kube.check_reboot ext node) _ (check_reboot-Quiet node)
            (elim [ err e ↦ tt | ok none ↦ tt | ok (some t) ↦ finish_reboot-Quiet k node t ]))
  ]

  pub clear_node_drain-Quiet : (k : Kube) → Within IsQuiet (Kube.clear_node_drain ext k)
  unfolding Kube.clear_node_drain
  clear_node_drain-Quiet k = elim (Option-cases k.node) [
    | inl e ↦ rw (e, Kube.deref) (tt, λ r. absurd r)
    | inr (node, e) ↦
        rw (e, Kube.deref)
          (Within-bind IsQuiet
            (Node.set_schedulable_if_annotated ext.retry node Kube.kube_drain_annotation) _
            (set_schedulable_if_annotated-Quiet ext node _) λ (_, failure). ended failure)
  ]
    where
      ended :
          (failure : MaybeError)
          → Within IsQuiet {A = MaybeError} (elim failure [
            | some e ↦ ret (some (wrap "Failed to clear node drain state: " e))
            | none ↦ ret none
          ])
      ended none = tt
      ended (some e) = tt

  pub update_host_status-Quiet :
      (k : Option Kube) (status : Status) (failure : MaybeError)
      → Within IsQuiet (Kube.update_host_status ext k status failure)
  unfolding Kube.update_host_status make_upgrade_condition
  update_host_status-Quiet none status failure = tt
  update_host_status-Quiet (some k) status failure = elim (Option-cases k.node) [
    | inl e ↦ rw (e, Kube.update_host_status) tt
    | inr (node, e) ↦
        rw (e, Kube.update_host_status)
          (
            tt,
            λ heartbeat. (
              tt,
              λ transition.
                  Within-bind IsQuiet (make_reboot_condition k.host_info status failure) _
                    (make_reboot_condition-Quiet k.host_info status failure)
                    λ reboot.
                      let upgrade =
                        fill_upgrade_condition ext status failure
                          (blank_upgrade_condition heartbeat transition) in
                      let written = upgrade ∷ reboot ∷ [] in
                      Within-bind IsQuiet (Node.write_conditions ext.retry node written) _
                        (write_conditions-Quiet ext node written) (λ _. tt),
            ),
          )
  ]

  mark_reboot_at-Quiet :
      (node : Node) (t : Time) (marshalled : Result String)
      → Within IsQuiet (elim marshalled [
        | err e ↦ ret (some (wrap "Failed to marshal reboot annotation: " e))
        | ok value ↦ Kube.write_mark ext node t value
      ])
  unfolding Kube.write_mark make_reboot_condition_rebooting
  mark_reboot_at-Quiet node t (err e) = tt
  mark_reboot_at-Quiet node t (ok value) =
      Within-bind IsQuiet (Node.set_annotation ext.retry node Kube.kube_reboot_annotation value) _
        (set_annotation-Quiet ext node _ value)
        (elim [
          | some e ↦ tt
          | none ↦ (
            tt,
            λ now.
                let written = rebooting t now ∷ [] in
                Within-bind IsQuiet (Node.write_conditions ext.retry node written) _
                  (write_conditions-Quiet ext node written) (elim [ some e ↦ tt | none ↦ tt ]),
          )
        ])

  pub mark_reboot-Quiet : (k : Option Kube) (t : Time) → Within IsQuiet (Kube.mark_reboot ext k t)
  unfolding Kube.mark_reboot
  mark_reboot-Quiet k t = elim (Option-cases (Kube.node_of k)) [
    | inl e ↦ rw (e, Kube.mark_reboot) tt
    | inr (node, e) ↦ rw (e, Kube.mark_reboot) (mark_reboot_at-Quiet node t (ext.marshal_time t))
  ]

  kubectl-Apart : (node : String) → Within IsApart (Kubectl.drain node)
  unfolding Kubectl.drain
  kubectl-Apart node = (tt, elim [ output _ ↦ tt | exited s t ↦ tt | not_started c ↦ tt ])

  pub drain_node-Apart : (k : Option Kube) → Within IsApart (Kube.drain_node ext k)
  unfolding Kube.drain_node
  drain_node-Apart none = tt
  drain_node-Apart (some k) = elim (Option-cases k.node) [
    | inl e ↦ rw (e, Kube.drain_node) tt
    | inr (node, e) ↦
        rw (e, Kube.drain_node)
          (Within-bind IsApart
            (Node.set_annotation ext.retry node Kube.kube_drain_annotation "true") _
            (Within-weaken IsQuiet IsApart IsQuiet-IsApart _
              (set_annotation-Quiet ext node Kube.kube_drain_annotation "true"))
            (elim [
              | some e ↦ tt
              | none ↦
                  Within-bind IsApart (Kubectl.drain k.options.node) _
                    (kubectl-Apart k.options.node) (elim [ some e ↦ tt | none ↦ tt ])
            ]))
  ]
