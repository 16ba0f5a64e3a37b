-- ===== src/Progress/Recovery.antt =====
-- kube.go: a node that comes back, in a world that does its part.
use pharos_host_upgrades.Prelude.{
  ℕ, ◌<◌, String, ◌≡◌, ◌≢◌, refl, ◌∙◌, eq_iff, true, false, none, some, [], ◌∷◌, ◌==◌, ==-refl,
  arith, ltb, Bool-cases, inl, inr, ◌⊎◌,
}
use pharos_host_upgrades.Effects.{ok, Time, DaemonSet, NodeObject}
use pharos_host_upgrades.Effects.Logic.{Safe, Safe-bind}
use pharos_host_upgrades.External.{External}
use pharos_host_upgrades.Kube.Lock
use pharos_host_upgrades.Kube.Lock.{Lock}
use pharos_host_upgrades.Kube.Lock.Ownership.{is_acquired}
use pharos_host_upgrades.Kube.Node
use pharos_host_upgrades.Kube.Node.{Node, annotation_of, unannotate, set_conditions, is_some}
use pharos_host_upgrades.Kube.Node.Annotations.{annotation_of-unannotate}
use pharos_host_upgrades.Hosts.Interface.{Info}
use pharos_host_upgrades.Main.Conditions.{rebooted, make_reboot_condition_rebooted}
use pharos_host_upgrades.Main.Kube
use pharos_host_upgrades.Main.Kube.{Kube, kube_reboot_annotation, kube_drain_annotation}
use pharos_host_upgrades.Progress.{World, Kept, progress, with_node, with_status}
use pharos_host_upgrades.Progress.Writes.{
  Succeeds, change_node_once, write_conditions_once, uncordon_once, uncordoned,
}
use pharos_host_upgrades.Progress.Locking.{Gives, release-progress}

-- The node has no mark of a reboot, or its mark is older than its boot.
abbrev pub IsBack : External → Info → NodeObject → Type 0
IsBack ext info node =
    (annotation_of node kube_reboot_annotation ≡ none)
    ⊎ ((value : String) × (t : Time) × (annotation_of node kube_reboot_annotation ≡ some value)
        × (ext.unmarshal_time value ≡ ok t)
        × (ltb t info.boot_time ≡ true))

-- An annotation of the node is gone, and nothing else of it or of the DaemonSet but the conditions
-- has changed.
pub record Lost (key : String) (before after : World) : Type 0 where
  pub gone : annotation_of after.node key ≡ none
  pub others :
      (other : String)
      → (key == other) ≡ false
      → annotation_of after.node other ≡ annotation_of before.node other
  pub same_schedulable : after.node.unschedulable ≡ before.node.unschedulable
  pub same_daemonset : after.daemonset ≡ before.daemonset
  pub same_conflicts : after.conflicts ≡ before.conflicts

-- `unannotate` in the world, after any write of the conditions.
with_node-Lost :
    (m : World) (key : String) (s : NodeObject)
    → let w = with_status m s in Lost key m (with_node w (unannotate w.node key))
unfolding annotation_of unannotate
with_node-Lost m key s = record {
  gone = annotation_of-unannotate (with_status m s).node key key ∙ rw (==-refl key) refl;
  others =
      λ other differ. annotation_of-unannotate (with_status m s).node key other ∙ rw differ refl;
  same_schedulable = refl;
  same_daemonset = refl;
  same_conflicts = refl;
}

module _ (ext : External) (k : Kube) (node : Node) (found : k.node ≡ some node) where
  pub clear_node_reboot-progress :
      (m : World)
      → IsBack ext k.host_info m.node
      → Safe progress (Kube.clear_node_reboot ext k) m (Succeeds (Lost kube_reboot_annotation m))
  unfolding Kube.clear_node_reboot Kube.check_reboot Node.get_annotation Node.get Kube.finish_reboot
      Node.clear_annotation make_reboot_condition_rebooted
  clear_node_reboot-progress m (inl unmarked) =
      rw (found, Kube.deref)
        (
          tt,
          λ r read.
              rw (read, unmarked)
                (
                  refl,
                  record {
                    gone = unmarked;
                    others = λ other differ. refl;
                    same_schedulable = refl;
                    same_daemonset = refl;
                    same_conflicts = refl;
                  },
                ),
        )
  clear_node_reboot-progress m (inr (value, t, marked, written, late)) =
      rw (found, Kube.deref)
        (
          tt,
          λ r read.
              rw (read, marked, written, late)
                (
                  tt,
                  λ heartbeat _.
                      let conditions = rebooted k.host_info.boot_time heartbeat ∷ [] in
                      Safe-bind progress (Node.write_conditions ext.retry node conditions) _ m
                        (Succeeds (λ m'. m' ≡ with_status m (set_conditions m.node conditions)))
                        (Succeeds (Lost kube_reboot_annotation m))
                        (write_conditions_once ext.retry node conditions m)
                        λ e m' (succeeded, reported).
                          rw (succeeded, reported)
                            (Safe-bind progress
                              (Node.retried ext.retry (
                                Node.change_node node
                                  (λ obj. unannotate obj kube_reboot_annotation)))
                              _ _ _ (Succeeds (Lost kube_reboot_annotation m))
                              (change_node_once ext.retry node
                                (λ obj. unannotate obj kube_reboot_annotation) _ (λ obj. refl))
                              λ e' m'' (succeeded', cleared).
                                rw (succeeded', cleared)
                                  (
                                    refl,
                                    with_node-Lost m kube_reboot_annotation
                                        (set_conditions m.node conditions),
                                  )),
                ),
        )

  pub clear_node_drain-progress :
      (m : World)
      → Safe progress
          (Kube.clear_node_drain ext k)
          m
          (Succeeds (λ m'. m' ≡ uncordoned kube_drain_annotation m))
  unfolding Kube.clear_node_drain
  clear_node_drain-progress m =
      rw (found, Kube.deref)
        (Safe-bind progress (Node.set_schedulable_if_annotated ext.retry node kube_drain_annotation)
          _ m (λ r m'. (r.1 ≡ none) × (m' ≡ uncordoned kube_drain_annotation m))
          (Succeeds (λ m'. m' ≡ uncordoned kube_drain_annotation m))
          (uncordon_once ext.retry node kube_drain_annotation m)
          λ (changed, failure) m' (succeeded, same). rw succeeded (refl, same))

-- The node does not hold the lock, which has not changed if the node did not hold it before.
pub record Unlocked (lock : Lock) (before after : World) : Type 0 where
  pub not_acquired : is_acquired lock after.daemonset ≡ false
  pub kept : is_acquired lock before.daemonset ≡ false → after.daemonset ≡ before.daemonset
  pub same_node : after.node ≡ before.node

module _ (k : Kube) (lock : Lock) (found : k.lock ≡ some lock) (named : lock.value ≢ "") where
  is_acquired-empty :
      (object : DaemonSet) → Lock.lock_value lock object ≡ "" → is_acquired lock object ≡ false
  unfolding Lock.test_object
  is_acquired-empty object free = ground (arith, eq_iff (Lock.lock_value lock object) "")

  pub clear_lock-progress :
      (rounds : ℕ) (m : World)
      → m.conflicts < rounds
      → Safe progress (Kube.clear_lock rounds k) m (Succeeds (Unlocked lock m))
  unfolding Kube.clear_lock Lock.test Lock.get
  clear_lock-progress rounds m fewer =
      rw (found, Kube.deref)
        (
          tt,
          λ r read. rw read (elim (Bool-cases (is_acquired lock m.daemonset)) [
            | inl mine ↦ rw mine (
                Safe-bind progress (Lock.release rounds lock) _ m
                  (Succeeds (λ m'.
                    Gives lock "" m.daemonset.annotations m'.daemonset.annotations × Kept m m'))
                  (Succeeds (Unlocked lock m)) (release-progress lock named rounds m mine fewer)
                  λ e m' (succeeded, (gives, rest)). rw succeeded (
                    refl,
                    record {
                      not_acquired = is_acquired-empty m'.daemonset gives.0;
                      kept = λ other. cc;
                      same_node = rest.same_node;
                    },
                  ))
            | inr other ↦
                rw other (refl, record { not_acquired = other; kept = λ _. refl; same_node = refl })
          ]),
        )
