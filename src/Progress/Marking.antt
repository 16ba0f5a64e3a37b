-- ===== src/Progress/Marking.antt =====
-- kube.go: draining the node and marking it for a reboot, in a world that does its part.
use pharos_host_upgrades.Prelude.{ℕ, ◌<◌, String, ◌≡◌, refl, ◌∙◌, ap, some, [], ◌∷◌, lookup}
use pharos_host_upgrades.Effects.{ok, Time, NodeObject, output, exited, not_started}
use pharos_host_upgrades.Effects.Logic.{Safe, Safe-bind}
use pharos_host_upgrades.External.{External}
use pharos_host_upgrades.Kube.Node
use pharos_host_upgrades.Kube.Node.{Node, annotate, annotation_of, set_conditions}
use pharos_host_upgrades.Kube.Node.Annotations.{annotation_of-annotate}
use pharos_host_upgrades.Kubectl
use pharos_host_upgrades.Main.Run.Prepared.{drain_args}
use pharos_host_upgrades.Main.Conditions.{rebooting, make_reboot_condition_rebooting}
use pharos_host_upgrades.Main.Kube
use pharos_host_upgrades.Main.Kube.{Kube, kube_reboot_annotation, kube_drain_annotation}
use pharos_host_upgrades.Progress.{World, progress, with_node, with_status}
use pharos_host_upgrades.Progress.Writes.{Succeeds, change_node_once, write_conditions_once}
use pharos_host_upgrades.Progress.Run.{SameButStatus}

-- Times before the horizon can be written.
abbrev pub Marshals : External → ℕ → Type 0
Marshals ext horizon = (t : Time) → t < horizon → (value : String) × (ext.marshal_time t ≡ ok value)

-- `kubectl` has drained the node, which is marked as drained and with the time of its reboot.
pub record Marked (ext : External) (name : String) (before after : World) : Type 0 where
  pub drained : annotation_of after.node kube_drain_annotation ≡ some "true"
  pub reboot_time : Time
  pub value : String
  pub marked : annotation_of after.node kube_reboot_annotation ≡ some value
  pub written : ext.marshal_time reboot_time ≡ ok value
  pub before_horizon : reboot_time < before.horizon
  pub same_daemonset : after.daemonset ≡ before.daemonset
  pub same_conflicts : after.conflicts ≡ before.conflicts
  pub same_horizon : after.horizon ≡ before.horizon
  -- `kubectl drain` has been run on the node, and nothing else.
  pub commanded : after.commands ≡ ("kubectl", drain_args name) ∷ before.commands

-- The world after the annotations of the drain and of the mark.
abbrev pub drained_world : String → World → World
drained_world name m = record (with_node m (annotate m.node kube_drain_annotation "true")) {
  commands = ("kubectl", drain_args name) ∷ m.commands;
}

abbrev pub marked_world : World → String → World
marked_world m value = with_node m (annotate m.node kube_reboot_annotation value)

drain-progress :
    (name : String) (m : World)
    → Safe progress
        (Kubectl.drain name)
        m
        (Succeeds (λ m'. m' ≡ record m { commands = ("kubectl", drain_args name) ∷ m.commands }))
unfolding Kubectl.drain Kubectl.kubectl
drain-progress name m = (
  tt,
  elim [
    | output text ↦ λ _. (refl, refl)
    | exited a b ↦ λ n. absurd n
    | not_started c ↦ λ n. absurd n
  ],
)

module _ (ext : External) (k : Kube) (node : Node) (found : k.node ≡ some node) where
  pub drain_node-progress :
      (m : World)
      → Safe progress
          (Kube.drain_node ext (some k))
          m
          (Succeeds (λ m'. m' ≡ drained_world k.options.node m))
  unfolding Kube.drain_node Node.set_annotation annotate
  drain_node-progress m =
      rw (found, Kube.drain_node)
        (Safe-bind progress (Node.set_annotation ext.retry node kube_drain_annotation "true") _ m
          (Succeeds (λ m'. m' ≡ with_node m (annotate m.node kube_drain_annotation "true")))
          (Succeeds (λ m'. m' ≡ drained_world k.options.node m))
          (change_node_once ext.retry node (λ obj. annotate obj kube_drain_annotation "true") m
            (λ obj. refl))
          λ e m' (succeeded, same). rw (succeeded) (
            Safe-bind progress (Kubectl.drain k.options.node) _ m'
              (Succeeds (λ m''.
                m''
                ≡ record m' { commands = ("kubectl", drain_args k.options.node) ∷ m'.commands }))
              (Succeeds (λ m''. m'' ≡ drained_world k.options.node m))
              (drain-progress k.options.node m')
              λ e' m'' (succeeded', same'). rw succeeded' (
                refl,
                same'
                    ∙ ap {A = World}
                        (λ w. record w {
                          commands = ("kubectl", drain_args k.options.node) ∷ w.commands;
                        })
                        same,
              )))

  write_mark-progress :
      (t : Time) (value : String) (m : World)
      → Safe progress
          (Kube.write_mark ext node t value)
          m
          (Succeeds (SameButStatus (marked_world m value)))
  unfolding Kube.write_mark Node.set_annotation annotate make_reboot_condition_rebooting
  write_mark-progress t value m =
      Safe-bind progress (Node.set_annotation ext.retry node kube_reboot_annotation value) _ m
        (Succeeds (λ m'. m' ≡ marked_world m value))
        (Succeeds (SameButStatus (marked_world m value)))
        (change_node_once ext.retry node (λ obj. annotate obj kube_reboot_annotation value) m
          (λ obj. refl))
        λ e m' (succeeded, same). rw succeeded (
          tt,
          λ heartbeat _.
              let conditions = rebooting t heartbeat ∷ [] in
              Safe-bind progress (Node.write_conditions ext.retry node conditions) _ m'
                (Succeeds (λ m''. m'' ≡ with_status m' (set_conditions m'.node conditions)))
                (Succeeds (SameButStatus (marked_world m value)))
                (write_conditions_once ext.retry node conditions m')
                λ e' m'' (succeeded', same').
                  rw succeeded'
                    (refl, status-SameButStatus (set_conditions m'.node conditions) same same'),
        )
    where
      status-SameButStatus :
          {m' m'' : World} (s : NodeObject)
          → m' ≡ marked_world m value
          → m'' ≡ with_status m' s
          → SameButStatus (marked_world m value) m''
      status-SameButStatus s same same' =
          rw (same', same)
            (record {
              same_annotations = refl;
              same_schedulable = refl;
              same_daemonset = refl;
              same_conflicts = refl;
              same_horizon = refl;
              same_flagged = refl;
              same_commands = refl;
            })

  pub mark_reboot-progress :
      (t : Time) (value : String) (m : World)
      → ext.marshal_time t ≡ ok value
      → Safe progress
          (Kube.mark_reboot ext (some k) t)
          m
          (Succeeds (SameButStatus (marked_world m value)))
  unfolding Kube.mark_reboot
  mark_reboot-progress t value m written =
      rw (found, written, Kube.mark_reboot) (write_mark-progress t value m)

  -- Both annotations stand after the writes.
  pub marked_world-Marked :
      (m m' : World) (t : Time) (value : String)
      → t < m.horizon
      → ext.marshal_time t ≡ ok value
      → SameButStatus (marked_world (drained_world k.options.node m) value) m'
      → Marked ext k.options.node m m'
  unfolding annotation_of
  marked_world-Marked m m' t value before written rest = record {
    drained =
        ap (lookup kube_drain_annotation) rest.same_annotations
        ∙ annotation_of-annotate (drained_world k.options.node m).node kube_reboot_annotation value
            kube_drain_annotation
        ∙ annotation_of-annotate m.node kube_drain_annotation "true" kube_drain_annotation;
    reboot_time = t;
    value = value;
    marked =
        ap (lookup kube_reboot_annotation) rest.same_annotations
        ∙ annotation_of-annotate (drained_world k.options.node m).node kube_reboot_annotation value
            kube_reboot_annotation;
    written = written;
    before_horizon = before;
    same_daemonset = rest.same_daemonset;
    same_conflicts = rest.same_conflicts;
    same_horizon = rest.same_horizon;
    commanded = rest.same_commands;
  }
