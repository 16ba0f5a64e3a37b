-- ===== src/Progress/Restart.antt =====
-- kube.go: `makeKube` on a node that comes back, in a world that does its part.
use pharos_host_upgrades.Prelude.{
  ℕ, ◌<◌, ◌≡◌, ◌≢◌, refl, sym, ◌∙◌, ap, subst, true, false, Option, none, some, if◌then◌else◌,
  Option-cases, inl, inr,
}
use pharos_host_upgrades.Effects.{Result, ok, err}
use pharos_host_upgrades.Effects.Logic.{Safe, Safe-bind, Safe-weaken}
use pharos_host_upgrades.External.{External}
use pharos_host_upgrades.Kube.Client
use pharos_host_upgrades.Kube.Lock.{Lock}
use pharos_host_upgrades.Kube.Lock.Ownership.{is_acquired}
use pharos_host_upgrades.Kube.Node.{Node, annotation_of, unannotate, is_some}
use pharos_host_upgrades.Kube.Node.Annotations.{annotation_of-unannotate}
use pharos_host_upgrades.Hosts.Interface.{Info}
use pharos_host_upgrades.Main.Kube
use pharos_host_upgrades.Main.Kube.{Kube, kube_reboot_annotation, kube_drain_annotation}
use pharos_host_upgrades.Progress.{World, progress}
use pharos_host_upgrades.Progress.Writes.{Succeeds, uncordoned}
use pharos_host_upgrades.Progress.Recovery.{
  IsBack, Lost, Unlocked, clear_node_reboot-progress, clear_node_drain-progress,
  clear_lock-progress,
}

-- A node that is in service again: it has neither mark, it can be scheduled if it was drained, and
-- it does not hold the lock.
pub record Recovered (lock : Lock) (before after : World) : Type 0 where
  pub unmarked : annotation_of after.node kube_reboot_annotation ≡ none
  pub undrained : annotation_of after.node kube_drain_annotation ≡ none
  pub schedulable : after.node.unschedulable ≡ (
      if is_some (annotation_of before.node kube_drain_annotation)
      then false
      else before.node.unschedulable)
  pub not_acquired : is_acquired lock after.daemonset ≡ false
  pub kept : is_acquired lock before.daemonset ≡ false → after.daemonset ≡ before.daemonset

-- The drain state after `uncordoned`, of a node that has lost the mark of its reboot.
module _ (before marked : World) (lost : Lost kube_reboot_annotation before marked) where
  abbrev cleared : World
  cleared = uncordoned kube_drain_annotation marked

  same_drain :
      annotation_of marked.node kube_drain_annotation
      ≡ annotation_of before.node kube_drain_annotation
  same_drain = lost.others kube_drain_annotation refl

  cleared-unmarked : annotation_of cleared.node kube_reboot_annotation ≡ none
  unfolding annotation_of unannotate
  cleared-unmarked = elim (Option-cases (annotation_of marked.node kube_drain_annotation)) [
    | inl e ↦ rw e lost.gone
    | inr (v, e) ↦ rw e (
        annotation_of-unannotate marked.node kube_drain_annotation kube_reboot_annotation
        ∙ lost.gone)
  ]

  cleared-undrained : annotation_of cleared.node kube_drain_annotation ≡ none
  unfolding annotation_of unannotate
  cleared-undrained = elim (Option-cases (annotation_of marked.node kube_drain_annotation)) [
    | inl e ↦ rw e e
    | inr (v, e) ↦
        rw e (annotation_of-unannotate marked.node kube_drain_annotation kube_drain_annotation)
  ]

  cleared-schedulable : cleared.node.unschedulable ≡ (
      if is_some (annotation_of before.node kube_drain_annotation)
      then false
      else before.node.unschedulable)
  cleared-schedulable =
      rw (← same_drain) (elim (Option-cases (annotation_of marked.node kube_drain_annotation)) [
        | inl e ↦ rw e lost.same_schedulable
        | inr (v, e) ↦ rw e refl
      ])

  cleared-daemonset :
      (cleared.daemonset ≡ before.daemonset) × (cleared.conflicts ≡ before.conflicts)
  cleared-daemonset = elim (Option-cases (annotation_of marked.node kube_drain_annotation)) [
    | inl e ↦ rw e (lost.same_daemonset, lost.same_conflicts)
    | inr (v, e) ↦ rw e (lost.same_daemonset, lost.same_conflicts)
  ]

-- The result is a kube with the lock and the node.
abbrev pub Makes : Lock → Node → Result (Option Kube) → Type 0
Makes lock node r = (k : Kube) × (r ≡ ok (some k)) × (k.lock ≡ some lock) × (k.node ≡ some node)

-- The lock that `makeKube` connects.
abbrev pub lock_for : Client.Options → ℕ → Lock
lock_for options c = record (Client.unconnected_lock options Kube.kube_lock_annotation) {
  client = some c;
}

module _ (ext : External) where
  recover-progress :
      (rounds : ℕ) (k : Kube) (lock : Lock) (node : Node) (m : World)
      → k.lock ≡ some lock
      → k.node ≡ some node
      → lock.value ≢ ""
      → IsBack ext k.host_info m.node
      → m.conflicts < rounds
      → Safe progress
          (Kube.recover ext rounds k)
          m
          (λ r m'. Makes lock node r × Recovered lock m m')
  unfolding Kube.recover
  recover-progress rounds k lock node m found_lock found_node named back fewer =
      Safe-bind progress (Kube.clear_node_reboot ext k) _ m
        (Succeeds (Lost kube_reboot_annotation m)) _
        (clear_node_reboot-progress ext k node found_node m back)
        λ e m₁ (succeeded, lost). rw succeeded (
          Safe-bind progress (Kube.clear_node_drain ext k) _ m₁
            (Succeeds (λ m'. m' ≡ uncordoned kube_drain_annotation m₁)) _
            (clear_node_drain-progress ext k node found_node m₁)
            λ e' m₂ (succeeded', same).
              rw (succeeded', same)
                (let w = cleared m m₁ lost in
                  Safe-bind progress (Kube.clear_lock rounds k) _ w (Succeeds (Unlocked lock w)) _
                    (clear_lock-progress k lock found_lock named rounds w
                      (subst (λ n. n < rounds) (sym (cleared-daemonset m m₁ lost).1) fewer))
                    λ e'' m₃ (succeeded'', unlocked). rw succeeded'' (
                      (k, refl, found_lock, found_node),
                      record {
                        unmarked =
                            ap (λ n. annotation_of n kube_reboot_annotation) unlocked.same_node
                            ∙ cleared-unmarked m m₁ lost;
                        undrained =
                            ap (λ n. annotation_of n kube_drain_annotation) unlocked.same_node
                            ∙ cleared-undrained m m₁ lost;
                        schedulable =
                            ap (λ n. n.unschedulable) unlocked.same_node
                            ∙ cleared-schedulable m m₁ lost;
                        not_acquired = unlocked.not_acquired;
                        kept = λ other.
                            unlocked.kept
                              (ap (is_acquired lock) (cleared-daemonset m m₁ lost).0 ∙ other)
                            ∙ (cleared-daemonset m m₁ lost).0;
                      },
                    )))

  -- In a world that does its part, a program with kube options and a named node, whose reboot, if
  -- it was marked for one, is behind it, initializes if it is given more rounds than there are
  -- conflicts: afterwards the node has neither mark, it can be scheduled if it was drained, and it
  -- does not hold the lock.
  pub make_kube-progress :
      (rounds : ℕ) (options : Client.Options) (info : Info) (m : World)
      → Kube.is_set options ≡ true
      → options.node ≢ ""
      → IsBack ext info m.node
      → m.conflicts < rounds
      → Safe progress (Kube.make_kube ext rounds options info) m (λ r m'.
        (c : ℕ) × (node : Node) × Makes (lock_for options c) node r
        × Recovered (lock_for options c) m m')
  unfolding Kube.make_kube Client.new Kube.make_configured Kube.init_node Kube.init_lock
      Client.make_node Client.make_lock
  make_kube-progress rounds options info m set named back fewer =
      rw (set, Kube.make_kube)
        (
          tt,
          elim [
            | err e ↦ λ n. absurd n
            | ok config ↦ λ _. (
              tt,
              elim [
                | err e ↦ λ n. absurd n
                | ok c ↦ λ _. (
                  tt,
                  elim [
                    | err e ↦ λ n. absurd n
                    | ok c' ↦ λ _.
                        let node : Node = record { client = some c; name = options.node } in
                        let k : Kube = record {
                          options = options;
                          host_info = info;
                          kube = some (record { config = config; options = options });
                          lock = some (lock_for options c');
                          node = some node;
                        } in
                        Safe-weaken progress (Kube.recover ext rounds k) m
                          {Q = λ r m'.
                            Makes (lock_for options c') node r
                            × Recovered (lock_for options c') m m'}
                          (λ r m' (made, recovered). (c', node, made, recovered))
                          (recover-progress rounds k (lock_for options c') node m refl refl named
                            back fewer)
                  ],
                )
              ],
            )
          ],
        )
