-- ===== src/Progress/Writes.antt =====
-- The writes of kube/node.go in a world that does its part: the first attempt is stored.
use pharos_host_upgrades.Prelude.{
  ℕ, String, ◌≡◌, refl, Bool, false, none, some, List, [], ◌∷◌, Option-cases, inl, inr, Option,
}
use pharos_host_upgrades.Effects.{MaybeError, ok, err, NodeObject, NodeCondition, Prog, ret, ◌>>=◌}
use pharos_host_upgrades.Effects.Logic.{Safe, Safe-bind}
use pharos_host_upgrades.Kube.Retry.{RetryOnConflict, attempts}
use pharos_host_upgrades.Kube.Node
use pharos_host_upgrades.Kube.Node.{
  Node, annotate, annotation_of, unannotate, set_conditions, change_node, change_node_status,
  uncordon_if_annotated,
}
use pharos_host_upgrades.Progress.{World, progress, with_node, with_status}

-- There is no error, and `P` holds.
abbrev pub Succeeds : (World → Type 0) → MaybeError → World → Type 0
Succeeds P e m = (e ≡ none) × P m

set_conditions-resource_version :
    (obj : NodeObject) (conditions : List NodeCondition)
    → (set_conditions obj conditions).resource_version ≡ obj.resource_version
unfolding set_conditions Node.set_condition
set_conditions-resource_version obj [] = refl
set_conditions-resource_version obj (c ∷ cs) =
    set_conditions-resource_version (Node.set_condition obj c) cs

-- The world after `SetSchedulableIfAnnotated`.
abbrev pub uncordoned_by : String → Option String → World → World
uncordoned_by annotation none m = m
uncordoned_by annotation (some _) m =
    with_node m (record (unannotate m.node annotation) { unschedulable = false })

abbrev pub uncordoned : String → World → World
uncordoned annotation m = uncordoned_by annotation (annotation_of m.node annotation) m

module _ (retry : RetryOnConflict) where
  attempts_once :
      {S : Type 0} (pauses : List ℕ) (fn : S → Prog (MaybeError × S)) (s : S) (m : World)
      (Q : S → World → Type 0)
      → Safe progress (fn s) m (λ r m'. (r.0 ≡ none) × Q r.1 m')
      → Safe progress (attempts pauses fn s) m (λ r m'. (r.0 ≡ none) × Q r.1 m')
  unfolding attempts
  attempts_once [] fn s m Q safe = safe
  attempts_once {S} (pause ∷ pauses) fn s m Q safe =
      Safe-bind progress (fn s) _ m (λ r m'. (r.0 ≡ none) × Q r.1 m')
        (λ r m'. (r.0 ≡ none) × Q r.1 m') safe (λ (failure, s') m' (e, q). rw e (refl, q))

  run_once :
      {S : Type 0} (fn : S → Prog (MaybeError × S)) (s : S) (m : World) (Q : S → World → Type 0)
      → Safe progress (fn s) m (λ r m'. (r.0 ≡ none) × Q r.1 m')
      → Safe progress (retry.run S fn s) m (λ r m'. (r.0 ≡ none) × Q r.1 m')
  run_once {S} fn s m Q safe =
      rw (retry.run-eq-attempts S fn s) (attempts_once retry.pauses fn s m Q safe)

  retried_once :
      (fn : Prog MaybeError) (m : World) (P : World → Type 0)
      → Safe progress fn m (Succeeds P)
      → Safe progress (Node.retried retry fn) m (Succeeds P)
  retried_once fn m P safe =
      Safe-bind progress (retry.run (Unit {0}) (λ _. fn >>= λ e. ret (e, tt)) tt) _ m
        (λ r m'. (r.0 ≡ none) × P m') (Succeeds P)
        (run_once (λ _. fn >>= λ e. ret (e, tt)) tt m (λ _. P)
          (Safe-bind progress fn _ m (Succeeds P) (λ r m'. (r.0 ≡ none) × P m') safe (λ e m' q. q)))
        (λ r m' q. q)

  -- A setter of `spec` or metadata stores the changed node.
  pub change_node_once :
      (node : Node) (change : NodeObject → NodeObject) (m : World)
      → ((obj : NodeObject) → (change obj).resource_version ≡ obj.resource_version)
      → Safe progress
          (Node.retried retry (change_node node change))
          m
          (Succeeds (λ m'. m' ≡ with_node m (change m.node)))
  unfolding change_node
  change_node_once node change m same =
      retried_once (change_node node change) m (λ m'. m' ≡ with_node m (change m.node))
        (
          tt,
          λ r a. rw a (same m.node, elim [ ok stored ↦ λ _. (refl, refl) | err e ↦ λ n. absurd n ]),
        )

  pub write_conditions_once :
      (node : Node) (conditions : List NodeCondition) (m : World)
      → Safe progress
          (Node.write_conditions retry node conditions)
          m
          (Succeeds (λ m'. m' ≡ with_status m (set_conditions m.node conditions)))
  unfolding Node.write_conditions change_node_status
  write_conditions_once node conditions m =
      retried_once (change_node_status node (λ obj. set_conditions obj conditions)) m
        (λ m'. m' ≡ with_status m (set_conditions m.node conditions))
        (
          tt,
          λ r a. rw a (
            set_conditions-resource_version m.node conditions,
            elim [ ok stored ↦ λ _. (refl, refl) | err e ↦ λ n. absurd n ],
          ),
        )

  -- The node is uncordoned if it carries the annotation, and else nothing is written.
  pub uncordon_once :
      (node : Node) (annotation : String) (m : World)
      → Safe progress
          (Node.set_schedulable_if_annotated retry node annotation)
          m
          (λ r m'. (r.1 ≡ none) × (m' ≡ uncordoned annotation m))
  unfolding Node.set_schedulable_if_annotated uncordon_if_annotated
  uncordon_once node annotation m =
      Safe-bind progress (retry.run Bool (uncordon_if_annotated node annotation) false) _ m
        (λ r m'. (r.0 ≡ none) × (m' ≡ uncordoned annotation m))
        (λ r m'. (r.1 ≡ none) × (m' ≡ uncordoned annotation m))
        (run_once (uncordon_if_annotated node annotation) false m
          (λ _ m'. m' ≡ uncordoned annotation m)
          (
            tt,
            λ r a. rw a (elim (Option-cases (annotation_of m.node annotation)) [
              | inl e ↦ rw e (refl, refl)
              | inr (v, e) ↦
                  rw e (refl, elim [ ok stored ↦ λ _. (refl, refl) | err f ↦ λ n. absurd n ])
            ]),
          ))
        (λ (failure, changed) m' q. q)
