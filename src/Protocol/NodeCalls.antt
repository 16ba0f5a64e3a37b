-- ===== src/Protocol/NodeCalls.antt =====
-- The calls on the kube node (kube/node.go, and kube.go's use of it) against the rules of the lock.
use pharos_host_upgrades.Prelude.{
  ℕ, String, Bool, true, false, none, some, List, [], ◌∷◌, if◌then◌else◌, Option,
}
use pharos_host_upgrades.Effects.{
  MaybeError, ok, err, NodeObject, NodeCondition, Prog, ret, ◌>>=◌, is_conflict, sleep_jittered,
  ask_process, ask_kube, update_node, ◌>>◌,
}
use pharos_host_upgrades.Effects.Logic.{Within, Within-bind, Within-if}
use pharos_host_upgrades.External.{External}
use pharos_host_upgrades.Kube.Retry.{RetryOnConflict, attempts}
use pharos_host_upgrades.Kube.Node
use pharos_host_upgrades.Kube.Node.{Node}
use pharos_host_upgrades.Protocol.{IsQuiet}

attempts-Quiet :
    {S : Type 0} (pauses : List ℕ) (fn : S → Prog (MaybeError × S)) (s : S)
    → ((s' : S) → Within IsQuiet (fn s'))
    → Within IsQuiet (attempts pauses fn s)
unfolding attempts
attempts-Quiet [] fn s w = w s
attempts-Quiet {S} (pause ∷ pauses) fn s w =
    Within-bind IsQuiet (fn s) _ (w s)
      λ (failure, s'). once_more failure s' (attempts-Quiet pauses fn s' w)
  where
    once_more :
        (failure : MaybeError) (s' : S)
        → Within IsQuiet (attempts pauses fn s')
        → Within IsQuiet {A = MaybeError × S} (elim failure [
          | none ↦ ret (none, s')
          | some e ↦
              if is_conflict e
              then (do ask_process (sleep_jittered pause); attempts pauses fn s')
              else ret (some e, s')
        ])
    once_more none s' next = tt
    once_more (some e) s' next = Within-if IsQuiet (is_conflict e) _ _ (tt, λ _. next) tt

module _ (ext : External) where
  abbrev retry : RetryOnConflict
  retry = ext.retry

  run-Quiet :
      {S : Type 0} (fn : S → Prog (MaybeError × S)) (s : S)
      → ((s' : S) → Within IsQuiet (fn s'))
      → Within IsQuiet (retry.run S fn s)
  run-Quiet {S} fn s w = rw (retry.run-eq-attempts S fn s) (attempts-Quiet retry.pauses fn s w)

  retried-Quiet :
      (fn : Prog MaybeError) → Within IsQuiet fn → Within IsQuiet (Node.retried retry fn)
  retried-Quiet fn w =
      Within-bind IsQuiet (retry.run (Unit {0}) _ tt) _
        (run-Quiet _ tt (λ _. Within-bind IsQuiet fn _ w (λ _. tt))) (λ _. tt)

  change_node-Quiet :
      (node : Node) (change : NodeObject → NodeObject)
      → Within IsQuiet (Node.change_node node change)
  unfolding Node.change_node
  change_node-Quiet node change =
      (tt, elim [ err e ↦ tt | ok obj ↦ (tt, elim [ err e ↦ tt | ok _ ↦ tt ]) ])

  change_node_status-Quiet :
      (node : Node) (change : NodeObject → NodeObject)
      → Within IsQuiet (Node.change_node_status node change)
  unfolding Node.change_node_status
  change_node_status-Quiet node change =
      (tt, elim [ err e ↦ tt | ok obj ↦ (tt, elim [ err e ↦ tt | ok _ ↦ tt ]) ])

  pub write_conditions-Quiet :
      (node : Node) (conditions : List NodeCondition)
      → Within IsQuiet (Node.write_conditions retry node conditions)
  unfolding Node.write_conditions
  write_conditions-Quiet node conditions =
      let change = λ (obj : NodeObject). Node.set_conditions obj conditions in
      retried-Quiet (Node.change_node_status node change) (change_node_status-Quiet node change)

  pub set_annotation-Quiet :
      (node : Node) (annotation value : String)
      → Within IsQuiet (Node.set_annotation retry node annotation value)
  unfolding Node.set_annotation
  set_annotation-Quiet node annotation value =
      let change = λ (obj : NodeObject). Node.annotate obj annotation value in
      retried-Quiet (Node.change_node node change) (change_node-Quiet node change)

  pub clear_annotation-Quiet :
      (node : Node) (annotation : String)
      → Within IsQuiet (Node.clear_annotation retry node annotation)
  unfolding Node.clear_annotation
  clear_annotation-Quiet node annotation =
      let change = λ (obj : NodeObject). Node.unannotate obj annotation in
      retried-Quiet (Node.change_node node change) (change_node-Quiet node change)

  uncordon_found-Quiet :
      (node : Node) (annotation : String) (changed : Bool)
      → Within IsQuiet (Node.uncordon_if_annotated node annotation changed)
  unfolding Node.uncordon_if_annotated
  uncordon_found-Quiet node annotation changed =
      (tt, elim [ err e ↦ tt | ok obj ↦ found (Node.annotation_of obj annotation) obj ])
    where
      found :
          (o : Option String) (obj : NodeObject)
          → Within IsQuiet {A = MaybeError × Bool} (elim o [
            | none ↦ ret (none, false)
            | some _ ↦ do
              let cleared = Node.unannotate obj annotation
              written ←
                  ask_kube (update_node node.client (record cleared { unschedulable = false }))
              elim written [ err e ↦ ret (some e, true) | ok _ ↦ ret (none, true) ]
          ])
      found none obj = tt
      found (some _) obj = (tt, elim [ err e ↦ tt | ok _ ↦ tt ])

  pub set_schedulable_if_annotated-Quiet :
      (node : Node) (annotation : String)
      → Within IsQuiet (Node.set_schedulable_if_annotated retry node annotation)
  unfolding Node.set_schedulable_if_annotated
  set_schedulable_if_annotated-Quiet node annotation =
      Within-bind IsQuiet (retry.run Bool _ false) _
        (run-Quiet _ false (uncordon_found-Quiet node annotation)) (λ _. tt)
