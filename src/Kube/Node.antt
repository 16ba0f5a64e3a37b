-- ===== src/Kube/Node.antt =====
-- kube/node.go: conditions, annotations and schedulability of the kube node. A method that writes
-- through `*corev1.Node` returns the new object.
pub mod Conditions
pub mod Annotations
use pharos_host_upgrades.Prelude.{
  ℕ, String, ◌<>◌, Bool, true, false, Option, none, some, List, [], ◌∷◌, Entries, lookup, insert,
  delete, ◌==◌, if◌then◌else◌,
}
use pharos_host_upgrades.Effects.{
  MaybeError, Result, ok, err, wrap, Client, NodeCondition, NodeObject, condition_unknown,
  new_core_client, get_node, update_node, update_node_status, now, Prog, ret, ◌>>=◌, ask_kube,
  ask_process,
}
use pharos_host_upgrades.Kube.Retry.{RetryOnConflict}

pub record Node : Type 0 where
  pub client : Client
  pub name : String

unfoldable pub connect : Node → ℕ → Prog (MaybeError × Node)
connect node config = do
  answer ← ask_kube (new_core_client config)
  elim answer [ err e ↦ ret (some e, node) | ok c ↦ ret (none, record node { client = some c }) ]

unfoldable pub get : Node → Prog (Result NodeObject)
get node = do
  answer ← ask_kube (get_node node.client node.name)
  elim answer [
    | err e ↦ ret (err (wrap ("Get " <> node.name <> ": ") e))
    | ok object ↦ ret (ok object)
  ]

-- The loop of `setCondition` over `obj.Status.Conditions`, and the `append` after it.
unfoldable pub replace_or_append : NodeCondition → List NodeCondition → List NodeCondition
replace_or_append condition [] = condition ∷ []
replace_or_append condition (c ∷ cs) =
    if c.type == condition.type then condition ∷ cs else c ∷ replace_or_append condition cs

unfoldable pub set_condition : NodeObject → NodeCondition → NodeObject
unfolding replace_or_append
set_condition obj condition = record obj { conditions = replace_or_append condition obj.conditions }

unfoldable pub set_conditions : NodeObject → List NodeCondition → NodeObject
unfolding set_condition
set_conditions obj [] = obj
set_conditions obj (condition ∷ conditions) =
    set_conditions (set_condition obj condition) conditions

-- The loop of `getCondition`.
unfoldable pub find_condition : String → List NodeCondition → Option NodeCondition
find_condition type [] = none
find_condition type (c ∷ cs) = if c.type == type then some c else find_condition type cs

-- `getCondition`: `none` where the source returns `exists = false`
unfoldable pub condition_of : NodeObject → String → Option NodeCondition
unfolding find_condition
condition_of obj type = find_condition type obj.conditions

-- `GetCondition`
unfoldable pub get_condition : Node → String → Prog (Result (Option NodeCondition))
unfolding get condition_of
get_condition node type = do
  answer ← get node
  elim answer [ err e ↦ ret (err e) | ok obj ↦ ret (ok (condition_of obj type)) ]

abbrev pub is_some : {A : Type 0} → Option A → Bool
is_some none = false
is_some (some _) = true

unfoldable pub has_condition : Node → String → Prog (Result Bool)
unfolding get_condition
has_condition node type = do
  answer ← get_condition node type
  elim answer [ err e ↦ ret (err e) | ok condition ↦ ret (ok (is_some condition)) ]

-- `setAnnotation`: a nil map is made first
unfoldable pub annotate : NodeObject → String → String → NodeObject
annotate obj annotation value =
    let made : Entries = elim obj.annotations [ none ↦ [] | some m ↦ m ] in
    record obj { annotations = some (insert annotation value made) }

-- `getAnnotation`
unfoldable pub annotation_of : NodeObject → String → Option String
annotation_of obj annotation = lookup annotation obj.annotations

-- `clearAnnotation`
unfoldable pub unannotate : NodeObject → String → NodeObject
unannotate obj annotation = record obj { annotations = delete annotation obj.annotations }

-- `GetAnnotation`
unfoldable pub get_annotation : Node → String → Prog (Result (Option String))
unfolding get annotation_of
get_annotation node annotation = do
  answer ← get node
  elim answer [ err e ↦ ret (err e) | ok obj ↦ ret (ok (annotation_of obj annotation)) ]

-- The function that a setter passes to the retry: get, change, and write with the error unmodified.
unfoldable pub change_node : Node → (NodeObject → NodeObject) → Prog MaybeError
unfolding get
change_node node change = do
  answer ← get node
  elim answer [
    | err e ↦ ret (some e)
    | ok obj ↦ do
      written ← ask_kube (update_node node.client (change obj))
      elim written [ err e ↦ ret (some e) | ok _ ↦ ret none ]
  ]

unfoldable pub change_node_status : Node → (NodeObject → NodeObject) → Prog MaybeError
unfolding get
change_node_status node change = do
  answer ← get node
  elim answer [
    | err e ↦ ret (some e)
    | ok obj ↦ do
      written ← ask_kube (update_node_status node.client (change obj))
      elim written [ err e ↦ ret (some e) | ok _ ↦ ret none ]
  ]

-- The body of `SetSchedulableIfAnnotated`, with the variable `changed` that it writes.
unfoldable pub uncordon_if_annotated : Node → String → Bool → Prog (MaybeError × Bool)
unfolding get annotation_of unannotate
uncordon_if_annotated node annotation changed = do
  answer ← get node
  elim answer [
    | err e ↦ ret (some e, false)
    | ok obj ↦ elim (annotation_of obj annotation) [
      | none ↦ ret (none, false)
      | some _ ↦ do
        let cleared = unannotate obj annotation
        written ← ask_kube (update_node node.client (record cleared { unschedulable = false }))
        elim written [ err e ↦ ret (some e, true) | ok _ ↦ ret (none, true) ]
    ]
  ]

module _ (retry : RetryOnConflict) where
  -- The retry of a function that captures no variable.
  abbrev pub retried : Prog MaybeError → Prog MaybeError
  retried fn = do
    (failure, _) ← retry.run (Unit {0}) (λ _. fn >>= λ failure. ret (failure, tt)) tt
    ret failure

  -- `SetCondition`
  unfoldable pub write_conditions : Node → List NodeCondition → Prog MaybeError
  unfolding change_node_status set_conditions
  write_conditions node conditions =
      retried (change_node_status node (λ obj. set_conditions obj conditions))

  unfoldable pub init_condition : Node → String → Prog MaybeError
  unfolding write_conditions
  init_condition node type = do
    t ← ask_process now
    write_conditions node (
        record {
          type = type;
          status = condition_unknown;
          last_heartbeat_time = t;
          last_transition_time = 0;
          reason = "";
          message = "";
        }
        ∷ [])

  unfoldable pub set_annotation : Node → String → String → Prog MaybeError
  unfolding change_node annotate
  set_annotation node annotation value =
      retried (change_node node (λ obj. annotate obj annotation value))

  unfoldable pub clear_annotation : Node → String → Prog MaybeError
  unfolding change_node unannotate
  clear_annotation node annotation = retried (change_node node (λ obj. unannotate obj annotation))

  unfoldable pub set_unschedulable : Node → Bool → Prog MaybeError
  unfolding change_node
  set_unschedulable node unschedulable =
      retried (change_node node (λ obj. record obj { unschedulable = unschedulable }))

  -- `changed` and the error
  unfoldable pub set_schedulable_if_annotated : Node → String → Prog (Bool × MaybeError)
  unfolding uncordon_if_annotated
  set_schedulable_if_annotated node annotation = do
    (failure, changed) ← retry.run Bool (uncordon_if_annotated node annotation) false
    ret (changed, failure)
