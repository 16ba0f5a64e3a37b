-- ===== src/Kube/Node/Conditions.antt =====
-- kube/node.go: what `SetCondition` leaves in the node's list of conditions.
use pharos_host_upgrades.Prelude.{
  String, ◌≡◌, refl, Bool, true, false, Option, some, List, [], ◌∷◌, ◌++◌, map, ◌==◌, eq_iff, arith,
  if◌then◌else◌, inl, inr, Bool-cases, sym, ◌∙◌, ap,
}
use pharos_host_upgrades.Effects.{NodeCondition, NodeObject}
use pharos_host_upgrades.Kube.Node.{
  replace_or_append, set_condition, set_conditions, find_condition, condition_of, is_some,
}

-- The condition of a type after a series of writes: the last one written, or the old one.
abbrev pub latest : String → List NodeCondition → Option NodeCondition → Option NodeCondition
latest type [] old = old
latest type (c ∷ cs) old = latest type cs (if c.type == type then some c else old)

find_condition-replace_or_append :
    (type : String) (c : NodeCondition) (cs : List NodeCondition)
    → find_condition type (replace_or_append c cs)
      ≡ (if c.type == type then some c else find_condition type cs)
unfolding find_condition replace_or_append
find_condition-replace_or_append type c [] = refl
find_condition-replace_or_append type c (d ∷ ds) = ground (
  arith,
  eq_iff d.type c.type,
  eq_iff c.type type,
  eq_iff d.type type,
  find_condition-replace_or_append type c ds,
)

-- After `setConditions`, each type has the last condition of that type that was written, or the one
-- that it had before if none was.
pub condition_of-set_conditions :
    (obj : NodeObject) (written : List NodeCondition) (type : String)
    → condition_of (set_conditions obj written) type ≡ latest type written (condition_of obj type)
unfolding condition_of set_conditions set_condition
condition_of-set_conditions obj [] type = refl
condition_of-set_conditions obj (c ∷ cs) type =
    condition_of-set_conditions (set_condition obj c) cs type
    ∙ ap (latest type cs) (find_condition-replace_or_append type c obj.conditions)

abbrev pub types_of : List NodeCondition → List String
types_of cs = map (λ c. c.type) cs

cons-if :
    (b : Bool) (t : String) (x y : List String)
    → t ∷ (if b then x else y) ≡ (if b then t ∷ x else t ∷ y)
cons-if true t x y = refl
cons-if false t x y = refl

types_of-replace_or_append :
    (c : NodeCondition) (cs : List NodeCondition)
    → types_of (replace_or_append c cs)
      ≡ (if is_some (find_condition c.type cs) then types_of cs else types_of cs ++ (c.type ∷ []))
unfolding find_condition replace_or_append
types_of-replace_or_append c [] = refl
types_of-replace_or_append c (d ∷ ds) = elim (Bool-cases (d.type == c.type)) [
  | inl same ↦ rw same (ap (λ t. t ∷ types_of ds) (sym ((eq_iff d.type c.type).0 same)))
  | inr other ↦ rw other (
      ap (λ ts. d.type ∷ ts) (types_of-replace_or_append c ds)
      ∙ cons-if (is_some (find_condition c.type ds)) d.type _ _)
]

-- A write keeps the types in place, and appends a type that the node did not have.
pub types_of-set_condition :
    (obj : NodeObject) (c : NodeCondition)
    → types_of (set_condition obj c).conditions ≡ (
        if is_some (condition_of obj c.type)
        then types_of obj.conditions
        else types_of obj.conditions ++ (c.type ∷ []))
unfolding condition_of set_condition
types_of-set_condition obj c = types_of-replace_or_append c obj.conditions
