-- ===== src/Kube/Node/Annotations.antt =====
-- kube/node.go: what is read of a node's annotations after one of them is set or cleared.
use pharos_host_upgrades.Prelude.{
  String, ◌≡◌, Option, none, some, [], Entries, find, insert, lookup, find-insert, lookup-delete,
  ◌==◌, if◌then◌else◌,
}
use pharos_host_upgrades.Effects.{NodeObject}
use pharos_host_upgrades.Kube.Node.{annotate, annotation_of, unannotate}

-- A set annotation has its value, and all others are as before, also where the map was nil.
pub annotation_of-annotate :
    (obj : NodeObject) (key value other : String)
    → annotation_of (annotate obj key value) other
      ≡ (if key == other then some value else annotation_of obj other)
unfolding annotation_of annotate lookup find insert
annotation_of-annotate obj key value other = made obj.annotations
  where
    made :
        (annotations : Option Entries)
        → lookup other (some (insert key value (elim annotations [ none ↦ [] | some m ↦ m ])))
          ≡ (if key == other then some value else lookup other annotations)
    made none = find-insert key other value []
    made (some m) = find-insert key other value m

-- A cleared annotation is gone, and all others are as before.
pub annotation_of-unannotate :
    (obj : NodeObject) (key other : String)
    → annotation_of (unannotate obj key) other
      ≡ (if key == other then none else annotation_of obj other)
unfolding annotation_of unannotate
annotation_of-unannotate obj key other = lookup-delete key other obj.annotations
