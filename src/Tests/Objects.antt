-- ===== src/Tests/Objects.antt =====
-- The theorems on DaemonSets, nodes and waits, at small values.
use pharos_host_upgrades.Prelude.{◌≡◌, refl, true, false, none, some, [], ◌∷◌}
use pharos_host_upgrades.Effects.{Error, DaemonSet, ret}
use pharos_host_upgrades.Kube.Lock.{Lock, set, clear}
use pharos_host_upgrades.Kube.Lock.Ownership.{
  is_available, is_acquired, Acquired, Released, set_lem, clear_lem,
}
use pharos_host_upgrades.Kube.Node.{
  find_condition, condition_of, set_condition, set_conditions, annotate, annotation_of,
}
use pharos_host_upgrades.Kube.Node.Conditions.{
  types_of, condition_of-set_conditions, types_of-set_condition,
}
use pharos_host_upgrades.Kube.Node.Annotations.{annotation_of-annotate}
use pharos_host_upgrades.Main.Conditions.{rebooting, rebooted}
use pharos_host_upgrades.Proc
use pharos_host_upgrades.Proc.Fields.{btime_lines, scan_lines-btime_lines}
use pharos_host_upgrades.Tests.Tools.{tools, node_name-ne_empty}
use pharos_host_upgrades.Tests.Surroundings.{daemon_set, plain_node}

abbrev lock : Lock
lock = record {
  client = none;
  namespace = "kube-system";
  name = "host-upgrades";
  annotation = "lock";
  value = "xxx";
}

-- The DaemonSet with the lock taken by the node.
abbrev taken : DaemonSet
taken = record daemon_set { annotations = some (("lock", "xxx") ∷ []) }

set_lem_example :
    (is_available lock daemon_set ≡ true → (new : DaemonSet) × Acquired lock daemon_set new)
    × (is_available lock daemon_set ≡ false
        → (e : Error) × (set lock daemon_set ≡ ret (some e, daemon_set)))
set_lem_example = set_lem lock daemon_set (node_name-ne_empty 2) [] refl

clear_lem_example :
    (is_acquired lock taken ≡ true → (new : DaemonSet) × Released lock taken new)
    × (is_acquired lock taken ≡ false → (e : Error) × (clear lock taken ≡ (some e, taken)))
clear_lem_example = clear_lem lock taken (node_name-ne_empty 2)

condition_of-set_conditions_example :
    condition_of
      (set_conditions plain_node (rebooting 3 4 ∷ rebooted 5 6 ∷ []))
      "HostUpgradesReboot"
    ≡ some (rebooted 5 6)
unfolding condition_of find_condition
condition_of-set_conditions_example =
    condition_of-set_conditions plain_node (rebooting 3 4 ∷ rebooted 5 6 ∷ []) "HostUpgradesReboot"

types_of-set_condition_example :
    types_of (set_condition plain_node (rebooted 5 6)).conditions ≡ "HostUpgradesReboot" ∷ []
unfolding condition_of
types_of-set_condition_example = types_of-set_condition plain_node (rebooted 5 6)

annotation_of-annotate_example : annotation_of (annotate plain_node "a" "b") "a" ≡ some "b"
annotation_of-annotate_example = annotation_of-annotate plain_node "a" "b" "a"

-- A file with other fields before and after that of the boot time.
scan_lines-btime_lines_example :
    Proc.scan_lines tools Proc.no_stat ("cpu" ∷ "btime" ∷ "ctxt" ∷ [])
    ≡ Proc.scan_lines tools Proc.no_stat ("btime" ∷ [])
unfolding tools btime_lines
scan_lines-btime_lines_example =
    scan_lines-btime_lines tools ("cpu" ∷ "btime" ∷ "ctxt" ∷ []) Proc.no_stat
