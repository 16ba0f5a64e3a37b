-- ===== src/Main/Kube/Recovery.antt =====
-- kube.go: a node that was marked for a reboot and has not been rebooted since.
use pharos_host_upgrades.Prelude.{ℕ, String, ◌≡◌, refl, true, false, some, ltb}
use pharos_host_upgrades.Effects.{
  Error, Result, ok, err, Time, Op, Resp, kube, update_daemonset, update_node, update_node_status,
  get_node,
}
use pharos_host_upgrades.Effects.Logic.{Monitor, Safe, Safe-bind}
use pharos_host_upgrades.External.{External}
use pharos_host_upgrades.Kube.Client
use pharos_host_upgrades.Kube.Node
use pharos_host_upgrades.Kube.Node.{Node, annotation_of}
use pharos_host_upgrades.Hosts.Interface.{Info}
use pharos_host_upgrades.Main.Kube
use pharos_host_upgrades.Main.Kube.{Kube, kube_reboot_annotation}

-- Calls that write nothing to the API server.
abbrev pub IsRead : Op → Type 0
IsRead (kube (update_daemonset _ _ _)) = ⊥
IsRead (kube (update_node _ _)) = ⊥
IsRead (kube (update_node_status _ _)) = ⊥
IsRead _ = Unit {0}

-- Every copy of the node that is read carries the reboot annotation with this value.
abbrev IsMarked : String → (o : Op) → Resp o → Type 0
IsMarked value (kube (get_node _ _)) (ok obj) =
    annotation_of obj kube_reboot_annotation ≡ some value
IsMarked value _ _ = Unit {0}

-- Reads of a node that is marked, and no writes.
abbrev pub reads_marked : String → Monitor (Unit {0})
reads_marked value = record {
  Pre = λ _ o. IsRead o;
  Admits = λ _ o r. IsMarked value o r;
  next = λ _ _ _. tt;
  Out = λ _. ⊥;
}

abbrev pub Fails : {A : Type 0} → Result A → Unit {0} → Type 0
Fails r _ = (e : Error) × (r ≡ err e)

module _ (ext : External) (value : String) (reboot_time : Time)
    (written : ext.marshal_time reboot_time ≡ ok value) where
  clear_node_reboot-not_rebooted :
      (k : Kube) (node : Node)
      → k.node ≡ some node
      → ltb reboot_time k.host_info.boot_time ≡ false
      → Safe
          (reads_marked value)
          (Kube.clear_node_reboot ext k)
          tt
          (λ e _. (f : Error) × (e ≡ some f))
  unfolding Kube.clear_node_reboot Kube.check_reboot Node.get_annotation Node.get Kube.finish_reboot
  clear_node_reboot-not_rebooted k node found early =
      rw (found, Kube.deref)
        (
          tt,
          elim [
            | err e ↦ λ _. (_, refl)
            | ok obj ↦ λ marked.
                rw (marked, ext.unmarshal-marshal reboot_time value written, early) (_, refl)
          ],
        )

  recover-not_rebooted :
      (rounds : ℕ) (k : Kube) (node : Node)
      → k.node ≡ some node
      → ltb reboot_time k.host_info.boot_time ≡ false
      → Safe (reads_marked value) (Kube.recover ext rounds k) tt Fails
  unfolding Kube.recover
  recover-not_rebooted rounds k node found early =
      Safe-bind (reads_marked value) (Kube.clear_node_reboot ext k) _ tt
        (λ e _. (f : Error) × (e ≡ some f)) Fails
        (clear_node_reboot-not_rebooted k node found early) λ e _ (f, failed). rw failed (_, refl)

  -- If every copy of the node that is read carries the mark of a reboot time that the boot time is
  -- not after, then `makeKube` with kube options fails and writes nothing to the API server.
  pub make_kube-not_rebooted :
      (rounds : ℕ) (options : Client.Options) (info : Info)
      → Kube.is_set options ≡ true
      → ltb reboot_time info.boot_time ≡ false
      → Safe (reads_marked value) (Kube.make_kube ext rounds options info) tt Fails
  unfolding Kube.make_kube Client.new Kube.make_configured Kube.init_node Kube.init_lock
      Client.make_node Client.make_lock
  make_kube-not_rebooted rounds options info set early =
      rw (set, Kube.make_kube)
        (
          tt,
          elim [
            | err e ↦ λ _. (_, refl)
            | ok config ↦ λ _. (
              tt,
              elim [
                | err e ↦ λ _. (_, refl)
                | ok c ↦ λ _. (
                  tt,
                  elim [
                    | err e ↦ λ _. (_, refl)
                    | ok c' ↦ λ _.
                        recover-not_rebooted rounds
                          (record {
                            options = options;
                            host_info = info;
                            kube = some (record { config = config; options = options });
                            lock =
                                some
                                  (record (Client.unconnected_lock options
                                    Kube.kube_lock_annotation) { client = some c' });
                            node = some (record { client = some c; name = options.node });
                          })
                          _ refl early
                  ],
                )
              ],
            )
          ],
        )
