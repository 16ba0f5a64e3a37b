-- ===== src/Progress/Reboot.antt =====
-- main.go and kube.go: a run that reboots, in a world that does its part.
use pharos_host_upgrades.Prelude.{◌≤◌, ◌≡◌, ◌≢◌, Bool, true, none, some, String}
use pharos_host_upgrades.Effects.{MaybeError, errorf}
use pharos_host_upgrades.External.{External}
use pharos_host_upgrades.Kube.Lock
use pharos_host_upgrades.Kube.Lock.{Lock}
use pharos_host_upgrades.Kube.Node.{Node}
use pharos_host_upgrades.Hosts.Interface.{Host}
use pharos_host_upgrades.Main.Config.{Options}
use pharos_host_upgrades.Main.Kube
use pharos_host_upgrades.Main.Kube.{Kube, kube_reboot_annotation, kube_drain_annotation}
use pharos_host_upgrades.Main.Run
use pharos_host_upgrades.Progress.{World, Upgrades, Reboots}
use pharos_host_upgrades.Progress.Marking.{Marked}

-- How a run ends that reboots: the node holds the lock, and is drained and marked.
abbrev pub Waits : External → String → Lock → World → MaybeError → World → Type 0
Waits ext name lock m e m' =
    (e ≡ some (errorf "Timeout waiting for host to shutdown"))
    × (Lock.lock_value lock m'.daemonset ≡ lock.value)
    × (m'.conflicts ≤ m.conflicts)
    × ((locked : World) × (locked.horizon ≡ m.horizon)
        × (locked.commands ≡ m.commands)
        × Marked ext name locked m')

module _ (ext : External) {H : Type 0} (methods : Host H) (host : H)
    (upgrades : Upgrades methods host) (reboots : Reboots methods host) (options : Options)
    (k : Kube) (lock : Lock) (node : Node) (found_lock : k.lock ≡ some lock)
    (found_node : k.node ≡ some node) (named : lock.value ≢ "") (may_reboot : options.reboot ≡ true)
    (may_drain : options.drain ≡ true) where
  abbrev WillReboot : World → Bool × MaybeError → World → Type 0
  WillReboot m r m' = (r ≡ (true, none)) × Marked ext k.options.node m m'
