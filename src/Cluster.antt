-- ===== src/Cluster.antt =====
-- Several nodes against one API server. Each node runs the program of main.go, and may be killed and
-- started again at any time; the nodes' calls interleave in any order. The server keeps the
-- DaemonSet by optimistic concurrency: an update is applied only at the version that it was read at.
mod Knowledge
pub mod Exclusion
use mathlib.Core.List.{Memᴰ}
use mathlib.Core.Logic.{ite}
use native.Mathlib.Decide.{ℕ_discrete}
use pharos_host_upgrades.Prelude.{
  ℕ, String, ◌<◌, ◌≡◌, ◌⊎◌, Bool, true, false, none, some, List, [], ◌∷◌, Option, StringMap, lookup,
}
use pharos_host_upgrades.Effects.{
  ok, err, is_conflict, DaemonSet, Op, Resp, kube, get_daemonset, update_daemonset, watch_until,
  Prog, call,
}
use pharos_host_upgrades.External.{External}
use pharos_host_upgrades.Kube.Client
use pharos_host_upgrades.Hosts.Interface.{Host}
use pharos_host_upgrades.Main.Config.{Options}
use pharos_host_upgrades.Main.Kube.{kube_lock_annotation}
use pharos_host_upgrades.Main.Run

-- The DaemonSet, and the objects that it was before.
pub record Server : Type 0 where
  pub current : DaemonSet
  pub past : List DaemonSet

-- An update at the current version stores the object under a later version.
abbrev pub Applied : Server → DaemonSet → Server → Type 0
Applied s new s' =
    (version : ℕ) × (s.current.resource_version < version)
    × (new.resource_version ≡ s.current.resource_version)
    × (s'
        ≡ record { current = record new { resource_version = version }; past = s.current ∷ s.past })

-- How the surroundings may answer a call, and what becomes of the server. A call may fail with any
-- error; an update that fails without a conflict may have been applied all the same. A watch may
-- show an object of the past. All calls that do not concern the DaemonSet may be answered in any way.
abbrev pub Answered : Server → (o : Op) → Resp o → Server → Type 0
Answered s (kube (get_daemonset _ _ _)) (ok object) s' = (object ≡ s.current) × (s' ≡ s)
Answered s (kube (update_daemonset _ _ new)) (ok stored) s' =
    Applied s new s' × (stored ≡ s'.current)
Answered s (kube (update_daemonset _ _ new)) (err e) s' =
    (s' ≡ s) ⊎ ((is_conflict e ≡ false) × Applied s new s')
Answered s (kube (watch_until _ _ condition)) (ok ev) s' =
    (condition ev ≡ ok true) × Memᴰ ev.object (s.current ∷ s.past) × (s' ≡ s)
Answered s _ _ s' = s' ≡ s

-- Other clients write the DaemonSet too, but not the lock's annotation.
abbrev pub Touched : Server → Server → Type 0
Touched s s' =
    (new : DaemonSet) × (s.current.resource_version < new.resource_version)
    × (lookup kube_lock_annotation new.annotations
        ≡ lookup kube_lock_annotation s.current.annotations)
    × (s' ≡ record { current = new; past = s.current ∷ s.past })

pub record Cluster : Type 0 where
  pub server : Server
  pub threads : ℕ → Prog (Unit {0})

abbrev pub update : {A : Type 0} → (ℕ → A) → ℕ → A → ℕ → A
update f i a j = ite (ℕ_discrete i j) a (f j)

module _ (namespace daemon_set : String) (names : ℕ → String) where
  -- The kube options of node `i`.
  abbrev pub options_of : ℕ → Client.Options
  options_of i = record { namespace = namespace; daemon_set = daemon_set; node = names i }

  module _ (ext : External) {H : Type 0} (methods : Host H) where
    -- A process of node `i`, as it starts: any flags, but the cluster's own options for kube.
    pub record Boots (i : ℕ) (p : Prog (Unit {0})) : Type 0 where
      pub flags : Run.Flags
      pub in_cluster : flags.options.kube ≡ options_of i
      pub rounds : ℕ
      pub hosts : List H
      pub program : p ≡ Run.command ext methods rounds hosts flags

    pub data Step (s : Cluster) : Cluster → Type 0 where
      -- Node `i` makes its next call.
      act :
          (i : ℕ) {o : Op} {k : Resp o → Prog (Unit {0})} (r : Resp o) {server' : Server}
          → s.threads i ≡ call o k
          → Answered s.server o r server'
          → Step s (record { server = server'; threads = update s.threads i (k r) })
      -- The process of node `i` ends, for whatever reason, and another is started.
      restart :
          (i : ℕ) (p : Prog (Unit {0}))
          → Boots i p
          → Step s (record s { threads = update s.threads i p })
      other : {server' : Server} → Touched s.server server' → Step s (record s { server = server' })

    pub data Reach : Cluster → Type 0 where
      -- Every node starts; the DaemonSet is any, also with the lock taken.
      start :
          (object : DaemonSet) (threads : ℕ → Prog (Unit {0}))
          → ((i : ℕ) → Boots i (threads i))
          → Reach (record { server = record { current = object; past = [] }; threads = threads })
      next : {s t : Cluster} → Reach s → Step s t → Reach t
