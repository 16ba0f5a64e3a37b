-- ===== src/Kube/Client.antt =====
-- kube/kube.go: the options, and how a node and a lock are made from them.
use pharos_host_upgrades.Prelude.{ℕ, String, none, some}
use pharos_host_upgrades.Effects.{
  Result, ok, err, wrap, in_cluster_config, Prog, ret, ◌>>=◌, ask_kube,
}
use pharos_host_upgrades.Kube.Lock
use pharos_host_upgrades.Kube.Lock.{Lock}
use pharos_host_upgrades.Kube.Node
use pharos_host_upgrades.Kube.Node.{Node}

pub record Options : Type 0 where
  pub namespace : String
  pub daemon_set : String
  pub node : String

pub record Kube : Type 0 where
  pub config : ℕ
  pub options : Options

-- `New`
unfoldable pub new : Options → Prog (Result Kube)
new options = do
  answer ← ask_kube in_cluster_config
  elim answer [
    | err e ↦ ret (err (wrap "k8s.io/client-go/rest:InClusterConfig: " e))
    | ok config ↦ ret (ok (record { config = config; options = options }))
  ]

-- `Node`
abbrev pub unconnected_node : Options → Node
unconnected_node options = record { client = none; name = options.node }

unfoldable pub make_node : Kube → Prog (Result Node)
unfolding Node.connect
make_node kube = do
  (failure, node) ← Node.connect (unconnected_node kube.options) kube.config
  elim failure [ some e ↦ ret (err e) | none ↦ ret (ok node) ]

-- `Lock`
abbrev pub unconnected_lock : Options → String → Lock
unconnected_lock options annotation = record {
  client = none;
  namespace = options.namespace;
  name = options.daemon_set;
  annotation = annotation;
  value = options.node;
}

unfoldable pub make_lock : Kube → String → Prog (Result Lock)
unfolding Lock.connect
make_lock kube annotation = do
  (failure, lock) ← Lock.connect (unconnected_lock kube.options annotation) kube.config
  elim failure [ some e ↦ ret (err e) | none ↦ ret (ok lock) ]
