-- ===== src/Tests/Exclusion.antt =====
-- Two nodes start, the first one runs until it is about to upgrade.
use pharos_host_upgrades.Prelude.{
  ℕ, zero, suc, ◌≡◌, refl, Bool, true, false, none, some, List, Option, get_or_empty, lookup, find,
}
use pharos_host_upgrades.Effects.{Op, Resp, Prog, ret, call, out_of_rounds}
use pharos_host_upgrades.Hosts.Kinds
use pharos_host_upgrades.Hosts.Ubuntu
use pharos_host_upgrades.Kube.Retry.{attempts, default_backoff}
use pharos_host_upgrades.Kube.Lock
use native.Mathlib.Decide.{ℕ_discrete}
use pharos_host_upgrades.Main.Kube.{kube_lock_annotation}
use pharos_host_upgrades.Main.Run
use pharos_host_upgrades.Protocol.{is_critical}
use pharos_host_upgrades.Protocol.Host.Kinds.{any_host-FollowsLock}
use pharos_host_upgrades.Cluster.{Cluster, Reach, act, start, next}
use pharos_host_upgrades.Cluster.Exclusion.{critical-named, mutual_exclusion}
use pharos_host_upgrades.Tests.Tools.{tools, node_name, node_name-distinct, node_name-ne_empty}
use pharos_host_upgrades.Tests.Surroundings.{daemon_set, methods, options, Reply, reply}

abbrev IsReached : Cluster → Type 0
IsReached = Reach "kube-system" "host-upgrades" node_name tools methods

abbrev flags : ℕ → Run.Flags
flags i = record { version = false; options = options i }

abbrev program : ℕ → Prog (Unit {0})
program i = Run.command tools methods 9 Kinds.probe_hosts (flags i)

abbrev State : Type 0
State = (s : Cluster) × IsReached s

abbrev started : State
started = (
  record { server = record { current = daemon_set; past = List.[] }; threads = program },
  start daemon_set program (λ i. record {
    flags = flags i;
    in_cluster = refl;
    rounds = 9;
    hosts = Kinds.probe_hosts;
    program = refl;
  }),
)

-- Node `i` makes calls until the next one is critical, and at most so many.
module _ (i : ℕ) (s : Cluster) (reached : IsReached s) (again : State → State) where
  take_reply :
      {o : Op} {k : Resp o → Prog (Unit {0})}
      → s.threads i ≡ call o k
      → Option (Reply s.server o)
      → State
  take_reply e none = (s, reached)
  take_reply e (some (r, server', answered)) = again (_, next reached (act i r e answered))

  unless_critical : (o : Op) (k : Resp o → Prog (Unit {0})) → s.threads i ≡ call o k → Bool → State
  unless_critical o k e true = (s, reached)
  unless_critical o k e false = take_reply e (reply s.server o)

  step : (p : Prog (Unit {0})) → s.threads i ≡ p → State
  step (ret a) e = (s, reached)
  step out_of_rounds e = (s, reached)
  step (call o k) e = unless_critical o k e (is_critical o)

run_node : ℕ → ℕ → State → State
run_node zero i s = s
run_node (suc n) i (s, reached) = step i s reached (run_node n i) (s.threads i) refl

abbrev upgrading : State
upgrading = run_node 60 2 started

critical-named_example :
    get_or_empty kube_lock_annotation upgrading.0.server.current.annotations ≡ "xxx"
unfolding run_node step Run.command unless_critical take_reply reply ℕ_discrete Kinds.host_methods
    Ubuntu.host_methods tools lookup default_backoff attempts get_or_empty find Lock.finish_round
critical-named_example =
    critical-named "kube-system" "host-upgrades" node_name tools methods
      (any_host-FollowsLock tools true 9) node_name-distinct node_name-ne_empty upgrading.1 2 refl
      refl

mutual_exclusion_example : Path ℕ 2 2
unfolding run_node step Run.command unless_critical take_reply reply ℕ_discrete Kinds.host_methods
    Ubuntu.host_methods tools lookup default_backoff attempts get_or_empty find Lock.finish_round
mutual_exclusion_example =
    mutual_exclusion "kube-system" "host-upgrades" node_name tools methods
      (any_host-FollowsLock tools true 9) node_name-distinct node_name-ne_empty upgrading.1 2 2 refl
      refl refl refl
