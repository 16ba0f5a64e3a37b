-- ===== src/Cluster/Exclusion.antt =====
-- The nodes of a cluster, each against the rules of the lock: the invariant of the whole cluster.
use mathlib.Core.Logic.{ite}
use native.Mathlib.Decide.{ℕ_discrete}
use pharos_host_upgrades.Prelude.{
  ℕ, String, ◌≡◌, refl, sym, ◌∙◌, ◌≢◌, true, eq_iff, arith, ap, subst, get_or_empty,
}
use pharos_host_upgrades.Effects.{
  ok, Op, Resp, Prog, call, kube, process, system, watch_until, run_command, start_transient_unit,
  receive_job_result, login1_reboot,
}
use pharos_host_upgrades.Effects.Logic.{Safe}
use pharos_host_upgrades.External.{External}
use pharos_host_upgrades.Hosts.Interface.{Host}
use pharos_host_upgrades.Main.Kube.{is_set, kube_lock_annotation}
use pharos_host_upgrades.Main.Run
use pharos_host_upgrades.Protocol.{Local, LockId, is_critical, protocol, Allowed, Answers, learn}
use pharos_host_upgrades.Protocol.{start as nothing_known}
use pharos_host_upgrades.Protocol.RunCalls.{id_of}
use pharos_host_upgrades.Protocol.MainCalls.{FollowsLock, command-Safe}
use pharos_host_upgrades.Cluster.{
  Server, Answered, Cluster, update, options_of, Boots, Step, act, restart, other, Reach, start,
  next,
}
use pharos_host_upgrades.Cluster.Knowledge.{
  IsHistory, Knows, Rivals, Answered-Outcome, Touched-IsHistory, Touched-Knows,
}

-- A critical call is made only by a node that holds the lock.
critical-held :
    (id : LockId) (m : Local) (o : Op) → Allowed id m o → is_critical o ≡ true → m.held ≡ true
critical-held id m (process (run_command _ _)) allowed critical = allowed
critical-held id m (system (start_transient_unit _ _ _ _)) allowed critical = allowed
critical-held id m (system receive_job_result) allowed critical = allowed
critical-held id m (system (login1_reboot _)) allowed critical = allowed
critical-held id m _ allowed critical = cc

-- The answers of the surroundings are those that the rules count on.
Answered-Answers :
    (id : LockId) (m : Local) (s : Server) (o : Op) (r : Resp o) (s' : Server)
    → Answered s o r s'
    → Answers id m o r
Answered-Answers id m s (kube (watch_until _ _ _)) (ok ev) s' a = a.0
Answered-Answers id m s _ _ s' a = tt

-- A relation of two families that are changed at one index.
update₂ :
    {A B : Type 0} (P : ℕ → A → B → Type 0) (f : ℕ → A) (g : ℕ → B) (i : ℕ) (a : A) (b : B)
    → P i a b
    → ((j : ℕ) → i ≢ j → P j (f j) (g j))
    → (j : ℕ) → P j (update f i a j) (update g i b j)
update₂ P f g i a b here there j =
    elim (ℕ_discrete i j) as (λ d. P j (ite d a (f j)) (ite d b (g j))) [
      | yes e ↦ subst (λ x. P x a b) e here
      | no n ↦ there j n
    ]

module _ (namespace daemon_set : String) (names : ℕ → String) (ext : External) {H : Type 0}
    (methods : Host H) (follows : FollowsLock methods)
    (distinct : (i j : ℕ) → names i ≡ names j → i ≡ j) (named : (i : ℕ) → names i ≢ "") where
  abbrev id : ℕ → LockId
  id i = id_of (options_of namespace daemon_set names i)

  abbrev Steps : Cluster → Cluster → Type 0
  Steps = Step namespace daemon_set names ext methods

  -- Some knowledge of each node is true, and its program follows the rules from there.
  record Inv (s : Cluster) : Type 0 where
    local : ℕ → Local
    history : IsHistory s.server
    knows : (i : ℕ) → Knows s.server (id i) (local i)
    safe : (i : ℕ) → Safe (protocol (id i)) (s.threads i) (local i) (λ _ _. Unit {0})

  is_set-options_of : (i : ℕ) → is_set (options_of namespace daemon_set names i) ≡ true
  unfolding is_set
  is_set-options_of i = ground (arith, eq_iff (names i) "", named i)

  Boots-Safe :
      (i : ℕ) (p : Prog (Unit {0})) (m : Local)
      → Boots namespace daemon_set names ext methods i p
      → Safe (protocol (id i)) p m (λ _ _. Unit {0})
  Boots-Safe i p m b =
      subst (λ q. Safe (protocol (id i)) q m (λ _ _. Unit {0})) (sym b.program)
        (subst
          (λ o.
            Safe (protocol (id_of o)) (Run.command ext methods b.rounds b.hosts b.flags) m
              (λ _ _. Unit {0}))
          b.in_cluster
          (command-Safe ext methods follows b.flags b.rounds b.hosts m
            (ap is_set b.in_cluster ∙ is_set-options_of i)))

  rivals : (i j : ℕ) → i ≢ j → Rivals (id i) (id j)
  rivals i j differ = record {
    same_annotation = refl;
    named = named j;
    distinct = λ e. differ (distinct i j e);
  }

  Step-Inv : {s t : Cluster} → Steps s t → Inv s → Inv t
  Step-Inv {s} (act i {o} {k} r {server'} e answered) inv =
      let called =
        subst (λ p. Safe (protocol (id i)) p (inv.local i) (λ _ _. Unit {0})) e (inv.safe i) in
      let m' = learn (id i) (inv.local i) o r in
      let outcome = λ (j : ℕ).
        Answered-Outcome s.server (id i) (inv.local i) (id j) (inv.local j) inv.history
          (inv.knows i) (inv.knows j) o r server' called.0 answered in
      record {
        local = update inv.local i m';
        history = (outcome i).history;
        knows =
            update₂ (λ j m _. Knows server' (id j) m) inv.local inv.local i m' m' (outcome i).own
              (λ j differ. (outcome j).rival (rivals i j differ));
        safe =
            update₂ (λ j p m. Safe (protocol (id j)) p m (λ _ _. Unit {0})) s.threads inv.local i
              (k r) m'
              (called.1 r (Answered-Answers (id i) (inv.local i) s.server o r server' answered))
              (λ j _. inv.safe j);
      }
  Step-Inv {s} (restart i p b) inv = record {
    local = update inv.local i nothing_known;
    history = inv.history;
    knows =
        update₂ (λ j m _. Knows s.server (id j) m) inv.local inv.local i nothing_known nothing_known
          (record { read = λ old m. elim m [ ]; holds = λ h. cc }) (λ j _. inv.knows j);
    safe =
        update₂ (λ j p m. Safe (protocol (id j)) p m (λ _ _. Unit {0})) s.threads inv.local i p
          nothing_known (Boots-Safe i p nothing_known b) (λ j _. inv.safe j);
  }
  Step-Inv {s} (other {server'} touched) inv = record {
    local = inv.local;
    history = Touched-IsHistory s.server server' inv.history touched;
    knows = λ i. Touched-Knows s.server server' (id i) (inv.local i) refl (inv.knows i) touched;
    safe = inv.safe;
  }

  Reach-Inv : {s : Cluster} → Reach namespace daemon_set names ext methods s → Inv s
  Reach-Inv (start object threads boots) = record {
    local = λ _. nothing_known;
    history = λ old m. elim m [ ];
    knows = λ i. record { read = λ old m. elim m [ ]; holds = λ h. cc };
    safe = λ i. Boots-Safe i (threads i) nothing_known (boots i);
  }
  Reach-Inv (next r st) = Step-Inv st (Reach-Inv r)

  -- In every state that the cluster can reach, with any interleaving of the nodes' calls, any
  -- failures and restarts, any answers of the hosts, and any other writes of the DaemonSet that
  -- leave the lock's annotation alone: a node whose next call starts an upgrade, waits for its
  -- end, runs kubectl or reboots the host is named by the lock's annotation.
  pub critical-named :
      {s : Cluster}
      → Reach namespace daemon_set names ext methods s
      → (i : ℕ) {o : Op} {k : Resp o → Prog (Unit {0})} → s.threads i ≡ call o k
      → is_critical o ≡ true
      → get_or_empty kube_lock_annotation s.server.current.annotations ≡ names i
  critical-named {s} reached i {o} {k} e critical =
      let inv = Reach-Inv reached in
      let called =
        subst (λ p. Safe (protocol (id i)) p (inv.local i) (λ _ _. Unit {0})) e (inv.safe i) in
      (inv.knows i).holds (critical-held (id i) (inv.local i) o called.0 critical)

  -- Two nodes that are at such a call in a state that the cluster can reach are the same node.
  pub mutual_exclusion :
      {s : Cluster}
      → Reach namespace daemon_set names ext methods s
      → (i j : ℕ) {o o' : Op} {k : Resp o → Prog (Unit {0})} {k' : Resp o' → Prog (Unit {0})}
      → s.threads i ≡ call o k
      → s.threads j ≡ call o' k'
      → is_critical o ≡ true
      → is_critical o' ≡ true
      → i ≡ j
  mutual_exclusion reached i j at_i at_j critical_i critical_j =
      distinct i j
        (sym (critical-named reached i at_i critical_i) ∙ critical-named reached j at_j critical_j)
