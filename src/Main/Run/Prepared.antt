-- ===== src/Main/Run/Prepared.antt =====
-- A monitor of what comes before a reboot with --drain, and client-go's retry against it.
use pharos_host_upgrades.Prelude.{
  ℕ, String, ◌≡◌, refl, Bool, true, false, none, some, List, [], ◌∷◌, if◌then◌else◌,
}
use pharos_host_upgrades.Effects.{
  MaybeError, ok, is_conflict, Op, Resp, kube, process, system, update_node, run_command, output,
  login1_reboot, sleep_jittered, Prog, ret, ◌>>=◌, ◌>>◌, ask_process,
}
use pharos_host_upgrades.Effects.Logic.{Monitor, Safe, Safe-bind, Safe-if}
use pharos_host_upgrades.Kube.Retry.{RetryOnConflict, attempts}
use pharos_host_upgrades.Kube.Node
use pharos_host_upgrades.Kube.Node.{Node, annotate, annotation_of, change_node, is_some}
use pharos_host_upgrades.Main.Kube.{kube_reboot_annotation}

-- How far the preparation has come: nothing yet; kubectl has drained the node; and after that a node
-- was stored with a reboot annotation.
pub data Prepared : Type 0 where
  nothing_done : Prepared
  node_drained : Prepared
  node_marked : Prepared

abbrev is_drained : Prepared → Bool
is_drained nothing_done = false
is_drained node_drained = true
is_drained node_marked = true

-- Drained, and perhaps marked.
abbrev pub IsDrained : Prepared → Type 0
IsDrained m = is_drained m ≡ true

abbrev pub IsPrepared : Prepared → Type 0
IsPrepared m = m ≡ node_marked

abbrev pub drain_args : String → List String
drain_args name = "drain" ∷ "--delete-local-data" ∷ "--ignore-daemonsets" ∷ "--force" ∷ name ∷ []

-- The only command is the drain of the node with this name, and a reboot comes only when all is
-- prepared.
abbrev MayCall : String → Prepared → Op → Type 0
MayCall name m (process (run_command command args)) =
    (command ≡ "kubectl") × (args ≡ drain_args name)
MayCall name m (system (login1_reboot _)) = IsPrepared m
MayCall name m _ = Unit {0}

-- A node is stored, with or without the annotation: it counts as marked only after the drain.
abbrev stored : Prepared → Bool → Prepared
stored nothing_done _ = nothing_done
stored _ true = node_marked
stored _ false = node_drained

pub stored-IsPrepared : (m : Prepared) → IsDrained m → IsPrepared (stored m true)
stored-IsPrepared nothing_done done = absurd (cc)
stored-IsPrepared node_drained done = refl
stored-IsPrepared node_marked done = refl

-- A drain that succeeds starts the preparation anew.
abbrev prepared_by : Prepared → (o : Op) → Resp o → Prepared
prepared_by m (process (run_command _ _)) (output _) = node_drained
prepared_by m (kube (update_node _ new)) (ok _) =
    stored m (is_some (annotation_of new kube_reboot_annotation))
prepared_by m _ _ = m

-- A reboot comes only after the drain of the node with this name and then the mark.
abbrev pub drain_first : String → Monitor Prepared
drain_first name = record {
  Pre = MayCall name;
  Admits = λ _ _ _. Unit {0};
  next = prepared_by;
  Out = λ _. Unit {0};
}

abbrev pub Anyhow : {A : Type 0} → A → Prepared → Type 0
Anyhow a m = Unit {0}

-- If there is no error, then `P` holds, and `I` in any case.
abbrev pub Then : (Prepared → Type 0) → (Prepared → Type 0) → MaybeError → Prepared → Type 0
Then I P e m = I m × (e ≡ none → P m)

module _ (name : String) (I P : Prepared → Type 0) where
  attempts-Then :
      (pauses : List ℕ) (fn : Prog MaybeError)
      → ((m : Prepared) → I m → Safe (drain_first name) fn m (Then I P))
      → (m : Prepared) → I m
      → Safe
          (drain_first name)
          (attempts pauses (λ (_ : Unit {0}). fn >>= λ e. ret (e, tt)) tt)
          m
          (λ r. Then I P r.0)
  unfolding attempts
  attempts-Then [] fn safe m i =
      Safe-bind (drain_first name) fn _ m (Then I P) (λ r. Then I P r.0) (safe m i) (λ e m' t. t)
  attempts-Then (pause ∷ pauses) fn safe m i =
      Safe-bind (drain_first name) (fn >>= λ e. ret (e, tt)) _ m (λ r. Then I P r.0)
        (λ r. Then I P r.0)
        (Safe-bind (drain_first name) fn _ m (Then I P) (λ r. Then I P r.0) (safe m i)
          (λ e m' t. t))
        λ (failure, s) m' t. once_more failure m' t (attempts-Then pauses fn safe m')
    where
      once_more :
          (failure : MaybeError) (m' : Prepared)
          → Then I P failure m'
          → (I m'
              → Safe
                  (drain_first name)
                  (attempts pauses (λ (_ : Unit {0}). fn >>= λ e. ret (e, tt)) tt)
                  m'
                  (λ r. Then I P r.0))
          → Safe
              (drain_first name)
              {A = MaybeError × Unit {0}}
              (elim failure [
                | none ↦ ret (none, tt)
                | some e ↦
                    if is_conflict e
                    then (do
                      ask_process (sleep_jittered pause)
                      attempts pauses (λ (_ : Unit {0}). fn >>= λ e. ret (e, tt)) tt)
                    else ret (some e, tt)
              ])
              m'
              (λ r. Then I P r.0)
      once_more none m' t next = t
      once_more (some e) m' t next =
          Safe-if (drain_first name) (is_conflict e) _ _ m' (λ r. Then I P r.0)
            (λ _. (tt, λ _ _. next t.0)) (λ _. (t.0, λ h. cc))

  pub retried-Then :
      (retry : RetryOnConflict) (fn : Prog MaybeError)
      → ((m : Prepared) → I m → Safe (drain_first name) fn m (Then I P))
      → (m : Prepared) → I m
      → Safe (drain_first name) (Node.retried retry fn) m (Then I P)
  retried-Then retry fn safe m i =
      Safe-bind (drain_first name) (retry.run (Unit {0}) (λ _. fn >>= λ e. ret (e, tt)) tt) _ m
        (λ r. Then I P r.0) (Then I P)
        (rw (retry.run-eq-attempts (Unit {0}) (λ _. fn >>= λ e. ret (e, tt)) tt)
          (attempts-Then retry.pauses fn safe m i))
        (λ r m' t. t)
