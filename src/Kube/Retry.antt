-- ===== src/Kube/Retry.antt =====
-- k8s.io/client-go/util/retry.RetryOnConflict(retry.DefaultBackoff, fn), which lies outside this
-- repository: it is a parameter. The captured variable that `fn` writes is a state `S`.
use pharos_host_upgrades.Prelude.{ℕ, ◌≡◌, refl, none, some, List, [], ◌∷◌, if◌then◌else◌}
use pharos_host_upgrades.Effects.{
  MaybeError, is_conflict, sleep_jittered, Prog, ret, ◌>>=◌, ◌>>◌, ask_process,
}

-- The documented behaviour: `fn` is run, and run again after a pause for as long as it fails with a
-- conflict, once for each pause that is left; any other outcome is returned, and the last conflict.
unfoldable pub attempts :
    {S : Type 0} → List ℕ → (S → Prog (MaybeError × S)) → S → Prog (MaybeError × S)
attempts [] fn s = fn s
attempts (pause ∷ pauses) fn s = do
  (failure, s') ← fn s
  elim failure [
    | none ↦ ret (none, s')
    | some e ↦
        if is_conflict e
        then (do ask_process (sleep_jittered pause); attempts pauses fn s')
        else ret (some e, s')
  ]

pub record RetryOnConflict : Type 1 where
  pub run : (S : Type 0) → (S → Prog (MaybeError × S)) → S → Prog (MaybeError × S)
  pub pauses : List ℕ
  pub run-eq-attempts :
      (S : Type 0) (fn : S → Prog (MaybeError × S)) (s : S) → run S fn s ≡ attempts pauses fn s

-- One function that behaves so.
unfoldable pub default_backoff : RetryOnConflict
default_backoff = record {
  run = λ S fn s. attempts (10000000 ∷ 50000000 ∷ 250000000 ∷ []) fn s;
  pauses = 10000000 ∷ 50000000 ∷ 250000000 ∷ [];
  run-eq-attempts = λ S fn s. refl;
}
