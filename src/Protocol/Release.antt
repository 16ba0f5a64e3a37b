-- ===== src/Protocol/Release.antt =====
-- The lock after `Release` and after a whole run (kube/lock.go, kube.go and main.go).
use pharos_host_upgrades.Prelude.{
  ℕ, zero, suc, ◌≡◌, ◌≢◌, refl, ap, true, false, Bool, Bool-cases, inl, inr, none, some, Option,
  ◌==◌, delete,
}
use pharos_host_upgrades.Effects.{
  MaybeError, ok, err, is_conflict, DaemonSet, Context, Op, Resp, kube, get_daemonset,
  update_daemonset, Prog, ret,
}
use pharos_host_upgrades.Effects.Logic.{
  Monitor, Safe, Safe-bind, Safe-if, permissive, Safe-permissive, Safe-anyhow,
}
use pharos_host_upgrades.External.{External}
use pharos_host_upgrades.Kube.Lock
use pharos_host_upgrades.Kube.Lock.{
  Lock, lock_value, background, clear, modify, finish_round, release, release_object,
}
use pharos_host_upgrades.Kube.Lock.Ownership.{
  is_acquired, clear_lem, own_test, get_or_empty-delete_self,
}
use pharos_host_upgrades.Hosts.Interface.{Host}
use pharos_host_upgrades.Main.Config.{Options}
use pharos_host_upgrades.Main.Kube
use pharos_host_upgrades.Main.Kube.{Kube}
use pharos_host_upgrades.Main.Run

-- The DaemonSet that was read last, and whether the last update of the DaemonSet was stored and left
-- the lock free.
pub record Handover : Type 0 where
  pub read : Option DaemonSet
  pub freed : Bool

-- The object without the annotation of the lock.
abbrev without_lock : Lock → DaemonSet → DaemonSet
without_lock lock object = record object { annotations = delete lock.annotation object.annotations }

-- An update is that of the object that was read last, in which the lock was acquired, and takes
-- the lock's annotation from it and nothing else.
abbrev OnlyFrees : Lock → Handover → Op → Type 0
OnlyFrees lock m (kube (update_daemonset _ _ new)) =
    (object : DaemonSet) × (m.read ≡ some object)
    × (is_acquired lock object ≡ true)
    × (new ≡ without_lock lock object)
OnlyFrees lock m _ = Unit {0}

abbrev handed : Lock → Handover → (o : Op) → Resp o → Handover
handed lock m (kube (get_daemonset _ _ _)) (ok object) = record m { read = some object }
handed lock m (kube (update_daemonset _ _ new)) (ok _) = record m {
  freed = lock_value lock new == "";
}
handed lock m (kube (update_daemonset _ _ new)) (err _) = record m { freed = false }
handed lock m _ _ = m

abbrev pub handover : Lock → Monitor Handover
handover lock = record {
  Pre = OnlyFrees lock;
  Admits = λ _ _ _. Unit {0};
  next = handed lock;
  Out = λ _. Unit {0};
}

-- If the program has returned no error, then its last update of the DaemonSet was stored and left the
-- lock free.
abbrev pub Freed : MaybeError → Handover → Type 0
Freed e m = e ≡ none → m.freed ≡ true

module _ (lock : Lock) (named : lock.value ≢ "") where
  clear-mine :
      (object : DaemonSet)
      → is_acquired lock object ≡ true
      → release_object lock object ≡ (none, without_lock lock object)
  unfolding release_object clear
  clear-mine object mine = let own = own_test lock object named true mine in rw (own, clear) refl

  without_lock-free :
      (object : DaemonSet) → (lock_value lock (without_lock lock object) == "") ≡ true
  without_lock-free object =
      ap (λ v. v == "") (get_or_empty-delete_self lock.annotation object.annotations)

  module _ (again : Prog MaybeError)
      (next : (m : Handover) → Safe (handover lock) again m Freed) where
    finish_round-Freed :
        (object : DaemonSet) (m : Handover)
        → m.read ≡ some object
        → Safe
            (handover lock)
            (finish_round lock background
              (λ object. ret (release_object lock object))
              again
              (release_object lock object))
            m
            Freed
    unfolding finish_round Lock.update release_object
    finish_round-Freed object m read = elim (Bool-cases (is_acquired lock object)) [
      | inl mine ↦ rw (clear-mine object mine) (
        (object, read, mine, refl),
        elim [
          | ok stored ↦ λ _ _. without_lock-free object
          | err e ↦ λ _.
              Safe-if (handover lock) (is_conflict e) _ _ _ Freed (λ _. (tt, λ _ _. next _))
                (λ _ h. cc)
        ],
      )
      | inr other ↦
          let (e, broken) = (clear_lem lock object named).1 other in
          rw (broken, release_object) (λ h. cc)
    ]

  -- `Release` of a lock whose value is not empty updates the DaemonSet only over the object that it has
  -- read last, in which the lock was acquired, and takes only the lock's annotation from it; if it
  -- returns no error then its last update was stored and left the lock free.
  pub release-Freed :
      (rounds : ℕ) (m : Handover) → Safe (handover lock) (release rounds lock) m Freed
  unfolding release modify Lock.get
  release-Freed zero m = tt
  release-Freed (suc rounds) m = (
    tt,
    elim [
      | some e ↦ λ _ h. cc
      | none ↦ λ _. (
        tt,
        elim [
          | err e ↦ λ _ h. cc
          | ok object ↦ λ _.
              finish_round-Freed
                (modify lock background (λ object. ret (release_object lock object)) rounds)
                (release-Freed rounds) object _ refl
        ],
      )
    ],
  )

  release_lock-Freed :
      (rounds : ℕ) (k : Option Kube) (m : Handover)
      → Kube.lock_of k ≡ some lock
      → Safe (permissive (handover lock)) (Kube.release_lock rounds k) m Freed
  unfolding Kube.release_lock
  release_lock-Freed rounds k m found =
      rw (found, Kube.release_lock)
        (Safe-permissive (handover lock) (release rounds lock) m Freed (release-Freed rounds m))

  module _ (ext : External) {H : Type 0} (methods : Host H) (options : Options) (rounds : ℕ) where
    finish_run-Freed :
        (k : Option Kube) (outcome : Bool × MaybeError) (m : Handover)
        → Kube.lock_of k ≡ some lock
        → Safe
            (permissive (handover lock))
            (Run.finish_run ext methods options rounds k outcome)
            m
            Freed
    unfolding Run.finish_run
    finish_run-Freed k (rebooting, some e) m found =
        Safe-bind (permissive (handover lock)) (Kube.release_lock rounds k) _ m (λ _ _. Unit {0})
          Freed (Safe-anyhow (handover lock) (Kube.release_lock rounds k) m) (λ _ _ _ h. cc)
    finish_run-Freed k (true, none) m found = (tt, λ _ _ h. cc)
    finish_run-Freed k (false, none) m found =
        Safe-bind (permissive (handover lock)) (Kube.release_lock rounds k) _ m Freed Freed
          (release_lock-Freed rounds k m found)
          (elim [ some e ↦ λ _ _ h. cc | none ↦ λ _ freed h. freed refl ])

    -- A run with a configured lock, whose value is not empty, over any host: if it returns no error
    -- then its last update of the DaemonSet was stored and left the lock free.
    pub upgrade_run-Freed :
        (host : H) (k : Option Kube) (ctx : Context) (m : Handover)
        → Kube.lock_of k ≡ some lock
        → Safe
            (permissive (handover lock))
            (Run.upgrade_run ext methods options rounds host k ctx)
            m
            Freed
    unfolding Run.upgrade_run
    upgrade_run-Freed host k ctx m found =
        Safe-bind (permissive (handover lock)) (Kube.acquire_lock rounds k ctx) _ m
          (λ _ _. Unit {0}) Freed (Safe-anyhow (handover lock) (Kube.acquire_lock rounds k ctx) m)
          (elim [
            | some e ↦ λ _ _ h. cc
            | none ↦ λ m' _.
                Safe-bind (permissive (handover lock))
                  (Run.upgrade_locked ext methods options rounds host k) _ m' (λ _ _. Unit {0})
                  Freed
                  (Safe-anyhow (handover lock)
                    (Run.upgrade_locked ext methods options rounds host k) m')
                  (λ outcome m'' _. finish_run-Freed k outcome m'' found)
          ])
