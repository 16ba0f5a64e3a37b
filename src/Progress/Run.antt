-- ===== src/Progress/Run.antt =====
-- main.go: a whole run in a world that does its part.
use pharos_host_upgrades.Prelude.{
  ℕ, suc, zero, ◌<◌, String, ◌≡◌, ◌≢◌, refl, sym, ◌∙◌, ap, subst, Bool, true, false, ◌&&◌, none,
  some, List, [], ◌∷◌, arith, Entries, StringMap, lookup,
}
use pharos_host_upgrades.Effects.{MaybeError, wrap, Context, NodeCondition, Prog, ret, ◌>>=◌, ◌>>◌}
use pharos_host_upgrades.Effects.Logic.{Safe, Safe-bind, Safe-if, Safe-weaken}
use pharos_host_upgrades.External.{External}
use pharos_host_upgrades.Kube.Lock
use pharos_host_upgrades.Kube.Lock.{Lock}
use pharos_host_upgrades.Kube.Lock.Ownership.{is_acquired, is_available}
use pharos_host_upgrades.Kube.Node
use pharos_host_upgrades.Kube.Node.{Node, annotate, annotation_of, set_conditions}
use pharos_host_upgrades.Hosts.Interface.{Info, Status, Host}
use pharos_host_upgrades.Main.Conditions.{make_upgrade_condition, make_reboot_condition}
use pharos_host_upgrades.Main.Config.{Options}
use pharos_host_upgrades.Main.Kube
use pharos_host_upgrades.Main.Kube.{Kube, kube_reboot_annotation, kube_drain_annotation}
use pharos_host_upgrades.Main.Run
use pharos_host_upgrades.Progress.{World, Kept, Upgrades, progress, with_status}
use pharos_host_upgrades.Progress.Writes.{Succeeds, write_conditions_once}
use pharos_host_upgrades.Progress.Locking.{
  Gives, acquire-progress, release-progress, is_acquired-value,
}

-- Nothing but the node's conditions and versions has changed.
pub record SameButStatus (before after : World) : Type 0 where
  pub same_annotations : after.node.annotations ≡ before.node.annotations
  pub same_schedulable : after.node.unschedulable ≡ before.node.unschedulable
  pub same_daemonset : after.daemonset ≡ before.daemonset
  pub same_conflicts : after.conflicts ≡ before.conflicts
  pub same_horizon : after.horizon ≡ before.horizon
  pub same_flagged : after.flagged ≡ before.flagged
  pub same_commands : after.commands ≡ before.commands

module _ (ext : External) (k : Kube) (lock : Lock) (node : Node) (found_lock : k.lock ≡ some lock)
    (found_node : k.node ≡ some node) (named : lock.value ≢ "") where
  make_upgrade_condition-still :
      (status : Status) (failure : MaybeError) (m : World)
      → Safe progress (make_upgrade_condition ext status failure) m (λ _ m'. m' ≡ m)
  unfolding make_upgrade_condition
  make_upgrade_condition-still status failure m = (tt, λ t _. (tt, λ t' _. refl))

  make_reboot_condition-still :
      (info : Info) (status : Status) (failure : MaybeError) (m : World)
      → Safe progress (make_reboot_condition info status failure) m (λ _ m'. m' ≡ m)
  unfolding make_reboot_condition
  make_reboot_condition-still info status none m = (
    tt,
    λ t _. Safe-if progress status.reboot_required _ _ m (λ _ m'. m' ≡ m) (λ _. refl) (λ _. refl),
  )
  make_reboot_condition-still info status (some e) m = (
    tt,
    λ t _.
        Safe-if progress status.reboot_required _ _ m (λ _ m'. m' ≡ m) (λ _. refl)
          (λ _. (tt, λ t' _. refl)),
  )

  pub acquire_lock-progress :
      (rounds : ℕ) (ctx : Context) (a : Entries) (m : World)
      → m.daemonset.annotations ≡ some a
      → is_available lock m.daemonset ≡ true
      → m.conflicts < rounds
      → Safe progress
          (Kube.acquire_lock rounds (some k) ctx)
          m
          (Succeeds (λ m'. Gives lock lock.value (some a) m'.daemonset.annotations × Kept m m'))
  unfolding Kube.acquire_lock Kube.acquire_loop
  acquire_lock-progress zero ctx a m made available fewer = absurd (omega (arith, fewer))
  acquire_lock-progress (suc rounds) ctx a m made available fewer =
      rw (found_lock, Kube.acquire_lock)
        (
          tt,
          λ r expired. rw expired (
              Safe-bind progress (Lock.acquire (suc rounds) lock ctx) _ m
                (Succeeds
                  (λ m'. Gives lock lock.value (some a) m'.daemonset.annotations × Kept m m'))
                (Succeeds
                  (λ m'. Gives lock lock.value (some a) m'.daemonset.annotations × Kept m m'))
                (acquire-progress lock named (suc rounds) ctx a m made available fewer)
                λ e m' (succeeded, q). rw succeeded (refl, q)),
        )

  reported :
      (conditions : List NodeCondition) (m : World)
      → Safe progress {A = MaybeError}
          (Node.write_conditions ext.retry node conditions >> ret none)
          m
          (Succeeds (SameButStatus m))
  unfolding set_conditions
  reported conditions m =
      Safe-bind progress (Node.write_conditions ext.retry node conditions) _ m
        (Succeeds (λ m'. m' ≡ with_status m (set_conditions m.node conditions)))
        (Succeeds (SameButStatus m)) (write_conditions_once ext.retry node conditions m)
        λ e m' (succeeded, same). rw same (
          refl,
          record {
            same_annotations = refl;
            same_schedulable = refl;
            same_daemonset = refl;
            same_conflicts = refl;
            same_horizon = refl;
            same_flagged = refl;
            same_commands = refl;
          },
        )

  reboot_reported :
      (upgrade : NodeCondition) (status : Status) (failure : MaybeError) (m : World)
      → Safe progress {A = MaybeError}
          (make_reboot_condition k.host_info status failure >>= λ reboot.
            Node.write_conditions ext.retry node (upgrade ∷ reboot ∷ []) >> ret none)
          m
          (Succeeds (SameButStatus m))
  reboot_reported upgrade status failure m =
      Safe-bind progress (make_reboot_condition k.host_info status failure) _ m (λ _ m'. m' ≡ m)
        (Succeeds (SameButStatus m)) (make_reboot_condition-still k.host_info status failure m)
        λ reboot m' same. rw same (reported (upgrade ∷ reboot ∷ []) m)

  pub update_host_status-progress :
      (status : Status) (failure : MaybeError) (m : World)
      → Safe progress
          (Kube.update_host_status ext (some k) status failure)
          m
          (Succeeds (SameButStatus m))
  unfolding Kube.update_host_status
  update_host_status-progress status failure m =
      rw (found_node, Kube.update_host_status)
        (Safe-bind progress (make_upgrade_condition ext status failure)
          (λ upgrade. make_reboot_condition k.host_info status failure >>= λ reboot.
            Node.write_conditions ext.retry node (upgrade ∷ reboot ∷ []) >> ret none)
          m (λ _ m'. m' ≡ m) (Succeeds (SameButStatus m))
          (make_upgrade_condition-still status failure m)
          λ upgrade m' same. rw same (reboot_reported upgrade status failure m))

-- The run has kept the node's annotations, and the lock has this value.
pub record RunLeaves (lock : Lock) (value : String) (before after : World) : Type 0 where
  pub lock_given : Gives lock value before.daemonset.annotations after.daemonset.annotations
  pub same_annotations : after.node.annotations ≡ before.node.annotations
  pub same_schedulable : after.node.unschedulable ≡ before.node.unschedulable

module _ (ext : External) {H : Type 0} (methods : Host H) (host : H)
    (upgrades : Upgrades methods host) (options : Options) (k : Kube) (lock : Lock) (node : Node)
    (found_lock : k.lock ≡ some lock) (found_node : k.node ≡ some node)
    (named : lock.value ≢ "") where
  -- What `upgrade_locked` does with the host's answer.
  abbrev pub after_upgrade : ℕ → Status × MaybeError → Prog (Bool × MaybeError)
  after_upgrade rounds (status', some e) = do
    Kube.update_host_status ext (some k) status' (some e)
    ret (false, some e)
  after_upgrade rounds (status', none) = do
    unreported ← Kube.update_host_status ext (some k) status' none
    elim unreported [
      | some e ↦ ret (false, some (wrap "Kube node status update failed: " e))
      | none ↦ Run.reboot_if_required ext methods options rounds host (some k) status'
    ]

  upgrade_locked-no_reboot :
      (rounds : ℕ) (m : World)
      → (options.reboot && m.flagged) ≡ false
      → Safe progress
          (Run.upgrade_locked ext methods options rounds host (some k))
          m
          (λ r m'. (r ≡ (false, none)) × SameButStatus m m')
  unfolding Run.upgrade_locked Run.reboot_if_required
  upgrade_locked-no_reboot rounds m stays =
      Safe-bind progress (methods.upgrade host) (after_upgrade rounds) m
        (λ r m'. (r.1 ≡ none) × (r.0.reboot_required ≡ m.flagged) × (m' ≡ m))
        (λ r m'. (r ≡ (false, none)) × SameButStatus m m') (upgrades m)
        λ (status, failure) m' (done, flag, same). rw same (
          subst
            (λ e.
              Safe progress (after_upgrade rounds (status, e)) m
                (λ r m'. (r ≡ (false, none)) × SameButStatus m m'))
            (sym done)
            (Safe-bind progress (Kube.update_host_status ext (some k) status none) _ m
              (Succeeds (SameButStatus m)) _
              (update_host_status-progress ext k lock node found_lock found_node named status none
                m)
              λ e m'' (succeeded, kept). rw (succeeded, flag, stays) (refl, kept)))

  finish_run-progress :
      (rounds : ℕ) (m : World)
      → is_acquired lock m.daemonset ≡ true
      → m.conflicts < rounds
      → Safe progress (Run.finish_run ext methods options rounds (some k) (false, none)) m (
          Succeeds
            (λ m'. Gives lock "" m.daemonset.annotations m'.daemonset.annotations × Kept m m'))
  unfolding Run.finish_run Kube.release_lock
  finish_run-progress rounds m mine fewer =
      rw (found_lock, Kube.release_lock)
        (Safe-bind progress (Lock.release rounds lock) _ m
          (Succeeds
            (λ m'. Gives lock "" m.daemonset.annotations m'.daemonset.annotations × Kept m m'))
          (Succeeds
            (λ m'. Gives lock "" m.daemonset.annotations m'.daemonset.annotations × Kept m m'))
          (release-progress lock named rounds m mine fewer)
          λ e m' (succeeded, q). rw succeeded (refl, q))

  Gives-trans :
      {a : Entries} (m m₁ m₂ : World) (after : StringMap)
      → m.daemonset.annotations ≡ some a
      → Gives lock lock.value (some a) m₁.daemonset.annotations
      → SameButStatus m₁ m₂
      → Gives lock "" m₂.daemonset.annotations after
      → Gives lock "" m.daemonset.annotations after
  Gives-trans m m₁ m₂ after made given report freed = (
    freed.0,
    λ key other.
        freed.1 key other
        ∙ ap (λ d. lookup key d.annotations) report.same_daemonset
        ∙ given.1 key other
        ∙ ap (lookup key) (sym made),
  )

  -- In a world that does its part, a run on a host that does its part, which needs no reboot or
  -- may not reboot, returns without an error if the lock is available and its rounds are more than the
  -- conflicts: the lock is free again, and the annotations of the node, its schedulability and the
  -- other annotations of the DaemonSet are as they were. The node has a name, a lock and a client,
  -- and the annotations of the DaemonSet are not the nil map.
  pub upgrade_run-progress :
      (rounds : ℕ) (ctx : Context) (a : Entries) (m : World)
      → (options.reboot && m.flagged) ≡ false
      → m.daemonset.annotations ≡ some a
      → is_available lock m.daemonset ≡ true
      → m.conflicts < rounds
      → Safe progress
          (Run.upgrade_run ext methods options rounds host (some k) ctx)
          m
          (Succeeds (RunLeaves lock "" m))
  unfolding Run.upgrade_run
  upgrade_run-progress rounds ctx a m stays made available fewer =
      Safe-bind progress (Kube.acquire_lock rounds (some k) ctx) _ m
        (Succeeds (λ m'. Gives lock lock.value (some a) m'.daemonset.annotations × Kept m m')) _
        (acquire_lock-progress ext k lock node found_lock found_node named rounds ctx a m made
          available fewer)
        λ e m₁ (succeeded, (given, kept)). rw succeeded (
          Safe-bind progress (Run.upgrade_locked ext methods options rounds host (some k)) _ m₁
            (λ r m'. (r ≡ (false, none)) × SameButStatus m₁ m') _
            (upgrade_locked-no_reboot rounds m₁
              (ap (λ b. options.reboot && b) kept.same_flagged ∙ stays))
            λ r m₂ (done, report). rw done (
              Safe-weaken progress
                (Run.finish_run ext methods options rounds (some k) (false, none)) m₂
                {Q = Succeeds (λ m'.
                  Gives lock "" m₂.daemonset.annotations m'.daemonset.annotations × Kept m₂ m')}
                (λ e' m' (succeeded', (freed, rest)). (
                  succeeded',
                  record {
                    lock_given =
                        Gives-trans m m₁ m₂ m'.daemonset.annotations made given report freed;
                    same_annotations =
                        ap (λ n. n.annotations) rest.same_node
                        ∙ report.same_annotations
                        ∙ ap (λ n. n.annotations) kept.same_node;
                    same_schedulable =
                        ap (λ n. n.unschedulable) rest.same_node
                        ∙ report.same_schedulable
                        ∙ ap (λ n. n.unschedulable) kept.same_node;
                  },
                ))
                (finish_run-progress rounds m₂
                  (is_acquired-value lock named m₂.daemonset
                    (ap (Lock.lock_value lock) report.same_daemonset ∙ given.0))
                  (let no_more = kept.no_more in
                    let same = report.same_conflicts in omega (arith, fewer, no_more, same)))))
