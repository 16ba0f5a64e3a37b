-- ===== src/Progress/Locking.antt =====
-- The lock of kube/lock.go in a world that does its part.
use pharos_host_upgrades.Prelude.{
  ℕ, zero, suc, ◌<◌, String, ◌≡◌, ◌≢◌, refl, sym, ◌∙◌, true, false, none, some, get_or_empty, ap,
  subst, eq_iff, Entries, StringMap, lookup, ◌==◌, arith,
}
use pharos_host_upgrades.Effects.{MaybeError, ok, err, DaemonSet, Context, Prog, ret}
use pharos_host_upgrades.Effects.Logic.{Safe, Safe-bind}
use pharos_host_upgrades.Kube.Lock.{
  Lock, lock_value, test_object, finish_round, modify, wait, acquire_object, wait_and_acquire,
  acquire, release, release_object, background,
}
use pharos_host_upgrades.Kube.Lock.Ownership.{is_available, is_acquired, set_lem, clear_lem}
use pharos_host_upgrades.Progress.{World, Kept, progress, with_daemonset, with_conflict}
use pharos_host_upgrades.Progress.Writes.{Succeeds}

-- What a function passed to `modify` leaves: no error, an object with the same version, name and
-- spec, and `R`.
abbrev Changes : DaemonSet → World → (StringMap → Type 0) → MaybeError × DaemonSet → World → Type 0
Changes object m R r m' =
    (r.0 ≡ none)
    × (m' ≡ m)
    × (r.1.resource_version ≡ object.resource_version)
    × (r.1.name ≡ object.name)
    × (r.1.spec ≡ object.spec)
    × R r.1.annotations

Kept-refl : (m : World) → Kept m m
Kept-refl m = record {
  same_name = refl;
  same_spec = refl;
  same_node = refl;
  no_more = omega arith;
  same_horizon = refl;
  same_flagged = refl;
  same_commands = refl;
}

module _ (lock : Lock) (ctx : Context) (fn : DaemonSet → Prog (MaybeError × DaemonSet))
    (A : StringMap) (R : StringMap → Type 0) (start : World)
    (changes : (object : DaemonSet) (m : World)
      → object.annotations ≡ A
      → Safe progress (fn object) m (Changes object m R)) where
  -- The object is stored with annotations of `R`, and the rest of the world is left alone.
  abbrev Stored : World → Type 0
  Stored m = R m.daemonset.annotations × Kept start m

  with_conflict-Kept : (m : World) → Kept start m → Kept start (with_conflict m)
  with_conflict-Kept m kept = record {
    same_name = kept.same_name;
    same_spec = kept.same_spec;
    same_node = kept.same_node;
    no_more = omega (arith, kept.no_more);
    same_horizon = kept.same_horizon;
    same_flagged = kept.same_flagged;
    same_commands = kept.same_commands;
  }

  with_daemonset-Kept :
      (m : World) (new : DaemonSet)
      → new.name ≡ m.daemonset.name
      → new.spec ≡ m.daemonset.spec
      → Kept start m
      → Kept start (with_daemonset m new)
  with_daemonset-Kept m new name spec kept = record {
    same_name = name ∙ kept.same_name;
    same_spec = spec ∙ kept.same_spec;
    same_node = kept.same_node;
    no_more = kept.no_more;
    same_horizon = kept.same_horizon;
    same_flagged = kept.same_flagged;
    same_commands = kept.same_commands;
  }

  finish_round-progress :
      (again : Prog MaybeError) (failure : MaybeError) (new : DaemonSet) (m : World)
      → Kept start m
      → failure ≡ none
      → new.resource_version ≡ m.daemonset.resource_version
      → new.name ≡ m.daemonset.name
      → new.spec ≡ m.daemonset.spec
      → R new.annotations
      → (0 < m.conflicts → Safe progress again (with_conflict m) (Succeeds Stored))
      → Safe progress (finish_round lock ctx fn again (failure, new)) m (Succeeds Stored)
  unfolding finish_round
  finish_round-progress again (some e) new m same h version name spec r next = absurd (cc)
  finish_round-progress again none new m same h version name spec r next = (
    version,
    elim [
      | ok stored ↦ λ _. (refl, (r, with_daemonset-Kept m new name spec same))
      | err e ↦ λ (c, left). rw c (tt, λ _ _. next left)
    ],
  )

  modify-progress :
      (rounds : ℕ) (m : World)
      → m.conflicts < rounds
      → m.daemonset.annotations ≡ A
      → Kept start m
      → Safe progress (modify lock ctx fn rounds) m (Succeeds Stored)
  unfolding modify
  modify-progress zero m fewer made same = absurd (omega (arith, fewer))
  modify-progress (suc rounds) m fewer made same = (
    tt,
    λ r expired. rw expired (
      tt,
      λ r' read. rw read (
          Safe-bind progress (fn m.daemonset) _ m (Changes m.daemonset m R) (Succeeds Stored)
            (changes m.daemonset m made)
            λ (failure, new) m' (e, unmoved, version, name, spec, changed). rw unmoved (
              finish_round-progress (modify lock ctx fn rounds) failure new m same e version name
                spec changed
                λ left.
                  modify-progress rounds (with_conflict m) (omega (arith, fewer, left)) made
                    (with_conflict-Kept m same))),
    ),
  )

-- The annotations give the lock this value, and are otherwise those before.
abbrev pub Gives : Lock → String → StringMap → StringMap → Type 0
Gives lock value before after =
    (get_or_empty lock.annotation after ≡ value)
    × ((key : String) → (lock.annotation == key) ≡ false → lookup key after ≡ lookup key before)

module _ (lock : Lock) (named : lock.value ≢ "") where
  lock_value-available :
      (object : DaemonSet) (value : String)
      → test_object lock object ≡ (value, true, true)
      → lock_value lock object ≡ value
  unfolding test_object
  lock_value-available object value h = ground (arith, ap (λ t. t.0) h)

  lock_value-free :
      (object : DaemonSet)
      → test_object lock object ≡ ("", true, false)
      → lock_value lock object ≡ ""
  unfolding test_object
  lock_value-free object h = ground (arith, ap (λ t. t.0) h)

  wait_and_acquire-Changes :
      (ctx : Context) (a : Entries) (object : DaemonSet) (m : World)
      → is_available lock object ≡ true
      → object.annotations ≡ some a
      → Safe progress
          (wait_and_acquire lock ctx object)
          m
          (Changes object m (Gives lock lock.value object.annotations))
  unfolding wait_and_acquire wait acquire_object
  wait_and_acquire-Changes ctx a object m available made =
      let (new, acquired) = (set_lem lock object named a made).0 available in
      rw (available, wait_and_acquire, acquired.writes)
        (
          refl,
          refl,
          acquired.rest.same_version,
          acquired.rest.same_name,
          acquired.rest.same_spec,
          (lock_value-available new lock.value acquired.acquired, acquired.rest.same_others),
        )

  test_object-annotations :
      (object other : DaemonSet)
      → object.annotations ≡ other.annotations
      → test_object lock object ≡ test_object lock other
  unfolding test_object
  test_object-annotations object other same = rw same refl

  -- In a world that does its part, `Acquire` of an available lock, by a node with a name, returns
  -- without an error if its rounds are more than the conflicts: the lock has the node's value, and
  -- the other annotations, the name and the spec of the DaemonSet and the node are as they were.
  -- The annotations must not be the nil map.
  pub acquire-progress :
      (rounds : ℕ) (ctx : Context) (a : Entries) (m : World)
      → m.daemonset.annotations ≡ some a
      → is_available lock m.daemonset ≡ true
      → m.conflicts < rounds
      → Safe progress
          (acquire rounds lock ctx)
          m
          (Succeeds (λ m'. Gives lock lock.value (some a) m'.daemonset.annotations × Kept m m'))
  unfolding acquire
  acquire-progress rounds ctx a m made available fewer =
      modify-progress lock ctx (wait_and_acquire lock ctx) (some a) (Gives lock lock.value (some a))
        m
        (λ object w same.
          subst
            (λ b.
              Safe progress (wait_and_acquire lock ctx object) w
                (Changes object w (Gives lock lock.value b)))
            same
            (wait_and_acquire-Changes ctx a object w
              (ap (λ t. t.1) (test_object-annotations object m.daemonset (same ∙ sym made))
                ∙ available)
              same))
        rounds m fewer made (Kept-refl m)

  release_object-Changes :
      (object : DaemonSet) (m : World)
      → is_acquired lock object ≡ true
      → Safe progress
          (ret (release_object lock object))
          m
          (Changes object m (Gives lock "" object.annotations))
  unfolding release_object
  release_object-Changes object m mine =
      let (new, released) = (clear_lem lock object named).0 mine in
      rw (released.writes) (
        refl,
        refl,
        released.rest.same_version,
        released.rest.same_name,
        released.rest.same_spec,
        (lock_value-free new released.free, released.rest.same_others),
      )

  -- In a world that does its part, `Release` of a lock that the node holds, by a node with a name,
  -- returns without an error if its rounds are more than the conflicts: the lock is free, and the
  -- other annotations, the name and the spec of the DaemonSet and the node are as they were.
  pub release-progress :
      (rounds : ℕ) (m : World)
      → is_acquired lock m.daemonset ≡ true
      → m.conflicts < rounds
      → Safe progress (release rounds lock) m (
          Succeeds
            (λ m'. Gives lock "" m.daemonset.annotations m'.daemonset.annotations × Kept m m'))
  unfolding release
  release-progress rounds m mine fewer =
      modify-progress lock background (λ object. ret (release_object lock object))
        m.daemonset.annotations (Gives lock "" m.daemonset.annotations) m
        (λ object w same.
          subst
            (λ b.
              Safe progress (ret (release_object lock object)) w
                (Changes object w (Gives lock "" b)))
            same
            (release_object-Changes object w
              (ap (λ t. t.2) (test_object-annotations object m.daemonset same) ∙ mine)))
        rounds m fewer refl (Kept-refl m)

  -- A lock that the annotations give the node is acquired, and one that they give nobody is not.
  pub is_acquired-value :
      (object : DaemonSet) → lock_value lock object ≡ lock.value → is_acquired lock object ≡ true
  unfolding test_object
  is_acquired-value object h =
      ground (arith, eq_iff (lock_value lock object) "", eq_iff (lock_value lock object) lock.value)

  pub is_available-free :
      (object : DaemonSet) → lock_value lock object ≡ "" → is_available lock object ≡ true
  unfolding test_object
  is_available-free object h = ground (arith, eq_iff (lock_value lock object) "")
