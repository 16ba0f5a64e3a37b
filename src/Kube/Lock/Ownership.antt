-- ===== src/Kube/Lock/Ownership.antt =====
-- kube/lock.go: the owner of the lock, as `test`, `set` and `clear` see it in an object.
use pharos_host_upgrades.Prelude.{
  ◌∙◌, not, ◌&&◌, ◌<>◌, StringMap, String, ◌≡◌, ◌≢◌, refl, Bool, true, false, none, some, Option,
  ◌==◌, ==-refl, Entries, lookup, get_or_empty, insert, delete, find-insert, lookup-delete, eq_iff,
  arith,
}
use pharos_host_upgrades.Effects.{Error, errorf, DaemonSet, ret}
use pharos_host_upgrades.Kube.Lock.{Lock, lock_value, test_object, assign, set, clear}

-- What a test of the lock sees in an object.
abbrev pub is_available : Lock → DaemonSet → Bool
is_available lock object = (test_object lock object).1

abbrev pub is_acquired : Lock → DaemonSet → Bool
is_acquired lock object = (test_object lock object).2

-- Two objects that differ at most in the lock's annotation.
pub record SameButLock (lock : Lock) (old new : DaemonSet) : Type 0 where
  pub same_name : new.name ≡ old.name
  pub same_version : new.resource_version ≡ old.resource_version
  pub same_spec : new.spec ≡ old.spec
  pub same_others :
      (key : String)
      → (lock.annotation == key) ≡ false
      → lookup key new.annotations ≡ lookup key old.annotations

get_or_empty_of_lookup :
    (key v : String) (m : Option Entries) → lookup key m ≡ some v → get_or_empty key m ≡ v
unfolding get_or_empty
get_or_empty_of_lookup key v m h = ground arith

lookup-insert_self : (key v : String) (m : Entries) → lookup key (some (insert key v m)) ≡ some v
unfolding lookup
lookup-insert_self key v m = ground (arith, find-insert key key v m, ==-refl key)

pub get_or_empty-delete_self : (key : String) (m : StringMap) → get_or_empty key (delete key m) ≡ ""
unfolding get_or_empty
get_or_empty-delete_self key m = ground (arith, lookup-delete key key m, ==-refl key)

lookup-delete_other :
    (key other : String) (m : StringMap)
    → (key == other) ≡ false
    → lookup other (delete key m) ≡ lookup other m
lookup-delete_other key other m differ = ground (arith, lookup-delete key other m, differ)

lookup-insert_other :
    (key other v : String) (m : Entries)
    → (key == other) ≡ false
    → lookup other (some (insert key v m)) ≡ lookup other (some m)
unfolding lookup
lookup-insert_other key other v m differ = ground (arith, find-insert key other v m, differ)

module _ (lock : Lock) (object : DaemonSet) where
  -- What a successful `set` leaves.
  pub record Acquired (new : DaemonSet) : Type 0 where
    pub writes : set lock object ≡ ret (none, new)
    pub acquired : test_object lock new ≡ (lock.value, true, true)
    pub rest : SameButLock lock object new

  -- What a successful `clear` leaves.
  pub record Released (new : DaemonSet) : Type 0 where
    pub writes : clear lock object ≡ (none, new)
    pub free : test_object lock new ≡ ("", true, false)
    pub rest : SameButLock lock object new

  module _ (named : lock.value ≢ "") where
    test_object_of_value :
        (new : DaemonSet)
        → lock_value lock new ≡ lock.value
        → test_object lock new ≡ (lock.value, true, true)
    unfolding test_object
    test_object_of_value new h =
        ground (arith, eq_iff (lock_value lock new) "", eq_iff (lock_value lock new) lock.value)

    busy_test :
        (b : Bool)
        → is_available lock object ≡ b
        → (not (lock_value lock object == "") && not (lock_value lock object == lock.value)) ≡ not b
    unfolding test_object
    busy_test b h = ground arith

    pub own_test :
        (b : Bool) → is_acquired lock object ≡ b → (lock_value lock object == lock.value) ≡ b
    unfolding test_object
    own_test b h =
        ground
          (arith, eq_iff (lock_value lock object) "", eq_iff (lock_value lock object) lock.value)

    test_object-delete :
        test_object lock (record object { annotations = delete lock.annotation object.annotations })
        ≡ ("", true, false)
    unfolding test_object
    test_object-delete = rw (get_or_empty-delete_self lock.annotation object.annotations) refl

    assigned :
        (m : Entries)
        → object.annotations ≡ some m
        → set lock object ≡ assign lock.annotation lock.value object.annotations object
        → (new : DaemonSet) × Acquired new
    unfolding assign
    assigned m made e = (
      record object { annotations = some (insert lock.annotation lock.value m) },
      record {
        writes = e ∙ rw (made, assign) refl;
        acquired = test_object_of_value _ (
            get_or_empty_of_lookup lock.annotation lock.value _
              (lookup-insert_self lock.annotation lock.value m));
        rest = record {
          same_name = refl;
          same_version = refl;
          same_spec = refl;
          same_others =
              λ key other. rw made (lookup-insert_other lock.annotation key lock.value m other);
        };
      },
    )

    -- For a lock whose value is not empty, and an object whose annotations are not the nil map:
    -- `set` succeeds on an available lock, and then the node has acquired it and nothing else has
    -- changed; on a lock that is not available it fails and leaves the object alone.
    pub set_lem :
        (m : Entries)
        → object.annotations ≡ some m
        → (is_available lock object ≡ true → (new : DaemonSet) × Acquired new)
          × (is_available lock object ≡ false
              → (e : Error) × (set lock object ≡ ret (some e, object)))
    unfolding set
    set_lem m made = (
      λ free. assigned m made (let other = busy_test true free in rw (other, set) refl),
      λ busy. (
        errorf ("Busy lock: " <> lock.annotation <> "=" <> lock_value lock object),
        let other = busy_test false busy in rw (other, set) refl,
      ),
    )

    -- For a lock whose value is not empty: `clear` succeeds where the node has acquired the lock,
    -- and then the lock is free and nothing else has changed; elsewhere it fails and leaves the
    -- object alone.
    pub clear_lem :
        (is_acquired lock object ≡ true → (new : DaemonSet) × Released new)
        × (is_acquired lock object ≡ false → (e : Error) × (clear lock object ≡ (some e, object)))
    unfolding clear
    clear_lem = (
      λ mine. (
        record object { annotations = delete lock.annotation object.annotations },
        record {
          writes = let own = own_test true mine in rw (own, clear) refl;
          free = test_object-delete;
          rest = record {
            same_name = refl;
            same_version = refl;
            same_spec = refl;
            same_others =
                λ key other. lookup-delete_other lock.annotation key object.annotations other;
          };
        },
      ),
      λ other. (
        errorf (
            "Broken lock: "
            <> lock.annotation
            <> "="
            <> lock_value lock object
            <> ", expected "
            <> lock.value),
        let not_own = own_test false other in rw (not_own, clear) refl,
      ),
    )
