-- ===== src/Protocol.antt =====
-- The rules of the lock, as a monitor of one node's calls (kube/lock.go and the README's "DaemonSet
-- Locking"): a node writes the DaemonSet only from a read copy in which the lock was free or its
-- own, and leaves it so; and it upgrades, drains or reboots only while it holds the lock.
pub mod LockCalls
mod NodeCalls
mod KubeCalls
pub mod RunCalls
mod ConfigCalls
pub mod MainCalls
pub mod Host
pub mod Release
pub mod Window
pub mod Turns
use mathlib.Core.List.{Memᴰ}
use pharos_host_upgrades.Prelude.{
  String, refl, get_or_empty, ◌≡◌, Bool, true, false, ◌&&◌, ◌⊎◌, List, [], ◌∷◌, ◌==◌,
}
use pharos_host_upgrades.Effects.{
  ok, err, DaemonSet, Op, Resp, kube, process, system, get_daemonset, update_daemonset, watch_until,
  run_command, receive_start, ctx_err, start_transient_unit, receive_job_result, login1_reboot,
}
use pharos_host_upgrades.Effects.Logic.{Monitor, Ignores}
use pharos_host_upgrades.Kube.Lock.{Lock}

-- What identifies a lock and its owner: the fields of `Lock` without the client.
pub record LockId : Type 0 where
  pub namespace : String
  pub name : String
  pub annotation : String
  pub value : String

abbrev pub lock_id : Lock → LockId
lock_id lock = record {
  namespace = lock.namespace;
  name = lock.name;
  annotation = lock.annotation;
  value = lock.value;
}

-- The annotation as Go reads it.
abbrev pub value_in : LockId → DaemonSet → String
value_in id object = get_or_empty id.annotation object.annotations

-- What a node knows: the copies that it has read, and whether it surely holds the lock.
pub record Local : Type 0 where
  pub known : List DaemonSet
  pub held : Bool

abbrev pub start : Local
start = record { known = []; held = false }

-- Calls that only the holder of the lock may make: kubectl, the start of an upgrade and the wait for
-- its end, and the reboot.
abbrev pub is_critical : Op → Bool
is_critical (process (run_command _ _)) = true
is_critical (system (start_transient_unit _ _ _ _)) = true
is_critical (system receive_job_result) = true
is_critical (system (login1_reboot _)) = true
is_critical _ = false

module _ (id : LockId) where
  abbrev pub IsFreeOrMine : DaemonSet → Type 0
  IsFreeOrMine object = (value_in id object ≡ "") ⊎ (value_in id object ≡ id.value)

  -- `new` replaces a copy that was read while the lock was free or the node's own.
  abbrev pub CanWrite : Local → DaemonSet → Type 0
  CanWrite m new =
      (old : DaemonSet) × Memᴰ old m.known
      × (old.resource_version ≡ new.resource_version)
      × IsFreeOrMine old
      × IsFreeOrMine new

  abbrev pub Allowed : Local → Op → Type 0
  Allowed m (kube (get_daemonset _ namespace name)) = (namespace ≡ id.namespace) × (name ≡ id.name)
  Allowed m (kube (update_daemonset _ namespace new)) = (namespace ≡ id.namespace) × CanWrite m new
  Allowed m (process (run_command _ _)) = m.held ≡ true
  Allowed m (system (start_transient_unit _ _ _ _)) = m.held ≡ true
  Allowed m (system receive_job_result) = m.held ≡ true
  Allowed m (system (login1_reboot _)) = m.held ≡ true
  Allowed m _ = Unit {0}

  -- `watch.Until` returns an event that its condition accepts.
  abbrev pub Answers : Local → (o : Op) → Resp o → Type 0
  Answers m (kube (watch_until _ _ condition)) (ok ev) = condition ev ≡ ok true
  Answers m _ _ = Unit {0}

  -- A failed update may have been applied, so it never establishes that the lock is held.
  abbrev pub learn : Local → (o : Op) → Resp o → Local
  learn m (kube (get_daemonset _ _ _)) (ok object) = record m { known = object ∷ m.known }
  learn m (kube (watch_until _ _ _)) (ok ev) = record m { known = ev.object ∷ m.known }
  learn m (kube (update_daemonset _ _ new)) (ok _) = record m { held = value_in id new == id.value }
  learn m (kube (update_daemonset _ _ new)) (err _) = record m {
    held = m.held && (value_in id new == id.value);
  }
  learn m _ _ = m

  abbrev pub protocol : Monitor Local
  protocol = record { Pre = Allowed; Admits = Answers; next = learn; Out = λ _. Unit {0} }

-- Calls that the lock does not concern, without the receive of a start and the look at a context.
abbrev pub IsQuiet : Op → Type 0
IsQuiet (kube (get_daemonset _ _ _)) = ⊥
IsQuiet (kube (update_daemonset _ _ _)) = ⊥
IsQuiet (kube (watch_until _ _ _)) = ⊥
IsQuiet (process (run_command _ _)) = ⊥
IsQuiet (process receive_start) = ⊥
IsQuiet (process (ctx_err _)) = ⊥
IsQuiet (system (start_transient_unit _ _ _ _)) = ⊥
IsQuiet (system receive_job_result) = ⊥
IsQuiet (system (login1_reboot _)) = ⊥
IsQuiet _ = Unit {0}

-- Calls that do not touch the DaemonSet, without the receive of a start and the look at a context.
abbrev pub IsApart : Op → Type 0
IsApart (kube (get_daemonset _ _ _)) = ⊥
IsApart (kube (update_daemonset _ _ _)) = ⊥
IsApart (kube (watch_until _ _ _)) = ⊥
IsApart (process receive_start) = ⊥
IsApart (process (ctx_err _)) = ⊥
IsApart _ = Unit {0}

IsQuiet-Allowed : (id : LockId) (m : Local) (o : Op) → IsQuiet o → Allowed id m o
IsQuiet-Allowed id m (kube (get_daemonset _ _ _)) q = absurd q
IsQuiet-Allowed id m (kube (update_daemonset _ _ _)) q = absurd q
IsQuiet-Allowed id m (process (run_command _ _)) q = absurd q
IsQuiet-Allowed id m (system (start_transient_unit _ _ _ _)) q = absurd q
IsQuiet-Allowed id m (system receive_job_result) q = absurd q
IsQuiet-Allowed id m (system (login1_reboot _)) q = absurd q
IsQuiet-Allowed id m _ q = tt

IsQuiet-learn : (id : LockId) (m : Local) (o : Op) (r : Resp o) → IsQuiet o → learn id m o r ≡ m
IsQuiet-learn id m (kube (get_daemonset _ _ _)) r q = absurd q
IsQuiet-learn id m (kube (update_daemonset _ _ _)) r q = absurd q
IsQuiet-learn id m (kube (watch_until _ _ _)) r q = absurd q
IsQuiet-learn id m _ r q = refl

IsApart-Allowed : (id : LockId) (m : Local) → m.held ≡ true → (o : Op) → IsApart o → Allowed id m o
IsApart-Allowed id m held (kube (get_daemonset _ _ _)) q = absurd q
IsApart-Allowed id m held (kube (update_daemonset _ _ _)) q = absurd q
IsApart-Allowed id m held (process (run_command _ _)) q = held
IsApart-Allowed id m held (system (start_transient_unit _ _ _ _)) q = held
IsApart-Allowed id m held (system receive_job_result) q = held
IsApart-Allowed id m held (system (login1_reboot _)) q = held
IsApart-Allowed id m held _ q = tt

IsApart-learn : (id : LockId) (m : Local) (o : Op) (r : Resp o) → IsApart o → learn id m o r ≡ m
IsApart-learn id m (kube (get_daemonset _ _ _)) r q = absurd q
IsApart-learn id m (kube (update_daemonset _ _ _)) r q = absurd q
IsApart-learn id m (kube (watch_until _ _ _)) r q = absurd q
IsApart-learn id m _ r q = refl

-- The holder may make any call that does not touch the DaemonSet.
pub IsApart-Ignores : (id : LockId) (m : Local) → m.held ≡ true → Ignores (protocol id) IsApart m
IsApart-Ignores id m held = record {
  allowed = IsApart-Allowed id m held;
  unmoved = IsApart-learn id m;
  ends = tt;
}

pub IsQuiet-Ignores : (id : LockId) (m : Local) → Ignores (protocol id) IsQuiet m
IsQuiet-Ignores id m = record {
  allowed = IsQuiet-Allowed id m;
  unmoved = IsQuiet-learn id m;
  ends = tt;
}

pub IsQuiet-IsApart : (o : Op) → IsQuiet o → IsApart o
IsQuiet-IsApart (kube (get_daemonset _ _ _)) q = absurd q
IsQuiet-IsApart (kube (update_daemonset _ _ _)) q = absurd q
IsQuiet-IsApart (kube (watch_until _ _ _)) q = absurd q
IsQuiet-IsApart (process receive_start) q = absurd q
IsQuiet-IsApart (process (ctx_err _)) q = absurd q
IsQuiet-IsApart _ q = tt
