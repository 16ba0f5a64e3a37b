-- ===== src/Cluster/Knowledge.antt =====
-- What a node knows of the server, after an answer and after the write of another node.
use mathlib.Core.List.{Memᴰ}
use pharos_host_upgrades.Prelude.{
  String, ◌<◌, ◌≡◌, refl, sym, ◌∙◌, ◌≢◌, inl, inr, Bool, true, false, ◌&&◌, ◌∷◌, ◌==◌, eq_iff,
  arith, get_or_empty, ap, subst, StringMap, lookup,
}
use pharos_host_upgrades.Effects.{
  ok, err, DaemonSet, Op, Resp, kube, get_daemonset, update_daemonset, watch_until,
}
use pharos_host_upgrades.Main.Kube.{kube_lock_annotation}
use pharos_host_upgrades.Protocol.{Local, LockId, value_in, CanWrite, IsFreeOrMine, Allowed, learn}
use pharos_host_upgrades.Cluster.{Server, Applied, Answered, Touched}

and-left : (a b : Bool) → (a && b) ≡ true → a ≡ true
and-left true b h = refl
and-left false b h = h

and-right : (a b : Bool) → (a && b) ≡ true → b ≡ true
and-right true b h = h
and-right false b h = cc

-- Versions only grow.
abbrev pub IsHistory : Server → Type 0
IsHistory s =
    (old : DaemonSet) → Memᴰ old s.past → old.resource_version < s.current.resource_version

-- The copies that a node has read are the server's, and if it holds the lock the server says so.
pub record Knows (s : Server) (id : LockId) (m : Local) : Type 0 where
  pub read : (old : DaemonSet) → Memᴰ old m.known → Memᴰ old (s.current ∷ s.past)
  pub holds : m.held ≡ true → value_in id s.current ≡ id.value

-- A copy that the server has had at its current version is the current object.
same_version :
    (s : Server) (old : DaemonSet)
    → IsHistory s
    → Memᴰ old (s.current ∷ s.past)
    → old.resource_version ≡ s.current.resource_version
    → old ≡ s.current
same_version s old history (Memᴰ.head e) same = e
same_version s old history (Memᴰ.tail m) same = absurd (omega (arith, history old m))

-- The server after a write.
abbrev grown : Server → DaemonSet → Server
grown s new = record { current = new; past = s.current ∷ s.past }

grown-IsHistory :
    (s : Server) (new : DaemonSet)
    → s.current.resource_version < new.resource_version
    → IsHistory s
    → IsHistory (grown s new)
grown-IsHistory s new later history old (Memᴰ.head e) =
    omega (arith, ap (λ (d : DaemonSet). d.resource_version) e)
grown-IsHistory s new later history old (Memᴰ.tail m) = omega (arith, history old m)

-- A write keeps what a node knows, if the lock is still the node's wherever it was.
grown-Knows :
    (s : Server) (new : DaemonSet) (id : LockId) (m : Local)
    → Knows s id m
    → (m.held ≡ true → value_in id new ≡ id.value)
    → Knows (grown s new) id m
grown-Knows s new id m knows kept = record {
  read = λ old known. Memᴰ.tail (knows.read old known);
  holds = kept;
}

-- The writer found the lock free or its own.
writer-IsFreeOrMine :
    (s : Server) (new : DaemonSet) (id : LockId) (m : Local)
    → IsHistory s
    → Knows s id m
    → new.resource_version ≡ s.current.resource_version
    → CanWrite id m new
    → IsFreeOrMine id s.current
writer-IsFreeOrMine s new id m history knows at_current (old, known, version, free, free') =
    subst (IsFreeOrMine id)
      (same_version s old history (knows.read old known) (version ∙ at_current)) free

-- Two nodes of one lock.
pub record Rivals (id other : LockId) : Type 0 where
  pub same_annotation : id.annotation ≡ other.annotation
  pub named : other.value ≢ ""
  pub distinct : id.value ≢ other.value

-- So no other node held it.
others_free :
    (id other : LockId) (current : DaemonSet)
    → Rivals id other
    → IsFreeOrMine id current
    → value_in other current ≢ other.value
others_free id other current r (inl free) theirs =
    r.named
      (sym theirs ∙ ap (λ a. get_or_empty a current.annotations) (sym r.same_annotation) ∙ free)
others_free id other current r (inr mine) theirs =
    r.distinct (sym mine ∙ ap (λ a. get_or_empty a current.annotations) r.same_annotation ∙ theirs)

-- What a call of a node leaves: the history, what the node has read, and what a rival knew.
pub record Outcome (s' : Server) (id : LockId) (m' : Local) (other : LockId) (n : Local)
    : Type 0 where
  pub history : IsHistory s'
  pub own : Knows s' id m'
  pub rival : Rivals id other → Knows s' other n

module _ (s : Server) (id : LockId) (m : Local) (other : LockId) (n : Local) (history : IsHistory s)
    (knows : Knows s id m) (rival_knows : Knows s other n) where
  unchanged : (s' : Server) → s' ≡ s → Outcome s' id m other n
  unchanged s' e =
      subst (λ t. Outcome t id m other n) (sym e)
        (record { history = history; own = knows; rival = λ _. rival_knows })

  Applied-Outcome :
      (s' : Server) (new : DaemonSet) (held : Bool)
      → (held ≡ true → value_in id new ≡ id.value)
      → CanWrite id m new
      → Applied s new s'
      → Outcome s' id (record m { held = held }) other n
  Applied-Outcome s' new held kept can (version, later, at_current, e) =
      let stored = record new { resource_version = version } in
      let free = writer-IsFreeOrMine s new id m history knows at_current can in
      subst (λ t. Outcome t id (record m { held = held }) other n) (sym e)
        (record {
          history = grown-IsHistory s stored later history;
          own = record { read = λ old known. Memᴰ.tail (knows.read old known); holds = kept };
          rival = λ r.
              grown-Knows s stored other n rival_knows (λ theirs.
                absurd (others_free id other s.current r free (rival_knows.holds theirs)));
        })

  less_held-Outcome :
      (s' : Server) (b : Bool) → s' ≡ s → Outcome s' id (record m { held = m.held && b }) other n
  less_held-Outcome s' b e =
      subst (λ t. Outcome t id (record m { held = m.held && b }) other n) (sym e)
        (record {
          history = history;
          own = record { read = knows.read; holds = λ h. knows.holds (and-left m.held b h) };
          rival = λ _. rival_knows;
        })

  -- A copy that the server has had is read_copy-Outcome.
  read_copy-Outcome :
      (s' : Server) (object : DaemonSet)
      → Memᴰ object (s.current ∷ s.past)
      → s' ≡ s
      → Outcome s' id (record m { known = object ∷ m.known }) other n
  read_copy-Outcome s' object had e =
      subst (λ t. Outcome t id (record m { known = object ∷ m.known }) other n) (sym e)
        (record {
          history = history;
          own = record { read = read_more; holds = knows.holds };
          rival = λ _. rival_knows;
        })
    where
      read_more : (old : DaemonSet) → Memᴰ old (object ∷ m.known) → Memᴰ old (s.current ∷ s.past)
      read_more old (Memᴰ.head same) = subst (λ d. Memᴰ d (s.current ∷ s.past)) (sym same) had
      read_more old (Memᴰ.tail known) = knows.read old known

  pub Answered-Outcome :
      (o : Op) (r : Resp o) (s' : Server)
      → Allowed id m o
      → Answered s o r s'
      → Outcome s' id (learn id m o r) other n
  Answered-Outcome (kube (get_daemonset _ _ _)) (ok object) s' can (e, same) =
      read_copy-Outcome s' object (Memᴰ.head e) same
  Answered-Outcome (kube (update_daemonset _ _ new)) (ok stored) s' (_, can) (applied, _) =
      Applied-Outcome s' new (value_in id new == id.value) (λ h. (eq_iff _ _).0 h) can applied
  Answered-Outcome (kube (update_daemonset _ _ new)) (err e) s' (_, can) (inl same) =
      less_held-Outcome s' (value_in id new == id.value) same
  Answered-Outcome (kube (update_daemonset _ _ new)) (err e) s' (_, can) (inr (_, applied)) =
      Applied-Outcome s' new (m.held && (value_in id new == id.value))
        (λ h. (eq_iff _ _).0 (and-right m.held _ h)) can applied
  Answered-Outcome (kube (watch_until _ _ _)) (ok ev) s' can (_, had, same) =
      read_copy-Outcome s' ev.object had same
  Answered-Outcome _ _ s' can same = unchanged s' same

pub Touched-IsHistory : (s s' : Server) → IsHistory s → Touched s s' → IsHistory s'
Touched-IsHistory s s' history (new, later, _, e) =
    subst IsHistory (sym e) (grown-IsHistory s new later history)

same_value :
    (k : String) (x y : StringMap) → lookup k x ≡ lookup k y → get_or_empty k x ≡ get_or_empty k y
unfolding get_or_empty
same_value k x y h = ground arith

pub Touched-Knows :
    (s s' : Server) (id : LockId) (m : Local)
    → id.annotation ≡ kube_lock_annotation
    → Knows s id m
    → Touched s s'
    → Knows s' id m
Touched-Knows s s' id m ours knows (new, later, same, e) =
    subst (λ t. Knows t id m) (sym e)
      (grown-Knows s new id m knows λ held.
        ap (λ a. get_or_empty a new.annotations) ours
        ∙ same_value kube_lock_annotation new.annotations s.current.annotations same
        ∙ ap (λ a. get_or_empty a s.current.annotations) (sym ours)
        ∙ knows.holds held)
