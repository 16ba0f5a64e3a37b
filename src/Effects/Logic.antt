-- ===== src/Effects/Logic.antt =====
-- A monitor watches the calls of a program: what must hold of a call when it is made, which answers
-- are considered, and how the monitor's state moves with an answer. `Safe` says that a program
-- meets its monitor whatever the answers are, and ends in `Q`.
use pharos_host_upgrades.Prelude.{◌≡◌, refl, Bool, true, false, if◌then◌else◌}
use pharos_host_upgrades.Effects.Ops.{Op, Resp}
use pharos_host_upgrades.Effects.Programs.{Prog, ret, call, out_of_rounds, ◌>>=◌}

pub record Monitor (M : Type 0) : Type 1 where
  pub Pre : M → Op → Type 0
  pub Admits : M → (o : Op) → Resp o → Type 0
  pub next : M → (o : Op) → Resp o → M
  -- What must hold where a loop uses up its rounds: `⊥` to show that it does not.
  pub Out : M → Type 0

module _ {M : Type 0} (w : Monitor M) where
  abbrev pub Safe : {A : Type 0} → Prog A → M → (A → M → Type 0) → Type 0
  Safe (ret a) m Q = Q a m
  Safe (call o k) m Q = w.Pre m o × ((r : Resp o) → w.Admits m o r → Safe (k r) (w.next m o r) Q)
  Safe out_of_rounds m Q = w.Out m

  pub Safe-weaken :
      {A : Type 0} (p : Prog A) (m : M) {Q R : A → M → Type 0}
      → ((a : A) (m' : M) → Q a m' → R a m')
      → Safe p m Q
      → Safe p m R
  Safe-weaken (ret a) m h s = h a m s
  Safe-weaken (call o k) m h s = (s.0, λ r a. Safe-weaken (k r) (w.next m o r) h (s.1 r a))
  Safe-weaken out_of_rounds m h s = s

  pub Safe-bind :
      {A B : Type 0} (p : Prog A) (f : A → Prog B) (m : M) (Q : A → M → Type 0) (R : B → M → Type 0)
      → Safe p m Q
      → ((a : A) (m' : M) → Q a m' → Safe (f a) m' R)
      → Safe (p >>= f) m R
  Safe-bind (ret a) f m Q R s h = h a m s
  Safe-bind (call o k) f m Q R s h = (s.0, λ r a. Safe-bind (k r) f (w.next m o r) Q R (s.1 r a) h)
  Safe-bind out_of_rounds f m Q R s h = s

  pub Safe-if :
      {A : Type 0} (b : Bool) (p q : Prog A) (m : M) (Q : A → M → Type 0)
      → (b ≡ true → Safe p m Q)
      → (b ≡ false → Safe q m Q)
      → Safe (if b then p else q) m Q
  Safe-if true p q m Q h k = h refl
  Safe-if false p q m Q h k = k refl

-- A program that is safe whatever the answers is safe with fewer of them.
pub Safe-admits :
    {M : Type 0} (w : Monitor M) (Admits : M → (o : Op) → Resp o → Type 0)
    → ((m : M) (o : Op) (r : Resp o) → Admits m o r → w.Admits m o r)
    → {A : Type 0} (p : Prog A) (m : M) (Q : A → M → Type 0) → Safe w p m Q
    → Safe (record w { Admits = Admits }) p m Q
Safe-admits w Admits h (ret a) m Q s = s
Safe-admits w Admits h (call o k) m Q s =
    (s.0, λ r a. Safe-admits w Admits h (k r) (w.next m o r) Q (s.1 r (h m o r a)))
Safe-admits w Admits h out_of_rounds m Q s = s

-- The monitor with every call allowed.
abbrev pub permissive : {M : Type 0} → Monitor M → Monitor M
permissive w = record w { Pre = λ _ _. Unit {0}; Out = λ _. Unit {0} }

module _ {M : Type 0} (w : Monitor M) where
  pub Safe-permissive :
      {A : Type 0} (p : Prog A) (m : M) (Q : A → M → Type 0)
      → Safe w p m Q
      → Safe (permissive w) p m Q
  Safe-permissive (ret a) m Q s = s
  Safe-permissive (call o k) m Q s = (tt, λ r a. Safe-permissive (k r) (w.next m o r) Q (s.1 r a))
  Safe-permissive out_of_rounds m Q s = tt

  pub Safe-anyhow : {A : Type 0} (p : Prog A) (m : M) → Safe (permissive w) p m (λ _ _. Unit {0})
  Safe-anyhow (ret a) m = tt
  Safe-anyhow (call o k) m = (tt, λ r _. Safe-anyhow (k r) (w.next m o r))
  Safe-anyhow out_of_rounds m = tt

-- Every call that a program can make satisfies `P`.
module _ (P : Op → Type 0) where
  abbrev pub Within : {A : Type 0} → Prog A → Type 0
  Within (ret a) = Unit {0}
  Within (call o k) = P o × ((r : Resp o) → Within (k r))
  Within out_of_rounds = Unit {0}

  pub Within-bind :
      {A B : Type 0} (p : Prog A) (f : A → Prog B)
      → Within p
      → ((a : A) → Within (f a))
      → Within (p >>= f)
  Within-bind (ret a) f w h = h a
  Within-bind (call o k) f w h = (w.0, λ r. Within-bind (k r) f (w.1 r) h)
  Within-bind out_of_rounds f w h = tt

  pub Within-if :
      {A : Type 0} (b : Bool) (p q : Prog A) → Within p → Within q → Within (if b then p else q)
  Within-if true p q h k = h
  Within-if false p q h k = k

-- A stricter bound on the calls.
pub Within-weaken :
    (P Q : Op → Type 0)
    → ((o : Op) → P o → Q o)
    → {A : Type 0} (p : Prog A) → Within P p
    → Within Q p
Within-weaken P Q h (ret a) w = tt
Within-weaken P Q h (call o k) w = (h o w.0, λ r. Within-weaken P Q h (k r) (w.1 r))
Within-weaken P Q h out_of_rounds w = tt

-- Calls that a monitor allows in a state, and that leave it there.
pub record Ignores {M : Type 0} (w : Monitor M) (P : Op → Type 0) (m : M) : Type 0 where
  pub allowed : (o : Op) → P o → w.Pre m o
  pub unmoved : (o : Op) (r : Resp o) → P o → w.next m o r ≡ m
  pub ends : w.Out m

pub Safe-Within :
    {M : Type 0} (w : Monitor M) (P : Op → Type 0) (m : M)
    → Ignores w P m
    → {A : Type 0} (p : Prog A) → Within P p
    → Safe w p m (λ _ m'. m' ≡ m)
Safe-Within w P m i (ret a) h = refl
Safe-Within w P m i (call o k) h =
    (i.allowed o h.0, λ r _. rw (i.unmoved o r h.0) (Safe-Within w P m i (k r) (h.1 r)))
Safe-Within w P m i out_of_rounds h = i.ends
