-- ===== src/Effects/Returns.antt =====
-- What a program can return, if its calls are answered as they may be.
use pharos_host_upgrades.Prelude.{◌≡◌, refl}
use pharos_host_upgrades.Effects.Ops.{Resp}
use pharos_host_upgrades.Effects.Programs.{Prog, ret, call, out_of_rounds, ◌>>=◌}

-- There are answers to the calls of the program with which it returns the value.
abbrev pub Returns : {A : Type 0} → Prog A → A → Type 0
Returns (ret b) a = b ≡ a
Returns (call o k) a = (r : Resp o) × Returns (k r) a
Returns out_of_rounds a = ⊥

pub Returns-bind :
    {A B : Type 0} (p : Prog A) (f : A → Prog B) (b : B)
    → Returns (p >>= f) b
    → (a : A) × Returns p a × Returns (f a) b
Returns-bind (ret a) f b returns = (a, refl, returns)
Returns-bind (call o k) f b (r, returns) =
    let (a, first, second) = Returns-bind (k r) f b returns in (a, (r, first), second)
Returns-bind out_of_rounds f b n = absurd n

pub bind-Returns :
    {A B : Type 0} (p : Prog A) (f : A → Prog B) (a : A) (b : B)
    → Returns p a
    → Returns (f a) b
    → Returns (p >>= f) b
bind-Returns (ret a') f a b same second = rw same second
bind-Returns (call o k) f a b (r, first) second = (r, bind-Returns (k r) f a b first second)
bind-Returns out_of_rounds f a b n second = absurd n
