-- ===== src/Effects/Programs.antt =====
-- A program: it returns, or makes a call and goes on from the answer. Nothing is assumed of answers
-- here: `runs` plays a program against one handler, and `Logic` reads it against all answers.
use pharos_host_upgrades.Prelude.{◌≡◌, refl, ap, String, Option, none, some}
use mathlib.Core.Path.{fun_ext}
use pharos_host_upgrades.Effects.Ops.{
  Op, Resp, kube, process, file, system, KubeOp, KubeResp, ProcessOp, ProcessResp, FileOp, FileResp,
  SystemOp, SystemResp, panics, log_fatal,
}
use pharos_host_upgrades.Effects.Errors.{Error}

pub data Prog (A : Type 0) : Type 0 where
  ret : A → Prog A
  call : (o : Op) → (Resp o → Prog A) → Prog A
  -- A loop was given a number of rounds and has used them up.
  out_of_rounds : Prog A

infixl 5 ◌>>=◌ ◌>>◌
abbrev pub ◌>>=◌ : {A B : Type 0} → Prog A → (A → Prog B) → Prog B
ret a >>= f = f a
call o k >>= f = call o (λ r. k r >>= f)
out_of_rounds >>= f = out_of_rounds

abbrev pub ◌>>◌ : {A B : Type 0} → Prog A → Prog B → Prog B
m >> n = m >>= λ _. n

abbrev pub ask_kube : (o : KubeOp) → Prog (KubeResp o)
ask_kube o = call (kube o) (λ r. ret r)

abbrev pub ask_process : (o : ProcessOp) → Prog (ProcessResp o)
ask_process o = call (process o) (λ r. ret r)

abbrev pub ask_file : (o : FileOp) → Prog (FileResp o)
ask_file o = call (file o) (λ r. ret r)

abbrev pub ask_system : (o : SystemOp) → Prog (SystemResp o)
ask_system o = call (system o) (λ r. ret r)

abbrev pub panic : {A : Type 0} → String → Prog A
panic text = call (process (panics text)) (λ r. absurd r)

abbrev pub fatal : {A : Type 0} → Error → Prog A
fatal e = call (process (log_fatal e)) (λ r. absurd r)

-- The answers of a handler with a state of its own; `none` is the end of the process, which is the
-- only answer to a panic or a fatal error.
abbrev pub Handler : Type 0 → Type 0
Handler S = (o : Op) → S → Option (Resp o) × S

unfoldable pub runs : {A S : Type 0} → Handler S → Prog A → S → Option A × S
runs h (ret a) s = (some a, s)
runs h (call o k) s =
    let (answer, s') = h o s in elim answer [ none ↦ (none, s') | some r ↦ runs h (k r) s' ]
runs h out_of_rounds s = (none, s)

pub >>=-ret : {A : Type 0} (m : Prog A) → (m >>= λ a. ret a) ≡ m
>>=-ret (ret a) = refl
>>=-ret (call o k) = ap (call o) (fun_ext λ r. >>=-ret (k r))
>>=-ret out_of_rounds = refl

pub >>=-assoc :
    {A B C : Type 0} (m : Prog A) (f : A → Prog B) (g : B → Prog C)
    → (m >>= f >>= g) ≡ (m >>= λ a. f a >>= g)
>>=-assoc (ret a) f g = refl
>>=-assoc (call o k) f g = ap (call o) (fun_ext λ r. >>=-assoc (k r) f g)
>>=-assoc out_of_rounds f g = refl
