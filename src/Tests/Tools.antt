-- ===== src/Tests/Tools.antt =====
-- Stand-ins for the libraries that the program calls: a time is written in unary.
use text.Mathlib.TextLemmas.{length-append}
use Prim.Native.String.{count}
use pharos_host_upgrades.Prelude.{
  ℕ, suc, zero, String, ◌<>◌, ◌≡◌, refl, ap, sym, ◌∙◌, ◌≢◌, some, List, [], ◌∷◌, arith,
}
use pharos_host_upgrades.Effects.{ok, err, errorf, Time, Result}
use pharos_host_upgrades.External.{External}
use pharos_host_upgrades.Kube.Retry.{default_backoff}

abbrev pub unary : ℕ → String
unary zero = ""
unary (suc n) = "x" <> unary n

count-unary : (n : ℕ) → count (unary n) ≡ n
count-unary zero = refl
count-unary (suc n) =
    let appended = length-append "x" (unary n) in
    let counted = count-unary n in omega (arith, appended, counted)

-- The name of each node.
abbrev pub node_name : ℕ → String
node_name i = unary (suc i)

pub node_name-distinct : (i j : ℕ) → node_name i ≡ node_name j → i ≡ j
node_name-distinct i j e =
    let same = sym (count-unary (suc i)) ∙ ap count e ∙ count-unary (suc j) in omega (arith, same)

pub node_name-ne_empty : (i : ℕ) → node_name i ≢ ""
node_name-ne_empty i e = let same = sym (count-unary (suc i)) ∙ ap count e in omega (arith, same)

abbrev unary_time : Time → Result String
unary_time t = ok (unary t)

abbrev read_unary : Result String → Result Time
read_unary (ok s) = ok (count s)
read_unary (err e) = err e

pub unmarshal-marshal_unary :
    (t : Time) (s : String) → unary_time t ≡ ok s → Path (Result Time) (ok (count s)) (ok t)
unmarshal-marshal_unary t s e = sym (ap read_unary e) ∙ ap ok (count-unary t)

unfoldable pub tools : External
tools = record {
  retry = default_backoff;
  marshal_time = unary_time;
  unmarshal_time = λ s. ok (count s);
  unmarshal-marshal = unmarshal-marshal_unary;
  error_text = λ e. "error";
  join_path = join;
  find_submatch = λ pattern text. some text;
  fields = λ text. text ∷ [];
  scan_int = λ text. err (errorf "expected integer");
  parse_standard = λ text. ok 0;
}
  where
    join : List String → String
    join [] = ""
    join (s ∷ ss) = s <> "/" <> join ss
