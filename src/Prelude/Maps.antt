-- ===== src/Prelude/Maps.antt =====
-- A Go `map[string]string`: `none` is the nil map. Reads and deletes of a nil map are no-ops, and
-- a write to one panics, so only a made map has `insert`.
use Prim.Native.String.{String}
use mathlib.Core.Path.{◌≡◌, refl}
use mathlib.Core.Option.{Option, none, some}
use mathlib.Core.List.{List, [], ◌∷◌}
use native.Mathlib.Omega.{arith}
use text.Mathlib.TextEquality.{eq_iff}
use pharos_host_upgrades.Prelude.Tests.{◌==◌, if◌then◌else◌}

abbrev pub Entries : Type 0
Entries = List (String × String)

abbrev pub StringMap : Type 0
StringMap = Option Entries

-- `v, ok := m[k]` on the entries
unfoldable pub find : String → Entries → Option String
find k [] = none
find k ((j, v) ∷ m) = if j == k then some v else find k m

unfoldable pub insert : String → String → Entries → Entries
insert k v [] = (k, v) ∷ []
insert k v ((j, w) ∷ m) = if j == k then (k, v) ∷ m else (j, w) ∷ insert k v m

unfoldable pub remove : String → Entries → Entries
remove k [] = []
remove k ((j, w) ∷ m) = let rest = remove k m in if j == k then rest else (j, w) ∷ rest

-- `v, ok := m[k]`
unfoldable pub lookup : String → StringMap → Option String
lookup k none = none
lookup k (some m) = find k m

-- `m[k]`: the zero value on a missing key
unfoldable pub get_or_empty : String → StringMap → String
unfolding lookup
get_or_empty k m = elim (lookup k m) [ none ↦ "" | some v ↦ v ]

-- `delete(m, k)`
unfoldable pub delete : String → StringMap → StringMap
delete k none = none
delete k (some m) = some (remove k m)

pub find-insert :
    (k j v : String) (m : Entries) → find j (insert k v m) ≡ (if k == j then some v else find j m)
unfolding find insert
find-insert k j v [] = refl
find-insert k j v ((i, w) ∷ m) =
    ground (arith, eq_iff k j, eq_iff i k, eq_iff i j, find-insert k j v m)

pub find-remove :
    (k j : String) (m : Entries) → find j (remove k m) ≡ (if k == j then none else find j m)
unfolding find remove
find-remove k j [] = ground arith
find-remove k j ((i, w) ∷ m) = ground (arith, eq_iff k j, eq_iff i k, eq_iff i j, find-remove k j m)

pub lookup-delete :
    (k j : String) (m : StringMap) → lookup j (delete k m) ≡ (if k == j then none else lookup j m)
unfolding lookup delete
lookup-delete k j none = ground arith
lookup-delete k j (some m) = find-remove k j m
