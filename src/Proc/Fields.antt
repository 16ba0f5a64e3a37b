-- ===== src/Proc/Fields.antt =====
-- proc/stat.go: the lines of the field btime.
use pharos_host_upgrades.Prelude.{
  String, Bool, false, none, some, List, [], ◌∷◌, ◌==◌, if◌then◌else◌, ◌≡◌, refl, sym, ap, ◌∙◌, inl,
  inr, Bool-cases,
}
use pharos_host_upgrades.Effects.{MaybeError}
use pharos_host_upgrades.External.{External}
use pharos_host_upgrades.Proc.{Stat, set, set_fields, scan_lines}

abbrev has_btime : List String → Bool
has_btime [] = false
has_btime (field ∷ _) = field == "btime"

module _ (ext : External) where
  -- The lines whose first field is btime.
  unfoldable pub btime_lines : List String → List String
  btime_lines [] = []
  btime_lines (line ∷ lines) =
      let rest = btime_lines lines in if has_btime (ext.fields line) then line ∷ rest else rest

  set_fields-other :
      (stat : Stat) (fields : List String)
      → has_btime fields ≡ false
      → set_fields ext stat fields ≡ (none, stat)
  unfolding set
  set_fields-other stat [] other = refl
  set_fields-other stat (field ∷ args) other = rw other refl

  abbrev after_line : List String → MaybeError × Stat → MaybeError × Stat
  after_line lines p = elim p.0 [ some e ↦ (some e, p.1) | none ↦ scan_lines ext p.1 lines ]

  scan_lines-cons :
      (stat : Stat) (line : String) (lines : List String)
      → scan_lines ext stat (line ∷ lines)
        ≡ after_line lines (set_fields ext stat (ext.fields line))
  unfolding scan_lines
  scan_lines-cons stat line lines = refl

  after_line-same :
      (lines lines' : List String)
      → ((stat : Stat) → scan_lines ext stat lines ≡ scan_lines ext stat lines')
      → (p : MaybeError × Stat) → after_line lines p ≡ after_line lines' p
  after_line-same lines lines' same (some e, stat) = refl
  after_line-same lines lines' same (none, stat) = same stat

  -- `ReadStat` makes of the lines what it makes of those of btime alone: the others neither fail
  -- nor set anything, wherever they stand.
  pub scan_lines-btime_lines :
      (lines : List String) (stat : Stat)
      → scan_lines ext stat lines ≡ scan_lines ext stat (btime_lines lines)
  unfolding scan_lines btime_lines
  scan_lines-btime_lines [] stat = refl
  scan_lines-btime_lines (line ∷ lines) stat = elim (Bool-cases (has_btime (ext.fields line))) [
    | inl btime ↦ rw btime (
        scan_lines-cons stat line lines
        ∙ after_line-same lines (btime_lines lines) (scan_lines-btime_lines lines)
            (set_fields ext stat (ext.fields line))
        ∙ sym (scan_lines-cons stat line (btime_lines lines)))
    | inr other ↦ rw other (
        scan_lines-cons stat line lines
        ∙ ap (after_line lines) (set_fields-other stat (ext.fields line) other)
        ∙ scan_lines-btime_lines lines stat)
  ]
