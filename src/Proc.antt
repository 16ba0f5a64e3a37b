-- ===== src/Proc.antt =====
-- proc/stat.go: the boot time in /proc/stat.
pub mod Fields
use pharos_host_upgrades.Prelude.{
  ℤ, pos, negsuc, suc, ◌+◌, ◌-◌, ◌*◌, String, ◌<>◌, none, some, List, [], ◌∷◌, ◌==◌, if◌then◌else◌,
}
use pharos_host_upgrades.Effects.{
  MaybeError, Result, ok, err, errorf, wrap, Time, open_file, read_lines, Prog, ret, ◌>>=◌,
  ask_file,
}
use pharos_host_upgrades.External.{External}

pub record Stat : Type 0 where
  pub boot_time : Time

abbrev pub no_stat : Stat
no_stat = record { boot_time = 0 }

-- The Unix epoch, in nanoseconds from Go's zero time.
abbrev pub unix_epoch : Time
unix_epoch = 62135596800000000000

-- `time.Unix(sec, 0)`; a time before Go's zero time is taken for the zero time.
abbrev pub unix : ℤ → Time
unix (pos sec) = unix_epoch + sec * 1000000000
unix (negsuc sec) = unix_epoch - suc sec * 1000000000

module _ (ext : External) where
  abbrev set_btime : Stat → List String → MaybeError × Stat
  set_btime stat [] = (some (errorf "Missing arg"), stat)
  set_btime stat (arg ∷ _) = elim (ext.scan_int arg) [
    | err e ↦ (some e, stat)
    | ok sec ↦ (none, record stat { boot_time = unix sec })
  ]

  -- `set`: fields other than btime are passed over
  unfoldable pub set : Stat → String → List String → MaybeError × Stat
  set stat field args = if field == "btime" then set_btime stat args else (none, stat)

  -- What `ReadStat` makes of an error of `set`.
  abbrev named_error : String → MaybeError → MaybeError
  named_error field none = none
  named_error field (some e) = some (wrap ("Invalid /proc/stat field " <> field <> ": ") e)

  abbrev set_fields : Stat → List String → MaybeError × Stat
  set_fields stat [] = (none, stat)
  set_fields stat (field ∷ args) =
      let (failure, stat') = set stat field args in (named_error field failure, stat')

  -- The loop of `ReadStat` over the lines of the file.
  unfoldable pub scan_lines : Stat → List String → MaybeError × Stat
  unfolding set
  scan_lines stat [] = (none, stat)
  scan_lines stat (line ∷ lines) =
      let (failure, stat') = set_fields stat (ext.fields line) in
      elim failure [ some e ↦ (some e, stat') | none ↦ scan_lines stat' lines ]

  unfoldable pub read_stat : Prog (Result Stat)
  unfolding scan_lines
  read_stat = do
    opened ← ask_file (open_file "/proc/stat")
    elim opened [
      | err e ↦ ret (err e)
      | ok f ↦ do
        lines ← ask_file (read_lines f)
        let (failure, stat) = scan_lines no_stat lines
        elim failure [ some e ↦ ret (err e) | none ↦ ret (ok stat) ]
    ]
