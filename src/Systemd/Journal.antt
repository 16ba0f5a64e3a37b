-- ===== src/Systemd/Journal.antt =====
-- systemd/journal.go, journal_cgo.go and journal_disabled.go. A reader is a journal's handle.
pub mod Calls
use pharos_host_upgrades.Prelude.{
  ℕ, zero, suc, String, ◌<>◌, Bool, Option, none, some, List, [], ◌∷◌, ◌++◌, ◌==◌, nat_eq,
  if◌then◌else◌,
}
use pharos_host_upgrades.Effects.{
  MaybeError, Result, ok, err, wrap, new_journal, journal_add_match, journal_seek, journal_next,
  journal_entry, journal_close, Prog, ret, out_of_rounds, ◌>>=◌, ask_system,
}

pub record JournalOptions : Type 0 where
  pub unit : String
  pub start_timestamp : ℕ

unfoldable pub add_unit_match : ℕ → String → Prog MaybeError
add_unit_match journal unit = if unit == "" then ret none else do
  failure ← ask_system (journal_add_match journal ("_SYSTEMD_UNIT=" <> unit))
  elim failure [ some e ↦ ret (some (wrap "sdjournal.AddMatch: " e)) | none ↦ ret none ]

unfoldable pub seek_start : ℕ → ℕ → Prog MaybeError
seek_start journal start = if nat_eq start 0 then ret none else do
  failure ← ask_system (journal_seek journal start)
  elim failure [ some e ↦ ret (some (wrap "sdjournal.SeekRealtimeUsec: " e)) | none ↦ ret none ]

-- `OpenJournal` with cgo
unfoldable pub open_sdjournal : JournalOptions → Prog (Result (Option ℕ))
unfolding add_unit_match seek_start
open_sdjournal options = do
  answer ← ask_system new_journal
  elim answer [
    | err e ↦ ret (err (wrap "sdjournal.NewJournal: " e))
    | ok journal ↦ do
      unmatched ← add_unit_match journal options.unit
      elim unmatched [
        | some e ↦ ret (err e)
        | none ↦ do
          unsought ← seek_start journal options.start_timestamp
          elim unsought [ some e ↦ ret (err e) | none ↦ ret (ok (some journal)) ]
      ]
  ]

-- `OpenJournal` without cgo
unfoldable pub open_disabled : JournalOptions → Prog (Result (Option ℕ))
open_disabled options = ret (ok none)

-- The build tag chooses between them.
unfoldable pub open_journal : Bool → JournalOptions → Prog (Result (Option ℕ))
unfolding open_sdjournal open_disabled
open_journal cgo options = if cgo then open_sdjournal options else open_disabled options

-- The loop of `Read`, with the lines read so far.
unfoldable pub read_loop : ℕ → ℕ → List String → Prog (Result (List String))
read_loop zero journal lines = out_of_rounds
read_loop (suc rounds) journal lines = do
  moved ← ask_system (journal_next journal)
  elim moved [
    | err e ↦ ret (err (wrap "sdjournal.Next: " e))
    | ok zero ↦ ret (ok lines)
    | ok (suc _) ↦ do
      answer ← ask_system (journal_entry journal)
      elim answer [
        | err e ↦ ret (err (wrap "sdjournal.GetEntry: " e))
        | ok entry ↦ read_loop rounds journal (lines ++ entry.message ∷ [])
      ]
  ]

unfoldable pub read : ℕ → ℕ → Prog (Result (List String))
unfolding read_loop
read rounds journal = read_loop rounds journal []

unfoldable pub close : ℕ → Prog MaybeError
close journal = ask_system (journal_close journal)
