-- ===== src/Systemd/Journal/Calls.antt =====
-- systemd/journal_cgo.go: the calls of a reader.
use pharos_host_upgrades.Prelude.{ℕ, zero, suc, String, ◌==◌, nat_eq, Bool, none, some, List}
use pharos_host_upgrades.Effects.{
  ok, err, Op, system, SystemOp, new_journal, journal_add_match, journal_seek, journal_next,
  journal_entry, journal_close,
}
use pharos_host_upgrades.Effects.Logic.{Within, Within-bind, Within-if}
use pharos_host_upgrades.Systemd.Journal.{
  JournalOptions, add_unit_match, seek_start, open_sdjournal, open_journal, read_loop,
}

abbrev IsJournalOp : SystemOp → Type 0
IsJournalOp new_journal = Unit {0}
IsJournalOp (journal_add_match _ _) = Unit {0}
IsJournalOp (journal_seek _ _) = Unit {0}
IsJournalOp (journal_next _) = Unit {0}
IsJournalOp (journal_entry _) = Unit {0}
IsJournalOp (journal_close _) = Unit {0}
IsJournalOp _ = ⊥

abbrev pub IsJournal : Op → Type 0
IsJournal (system o) = IsJournalOp o
IsJournal _ = ⊥

pub open_journal-IsJournal :
    (cgo : Bool) (options : JournalOptions) → Within IsJournal (open_journal cgo options)
unfolding open_journal
open_journal-IsJournal cgo options = Within-if IsJournal cgo _ _ opened tt
  where
    opened : Within IsJournal (open_sdjournal options)
    opened = (
      tt,
      elim [
        | err e ↦ tt
        | ok journal ↦
            Within-bind IsJournal (add_unit_match journal options.unit) _
              (Within-if IsJournal (options.unit == "") _ _ tt
                (tt, elim [ some e ↦ tt | none ↦ tt ]))
              (elim [
                | some e ↦ tt
                | none ↦
                    Within-bind IsJournal (seek_start journal options.start_timestamp) _
                      (Within-if IsJournal (nat_eq options.start_timestamp 0) _ _ tt
                        (tt, elim [ some e ↦ tt | none ↦ tt ]))
                      (elim [ some e ↦ tt | none ↦ tt ])
              ])
      ],
    )

pub read_loop-IsJournal :
    (rounds journal : ℕ) (lines : List String) → Within IsJournal (read_loop rounds journal lines)
unfolding read_loop
read_loop-IsJournal zero journal lines = tt
read_loop-IsJournal (suc rounds) journal lines = (
  tt,
  elim [
    | err e ↦ tt
    | ok zero ↦ tt
    | ok (suc n) ↦ (tt, elim [ err e ↦ tt | ok entry ↦ read_loop-IsJournal rounds journal _ ])
  ],
)
