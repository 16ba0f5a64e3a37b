-- ===== src/Systemd/Exec/Steps.antt =====
-- systemd/exec.go: the steps of a run in their order, over a connection.
use pharos_host_upgrades.Prelude.{
  ℕ, String, ◌==◌, eq_iff, ◌≡◌, refl, sym, ◌∙◌, ap, Bool, none, some, inl, inr, Bool-cases,
  Option-cases, ◌⊎◌, [],
}
use pharos_host_upgrades.Effects.{Error, MaybeError, Result, ok, err, Prog, ret, ◌>>=◌}
use pharos_host_upgrades.Effects.Logic.{Safe, Safe-bind, Safe-Within}
use pharos_host_upgrades.Systemd.Exec.{
  ExecOptions, ExecResult, SystemdExec, no_result, is_no_such_unit, reset, start, timestamp_of,
  get_service_timestamp, open_journal, wait, verdict, read_log, exec_connected,
}
use pharos_host_upgrades.Systemd.Exec.Bus.{
  Bus, connected, unit_reset, started, finished, open_conn, bus, IsJournal-Ignores,
}
use pharos_host_upgrades.Systemd.Journal
use pharos_host_upgrades.Systemd.Journal.Calls.{
  IsJournal, open_journal-IsJournal, read_loop-IsJournal,
}

-- A step over an open connection that has come to `b` unless it failed.
abbrev Reaches : ℕ → Bus → MaybeError → Bus → Type 0
Reaches conn b e b' = (open_conn b' ≡ some conn) × (e ≡ none → b' ≡ b)

-- The status that a result without an error has.
abbrev IsDone : ExecResult → MaybeError → Type 0
IsDone result e = e ≡ none → result.status ≡ "done"

verdict-IsDone :
    (options : ExecOptions) (result : ExecResult)
    → ((verdict options result).0.status ≡ result.status) × IsDone result (verdict options result).1
verdict-IsDone options result = elim (Bool-cases (result.status == "done")) [
  | inl same ↦ rw same (refl, λ _. (eq_iff result.status "done").0 same)
  | inr other ↦ rw other (refl, λ n. absurd (cc))
]

Result-cases : {A : Type 0} (r : Result A) → ((e : Error) × (r ≡ err e)) ⊎ ((a : A) × (r ≡ ok a))
Result-cases (err e) = inl (e, refl)
Result-cases (ok a) = inr (a, refl)

module _ (unit : String) where
  reset-Reaches :
      (conn : ℕ) (se : SystemdExec)
      → se.unit ≡ unit
      → Safe (bus unit) (reset conn se) (connected conn) (Reaches conn (unit_reset conn))
  unfolding reset
  reset-Reaches conn se named = (
    (refl, named),
    elim [
      | none ↦ λ _. (refl, λ _. refl)
      | some e ↦ λ _. elim (Bool-cases (is_no_such_unit e)) [
        | inl loaded ↦ rw loaded (refl, λ _. refl)
        | inr other ↦ rw other (refl, λ n. absurd (cc))
      ]
    ],
  )

  start-Reaches :
      (conn : ℕ) (se : SystemdExec)
      → se.unit ≡ unit
      → Safe (bus unit) (start conn se) (unit_reset conn) (Reaches conn (started conn))
  unfolding start
  start-Reaches conn se named = (
    (refl, named, refl),
    elim [ some e ↦ λ _. (refl, λ n. absurd (cc)) | none ↦ λ _. (refl, λ _. refl) ],
  )

  -- What `open_journal` leaves of the state, and the connection that it leaves.
  abbrev Opened : ℕ → SystemdExec → MaybeError × SystemdExec → Bus → Type 0
  Opened conn se r b = (r.1.conn ≡ se.conn) × (b ≡ started conn)

  open_journal-Opened :
      (cgo : Bool) (conn : ℕ) (se : SystemdExec)
      → se.unit ≡ unit
      → Safe (bus unit) (open_journal cgo conn se) (started conn) (Opened conn se)
  unfolding open_journal get_service_timestamp
  open_journal-Opened cgo conn se named = (
    (refl, named),
    elim [
      | err e ↦ λ _. (refl, refl)
      | ok property ↦ λ _. elim (Result-cases (timestamp_of property)) [
        | inl (e, bad) ↦ rw bad (refl, refl)
        | inr (timestamp, good) ↦
            let options : Journal.JournalOptions = record {
              unit = se.unit;
              start_timestamp = timestamp;
            } in
            rw good (
              Safe-bind (bus unit) (Journal.open_journal cgo options) _ (started conn)
                (λ _ b. b ≡ started conn) (Opened conn se)
                (Safe-Within (bus unit) IsJournal (started conn)
                  (IsJournal-Ignores unit (started conn)) (Journal.open_journal cgo options)
                  (open_journal-IsJournal cgo options))
                (elim [ err e ↦ λ b same. (refl, same) | ok reader ↦ λ b same. (refl, same) ]))
      ]
    ],
  )

  -- The end of a run whose unit has finished with a status.
  abbrev Ends : Bus → ExecResult → ExecResult × MaybeError → Bus → Type 0
  Ends b result r b' = (b' ≡ b) × (IsDone r.0 r.1) × (IsDone result r.1)

  verdict-Ends :
      (b b' : Bus) (options : ExecOptions) (result : ExecResult)
      → b' ≡ b
      → Ends b result (verdict options result) b'
  verdict-Ends b b' options result same =
      let (kept, done) = verdict-IsDone options result in (same, (λ n. kept ∙ done n), done)

  read_log-Ends :
      (rounds : ℕ) (se : SystemdExec) (result : ExecResult) (b : Bus)
      → Safe (bus unit) (read_log rounds se result) b (Ends b result)
  unfolding read_log Journal.read
  read_log-Ends rounds se result b = elim (Option-cases se.journal_reader) [
    | inl e ↦ rw (e, read_log) (verdict-Ends b b se.options result refl)
    | inr (journal, e) ↦
        rw (e, read_log)
          (Safe-bind (bus unit) (Journal.read_loop rounds journal []) _ b (λ _ b'. b' ≡ b)
            (Ends b result)
            (Safe-Within (bus unit) IsJournal b (IsJournal-Ignores unit b)
              (Journal.read_loop rounds journal []) (read_loop-IsJournal rounds journal []))
            (elim [
              | err e ↦ λ b' same. (same, (λ n. absurd (cc)), (λ n. absurd (cc)))
              | ok lines ↦
                  λ b' same. verdict-Ends b b' se.options (record result { log_lines = lines }) same
            ]))
  ]

  -- What `Exec` has before it closes: the connection is open, and without an error the unit has
  -- finished with the status `done`.
  abbrev pub Finishes : (ExecResult × MaybeError) × SystemdExec → Bus → Type 0
  Finishes r b =
      (open_conn b ≡ r.1.conn)
      × (r.0.1 ≡ none → (r.0.0.status ≡ "done") × ((conn : ℕ) × (b ≡ finished conn "done")))

  pub exec_connected-Finishes :
      (cgo : Bool) (rounds conn : ℕ) (se : SystemdExec)
      → se.unit ≡ unit
      → se.conn ≡ some conn
      → Safe (bus unit) (exec_connected cgo rounds conn se) (connected conn) Finishes
  unfolding exec_connected wait
  exec_connected-Finishes cgo rounds conn se named attached =
      Safe-bind (bus unit) (reset conn se) _ (connected conn) (Reaches conn (unit_reset conn))
        Finishes (reset-Reaches conn se named)
        (elim [
          | some e ↦ λ b reaches. (reaches.0 ∙ sym attached, λ n. absurd (cc))
          | none ↦ λ b reaches. rw (reaches.1 refl) (
              Safe-bind (bus unit) (start conn se) _ (unit_reset conn) (Reaches conn (started conn))
                Finishes (start-Reaches conn se named)
                (elim [
                  | some e ↦ λ b' reaches'. (reaches'.0 ∙ sym attached, λ n. absurd (cc))
                  | none ↦ λ b' reaches'. rw (reaches'.1 refl) (
                      Safe-bind (bus unit) (open_journal cgo conn se) _ (started conn)
                        (Opened conn se) Finishes (open_journal-Opened cgo conn se named)
                        λ (unopened, opened) b'' (same, at). rw at (waited unopened opened same))
                ]))
        ])
    where
      waited :
          (unopened : MaybeError) (opened : SystemdExec)
          → opened.conn ≡ se.conn
          → Safe
              (bus unit)
              (elim unopened as (λ _. Prog ((ExecResult × MaybeError) × SystemdExec)) [
                | some e ↦ ret ((no_result, some e), opened)
                | none ↦ do
                  (status, unwaited) ← wait
                  elim unwaited [
                    | some e ↦ ret ((no_result, some e), opened)
                    | none ↦ do
                      result ← read_log rounds opened (record no_result { status = status })
                      ret (result, opened)
                  ]
              ])
              (started conn)
              Finishes
      waited (some e) opened same = (sym attached ∙ sym same, λ n. absurd (cc))
      waited none opened same = (
        tt,
        λ status _.
            let result = record no_result { status = status } in
            Safe-bind (bus unit) (read_log rounds opened result) _ (finished conn status)
              (Ends (finished conn status) result) Finishes
              (read_log-Ends rounds opened result (finished conn status))
              λ r b (at, shown, done).
                rw at
                  (sym attached ∙ sym same, λ n. (shown n, (conn, ap (finished conn) (done n)))),
      )
