-- ===== src/Protocol/Host/Units.antt =====
-- systemd/exec.go, journal_cgo.go and reboot.go against the rules of the lock.
use pharos_host_upgrades.Prelude.{
  ℕ, String, Bool, Option, none, some, inl, inr, List, [], Option-cases,
}
use pharos_host_upgrades.Effects.{
  Op, kube, process, file, system, MaybeError, Result, ok, err, ret, ◌>>=◌,
}
use pharos_host_upgrades.Effects.Logic.{Within, Within-weaken, Within-bind, Within-if}
use pharos_host_upgrades.Systemd.Exec
use pharos_host_upgrades.Systemd.Exec.{SystemdExec, ExecOptions, ExecResult}
use pharos_host_upgrades.Systemd.Journal
use pharos_host_upgrades.Systemd.Journal.Calls.{
  IsJournal, open_journal-IsJournal, read_loop-IsJournal,
}
use pharos_host_upgrades.Systemd.Reboot
use pharos_host_upgrades.Protocol.{IsApart}

-- The calls of a journal's reader do not concern the lock.
IsJournal-IsApart : (o : Op) → IsJournal o → IsApart o
IsJournal-IsApart (system o) j = tt
IsJournal-IsApart (kube o) j = absurd j
IsJournal-IsApart (process o) j = absurd j
IsJournal-IsApart (file o) j = absurd j

open_journal-Apart :
    (cgo : Bool) (options : Journal.JournalOptions)
    → Within IsApart (Journal.open_journal cgo options)
open_journal-Apart cgo options =
    Within-weaken IsJournal IsApart IsJournal-IsApart (Journal.open_journal cgo options)
      (open_journal-IsJournal cgo options)

read_loop-Apart :
    (rounds journal : ℕ) (lines : List String)
    → Within IsApart (Journal.read_loop rounds journal lines)
read_loop-Apart rounds journal lines =
    Within-weaken IsJournal IsApart IsJournal-IsApart (Journal.read_loop rounds journal lines)
      (read_loop-IsJournal rounds journal lines)

exec_open_journal-Apart :
    (cgo : Bool) (conn : ℕ) (se : SystemdExec) → Within IsApart (Exec.open_journal cgo conn se)
unfolding Exec.open_journal
exec_open_journal-Apart cgo conn se =
    (tt, elim [ err e ↦ tt | ok property ↦ stamped (Exec.timestamp_of property) ])
  where
    stamped :
        (r : Result ℕ)
        → Within IsApart {A = MaybeError × SystemdExec} (elim r [
          | err e ↦ ret (some e, se)
          | ok timestamp ↦ do
            opened ←
                Journal.open_journal cgo (record { unit = se.unit; start_timestamp = timestamp })
            elim opened [
              | err e ↦ ret (some e, se)
              | ok reader ↦ ret (none, record se { journal_reader = reader })
            ]
        ])
    stamped (err e) = tt
    stamped (ok timestamp) =
        let options : Journal.JournalOptions = record {
          unit = se.unit;
          start_timestamp = timestamp;
        } in
        Within-bind IsApart (Journal.open_journal cgo options) _ (open_journal-Apart cgo options)
          (elim [ err e ↦ tt | ok reader ↦ tt ])

read_log-Apart :
    (rounds : ℕ) (se : SystemdExec) (result : ExecResult)
    → Within IsApart (Exec.read_log rounds se result)
unfolding Exec.read_log
read_log-Apart rounds se result = elim (Option-cases se.journal_reader) [
  | inl e ↦ rw (e, Exec.read_log) tt
  | inr (journal, e) ↦
      rw (e, Exec.read_log)
        (Within-bind IsApart (Journal.read rounds journal) _ (read_loop-Apart rounds journal [])
          (elim [ err e ↦ tt | ok lines ↦ tt ]))
]

exec_connected-Apart :
    (cgo : Bool) (rounds conn : ℕ) (se : SystemdExec)
    → Within IsApart (Exec.exec_connected cgo rounds conn se)
unfolding Exec.exec_connected Exec.wait
exec_connected-Apart cgo rounds conn se =
    Within-bind IsApart (Exec.reset conn se) _
      (tt, elim [ none ↦ tt | some e ↦ Within-if IsApart (Exec.is_no_such_unit e) _ _ tt tt ])
      (elim [
        | some e ↦ tt
        | none ↦
            Within-bind IsApart (Exec.start conn se) _ (tt, elim [ some e ↦ tt | none ↦ tt ])
              (elim [
                | some e ↦ tt
                | none ↦
                    Within-bind IsApart (Exec.open_journal cgo conn se) _
                      (exec_open_journal-Apart cgo conn se)
                      λ (unopened, opened). waited unopened opened
              ])
      ])
  where
    waited :
        (unopened : MaybeError) (opened : SystemdExec)
        → Within IsApart {A = (ExecResult × MaybeError) × SystemdExec} (elim unopened [
          | some e ↦ ret ((Exec.no_result, some e), opened)
          | none ↦ do
            (status, unwaited) ← Exec.wait
            elim unwaited [
              | some e ↦ ret ((Exec.no_result, some e), opened)
              | none ↦ do
                result ← Exec.read_log rounds opened (record Exec.no_result { status = status })
                ret (result, opened)
            ]
        ])
    waited (some e) opened = tt
    waited none opened = (
      tt,
      λ status.
          let result = record Exec.no_result { status = status } in
          Within-bind IsApart (Exec.read_log rounds opened result) _
            (read_log-Apart rounds opened result) (λ _. tt),
    )

exec_body-Apart :
    (cgo : Bool) (rounds : ℕ) (se : SystemdExec) → Within IsApart (Exec.exec_body cgo rounds se)
unfolding Exec.exec_body
exec_body-Apart cgo rounds se = (
  tt,
  elim [
    | err e ↦ tt
    | ok conn ↦ exec_connected-Apart cgo rounds conn (record se { conn = some conn })
  ],
)

close_conn-Apart : (conn : Option ℕ) → Within IsApart (Exec.close_conn conn)
unfolding Exec.close_conn
close_conn-Apart none = tt
close_conn-Apart (some conn) = (tt, λ _. tt)

close_reader-Apart : (reader : Option ℕ) → Within IsApart (Exec.close_reader reader)
unfolding Exec.close_reader
close_reader-Apart none = tt
close_reader-Apart (some journal) = (tt, λ _. tt)

pub exec-Apart :
    (cgo : Bool) (rounds : ℕ) (name : String) (options : ExecOptions)
    → Within IsApart (Exec.exec cgo rounds name options)
unfolding Exec.exec
exec-Apart cgo rounds name options =
    Within-bind IsApart (Exec.exec_body cgo rounds _) _ (exec_body-Apart cgo rounds _)
      λ (result, se).
        Within-bind IsApart (Exec.close se) _
          (Within-bind IsApart (Exec.close_conn se.conn) _ (close_conn-Apart se.conn)
            (λ _. close_reader-Apart se.journal_reader))
          (λ _. tt)

pub reboot-Apart : Within IsApart Reboot.reboot
unfolding Reboot.reboot
reboot-Apart = (tt, elim [ err e ↦ tt | ok conn ↦ (tt, λ _. (tt, λ _. tt)) ])
