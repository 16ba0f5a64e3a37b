-- ===== src/Systemd/Exec.antt =====
-- systemd/exec.go: a command as a transient oneshot unit, with its journal.
pub mod Bus
mod Steps
pub mod Outcome
use pharos_host_upgrades.Prelude.{
  ℕ, String, ◌<>◌, Bool, Option, none, some, List, [], ◌∷◌, ◌==◌, if◌then◌else◌,
}
use pharos_host_upgrades.Effects.{
  Error, MaybeError, Result, ok, err, errorf, wrap, exec_error, dbus, Property, uint64,
  dbus_connect, reset_failed_unit, start_transient_unit, get_unit_property, receive_job_result,
  dbus_close, Prog, ret, ◌>>=◌, ◌>>◌, ask_system, panic,
}
use pharos_host_upgrades.Systemd.Journal

pub record ExecOptions : Type 0 where
  pub unit : String
  pub cmd : List String
  pub env : List String

pub record ExecResult : Type 0 where
  pub status : String
  pub log_lines : List String

abbrev pub no_result : ExecResult
no_result = record { status = ""; log_lines = [] }

-- `strings.Join(lines, "\n")`
unfoldable pub log_string : List String → String
log_string [] = ""
log_string (line ∷ []) = line
log_string (line ∷ more ∷ lines) = line <> "\n" <> log_string (more ∷ lines)

pub record SystemdExec : Type 0 where
  pub unit : String
  pub options : ExecOptions
  pub conn : Option ℕ
  pub journal_reader : Option ℕ

unfoldable pub connect : SystemdExec → Prog (MaybeError × SystemdExec)
connect se = do
  answer ← ask_system dbus_connect
  elim answer [
    | err e ↦ ret (some (wrap "dbus.NewSystemConnection: " e), se)
    | ok conn ↦ ret (none, record se { conn = some conn })
  ]

-- The errors that `reset` passes over: the unit is not loaded.
abbrev pub is_no_such_unit : Error → Bool
is_no_such_unit (dbus name _) = name == "org.freedesktop.systemd1.NoSuchUnit"
is_no_such_unit _ = Bool.false

unfoldable pub reset : ℕ → SystemdExec → Prog MaybeError
reset conn se = do
  failure ← ask_system (reset_failed_unit conn se.unit)
  elim failure [
    | none ↦ ret none
    | some e ↦
        if is_no_such_unit e
        then ret none
        else ret (some (wrap ("dbus.ResetFailedUnit " <> se.unit <> ": ") e))
  ]

-- `start`, and `propEnvironment` in its properties
unfoldable pub start : ℕ → SystemdExec → Prog MaybeError
start conn se = do
  failure ← ask_system (
      start_transient_unit conn se.unit "fail" (record {
        service_type = "oneshot";
        environment = se.options.env;
        exec_start = se.options.cmd;
      }))
  elim failure [
    | some e ↦ ret (some (wrap ("dbus.StartTransientUnit " <> se.unit <> ": ") e))
    | none ↦ ret none
  ]

abbrev pub timestamp_of : Property → Result ℕ
timestamp_of (uint64 n) = ok n
timestamp_of p = err (errorf "Invalid property value")

unfoldable pub get_service_timestamp : ℕ → SystemdExec → String → Prog (Result ℕ)
get_service_timestamp conn se name = do
  answer ← ask_system (get_unit_property conn se.unit "Service" name)
  elim answer [
    | err e ↦ ret (err (wrap ("dbus.GetUnitTypeProperty " <> name <> ": ") e))
    | ok property ↦ ret (timestamp_of property)
  ]

unfoldable pub open_journal : Bool → ℕ → SystemdExec → Prog (MaybeError × SystemdExec)
unfolding get_service_timestamp Journal.open_journal
open_journal cgo conn se = do
  stamped ← get_service_timestamp conn se "ExecMainStartTimestamp"
  elim stamped [
    | err e ↦ ret (some e, se)
    | ok timestamp ↦ do
      opened ← Journal.open_journal cgo (record { unit = se.unit; start_timestamp = timestamp })
      elim opened [
        | err e ↦ ret (some e, se)
        | ok reader ↦ ret (none, record se { journal_reader = reader })
      ]
  ]

unfoldable pub wait : Prog (String × MaybeError)
wait = do status ← ask_system receive_job_result; ret (status, none)

unfoldable pub close_conn : Option ℕ → Prog (Unit {0})
close_conn none = ret tt
close_conn (some conn) = ask_system (dbus_close conn)

unfoldable pub close_reader : Option ℕ → Prog (Unit {0})
unfolding Journal.close
close_reader none = ret tt
close_reader (some journal) = do Journal.close journal; ret tt

unfoldable pub close : SystemdExec → Prog (Unit {0})
unfolding close_conn close_reader
close se = do close_conn se.conn; close_reader se.journal_reader

-- The end of `Exec`: the log, if there is a reader, and the verdict on the job's status.
abbrev verdict : ExecOptions → ExecResult → ExecResult × MaybeError
verdict options result = if result.status == "done" then (result, none) else (
  result,
  some (exec_error options.unit options.cmd result.status (log_string result.log_lines)),
)

unfoldable pub read_log : ℕ → SystemdExec → ExecResult → Prog (ExecResult × MaybeError)
unfolding log_string Journal.read
read_log rounds se result = elim se.journal_reader [
  | none ↦ ret (verdict se.options result)
  | some journal ↦ do
    answer ← Journal.read rounds journal
    elim answer [
      | err e ↦ ret (result, some e)
      | ok lines ↦ ret (verdict se.options (record result { log_lines = lines }))
    ]
]

-- What `Exec` does with a connection, up to the `return`, and the state that `close` will see.
unfoldable pub exec_connected :
    Bool → ℕ → ℕ → SystemdExec → Prog ((ExecResult × MaybeError) × SystemdExec)
unfolding reset start open_journal wait read_log
exec_connected cgo rounds conn se = do
  unreset ← reset conn se
  elim unreset [
    | some e ↦ ret ((no_result, some e), se)
    | none ↦ do
      unstarted ← start conn se
      elim unstarted [
        | some e ↦ ret ((no_result, some e), se)
        | none ↦ do
          (unopened, opened) ← open_journal cgo conn se
          elim unopened [
            | some e ↦ ret ((no_result, some e), opened)
            | none ↦ do
              (status, unwaited) ← wait
              elim unwaited [
                | some e ↦ ret ((no_result, some e), opened)
                | none ↦ do
                  result ← read_log rounds opened (record no_result { status = status })
                  ret (result, opened)
              ]
          ]
      ]
  ]

unfoldable pub exec_body : Bool → ℕ → SystemdExec → Prog ((ExecResult × MaybeError) × SystemdExec)
unfolding connect exec_connected
exec_body cgo rounds se = do
  (unconnected, connected) ← connect se
  elim unconnected [
    | some e ↦ ret ((no_result, some e), connected)
    | none ↦ elim connected.conn [
      | none ↦ panic "nil pointer dereference"
      | some conn ↦ exec_connected cgo rounds conn connected
    ]
  ]

-- `Exec`, whose `defer` closes what was opened on every path
unfoldable pub exec : Bool → ℕ → String → ExecOptions → Prog (ExecResult × MaybeError)
unfolding exec_body close
exec cgo rounds name options = do
  let unit = name <> ".service"
  let named = record options { unit = unit }
  (result, se) ←
      exec_body cgo rounds
        (record { unit = unit; options = named; conn = none; journal_reader = none })
  close se
  ret result
