-- ===== src/Systemd/Exec/Bus.antt =====
-- systemd/exec.go: the order of the calls of one unit's run, as a monitor.
use pharos_host_upgrades.Prelude.{ℕ, String, ◌≡◌, refl, Option, none, some, if◌then◌else◌}
use pharos_host_upgrades.Effects.{
  ok, Op, Resp, kube, process, file, system, dbus_connect, reset_failed_unit, start_transient_unit,
  get_unit_property, receive_job_result, dbus_close,
}
use pharos_host_upgrades.Effects.Logic.{Monitor, Ignores}
use pharos_host_upgrades.Systemd.Exec.{is_no_such_unit}
use pharos_host_upgrades.Systemd.Journal.Calls.{IsJournal}

-- How far the run of a unit has come over its connection, and at the end the job's result.
pub data Bus : Type 0 where
  unconnected : Bus
  connected : ℕ → Bus
  unit_reset : ℕ → Bus
  started : ℕ → Bus
  finished : ℕ → String → Bus
  closed : Option String → Bus

-- The connection that is open.
abbrev pub open_conn : Bus → Option ℕ
open_conn (connected c) = some c
open_conn (unit_reset c) = some c
open_conn (started c) = some c
open_conn (finished c _) = some c
open_conn _ = none

abbrev result_of : Bus → Option String
result_of (finished _ status) = some status
result_of _ = none

abbrev IsStarted : Bus → Type 0
IsStarted (started _) = Unit {0}
IsStarted _ = ⊥

-- Each step is made once and in order, over the connection and with the unit; nothing else but the
-- journal is called.
abbrev MayCall : String → Bus → Op → Type 0
MayCall unit b (system dbus_connect) = b ≡ unconnected
MayCall unit b (system (reset_failed_unit c u)) = (b ≡ connected c) × (u ≡ unit)
MayCall unit b (system (start_transient_unit c u mode _)) =
    (b ≡ unit_reset c) × (u ≡ unit) × (mode ≡ "fail")
MayCall unit b (system (get_unit_property c u _ _)) = (b ≡ started c) × (u ≡ unit)
MayCall unit b (system receive_job_result) = IsStarted b
MayCall unit b (system (dbus_close c)) = open_conn b ≡ some c
MayCall unit b o = IsJournal o

abbrev wait_result : Bus → String → Bus
wait_result (started c) status = finished c status
wait_result b status = b

abbrev after_call : Bus → (o : Op) → Resp o → Bus
after_call b (system dbus_connect) (ok c) = connected c
after_call b (system (reset_failed_unit c _)) none = unit_reset c
after_call b (system (reset_failed_unit c _)) (some e) =
    if is_no_such_unit e then unit_reset c else b
after_call b (system (start_transient_unit c _ _ _)) none = started c
after_call b (system receive_job_result) status = wait_result b status
after_call b (system (dbus_close _)) _ = closed (result_of b)
after_call b _ _ = b

abbrev pub bus : String → Monitor Bus
bus unit = record {
  Pre = MayCall unit;
  Admits = λ _ _ _. Unit {0};
  next = after_call;
  Out = λ _. Unit {0};
}

IsJournal-MayCall : (unit : String) (b : Bus) (o : Op) → IsJournal o → MayCall unit b o
IsJournal-MayCall unit b (kube o) j = absurd j
IsJournal-MayCall unit b (process o) j = absurd j
IsJournal-MayCall unit b (file o) j = absurd j
IsJournal-MayCall unit b (system dbus_connect) j = absurd j
IsJournal-MayCall unit b (system (reset_failed_unit _ _)) j = absurd j
IsJournal-MayCall unit b (system (start_transient_unit _ _ _ _)) j = absurd j
IsJournal-MayCall unit b (system (get_unit_property _ _ _ _)) j = absurd j
IsJournal-MayCall unit b (system receive_job_result) j = absurd j
IsJournal-MayCall unit b (system (dbus_close _)) j = absurd j
IsJournal-MayCall unit b (system o) j = j

IsJournal-after_call : (b : Bus) (o : Op) (r : Resp o) → IsJournal o → after_call b o r ≡ b
IsJournal-after_call b (kube o) r j = absurd j
IsJournal-after_call b (process o) r j = absurd j
IsJournal-after_call b (file o) r j = absurd j
IsJournal-after_call b (system dbus_connect) r j = absurd j
IsJournal-after_call b (system (reset_failed_unit _ _)) r j = absurd j
IsJournal-after_call b (system (start_transient_unit _ _ _ _)) r j = absurd j
IsJournal-after_call b (system receive_job_result) r j = absurd j
IsJournal-after_call b (system (dbus_close _)) r j = absurd j
IsJournal-after_call b (system o) r j = refl

-- The calls of the journal's reader are left out of account.
pub IsJournal-Ignores : (unit : String) (b : Bus) → Ignores (bus unit) IsJournal b
IsJournal-Ignores unit b = record {
  allowed = IsJournal-MayCall unit b;
  unmoved = IsJournal-after_call b;
  ends = tt;
}
