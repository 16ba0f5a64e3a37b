-- ===== src/Effects/Ops.antt =====
-- The calls that leave the program, grouped by whom they ask, and the type of each one's answer.
-- Logging is left out: nothing that the program does depends on it.
use pharos_host_upgrades.Prelude.{ℕ, String, Bool, Option, List, Entries}
use pharos_host_upgrades.Effects.Errors.{Error, MaybeError, Result}
use pharos_host_upgrades.Effects.Objects.{
  Time, Duration, Client, DaemonSet, NodeObject, WatchEvent, Context, FileInfo, UnitProperties,
  Property, JournalEntry, CommandResult,
}

-- k8s.io/client-go and k8s.io/apimachinery
pub data KubeOp : Type 0 where
  in_cluster_config : KubeOp
  new_apps_client : ℕ → KubeOp
  new_core_client : ℕ → KubeOp
  -- `client.DaemonSets(namespace).Get(name)`
  get_daemonset : Client → String → String → KubeOp
  -- `client.DaemonSets(namespace).Update(object)`
  update_daemonset : Client → String → DaemonSet → KubeOp
  -- `client.DaemonSets(namespace).Watch`, by the selected name and the resource version
  watch_daemonset : Client → String → String → ℕ → KubeOp
  -- `watch.Until(timeout, watcher, condition)`
  watch_until : Duration → ℕ → (WatchEvent → Result Bool) → KubeOp
  -- `client.Nodes().Get(name)`, `.Update(object)`, `.UpdateStatus(object)`
  get_node : Client → String → KubeOp
  update_node : Client → NodeObject → KubeOp
  update_node_status : Client → NodeObject → KubeOp

abbrev pub KubeResp : KubeOp → Type 0
KubeResp in_cluster_config = Result ℕ
KubeResp (new_apps_client _) = Result ℕ
KubeResp (new_core_client _) = Result ℕ
KubeResp (get_daemonset _ _ _) = Result DaemonSet
KubeResp (update_daemonset _ _ _) = Result DaemonSet
KubeResp (watch_daemonset _ _ _ _) = Result ℕ
KubeResp (watch_until _ _ _) = Result WatchEvent
KubeResp (get_node _ _) = Result NodeObject
KubeResp (update_node _ _) = Result NodeObject
KubeResp (update_node_status _ _) = Result NodeObject

-- The clock, contexts, and how the process waits or ends.
pub data ProcessOp : Type 0 where
  now : ProcessOp
  ctx_err : Context → ProcessOp
  sleep : ℕ → ProcessOp
  -- `time.Sleep(wait.Jitter(d, 1.0))`
  sleep_jittered : ℕ → ProcessOp
  -- a receive from the scheduler's channel of start times: `none` once it is closed
  receive_start : ProcessOp
  -- `exec.Command(name, args...).Output()`
  run_command : String → List String → ProcessOp
  -- `panic`, `log.Fatalf`: nothing follows
  panics : String → ProcessOp
  log_fatal : Error → ProcessOp

abbrev pub ProcessResp : ProcessOp → Type 0
ProcessResp now = Time
ProcessResp (ctx_err _) = MaybeError
ProcessResp (sleep _) = Unit {0}
ProcessResp (sleep_jittered _) = Unit {0}
ProcessResp receive_start = Option Time
ProcessResp (run_command _ _) = CommandResult
ProcessResp (panics _) = ⊥
ProcessResp (log_fatal _) = ⊥

-- os, io and text/template
pub data FileOp : Type 0 where
  stat : String → FileOp
  open_file : String → FileOp
  -- the lines that a `bufio.Scanner` gives
  read_lines : ℕ → FileOp
  create_file : String → ℕ → FileOp
  -- `io.Copy` from a file, and to a file
  read_file : ℕ → FileOp
  write_file : ℕ → String → FileOp
  close_file : ℕ → FileOp
  rename_file : String → String → FileOp
  -- `template.New(name).Parse(text)` and `Execute` over the named values
  parse_template : String → String → FileOp
  execute_template : String → String → Entries → FileOp

abbrev pub FileResp : FileOp → Type 0
FileResp (stat _) = Result FileInfo
FileResp (open_file _) = Result ℕ
FileResp (read_lines _) = List String
FileResp (create_file _ _) = Result ℕ
FileResp (read_file _) = Result String
FileResp (write_file _ _) = MaybeError
FileResp (close_file _) = MaybeError
FileResp (rename_file _ _) = MaybeError
FileResp (parse_template _ _) = MaybeError
FileResp (execute_template _ _ _) = Result String

-- github.com/coreos/go-systemd: D-Bus, the journal, login1 and hostname1
pub data SystemOp : Type 0 where
  dbus_connect : SystemOp
  reset_failed_unit : ℕ → String → SystemOp
  start_transient_unit : ℕ → String → String → UnitProperties → SystemOp
  get_unit_property : ℕ → String → String → String → SystemOp
  -- a receive from the channel on which the job's result arrives
  receive_job_result : SystemOp
  dbus_close : ℕ → SystemOp
  new_journal : SystemOp
  journal_add_match : ℕ → String → SystemOp
  journal_seek : ℕ → ℕ → SystemOp
  journal_next : ℕ → SystemOp
  journal_entry : ℕ → SystemOp
  journal_close : ℕ → SystemOp
  login1_new : SystemOp
  login1_reboot : ℕ → SystemOp
  login1_close : ℕ → SystemOp
  hostname1_new : SystemOp
  hostname1_properties : ℕ → SystemOp
  hostname1_close : ℕ → SystemOp

abbrev pub SystemResp : SystemOp → Type 0
SystemResp dbus_connect = Result ℕ
SystemResp (reset_failed_unit _ _) = MaybeError
SystemResp (start_transient_unit _ _ _ _) = MaybeError
SystemResp (get_unit_property _ _ _ _) = Result Property
SystemResp receive_job_result = String
SystemResp (dbus_close _) = Unit {0}
SystemResp new_journal = Result ℕ
SystemResp (journal_add_match _ _) = MaybeError
SystemResp (journal_seek _ _) = MaybeError
SystemResp (journal_next _) = Result ℕ
SystemResp (journal_entry _) = Result JournalEntry
SystemResp (journal_close _) = MaybeError
SystemResp login1_new = Result ℕ
SystemResp (login1_reboot _) = Unit {0}
SystemResp (login1_close _) = Unit {0}
SystemResp hostname1_new = Result ℕ
SystemResp (hostname1_properties _) = Result (List (String × Property))
SystemResp (hostname1_close _) = Unit {0}

pub data Op : Type 0 where
  kube : KubeOp → Op
  process : ProcessOp → Op
  file : FileOp → Op
  system : SystemOp → Op

abbrev pub Resp : Op → Type 0
Resp (kube o) = KubeResp o
Resp (process o) = ProcessResp o
Resp (file o) = FileResp o
Resp (system o) = SystemResp o
