-- ===== src/Effects/Objects.antt =====
-- The values that the program exchanges with the Kubernetes API, the clock and the file system.
use pharos_host_upgrades.Prelude.{ℕ, ◌+◌, ◌-◌, suc, String, Bool, Option, List, StringMap}
use pharos_host_upgrades.Prelude.{ℤ, pos, negsuc}

-- time.Time, in nanoseconds from Go's zero time.
abbrev pub Time : Type 0
Time = ℕ

-- time.Duration, in nanoseconds.
abbrev pub Duration : Type 0
Duration = ℤ

-- `t.Add(d)`
abbrev pub add_duration : Time → Duration → Time
add_duration t (pos n) = t + n
add_duration t (negsuc n) = t - suc n

-- A connected client, by a handle; `none` is the nil interface.
abbrev pub Client : Type 0
Client = Option ℕ

-- appsv1.DaemonSet, as far as the program reads or writes it; `spec` is all the rest.
pub record DaemonSet : Type 0 where
  pub name : String
  pub resource_version : ℕ
  pub annotations : StringMap
  pub spec : String

pub data ConditionStatus : Type 0 where
  condition_true condition_false condition_unknown : ConditionStatus

-- corev1.NodeCondition
pub record NodeCondition : Type 0 where
  pub type : String
  pub status : ConditionStatus
  pub last_heartbeat_time : Time
  pub last_transition_time : Time
  pub reason : String
  pub message : String

-- corev1.Node, as far as the program reads or writes it; `spec` is all the rest.
pub record NodeObject : Type 0 where
  pub name : String
  pub resource_version : ℕ
  pub annotations : StringMap
  pub unschedulable : Bool
  pub conditions : List NodeCondition
  pub spec : String

pub data EventType : Type 0 where
  added modified deleted error_event : EventType

-- watch.Event
pub record WatchEvent : Type 0 where
  pub type : EventType
  pub object : DaemonSet

-- context.Context: the background context has no deadline.
pub record Context : Type 0 where
  pub deadline : Option Time

-- os.FileInfo
pub record FileInfo : Type 0 where
  pub is_dir : Bool
  pub is_regular : Bool
  pub mod_time : Time

-- The properties of a transient unit: its type, environment and command.
pub record UnitProperties : Type 0 where
  pub service_type : String
  pub environment : List String
  pub exec_start : List String

-- A D-Bus property value.
pub data Property : Type 0 where
  uint64 : ℕ → Property
  text : String → Property
  other : Property

-- sdjournal.JournalEntry: its timestamp and its MESSAGE field.
pub record JournalEntry : Type 0 where
  pub realtime_timestamp : ℕ
  pub message : String

-- The end of a child process: its output, an exit error with what it wrote to stderr, or no start.
pub data CommandResult : Type 0 where
  output : String → CommandResult
  exited : String → String → CommandResult
  not_started : String → CommandResult
