-- ===== src/External.antt =====
-- Pure functions that the program calls and that lie outside this repository, with what it relies on.
-- `retry` is client-go's; the others belong to Go's standard library and to robfig/cron.
use pharos_host_upgrades.Prelude.{ℕ, String, ◌≡◌, ℤ, Option, List}
use pharos_host_upgrades.Effects.{Error, Result, ok, Time}
use pharos_host_upgrades.Kube.Retry.{RetryOnConflict}

pub record External : Type 1 where
  pub retry : RetryOnConflict
  -- `json.Marshal` and `json.Unmarshal` at `time.Time`
  pub marshal_time : Time → Result String
  pub unmarshal_time : String → Result Time
  pub unmarshal-marshal : (t : Time) (s : String) → marshal_time t ≡ ok s → unmarshal_time s ≡ ok t
  -- `err.Error()`
  pub error_text : Error → String
  -- `filepath.Join`
  pub join_path : List String → String
  -- `regexp.MustCompile(pattern).FindStringSubmatch(text)`: `none` for nil, or `match[1]`
  pub find_submatch : String → String → Option String
  -- `strings.Fields`, and `fmt.Sscanf(text, "%d", &n)`
  pub fields : String → List String
  pub scan_int : String → Result ℤ
  -- `cron.ParseStandard`, which yields a schedule
  pub parse_standard : String → Result ℕ
