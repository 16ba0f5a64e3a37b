-- ===== src/Effects/Errors.antt =====
-- Go's `error` values, as far as the program tells them apart, and `(T, error)` results.
use pharos_host_upgrades.Prelude.{ℕ, String, Bool, true, false, Option, List}

pub data Error : Type 0 where
  -- an API error for which `errors.IsConflict` holds
  conflict : String → Error
  -- an error for which `os.IsNotExist` holds
  not_exist : String → Error
  -- a D-Bus error, by name and text
  dbus : String → String → Error
  -- any other error that called code returns
  failed : String → Error
  -- `fmt.Errorf` of a text
  errorf : String → Error
  -- `fmt.Errorf("…: %v", …, err)`: a new error, which keeps only the text of `err`
  wrap : String → Error → Error
  -- `fmt.Errorf("Kube node %v is still rebooting (reboot=%v >= boot=%v)", …)`
  still_rebooting : String → ℕ → ℕ → Error
  -- systemd.ExecError, by unit, command, job status and `LogString`
  exec_error : String → List String → String → String → Error

-- `error` alone: nil or an error.
abbrev pub MaybeError : Type 0
MaybeError = Option Error

pub data Result (A : Type 0) : Type 0 where
  ok : A → Result A
  err : Error → Result A

-- `errors.IsConflict` and `os.IsNotExist`; a formatted error has lost its kind.
abbrev pub is_conflict : Error → Bool
is_conflict (conflict _) = true
is_conflict _ = false

abbrev pub is_not_exist : Error → Bool
is_not_exist (not_exist _) = true
is_not_exist _ = false
