-- ===== src/Hosts/Config.antt =====
-- hosts/config.go: the directories given by --config-path and --host-mount, and the files in them.
pub mod Replace
pub mod Sources
use pharos_host_upgrades.Prelude.{
  ℕ, String, ◌<>◌, Bool, true, false, not, Option, none, some, List, [], ◌∷◌, Entries, ◌==◌,
  if◌then◌else◌,
}
use pharos_host_upgrades.Effects.{
  MaybeError, Result, ok, err, errorf, wrap, is_not_exist, FileInfo, stat, open_file, create_file,
  read_file, write_file, close_file, rename_file, parse_template, execute_template, Prog, ret,
  ◌>>=◌, ◌>>◌, ask_file,
}
use pharos_host_upgrades.External.{External}

pub record Config : Type 0 where
  pub path : String
  pub mount : String

-- `testDir`: whether the path exists, and the error
unfoldable pub test_dir : String → Prog (Bool × MaybeError)
test_dir path = do
  answer ← ask_file (stat path)
  elim answer [
    | err e ↦ if is_not_exist e then ret (false, none) else ret (false, some e)
    | ok info ↦
        if not info.is_dir then ret (true, some (errorf "not a directory")) else ret (true, none)
  ]

-- What `UsePath` and `UseMount` make of the test, with the changed configuration.
abbrev use_dir : Config → Config → Bool × MaybeError → (Bool × MaybeError) × Config
use_dir config changed (exists, some e) = ((exists, some e), config)
use_dir config changed (exists, none) =
    if exists then ((true, none), changed) else ((false, none), config)

unfoldable pub use_path : Config → String → Prog ((Bool × MaybeError) × Config)
unfolding test_dir
use_path config path = do
  tested ← test_dir path
  ret (use_dir config (record config { path = path }) tested)

unfoldable pub use_mount : Config → String → Prog ((Bool × MaybeError) × Config)
unfolding test_dir
use_mount config path = do
  tested ← test_dir path
  ret (use_dir config (record config { mount = path }) tested)

-- os.FileMode
abbrev pub file_mode_default : ℕ
file_mode_default = 0o644

abbrev pub file_mode_script : ℕ
file_mode_script = 0o755

module _ (ext : External) where
  -- `Path`, `MountPath` and `HostPath`
  unfoldable pub path_of : Config → List String → String
  path_of config name = ext.join_path (config.path ∷ name)

  unfoldable pub mount_path : Config → List String → String
  mount_path config name = ext.join_path (config.mount ∷ name)

  unfoldable pub host_path : Config → List String → String
  host_path config name = ext.join_path (config.mount ∷ name)

  unfoldable pub file_exists : Config → String → Prog (Bool × MaybeError)
  unfolding path_of
  file_exists config name = do
    answer ← ask_file (stat (path_of config (name ∷ [])))
    elim answer [
      | err e ↦ if is_not_exist e then ret (false, none) else ret (false, some e)
      | ok info ↦
          if not info.is_regular
          then ret (false, some (errorf ("Not a file: " <> config.path <> "/" <> name)))
          else ret (true, none)
    ]

  unfoldable pub open_config : Config → String → Prog (Result ℕ)
  unfolding path_of
  open_config config name = ask_file (open_file (path_of config (name ∷ [])))

  -- `StatHostFile`: `ok none` where the file does not exist
  unfoldable pub stat_host_file : Config → String → Prog (Result (Option FileInfo))
  unfolding mount_path
  stat_host_file config name = do
    answer ← ask_file (stat (mount_path config (name ∷ [])))
    elim answer [
      | err e ↦ if is_not_exist e then ret (ok none) else ret (err e)
      | ok info ↦ ret (ok (some info))
    ]

  -- `ReadHostFile`: the contents
  unfoldable pub read_host_file : Config → String → Prog (Result String)
  unfolding mount_path
  read_host_file config name =
      if config.mount == "" then ret (err (errorf "No host mount given")) else do
        opened ← ask_file (open_file (mount_path config (name ∷ [])))
        elim opened [
          | err e ↦ ret (err (wrap ("Open host " <> name <> " file: ") e))
          | ok f ↦ do
            copied ← ask_file (read_file f)
            elim copied [
              | err e ↦ do
                ask_file (close_file f)
                ret (err (wrap ("Copy from host " <> name <> " file: ") e))
              | ok contents ↦ do
                closed ← ask_file (close_file f)
                elim closed [
                  | some e ↦ ret (err (wrap ("Close host " <> name <> " file: ") e))
                  | none ↦ ret (ok contents)
                ]
            ]
        ]

  -- The writes of `WriteHostFile`, once the temporary file is open.
  unfoldable pub fill_host_file : String → String → String → String → ℕ → Prog (Result String)
  fill_host_file name mounted temp contents f = do
    copied ← ask_file (write_file f contents)
    elim copied [
      | some e ↦ ret (err (wrap ("Copy to host " <> name <> " file: ") e))
      | none ↦ do
        closed ← ask_file (close_file f)
        elim closed [
          | some e ↦ ret (err (wrap ("Close host " <> name <> " file: ") e))
          | none ↦ do
            renamed ← ask_file (rename_file temp mounted)
            elim renamed [
              | some e ↦ ret (err (wrap ("Rename host " <> name <> " file: ") e))
              | none ↦ ret (ok mounted)
            ]
        ]
    ]

  -- `WriteHostFile`, with the one option that it takes: the mode
  unfoldable pub write_host_file : Config → String → String → ℕ → Prog (Result String)
  unfolding mount_path fill_host_file
  write_host_file config name contents mode =
      if config.mount == "" then ret (err (errorf "No host mount given")) else do
        let mounted = mount_path config (name ∷ [])
        let temp = mounted <> ".tmp"
        created ← ask_file (create_file temp mode)
        elim created [
          | err e ↦ ret (err (wrap ("Create host " <> name <> " file: ") e))
          | ok f ↦ fill_host_file name mounted temp contents f
        ]

  -- The copy of `CopyHostFile`: `io.Copy` reads the open file, and a failed read is a failed copy.
  unfoldable pub copy_opened : Config → String → ℕ → Prog (Result String)
  unfolding mount_path fill_host_file
  copy_opened config name source =
      if config.mount == "" then ret (err (errorf "No host mount given")) else do
        let mounted = mount_path config (name ∷ [])
        let temp = mounted <> ".tmp"
        created ← ask_file (create_file temp file_mode_default)
        elim created [
          | err e ↦ ret (err (wrap ("Create host " <> name <> " file: ") e))
          | ok f ↦ do
            contents ← ask_file (read_file source)
            elim contents [
              | err e ↦ ret (err (wrap ("Copy to host " <> name <> " file: ") e))
              | ok text ↦ fill_host_file name mounted temp text f
            ]
        ]

  -- `CopyHostFile`, whose `defer` closes the file on every path
  unfoldable pub copy_host_file : Config → String → Prog (Result String)
  unfolding open_config copy_opened
  copy_host_file config name = do
    opened ← open_config config name
    elim opened [
      | err e ↦ ret (err (wrap ("Open config " <> name <> " file: ") e))
      | ok source ↦ do
        result ← copy_opened config name source
        ask_file (close_file source)
        ret result
    ]

  unfoldable pub generate_file : Config → String → String → Entries → Prog (Result String)
  unfolding write_host_file
  generate_file config name text values = do
    parsed ← ask_file (parse_template name text)
    elim parsed [
      | some e ↦ ret (err (wrap ("Invalid template for " <> name <> ": ") e))
      | none ↦ do
        executed ← ask_file (execute_template name text values)
        elim executed [
          | err e ↦ ret (err (wrap ("Failed template for " <> name <> ": ") e))
          | ok contents ↦ write_host_file config name contents file_mode_default
        ]
    ]
