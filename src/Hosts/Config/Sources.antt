-- ===== src/Hosts/Config/Sources.antt =====
-- hosts/config.go: the files that are copied from the configuration or generated from a template.
use pharos_host_upgrades.Prelude.{
  ℕ, String, ◌<>◌, ◌≡◌, refl, sym, subst, none, some, inr, [], ◌∷◌, ◌==◌, Entries,
}
use pharos_host_upgrades.Effects.{Result, ok, err, Op, Resp, file, read_file, execute_template}
use pharos_host_upgrades.Effects.Logic.{Monitor, Safe, Safe-if, Safe-bind, Safe-admits}
use pharos_host_upgrades.External.{External}
use pharos_host_upgrades.Hosts.Config.{
  Config, mount_path, fill_host_file, open_config, copy_opened, copy_host_file, write_host_file,
  generate_file, file_mode_default,
}
use pharos_host_upgrades.Hosts.Config.Replace.{
  Disk, fresh, partial, replacing, Replaced, fill_host_file-Replaced, write_host_file-Replaced,
}

-- A source gives these contents where it gives any.
abbrev Gives : String → (o : Op) → Resp o → Type 0
Gives contents (file (read_file _)) (ok text) = text ≡ contents
Gives contents (file (execute_template _ _ _)) (ok text) = text ≡ contents
Gives contents _ _ = Unit {0}

-- The monitor of a file that is replaced by the contents of a source.
abbrev pub sourced : String → String → String → Monitor Disk
sourced temp_path path contents = record (replacing temp_path path contents) {
  Admits = λ _ o r. Gives contents o r;
}

module _ (ext : External) (config : Config) (name contents : String) where
  abbrev path : String
  path = mount_path ext config (name ∷ [])

  abbrev monitor : Monitor Disk
  monitor = sourced (path <> ".tmp") path contents

  abbrev Ends : Result String → Disk → Type 0
  Ends = Replaced (path <> ".tmp") path contents

  copy_opened-Replaced : (source : ℕ) → Safe monitor (copy_opened ext config name source) fresh Ends
  unfolding copy_opened
  copy_opened-Replaced source =
      Safe-if monitor (config.mount == "") _ _ fresh Ends (λ _. inr (_, refl, refl))
        λ _. (
          refl,
          elim [
            | err e ↦ λ _. inr (_, refl, refl)
            | ok f ↦ λ _. (
              tt,
              elim [
                | err e ↦ λ _. inr (_, refl, refl)
                | ok text ↦ λ same. rw same (
                    Safe-admits (replacing (path <> ".tmp") path contents) _ (λ _ _ _ _. tt)
                      (fill_host_file ext name path (path <> ".tmp") contents f)
                      (record { temp = partial; moved = none }) Ends
                      (fill_host_file-Replaced (path <> ".tmp") path contents ext name f
                        (record { temp = partial; moved = none }) refl))
              ],
            )
          ],
        )

  -- Whatever calls fail, `CopyHostFile` writes only to the temporary file, and either succeeds and
  -- has moved all of the contents that it has read to the file on the mount, or fails and has moved
  -- nothing.
  pub copy_host_file-Replaced :
      Safe
        (sourced
          (mount_path ext config (name ∷ []) <> ".tmp")
          (mount_path ext config (name ∷ []))
          contents)
        (copy_host_file ext config name)
        fresh
        (Replaced
          (mount_path ext config (name ∷ []) <> ".tmp")
          (mount_path ext config (name ∷ []))
          contents)
  unfolding copy_host_file open_config
  copy_host_file-Replaced = (
    tt,
    elim [
      | err e ↦ λ _. inr (_, refl, refl)
      | ok source ↦ λ _.
          Safe-bind monitor (copy_opened ext config name source) _ fresh Ends Ends
            (copy_opened-Replaced source)
            λ r d ends. (tt, elim [ none ↦ λ _. ends | some e ↦ λ _. ends ])
    ],
  )

  -- The same of `GenerateFile`, with the contents that the template gives for the values.
  pub generate_file-Replaced :
      (text : String) (values : Entries)
      → Safe
          (sourced
            (mount_path ext config (name ∷ []) <> ".tmp")
            (mount_path ext config (name ∷ []))
            contents)
          (generate_file ext config name text values)
          fresh
          (Replaced
            (mount_path ext config (name ∷ []) <> ".tmp")
            (mount_path ext config (name ∷ []))
            contents)
  unfolding generate_file
  generate_file-Replaced text values = (
    tt,
    elim [
      | some e ↦ λ _. inr (_, refl, refl)
      | none ↦ λ _. (
        tt,
        elim [
          | err e ↦ λ _. inr (_, refl, refl)
          | ok given ↦ λ same.
              subst
                (λ t. Safe monitor (write_host_file ext config name t file_mode_default) fresh Ends)
                (sym same)
                (Safe-admits (replacing (path <> ".tmp") path contents) _ (λ _ _ _ _. tt)
                  (write_host_file ext config name contents file_mode_default) fresh Ends
                  (write_host_file-Replaced ext config name contents file_mode_default))
        ],
      )
    ],
  )
