-- ===== src/Hosts/Config/Replace.antt =====
-- hosts/config.go: the file on the host mount while `WriteHostFile` replaces it.
use pharos_host_upgrades.Prelude.{
  ℕ, String, ◌<>◌, ◌≡◌, refl, Option, none, some, ◌⊎◌, inl, inr, [], ◌∷◌, ◌==◌,
}
use pharos_host_upgrades.Effects.{
  Error, Result, ok, err, Op, Resp, file, create_file, write_file, close_file, rename_file,
}
use pharos_host_upgrades.Effects.Logic.{Monitor, Safe, Safe-if}
use pharos_host_upgrades.External.{External}
use pharos_host_upgrades.Hosts.Config.{Config, mount_path, fill_host_file, write_host_file}

-- The temporary file: not made yet, open with some contents, of which a failed write leaves any
-- part, or closed and complete.
pub data Temp : Type 0 where
  missing partial : Temp
  filled complete : String → Temp

-- The temporary file, and the contents that have been moved to the file itself, if any.
pub record Disk : Type 0 where
  pub temp : Temp
  pub moved : Option String

abbrev pub fresh : Disk
fresh = record { temp = missing; moved = none }

-- What a successful close or rename makes of the temporary file.
abbrev closed : Temp → Temp
closed (filled contents) = complete contents
closed temp = temp

abbrev contents_of : Temp → Option String
contents_of (complete contents) = some contents
contents_of temp = none

module _ (temp_path path contents : String) where
  -- Only the temporary file is written, and it is moved only when it is complete.
  abbrev MayCall : Disk → Op → Type 0
  MayCall d (file (create_file p _)) = p ≡ temp_path
  MayCall d (file (rename_file old new)) =
      (old ≡ temp_path) × (new ≡ path) × (d.temp ≡ complete contents)
  MayCall d _ = Unit {0}

  abbrev after_call : Disk → (o : Op) → Resp o → Disk
  after_call d (file (create_file _ _)) (ok _) = record d { temp = partial }
  after_call d (file (write_file _ text)) none = record d { temp = filled text }
  after_call d (file (write_file _ text)) (some _) = record d { temp = partial }
  after_call d (file (close_file _)) none = record d { temp = closed d.temp }
  after_call d (file (rename_file _ _)) none = record d { moved = contents_of d.temp }
  after_call d _ _ = d

  abbrev pub replacing : Monitor Disk
  replacing = record { Pre = MayCall; Admits = λ _ _ _. Unit {0}; next = after_call; Out = λ _. ⊥ }

  -- All of the contents on success, and the file as it was on failure.
  abbrev pub Replaced : Result String → Disk → Type 0
  Replaced r d =
      ((r ≡ ok path) × (d.moved ≡ some contents)) ⊎ ((e : Error) × (r ≡ err e) × (d.moved ≡ none))

  pub fill_host_file-Replaced :
      (ext : External) (name : String) (f : ℕ) (d : Disk)
      → d.moved ≡ none
      → Safe replacing (fill_host_file ext name path temp_path contents f) d Replaced
  unfolding fill_host_file
  fill_host_file-Replaced ext name f d old = (
    tt,
    elim [
      | some e ↦ λ _. inr (_, refl, old)
      | none ↦ λ _. (
        tt,
        elim [
          | some e ↦ λ _. inr (_, refl, old)
          | none ↦ λ _. (
            (refl, refl, refl),
            elim [ some e ↦ λ _. inr (_, refl, old) | none ↦ λ _. inl (refl, refl) ],
          )
        ],
      )
    ],
  )

-- Whatever calls fail, `WriteHostFile` writes only to the temporary file beside the file, and either
-- succeeds and has moved all of the contents to the file, or fails and has moved nothing.
pub write_host_file-Replaced :
    (ext : External) (config : Config) (name contents : String) (mode : ℕ)
    → let path = mount_path ext config (name ∷ []) in
      Safe
        (replacing (path <> ".tmp") path contents)
        (write_host_file ext config name contents mode)
        fresh
        (Replaced (path <> ".tmp") path contents)
unfolding write_host_file
write_host_file-Replaced ext config name contents mode =
    let path = mount_path ext config (name ∷ []) in
    Safe-if (replacing (path <> ".tmp") path contents) (config.mount == "") _ _ fresh
      (Replaced (path <> ".tmp") path contents) (λ _. inr (_, refl, refl))
      λ _. (
        refl,
        elim [
          | err e ↦ λ _. inr (_, refl, refl)
          | ok f ↦ λ _.
              fill_host_file-Replaced (path <> ".tmp") path contents ext name f
                (record { temp = partial; moved = none }) refl
        ],
      )
