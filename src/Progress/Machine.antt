-- ===== src/Progress/Machine.antt =====
-- What the hosts call in a world that does its part (systemd/exec.go, systemd/reboot.go and
-- hosts/config.go), in the build without cgo.
pub mod Apt
pub mod Centos
use pharos_host_upgrades.Prelude.{
  ℕ, String, ◌≡◌, refl, Bool, true, false, none, some, List, ◌==◌, Bool-cases, inl, inr, Option,
  if◌then◌else◌,
}
use pharos_host_upgrades.Effects.{
  Error, MaybeError, Result, ok, err, FileInfo, is_not_exist, Prog, ret, ◌>>=◌,
}
use pharos_host_upgrades.Effects.Logic.{Safe, Safe-bind}
use pharos_host_upgrades.External.{External}
use pharos_host_upgrades.Systemd.Exec
use pharos_host_upgrades.Systemd.Exec.{ExecOptions, ExecResult}
use pharos_host_upgrades.Systemd.Journal
use pharos_host_upgrades.Systemd.Reboot
use pharos_host_upgrades.Hosts.Config
use pharos_host_upgrades.Hosts.Config.{Config}
use pharos_host_upgrades.Progress.{World, IsOk, Stats, progress}
use pharos_host_upgrades.Progress.Writes.{Succeeds}

pub exec-progress :
    (rounds : ℕ) (name : String) (options : ExecOptions) (m : World)
    → Safe progress (Exec.exec false rounds name options) m (λ r m'. (r.1 ≡ none) × (m' ≡ m))
unfolding Exec.exec Exec.exec_body Exec.exec_connected Exec.connect Exec.reset Exec.start
    Exec.open_journal Exec.get_service_timestamp Journal.open_journal Journal.open_disabled
    Exec.wait Exec.read_log Exec.close Exec.close_conn Exec.close_reader
exec-progress rounds name options m = (
  tt,
  elim [
    | err e ↦ λ n. absurd n
    | ok conn ↦ λ _. (
      tt,
      λ r reset. rw reset (
        tt,
        λ r' started. rw started (
          tt,
          λ r'' (n, stamped).
              rw stamped (tt, λ status finished. rw finished (tt, λ _ _. (refl, refl))),
        ),
      ),
    )
  ],
)

-- `Reboot` succeeds.
pub reboot-progress : (m : World) → Safe progress Reboot.reboot m (Succeeds (λ m'. m' ≡ m))
unfolding Reboot.reboot
reboot-progress m =
    (tt, elim [ err e ↦ λ n. absurd n | ok conn ↦ λ _. (tt, λ _ _. (tt, λ _ _. (refl, refl))) ])

-- The file is found if it is there.
abbrev pub Found : Bool → Result (Option FileInfo) → Type 0
Found true (ok (some info)) = Unit {0}
Found false (ok none) = Unit {0}
Found _ _ = ⊥

module _ (ext : External) (config : Config) (mounted : (config.mount == "") ≡ false) where
  pub read_host_file-progress :
      (name : String) (m : World)
      → Safe progress (Config.read_host_file ext config name) m (λ r m'. IsOk r × (m' ≡ m))
  unfolding Config.read_host_file
  read_host_file-progress name m = rw mounted (
    tt,
    elim [
      | err e ↦ λ n. absurd n
      | ok f ↦ λ _. (
        tt,
        elim [ err e ↦ λ n. absurd n | ok contents ↦ λ _. (tt, λ r closed. rw closed (tt, refl)) ],
      )
    ],
  )

module _ (ext : External) (config : Config) where
  pub stat_host_file-progress :
      (name : String) (m : World)
      → Safe progress
          (Config.stat_host_file ext config name)
          m
          (λ r m'. Found m.flagged r × (m' ≡ m))
  unfolding Config.stat_host_file
  stat_host_file-progress name m = (tt, answered m.flagged)
    where
      answered :
          (flagged : Bool) (r : Result FileInfo)
          → Stats flagged r
          → Safe progress {A = Result (Option FileInfo)}
              (elim r [
                | err e ↦ if is_not_exist e then ret (ok none) else ret (err e)
                | ok info ↦ ret (ok (some info))
              ])
              m
              (λ r' m'. Found flagged r' × (m' ≡ m))
      answered true (ok info) there = (tt, refl)
      answered true (err e) there = absurd there
      answered false (ok info) there = absurd there
      answered false (err e) missing = rw missing (tt, refl)
