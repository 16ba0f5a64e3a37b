-- ===== src/Systemd/Reboot.antt =====
-- systemd/reboot.go
use pharos_host_upgrades.Prelude.{none, some}
use pharos_host_upgrades.Effects.{
  MaybeError, ok, err, wrap, login1_new, login1_reboot, login1_close, Prog, ret, ◌>>=◌, ◌>>◌,
  ask_system,
}

-- `Reboot`: login1 reports no error of the reboot itself.
unfoldable pub reboot : Prog MaybeError
reboot = do
  connected ← ask_system login1_new
  elim connected [
    | err e ↦ ret (some (wrap "login1.New: " e))
    | ok conn ↦ do ask_system (login1_reboot conn); ask_system (login1_close conn); ret none
  ]
