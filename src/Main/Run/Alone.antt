-- ===== src/Main/Run/Alone.antt =====
-- main.go without kube, and with the default flags.
use mathlib.Core.Path.{fun_ext}
use pharos_host_upgrades.Prelude.{
  ℕ, String, Bool, true, false, ◌&&◌, none, some, inl, inr, Bool-cases, if◌then◌else◌, ◌≡◌, refl,
  ◌∙◌, ap,
}
use pharos_host_upgrades.Effects.{
  MaybeError, errorf, wrap, Context, sleep, Prog, ret, ◌>>=◌, ◌>>◌, >>=-assoc, ask_process,
}
use pharos_host_upgrades.External.{External}
use pharos_host_upgrades.Hosts.Interface.{Info, Status, Host}
use pharos_host_upgrades.Main.Config.{Options}
use pharos_host_upgrades.Main.Kube
use pharos_host_upgrades.Main.Kube.{Kube}
use pharos_host_upgrades.Kube.Lock.{background}
use pharos_host_upgrades.Main.Scheduler
use pharos_host_upgrades.Main.Run.{
  sleep_time, prepare_reboot, reboot_if_required, upgrade_locked, finish_run, upgrade_run,
  run_configured, default_flags,
}

module _ (ext : External) {H : Type 0} (methods : Host H) (options : Options) (rounds : ℕ) where
  -- A reboot, and the wait for it to end the process.
  abbrev reboot_and_wait : H → Prog MaybeError
  reboot_and_wait host = methods.reboot host >>= elim [
    | some e ↦ ret (some (wrap "Failed to reboot host: " e))
    | none ↦ do
      ask_process (sleep (sleep_time options.reboot_timeout))
      ret (some (errorf "Timeout waiting for host to shutdown"))
  ]

  -- With --drain there is no node to drain, and the host is not rebooted.
  abbrev reboot_alone : H → Prog MaybeError
  reboot_alone host =
      if options.drain
      then ret (
          some (
            wrap "Failed to drain kube node for host reboot: "
              (errorf "No --kube-node configured")))
      else reboot_and_wait host

  abbrev after_upgrade : H → Status × MaybeError → Prog MaybeError
  after_upgrade host (status, some e) = ret (some e)
  after_upgrade host (status, none) =
      if options.reboot && status.reboot_required then reboot_alone host else ret none

  -- A run without kube, written out.
  abbrev pub run_alone : H → Prog MaybeError
  run_alone host = methods.upgrade host >>= after_upgrade host

  reboot-then_finish :
      (host : H)
      → (methods.reboot host
          >>= (elim [
            | some e ↦ ret (false, some (wrap "Failed to reboot host: " e))
            | none ↦ ret (true, none)
          ])
          >>= finish_run ext methods options rounds none)
        ≡ reboot_and_wait host
  unfolding finish_run Kube.release_lock
  reboot-then_finish host =
      >>=-assoc (methods.reboot host) _ _
      ∙ ap (λ f. methods.reboot host >>= f) (fun_ext (elim [ some e ↦ refl | none ↦ refl ]))

  after_upgrade-alone :
      (host : H) (status : Status)
      → (reboot_if_required ext methods options rounds host none status
          >>= finish_run ext methods options rounds none)
        ≡ after_upgrade host (status, none)
  unfolding reboot_if_required prepare_reboot finish_run Kube.release_lock Kube.drain_node
      Kube.mark_reboot
  after_upgrade-alone host status = elim (Bool-cases (options.reboot && status.reboot_required)) [
    | inl will ↦ elim (Bool-cases options.drain) [
      | inl drain ↦ rw (will, drain) refl
      | inr keep ↦ rw (will, keep) (reboot-then_finish host)
    ]
    | inr stays ↦ rw stays refl
  ]

  -- Without kube, a run takes no lock and writes no status: it upgrades the host, and with --reboot
  -- and without --drain reboots it if the upgrade requires it. With --drain as well it fails then.
  pub upgrade_run-alone :
      (host : H) (ctx : Context)
      → upgrade_run ext methods options rounds host none ctx ≡ run_alone host
  unfolding upgrade_run upgrade_locked Kube.acquire_lock
  upgrade_run-alone host ctx =
      >>=-assoc (methods.upgrade host) _ _
      ∙ ap (λ f. methods.upgrade host >>= f) (fun_ext λ (status, failure). upgraded status failure)
    where
      upgraded :
          (status : Status) (failure : MaybeError)
          → ((elim failure as (λ _. Prog (Bool × MaybeError)) [
            | some e ↦ do Kube.update_host_status ext none status (some e); ret (false, some e)
            | none ↦ do
              unreported ← Kube.update_host_status ext none status none
              elim unreported [
                | some e ↦ ret (false, some (wrap "Kube node status update failed: " e))
                | none ↦ reboot_if_required ext methods options rounds host none status
              ]
          ])
              >>= finish_run ext methods options rounds none)
            ≡ after_upgrade host (status, failure)
      upgraded status (some e) = refl
      upgraded status none = after_upgrade-alone host status

-- Without arguments and without the variables of kube, the configured program upgrades its host
-- once, and returns the error of the upgrade: there is no schedule, no lock and no reboot.
pub run_configured-default :
    (ext : External) {H : Type 0} (methods : Host H) (rounds : ℕ) (getenv : String → String)
    (host : H) (info : Info)
    → Kube.is_set (default_flags getenv).options.kube ≡ false
    → run_configured ext methods (default_flags getenv).options rounds host info
      ≡ (methods.upgrade host >>= λ (_, failure). ret failure)
unfolding run_configured default_flags Scheduler.make_scheduler Kube.make_kube Scheduler.run
run_configured-default ext methods rounds getenv host info unset = rw unset (
    upgrade_run-alone ext methods (default_flags getenv).options rounds host background
    ∙ ap (λ f. methods.upgrade host >>= f) (fun_ext λ (status, failure). upgraded status failure))
  where
    upgraded :
        (status : Status) (failure : MaybeError)
        → after_upgrade ext methods (default_flags getenv).options rounds host (status, failure)
          ≡ ret failure
    upgraded status (some e) = refl
    upgraded status none = refl
