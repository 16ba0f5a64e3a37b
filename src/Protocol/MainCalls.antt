-- ===== src/Protocol/MainCalls.antt =====
-- main.go and scheduler.go against the rules of the lock, over any kind of host.
use pharos_host_upgrades.Prelude.{
  ℕ, zero, suc, ◌≡◌, refl, Bool, true, false, not, ◌&&◌, none, some, inl, inr, List, [], ◌∷◌,
  Option-cases, Option,
}
use pharos_host_upgrades.Effects.{
  MaybeError, Result, ok, err, wrap, ◌>>◌, Context, Prog, ret, ◌>>=◌,
}
use pharos_host_upgrades.Effects.Logic.{
  Safe, Safe-bind, Safe-Within, Safe-if, Within, Within-bind, Within-if, Within-weaken,
}
use pharos_host_upgrades.External.{External}
use pharos_host_upgrades.Kube.Lock.{background}
use pharos_host_upgrades.Hosts.Config.{Config}
use pharos_host_upgrades.Hosts.Interface.{Info, Status, Host}
use pharos_host_upgrades.Hosts.Kinds
use pharos_host_upgrades.Main.Config.{Options, load_config}
use pharos_host_upgrades.Main.Kube
use pharos_host_upgrades.Main.Kube.{Kube}
use pharos_host_upgrades.Main.Scheduler
use pharos_host_upgrades.Main.Scheduler.{Scheduler}
use pharos_host_upgrades.Main.Run
use pharos_host_upgrades.Protocol.{
  Local, LockId, protocol, IsQuiet, IsApart, IsQuiet-IsApart, IsQuiet-Ignores, IsApart-Ignores,
}
use pharos_host_upgrades.Protocol.KubeCalls.{
  update_host_status-Quiet, mark_reboot-Quiet, drain_node-Apart,
}
use pharos_host_upgrades.Protocol.RunCalls.{
  HasLock, Ended, Made, id_of, acquire_lock-Safe, release_lock-Safe, make_kube-Safe,
}
use pharos_host_upgrades.Protocol.ConfigCalls.{load_config-Quiet}

-- What a kind of host owes to the lock: its probe and configuration do not concern the lock, its
-- upgrade and reboot do not touch the DaemonSet, and none of them receives a start or looks at the
-- context of a run.
pub record FollowsLock {H : Type 0} (methods : Host H) : Type 0 where
  pub probe_quiet : (h : H) → Within IsQuiet (methods.probe h)
  pub config_quiet : (h : H) (config : Config) → Within IsQuiet (methods.config h config)
  pub upgrade_apart : (h : H) → Within IsApart (methods.upgrade h)
  pub reboot_apart : (h : H) → Within IsApart (methods.reboot h)

module _ (ext : External) {H : Type 0} (methods : Host H) (follows : FollowsLock methods)
    (options : Options) (rounds : ℕ) where
  prepare_reboot-Apart :
      (k : Option Kube) → Within IsApart (Run.prepare_reboot ext methods options rounds k)
  unfolding Run.prepare_reboot
  prepare_reboot-Apart k = Within-if IsApart (not options.drain) _ _ tt (
      Within-bind IsApart (Kube.drain_node ext k) _ (drain_node-Apart ext k) (elim [
        | some e ↦ tt
        | none ↦ (
          tt,
          λ t.
              Within-bind IsApart (Kube.mark_reboot ext k t) _
                (Within-weaken IsQuiet IsApart IsQuiet-IsApart _ (mark_reboot-Quiet ext k t))
                (elim [ some e ↦ tt | none ↦ tt ]),
        )
      ]))

  reboot_if_required-Apart :
      (host : H) (k : Option Kube) (status : Status)
      → Within IsApart (Run.reboot_if_required ext methods options rounds host k status)
  unfolding Run.reboot_if_required
  reboot_if_required-Apart host k status =
      Within-if IsApart (options.reboot && status.reboot_required) _ _
        (Within-bind IsApart (Run.prepare_reboot ext methods options rounds k) _
          (prepare_reboot-Apart k)
          (elim [
            | some e ↦ tt
            | none ↦
                Within-bind IsApart (methods.reboot host) _ (follows.reboot_apart host)
                  (elim [ some e ↦ tt | none ↦ tt ])
          ]))
        tt

  update_host_status-Apart :
      (k : Option Kube) (status : Status) (failure : MaybeError)
      → Within IsApart (Kube.update_host_status ext k status failure)
  update_host_status-Apart k status failure =
      Within-weaken IsQuiet IsApart IsQuiet-IsApart _
        (update_host_status-Quiet ext k status failure)

  -- The upgrade, the drain and the reboot leave the DaemonSet alone.
  pub upgrade_locked-Apart :
      (host : H) (k : Option Kube)
      → Within IsApart (Run.upgrade_locked ext methods options rounds host k)
  unfolding Run.upgrade_locked
  upgrade_locked-Apart host k =
      Within-bind IsApart (methods.upgrade host) _ (follows.upgrade_apart host)
        λ (status, failure). after_upgrade status failure
    where
      after_upgrade :
          (status : Status) (failure : MaybeError)
          → Within IsApart {A = Bool × MaybeError} (elim failure [
            | some e ↦ do Kube.update_host_status ext k status (some e); ret (false, some e)
            | none ↦ do
              unreported ← Kube.update_host_status ext k status none
              elim unreported [
                | some e ↦ ret (false, some (wrap "Kube node status update failed: " e))
                | none ↦ Run.reboot_if_required ext methods options rounds host k status
              ]
          ])
      after_upgrade status (some e) =
          Within-bind IsApart (Kube.update_host_status ext k status (some e)) _
            (update_host_status-Apart k status (some e)) (λ _. tt)
      after_upgrade status none =
          Within-bind IsApart (Kube.update_host_status ext k status none) _
            (update_host_status-Apart k status none)
            (elim [ some e ↦ tt | none ↦ reboot_if_required-Apart host k status ])

  module _ (id : LockId) where
    finish_run-Safe :
        (k : Option Kube) (outcome : Bool × MaybeError) (m : Local)
        → HasLock id k
        → Safe (protocol id) (Run.finish_run ext methods options rounds k outcome) m Ended
    unfolding Run.finish_run
    finish_run-Safe k (rebooting, some e) m has =
        Safe-bind (protocol id) (Kube.release_lock rounds k) _ m Ended Ended
          (release_lock-Safe ext id rounds k m has) (λ _ _ _. tt)
    finish_run-Safe k (true, none) m has = (tt, λ _ _. tt)
    finish_run-Safe k (false, none) m has =
        Safe-bind (protocol id) (Kube.release_lock rounds k) _ m Ended Ended
          (release_lock-Safe ext id rounds k m has) (elim [ some e ↦ λ _ _. tt | none ↦ λ _ _. tt ])

    -- One run: the lock is acquired first, and only then is the host touched.
    upgrade_run-Safe :
        (host : H) (k : Option Kube) (ctx : Context) (m : Local)
        → HasLock id k
        → Safe (protocol id) (Run.upgrade_run ext methods options rounds host k ctx) m Ended
    unfolding Run.upgrade_run
    upgrade_run-Safe host k ctx m has =
        Safe-bind (protocol id) (Kube.acquire_lock rounds k ctx) _ m
          (λ e m'. e ≡ none → m'.held ≡ true) Ended (acquire_lock-Safe ext id rounds k ctx m has)
          (elim [
            | some e ↦ λ _ _. tt
            | none ↦ λ m' held.
                Safe-bind (protocol id) (Run.upgrade_locked ext methods options rounds host k) _ m'
                  (λ _ m''. m'' ≡ m') Ended
                  (Safe-Within (protocol id) IsApart m' (IsApart-Ignores id m' (held refl)) _
                    (upgrade_locked-Apart host k))
                  (λ outcome m'' _. finish_run-Safe k outcome m'' has)
          ])

    run_loop-Safe :
        (n : ℕ) (scheduler : Scheduler) (f : Context → Prog MaybeError) (m : Local)
        → ((ctx : Context) (m' : Local) → Safe (protocol id) (f ctx) m' Ended)
        → Safe (protocol id) (Scheduler.run_loop n scheduler f) m (λ _ _. Unit {0})
    unfolding Scheduler.run_loop
    run_loop-Safe zero scheduler f m safe = tt
    run_loop-Safe (suc n) scheduler f m safe = (
      tt,
      elim [
        | none ↦ λ _. tt
        | some start ↦ λ _.
            let ctx = Scheduler.run_context scheduler start in
            Safe-bind (protocol id) (f ctx) _ m Ended (λ _ _. Unit {0}) (safe ctx m)
              (elim [
                | some e ↦ λ _ _. (tt, λ r _. absurd r)
                | none ↦ λ m' _. (tt, λ _ _. run_loop-Safe n scheduler f m' safe)
              ])
      ],
    )

    scheduler_run-Safe :
        (scheduler : Scheduler) (f : Context → Prog MaybeError) (m : Local)
        → ((ctx : Context) (m' : Local) → Safe (protocol id) (f ctx) m' Ended)
        → Safe (protocol id) (Scheduler.run rounds scheduler f) m Ended
    unfolding Scheduler.run
    scheduler_run-Safe scheduler f m safe = elim (Option-cases scheduler.schedule) [
      | inl e ↦ rw (e, Scheduler.run) (safe background m)
      | inr (s, e) ↦
          rw (e, Scheduler.run)
            (
              tt,
              λ _ _.
                  Safe-bind (protocol id) (Scheduler.run_loop rounds scheduler f) _ m
                    (λ _ _. Unit {0}) Ended (run_loop-Safe rounds scheduler f m safe) (λ _ _ _. tt),
            )
    ]

  run_configured-Safe :
      (host : H) (info : Info) (m : Local)
      → Kube.is_set options.kube ≡ true
      → Safe
          (protocol (id_of options.kube))
          (Run.run_configured ext methods options rounds host info)
          m
          Ended
  unfolding Run.run_configured
  run_configured-Safe host info m set = scheduled (Scheduler.make_scheduler ext options)
    where
      id : LockId
      id = id_of options.kube

      scheduled :
          (made : Result Scheduler)
          → Safe
              (protocol (id_of options.kube))
              {A = MaybeError}
              (elim made [
                | err e ↦ ret (some e)
                | ok scheduler ↦ do
                  answer ← Kube.make_kube ext rounds options.kube info
                  elim answer [
                    | err e ↦ ret (some (wrap "Failed to initialize kube: " e))
                    | ok k ↦
                        Scheduler.run rounds scheduler
                          (Run.upgrade_run ext methods options rounds host k)
                  ]
              ])
              m
              Ended
      scheduled (err e) = tt
      scheduled (ok scheduler) =
          Safe-bind (protocol (id_of options.kube)) (Kube.make_kube ext rounds options.kube info) _
            m (Made ext (id_of options.kube)) Ended
            (make_kube-Safe ext rounds options.kube info m set)
            (elim [
              | err e ↦ λ _ _. tt
              | ok k ↦ λ m' has.
                  scheduler_run-Safe (id_of options.kube) scheduler _ m'
                    (λ ctx m''. upgrade_run-Safe (id_of options.kube) host k ctx m'' has)
            ])

  probe_first-Quiet : (hosts : List H) → Within IsQuiet (Kinds.probe_first methods hosts)
  unfolding Kinds.probe_first
  probe_first-Quiet [] = tt
  probe_first-Quiet (h ∷ hs) =
      Within-bind IsQuiet (methods.probe h) _ (follows.probe_quiet h)
        λ ((info, matched), h'). Within-if IsQuiet matched _ _ tt (probe_first-Quiet hs)

  run-Safe :
      (hosts : List H) (m : Local)
      → Kube.is_set options.kube ≡ true
      → Safe (protocol (id_of options.kube)) (Run.run ext methods options rounds hosts) m Ended
  unfolding Run.run
  run-Safe hosts m set = quietly (load_config options) _ m (load_config-Quiet options) (elim [
    | err e ↦ λ _. tt
    | ok config ↦ λ m₁.
        quietly (Kinds.probe_first methods hosts) _ m₁ (probe_first-Quiet hosts) (elim [
          | err e ↦ λ _. tt
          | ok (host, info) ↦ λ m₂.
              quietly (methods.config host config) _ m₂ (follows.config_quiet host config)
                λ (unconfigured, configured). configured_run unconfigured configured info
        ])
  ])
    where
      quietly :
          {A : Type 0} (p : Prog A) (f : A → Prog MaybeError) (m' : Local)
          → Within IsQuiet p
          → ((a : A) (m'' : Local) → Safe (protocol (id_of options.kube)) (f a) m'' Ended)
          → Safe (protocol (id_of options.kube)) (p >>= f) m' Ended
      quietly p f m' w next =
          Safe-bind (protocol (id_of options.kube)) p f m' (λ _ m''. m'' ≡ m') Ended
            (Safe-Within (protocol (id_of options.kube)) IsQuiet m'
              (IsQuiet-Ignores (id_of options.kube) m') p w)
            (λ a m'' _. next a m'')

      configured_run :
          (unconfigured : MaybeError) (configured : H) (info : Info) (m' : Local)
          → Safe
              (protocol (id_of options.kube))
              {A = MaybeError}
              (elim unconfigured [
                | some e ↦ ret (some (wrap "Failed to configure host: " e))
                | none ↦ Run.run_configured ext methods options rounds configured info
              ])
              m'
              Ended
      configured_run (some e) configured info m' = tt
      configured_run none configured info m' = run_configured-Safe configured info m' set

  -- With kube options, and over any kind of host that follows the rules of the lock, the program
  -- follows them from any knowledge on, whatever its surroundings answer.
  pub main-Safe :
      (hosts : List H) (m : Local)
      → Kube.is_set options.kube ≡ true
      → Safe
          (protocol (id_of options.kube))
          (Run.main ext methods options rounds hosts)
          m
          (λ _ _. Unit {0})
  unfolding Run.main
  main-Safe hosts m set =
      Safe-bind (protocol (id_of options.kube)) (Run.run ext methods options rounds hosts) _ m Ended
        (λ _ _. Unit {0}) (run-Safe hosts m set)
        (elim [ some e ↦ λ _ _. (tt, λ r _. absurd r) | none ↦ λ _ _. tt ])

-- The same of `main` from its flags on; the version flag ends it before any call.
pub command-Safe :
    (ext : External) {H : Type 0} (methods : Host H) (follows : FollowsLock methods)
    (flags : Run.Flags) (rounds : ℕ) (hosts : List H) (m : Local)
    → Kube.is_set flags.options.kube ≡ true
    → Safe
        (protocol (id_of flags.options.kube))
        (Run.command ext methods rounds hosts flags)
        m
        (λ _ _. Unit {0})
unfolding Run.command
command-Safe ext methods follows flags rounds hosts m set =
    Safe-if (protocol (id_of flags.options.kube)) flags.version _ _ m (λ _ _. Unit {0}) (λ _. tt)
      (λ _. main-Safe ext methods follows flags.options rounds hosts m set)
