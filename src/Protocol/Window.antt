-- ===== src/Protocol/Window.antt =====
-- main.go: a run whose window is over.
use pharos_host_upgrades.Prelude.{
  ℕ, ◌<◌, ◌≡◌, refl, Bool, true, false, Option, none, some, inl, inr, Option-cases,
}
use pharos_host_upgrades.Effects.{
  MaybeError, Context, Op, process, receive_start, ctx_err, ret, ◌>>=◌,
}
use pharos_host_upgrades.Effects.Logic.{
  Safe, Safe-bind, Safe-weaken, Safe-Within, Within, Within-bind, Within-weaken,
}
use pharos_host_upgrades.External.{External}
use pharos_host_upgrades.Hosts.Interface.{Host}
use pharos_host_upgrades.Kube.Lock.{release, release_object, background}
use pharos_host_upgrades.Kube.Lock.Calls.{modify-Within}
use pharos_host_upgrades.Main.Config.{Options}
use pharos_host_upgrades.Main.Kube
use pharos_host_upgrades.Main.Kube.{Kube}
use pharos_host_upgrades.Main.Kube.Deadline.{
  has_deadline, live, over, expiry, GivesUp, IsTimeless, IsTimeless-Ignores, some-ne-none,
  acquire_lock-GivesUp,
}
use pharos_host_upgrades.Main.Run
use pharos_host_upgrades.Protocol.{IsApart}
use pharos_host_upgrades.Protocol.MainCalls.{FollowsLock, upgrade_locked-Apart}

IsApart-IsTimeless : (o : Op) → IsApart o → IsTimeless o
IsApart-IsTimeless (process (ctx_err _)) apart = absurd apart
IsApart-IsTimeless (process receive_start) apart = absurd apart
IsApart-IsTimeless _ apart = tt

release_lock-IsTimeless :
    (rounds : ℕ) (k : Option Kube) → Within IsTimeless (Kube.release_lock rounds k)
unfolding Kube.release_lock release
release_lock-IsTimeless rounds k = elim (Option-cases (Kube.lock_of k)) [
  | inl e ↦ rw (e, Kube.release_lock) tt
  | inr (lock, e) ↦
      rw (e, Kube.release_lock)
        (modify-Within IsTimeless lock background refl tt (λ _. tt) tt
          (λ object. ret (release_object lock object)) (λ _. tt) rounds)
]

module _ (ext : External) {H : Type 0} (methods : Host H) (options : Options) (rounds : ℕ) where
  pub finish_run-IsTimeless :
      (k : Option Kube) (outcome : Bool × MaybeError)
      → Within IsTimeless (Run.finish_run ext methods options rounds k outcome)
  unfolding Run.finish_run
  finish_run-IsTimeless k (rebooting, some e) =
      Within-bind IsTimeless (Kube.release_lock rounds k) _ (release_lock-IsTimeless rounds k)
        (λ _. tt)
  finish_run-IsTimeless k (true, none) = (tt, λ _. tt)
  finish_run-IsTimeless k (false, none) =
      Within-bind IsTimeless (Kube.release_lock rounds k) _ (release_lock-IsTimeless rounds k)
        (elim [ some e ↦ tt | none ↦ tt ])

  -- What a run does with the lock leaves the window out of account.
  locked-IsTimeless :
      (follows : FollowsLock methods) (host : H) (k : Option Kube)
      → Within IsTimeless (
          Run.upgrade_locked ext methods options rounds host k
          >>= Run.finish_run ext methods options rounds k)
  locked-IsTimeless follows host k =
      Within-bind IsTimeless (Run.upgrade_locked ext methods options rounds host k) _
        (Within-weaken IsApart IsTimeless IsApart-IsTimeless _
          (upgrade_locked-Apart ext methods follows options rounds host k))
        (finish_run-IsTimeless k)

  -- On a host that follows the rules, where the context of a run has a deadline and is over after
  -- fewer looks at it than there are rounds: once the run sees the context to be over, it makes no
  -- more calls than to wait and to look at the context, and it ends, with an error.
  pub upgrade_run-GivesUp :
      (follows : FollowsLock methods) (host : H) (k : Option Kube) (ctx : Context) (n : ℕ)
      → has_deadline ctx ≡ true
      → n < rounds
      → Safe expiry (Run.upgrade_run ext methods options rounds host k ctx) (live n) GivesUp
  unfolding Run.upgrade_run
  upgrade_run-GivesUp follows host k ctx n limited fewer =
      Safe-bind expiry (Kube.acquire_lock rounds k ctx) _ (live n) GivesUp GivesUp
        (acquire_lock-GivesUp rounds k ctx n limited fewer)
        (elim [
          | some e ↦ elim [ over ↦ λ _. some-ne-none _ | live k ↦ λ _. tt ]
          | none ↦ elim [
            | over ↦ λ fails. absurd (fails refl)
            | live left ↦ λ _.
                Safe-weaken expiry
                  (Run.upgrade_locked ext methods options rounds host k
                    >>= Run.finish_run ext methods options rounds k)
                  (live left) {Q = λ _ m. m ≡ live left} (λ e m same. rw same tt)
                  (Safe-Within expiry IsTimeless (live left) (IsTimeless-Ignores left) _
                    (locked-IsTimeless follows host k))
          ]
        ])
