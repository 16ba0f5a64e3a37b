-- ===== src/Protocol/RunCalls.antt =====
-- kube.go's handling of the lock against the rules of the lock.
use pharos_host_upgrades.Prelude.{ℕ, zero, suc, ◌≡◌, refl, true, not, none, some, Option, subst}
use pharos_host_upgrades.Effects.{MaybeError, Result, ok, err, Context}
use pharos_host_upgrades.Effects.Logic.{Safe, Safe-bind, Safe-weaken, Safe-if, Safe-Within}
use pharos_host_upgrades.External.{External}
use pharos_host_upgrades.Kube.Lock
use pharos_host_upgrades.Kube.Lock.{Lock}
use pharos_host_upgrades.Kube.Client
use pharos_host_upgrades.Hosts.Interface.{Info}
use pharos_host_upgrades.Main.Kube
use pharos_host_upgrades.Main.Kube.{Kube}
use pharos_host_upgrades.Protocol.{Local, LockId, lock_id, protocol, IsQuiet, IsQuiet-Ignores}
use pharos_host_upgrades.Protocol.LockCalls.{acquire-Safe, release-Safe, test-Safe}
use pharos_host_upgrades.Protocol.KubeCalls.{clear_node_reboot-Quiet, clear_node_drain-Quiet}

-- A configured kube, whose lock is the one that the rules are about.
abbrev pub HasLock : LockId → Option Kube → Type 0
HasLock id k = (lock : Lock) × (Kube.lock_of k ≡ some lock) × (lock_id lock ≡ id)

abbrev pub Ended : MaybeError → Local → Type 0
Ended e m = Unit {0}

acquire_loop-Safe :
    (rounds inner : ℕ) (lock : Lock) (ctx : Context) (wait : ℕ) (m : Local)
    → Safe
        (protocol (lock_id lock))
        (Kube.acquire_loop rounds inner lock ctx wait)
        m
        (λ e m'. e ≡ none → m'.held ≡ true)
unfolding Kube.acquire_loop
acquire_loop-Safe zero inner lock ctx wait m = tt
acquire_loop-Safe (suc rounds) inner lock ctx wait m = (
  tt,
  elim [
    | some e ↦ λ _ h. cc
    | none ↦ λ _.
        Safe-bind (protocol (lock_id lock)) (Lock.acquire inner lock ctx) _ m
          (λ e m'. e ≡ none → m'.held ≡ true) _ (acquire-Safe lock inner ctx m)
          (elim [
            | none ↦ λ m' held _. held refl
            | some _ ↦ λ m' _.
                (tt, λ _ _. acquire_loop-Safe rounds inner lock ctx (Kube.next_wait wait) m')
          ])
  ],
)

clear_own_lock-Safe :
    (rounds : ℕ) (k : Kube) (lock : Lock) (m : Local)
    → k.lock ≡ some lock
    → Safe (protocol (lock_id lock)) (Kube.clear_lock rounds k) m Ended
unfolding Kube.clear_lock
clear_own_lock-Safe rounds k lock m found =
    rw (found, Kube.deref)
      (Safe-bind (protocol (lock_id lock)) (Lock.test lock) _ m (λ _ _. Unit {0}) Ended
        (Safe-weaken (protocol (lock_id lock)) (Lock.test lock) m {Q = λ _ m'. m'.held ≡ m.held}
          (λ _ _ _. tt) (test-Safe lock m))
        (elim [
          | err e ↦ λ _ _. tt
          | ok (v, acquired) ↦ λ m' _.
              Safe-if (protocol (lock_id lock)) (not acquired) _ _ m' Ended (λ _. tt)
                λ _.
                  Safe-bind (protocol (lock_id lock)) (Lock.release rounds lock) _ m' Ended Ended
                    (release-Safe lock rounds m') (elim [ some e ↦ λ _ _. tt | none ↦ λ _ _. tt ])
        ]))

module _ (ext : External) (id : LockId) where
  pub acquire_lock-Safe :
      (rounds : ℕ) (k : Option Kube) (ctx : Context) (m : Local)
      → HasLock id k
      → Safe (protocol id) (Kube.acquire_lock rounds k ctx) m (λ e m'. e ≡ none → m'.held ≡ true)
  unfolding Kube.acquire_lock
  acquire_lock-Safe rounds k ctx m (lock, found, same) =
      rw (found, Kube.acquire_lock)
        (rw (← same) (acquire_loop-Safe rounds rounds lock ctx Kube.first_wait m))

  pub release_lock-Safe :
      (rounds : ℕ) (k : Option Kube) (m : Local)
      → HasLock id k
      → Safe (protocol id) (Kube.release_lock rounds k) m Ended
  unfolding Kube.release_lock
  release_lock-Safe rounds k m (lock, found, same) =
      rw (found, Kube.release_lock) (rw (← same) (release-Safe lock rounds m))

  clear_lock-Safe :
      (rounds : ℕ) (k : Kube) (m : Local)
      → HasLock id (some k)
      → Safe (protocol id) (Kube.clear_lock rounds k) m Ended
  clear_lock-Safe rounds k m (lock, found, same) =
      subst (λ i. Safe (protocol i) (Kube.clear_lock rounds k) m Ended) same
        (clear_own_lock-Safe rounds k lock m found)

  -- A kube that is made has its lock.
  abbrev pub Made : Result (Option Kube) → Local → Type 0
  Made (err e) m = Unit {0}
  Made (ok k) m = HasLock id k

  recover-Safe :
      (rounds : ℕ) (k : Kube) (m : Local)
      → HasLock id (some k)
      → Safe (protocol id) (Kube.recover ext rounds k) m Made
  unfolding Kube.recover
  recover-Safe rounds k m has =
      Safe-bind (protocol id) (Kube.clear_node_reboot ext k) _ m (λ _ m'. m' ≡ m) Made
        (Safe-Within (protocol id) IsQuiet m (IsQuiet-Ignores id m) _
          (clear_node_reboot-Quiet ext k))
        (elim [
          | some e ↦ λ _ _. tt
          | none ↦ λ m₁ _.
              Safe-bind (protocol id) (Kube.clear_node_drain ext k) _ m₁ (λ _ m'. m' ≡ m₁) Made
                (Safe-Within (protocol id) IsQuiet m₁ (IsQuiet-Ignores id m₁) _
                  (clear_node_drain-Quiet ext k))
                (elim [
                  | some e ↦ λ _ _. tt
                  | none ↦ λ m₂ _.
                      Safe-bind (protocol id) (Kube.clear_lock rounds k) _ m₂ Ended Made
                        (clear_lock-Safe rounds k m₂ has)
                        (elim [ some e ↦ λ _ _. tt | none ↦ λ _ _. has ])
                ])
        ])

-- The lock that a node of these options uses.
abbrev pub id_of : Client.Options → LockId
id_of options = lock_id (Client.unconnected_lock options Kube.kube_lock_annotation)

module _ (ext : External) where
  pub make_kube-Safe :
      (rounds : ℕ) (options : Client.Options) (info : Info) (m : Local)
      → Kube.is_set options ≡ true
      → Safe
          (protocol (id_of options))
          (Kube.make_kube ext rounds options info)
          m
          (Made ext (id_of options))
  unfolding Kube.make_kube Client.new Kube.make_configured Kube.init_node Kube.init_lock
      Client.make_node Client.make_lock
  make_kube-Safe rounds options info m set =
      rw (set, Kube.make_kube)
        (
          tt,
          elim [
            | err e ↦ λ _. tt
            | ok config ↦ λ _. (
              tt,
              elim [
                | err e ↦ λ _. tt
                | ok c ↦ λ _. (
                  tt,
                  elim [
                    | err e ↦ λ _. tt
                    | ok c' ↦ λ _.
                        recover-Safe ext (id_of options) rounds
                          (record {
                            options = options;
                            host_info = info;
                            kube = some (record { config = config; options = options });
                            lock =
                                some
                                  (record (Client.unconnected_lock options
                                    Kube.kube_lock_annotation) { client = some c' });
                            node = some (record { client = some c; name = options.node });
                          })
                          m (_, refl, refl)
                  ],
                )
              ],
            )
          ],
        )
