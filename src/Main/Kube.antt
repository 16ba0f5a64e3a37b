-- ===== src/Main/Kube.antt =====
-- kube.go: the lock, the node's annotations and conditions, as the upgrade run uses them. The
-- program's `*Kube` is `Option Kube`, nil where kube is not configured.
pub mod Recovery
pub mod Backoff
pub mod Report
pub mod Failure
pub mod Deadline
use pharos_host_upgrades.Prelude.{
  ℕ, zero, suc, ◌*◌, String, ◌<>◌, Bool, not, ◌&&◌, Option, none, some, [], ◌∷◌, ltb, ◌==◌,
  if◌then◌else◌,
}
use pharos_host_upgrades.Effects.{
  MaybeError, Result, ok, err, errorf, wrap, still_rebooting, Time, Context, ctx_err, sleep, Prog,
  ret, out_of_rounds, ◌>>=◌, ◌>>◌, ask_process, panic,
}
use pharos_host_upgrades.External.{External}
use pharos_host_upgrades.Kube.Lock
use pharos_host_upgrades.Kube.Lock.{Lock}
use pharos_host_upgrades.Kube.Node
use pharos_host_upgrades.Kube.Node.{Node}
use pharos_host_upgrades.Kube.Client
use pharos_host_upgrades.Kubectl
use pharos_host_upgrades.Hosts.Interface.{Info, Status}
use pharos_host_upgrades.Main.Conditions.{
  make_upgrade_condition, make_reboot_condition, make_reboot_condition_rebooting,
  make_reboot_condition_rebooted,
}

abbrev pub kube_lock_annotation : String
kube_lock_annotation = "pharos-host-upgrades.kontena.io/lock"

abbrev pub kube_drain_annotation : String
kube_drain_annotation = "pharos-host-upgrades.kontena.io/drain"

abbrev pub kube_reboot_annotation : String
kube_reboot_annotation = "pharos-host-upgrades.kontena.io/reboot"

-- `IsSet`
unfoldable pub is_set : Client.Options → Bool
is_set options = not (options.namespace == "" && options.daemon_set == "" && options.node == "")

pub record Kube : Type 0 where
  pub options : Client.Options
  pub host_info : Info
  pub kube : Option Client.Kube
  pub lock : Option Lock
  pub node : Option Node

-- A method call through a pointer that must not be nil.
abbrev pub deref : {A B : Type 0} → Option A → (A → Prog B) → Prog B
deref none f = panic "nil pointer dereference"
deref (some a) f = f a

unfoldable pub init_node : Kube → Prog (MaybeError × Kube)
unfolding Client.make_node
init_node k = deref k.kube λ kube. do
  made ← Client.make_node kube
  elim made [ err e ↦ ret (some e, k) | ok node ↦ ret (none, record k { node = some node }) ]

unfoldable pub init_lock : Kube → Prog (MaybeError × Kube)
unfolding Client.make_lock
init_lock k = deref k.kube λ kube. do
  made ← Client.make_lock kube kube_lock_annotation
  elim made [ err e ↦ ret (some e, k) | ok lock ↦ ret (none, record k { lock = some lock }) ]

-- 1 second and 1 minute
abbrev pub first_wait : ℕ
first_wait = 1000000000

abbrev pub max_wait : ℕ
max_wait = 60000000000

-- `wait *= waitFactor`, cut at `maxWait`
unfoldable pub next_wait : ℕ → ℕ
next_wait wait = if ltb max_wait (wait * 2) then max_wait else wait * 2

-- The loop of `AcquireLock`; `inner` are the rounds of each `lock.Acquire`.
unfoldable pub acquire_loop : ℕ → ℕ → Lock → Context → ℕ → Prog MaybeError
unfolding Lock.acquire next_wait
acquire_loop zero inner lock ctx wait = out_of_rounds
acquire_loop (suc rounds) inner lock ctx wait = do
  expired ← ask_process (ctx_err ctx)
  elim expired [
    | some e ↦ ret (some e)
    | none ↦ do
      failure ← Lock.acquire inner lock ctx
      elim failure [
        | none ↦ ret none
        | some _ ↦ do ask_process (sleep wait); acquire_loop rounds inner lock ctx (next_wait wait)
      ]
  ]

-- `k == nil || k.lock == nil`
abbrev pub lock_of : Option Kube → Option Lock
lock_of none = none
lock_of (some k) = k.lock

-- `k == nil || k.node == nil`
abbrev pub node_of : Option Kube → Option Node
node_of none = none
node_of (some k) = k.node

unfoldable pub acquire_lock : ℕ → Option Kube → Context → Prog MaybeError
unfolding acquire_loop
acquire_lock rounds k ctx = elim (lock_of k) [
  | none ↦ ret none
  | some lock ↦ acquire_loop rounds rounds lock ctx first_wait
]

unfoldable pub release_lock : ℕ → Option Kube → Prog MaybeError
unfolding Lock.release
release_lock rounds k = elim (lock_of k) [ none ↦ ret none | some lock ↦ Lock.release rounds lock ]

-- release the lock if it is still acquired
unfoldable pub clear_lock : ℕ → Kube → Prog MaybeError
unfolding Lock.test Lock.release
clear_lock rounds k = deref k.lock λ lock. do
  let name = lock.namespace <> "/daemonsets/" <> lock.name
  tested ← Lock.test lock
  elim tested [
    | err e ↦ ret (some (wrap ("Failed to test lock " <> name <> ": ") e))
    | ok (_, acquired) ↦ if not acquired then ret none else do
      failure ← Lock.release rounds lock
      elim failure [
        | some e ↦ ret (some (wrap ("Failed to release lock " <> name <> ": ") e))
        | none ↦ ret none
      ]
  ]

module _ (ext : External) where
  -- `checkReboot`: `ok none` where the node is not rebooting
  unfoldable pub check_reboot : Node → Prog (Result (Option Time))
  unfolding Node.get_annotation
  check_reboot node = do
    answer ← Node.get_annotation node kube_reboot_annotation
    elim answer [
      | err e ↦ ret (err (wrap "Faield to get node reboot annotation: " e))
      | ok none ↦ ret (ok none)
      | ok (some value) ↦ elim (ext.unmarshal_time value) [
        | err e ↦ ret (err (wrap "Failed to unmarshal reboot annotation: " e))
        | ok t ↦ ret (ok (some t))
      ]
    ]

  -- The branch of `clearNodeReboot` for a node that is marked with a reboot time.
  unfoldable pub finish_reboot : Kube → Node → Time → Prog MaybeError
  unfolding Node.write_conditions Node.clear_annotation make_reboot_condition_rebooted
  finish_reboot k node reboot_time =
      if not (ltb reboot_time k.host_info.boot_time)
      then ret (some (still_rebooting node.name reboot_time k.host_info.boot_time))
      else do
        condition ← make_reboot_condition_rebooted k.host_info.boot_time
        unwritten ← Node.write_conditions ext.retry node (condition ∷ [])
        elim unwritten [
          | some _ ↦ ret none
          | none ↦ do
            failure ← Node.clear_annotation ext.retry node kube_reboot_annotation
            elim failure [
              | some e ↦ ret (some (wrap "Failed to clear reboot annotation: " e))
              | none ↦ ret none
            ]
        ]

  unfoldable pub clear_node_reboot : Kube → Prog MaybeError
  unfolding check_reboot finish_reboot
  clear_node_reboot k = deref k.node λ node. do
    checked ← check_reboot node
    elim checked [
      | err e ↦ ret (some e)
      | ok none ↦ ret none
      | ok (some reboot_time) ↦ finish_reboot k node reboot_time
    ]

  unfoldable pub clear_node_drain : Kube → Prog MaybeError
  unfolding Node.set_schedulable_if_annotated
  clear_node_drain k = deref k.node λ node. do
    (_, failure) ← Node.set_schedulable_if_annotated ext.retry node kube_drain_annotation
    elim failure [
      | some e ↦ ret (some (wrap "Failed to clear node drain state: " e))
      | none ↦ ret none
    ]

  -- An error of the condition update is only logged.
  unfoldable pub update_host_status : Option Kube → Status → MaybeError → Prog MaybeError
  unfolding make_upgrade_condition make_reboot_condition Node.write_conditions
  update_host_status none status upgrade_err = ret none
  update_host_status (some k) status upgrade_err = elim k.node [
    | none ↦ ret none
    | some node ↦ do
      upgrade ← make_upgrade_condition ext status upgrade_err
      reboot ← make_reboot_condition k.host_info status upgrade_err
      Node.write_conditions ext.retry node (upgrade ∷ reboot ∷ [])
      ret none
  ]

  unfoldable pub drain_node : Option Kube → Prog MaybeError
  unfolding Node.set_annotation Kubectl.drain
  drain_node none = ret (some (errorf "No --kube-node configured"))
  drain_node (some k) = elim k.node [
    | none ↦ ret (some (errorf "No --kube-node configured"))
    | some node ↦ do
      unmarked ← Node.set_annotation ext.retry node kube_drain_annotation "true"
      elim unmarked [
        | some e ↦ ret (some (wrap "Failed to set node annotation for drain: " e))
        | none ↦ do
          failure ← Kubectl.drain k.options.node
          elim failure [
            | some e ↦ ret (some (wrap ("Failed to drain node " <> k.options.node <> ": ") e))
            | none ↦ ret none
          ]
      ]
  ]

  -- The writes of `MarkReboot`, for a reboot time that is marshalled.
  unfoldable pub write_mark : Node → Time → String → Prog MaybeError
  unfolding Node.set_annotation Node.write_conditions make_reboot_condition_rebooting
  write_mark node reboot_time value = do
    unmarked ← Node.set_annotation ext.retry node kube_reboot_annotation value
    elim unmarked [
      | some e ↦ ret (some (wrap "Failed to set node annotation for reboot: " e))
      | none ↦ do
        condition ← make_reboot_condition_rebooting reboot_time
        unwritten ← Node.write_conditions ext.retry node (condition ∷ [])
        elim unwritten [
          | some e ↦ ret (some (wrap "Failed to set node condition for reboot: " e))
          | none ↦ ret none
        ]
    ]

  unfoldable pub mark_reboot : Option Kube → Time → Prog MaybeError
  unfolding write_mark
  mark_reboot k reboot_time = elim (node_of k) [
    | none ↦ ret none
    | some node ↦ elim (ext.marshal_time reboot_time) [
      | err e ↦ ret (some (wrap "Failed to marshal reboot annotation: " e))
      | ok value ↦ write_mark node reboot_time value
    ]
  ]

  -- The steps of `makeKube` once node and lock are made: reboot state, drain state, lock.
  unfoldable pub recover : ℕ → Kube → Prog (Result (Option Kube))
  unfolding clear_node_reboot clear_node_drain clear_lock
  recover rounds k = do
    not_rebooted ← clear_node_reboot k
    elim not_rebooted [
      | some e ↦ ret (err e)
      | none ↦ do
        drained ← clear_node_drain k
        elim drained [
          | some e ↦ ret (err e)
          | none ↦ do
            locked ← clear_lock rounds k
            elim locked [ some e ↦ ret (err e) | none ↦ ret (ok (some k)) ]
        ]
    ]

  unfoldable pub make_configured : ℕ → Kube → Prog (Result (Option Kube))
  unfolding init_node init_lock recover
  make_configured rounds k = do
    (no_node, with_node) ← init_node k
    elim no_node [
      | some e ↦ ret (err e)
      | none ↦ do
        (no_lock, with_lock) ← init_lock with_node
        elim no_lock [ some e ↦ ret (err e) | none ↦ recover rounds with_lock ]
    ]

  -- `makeKube`
  unfoldable pub make_kube : ℕ → Client.Options → Info → Prog (Result (Option Kube))
  unfolding is_set Client.new make_configured
  make_kube rounds options info = if not (is_set options) then ret (ok none) else do
    made ← Client.new options
    elim made [
      | err e ↦ ret (err e)
      | ok kube ↦ make_configured rounds (record {
        options = options;
        host_info = info;
        kube = some kube;
        lock = none;
        node = none;
      })
    ]
