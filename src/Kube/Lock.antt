-- ===== src/Kube/Lock.antt =====
-- kube/lock.go: a lock in an annotation of the DaemonSet. A method that fails returns `MaybeError`
-- or a `Result`; what it writes through `*runtime.Object` it returns. The loop of `modify` takes the
-- rounds that it may make, and is `out_of_rounds` after them.
pub mod Ownership
pub mod Rounds
pub mod Calls
use pharos_host_upgrades.Prelude.{
  ℕ, zero, suc, String, ◌<>◌, Bool, true, false, not, ◌&&◌, none, some, StringMap, get_or_empty,
  insert, delete, pos, sub_ℕ, ◌==◌, if◌then◌else◌,
}
use pharos_host_upgrades.Effects.{
  MaybeError, Result, ok, err, errorf, wrap, is_conflict, Client, DaemonSet, Context, Duration,
  WatchEvent, EventType, added, modified, deleted, error_event, get_daemonset, update_daemonset,
  watch_daemonset, watch_until, new_apps_client, now, ctx_err, sleep_jittered, Prog, ret,
  out_of_rounds, ◌>>=◌, ◌>>◌, ask_kube, ask_process, panic,
}

pub record Lock : Type 0 where
  pub client : Client
  pub namespace : String
  pub name : String
  pub annotation : String
  pub value : String

-- `connect`: the lock with its client, or the error.
unfoldable pub connect : Lock → ℕ → Prog (MaybeError × Lock)
connect lock config = do
  answer ← ask_kube (new_apps_client config)
  elim answer [ err e ↦ ret (some e, lock) | ok c ↦ ret (none, record lock { client = some c }) ]

-- The annotation as Go reads it: the empty text if it is missing.
abbrev pub lock_value : Lock → DaemonSet → String
lock_value lock object = get_or_empty lock.annotation object.annotations

-- `test`: the value, whether the lock is available, and whether it is acquired
unfoldable pub test_object : Lock → DaemonSet → String × Bool × Bool
test_object lock object =
    let value = lock_value lock object in
    if value == ""
    then (value, true, false)
    else if value == lock.value
    then (value, true, true)
    else (value, false, false)

-- `accessor.GetAnnotations()[key] = value` panics on a nil map.
unfoldable pub assign : String → String → StringMap → DaemonSet → Prog (MaybeError × DaemonSet)
assign key value none object = panic "assignment to entry in nil map"
assign key value (some m) object =
    ret (none, record object { annotations = some (insert key value m) })

unfoldable pub set : Lock → DaemonSet → Prog (MaybeError × DaemonSet)
unfolding assign
set lock object =
    let value = lock_value lock object in
    if not (value == "") && not (value == lock.value)
    then ret (some (errorf ("Busy lock: " <> lock.annotation <> "=" <> value)), object)
    else assign lock.annotation lock.value object.annotations object

unfoldable pub clear : Lock → DaemonSet → MaybeError × DaemonSet
clear lock object =
    let value = lock_value lock object in
    if not (value == lock.value)
    then (
      some (
          errorf
            ("Broken lock: " <> lock.annotation <> "=" <> value <> ", expected " <> lock.value)),
      object,
    )
    else (none, record object { annotations = delete lock.annotation object.annotations })

unfoldable pub get : Lock → Prog (Result DaemonSet)
get lock = do
  answer ← ask_kube (get_daemonset lock.client lock.namespace lock.name)
  elim answer [ err e ↦ ret (err (wrap "Get: " e)) | ok object ↦ ret (ok object) ]

-- `Test`: the value and whether it is acquired
unfoldable pub test : Lock → Prog (Result (String × Bool))
unfolding get test_object
test lock = do
  answer ← get lock
  elim answer [
    | err e ↦ ret (err e)
    | ok object ↦ let (value, _, acquired) = test_object lock object in ret (ok (value, acquired))
  ]

unfoldable pub watch : Lock → DaemonSet → Prog (Result ℕ)
watch lock object = do
  answer ← ask_kube (watch_daemonset lock.client lock.namespace object.name object.resource_version)
  elim answer [ err e ↦ ret (err (wrap "Watch: " e)) | ok watcher ↦ ret (ok watcher) ]

-- `update`: the error is unmodified; on success the object is what the server returned.
unfoldable pub update : Lock → DaemonSet → Prog (MaybeError × DaemonSet)
update lock object = do
  answer ← ask_kube (update_daemonset lock.client lock.namespace object)
  elim answer [ err e ↦ ret (some e, object) | ok stored ↦ ret (none, stored) ]

-- 10 milliseconds
abbrev pub backoff_duration : ℕ
backoff_duration = 10000000

module _ (lock : Lock) (ctx : Context) (fn : DaemonSet → Prog (MaybeError × DaemonSet)) where
  -- What one round of the loop does after `fn`; `again` is the next round.
  unfoldable pub finish_round : Prog MaybeError → MaybeError × DaemonSet → Prog MaybeError
  unfolding update
  finish_round again (some e, object) = ret (some e)
  finish_round again (none, object) = do
    (failure, _) ← update lock object
    elim failure [
      | none ↦ ret none
      | some e ↦
          if is_conflict e
          then (do ask_process (sleep_jittered backoff_duration); again)
          else ret (some e)
    ]

  unfoldable pub modify : ℕ → Prog MaybeError
  unfolding get
  modify zero = out_of_rounds
  modify (suc rounds) = do
    expired ← ask_process (ctx_err ctx)
    elim expired [
      | some e ↦ ret (some e)
      | none ↦ do
        answer ← get lock
        elim answer [
          | err e ↦ ret (some e)
          | ok object ↦ do changed ← fn object; finish_round (modify rounds) changed
        ]
    ]

abbrev event_text : EventType → String
event_text added = "ADDED"
event_text modified = "MODIFIED"
event_text deleted = "DELETED"
event_text error_event = "ERROR"

abbrev test_event_type : Lock → EventType → DaemonSet → Result Bool
test_event_type lock modified object =
    let (_, available, _) = test_object lock object in if available then ok true else ok false
test_event_type lock type object = err (errorf ("Unexpected event: " <> event_text type))

unfoldable pub test_event : Lock → WatchEvent → Result Bool
unfolding test_object
test_event lock event = test_event_type lock event.type event.object

unfoldable pub context_timeout : Context → Prog Duration
context_timeout ctx = elim ctx.deadline [
  | none ↦ ret (pos 0)
  | some deadline ↦ do t ← ask_process now; ret (sub_ℕ deadline t)
]

unfoldable pub wait : Lock → Context → DaemonSet → Prog (MaybeError × DaemonSet)
unfolding test_object watch context_timeout
wait lock ctx object =
    let (_, available, _) = test_object lock object in
    if available then ret (none, object) else do
      watching ← watch lock object
      elim watching [
        | err e ↦ ret (some e, object)
        | ok watcher ↦ do
          timeout ← context_timeout ctx
          answer ← ask_kube (watch_until timeout watcher (test_event lock))
          elim answer [ err e ↦ ret (some e, object) | ok ev ↦ ret (none, ev.object) ]
      ]

-- `acquire`
unfoldable pub acquire_object : Lock → DaemonSet → Prog (MaybeError × DaemonSet)
unfolding set
acquire_object lock object = set lock object

-- The function that `Acquire` passes to `modify`.
unfoldable pub wait_and_acquire : Lock → Context → DaemonSet → Prog (MaybeError × DaemonSet)
unfolding wait acquire_object
wait_and_acquire lock ctx object = do
  (failure, current) ← wait lock ctx object
  elim failure [ some e ↦ ret (some e, current) | none ↦ acquire_object lock current ]

-- `Acquire`
unfoldable pub acquire : ℕ → Lock → Context → Prog MaybeError
unfolding modify wait_and_acquire
acquire rounds lock ctx = modify lock ctx (wait_and_acquire lock ctx) rounds

-- `release`
unfoldable pub release_object : Lock → DaemonSet → MaybeError × DaemonSet
unfolding clear
release_object lock object = clear lock object

abbrev pub background : Context
background = record { deadline = none }

-- `Release`
unfoldable pub release : ℕ → Lock → Prog MaybeError
unfolding modify release_object
release rounds lock = modify lock background (λ object. ret (release_object lock object)) rounds

-- `cleanup`: an error is only logged
unfoldable pub cleanup : ℕ → Lock → Prog (Unit {0})
unfolding release
cleanup rounds lock = do release rounds lock; ret tt
