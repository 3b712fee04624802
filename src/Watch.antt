-- ===== src/Watch.antt =====
-- The watches and the end of a checker pod (pkg/checks/external/main.go: waitForPodStart,
-- waitForDeletedEvent, watchForCheckerPodDelete, evictPod, waitForShutdown, Shutdown; and PodNameExists
-- and PodKill of pkg/checks/external/util/main.go). Logging is left out.
pub mod Started
pub mod Removed
use kuberhealthy.Prelude.{
  ℕ, zero, suc, ◌*◌, ◌==◌, Bool, true, false, Option, none, some, List, [], ◌∷◌, Text, codes,
  text_eq, is_empty, if◌then◌else◌,
}
use kuberhealthy.Api.Results.{Err, new_error, is_not_found, Reply, reply, refuse, Call}
use kuberhealthy.Api.Types.{
  Phase, pod_pending, pod_running, pod_succeeded, pod_failed, pod_unknown, ContainerStatus, Pod,
}
use kuberhealthy.Store.{second}

pub data EventKind : Type 0 where
  added modified deleted watch_error other_event : EventKind

-- An event of a watch; the object is `none` if it is no pod.
pub record WatchEvent : Type 0 where
  pub kind : EventKind
  pub object : Option Pod

-- The calls for the pod of one run. `next_event` is a receive from the channel of an open watch, which
-- gives nothing when it is closed, and `pods_size` is `Size` of a listing, a function of its library.
pub record WatchApi : Type 1 where
  pub World : Type 0
  pub sleep : ℕ → World → World
  pub is_shut_down : World → Bool
  pub get_pod : Call World Pod
  pub evict : Call World (Unit {0})
  pub delete_pod : (grace_period : ℕ) → Call World (Unit {0})
  pub list_run_pods : Call World (List Pod)
  pub open_watch : Call World (Unit {0})
  pub next_event : World → Option WatchEvent × World
  pub pods_size : List Pod → ℕ

abbrev pub err_pod_deleted_before_running : Err
err_pod_deleted_before_running =
    new_error (codes "the khcheck check pod is deleted, waiting for start failed")

abbrev pub is_deleted : EventKind → Bool
is_deleted deleted = true
is_deleted _ = false

-- The phases that end the wait for the start.
abbrev pub has_started : Phase → Bool
has_started pod_running = true
has_started pod_failed = true
has_started pod_succeeded = true
has_started _ = false

abbrev pub waits_for : Text → Option Text → Bool
waits_for reason none = false
waits_for reason (some r) = text_eq r reason

-- Some container waits with the reason ErrImagePull.
abbrev pub has_image_pull_error : List ContainerStatus → Bool
has_image_pull_error [] = false
has_image_pull_error (s ∷ statuses) =
    if waits_for (codes "ErrImagePull") s.waiting then true else has_image_pull_error statuses

-- What one event decides: nothing, or what is sent.
abbrev pub start_of_pod : Option Pod → Option (Option Err)
start_of_pod none = none
start_of_pod (some p) =
    if has_image_pull_error p.container_statuses
    then some (some (new_error (codes "ErrImagePull")))
    else if has_started p.phase
    then some none
    else none

unfoldable pub start_of_event : WatchEvent → Option (Option Err)
start_of_event e =
    if is_deleted e.kind then some (some err_pod_deleted_before_running) else start_of_pod e.object

-- An event whose object is no pod skips the look at the context.
abbrev pub is_pod : Option Pod → Bool
is_pod none = false
is_pod (some p) = true

-- What `waitForDeletedEvent` sends for an event.
unfoldable pub removal_of_event : EventKind → Option (Option Err)
removal_of_event deleted = some none
removal_of_event watch_error =
    some (some (new_error (codes "unidentified error when watching for pod to be deleted")))
removal_of_event added = none
removal_of_event modified = none
removal_of_event other_event = none

-- The end of a `Get` in PodNameExists: whether the pod exists, and an error.
unfoldable pub existence_of : Reply Pod → Bool × Option Err
existence_of (refuse e) = (false, some e)
existence_of (reply p) = if is_empty p.name then (false, none) else elim p.phase [
  | pod_succeeded ↦ (false, none)
  | pod_failed ↦ (false, none)
  | _ ↦ (true, none)
]

-- The outer loop of `waitForPodStart` lists and opens a watch, the inner one reads its events.
pub data StartState : Type 0 where
  listing reading : StartState

-- The watcher of `watchForCheckerPodDelete`: it never returns, has sent nothing, or has sent an error.
pub data Watcher : Type 0 where
  stuck silent : Watcher
  sent : Err → Watcher

module _ (api : WatchApi) where
  abbrev pub Sent : Type 0
  Sent = Option (Option Err)

  abbrev pub open_after : List Pod → Reply (Unit {0}) → Sent × StartState
  open_after pods (refuse e) = (some (some e), listing)
  open_after pods (reply u) = (none, reading)

  -- The start of a round of the outer loop.
  unfoldable pub list_and_watch : api.World → (Sent × StartState) × api.World
  list_and_watch w =
      let w₁ = (api.list_run_pods w).1 in
      elim (api.list_run_pods w).0 [
        | refuse e ↦ ((some (some e), listing), w₁)
        | reply pods ↦
            if api.pods_size pods == 0
            then ((some (some err_pod_deleted_before_running), listing), w₁)
            else (open_after pods (api.open_watch w₁).0, (api.open_watch w₁).1)
      ]

  -- One event of the inner loop.
  unfoldable pub read_event : api.World → (Sent × StartState) × api.World
  read_event w =
      let w₁ = (api.next_event w).1 in
      elim (api.next_event w).0 [
        | none ↦ ((none, listing), w₁)
        | some e ↦ elim (start_of_event e) [
          | some answer ↦ ((some answer, reading), w₁)
          | none ↦
              if is_pod e.object
              then ((if api.is_shut_down w₁ then some none else none, reading), w₁)
              else ((none, reading), w₁)
        ]
      ]

  unfoldable pub start_step : StartState → api.World → (Sent × StartState) × api.World
  start_step listing w = list_and_watch w
  start_step reading w = read_event w

  -- `waitForPodStart`, for a number of steps.
  unfoldable pub wait_for_pod_start : (steps : ℕ) → StartState → api.World → Sent × api.World
  wait_for_pod_start zero s w = (none, w)
  wait_for_pod_start (suc steps) s w = elim (start_step s w).0.0 [
    | some answer ↦ (some answer, (start_step s w).1)
    | none ↦ wait_for_pod_start steps (start_step s w).0.1 (start_step s w).1
  ]

  -- `waitForDeletedEvent`, for a number of events. A watch that is closed sends nothing.
  unfoldable pub wait_for_deleted_event : (events : ℕ) → api.World → Sent × api.World
  wait_for_deleted_event zero w = (none, w)
  wait_for_deleted_event (suc events) w = elim (api.next_event w).0 [
    | none ↦ (none, (api.next_event w).1)
    | some e ↦ elim (removal_of_event e.kind) [
      | some answer ↦ (some answer, (api.next_event w).1)
      | none ↦ wait_for_deleted_event events (api.next_event w).1
    ]
  ]

  abbrev pub watcher_of : Sent → Watcher
  watcher_of none = silent
  watcher_of (some _) =
      sent (new_error (codes "pod shutdown monitor witnessed the checker pod being removed"))

  -- `watchForCheckerPodDelete`, with whether its context ends first. If the watch cannot be opened, its
  -- send blocks, since nobody has the channel yet.
  unfoldable pub watch_for_checker_pod_delete :
      (is_cancelled : Bool) (events : ℕ) → api.World → Watcher × api.World
  watch_for_checker_pod_delete is_cancelled events w =
      let w₁ = (api.open_watch w).1 in
      elim (api.open_watch w).0 [
        | refuse e ↦ (stuck, w₁)
        | reply u ↦ if is_cancelled then (silent, w₁) else (
          watcher_of (wait_for_deleted_event events w₁).0,
          (wait_for_deleted_event events w₁).1,
        )
      ]

  -- `PodNameExists`
  unfoldable pub pod_name_exists : api.World → (Bool × Option Err) × api.World
  pod_name_exists w = (existence_of (api.get_pod w).0, (api.get_pod w).1)

  abbrev pub killed : Reply (Unit {0}) → Option Err
  killed (reply u) = none
  killed (refuse e) = if is_not_found e then some e else none

  -- `PodKill`: an error other than `not found` counts as success.
  unfoldable pub pod_kill : (grace_period : ℕ) → api.World → Option Err × api.World
  pod_kill grace_period w =
      (killed (api.delete_pod grace_period w).0, (api.delete_pod grace_period w).1)

  -- `evictPod`: the error of the eviction is what is returned.
  unfoldable pub evict_pod : api.World → Option Err × api.World
  evict_pod w =
      let w₁ = (api.evict w).1 in
      elim (api.evict w).0 [
        | reply u ↦ (none, w₁)
        | refuse e ↦
            let w₂ = (pod_name_exists w₁).1 in
            (some e, if (pod_name_exists w₁).0.0 then (pod_kill 30 w₂).1 else w₂)
      ]

  -- `waitForShutdown`, for a number of polls; `is_expired` is the context that Shutdown makes.
  unfoldable pub wait_for_shutdown :
      (polls : ℕ) (is_expired : api.World → Bool) → api.World → Sent × api.World
  wait_for_shutdown zero is_expired w = (none, w)
  wait_for_shutdown (suc polls) is_expired w =
      let o = pod_name_exists (api.sleep (5 * second) w) in
      elim o.0.1 [
        | some e ↦ (some (some e), o.1)
        | none ↦
            if o.0.0
            then elim (is_expired o.1) [
              | true ↦ (
                some (some (new_error (codes "timed out when waiting for pod to shutdown"))),
                o.1,
              )
              | false ↦ wait_for_shutdown polls is_expired o.1
            ]
            else (some none, o.1)
      ]

  -- `Shutdown` after it has cancelled the run: what its `select` receives first, the answer of
  -- waitForShutdown or the end of the grace period, is an argument.
  unfoldable pub shutdown : (answered : Sent) → api.World → Option Err × api.World
  shutdown (some answer) w = (answer, w)
  shutdown none w = pod_kill 0 w
