-- ===== src/Watch/Removed.antt =====
-- What the watcher for a removed pod tells, and what Shutdown makes of a pod that is gone.
use kuberhealthy.Prelude.{
  ℕ, zero, suc, ◌*◌, ◌≡◌, ◌⊎◌, refl, inl, inr, Bool, Bool-cases, Option, none, some, Option-cases,
  codes,
}
use kuberhealthy.Api.Results.{Err, new_error, refuse, Reply-cases}
use kuberhealthy.Store.{second}
use kuberhealthy.Watch.{
  EventKind, added, modified, deleted, watch_error, other_event, WatchEvent, WatchApi,
  removal_of_event, wait_for_deleted_event, sent, watcher_of, watch_for_checker_pod_delete,
  existence_of, pod_name_exists, wait_for_shutdown, shutdown, Sent,
}

-- The events that say that the pod is gone, or that the watch has failed.
abbrev pub EndsWatch : EventKind → Type 0
EndsWatch k = (k ≡ deleted) ⊎ (k ≡ watch_error)

removal-EndsWatch : (k : EventKind) (a : Option Err) → removal_of_event k ≡ some a → EndsWatch k
unfolding removal_of_event
removal-EndsWatch deleted a h = inl refl
removal-EndsWatch watch_error a h = inr refl
removal-EndsWatch added a h = cc
removal-EndsWatch modified a h = cc
removal-EndsWatch other_event a h = cc

-- Such an event was received.
abbrev pub SawEnd : WatchApi → Type 0
SawEnd api = (u : api.World) × (e : WatchEvent) × ((api.next_event u).0 ≡ some e) × EndsWatch e.kind

module _ (api : WatchApi) where
  wait-SawEnd :
      (events : ℕ) (a : Option Err) (w : api.World)
      → (wait_for_deleted_event api events w).0 ≡ some a
      → SawEnd api
  unfolding wait_for_deleted_event
  wait-SawEnd zero a w = λ h. cc
  wait-SawEnd (suc events) a w = elim (Option-cases (api.next_event w).0) [
    | inl closed ↦ rw (closed, wait_for_deleted_event) (λ h. cc)
    | inr (e, got) ↦ elim (Option-cases (removal_of_event e.kind)) [
      | inl ignored ↦
          rw (got, ignored, wait_for_deleted_event) (wait-SawEnd events a (api.next_event w).1)
      | inr (b, removal) ↦
          rw (got, removal, wait_for_deleted_event)
            (λ h. (w, e, got, removal-EndsWatch e.kind b removal))
    ]
  ]

  watcher-sent :
      (s : Sent api) (e : Err)
      → watcher_of api s ≡ sent e
      → ((a : Option Err) × (s ≡ some a))
        × (e ≡ new_error (codes "pod shutdown monitor witnessed the checker pod being removed"))
  watcher-sent none e h = cc
  watcher-sent (some a) e h = ((a, refl), cc)

-- The watcher for the removal of a checker pod sends an error only after an event of a deletion or of a
-- failed watch, and it is one error for both: it never sends nil, so that RunOnce cannot tell an
-- expected removal.
pub watch_for_checker_pod_delete-sent :
    (api : WatchApi) (is_cancelled : Bool) (events : ℕ) (e : Err) (w : api.World)
    → (watch_for_checker_pod_delete api is_cancelled events w).0 ≡ sent e
    → SawEnd api
      × (e ≡ new_error (codes "pod shutdown monitor witnessed the checker pod being removed"))
unfolding watch_for_checker_pod_delete
watch_for_checker_pod_delete-sent api is_cancelled events e w =
    elim (Reply-cases (api.open_watch w).0) [
      | inr (failure, failed) ↦ rw (failed, watch_for_checker_pod_delete) (λ h. cc)
      | inl (u, opened) ↦ elim (Bool-cases is_cancelled) [
        | inl cancelled ↦ rw (opened, cancelled, watch_for_checker_pod_delete) (λ h. cc)
        | inr going ↦
            rw (opened, going, watch_for_checker_pod_delete)
              (λ h.
                let ((a, answer), same) = watcher-sent api _ e h in
                (wait-SawEnd api events a (api.open_watch w).1 answer, same))
      ]
    ]

-- A watch that is closed before such an event leaves the watcher silent for ever, since nothing opens it
-- again: no removal after that is noticed.
pub wait_for_deleted_event-closed :
    (api : WatchApi) (events : ℕ) (w : api.World)
    → (api.next_event w).0 ≡ none
    → (wait_for_deleted_event api events w).0 ≡ none
unfolding wait_for_deleted_event
wait_for_deleted_event-closed api zero w closed = refl
wait_for_deleted_event-closed api (suc events) w closed = rw (closed, wait_for_deleted_event)

-- Where the pod cannot be found any more, which is what Shutdown waits for, waitForShutdown ends at its
-- first poll with the error of the lookup, and Shutdown returns that error.
pub shutdown-fails_when_gone :
    (api : WatchApi) (polls : ℕ) (is_expired : api.World → Bool) (e : Err) (w : api.World)
    → (api.get_pod (api.sleep (5 * second) w)).0 ≡ refuse e
    → let o = wait_for_shutdown api (suc polls) is_expired w in (shutdown api o.0 o.1).0 ≡ some e
unfolding wait_for_shutdown pod_name_exists existence_of shutdown
shutdown-fails_when_gone api polls is_expired e w gone = rw (gone, wait_for_shutdown)
