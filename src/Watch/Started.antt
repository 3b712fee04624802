-- ===== src/Watch/Started.antt =====
-- What waitForPodStart has seen when it reports that the pod has started.
use kuberhealthy.Prelude.{
  ℕ, zero, suc, ◌<◌, ◌==◌, ◌≡◌, ◌≢◌, ◌⊎◌, ◌∙◌, inl, inr, true, false, Bool-cases, none, some,
  Option-cases, List, arith,
}
use kuberhealthy.Api.Results.{Reply, reply, refuse, Reply-cases}
use kuberhealthy.Api.Types.{Pod}
use kuberhealthy.Watch.{
  WatchEvent, WatchApi, StartState, listing, reading, is_deleted, has_started, has_image_pull_error,
  start_of_event, is_pod, list_and_watch, read_event, start_step, wait_for_pod_start, open_after,
}

-- An event shows a pod that has started, with no container that cannot get its image.
pub record ShowsStart (e : WatchEvent) : Type 0 where
  pub not_deleted : is_deleted e.kind ≡ false
  pub pod : Pod
  pub shown : e.object ≡ some pod
  pub has_images : has_image_pull_error pod.container_statuses ≡ false
  pub started : has_started pod.phase ≡ true

start_of_event-ShowsStart : (e : WatchEvent) → start_of_event e ≡ some none → ShowsStart e
unfolding start_of_event
start_of_event-ShowsStart e = elim (Bool-cases (is_deleted e.kind)) [
  | inl gone ↦ rw gone (λ h. cc)
  | inr there ↦ elim (Option-cases e.object) [
    | inl no_pod ↦ λ h. let h' = rw (there, no_pod) at h in cc
    | inr (p, shown) ↦ elim (Bool-cases (has_image_pull_error p.container_statuses)) [
      | inl bad ↦ λ h. let h' = rw (there, shown, bad) at h in cc
      | inr good ↦ elim (Bool-cases (has_started p.phase)) [
        | inl started ↦ λ h. record {
          not_deleted = there;
          pod = p;
          shown = shown;
          has_images = good;
          started = started;
        }
        | inr waits ↦ λ h. let h' = rw (there, shown, good, waits) at h in cc
      ]
    ]
  ]
]

-- A shutdown was seen, or an event that shows the start was received.
abbrev pub SawStart : WatchApi → Type 0
SawStart api =
    ((u : api.World) × (api.is_shut_down u ≡ true))
    ⊎ ((u : api.World) × (e : WatchEvent) × ((api.next_event u).0 ≡ some e) × ShowsStart e)

module _ (api : WatchApi) where
  open_after-quiet :
      (pods : List Pod) (r : Reply (Unit {0})) → (open_after api pods r).0 ≢ some none
  open_after-quiet pods (reply u) h = cc
  open_after-quiet pods (refuse e) h = cc

  list_and_watch-quiet : (w : api.World) → (list_and_watch api w).0.0 ≢ some none
  unfolding list_and_watch
  list_and_watch-quiet w = elim (Reply-cases (api.list_run_pods w).0) [
    | inl (pods, listed) ↦ elim (Bool-cases (api.pods_size pods == 0)) [
      | inl empty ↦ rw (listed, empty, list_and_watch) (λ h. cc)
      | inr some_pods ↦ rw (listed, some_pods, list_and_watch) (open_after-quiet pods _)
    ]
    | inr (e, failed) ↦ rw (failed, list_and_watch) (λ h. cc)
  ]

  read_event-SawStart : (w : api.World) → (read_event api w).0.0 ≡ some none → SawStart api
  unfolding read_event
  read_event-SawStart w = elim (Option-cases (api.next_event w).0) [
    | inl closed ↦ rw (closed, read_event) (λ h. cc)
    | inr (e, got) ↦ elim (Option-cases (start_of_event e)) [
      | inr (answer, decided) ↦
          rw (got, decided, read_event)
            (λ h. inr (w, e, got, start_of_event-ShowsStart e (decided ∙ h)))
      | inl undecided ↦ elim (Bool-cases (is_pod e.object)) [
        | inr no_pod ↦ rw (got, undecided, no_pod, read_event) (λ h. cc)
        | inl pod ↦ elim (Bool-cases (api.is_shut_down (api.next_event w).1)) [
          | inl down ↦ λ h. inl ((api.next_event w).1, down)
          | inr up ↦ rw (got, undecided, pod, up, read_event) (λ h. cc)
        ]
      ]
    ]
  ]

  step-SawStart :
      (s : StartState) (w : api.World) → (start_step api s w).0.0 ≡ some none → SawStart api
  unfolding start_step
  step-SawStart listing w h = absurd (list_and_watch-quiet w h)
  step-SawStart reading w h = read_event-SawStart w h

-- waitForPodStart, after any number of listings and events, reports a start only if it saw a shutdown or
-- received an event, not of a deletion, with a pod that runs, has failed or has succeeded and has no
-- container that waits for an image it cannot pull.
pub wait_for_pod_start-SawStart :
    (api : WatchApi) (steps : ℕ) (s : StartState) (w : api.World)
    → (wait_for_pod_start api steps s w).0 ≡ some none
    → SawStart api
unfolding wait_for_pod_start
wait_for_pod_start-SawStart api zero s w = λ h. cc
wait_for_pod_start-SawStart api (suc steps) s w = elim (Option-cases (start_step api s w).0.0) [
  | inl undecided ↦
      rw (undecided, wait_for_pod_start)
        (wait_for_pod_start-SawStart api steps (start_step api s w).0.1 (start_step api s w).1)
  | inr (answer, decided) ↦
      rw (decided, wait_for_pod_start) (λ h. step-SawStart api s w (decided ∙ h))
]

-- Since the size of a listing in its encoding is never zero, waitForPodStart never notices that no pod of
-- the run is left: whatever the listing holds, also nothing, it goes on to read events.
pub list_and_watch-ignores_absence :
    (api : WatchApi) (pods : List Pod) (w : api.World)
    → ((ps : List Pod) → 0 < api.pods_size ps)
    → (api.list_run_pods w).0 ≡ reply pods
    → (api.open_watch (api.list_run_pods w).1).0 ≡ reply tt
    → (list_and_watch api w).0 ≡ (none, reading)
unfolding list_and_watch
list_and_watch-ignores_absence api pods w encoded listed opened =
    let not_zero : (api.pods_size pods == 0) ≡ false = ground (arith, encoded pods) in
    rw (listed, not_zero, opened, list_and_watch)
