-- ===== src/Deployment/Waits/Seen.antt =====
-- What was seen when the deployment counts as created or rolled.
use kuberhealthy.Prelude.{
  ◌≡◌, ◌≢◌, refl, inl, inr, ℕ, Bool, true, false, Bool-cases, Option, none, some, List, [], ◌∷◌,
  any, Text,
}
use kuberhealthy.Api.Results.{Err, reply}
use kuberhealthy.Deployment.{deployed}
use kuberhealthy.Deployment.Rollout.{DeploymentStatus, deployment_available, rolled_pods_are_ready}
use kuberhealthy.Deployment.Waits.{
  WaitEvent, status_seen, foreign_seen, pod_error_sent, watch_ended, context_done, after_expiry,
  wait_for_available, create_deployment, wait_for_rolled, update_deployment,
}

-- The event shows the deployment with a status that passes the test.
abbrev pub shows : (DeploymentStatus → Bool) → WaitEvent → Bool
shows p (status_seen d is_expired) = p d
shows p foreign_seen = false
shows p (pod_error_sent message) = false
shows p (watch_ended reopened) = false
shows p context_done = false

not_deployed :
    (clean_up : Option Err) (name : Text) → some (after_expiry clean_up) ≢ some (deployed name)
not_deployed none name h = cc
not_deployed (some e) name h = cc

module _ (check_replicas : ℕ) (name : Text) (clean_up : Option Err) where
  wait_for_available-shows :
      (events : List WaitEvent)
      → wait_for_available check_replicas name clean_up events ≡ some (deployed name)
      → any (shows (deployment_available check_replicas)) events ≡ true
  unfolding wait_for_available
  wait_for_available-shows [] h = cc
  wait_for_available-shows (status_seen d is_expired ∷ events) h =
      elim (Bool-cases (deployment_available check_replicas d)) [
        | inl available ↦ rw available refl
        | inr other ↦ elim (Bool-cases is_expired) [
          | inl over ↦ absurd (not_deployed clean_up name (rw (other, over) at h))
          | inr on ↦ rw other (wait_for_available-shows events (rw (other, on) at h))
        ]
      ]
  wait_for_available-shows (foreign_seen ∷ events) h = wait_for_available-shows events h
  wait_for_available-shows (pod_error_sent message ∷ events) h = cc
  wait_for_available-shows (watch_ended none ∷ events) h = wait_for_available-shows events h
  wait_for_available-shows (watch_ended (some e) ∷ events) h = cc
  wait_for_available-shows (context_done ∷ events) h = wait_for_available-shows events h

  wait_for_rolled-shows :
      (events : List WaitEvent)
      → wait_for_rolled check_replicas name clean_up events ≡ some (deployed name)
      → any (shows (rolled_pods_are_ready check_replicas)) events ≡ true
  unfolding wait_for_rolled
  wait_for_rolled-shows [] h = cc
  wait_for_rolled-shows (status_seen d is_expired ∷ events) h =
      elim (Bool-cases (rolled_pods_are_ready check_replicas d)) [
        | inl ready ↦ rw ready refl
        | inr other ↦ rw other (wait_for_rolled-shows events (rw other at h))
      ]
  wait_for_rolled-shows (foreign_seen ∷ events) h = wait_for_rolled-shows events h
  wait_for_rolled-shows (pod_error_sent message ∷ events) h = cc
  wait_for_rolled-shows (watch_ended reopened ∷ events) h = wait_for_rolled-shows events h
  wait_for_rolled-shows (context_done ∷ events) h = absurd (not_deployed clean_up name h)

-- A deployment counts as created, or as rolled, only if the watch has shown it with every replica up, and
-- with the generation that goes with the step.
pub deployed-shows :
    (check_replicas : ℕ) (name : Text) (clean_up : Option Err) (events : List WaitEvent)
    → (create_deployment check_replicas name clean_up (reply tt) events ≡ some (deployed name)
        → any (shows (deployment_available check_replicas)) events ≡ true)
      × (update_deployment check_replicas name clean_up (reply tt) none events
            ≡ some (deployed name)
          → any (shows (rolled_pods_are_ready check_replicas)) events ≡ true)
unfolding create_deployment update_deployment
deployed-shows check_replicas name clean_up events = (
  wait_for_available-shows check_replicas name clean_up events,
  wait_for_rolled-shows check_replicas name clean_up events,
)
