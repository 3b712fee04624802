-- ===== src/Deployment/Rollout/Recent.antt =====
-- Which event explains the error of a pod.
use kuberhealthy.Prelude.{◌≡◌, refl, ltb, true, List, [], ◌∷◌, ◌++◌, Text}
use kuberhealthy.Deployment.Rollout.{PodEvent, is_error_event, recent_error}

recent-append :
    (before after : List PodEvent) (o : Text × Text)
    → recent_error (before ++ after) o ≡ recent_error after (recent_error before o)
unfolding recent_error
recent-append [] after o = refl
recent-append (e ∷ before) after o = recent-append before after _

-- The event that is shown is the last error in the listing that has a time, however old it is.
pub recent_error_last :
    (before : List PodEvent) (e : PodEvent) (o : Text × Text)
    → is_error_event e ≡ true
    → ltb 0 e.last_timestamp ≡ true
    → recent_error (before ++ e ∷ []) o ≡ (e.reason, e.message)
unfolding recent_error
recent_error_last before e o bad timed = rw (recent-append before (e ∷ []) o, bad, timed) refl
