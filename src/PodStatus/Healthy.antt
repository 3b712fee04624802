-- ===== src/PodStatus/Healthy.antt =====
-- When the pod status check succeeds.
use kuberhealthy.Prelude.{
  ◌≡◌, refl, inl, inr, ℕ, ◌+◌, ltb, Bool, true, false, Bool-cases, ◌||◌, ◌&&◌, List, [], ◌∷◌, ◌++◌,
  all, Text, is_empty, arith, some,
}
use kuberhealthy.Api.Results.{reply}
use kuberhealthy.Api.Types.{
  Phase, pod_pending, pod_running, pod_succeeded, pod_failed, pod_unknown, Pod,
}
use kuberhealthy.PodStatus.{failures_of, find_pods_not_running, report}

abbrev pub is_healthy : Phase → Bool
is_healthy pod_running = true
is_healthy pod_succeeded = true
is_healthy pod_pending = false
is_healthy pod_failed = false
is_healthy pod_unknown = false

empty-failures :
    (pod : Pod) (p : Phase) (rest : List Text)
    → is_empty (failures_of pod p ++ rest) ≡ (is_healthy p && is_empty rest)
empty-failures pod pod_running rest = refl
empty-failures pod pod_succeeded rest = refl
empty-failures pod pod_pending rest = refl
empty-failures pod pod_failed rest = refl
empty-failures pod pod_unknown rest = refl

-- The pod status check reports success exactly if every listed pod runs, has succeeded, or is younger
-- than the duration that is skipped.
pub report-healthy :
    (check_time d : ℕ) (pods : List Pod)
    → is_empty (report check_time (some d) (reply pods))
      ≡ all
          (λ (pod : Pod). ltb check_time (pod.creation_timestamp + d) || is_healthy pod.phase)
          pods
unfolding report find_pods_not_running
report-healthy check_time d [] = refl
report-healthy check_time d (pod ∷ pods) =
    let rest = report-healthy check_time d pods in
    elim (Bool-cases (ltb check_time (pod.creation_timestamp + d))) [
      | inl young ↦ rw young rest
      | inr old ↦
          rw (old, empty-failures pod pod.phase (find_pods_not_running check_time d pods))
            (ground (arith, rest))
    ]
