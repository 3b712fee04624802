-- ===== src/Run/Reported.antt =====
-- What it takes for a run to see the report of its pod.
use kuberhealthy.Prelude.{
  ℕ, zero, suc, ◌*◌, ◌<◌, ◌≡◌, ◌⊎◌, inl, inr, true, false, Bool-cases, none, some, ltb, ltb→lt,
  arith,
}
use kuberhealthy.Api.Results.{Err, ok, reply, refuse, Reply-cases}
use kuberhealthy.Api.Types.{KhState}
use kuberhealthy.Store.{second}
use kuberhealthy.Run.{
  RunApi, time_or_zero, get_check_last_update_time, pod_has_reported_in_after_time,
  wait_for_pod_status_update,
}

-- The khstate was read with a later last run.
abbrev pub HasReported : (api : RunApi) (t : ℕ) → Type 0
HasReported api t =
    (u : api.World) × (s : KhState) × ((api.get_state u).0 ≡ reply s)
    × (t < time_or_zero s.spec.last_run)

module _ (api : RunApi) (t : ℕ) where
  reported-cases :
      (w : api.World) → HasReported api t ⊎ ((pod_has_reported_in_after_time api t w).0 ≡ ok false)
  unfolding pod_has_reported_in_after_time get_check_last_update_time
  reported-cases w = elim (Reply-cases (api.get_state w).0) [
    | inl (s, got) ↦ elim (Bool-cases (ltb t (time_or_zero s.spec.last_run))) [
      | inl later ↦ inl (w, s, got, ltb→lt t (time_or_zero s.spec.last_run) later)
      | inr same ↦ inr (rw (got, same))
    ]
    | inr (e, failed) ↦ inr (rw failed (ground arith))
  ]

-- waitForPodStatusUpdate, however long it polls, reports success only if it saw a shutdown or read a
-- khstate whose last run is later than the time it was given.
pub wait_for_pod_status_update-reported :
    (api : RunApi) (fuel t : ℕ) (w : api.World)
    → (wait_for_pod_status_update api fuel t w).0 ≡ some none
    → ((u : api.World) × (api.is_shut_down u ≡ true)) ⊎ HasReported api t
unfolding wait_for_pod_status_update
wait_for_pod_status_update-reported api zero t w = λ h. cc
wait_for_pod_status_update-reported api (suc fuel) t w =
    let w₁ = api.sleep (5 * second) w in
    elim (Bool-cases (api.is_shut_down w₁)) [
      | inl down ↦ λ h. inl (w₁, down)
      | inr up ↦ elim (reported-cases api t w₁) [
        | inl seen ↦ λ h. inr seen
        | inr unseen ↦
            rw (up, unseen)
              (wait_for_pod_status_update-reported api fuel t
                (pod_has_reported_in_after_time api t w₁).1)
      ]
    ]

-- If the khstate cannot be read at the start of a run, for any error, getCheckLastUpdateTime gives the
-- zero time without an error, and then a poll takes any khstate with a last run for a new report,
-- also one from an earlier run.
pub get_check_last_update_time-swallows :
    (api : RunApi) (e : Err) (s : KhState) (last : ℕ) (start poll : api.World)
    → (api.get_state start).0 ≡ refuse e
    → (api.get_state poll).0 ≡ reply s
    → s.spec.last_run ≡ some (suc last)
    → ((get_check_last_update_time api start).0 ≡ ok 0)
      × ((pod_has_reported_in_after_time api 0 poll).0 ≡ ok true)
unfolding pod_has_reported_in_after_time get_check_last_update_time
get_check_last_update_time-swallows api e s last start poll failed got run =
    (rw failed, rw (got, run) (ground arith))
