-- ===== src/Run/Polls.antt =====
-- What the waiters that poll have seen when they send nil.
use kuberhealthy.Prelude.{
  ℕ, zero, suc, ◌*◌, ◌<◌, ◌≡◌, refl, sym, ap, ◌∙◌, ◌⊎◌, inl, inr, true, false, Bool-cases, none,
  some, List, any, ltb, ltb→lt, arith,
}
use kuberhealthy.Api.Results.{Err, ok, reply, refuse, is_not_found, Reply-cases}
use kuberhealthy.Api.Types.{KhState, Pod}
use kuberhealthy.Store.{second}
use kuberhealthy.Run.{
  RunApi, time_or_zero, is_alive, get_check_last_update_time, pod_has_reported_in_after_time,
  wait_for_pod_status_update, wait_for_all_pods_to_clear, wait_for_pod_exit,
}

module _ (api : RunApi) where
  -- A poll saw the shutdown.
  abbrev pub IsShutDown : api.World → Type 0
  IsShutDown w = api.is_shut_down w ≡ true

  -- The last call was a Get of the pod, which was not found.
  abbrev pub IsCleared : api.World → Type 0
  IsCleared w =
      (u : api.World) × (e : Err) × (api.get_pod u ≡ (refuse e, w)) × (is_not_found e ≡ true)

  -- The last call was a Get of the khstate, which had a last run later than the time.
  abbrev pub IsReported : (t : ℕ) → api.World → Type 0
  IsReported t w =
      (u : api.World) × (s : KhState) × (api.get_state u ≡ (reply s, w))
      × (t < time_or_zero s.spec.last_run)

  -- The last call was a listing of the pods of the run, none of which was running or pending.
  abbrev pub IsExited : api.World → Type 0
  IsExited w =
      (u : api.World) × (pods : List Pod) × (api.list_run_pods u ≡ (reply pods, w))
      × (any (λ (p : Pod). is_alive p.phase) pods ≡ false)

  pub wait_for_all_pods_to_clear-IsCleared :
      (polls : ℕ) (w : api.World)
      → (wait_for_all_pods_to_clear api polls w).0 ≡ some none
      → let end = (wait_for_all_pods_to_clear api polls w).1 in IsShutDown end ⊎ IsCleared end
  unfolding wait_for_all_pods_to_clear
  wait_for_all_pods_to_clear-IsCleared zero w = λ h. cc
  wait_for_all_pods_to_clear-IsCleared (suc polls) w =
      let w₁ = api.sleep (5 * second) w in
      elim (Bool-cases (api.is_shut_down w₁)) [
        | inl down ↦ rw down (λ h. inl down)
        | inr up ↦ elim (Reply-cases (api.get_pod w₁).0) [
          | inl (p, there) ↦
              rw (up, there, wait_for_all_pods_to_clear)
                (wait_for_all_pods_to_clear-IsCleared polls (api.get_pod w₁).1)
          | inr (e, refused) ↦ elim (Bool-cases (is_not_found e)) [
            | inl missing ↦
                rw (up, refused, missing, wait_for_all_pods_to_clear)
                  (λ h. inr (w₁, e, ap (λ r. (r, (api.get_pod w₁).1)) refused, missing))
            | inr other ↦ rw (up, refused, other, wait_for_all_pods_to_clear) (λ h. cc)
          ]
        ]
      ]

  has_reported-read :
      (t : ℕ) (s : KhState) (w : api.World)
      → (api.get_state w).0 ≡ reply s
      → pod_has_reported_in_after_time api t w
        ≡ (ok (ltb t (time_or_zero s.spec.last_run)), (api.get_state w).1)
  unfolding pod_has_reported_in_after_time get_check_last_update_time
  has_reported-read t s w got = rw got refl

  has_reported-refused :
      (t : ℕ) (e : Err) (w : api.World)
      → (api.get_state w).0 ≡ refuse e
      → pod_has_reported_in_after_time api t w ≡ (ok false, (api.get_state w).1)
  unfolding pod_has_reported_in_after_time get_check_last_update_time
  has_reported-refused t e w failed = rw failed (ground arith)

  pub wait_for_pod_status_update-IsReported :
      (polls t : ℕ) (w : api.World)
      → (wait_for_pod_status_update api polls t w).0 ≡ some none
      → let end = (wait_for_pod_status_update api polls t w).1 in IsShutDown end ⊎ IsReported t end
  unfolding wait_for_pod_status_update
  wait_for_pod_status_update-IsReported zero t w = λ h. cc
  wait_for_pod_status_update-IsReported (suc polls) t w =
      let w₁ = api.sleep (5 * second) w in
      elim (Bool-cases (api.is_shut_down w₁)) [
        | inl down ↦ rw down (λ h. inl down)
        | inr up ↦ elim (Reply-cases (api.get_state w₁).0) [
          | inr (e, failed) ↦
              rw (up, has_reported-refused t e w₁ failed, wait_for_pod_status_update)
                (wait_for_pod_status_update-IsReported polls t
                  (pod_has_reported_in_after_time api t w₁).1)
          | inl (s, got) ↦ elim (Bool-cases (ltb t (time_or_zero s.spec.last_run))) [
            | inl later ↦
                rw (up, has_reported-read t s w₁ got, later, wait_for_pod_status_update)
                  (λ h. inr (
                    w₁,
                    s,
                    ap (λ r. (r, (api.get_state w₁).1)) got
                        ∙ ap (λ o. (reply s, o.1)) (sym (has_reported-read t s w₁ got)),
                    ltb→lt t (time_or_zero s.spec.last_run) later,
                  ))
            | inr same ↦
                rw (up, has_reported-read t s w₁ got, same, wait_for_pod_status_update)
                  (wait_for_pod_status_update-IsReported polls t
                    (pod_has_reported_in_after_time api t w₁).1)
          ]
        ]
      ]

  pub wait_for_pod_exit-IsExited :
      (polls : ℕ) (w : api.World)
      → (wait_for_pod_exit api polls w).0 ≡ some none
      → let end = (wait_for_pod_exit api polls w).1 in IsShutDown end ⊎ IsExited end
  unfolding wait_for_pod_exit
  wait_for_pod_exit-IsExited zero w = λ h. cc
  wait_for_pod_exit-IsExited (suc polls) w =
      let w₁ = (api.list_run_pods w).1 in
      elim (Reply-cases (api.list_run_pods w).0) [
        | inr (e, refused) ↦ rw (refused, wait_for_pod_exit) (λ h. cc)
        | inl (pods, listed) ↦ elim (Bool-cases (any (λ (p : Pod). is_alive p.phase) pods)) [
          | inr ended ↦
              rw (listed, ended, wait_for_pod_exit)
                (λ h. inr (w, pods, ap (λ r. (r, w₁)) listed, ended))
          | inl alive ↦ elim (Bool-cases (api.is_shut_down w₁)) [
            | inl down ↦ rw (listed, alive, down, wait_for_pod_exit) (λ h. inl down)
            | inr up ↦
                rw (listed, alive, up, wait_for_pod_exit)
                  (wait_for_pod_exit-IsExited polls (api.sleep (5 * second) w₁))
          ]
        ]
      ]
