-- ===== src/Run/Phases.antt =====
-- When RunOnce returns nil.
use mathlib.Core.Path.{subst}
use kuberhealthy.Prelude.{ℕ, ◌≡◌, refl, sym, ap, ◌∙◌, ◌⊎◌, inl, inr, none, some, Text}
use kuberhealthy.Api.Results.{Result, ok, Reply, reply, refuse, Reply-cases, and_then}
use kuberhealthy.Api.Types.{Pod, KhState}
use kuberhealthy.Launch.{
  PodSpec, PodMaker, validate_pod_spec, sanity_check, configure_user_pod_spec,
}
use kuberhealthy.Run.{
  RunApi, shut_down, finished, on_shutdown, waited, report_or, Schedule, throw_if, time_or_zero,
  get_check_last_update_time, await_clear, checks_then, run_steps, cleanup, run_once,
  wait_for_all_pods_to_clear, wait_for_pod_status_update, wait_for_pod_exit,
}
use kuberhealthy.Run.Polls.{
  IsShutDown, IsCleared, IsReported, IsExited, wait_for_all_pods_to_clear-IsCleared,
  wait_for_pod_status_update-IsReported, wait_for_pod_exit-IsExited,
}
use kuberhealthy.Run.Selects.{pod_of, clear-ok, throw_if-ok, reported_then-ok, launched-ok}

-- A `select` received the shutdown.
abbrev pub IsAborted : Schedule → Type 0
IsAborted s =
    (s.cleared ≡ on_shutdown)
    ⊎ ((s.started ≡ waited shut_down)
        ⊎ ((s.reported ≡ report_or on_shutdown) ⊎ (s.exited ≡ on_shutdown)))

module _ (api : RunApi) where
  -- From the world after the last report time was read, the phases follow one another in the worlds that
  -- they leave, up to the end of the last wait.
  pub record Completed (pod : Pod) (last_report_time : ℕ) (s : Schedule) (w end : api.World)
      : Type 0 where
    pub cleared_in : api.World
    pub cleared : wait_for_all_pods_to_clear api s.clear_polls w ≡ (some none, cleared_in)
    pub was_cleared : IsShutDown api cleared_in ⊎ IsCleared api cleared_in
    pub created : (api.create_pod pod cleared_in).0 ≡ reply tt
    pub started : s.started ≡ waited (finished none)
    pub reported_in : api.World
    pub reported :
        wait_for_pod_status_update api s.report_polls last_report_time
          (api.create_pod pod cleared_in).1
        ≡ (some none, reported_in)
    pub was_reported : IsShutDown api reported_in ⊎ IsReported api last_report_time reported_in
    pub exited : wait_for_pod_exit api s.exit_polls reported_in ≡ (some none, end)
    pub was_exited : IsShutDown api end ⊎ IsExited api end

module _ (api : RunApi) (ext : PodMaker) where
  -- The record of the phases, from what the waits sent.
  completed :
      (pod : Pod) (t : ℕ) (s : Schedule) (w : api.World)
      → let clearing = wait_for_all_pods_to_clear api s.clear_polls w in
        let creating = api.create_pod pod clearing.1 in
        let reporting = wait_for_pod_status_update api s.report_polls t creating.1 in
        let exiting = wait_for_pod_exit api s.exit_polls reporting.1 in
        clearing.0 ≡ some none
        → creating.0 ≡ reply tt
        → s.started ≡ waited (finished none)
        → reporting.0 ≡ some none
        → exiting.0 ≡ some none
        → Completed api pod t s w exiting.1
  completed pod t s w cleared created started reported exited =
      let clearing = wait_for_all_pods_to_clear api s.clear_polls w in
      let creating = api.create_pod pod clearing.1 in
      let reporting = wait_for_pod_status_update api s.report_polls t creating.1 in
      let exiting = wait_for_pod_exit api s.exit_polls reporting.1 in
      record {
        cleared_in = clearing.1;
        cleared = ap (λ r. (r, clearing.1)) cleared;
        was_cleared = wait_for_all_pods_to_clear-IsCleared api s.clear_polls w cleared;
        created = created;
        started = started;
        reported_in = reporting.1;
        reported = ap (λ r. (r, reporting.1)) reported;
        was_reported =
            wait_for_pod_status_update-IsReported api s.report_polls t creating.1 reported;
        exited = ap (λ r. (r, exiting.1)) exited;
        was_exited = wait_for_pod_exit-IsExited api s.exit_polls reporting.1 exited;
      }

  -- What the phases of a run that returns nil come to.
  abbrev pub Ended : Text → ℕ → Schedule → api.World → Result (Unit {0}) × api.World → Type 0
  Ended deadline last_report_time s w o =
      IsAborted s ⊎ Completed api (pod_of ext deadline) last_report_time s w o.1

  phases-ok :
      (deadline : Text) (last_report_time : ℕ) (s : Schedule) (w : api.World)
      → (await_clear api ext deadline last_report_time s w).0 ≡ ok tt
      → Ended deadline last_report_time s w (await_clear api ext deadline last_report_time s w)
  phases-ok deadline t s w h =
      let clearing = wait_for_all_pods_to_clear api s.clear_polls w in
      let creating = api.create_pod (pod_of ext deadline) clearing.1 in
      let reporting = wait_for_pod_status_update api s.report_polls t creating.1 in
      let exiting = wait_for_pod_exit api s.exit_polls reporting.1 in
      elim (clear-ok api ext deadline t s w h) [
        | inl stopped ↦ inl (inl stopped)
        | inr (cleared, e₁) ↦
            let h₁ = ap (λ (o : Result (Unit {0}) × api.World). o.0) (sym e₁) ∙ h in
            elim (launched-ok api ext deadline t s clearing.1 h₁) [
              | inl stopped ↦ inl (inr (inl stopped))
              | inr (created, started, e₂) ↦
                  let h₂ = ap (λ (o : Result (Unit {0}) × api.World). o.0) (sym e₂) ∙ h₁ in
                  elim (reported_then-ok api ext t s creating.1 h₂) [
                    | inl stopped ↦ inl (inr (inr stopped))
                    | inr (reported, exited, e₃) ↦ inr (
                        subst
                          (λ (o : Result (Unit {0}) × api.World).
                            Completed api (pod_of ext deadline) t s w o.1)
                          (sym (e₁ ∙ e₂ ∙ e₃))
                          (completed (pod_of ext deadline) t s w cleared created started reported
                            exited))
                  ]
            ]
      ]

  checks-ok :
      (last_spec : PodSpec) (deadline : Text) (last_report_time : ℕ) (s : Schedule) (w : api.World)
      → (checks_then api ext last_spec deadline last_report_time s w).0 ≡ ok tt
      → (validate_pod_spec last_spec ≡ none)
        × Ended deadline last_report_time s w
            (checks_then api ext last_spec deadline last_report_time s w)
  checks-ok last_spec deadline t s w h =
      let sane =
        sanity_check ext.namespace (configure_user_pod_spec ext deadline ext.original_pod_spec) in
      let select = await_clear api ext deadline t s in
      let after = λ (u : api.World).
        and_then (throw_if {W = api.World} sane u).0 (λ _. select)
          (throw_if {W = api.World} sane u).1 in
      let (valid, e₁) = throw_if-ok api ext (validate_pod_spec last_spec) after w h in
      let h₁ : (after w).0 ≡ ok tt = ap (λ o. o.0) (sym e₁) ∙ h in
      let (_, e₂) = throw_if-ok api ext sane select w h₁ in
      (
        valid,
        subst (Ended deadline t s w) (sym (e₁ ∙ e₂))
            (phases-ok deadline t s w (ap (λ o. o.0) (sym e₂) ∙ h₁)),
      )

-- The last run of the khstate that a Get answers with, the zero time if it answers with none.
abbrev pub last_run_of : Reply KhState → ℕ
last_run_of (refuse e) = 0
last_run_of (reply s) = time_or_zero s.spec.last_run

steps-checks :
    (api : RunApi) (ext : PodMaker) (last_spec : PodSpec) (deadline : Text) (s : Schedule)
    (w : api.World)
    → run_steps api ext last_spec deadline s w
      ≡ checks_then api ext last_spec deadline
          (last_run_of (api.get_state w).0)
          s
          (api.get_state w).1
unfolding run_steps get_check_last_update_time
steps-checks api ext last_spec deadline s w = elim (Reply-cases (api.get_state w).0) [
  | inl (state, got) ↦ rw got refl
  | inr (e, failed) ↦ rw failed refl
]

-- RunOnce returns nil only if the pod spec of the last configuration is valid, and then a `select`
-- received the shutdown, or the phases follow one another: the wait for earlier pods sent nil, the
-- configured pod was created, the waiter for its start sent nil, and so did the waits for the report
-- and for the exit; the cleanup comes last. Each of the three waits that poll sent nil because it saw the
-- shutdown, or else because, in this order, the pod of the run was not found, the khstate was read with
-- a last run later than the one read at the start (the zero time if it could not be read), and no pod
-- of the run was listed as running or pending.
pub run_once-ok :
    (api : RunApi) (ext : PodMaker) (last_spec : PodSpec) (deadline : Text) (s : Schedule)
    (w : api.World)
    → (run_once api ext last_spec deadline s w).0 ≡ ok tt
    → (validate_pod_spec last_spec ≡ none)
      × (IsAborted s
          ⊎ ((end : api.World) × Completed api
                (pod_of ext deadline)
                (last_run_of (api.get_state w).0)
                s
                (api.get_state w).1
                end
              × ((run_once api ext last_spec deadline s w).1 ≡ cleanup api end)))
unfolding run_once
run_once-ok api ext last_spec deadline s w h =
    let last = last_run_of (api.get_state w).0 in
    let e = steps-checks api ext last_spec deadline s w in
    let u = (api.get_state w).1 in
    let (valid, ended) =
      checks-ok api ext last_spec deadline last s u (ap (λ o. o.0) (sym e) ∙ h) in
    (
      valid,
      elim ended [
        | inl stopped ↦ inl stopped
        | inr completed ↦ inr (
          (checks_then api ext last_spec deadline last s u).1,
          completed,
          ap (λ (o : Result (Unit {0}) × api.World). cleanup api o.1) e,
        )
      ],
    )
