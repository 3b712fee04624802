-- ===== src/Run/Selects.antt =====
-- When the `select`s of RunOnce go on.
use kuberhealthy.Prelude.{
  ℕ, ◌≡◌, refl, sym, ap, ◌∙◌, ◌⊎◌, inl, inr, Option, none, some, Text, codes,
}
use kuberhealthy.Api.Results.{Err, ok, Reply, reply, refuse, Action, map_err, answer, and_then}
use kuberhealthy.Api.Types.{Pod}
use kuberhealthy.Launch.{PodMaker, configure_user_pod_spec, new_checker_pod}
use kuberhealthy.Run.{
  RunApi, timed_out, shut_down, finished, First, on_waiter, on_timeout, on_shutdown, receive,
  Watched, pod_removed, waited, FirstReport, removal, report_or, Schedule, throw_if, on_waited,
  await_exit, await_report, await_start, launch, await_clear, wait_for_all_pods_to_clear,
  wait_for_pod_status_update, wait_for_pod_exit,
}

-- The pod that a run creates.
abbrev pub pod_of : PodMaker → (deadline : Text) → Pod
pod_of ext deadline =
    new_checker_pod ext (configure_user_pod_spec ext deadline ext.original_pod_spec)

module _ (api : RunApi) (ext : PodMaker) where
  -- A `select` lets the run return nil by a shutdown or by going on after the waiter has sent nil.
  received-ok :
      (late message : Text) (f : First) (sent : Option (Option Err))
      (next : Action api.World (Unit {0})) (w : api.World)
      → (on_waited api ext late message (receive f sent) next w).0 ≡ ok tt
      → (f ≡ on_shutdown)
        ⊎ ((sent ≡ some none) × (on_waited api ext late message (receive f sent) next w ≡ next w))
  received-ok late message on_timeout sent next w h = cc
  received-ok late message on_shutdown sent next w h = inl refl
  received-ok late message on_waiter none next w h = cc
  received-ok late message on_waiter (some none) next w h = inr (refl, refl)
  received-ok late message on_waiter (some (some e)) next w h = cc

  exit-ok :
      (s : Schedule) (w : api.World)
      → (await_exit api ext s w).0 ≡ ok tt
      → (s.exited ≡ on_shutdown)
        ⊎ (((wait_for_pod_exit api s.exit_polls w).0 ≡ some none)
            × (await_exit api ext s w ≡ (ok tt, (wait_for_pod_exit api s.exit_polls w).1)))
  unfolding await_exit
  exit-ok s w h =
      let o = wait_for_pod_exit api s.exit_polls w in
      received-ok (codes "timed out waiting for pod to exit")
        (codes "found an error when waiting for pod to exit: ") s.exited o.0 (λ u. (ok tt, u)) o.1 h

  report-ok :
      (r : FirstReport) (last_report_time : ℕ) (s : Schedule) (w : api.World)
      → (await_report api ext r last_report_time s w).0 ≡ ok tt
      → let o = wait_for_pod_status_update api s.report_polls last_report_time w in
        (r ≡ report_or on_shutdown)
        ⊎ ((o.0 ≡ some none)
            × (await_report api ext r last_report_time s w ≡ await_exit api ext s o.1))
  unfolding await_report
  report-ok (removal none) t s w h = cc
  report-ok (removal (some e)) t s w h = cc
  report-ok (report_or f) t s w h =
      let o = wait_for_pod_status_update api s.report_polls t w in
      elim (received-ok (codes "timed out waiting for checker pod to report in")
        (codes "found an error when waiting for pod status to update: ") f o.0
        (await_exit api ext s) o.1 h) [
          | inl stopped ↦ inl (ap report_or stopped)
          | inr rest ↦ inr rest
        ]

  start-ok :
      (r : Watched) (last_report_time : ℕ) (s : Schedule) (w : api.World)
      → (await_start api ext r last_report_time s w).0 ≡ ok tt
      → (r ≡ waited shut_down)
        ⊎ ((r ≡ waited (finished none))
            × (await_start api ext r last_report_time s w
                ≡ await_report api ext s.reported last_report_time s w))
  start-ok (pod_removed none) t s w h = cc
  start-ok (pod_removed (some e)) t s w h = cc
  start-ok (waited timed_out) t s w h = cc
  start-ok (waited shut_down) t s w h = inl refl
  start-ok (waited (finished none)) t s w h = inr (refl, refl)
  start-ok (waited (finished (some e))) t s w h = cc

  after_creation :
      (o : Reply (Unit {0})) (f : Err → Err) (next : Action api.World (Unit {0})) (w : api.World)
      → (and_then (map_err f (answer o)) (λ _. next) w).0 ≡ ok tt
      → (o ≡ reply tt) × (and_then (map_err f (answer o)) (λ _. next) w ≡ next w)
  after_creation (reply u) f next w h = (refl, refl)
  after_creation (refuse e) f next w h = cc

  launch-ok :
      (deadline : Text) (last_report_time : ℕ) (s : Schedule) (w : api.World)
      → (launch api ext deadline last_report_time s w).0 ≡ ok tt
      → let u = (api.create_pod (pod_of ext deadline) w).1 in
        ((api.create_pod (pod_of ext deadline) w).0 ≡ reply tt)
        × (launch api ext deadline last_report_time s w
            ≡ await_start api ext s.started last_report_time s u)
  unfolding launch
  launch-ok deadline t s w h =
      let o = api.create_pod (pod_of ext deadline) w in
      after_creation o.0 _ (await_start api ext s.started t s) o.1 h

  pub clear-ok :
      (deadline : Text) (last_report_time : ℕ) (s : Schedule) (w : api.World)
      → (await_clear api ext deadline last_report_time s w).0 ≡ ok tt
      → let o = wait_for_all_pods_to_clear api s.clear_polls w in
        (s.cleared ≡ on_shutdown)
        ⊎ ((o.0 ≡ some none)
            × (await_clear api ext deadline last_report_time s w
                ≡ launch api ext deadline last_report_time s o.1))
  unfolding await_clear
  clear-ok deadline t s w h =
      let o = wait_for_all_pods_to_clear api s.clear_polls w in
      received-ok (codes "failed to see pod cleanup within timeout")
        (codes "error waiting for pod to clean up: ") s.cleared o.0 (launch api ext deadline t s)
        o.1 h

  pub throw_if-ok :
      (o : Option Err) (next : Action api.World (Unit {0})) (w : api.World)
      → (and_then (throw_if {W = api.World} o w).0 (λ _. next) (throw_if {W = api.World} o w).1).0
        ≡ ok tt
      → (o ≡ none)
        × (and_then (throw_if {W = api.World} o w).0 (λ _. next) (throw_if {W = api.World} o w).1
            ≡ next w)
  throw_if-ok none next w h = (refl, refl)
  throw_if-ok (some e) next w h = cc

  -- The third and the fourth `select`, with the waits for the report and for the exit.
  pub reported_then-ok :
      (last_report_time : ℕ) (s : Schedule) (w : api.World)
      → (await_report api ext s.reported last_report_time s w).0 ≡ ok tt
      → let o = wait_for_pod_status_update api s.report_polls last_report_time w in
        ((s.reported ≡ report_or on_shutdown) ⊎ (s.exited ≡ on_shutdown))
        ⊎ ((o.0 ≡ some none)
            × ((wait_for_pod_exit api s.exit_polls o.1).0 ≡ some none)
            × (await_report api ext s.reported last_report_time s w
                ≡ (ok tt, (wait_for_pod_exit api s.exit_polls o.1).1)))
  reported_then-ok t s w h =
      let o = wait_for_pod_status_update api s.report_polls t w in
      elim (report-ok s.reported t s w h) [
        | inl stopped ↦ inl (inl stopped)
        | inr (reported, e₁) ↦ elim (exit-ok s o.1 (ap (λ r. r.0) (sym e₁) ∙ h)) [
          | inl stopped ↦ inl (inr stopped)
          | inr (exited, e₂) ↦ inr (reported, exited, e₁ ∙ e₂)
        ]
      ]

  -- The creation of the pod and the second `select`.
  pub launched-ok :
      (deadline : Text) (last_report_time : ℕ) (s : Schedule) (w : api.World)
      → (launch api ext deadline last_report_time s w).0 ≡ ok tt
      → let o = api.create_pod (pod_of ext deadline) w in
        (s.started ≡ waited shut_down)
        ⊎ ((o.0 ≡ reply tt)
            × (s.started ≡ waited (finished none))
            × (launch api ext deadline last_report_time s w
                ≡ await_report api ext s.reported last_report_time s o.1))
  launched-ok deadline t s w h =
      let o = api.create_pod (pod_of ext deadline) w in
      let (created, e₁) = launch-ok deadline t s w h in
      elim (start-ok s.started t s o.1 (ap (λ r. r.0) (sym e₁) ∙ h)) [
        | inl stopped ↦ inl stopped
        | inr (started, e₂) ↦ inr (created, started, e₁ ∙ e₂)
      ]
