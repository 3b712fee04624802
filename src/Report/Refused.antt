-- ===== src/Report/Refused.antt =====
-- What externalCheckReportHandler leaves alone when it answers with a bad request.
use kuberhealthy.Prelude.{
  ℕ, zero, suc, ◌+◌, ◌*◌, ◌≡◌, ◌≢◌, refl, ap, ◌∙◌, inl, inr, Bool-cases, Option, none, some, List,
  ◌++◌, Text, codes, ltb, lookup, is_empty, arith,
}
use kuberhealthy.Api.Results.{Result, ok, err, panic, Action, fault, settle, and_then}
use kuberhealthy.Api.Types.{KhWorkload, KhState, Pod}
use kuberhealthy.Api.Cluster.{Cluster}
use kuberhealthy.Store.{second}
use kuberhealthy.Report.{
  Report, PodReportInfo, check_name_annotation_key, text_or_empty, env_vars, find_uuid,
  fetch_pod_by_selector, fetched_or, fetch_until, fetch_pod_for_a_minute,
  is_uuid_whitelisted_for_check, validate_report_info, with_uuid_of, validate_pod,
  validate_external_request,
}
use kuberhealthy.Report.Handler.{
  Body, unreadable, malformed, report, Request, bad_request, is_valid, answer_stored, store_report,
  take_body, with_info, validate_by_source_ip, or_by_ip, validate_request,
  external_check_report_handler,
}

-- A meter that only writes move: reads and sleeps leave it as it is.
pub record IsWriteMeter (c : Cluster) (meter : c.World → ℕ) : Type 0 where
  pub get_keeps : (ns n : Text) (w : c.World) → meter (c.get_state ns n w).1 ≡ meter w
  pub list_keeps : (selector : Text) (w : c.World) → meter (c.list_pods selector w).1 ≡ meter w
  pub sleep_keeps : (d : ℕ) (w : c.World) → meter (c.sleep d w) ≡ meter w

module _ (c : Cluster) (meter : c.World → ℕ) (m : IsWriteMeter c meter) where
  fetch_keeps :
      (selector : Text) (w : c.World) → meter (fetch_pod_by_selector c selector w).1 ≡ meter w
  unfolding fetch_pod_by_selector
  fetch_keeps selector w = grind (arith, m.list_keeps)

  round_keeps :
      (rest : Action c.World Pod) (r : Result Pod) (v : c.World)
      → ((u : c.World) → meter (rest u).1 ≡ meter u)
      → meter (and_then (settle r) (fetched_or c rest) v).1 ≡ meter v
  round_keeps rest (ok pod) v later = refl
  round_keeps rest (err e) v later = later (c.sleep second v) ∙ m.sleep_keeps second v
  round_keeps rest panic v later = refl

  until_keeps :
      (fuel end_time : ℕ) (selector : Text) (w : c.World)
      → meter (fetch_until c fuel fault end_time selector w).1 ≡ meter w
  unfolding fetch_until
  until_keeps zero end_time selector w = refl
  until_keeps (suc fuel) end_time selector w = elim (Bool-cases (ltb end_time (c.now w))) [
    | inl past ↦ rw past
    | inr early ↦ rw early (
        round_keeps (fetch_until c fuel fault end_time selector)
          (fetch_pod_by_selector c selector w).0 (fetch_pod_by_selector c selector w).1
          (until_keeps fuel end_time selector)
        ∙ fetch_keeps selector w)
  ]

  info_keeps :
      (info : PodReportInfo) (w : c.World) → meter (validate_report_info c info w).1 ≡ meter w
  unfolding validate_report_info is_uuid_whitelisted_for_check
  info_keeps info w = grind (arith, m.get_keeps)

  uuid_keeps :
      (pod : Pod) (name : Text) (o : Option Text) (w : c.World)
      → meter (with_uuid_of c pod name o w).1 ≡ meter w
  uuid_keeps pod name none w = refl
  uuid_keeps pod name (some uuid) w = grind (arith, info_keeps)

  pod_keeps : (pod : Pod) (w : c.World) → meter (validate_pod c pod w).1 ≡ meter w
  unfolding validate_pod
  pod_keeps pod w =
      elim (Bool-cases
        (is_empty (text_or_empty (lookup check_name_annotation_key pod.annotations)))) [
          | inl blank ↦ rw blank
          | inr named ↦ rw named (uuid_keeps pod _ (find_uuid (env_vars pod.containers) none) w)
        ]

  and_then_keeps :
      {A B : Type 0} (r : Result A) (f : A → Action c.World B) (v : c.World)
      → ((a : A) → meter (f a v).1 ≡ meter v)
      → meter (and_then r f v).1 ≡ meter v
  and_then_keeps (ok a) f v h = h a
  and_then_keeps (err e) f v h = refl
  and_then_keeps panic f v h = refl

  external_keeps :
      (selector : Text) (w : c.World) → meter (validate_external_request c selector w).1 ≡ meter w
  unfolding validate_external_request fetch_pod_for_a_minute
  external_keeps selector w =
      let fetched = fetch_until c 62 fault (c.now w + 60 * second) selector w in
      and_then_keeps fetched.0 (validate_pod c) fetched.1 (λ pod. pod_keeps pod fetched.1)
      ∙ until_keeps 62 (c.now w + 60 * second) selector w

  ip_keeps : (ip : Option Text) (w : c.World) → meter (validate_by_source_ip c ip w).1 ≡ meter w
  unfolding validate_by_source_ip
  ip_keeps none w = refl
  ip_keeps (some ip) w = external_keeps _ w

  or_by_ip_keeps :
      (ip : Option Text) (o : Result PodReportInfo) (v : c.World)
      → meter (and_then (settle o) (or_by_ip c ip) v).1 ≡ meter v
  or_by_ip_keeps ip (ok info) v = refl
  or_by_ip_keeps ip (err e) v = ip_keeps ip v
  or_by_ip_keeps ip panic v = refl

  request_keeps : (r : Request) (w : c.World) → meter (validate_request c r w).1 ≡ meter w
  unfolding validate_request
  request_keeps r w = elim (Bool-cases (is_empty r.run_uuid)) [
    | inl no_header ↦ rw no_header (ip_keeps r.remote_ip w)
    | inr header ↦
        let selector = codes "kuberhealthy-run-id=" ++ r.run_uuid in
        rw header (
          or_by_ip_keeps r.remote_ip (validate_external_request c selector w).0 _
          ∙ external_keeps selector w)
  ]

module _ (c : Cluster) (pod_hostname : Text) (items : Option (List (Option KhState))) where
  answer-is_no_bad_request : (o : Result (Unit {0}) × c.World) → (answer_stored o).0 ≢ bad_request
  answer-is_no_bad_request (ok u, w) h = cc
  answer-is_no_bad_request (err e, w) h = cc
  answer-is_no_bad_request (panic, w) h = cc

  store-is_no_bad_request :
      (info : PodReportInfo) (r : Report) (o : Option KhWorkload × c.World)
      → (store_report c pod_hostname items info r o).0 ≢ bad_request
  store-is_no_bad_request info r (none, w) h = cc
  store-is_no_bad_request info r (some workload, w) h = answer-is_no_bad_request _ h

  take_body-stays :
      (info : PodReportInfo) (body : Body) (v : c.World)
      → (take_body c pod_hostname items info body v).0 ≡ bad_request
      → (take_body c pod_hostname items info body v).1 ≡ v
  take_body-stays info unreadable v = λ h. refl
  take_body-stays info malformed v = λ h. refl
  take_body-stays info (report r) v = elim (Bool-cases (is_valid r)) [
    | inl valid ↦ rw valid (λ h. absurd (store-is_no_bad_request info r _ h))
    | inr invalid ↦ rw invalid (λ h. refl)
  ]

  with_info-stays :
      (body : Body) (o : Result PodReportInfo) (v : c.World)
      → (with_info c pod_hostname items body (o, v)).0 ≡ bad_request
      → (with_info c pod_hostname items body (o, v)).1 ≡ v
  with_info-stays body (ok info) v = take_body-stays info body v
  with_info-stays body (err e) v = λ h. refl
  with_info-stays body panic v = λ h. refl

-- A request that externalCheckReportHandler answers as a bad one has written nothing: every meter
-- that reads and sleeps leave as it is stands as before.
pub external_check_report_handler-bad_request :
    (c : Cluster) (meter : c.World → ℕ) (pod_hostname : Text)
    (items : Option (List (Option KhState))) (r : Request) (w : c.World)
    → IsWriteMeter c meter
    → (external_check_report_handler c pod_hostname items r w).0 ≡ bad_request
    → meter (external_check_report_handler c pod_hostname items r w).1 ≡ meter w
unfolding external_check_report_handler
external_check_report_handler-bad_request c meter pod_hostname items r w m h =
    ap meter (
      with_info-stays c pod_hostname items r.body (validate_request c r w).0
        (validate_request c r w).1 h)
    ∙ request_keeps c meter m r w
