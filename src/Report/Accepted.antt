-- ===== src/Report/Accepted.antt =====
-- What externalCheckReportHandler has done when it answers with success.
use mathlib.Core.Path.{subst}
use kuberhealthy.Prelude.{
  ◌≡◌, refl, ap, any, arith, false, ◌⊎◌, inl, inr, true, Bool-cases, Option, none, some, List, ◌++◌,
  Text, codes, is_empty,
}
use kuberhealthy.Api.Results.{reply, Result, ok, err, panic, settle, and_then}
use kuberhealthy.Api.Ensures.{Yields}
use kuberhealthy.Api.Types.{WorkloadDetails, KhWorkload, KhState}
use kuberhealthy.Api.Cluster.{Cluster, IsQuiet}
use kuberhealthy.Status.{item_key, determine_kh_workload, current_status}
use kuberhealthy.Store.{sanitize_resource_name, store_check_state}
use kuberhealthy.Store.Written.{Written, store_check_state-Written}
use kuberhealthy.Report.{Report, PodReportInfo, validate_external_request}
use kuberhealthy.Report.Found.{Sender, validate_external_request-Sender}
use kuberhealthy.Report.Handler.{
  Body, unreadable, malformed, report, Request, status_ok, is_valid, last_run_duration,
  report_details, answer_stored, store_report, take_body, with_info, validate_by_source_ip,
  or_by_ip, validate_request, external_check_report_handler,
}

-- The sender was found by the run's UUID in the header, or by the address of the request.
abbrev pub IsFrom : (c : Cluster) → Request → PodReportInfo → c.World → Type 0
IsFrom c r info w =
    Sender c (codes "kuberhealthy-run-id=" ++ r.run_uuid) info w
    ⊎ ((ip : Text) × (r.remote_ip ≡ some ip)
        × Sender c (codes "status.podIP==" ++ ip ++ codes ",status.phase==Running") info w)

-- A report of success, or a report of failure that gives errors and no blank one.
abbrev pub IsWellFormed : Report → Type 0
IsWellFormed r = (r.ok ≡ true) ⊎ ((is_empty r.errors ≡ false) × (any is_empty r.errors ≡ false))

-- A get of the khstate answers with the report, under the UUID and the namespace of its sender and the
-- name of this host.
pub record IsStored (c : Cluster) (pod_hostname : Text) (info : PodReportInfo) (r : Report)
    (w : c.World) : Type 0 where
  pub khstate : KhState
  pub read : (c.get_state info.namespace (sanitize_resource_name info.name) w).0 ≡ reply khstate
  pub ok_stored : khstate.spec.ok ≡ r.ok
  pub errors_stored : khstate.spec.errors ≡ r.errors
  pub uuid_stored : khstate.spec.current_uuid ≡ info.uuid
  pub namespace_stored : khstate.spec.namespace ≡ info.namespace
  pub host_stored : khstate.spec.authoritative_pod ≡ pod_hostname

pub record Accepted (c : Cluster) (pod_hostname : Text) (r : Request) (w : c.World) : Type 0 where
  pub info : PodReportInfo
  pub the_report : Report
  pub read : r.body ≡ report the_report
  pub valid : IsWellFormed the_report
  pub validated_in : c.World
  pub from : IsFrom c r info validated_in
  pub stored : IsStored c pod_hostname info the_report w

is_valid-IsWellFormed : (r : Report) → is_valid r ≡ true → IsWellFormed r
unfolding is_valid
is_valid-IsWellFormed r h = elim (Bool-cases r.ok) [
  | inl good ↦ inl good
  | inr failed ↦ inr (ground (arith, h, failed), ground (arith, h, failed))
]

-- What is written for a report holds the report.
Written-IsStored :
    (c : Cluster) (pod_hostname : Text) (workload : KhWorkload) (info : PodReportInfo) (r : Report)
    (run_duration : Text) (w : c.World)
    → Written c pod_hostname
        (sanitize_resource_name info.name)
        info.namespace
        (report_details workload info r run_duration)
        w
    → IsStored c pod_hostname info r w
unfolding report_details
Written-IsStored c pod_hostname workload info r run_duration w (t, got, time, same) = record {
  khstate = t;
  read = got;
  ok_stored = ap (λ (d : WorkloadDetails). d.ok) same;
  errors_stored = ap (λ (d : WorkloadDetails). d.errors) same;
  uuid_stored = ap (λ (d : WorkloadDetails). d.current_uuid) same;
  namespace_stored = ap (λ (d : WorkloadDetails). d.namespace) same;
  host_stored = ap (λ (d : WorkloadDetails). d.authoritative_pod) same;
}

module _ (c : Cluster) (quiet : IsQuiet c) where
  ip-IsFrom :
      (r : Request) (ip : Option Text) (w : c.World)
      → r.remote_ip ≡ ip
      → Yields (IsFrom c r) (validate_by_source_ip c ip w)
  unfolding validate_by_source_ip
  ip-IsFrom r none w e = λ a h. cc
  ip-IsFrom r (some ip) w e =
      λ info h. inr (ip, e, validate_external_request-Sender c _ info w quiet h)

  or_by_ip-IsFrom :
      (r : Request) (o : Result PodReportInfo) (w : c.World)
      → Yields (IsFrom c r) (o, w)
      → Yields (IsFrom c r) (and_then (settle o) (or_by_ip c r.remote_ip) w)
  or_by_ip-IsFrom r (ok info) w by_header = by_header
  or_by_ip-IsFrom r (err e) w by_header = ip-IsFrom r r.remote_ip w refl
  or_by_ip-IsFrom r panic w by_header = λ a h. cc

  validate_request-IsFrom :
      (r : Request) (w : c.World) → Yields (IsFrom c r) (validate_request c r w)
  unfolding validate_request
  validate_request-IsFrom r w = elim (Bool-cases (is_empty r.run_uuid)) [
    | inl no_header ↦ rw no_header (ip-IsFrom r r.remote_ip w refl)
    | inr header ↦
        let selector = codes "kuberhealthy-run-id=" ++ r.run_uuid in
        rw header (
          or_by_ip-IsFrom r (validate_external_request c selector w).0 _
            (λ info h. inl (validate_external_request-Sender c selector info w quiet h)))
  ]

  module _ (pod_hostname : Text) (items : Option (List (Option KhState))) where
    answer-status_ok :
        (o : Result (Unit {0}) × c.World)
        → (answer_stored o).0 ≡ status_ok
        → (o.0 ≡ ok tt) × (o.1 ≡ (answer_stored o).1)
    answer-status_ok (ok u, w) h = (refl, refl)
    answer-status_ok (err e, w) h = cc
    answer-status_ok (panic, w) h = cc

    store_report-IsStored :
        (info : PodReportInfo) (r : Report) (o : Option KhWorkload × c.World)
        → (store_report c pod_hostname items info r o).0 ≡ status_ok
        → IsStored c pod_hostname info r (store_report c pod_hostname items info r o).1
    store_report-IsStored info r (none, w) h = cc
    store_report-IsStored info r (some workload, w) h =
        let status = current_status c items w in
        let run_duration =
          last_run_duration workload (item_key info.namespace info.name) status.0 in
        let details = report_details workload info r run_duration in
        let o = store_check_state c pod_hostname info.name info.namespace details status.1 in
        let (stored, same) = answer-status_ok o h in
        subst (IsStored c pod_hostname info r) same (
          Written-IsStored c pod_hostname workload info r run_duration o.1 (
            store_check_state-Written c pod_hostname info.name info.namespace details status.1 quiet
              stored))

    take_body-Accepted :
        (r : Request) (info : PodReportInfo) (v : c.World) (body : Body)
        → IsFrom c r info v
        → r.body ≡ body
        → (take_body c pod_hostname items info body v).0 ≡ status_ok
        → Accepted c pod_hostname r (take_body c pod_hostname items info body v).1
    take_body-Accepted r info v unreadable from e = λ h. cc
    take_body-Accepted r info v malformed from e = λ h. cc
    take_body-Accepted r info v (report the_report) from e =
        elim (Bool-cases (is_valid the_report)) [
          | inl valid ↦ rw valid (λ h. record {
            info = info;
            the_report = the_report;
            read = e;
            valid = is_valid-IsWellFormed the_report valid;
            validated_in = v;
            from = from;
            stored =
                store_report-IsStored info the_report
                  (determine_kh_workload c info.name info.namespace v) h;
          })
          | inr invalid ↦ rw invalid (λ h. cc)
        ]

    with_info-Accepted :
        (r : Request) (o : Result PodReportInfo) (v : c.World)
        → Yields (IsFrom c r) (o, v)
        → (with_info c pod_hostname items r.body (o, v)).0 ≡ status_ok
        → Accepted c pod_hostname r (with_info c pod_hostname items r.body (o, v)).1
    with_info-Accepted r (ok info) v from = take_body-Accepted r info v r.body (from info refl) refl
    with_info-Accepted r (err e) v from = λ h. cc
    with_info-Accepted r panic v from = λ h. cc

-- With nobody else writing, externalCheckReportHandler answers with success only if the body is a
-- report, which gives errors and no blank one if it is not ok; the pod that the run's UUID or the
-- request's address picked is authorized for a check name, namespace and UUID; and a get of the
-- khstate of this name and namespace then answers with the report's ok and errors, under that UUID.
pub external_check_report_handler-Accepted :
    (c : Cluster) (pod_hostname : Text) (items : Option (List (Option KhState))) (r : Request)
    (w : c.World)
    → IsQuiet c
    → (external_check_report_handler c pod_hostname items r w).0 ≡ status_ok
    → Accepted c pod_hostname r (external_check_report_handler c pod_hostname items r w).1
unfolding external_check_report_handler
external_check_report_handler-Accepted c pod_hostname items r w quiet =
    with_info-Accepted c quiet pod_hostname items r (validate_request c r w).0
      (validate_request c r w).1 (validate_request-IsFrom c quiet r w)
