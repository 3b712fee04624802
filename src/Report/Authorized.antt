-- ===== src/Report/Authorized.antt =====
-- Whom validateExternalRequest lets through.
use mathlib.Core.Path.{subst}
use kuberhealthy.Prelude.{
  ◌≡◌, refl, inl, inr, false, Bool-cases, Option, none, some, Text, text_eq, eq_of_text_eq, lookup,
  is_empty,
}
use kuberhealthy.Api.Results.{ok, reply, Reply-cases}
use kuberhealthy.Api.Ensures.{Yields}
use kuberhealthy.Api.Types.{KhState, Pod}
use kuberhealthy.Api.Cluster.{Cluster, IsQuiet}
use kuberhealthy.Report.{
  PodReportInfo, check_name_annotation_key, text_or_empty, env_vars, find_uuid,
  is_uuid_whitelisted_for_check, validate_report_info, with_uuid_of, validate_pod,
}

-- The report info is what the pod says of itself, and the khstate of its check expects its UUID.
pub record IsAuthorized (c : Cluster) (pod : Pod) (info : PodReportInfo) (w : c.World)
    : Type 0 where
  pub named : text_or_empty (lookup check_name_annotation_key pod.annotations) ≡ info.name
  pub has_name : is_empty info.name ≡ false
  pub placed : pod.namespace ≡ info.namespace
  pub given_uuid : find_uuid (env_vars pod.containers) none ≡ some info.uuid
  pub khstate : KhState
  pub current : (c.get_state info.namespace info.name w).0 ≡ reply khstate
  pub expected : khstate.spec.current_uuid ≡ info.uuid

module _ (c : Cluster) (quiet : IsQuiet c) where
  -- What the last check of a report info yields.
  abbrev Expects : PodReportInfo → c.World → Type 0
  Expects info w =
      (s : KhState) × ((c.get_state info.namespace info.name w).0 ≡ reply s)
      × (s.spec.current_uuid ≡ info.uuid)

  validate_report_info-Expects :
      (info : PodReportInfo) (w : c.World)
      → Yields (λ info' v. (info ≡ info') × Expects info v) (validate_report_info c info w)
  unfolding validate_report_info is_uuid_whitelisted_for_check
  validate_report_info-Expects info w =
      elim (Reply-cases (c.get_state info.namespace info.name w).0) [
        | inl (s, got) ↦ elim (Bool-cases (text_eq s.spec.current_uuid info.uuid)) [
          | inl same ↦
              rw (got, same)
                (λ a h. (
                  cc,
                  (s, rw quiet.get_keeps got, eq_of_text_eq s.spec.current_uuid info.uuid same),
                ))
          | inr other ↦ rw (got, other) (λ a h. cc)
        ]
        | inr (e, failed) ↦ rw failed (λ a h. cc)
      ]

  with_uuid_of-IsAuthorized :
      (pod : Pod) (name : Text) (o : Option Text) (w : c.World)
      → text_or_empty (lookup check_name_annotation_key pod.annotations) ≡ name
      → is_empty name ≡ false
      → find_uuid (env_vars pod.containers) none ≡ o
      → Yields (IsAuthorized c pod) (with_uuid_of c pod name o w)
  with_uuid_of-IsAuthorized pod name none w named nonempty env = λ a h. cc
  with_uuid_of-IsAuthorized pod name (some uuid) w named nonempty env =
      elim (Bool-cases (is_empty pod.namespace)) [
        | inl no_ns ↦ rw no_ns (λ a h. cc)
        | inr has_ns ↦ elim (Bool-cases (is_empty uuid)) [
          | inl no_uuid ↦ rw (has_ns, no_uuid) (λ a h. cc)
          | inr has_uuid ↦
              rw (has_ns, has_uuid)
                (λ info' h.
                  let info : PodReportInfo = record {
                    name = name;
                    uuid = uuid;
                    namespace = pod.namespace;
                  } in
                  let (same, expects) = validate_report_info-Expects info w info' h in
                  let (s, current, expected) = expects in
                  subst (λ i. IsAuthorized c pod i (validate_report_info c info w).1) same
                    (record {
                      named = named;
                      has_name = nonempty;
                      placed = refl;
                      given_uuid = env;
                      khstate = s;
                      current = current;
                      expected = expected;
                    }))
        ]
      ]

-- With nobody else writing, a pod passes validation only under the check name of its annotation,
-- which is not empty, its own namespace and the last KH_RUN_UUID of its containers, and only if the
-- khstate of that name and namespace has this UUID as the current one.
pub validate_pod-IsAuthorized :
    (c : Cluster) (pod : Pod) (info : PodReportInfo) (w : c.World)
    → IsQuiet c
    → (validate_pod c pod w).0 ≡ ok info
    → IsAuthorized c pod info (validate_pod c pod w).1
unfolding validate_pod
validate_pod-IsAuthorized c pod info w quiet =
    elim (Bool-cases
      (is_empty (text_or_empty (lookup check_name_annotation_key pod.annotations)))) [
        | inl blank ↦ rw blank (λ h. cc)
        | inr named ↦ rw named (
            with_uuid_of-IsAuthorized c quiet pod _ (find_uuid (env_vars pod.containers) none) w
              refl named refl info)
      ]
