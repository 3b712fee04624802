-- ===== src/Report/Found.antt =====
-- Which pod validateExternalRequest takes a report from.
use kuberhealthy.Prelude.{
  ℕ, zero, suc, ◌+◌, ◌*◌, ◌≡◌, ap, ◌∙◌, inl, inr, Bool-cases, List, [], ◌∷◌, Text, ltb, is_empty,
}
use kuberhealthy.Api.Results.{
  Result, ok, err, panic, reply, Reply-cases, Action, fault, settle, and_then,
}
use kuberhealthy.Api.Ensures.{Yields, Yields-and_then}
use kuberhealthy.Api.Types.{Pod}
use kuberhealthy.Api.Cluster.{Cluster, IsQuiet}
use kuberhealthy.Store.{second}
use kuberhealthy.Report.{
  PodReportInfo, only_pod, fetch_pod_by_selector, fetched_or, fetch_until, fetch_pod_for_a_minute,
  validate_pod, validate_external_request,
}
use kuberhealthy.Report.Authorized.{IsAuthorized, validate_pod-IsAuthorized}

-- At some moment the selector picked this pod and no other.
abbrev pub IsOnly : (c : Cluster) → Text → Pod → Type 0
IsOnly c selector pod = (u : c.World) × ((c.list_pods selector u).0 ≡ reply (pod ∷ []))

module _ (c : Cluster) (selector : Text) where
  only_pod-IsOnly :
      (pods : List Pod) (u v : c.World)
      → (c.list_pods selector u).0 ≡ reply pods
      → Yields (λ pod _. IsOnly c selector pod) (only_pod c pods v)
  only_pod-IsOnly [] u v h = λ a e. cc
  only_pod-IsOnly (pod ∷ []) u v h = elim (Bool-cases (is_empty pod.containers)) [
    | inl bare ↦ rw bare (λ a e. cc)
    | inr full ↦
        rw full (λ a e. let same : pod ≡ a = cc in (u, h ∙ ap (λ (p : Pod). reply (p ∷ [])) same))
  ]
  only_pod-IsOnly (pod ∷ other ∷ pods) u v h = λ a e. cc

  fetch-IsOnly :
      (w : c.World) → Yields (λ pod _. IsOnly c selector pod) (fetch_pod_by_selector c selector w)
  unfolding fetch_pod_by_selector
  fetch-IsOnly w = elim (Reply-cases (c.list_pods selector w).0) [
    | inl (pods, listed) ↦ rw listed (only_pod-IsOnly pods w (c.list_pods selector w).1 listed)
    | inr (e, failed) ↦ rw failed (λ a h. cc)
  ]

  round-IsOnly :
      (rest : Action c.World Pod) (r : Result Pod) (v : c.World)
      → Yields (λ pod _. IsOnly c selector pod) (r, v)
      → ((u : c.World) → Yields (λ pod _. IsOnly c selector pod) (rest u))
      → Yields (λ pod _. IsOnly c selector pod) (and_then (settle r) (fetched_or c rest) v)
  round-IsOnly rest (ok pod) v now later = now
  round-IsOnly rest (err e) v now later = later (c.sleep second v)
  round-IsOnly rest panic v now later = λ a h. cc

  until-IsOnly :
      (fuel end_time : ℕ) (w : c.World)
      → Yields (λ pod _. IsOnly c selector pod) (fetch_until c fuel fault end_time selector w)
  unfolding fetch_until
  until-IsOnly zero end_time w = λ a h. cc
  until-IsOnly (suc fuel) end_time w = elim (Bool-cases (ltb end_time (c.now w))) [
    | inl past ↦ rw past (λ a h. cc)
    | inr early ↦ rw early (
        round-IsOnly (fetch_until c fuel fault end_time selector)
          (fetch_pod_by_selector c selector w).0 (fetch_pod_by_selector c selector w).1
          (fetch-IsOnly w) (until-IsOnly fuel end_time))
  ]

-- A pod that the selector picked alone, and that may report what the report info says.
abbrev pub Sender : (c : Cluster) → Text → PodReportInfo → c.World → Type 0
Sender c selector info w = (pod : Pod) × IsOnly c selector pod × IsAuthorized c pod info w

-- With nobody else writing, validateExternalRequest gives a report info only if at some moment the
-- selector picked exactly one pod, and that pod is authorized for it.
pub validate_external_request-Sender :
    (c : Cluster) (selector : Text) (info : PodReportInfo) (w : c.World)
    → IsQuiet c
    → (validate_external_request c selector w).0 ≡ ok info
    → Sender c selector info (validate_external_request c selector w).1
unfolding validate_external_request fetch_pod_for_a_minute
validate_external_request-Sender c selector info w quiet h =
    let fetched = fetch_until c 62 fault (c.now w + 60 * second) selector w in
    Yields-and_then (Sender c selector) fetched.0 (validate_pod c) fetched.1
      (λ pod got info' valid. (
        pod,
        until-IsOnly c selector 62 (c.now w + 60 * second) w pod got,
        validate_pod-IsAuthorized c pod info' fetched.1 quiet valid,
      ))
      info h
