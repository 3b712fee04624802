-- ===== src/Page.antt =====
-- The status page (`healthCheckHandler`, `getCurrentState`, `writeHealthCheckError`,
-- `prometheusMetricsHandler` of cmd/kuberhealthy/kuberhealthy.go). The page is the summary, before it is encoded as JSON.
pub mod Query
pub mod Shown
use kuberhealthy.Prelude.{
  Bool, true, false, not, Option, none, some, List, [], ◌∷◌, select, Text, codes, Dict, is_empty,
  split, if◌then◌else◌,
}
use kuberhealthy.Api.Results.{Err, Result, ok, err, panic}
use kuberhealthy.Api.Types.{KhState}
use kuberhealthy.Api.Cluster.{Cluster}
use kuberhealthy.Health.{State, add_error}
use kuberhealthy.Status.{current_status, get_current_status_for_namespaces}
use kuberhealthy.Master.{calculate_master}
use kuberhealthy.Metrics.{PromMetricsConfig, generate_metrics}

-- The namespaces of the query parameter, which is empty if there is none: empty parts do not count.
unfoldable pub requested_namespaces : (namespace_value : Text) → List Text
requested_namespaces [] = []
requested_namespaces (x ∷ value) = select (λ (s : Text). not (is_empty s)) (split b',' (x ∷ value))

abbrev pub master_or_empty : Result Text → Text
master_or_empty (ok master) = master
master_or_empty _ = []

pub data PageResponse : Type 0 where
  page : State → PageResponse
  bad_page_request : PageResponse

-- `writeHealthCheckError`: the state that is written.
unfoldable pub write_health_check_error : Err → State → State
unfolding add_error
write_health_check_error e state = add_error (record state { ok = false }) (e.message ∷ [])

-- `items` is what the reflector's cache lists, and `state_metadata` is part of the configuration.
module _ (c : Cluster) (items : Option (List (Option KhState))) (state_metadata : Dict Text) where
  unfoldable pub status_for : List Text → c.World → State × c.World
  status_for namespaces w =
      let (s, w') = current_status c items w in
      (if is_empty namespaces then s else get_current_status_for_namespaces namespaces s, w')

  abbrev pub with_master : Text → State → State
  with_master master s = record s {
    current_master = master;
    metadata = if is_empty state_metadata then s.metadata else state_metadata;
  }

  -- `getCurrentState`
  unfoldable pub get_current_state : List Text → c.World → State × c.World
  get_current_state namespaces w =
      let (master, w₁) = calculate_master c w in
      let (s, w₂) = status_for namespaces w₁ in (with_master (master_or_empty master) s, w₂)

  -- `healthCheckHandler`, with the bytes of the body that could be read.
  unfoldable pub health_check_handler :
      (body namespace_value : Text) → c.World → PageResponse × c.World
  health_check_handler (x ∷ body) namespace_value w = (bad_page_request, w)
  health_check_handler [] namespace_value w =
      let (s, w') = get_current_state (requested_namespaces namespace_value) w in (page s, w')

  -- `prometheusMetricsHandler`, up to writing the page.
  unfoldable pub prometheus_metrics_handler :
      (seconds_of : Text → Text) → PromMetricsConfig → c.World → Text × c.World
  prometheus_metrics_handler seconds_of config w =
      let (s, w') = get_current_state [] w in (generate_metrics seconds_of config s, w')
