-- ===== src/Metrics.antt =====
-- The Prometheus page (pkg/metrics/exporter.go). The texts of this file are lists of bytes. What
-- `time.ParseDuration` and the format of its seconds make of a text is an argument.
pub mod Label
pub mod Lines
use kuberhealthy.Prelude.{
  ℕ, zero, suc, Bool, true, false, ◌&&◌, List, [], ◌∷◌, ◌++◌, length, Text, codes, Dict, insert,
  is_empty, replace, ltb, ◌==◌, if◌then◌else◌,
}
use kuberhealthy.Api.Types.{WorkloadDetails}
use kuberhealthy.Health.{State}

pub record PromMetricsConfig : Type 0 where
  pub suppress_error_label : Bool
  pub error_label_max_length : ℕ

-- `s[0:n]`
abbrev pub take : ℕ → Text → Text
take zero s = []
take (suc n) [] = []
take (suc n) (c ∷ s) = c ∷ take n s

-- `strings.TrimSuffix(s, "|")`
abbrev pub trim_bar : Text → Text
trim_bar [] = []
trim_bar (c ∷ s) = let rest = trim_bar s in if is_empty s && c == b'|' then [] else c ∷ rest

-- `errorsStr += fmt.Sprintf("%s|", error)` for each error
abbrev pub with_bars : List Text → Text
with_bars [] = []
with_bars (e ∷ errors) = e ++ b'|' ∷ with_bars errors

-- The value of the error label.
unfoldable pub errors_str : PromMetricsConfig → List Text → Text
errors_str config errors =
    let s = replace b'"' b'\'' (trim_bar (with_bars errors)) in
    if ltb 0 config.error_label_max_length && ltb config.error_label_max_length (length s)
    then take config.error_label_max_length s
    else s

abbrev pub quoted : Text → Text
quoted s = b'"' ∷ s ++ b'"' ∷ []

-- The labels for the check and its namespace.
abbrev pub check_labels : (check_name namespace : Text) → Text
check_labels check_name namespace =
    codes "{check=" ++ quoted check_name ++ codes ",namespace=" ++ quoted namespace

-- `promMetricName`
unfoldable pub prom_metric_name :
    PromMetricsConfig → (check_or_job check_name namespace status : Text) → List Text → Text
prom_metric_name config check_or_job check_name namespace status errors =
    let metric_name =
      codes "kuberhealthy_"
      ++ check_or_job
      ++ check_labels check_name namespace
      ++ codes ",status="
      ++ quoted status in
    metric_name
    ++ (if config.suppress_error_label
        then codes "}"
        else codes ",error=" ++ quoted (errors_str config errors) ++ codes "}")

abbrev pub status_text : Bool → Text
status_text true = codes "1"
status_text false = codes "0"

abbrev pub metric_line : (name value : Text) → Text
metric_line name value = name ++ b' ' ∷ value ++ b'\n' ∷ []

-- The two comment lines before a metric.
abbrev pub help : (name shows : Text) → Text
help name shows =
    codes "# HELP " ++ metric_line name shows ++ codes "# TYPE " ++ metric_line name (codes "gauge")

-- The lines of a map, in the order of its range.
unfoldable pub lines : Dict Text → Text
lines [] = []
lines ((m, v) ∷ metrics) = metric_line m v ++ lines metrics

-- `ErrorStateMetrics`
unfoldable pub error_state_metrics : State → Text
error_state_metrics state =
    help (codes "kuberhealthy_running") (codes "Shows if kuberhealthy is running error free")
    ++ codes "kuberhealthy_running{currentMaster="
    ++ quoted state.current_master
    ++ codes "} 0"

abbrev pub duration_name : (check_or_job : Text) → Text × WorkloadDetails → Text
duration_name check_or_job (c, d) =
    codes "kuberhealthy_"
    ++ check_or_job
    ++ codes "_duration_seconds"
    ++ check_labels c d.namespace
    ++ codes "}"

module _ (config : PromMetricsConfig) where
  abbrev pub state_name : (check_or_job : Text) → Text × WorkloadDetails → Text
  state_name check_or_job (c, d) =
      prom_metric_name config check_or_job c d.namespace (status_text d.ok) d.errors

  -- The loops over the details: the map of the states, and that of the durations.
  unfoldable pub metric_state : (check_or_job : Text) → Dict WorkloadDetails → Dict Text → Dict Text
  metric_state check_or_job [] m = m
  metric_state check_or_job ((c, d) ∷ details) m =
      metric_state check_or_job details
        (insert (state_name check_or_job (c, d)) (status_text d.ok) m)

module _ (seconds_of : Text → Text) where
  -- A duration that was never set is the one of `time.Duration(0).String()`.
  abbrev pub duration_value : WorkloadDetails → Text
  duration_value d = seconds_of (if is_empty d.run_duration then codes "0s" else d.run_duration)

  unfoldable pub metric_duration :
      (check_or_job : Text) → Dict WorkloadDetails → Dict Text → Dict Text
  metric_duration check_or_job [] m = m
  metric_duration check_or_job ((c, d) ∷ details) m =
      metric_duration check_or_job details
        (insert (duration_name check_or_job (c, d)) (duration_value d) m)

module _ (seconds_of : Text → Text) (config : PromMetricsConfig) where
  abbrev pub workload_metrics : (check_or_job : Text) → Dict WorkloadDetails → Text
  workload_metrics check_or_job details =
      let name = codes "kuberhealthy_" ++ check_or_job in
      help name (codes "Shows the status of a Kuberhealthy " ++ check_or_job)
      ++ lines (metric_state config check_or_job details [])
      ++ help (name ++ codes "_duration_seconds") (
          codes "Shows the "
          ++ check_or_job
          ++ codes " run duration of a Kuberhealthy "
          ++ check_or_job)
      ++ lines (metric_duration seconds_of check_or_job details [])

  -- `GenerateMetrics`
  unfoldable pub generate_metrics : State → Text
  generate_metrics state =
      help (codes "kuberhealthy_running") (codes "Shows if kuberhealthy is running error free")
      ++ codes "kuberhealthy_running{current_master="
      ++ quoted state.current_master
      ++ codes "} 1\n"
      ++ help (codes "kuberhealthy_cluster_state") (codes "Shows the status of the cluster")
      ++ metric_line (codes "kuberhealthy_cluster_state") (status_text state.ok)
      ++ workload_metrics (codes "check") state.check_details
      ++ workload_metrics (codes "job") state.job_details
