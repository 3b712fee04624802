-- ===== src/Metrics/Label.antt =====
-- The value of the error label of a metric.
use kuberhealthy.Prelude.{
  ◌≡◌, refl, ◌≤◌, ◌<◌, ℕ, zero, suc, inl, inr, false, Bool-cases, List, [], ◌∷◌, ◌++◌, length, Text,
  codes, has, replace, ltb, ◌&&◌, arith,
}
use kuberhealthy.Metrics.{
  PromMetricsConfig, take, trim_bar, with_bars, errors_str, quoted, check_labels, prom_metric_name,
}

has-replace : (s : Text) → has b'"' (replace b'"' b'\'' s) ≡ false
unfolding replace
has-replace [] = refl
has-replace (c ∷ s) = ground (arith, has-replace s)

has-take : (q n : ℕ) (s : Text) → has q s ≡ false → has q (take n s) ≡ false
has-take q zero s h = refl
has-take q (suc n) [] h = refl
has-take q (suc n) (c ∷ s) h = ground (arith, h, has-take q n s)

length-take : (n : ℕ) (s : Text) → length (take n s) ≤ n
length-take zero s = omega arith
length-take (suc n) [] = omega arith
length-take (suc n) (c ∷ s) = omega (arith, length-take n s)

has-errors_str :
    (config : PromMetricsConfig) (errors : List Text) → has b'"' (errors_str config errors) ≡ false
unfolding errors_str
has-errors_str config errors =
    let s = replace b'"' b'\'' (trim_bar (with_bars errors)) in
    elim (Bool-cases
      (ltb 0 config.error_label_max_length && ltb config.error_label_max_length (length s))) [
        | inl long ↦ rw long (has-take b'"' config.error_label_max_length s (has-replace _))
        | inr short ↦ rw short (has-replace _)
      ]

-- A bound that is 0 is no bound.
length-errors_str :
    (config : PromMetricsConfig) (errors : List Text)
    → 0 < config.error_label_max_length
    → length (errors_str config errors) ≤ config.error_label_max_length
unfolding errors_str
length-errors_str config errors bounded =
    let s = replace b'"' b'\'' (trim_bar (with_bars errors)) in
    let n = config.error_label_max_length in
    elim (Bool-cases (ltb 0 n && ltb n (length s))) [
      | inl long ↦ rw long (length-take n s)
      | inr short ↦ rw short (ground (arith, bounded, short))
    ]

-- Unless the error label is suppressed, the metric name of a check or job is its labels followed by an
-- error label whose value has no double quote, so that it cannot end early, and at most the
-- configured number of bytes if that number is not 0.
pub prom_metric_name-label :
    (config : PromMetricsConfig) (check_or_job check_name namespace status : Text)
    (errors : List Text)
    → config.suppress_error_label ≡ false
    → (value : Text) × (prom_metric_name config check_or_job check_name namespace status errors
        ≡ (codes "kuberhealthy_"
            ++ check_or_job
            ++ check_labels check_name namespace
            ++ codes ",status="
            ++ quoted status)
          ++ (codes ",error=" ++ quoted value ++ codes "}"))
      × (has b'"' value ≡ false)
      × (0 < config.error_label_max_length → length value ≤ config.error_label_max_length)
unfolding prom_metric_name
prom_metric_name-label config check_or_job check_name namespace status errors shown = (
  errors_str config errors,
  rw shown refl,
  has-errors_str config errors,
  length-errors_str config errors,
)
