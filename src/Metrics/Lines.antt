-- ===== src/Metrics/Lines.antt =====
-- The map of the metric lines.
use kuberhealthy.Prelude.{
  ◌≡◌, refl, inl, inr, Bool-cases, some, [], ◌∷◌, ◌++◌, Text, Dict, text_eq, lookup, insert,
  lookup-insert, IsMap, insert-IsMap, text_eq_refl,
}
use kuberhealthy.Api.Types.{WorkloadDetails}
use kuberhealthy.Metrics.{PromMetricsConfig, state_name, status_text, metric_state}

module _ (config : PromMetricsConfig) (check_or_job : Text) where
  abbrev HasLine : Dict Text → Text → Type 0
  HasLine m k = (v : Text) × (lookup k m ≡ some v)

  insert-HasLine : (m : Dict Text) (k j v : Text) → HasLine m k → HasLine (insert j v m) k
  insert-HasLine m k j v (u, h) = elim (Bool-cases (text_eq j k)) [
    | inl same ↦ (v, rw lookup-insert (rw same refl))
    | inr other ↦ (u, rw lookup-insert (rw other h))
  ]

  keeps :
      (details : Dict WorkloadDetails) (m : Dict Text) (k : Text)
      → HasLine m k
      → HasLine (metric_state config check_or_job details m) k
  unfolding metric_state
  keeps [] m k h = h
  keeps ((c, d) ∷ details) m k h =
      keeps details _ k
        (insert-HasLine m k (state_name config check_or_job (c, d)) (status_text d.ok) h)

  stays-IsMap :
      (details : Dict WorkloadDetails) (m : Dict Text)
      → IsMap m
      → IsMap (metric_state config check_or_job details m)
  unfolding metric_state
  stays-IsMap [] m h = h
  stays-IsMap ((c, d) ∷ details) m h =
      stays-IsMap details _
        (insert-IsMap (state_name config check_or_job (c, d)) (status_text d.ok) m h)

  added :
      (before after : Dict WorkloadDetails) (c : Text) (d : WorkloadDetails) (m : Dict Text)
      → HasLine
          (metric_state config check_or_job (before ++ (c, d) ∷ after) m)
          (state_name config check_or_job (c, d))
  unfolding metric_state
  added [] after c d m =
      let k = state_name config check_or_job (c, d) in
      keeps after _ k (status_text d.ok, rw (lookup-insert, text_eq_refl k) refl)
  added ((b, e) ∷ before) after c d m = added before after c d _

-- The map of the metric lines has a line for every check or job of the summary, whatever their
-- order, and no metric name twice.
pub metric_state_complete :
    (config : PromMetricsConfig) (check_or_job : Text) (before after : Dict WorkloadDetails)
    (c : Text) (d : WorkloadDetails)
    → let m = metric_state config check_or_job (before ++ (c, d) ∷ after) [] in
      ((v : Text) × (lookup (state_name config check_or_job (c, d)) m ≡ some v)) × IsMap m
metric_state_complete config check_or_job before after c d = (
  added config check_or_job before after c d [],
  stays-IsMap config check_or_job (before ++ (c, d) ∷ after) [] tt,
)
