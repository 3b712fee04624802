-- ===== src/Examples/Reaping.antt =====
-- The reaper on samples.
use kuberhealthy.Prelude.{
  pos, ℕ, suc, ◌≡◌, ◌<◌, Dict, refl, [], ◌∷◌, Text, codes, text_eq, text_eq_refl, lookup,
  if◌then◌else◌, arith, none, some,
}
use kuberhealthy.Api.Results.{reply}
use kuberhealthy.Api.Types.{Pod, pod_failed}
use kuberhealthy.Reaper.{
  KhJob, ReaperApi, ReaperConfig, latest_finish, get_pod_completed_time,
  delete_filtered_checker_pods,
}
use kuberhealthy.Reaper.Old.{DeletesWork, Removes, delete_filtered_checker_pods-old_gone}
use kuberhealthy.Reaper.Jobs.{IsDueJob}
use kuberhealthy.Examples.{kh_ns, sample_pod}

abbrev failed_pod : Pod
failed_pod = record sample_pod {
  phase = pod_failed;
  container_statuses = record { terminated = some 30; waiting = none } ∷ [];
}

abbrev job : Text → Text → KhJob
job name phase = record { name = name; namespace = kh_ns; creation_timestamp = 5; phase = phase }

-- A cluster that counts the deleted khjobs that have not completed.
abbrev unfinished : ReaperApi
unfinished = record {
  World = ℕ;
  now = λ n. 100;
  list_checker_pods = λ n. (reply [], n);
  delete_pod = λ p n. (reply tt, n);
  list_jobs = λ n.
      (reply (job (codes "a") (codes "Running") ∷ job (codes "b") (codes "Completed") ∷ []), n);
  delete_job = λ j n. (reply tt, if text_eq j.phase (codes "Completed") then n else suc n);
}

abbrev config : ReaperConfig
config = record {
  max_check_pod_age = 50;
  max_kh_job_age = 50;
  max_completed_pod_count = pos 4;
  max_error_pod_count = pos 4;
}

unfinished-DeletesWork : DeletesWork unfinished
unfinished-DeletesWork = record { replies = λ p w. refl; clock = λ p w. omega arith }

-- A cluster that counts the deletions of pods.
abbrev counting : ReaperApi
counting = record unfinished { delete_pod = λ p n. (reply tt, suc n) }

counting-DeletesWork : DeletesWork counting
counting-DeletesWork = record { replies = λ p w. refl; clock = λ p w. omega arith }

counting-Removes : Removes counting failed_pod (λ n. 0 < n)
counting-Removes = record { deleted = λ w h. omega arith; stays = λ p w h. omega arith }

abbrev old_pods : Dict Pod
old_pods = (codes "a", sample_pod) ∷ (codes "b", failed_pod) ∷ []

delete_filtered_checker_pods-old_gone_example :
    let s = delete_filtered_checker_pods counting config old_pods (old_pods, 0) in
    (lookup (codes "b") s.0 ≡ none) × (0 < s.1)
unfolding latest_finish get_pod_completed_time
delete_filtered_checker_pods-old_gone_example =
    delete_filtered_checker_pods-old_gone counting config ((codes "a", sample_pod) ∷ []) []
      (codes "b") failed_pod 30 old_pods 0 (λ n. 0 < n) counting-DeletesWork counting-Removes refl
      refl (omega arith)

no_unfinished :
    (j : KhJob) (u : ℕ) → IsDueJob config j 100 → u ≡ 0 → (unfinished.delete_job j u).1 ≡ 0
no_unfinished j u due h = rw (due.completed, text_eq_refl (codes "Completed")) h
