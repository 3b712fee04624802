-- ===== src/Reaper/Jobs.antt =====
-- Which khjobs khJobDelete deletes.
use kuberhealthy.Prelude.{
  ℕ, ◌+◌, ◌<◌, ◌≡◌, inl, inr, true, Bool-cases, List, [], ◌∷◌, codes, eq_of_text_eq, ltb, ltb→lt,
}
use kuberhealthy.Api.Results.{Reply-cases}
use kuberhealthy.Reaper.{KhJob, ReaperApi, ReaperConfig, job_conditions, delete_jobs, kh_job_delete}

-- The khjob has completed and is older than the maximal age.
pub record IsDueJob (cfg : ReaperConfig) (j : KhJob) (now : ℕ) : Type 0 where
  pub completed : j.phase ≡ codes "Completed"
  pub old : j.creation_timestamp + cfg.max_kh_job_age < now

job_conditions-IsDueJob :
    (cfg : ReaperConfig) (j : KhJob) (now : ℕ)
    → job_conditions now j cfg.max_kh_job_age (codes "Completed") ≡ true
    → IsDueJob cfg j now
unfolding job_conditions
job_conditions-IsDueJob cfg j now h =
    elim (Bool-cases (ltb (j.creation_timestamp + cfg.max_kh_job_age) now)) [
      | inl old ↦ record {
        completed = eq_of_text_eq j.phase (codes "Completed") (let h' = rw old at h in h');
        old = ltb→lt (j.creation_timestamp + cfg.max_kh_job_age) now old;
      }
      | inr young ↦ let h' = rw young at h in cc
    ]

module _ (api : ReaperApi) (cfg : ReaperConfig) (P : api.World → Type 0)
    (step : (j : KhJob) (u : api.World)
      → IsDueJob cfg j (api.now u)
      → P u
      → P (api.delete_job j u).1) where
  delete_jobs-keeps : (jobs : List KhJob) (w : api.World) → P w → P (delete_jobs api cfg jobs w).1
  unfolding delete_jobs
  delete_jobs-keeps [] w p = p
  delete_jobs-keeps (j ∷ jobs) w p =
      elim (Bool-cases (job_conditions (api.now w) j cfg.max_kh_job_age (codes "Completed"))) [
        | inl due ↦
            let p' = step j w (job_conditions-IsDueJob cfg j (api.now w) due) p in
            elim (Reply-cases (api.delete_job j w).0) [
              | inl (u, deleted) ↦
                  rw (due, deleted) (delete_jobs-keeps jobs (api.delete_job j w).1 p')
              | inr (e, refused) ↦ rw (due, refused) p'
            ]
        | inr other ↦ rw other (delete_jobs-keeps jobs w p)
      ]

-- khJobDelete deletes only khjobs that have completed and are older than the maximal age: a property of
-- the world that holds after the listing and that deleting such a khjob preserves holds at the end.
pub kh_job_delete-only_due :
    (api : ReaperApi) (cfg : ReaperConfig) (P : api.World → Type 0) (w : api.World)
    → ((j : KhJob) (u : api.World) → IsDueJob cfg j (api.now u) → P u → P (api.delete_job j u).1)
    → P (api.list_jobs w).1
    → P (kh_job_delete api cfg w).1
unfolding kh_job_delete
kh_job_delete-only_due api cfg P w step p = elim (Reply-cases (api.list_jobs w).0) [
  | inl (jobs, listed) ↦ rw listed (delete_jobs-keeps api cfg P step jobs (api.list_jobs w).1 p)
  | inr (e, failed) ↦ rw failed p
]
