-- ===== src/Jobs/Once.antt =====
-- A khjob that has a phase is not triggered again.
use kuberhealthy.Prelude.{
  ◌≡◌, ◌≢◌, refl, ap, ◌∙◌, inl, inr, Bool, true, false, not, ◌&&◌, Bool-cases, List, [], ◌∷◌, any,
  Text, text_eq, eq_of_text_eq, is_empty, arith,
}
use kuberhealthy.Api.Results.{ok, answer-ok, Reply-cases, reply}
use kuberhealthy.Api.Cluster.{Cluster}
use kuberhealthy.Jobs.{
  KuberhealthyJob, JobApi, JobEvent, job_added, job_error, other_job_event, set_job_phase,
  verify_new_kh_job, is_new, triggered, prepend, monitor_kh_job, monitor_kh_jobs,
}

-- The phase of the khjob of a name and namespace, as the server keeps it: a Get answers with it and
-- changes none, and an Update that is answered replaces it by the one that was sent.
pub record KeepsPhase (c : Cluster) (api : JobApi c) (ns name : Text) (phase_in : c.World → Text)
    : Type 0 where
  pub read :
      (w : c.World) (kj : KuberhealthyJob)
      → (api.get_khjob ns name w).0 ≡ reply kj
      → kj.phase ≡ phase_in w
  pub got :
      (other_ns other : Text) (w : c.World)
      → phase_in (api.get_khjob other_ns other w).1 ≡ phase_in w
  pub updated :
      (job : KuberhealthyJob) (w : c.World)
      → job.name ≡ name
      → (api.update_khjob ns job w).0 ≡ reply tt
      → phase_in (api.update_khjob ns job w).1 ≡ job.phase

true≢false : true ≢ false
true≢false h = cc

module _ (c : Cluster) (api : JobApi c) (ns name : Text) where
  abbrev pub is_it : KuberhealthyJob → Bool
  is_it job = text_eq job.namespace ns && text_eq job.name name

  module _ (phase_in : c.World → Text) (keeps : KeepsPhase c api ns name phase_in) where
    set_phase-phase_in :
        (phase : Text) (w : c.World)
        → (set_job_phase c api name ns phase w).0 ≡ ok tt
        → phase_in (set_job_phase c api name ns phase w).1 ≡ phase
    unfolding set_job_phase
    set_phase-phase_in phase w = elim (Reply-cases (api.get_khjob ns name w).0) [
      | inr (e, failed) ↦ rw failed (λ k. cc)
      | inl (kj, found) ↦ rw found (λ k.
          keeps.updated (record kj { name = name; namespace = ns; phase = phase })
            (api.get_khjob ns name w).1 refl (answer-ok _ tt k))
    ]

    it-not_new :
        (job : KuberhealthyJob) (w : c.World)
        → is_empty (phase_in w) ≡ false
        → is_it job ≡ true
        → is_new c api (api.get_khjob job.namespace job.name w).0 ≡ false
    it-not_new job w has_phase it =
        let same_ns = eq_of_text_eq job.namespace ns (ground (arith, it)) in
        let same_name = eq_of_text_eq job.name name (ground (arith, it)) in
        rw (same_ns, same_name)
          (elim (Reply-cases (api.get_khjob ns name w).0) [
            | inr (e, failed) ↦ rw failed refl
            | inl (kj, found) ↦ rw (found, keeps.read w kj found) has_phase
          ])

    -- The khjob is not among those that are started.
    abbrev pub is_left : List KuberhealthyJob → Bool
    is_left started = not (any is_it started)

    triggered-left :
        (is_master fresh : Bool) (job : KuberhealthyJob) (started : List KuberhealthyJob)
        (w : c.World)
        → (is_it job ≡ true → fresh ≡ false)
        → is_left started ≡ true
        → is_left (prepend c api (triggered c api is_master job (fresh, w)).0 started) ≡ true
    triggered-left true true job started w h rest = elim (Bool-cases (is_it job)) [
      | inl it ↦ absurd (true≢false (h it))
      | inr other ↦ rw other rest
    ]
    triggered-left false true job started w h rest = rest
    triggered-left true false job started w h rest = rest
    triggered-left false false job started w h rest = rest

    -- An event starts nothing for a khjob that has a phase, and keeps the phase.
    event-keeps :
        (is_master : Bool) (e : JobEvent) (started : List KuberhealthyJob) (w : c.World)
        → is_empty (phase_in w) ≡ false
        → is_left started ≡ true
        → (phase_in (monitor_kh_job c api is_master e w).1 ≡ phase_in w)
          × (is_left (prepend c api (monitor_kh_job c api is_master e w).0 started) ≡ true)
    unfolding monitor_kh_job verify_new_kh_job
    event-keeps is_master (job_added job) started w has_phase rest = (
      keeps.got job.namespace job.name w,
      triggered-left is_master _ job started (api.get_khjob job.namespace job.name w).1
          (it-not_new job w has_phase) rest,
    )
    event-keeps is_master job_error started w has_phase rest = (refl, rest)
    event-keeps is_master other_job_event started w has_phase rest = (refl, rest)

    pub events-keep :
        (events : List (Bool × JobEvent)) (w : c.World)
        → is_empty (phase_in w) ≡ false
        → (phase_in (monitor_kh_jobs c api events w).1 ≡ phase_in w)
          × (is_left (monitor_kh_jobs c api events w).0 ≡ true)
    unfolding monitor_kh_jobs
    events-keep [] w has_phase = (refl, refl)
    events-keep ((is_master, e) ∷ events) w has_phase =
        let u = (monitor_kh_job c api is_master e w).1 in
        let (kept, _) = event-keeps is_master e [] w has_phase refl in
        let (same, left) = events-keep events u (ap (is_empty {0}) kept ∙ has_phase) in
        (
          same ∙ kept,
          (event-keeps is_master e (monitor_kh_jobs c api events u).0 w has_phase left).1,
        )

-- On a server that keeps the phase of a khjob until it is updated, once setJobPhase has set a phase that
-- is not empty and returned without an error, no events of the watches, in any number and with any
-- changes of the mastership, make the monitor start that khjob, and the phase stays. Nothing is said of
-- a phase that could not be set, or of events that are seen before it is set.
pub set_job_phase-once :
    (c : Cluster) (api : JobApi c) (name ns phase : Text) (phase_in : c.World → Text)
    (events : List (Bool × JobEvent)) (w : c.World)
    → KeepsPhase c api ns name phase_in
    → is_empty phase ≡ false
    → (set_job_phase c api name ns phase w).0 ≡ ok tt
    → let o = monitor_kh_jobs c api events (set_job_phase c api name ns phase w).1 in
      (any (λ (job : KuberhealthyJob). text_eq job.namespace ns && text_eq job.name name) o.0
        ≡ false)
      × (phase_in o.1 ≡ phase)
set_job_phase-once c api name ns phase phase_in events w keeps given set =
    let now = set_phase-phase_in c api ns name phase_in keeps phase w set in
    let (same, left) =
      events-keep c api ns name phase_in keeps events (set_job_phase c api name ns phase w).1
        (ap (is_empty {0}) now ∙ given) in
    (ground (arith, left), same ∙ now)
