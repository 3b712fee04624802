-- ===== src/Reaper/Old.antt =====
-- Which pods deleteFilteredCheckerPods surely deletes.
use kuberhealthy.Prelude.{
  ltb_length, ℕ, ◌+◌, ◌≤◌, ◌<◌, ◌≡◌, refl, inl, inr, Bool, true, false, ◌&&◌, ◌||◌, Bool-cases,
  Option, none, some, [], ◌∷◌, ◌++◌, Text, text_eq_refl, Dict, lookup, lookup-delete, ltb, length,
  arith,
}
use kuberhealthy.Api.Results.{Result, ok, err, panic, reply, Action, and_then}
use kuberhealthy.Api.Types.{Pod}
use kuberhealthy.Reaper.{
  ReaperApi, ReaperConfig, is_succeeded, is_failed, get_pod_completed_time,
  get_all_completed_pods_with_check_name, is_outnumbered, Reaping, delete_if, reap_outnumbered,
  reap_by_count, delete_if_old, reap_pod, delete_filtered_checker_pods,
}

-- Every deletion succeeds, and the clock never goes back.
pub record DeletesWork (api : ReaperApi) : Type 0 where
  pub replies : (p : Pod) (w : api.World) → (api.delete_pod p w).0 ≡ reply tt
  pub clock : (p : Pod) (w : api.World) → api.now w ≤ api.now (api.delete_pod p w).1

-- The pod is gone from the server once a call to delete it is answered, and no deletion brings it
-- back.
pub record Removes (api : ReaperApi) (v : Pod) (IsGone : api.World → Type 0) : Type 0 where
  pub deleted : (w : api.World) → (api.delete_pod v w).0 ≡ reply tt → IsGone (api.delete_pod v w).1
  pub stays : (p : Pod) (w : api.World) → IsGone w → IsGone (api.delete_pod p w).1

-- What each deletion of the loop preserves, the loop preserves.
module _ (api : ReaperApi) (cfg : ReaperConfig) (Q : Reaping api cfg → Type 0)
    (step : (due : Bool) (n : Text) (v : Pod) (s : Reaping api cfg)
      → Q s
      → Q (delete_if api cfg due n v s).1) where
  then_keeps :
      (r : Result (Unit {0})) (second : Action (Reaping api cfg) (Unit {0})) (s : Reaping api cfg)
      → Q s
      → ((u : Reaping api cfg) → Q u → Q (second u).1)
      → Q (and_then r (λ _. second) s).1
  then_keeps (ok u) second s q rest = rest s q
  then_keeps (err e) second s q rest = q
  then_keeps panic second s q rest = q

  old_keeps :
      (phase : Bool) (n : Text) (v : Pod) (t : ℕ) (s : Reaping api cfg)
      → Q s
      → Q (delete_if_old api cfg phase n v t s).1
  unfolding delete_if_old
  old_keeps phase n v t (m, w) q = step _ n v (m, w) q

  outnumbered_keeps :
      (n : Text) (v : Pod) (pods : Dict Pod) (s : Reaping api cfg)
      → Q s
      → Q (reap_outnumbered api cfg n v pods s).1
  unfolding reap_outnumbered
  outnumbered_keeps n v pods s q =
      let due = is_succeeded v.phase && is_outnumbered true cfg.max_completed_pod_count v pods in
      then_keeps (delete_if api cfg due n v s).0 _ (delete_if api cfg due n v s).1
        (step due n v s q)
        (λ u. step (is_failed v.phase && is_outnumbered false cfg.max_error_pod_count v pods) n v u)

  count_keeps : (n : Text) (v : Pod) (s : Reaping api cfg) → Q s → Q (reap_by_count api cfg n v s).1
  unfolding reap_by_count
  count_keeps n v (m, w) q =
      let pods = get_all_completed_pods_with_check_name (api.now w) m v in
      elim (Bool-cases (ltb_length cfg.max_completed_pod_count (length pods))) [
        | inl many ↦ rw many (outnumbered_keeps n v pods (m, w) q)
        | inr few ↦ rw few q
      ]

  -- The second and the third block of a round.
  abbrev later_blocks : Text → Pod → ℕ → Action (Reaping api cfg) (Unit {0})
  later_blocks n v t u =
      and_then (delete_if_old api cfg (is_failed v.phase) n v t u).0
        (λ _. reap_by_count api cfg n v) (delete_if_old api cfg (is_failed v.phase) n v t u).1

  later_keep : (n : Text) (v : Pod) (t : ℕ) (s : Reaping api cfg) → Q s → Q (later_blocks n v t s).1
  later_keep n v t s q =
      then_keeps (delete_if_old api cfg (is_failed v.phase) n v t s).0 (reap_by_count api cfg n v) _
        (old_keeps (is_failed v.phase) n v t s q) (count_keeps n v)

  pod_keeps :
      (n : Text) (v : Pod) (o : Option ℕ) (s : Reaping api cfg)
      → Q s
      → Q (reap_pod api cfg n v o s).1
  unfolding reap_pod
  pod_keeps n v none s q = q
  pod_keeps n v (some t) s q =
      then_keeps (delete_if_old api cfg (is_succeeded v.phase) n v t s).0 (later_blocks n v t) _
        (old_keeps (is_succeeded v.phase) n v t s q) (later_keep n v t)

  all_keeps :
      (visited : Dict Pod) (s : Reaping api cfg)
      → Q s
      → Q (delete_filtered_checker_pods api cfg visited s)
  unfolding delete_filtered_checker_pods
  all_keeps [] s q = q
  all_keeps ((n, v) ∷ visited) s q =
      all_keeps visited _ (pod_keeps n v (get_pod_completed_time v) s q)

module _ (api : ReaperApi) (cfg : ReaperConfig) (works : DeletesWork api) where
  now_grows :
      (start : ℕ) (due : Bool) (n : Text) (v : Pod) (s : Reaping api cfg)
      → start ≤ api.now s.1
      → start ≤ api.now (delete_if api cfg due n v s).1.1
  unfolding delete_if
  now_grows start true n v (m, w) h = rw (works.replies v w) (omega (arith, h, works.clock v w))
  now_grows start false n v (m, w) h = h

  skips : (n : Text) (v : Pod) (s : Reaping api cfg) → delete_if api cfg false n v s ≡ (ok tt, s)
  unfolding delete_if
  skips n v (m, w) = refl

  visit-append :
      (xs ys : Dict Pod) (s : Reaping api cfg)
      → delete_filtered_checker_pods api cfg (xs ++ ys) s
        ≡ delete_filtered_checker_pods api cfg ys (delete_filtered_checker_pods api cfg xs s)
  unfolding delete_filtered_checker_pods
  visit-append [] ys s = refl
  visit-append ((n, v) ∷ xs) ys s = visit-append xs ys _

  module _ (v : Pod) (IsGone : api.World → Type 0) (removes : Removes api v IsGone) where
    -- The name is not in the map, and the pod is gone from the server.
    abbrev pub Gone : Text → Reaping api cfg → Type 0
    Gone n s = (lookup n s.0 ≡ none) × IsGone s.1

    Gone-stays :
        (j : Text) (due : Bool) (n : Text) (p : Pod) (s : Reaping api cfg)
        → Gone j s
        → Gone j (delete_if api cfg due n p s).1
    unfolding delete_if
    Gone-stays j true n p (m, w) (out, gone) =
        rw (works.replies p w) (rw lookup-delete (ground (arith, out)), removes.stays p w gone)
    Gone-stays j false n p (m, w) gone = gone

    deletes :
        (n : Text) (s : Reaping api cfg)
        → Gone n (delete_if api cfg true n v s).1 × ((delete_if api cfg true n v s).0 ≡ ok tt)
    unfolding delete_if
    deletes n (m, w) = rw (works.replies v w) (
      (rw (lookup-delete n n m, text_eq_refl n) refl, removes.deleted w (works.replies v w)),
      refl,
    )

    -- A round deletes the pod that it is about, if that has ended and is old.
    round_deletes :
        (n : Text) (t : ℕ) (s : Reaping api cfg)
        → (is_succeeded v.phase || is_failed v.phase) ≡ true
        → t + cfg.max_check_pod_age < api.now s.1
        → Gone n (reap_pod api cfg n v (some t) s).1
    unfolding reap_pod delete_if_old
    round_deletes n t (m, w) ended old =
        let gone = deletes n (m, w) in
        let is_old : ltb (t + cfg.max_check_pod_age) (api.now w) ≡ true = ground (arith, old) in
        elim (Bool-cases (is_succeeded v.phase)) [
          | inl done ↦
              rw (done, is_old, gone.1)
                (later_keep api cfg (Gone n) (Gone-stays n) n v t
                  (delete_if api cfg true n v (m, w)).1 gone.0)
          | inr other ↦
              let failed : is_failed v.phase ≡ true = ground (arith, ended, other) in
              rw (other, skips n v (m, w), failed, is_old, gone.1)
                (count_keeps api cfg (Gone n) (Gone-stays n) n v
                  (delete_if api cfg true n v (m, w)).1 gone.0)
        ]

    pub entry-Gone :
        (n : Text) (after : Dict Pod) (s : Reaping api cfg) (t : ℕ)
        → get_pod_completed_time v ≡ some t
        → (is_succeeded v.phase || is_failed v.phase) ≡ true
        → t + cfg.max_check_pod_age < api.now s.1
        → Gone n (delete_filtered_checker_pods api cfg ((n, v) ∷ after) s)
    unfolding delete_filtered_checker_pods
    entry-Gone n after s t completed ended old =
        all_keeps api cfg (Gone n) (Gone-stays n) after _
          (rw completed (round_deletes n t s ended old))

-- Where every deletion is answered and the clock never goes back, a pod that is visited anywhere in the
-- loop of deleteFilteredCheckerPods, has succeeded or failed, has completed and is older than the
-- maximal age at the start, is at the end no longer in the map of pods, and gone from the server, in
-- any sense in which an answered call to delete this pod makes it gone and no deletion brings it back.
pub delete_filtered_checker_pods-old_gone :
    (api : ReaperApi) (cfg : ReaperConfig) (before after : Dict Pod) (n : Text) (v : Pod) (t : ℕ)
    (pods : Dict Pod) (w : api.World) (IsGone : api.World → Type 0)
    → DeletesWork api
    → Removes api v IsGone
    → get_pod_completed_time v ≡ some t
    → (is_succeeded v.phase || is_failed v.phase) ≡ true
    → t + cfg.max_check_pod_age < api.now w
    → let s = delete_filtered_checker_pods api cfg (before ++ (n, v) ∷ after) (pods, w) in
      (lookup n s.0 ≡ none) × IsGone s.1
delete_filtered_checker_pods-old_gone api cfg before after n v t pods w IsGone works removes
      completed ended old =
    let s = delete_filtered_checker_pods api cfg before (pods, w) in
    let grown : api.now w ≤ api.now s.1 =
      all_keeps api cfg (λ (u : Reaping api cfg). api.now w ≤ api.now u.1)
        (now_grows api cfg works (api.now w)) before (pods, w) (omega arith) in
    rw (visit-append api cfg works before ((n, v) ∷ after) (pods, w)) (
      entry-Gone api cfg works v IsGone removes n after s t completed ended
        (omega (arith, old, grown)))
