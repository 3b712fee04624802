-- ===== src/Reaper/Due.antt =====
-- Which pods deleteFilteredCheckerPods deletes.
use kuberhealthy.Prelude.{
  ℤ, pos, negsuc, IsAtMost, ltb_length, ℕ, ◌+◌, ◌≤◌, ◌<◌, ◌≡◌, refl, ap, ◌⊎◌, inl, inr, Bool, true,
  false, ◌&&◌, ◌||◌, Bool-cases, Option, none, some, [], ◌∷◌, Text, Dict, delete, length, select,
  ltb→lt, leb→le, arith,
}
use kuberhealthy.Api.Results.{Result, ok, err, panic, Reply, reply, refuse, Action, and_then}
use kuberhealthy.Api.Types.{Pod}
use kuberhealthy.Reaper.{
  ReaperApi, ReaperConfig, is_succeeded, is_failed, get_pod_completed_time, is_older,
  is_completed_pod_of, get_all_completed_pods_with_check_name, counts_newer, is_outnumbered,
  Reaping, deleted_from, delete_if, reap_outnumbered, reap_by_count, delete_if_old, reap_pod,
  delete_filtered_checker_pods,
}

-- A pod of the same check and namespace, complete for the minimal age, that was created later and
-- has succeeded, or has not.
abbrev pub is_newer : (now : ℕ) (succeeded : Bool) (v : Pod) → Text × Pod → Bool
is_newer now succeeded v e = is_completed_pod_of now v e && counts_newer succeeded v e

abbrev pub IsOutnumbered : ReaperConfig → Dict Pod → Pod → (now : ℕ) → Type 0
IsOutnumbered cfg pods v now =
    ((is_succeeded v.phase ≡ true)
      × (IsAtMost cfg.max_completed_pod_count (length (select (is_newer now true v) pods))))
    ⊎ ((is_failed v.phase ≡ true)
        × (IsAtMost cfg.max_error_pod_count (length (select (is_newer now false v) pods))))

-- The pod has ended, all its containers too, and it is old, or enough newer ones are among the pods.
pub record IsDue (cfg : ReaperConfig) (pods : Dict Pod) (v : Pod) (now : ℕ) : Type 0 where
  pub has_ended : (is_succeeded v.phase || is_failed v.phase) ≡ true
  pub terminated : ℕ
  pub completed : get_pod_completed_time v ≡ some terminated
  pub why : (terminated + cfg.max_check_pod_age < now) ⊎ IsOutnumbered cfg pods v now

-- No test is passed by more entries than before.
abbrev Shrunk : Dict Pod → Dict Pod → Type 0
Shrunk pods m = (q : Text × Pod → Bool) → length (select q m) ≤ length (select q pods)

length-select-delete :
    (n : Text) (q : Text × Pod → Bool) (m : Dict Pod)
    → length (select q (delete n m)) ≤ length (select q m)
unfolding delete
length-select-delete n q [] = omega arith
length-select-delete n q ((k, v) ∷ m) = ground (arith, length-select-delete n q m)

select-select :
    (p q : Text × Pod → Bool) (m : Dict Pod) → select q (select p m) ≡ select (λ e. p e && q e) m
select-select p q [] = refl
select-select p q (e ∷ m) = ground (arith, select-select p q m)

and-true : (a b : Bool) → (a && b) ≡ true → (a ≡ true) × (b ≡ true)
and-true true b h = (refl, h)
and-true false b h = cc

module _ (api : ReaperApi) (cfg : ReaperConfig) (pods : Dict Pod) (P : api.World → Type 0)
    (step : (v : Pod) (u : api.World)
      → IsDue cfg pods v (api.now u)
      → P u
      → P (api.delete_pod v u).1) where
  abbrev Kept : Reaping api cfg → Type 0
  Kept (m, w) = Shrunk pods m × P w

  deleted_from-Kept :
      (n : Text) (m : Dict Pod) (o : Reply (Unit {0}) × api.World)
      → Shrunk pods m
      → P o.1
      → Kept (deleted_from api cfg n m o).1
  deleted_from-Kept n m (reply u, w) small p =
      ((λ q. omega (arith, small q, length-select-delete n q m)), p)
  deleted_from-Kept n m (refuse e, w) small p = (small, p)

  delete_if-Kept :
      (due : Bool) (n : Text) (v : Pod) (m : Dict Pod) (w : api.World)
      → (due ≡ true → IsDue cfg pods v (api.now w))
      → Kept (m, w)
      → Kept (delete_if api cfg due n v (m, w)).1
  unfolding delete_if
  delete_if-Kept true n v m w due (small, p) =
      deleted_from-Kept n m (api.delete_pod v w) small (step v w (due refl) p)
  delete_if-Kept false n v m w due kept = kept

  result-Kept :
      (r : Result (Unit {0})) (second : Action (Reaping api cfg) (Unit {0})) (s : Reaping api cfg)
      → Kept s
      → ((u : Reaping api cfg) → Kept u → Kept (second u).1)
      → Kept (and_then r (λ _. second) s).1
  result-Kept (ok u) second s kept rest = rest s kept
  result-Kept (err e) second s kept rest = kept
  result-Kept panic second s kept rest = kept

  then-Kept :
      (first second : Action (Reaping api cfg) (Unit {0})) (s : Reaping api cfg)
      → Kept (first s).1
      → ((u : Reaping api cfg) → Kept u → Kept (second u).1)
      → Kept (and_then (first s).0 (λ _. second) (first s).1).1
  then-Kept first second s = result-Kept (first s).0 second (first s).1

  module _ (n : Text) (v : Pod) (terminated : ℕ)
      (completed : get_pod_completed_time v ≡ some terminated) where
    old-IsDue :
        (phase : Bool) (now : ℕ)
        → (phase ≡ true → (is_succeeded v.phase || is_failed v.phase) ≡ true)
        → (phase && is_older now cfg.max_check_pod_age terminated) ≡ true
        → IsDue cfg pods v now
    old-IsDue phase now ended h =
        let (in_phase, older) = and-true phase _ h in
        record {
          has_ended = ended in_phase;
          terminated = terminated;
          completed = completed;
          why = inl (ltb→lt (terminated + cfg.max_check_pod_age) now older);
        }

    succeeded_ended :
        is_succeeded v.phase ≡ true → (is_succeeded v.phase || is_failed v.phase) ≡ true
    succeeded_ended h = ground (arith, h)

    failed_ended : is_failed v.phase ≡ true → (is_succeeded v.phase || is_failed v.phase) ≡ true
    failed_ended h = ground (arith, h)

    old-Kept :
        (phase : Bool) (s : Reaping api cfg)
        → (phase ≡ true → (is_succeeded v.phase || is_failed v.phase) ≡ true)
        → Kept s
        → Kept (delete_if_old api cfg phase n v terminated s).1
    unfolding delete_if_old
    old-Kept phase (m, w) ended kept =
        delete_if-Kept _ n v m w (old-IsDue phase (api.now w) ended) kept

    most-newer :
        (succeeded : Bool) (most : ℤ) (now : ℕ) (m : Dict Pod)
        → Shrunk pods m
        → is_outnumbered succeeded most v (get_all_completed_pods_with_check_name now m v) ≡ true
        → IsAtMost most (length (select (is_newer now succeeded v) pods))
    unfolding is_outnumbered get_all_completed_pods_with_check_name
    most-newer succeeded (negsuc k) now m small h = tt
    most-newer succeeded (pos most) now m small h =
        let (newer, all) = and-true _ _ h in
        let enough = leb→le most _ newer in
        omega (
          arith,
          enough,
          ap (length {0}) (select-select (is_completed_pod_of now v) (counts_newer succeeded v) m),
          small (is_newer now succeeded v),
        )

    one_phase : is_succeeded v.phase ≡ true → is_failed v.phase ≡ false
    one_phase h = ground (arith, h)

    count-IsDue :
        (now : ℕ)
        → (is_succeeded v.phase || is_failed v.phase) ≡ true
        → IsOutnumbered cfg pods v now
        → IsDue cfg pods v now
    count-IsDue now ended many = record {
      has_ended = ended;
      terminated = terminated;
      completed = completed;
      why = inr many;
    }

    outnumbered-Kept :
        (m : Dict Pod) (w : api.World)
        → Kept (m, w)
        → Kept
            (reap_outnumbered api cfg n v
              (get_all_completed_pods_with_check_name (api.now w) m v)
              (m, w)).1
    unfolding reap_outnumbered
    outnumbered-Kept m w kept =
        let small = kept.0 in
        let most = cfg.max_completed_pod_count in
        let pods_of_check = get_all_completed_pods_with_check_name (api.now w) m v in
        elim (Bool-cases (is_succeeded v.phase)) [
          | inl done ↦
              rw (done, one_phase done)
                (then-Kept (delete_if api cfg (is_outnumbered true most v pods_of_check) n v)
                  (delete_if api cfg false n v) (m, w)
                  (delete_if-Kept (is_outnumbered true most v pods_of_check) n v m w
                    (λ h.
                      count-IsDue (api.now w) (succeeded_ended done)
                        (inl (done, most-newer true most (api.now w) m small h)))
                    kept)
                  (λ u kept'. delete_if-Kept false n v u.0 u.1 (λ h. cc) kept'))
          | inr other ↦ rw other (
              unfold delete_if in
              delete_if-Kept
                (is_failed v.phase && is_outnumbered false cfg.max_error_pod_count v pods_of_check)
                n v m w
                (λ h.
                  let (failed, many) = and-true (is_failed v.phase) _ h in
                  count-IsDue (api.now w) (failed_ended failed) (
                    inr
                      (failed, most-newer false cfg.max_error_pod_count (api.now w) m small many)))
                kept)
        ]

    count-Kept : (s : Reaping api cfg) → Kept s → Kept (reap_by_count api cfg n v s).1
    unfolding reap_by_count
    count-Kept (m, w) kept =
        elim (Bool-cases (
          ltb_length cfg.max_completed_pod_count
            (length (get_all_completed_pods_with_check_name (api.now w) m v)))) [
              | inl many ↦ rw many (outnumbered-Kept m w kept)
              | inr few ↦ rw few kept
            ]

  reap_pod-Kept :
      (n : Text) (v : Pod) (o : Option ℕ) (s : Reaping api cfg)
      → get_pod_completed_time v ≡ o
      → Kept s
      → Kept (reap_pod api cfg n v o s).1
  unfolding reap_pod
  reap_pod-Kept n v none s e kept = kept
  reap_pod-Kept n v (some t) s e kept =
      then-Kept (delete_if_old api cfg (is_succeeded v.phase) n v t)
        (λ u.
          and_then (delete_if_old api cfg (is_failed v.phase) n v t u).0
            (λ _. reap_by_count api cfg n v) (delete_if_old api cfg (is_failed v.phase) n v t u).1)
        s (old-Kept n v t e (is_succeeded v.phase) s (succeeded_ended n v t e) kept)
        (λ u kept'.
          then-Kept (delete_if_old api cfg (is_failed v.phase) n v t) (reap_by_count api cfg n v) u
            (old-Kept n v t e (is_failed v.phase) u (failed_ended n v t e) kept')
            (count-Kept n v t e))

  all-Kept :
      (visited : Dict Pod) (s : Reaping api cfg)
      → Kept s
      → Kept (delete_filtered_checker_pods api cfg visited s)
  unfolding delete_filtered_checker_pods
  all-Kept [] s kept = kept
  all-Kept ((n, v) ∷ visited) s kept =
      all-Kept visited _ (reap_pod-Kept n v (get_pod_completed_time v) s refl kept)

-- deleteFilteredCheckerPods deletes due pods only, in whichever order the map is visited: a property
-- of the world that the deletion of due pods preserves is preserved by all of it. A pod is due if it
-- has succeeded or failed, all its containers have terminated, and it is older than the maximal age,
-- or among the pods as many newer ones of its check, namespace and outcome as the configuration
-- keeps have been complete for the minimal age.
pub delete_filtered_checker_pods-only_due :
    (api : ReaperApi) (cfg : ReaperConfig) (pods visited : Dict Pod) (P : api.World → Type 0)
    (w : api.World)
    → ((v : Pod) (u : api.World) → IsDue cfg pods v (api.now u) → P u → P (api.delete_pod v u).1)
    → P w
    → P (delete_filtered_checker_pods api cfg visited (pods, w)).1
delete_filtered_checker_pods-only_due api cfg pods visited P w step p =
    (all-Kept api cfg pods P step visited (pods, w) ((λ q. omega arith), p)).1
