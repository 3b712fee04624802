-- ===== src/Reaper.antt =====
-- The reaper of checker pods and khjobs (cmd/kuberhealthy/reaper.go). Logging is left out, and the
-- ticker: one run is a function. Times are nanoseconds since the zero time of Go.
pub mod Completed
pub mod Due
pub mod Old
pub mod Jobs
use kuberhealthy.Prelude.{
  ℤ, pos, negsuc, leb_length, ltb_length, ℕ, zero, suc, ◌+◌, ◌*◌, Bool, true, false, not, ◌&&◌,
  ◌||◌, Option, none, some, List, [], ◌∷◌, Text, codes, text_eq, Dict, lookup, insert, delete,
  length, select, ltb, leb, if◌then◌else◌,
}
use kuberhealthy.Api.Results.{
  Err, Result, ok, err, panic, new_error, Reply, reply, refuse, Call, Action, pure, throw, call,
  attempt, settle, and_then, ◌>>=◌, ◌>>◌,
}
use kuberhealthy.Api.Types.{
  Phase, pod_pending, pod_running, pod_succeeded, pod_failed, pod_unknown, ContainerStatus, Pod,
}
use kuberhealthy.Store.{second}
use kuberhealthy.Report.{check_name_annotation_key, text_or_empty}

-- What a khjob is read for.
pub record KhJob : Type 0 where
  pub name : Text
  pub namespace : Text
  pub creation_timestamp : ℕ
  pub phase : Text

-- What the reaper calls. The pods listed are those with the label kuberhealthy-check-name.
pub record ReaperApi : Type 1 where
  pub World : Type 0
  pub now : World → ℕ
  pub list_checker_pods : Call World (List Pod)
  pub delete_pod : Pod → Call World (Unit {0})
  pub list_jobs : Call World (List KhJob)
  pub delete_job : KhJob → Call World (Unit {0})

-- The part of the configuration that the reaper reads.
pub record ReaperConfig : Type 0 where
  pub max_check_pod_age : ℕ
  pub max_kh_job_age : ℕ
  pub max_completed_pod_count : ℤ
  pub max_error_pod_count : ℤ

abbrev pub min_check_pod_age : ℕ
min_check_pod_age = 30 * second

abbrev pub min_kh_job_age : ℕ
min_kh_job_age = 300 * second

abbrev pub at_least : ℕ → ℕ → ℕ
at_least low n = if ltb n low then low else n

-- The start of `reaper`: the ages are raised to their minima.
unfoldable pub raise_ages : ReaperConfig → ReaperConfig
raise_ages cfg = record cfg {
  max_check_pod_age = at_least min_check_pod_age cfg.max_check_pod_age;
  max_kh_job_age = at_least min_kh_job_age cfg.max_kh_job_age;
}

-- `parseDurationOrUseDefault`: `parsed` is what `time.ParseDuration` gives, `none` for an error. The
-- answer is the duration, and whether there is no error.
unfoldable pub parse_duration_or_use_default :
    (d : Text) (default : ℕ) → (Text → Option ℤ) → ℕ × Bool
parse_duration_or_use_default [] default parsed = (default, true)
parse_duration_or_use_default (x ∷ d) default parsed = elim (parsed (x ∷ d)) [
  | none ↦ (default, false)
  | some (pos n) ↦ (if leb n 0 then default else n, true)
  | some (negsuc n) ↦ (default, true)
]

abbrev pub is_succeeded : Phase → Bool
is_succeeded pod_succeeded = true
is_succeeded _ = false

abbrev pub is_failed : Phase → Bool
is_failed pod_failed = true
is_failed _ = false

-- The loop of `getPodCompletedTime`.
unfoldable pub latest_finish : List ContainerStatus → (so_far : ℕ) → Option ℕ
latest_finish [] so_far = some so_far
latest_finish (cs ∷ statuses) so_far = elim cs.terminated [
  | none ↦ none
  | some finished ↦ latest_finish statuses (if ltb so_far finished then finished else so_far)
]

-- `getPodCompletedTime`, with `none` for an error.
unfoldable pub get_pod_completed_time : Pod → Option ℕ
get_pod_completed_time pod = latest_finish pod.container_statuses 0

-- `time.Since(t) > age`
abbrev pub is_older : (now age t : ℕ) → Bool
is_older now age t = ltb (t + age) now

abbrev pub is_past : (now age : ℕ) → Option ℕ → Bool
is_past now age none = false
is_past now age (some t) = is_older now age t

-- The label by which a checker pod is found.
abbrev pub check_name_label : Pod → Text
check_name_label pod = text_or_empty (lookup (codes "kuberhealthy-check-name") pod.labels)

-- What `getAllCompletedPodsWithCheckName` keeps of the map.
unfoldable pub is_completed_pod_of : (now : ℕ) (pod : Pod) → Text × Pod → Bool
is_completed_pod_of now pod (n, p) =
    text_eq (check_name_label p) (text_or_empty (lookup check_name_annotation_key pod.annotations))
    && is_past now min_check_pod_age (get_pod_completed_time p)

unfoldable pub get_all_completed_pods_with_check_name : (now : ℕ) → Dict Pod → Pod → Dict Pod
get_all_completed_pods_with_check_name now pods pod = select (is_completed_pod_of now pod) pods

-- The counts of the four `if`s over the pods of a check: `succeeded` says which phase is counted.
unfoldable pub counts_with : (succeeded : Bool) (pod : Pod) → Text × Pod → Bool
counts_with true pod (n, p) = is_succeeded p.phase && text_eq pod.namespace p.namespace
counts_with false pod (n, p) = not (is_succeeded p.phase) && text_eq pod.namespace p.namespace

unfoldable pub counts_newer : (succeeded : Bool) (pod : Pod) → Text × Pod → Bool
counts_newer succeeded pod (n, p) =
    ltb pod.creation_timestamp p.creation_timestamp && counts_with succeeded pod (n, p)

-- Of the pods of a check, enough were created more recently.
unfoldable pub is_outnumbered : (succeeded : Bool) (most : ℤ) → Pod → Dict Pod → Bool
is_outnumbered succeeded most pod pods =
    leb_length most (length (select (counts_newer succeeded pod) pods))
    && leb_length most (length (select (counts_with succeeded pod) pods))

-- `listCompletedCheckerPods`: a map by the name alone.
unfoldable pub completed_pods : List Pod → Dict Pod → Dict Pod
completed_pods [] pods = pods
completed_pods (p ∷ items) pods =
    completed_pods items
      (if is_succeeded p.phase || is_failed p.phase then insert p.name p pods else pods)

-- `jobConditions`
unfoldable pub job_conditions : (now : ℕ) → KhJob → (duration : ℕ) (phase : Text) → Bool
job_conditions now job duration phase =
    is_older now duration job.creation_timestamp && text_eq job.phase phase

module _ (api : ReaperApi) (cfg : ReaperConfig) where
  -- The map `reapCheckerPods` and the world. An error of a block is a `continue` of the loop.
  abbrev pub Reaping : Type 0
  Reaping = Dict Pod × api.World

  abbrev pub deleted_from :
      Text → Dict Pod → Reply (Unit {0}) × api.World → Result (Unit {0}) × Reaping
  deleted_from n pods (reply u, w) = (ok tt, (delete n pods, w))
  deleted_from n pods (refuse e, w) = (err e, (pods, w))

  -- `if due { err = k.deletePod(ctx, v); if err != nil { continue }; delete(reapCheckerPods, n) }`
  unfoldable pub delete_if : (due : Bool) (n : Text) (v : Pod) → Action Reaping (Unit {0})
  delete_if due n v (pods, w) =
      if due then deleted_from n pods (api.delete_pod v w) else (ok tt, (pods, w))

  -- The pods that were created more recently, with the same name.
  unfoldable pub reap_outnumbered :
      (n : Text) (v : Pod) (all_check_pods : Dict Pod) → Action Reaping (Unit {0})
  reap_outnumbered n v all_check_pods = do
    delete_if
        (is_succeeded v.phase && is_outnumbered true cfg.max_completed_pod_count v all_check_pods) n
        v
    delete_if (is_failed v.phase && is_outnumbered false cfg.max_error_pod_count v all_check_pods) n
        v

  unfoldable pub reap_by_count : (n : Text) (v : Pod) → Action Reaping (Unit {0})
  reap_by_count n v (pods, w) =
      let all_check_pods = get_all_completed_pods_with_check_name (api.now w) pods v in
      if ltb_length cfg.max_completed_pod_count (length all_check_pods)
      then reap_outnumbered n v all_check_pods (pods, w)
      else (ok tt, (pods, w))

  unfoldable pub delete_if_old :
      (phase : Bool) (n : Text) (v : Pod) (terminated : ℕ) → Action Reaping (Unit {0})
  delete_if_old phase n v terminated (pods, w) =
      delete_if (phase && is_older (api.now w) cfg.max_check_pod_age terminated) n v (pods, w)

  -- One round of the loop of `deleteFilteredCheckerPods`.
  unfoldable pub reap_pod : (n : Text) (v : Pod) → Option ℕ → Action Reaping (Unit {0})
  reap_pod n v none = throw (new_error (codes "could not fetch pod completed time"))
  reap_pod n v (some terminated) = do
    delete_if_old (is_succeeded v.phase) n v terminated
    delete_if_old (is_failed v.phase) n v terminated
    reap_by_count n v

  -- `deleteFilteredCheckerPods`. A range over a map visits its entries in any order, `visited`; its
  -- error is never set, since `err` is shadowed.
  unfoldable pub delete_filtered_checker_pods : (visited : Dict Pod) → Reaping → Reaping
  delete_filtered_checker_pods [] s = s
  delete_filtered_checker_pods ((n, v) ∷ visited) s =
      delete_filtered_checker_pods visited (reap_pod n v (get_pod_completed_time v) s).1

  -- `runCheckReap`. `order` is the order in which a range visits a map.
  unfoldable pub run_check_reap : (order : Dict Pod → Dict Pod) → api.World → api.World
  run_check_reap order w =
      let (r, w') = api.list_checker_pods w in
      elim r [
        | refuse e ↦ w'
        | reply items ↦
            let pods = completed_pods items [] in
            (delete_filtered_checker_pods (order pods) (pods, w')).1
      ]

  -- The loop of `khJobDelete`: the first error ends it.
  unfoldable pub delete_jobs : List KhJob → Action api.World (Unit {0})
  delete_jobs [] w = (ok tt, w)
  delete_jobs (j ∷ jobs) w =
      if job_conditions (api.now w) j cfg.max_kh_job_age (codes "Completed")
      then (call (api.delete_job j) >> delete_jobs jobs) w
      else delete_jobs jobs w

  unfoldable pub kh_job_delete : Action api.World (Unit {0})
  kh_job_delete = do jobs ← call api.list_jobs; delete_jobs jobs
