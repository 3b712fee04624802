-- ===== src/PodRestarts.antt =====
-- The pod restarts check, a checker pod of its own (cmd/pod-restarts-check/main.go). Logging is left out;
-- MAX_FAILURES_ALLOWED is taken not to be negative.
pub mod Kept
use kuberhealthy.Prelude.{
  ℕ, Bool, true, false, ◌&&◌, Option, none, some, List, [], ◌∷◌, ◌++◌, map, Text, text_eq, codes,
  Dict, insert, delete, is_empty, split, ltb, if◌then◌else◌,
}
use kuberhealthy.Api.Results.{Err, is_not_found, Reply, reply, refuse, Call}

pub record Event : Type 0 where
  pub kind : Text
  pub reason : Text
  pub count : ℕ
  pub name : Text
  -- The namespace of the pod that is involved.
  pub namespace : Text

pub record RestartsApi : Type 1 where
  pub World : Type 0
  pub list_warnings : Call World (List Event)
  pub get_pod : (namespace name : Text) → Call World (Unit {0})

-- The parts of a key `namespace/pod_name`.
abbrev pub key_of : Event → Text
key_of e = e.namespace ++ b'/' ∷ e.name

abbrev pub second_part : List Text → Text
second_part (namespace ∷ pod_name ∷ parts) = pod_name
second_part _ = []

abbrev pub first_part : List Text → Text
first_part [] = []
first_part (namespace ∷ parts) = namespace

abbrev pub is_bad : (max_failures_allowed : ℕ) → Event → Bool
is_bad max_failures_allowed e =
    (text_eq e.kind (codes "Pod") && text_eq e.reason (codes "BackOff"))
    && ltb max_failures_allowed e.count

-- The loop over the events. The message is shortened: nothing reads it.
unfoldable pub add_bad_pods : (max_failures_allowed : ℕ) → List Event → Dict Text → Dict Text
add_bad_pods max_failures_allowed [] bad_pods = bad_pods
add_bad_pods max_failures_allowed (e ∷ events) bad_pods = add_bad_pods max_failures_allowed events (
    if is_bad max_failures_allowed e
    then insert (key_of e) (codes "Found `BackOff` events for pod: " ++ e.name) bad_pods
    else bad_pods)

-- What the check reports.
pub data Reported : Type 0 where
  reported_success : Reported
  reported_failure : List Text → Reported

abbrev pub keys_of : Dict Text → List Text
keys_of [] = []
keys_of ((k, m) ∷ bad_pods) = k ∷ keys_of bad_pods

abbrev pub messages : Dict Text → List Text
messages [] = []
messages ((k, m) ∷ bad_pods) = m ∷ messages bad_pods

abbrev pub error_message : Option Err → List Text
error_message none = []
error_message (some e) = e.message ∷ []

abbrev pub report_of : List Text → Reported
report_of [] = reported_success
report_of (e ∷ error_messages) = reported_failure (e ∷ error_messages)

module _ (api : RestartsApi) where
  abbrev pub without : (pod_name : Text) → Dict Text → Reply (Unit {0}) → Option Err × Dict Text
  without pod_name bad_pods (reply u) = (none, bad_pods)
  without pod_name bad_pods (refuse e) =
      if is_not_found e then (none, delete pod_name bad_pods) else (some e, bad_pods)

  -- `verifyBadPodRestartExists`
  unfoldable pub verify_bad_pod_restart_exists :
      (pod : Text) → Dict Text → api.World → (Option Err × Dict Text) × api.World
  verify_bad_pod_restart_exists pod bad_pods w =
      let parts = split b'/' pod in
      let (r, w') = api.get_pod (first_part parts) (second_part parts) w in
      (without (second_part parts) bad_pods r, w')

  -- The range over the map, whose keys are given in its order.
  unfoldable pub verify_all :
      (pods : List Text) → Dict Text → api.World → (Option Err × Dict Text) × api.World
  verify_all [] bad_pods w = ((none, bad_pods), w)
  verify_all (pod ∷ pods) bad_pods w =
      let o = verify_bad_pod_restart_exists pod bad_pods w in
      elim o.0.0 [ some e ↦ o | none ↦ verify_all pods o.0.1 o.1 ]

  abbrev pub verify_listed :
      (max_failures_allowed : ℕ)
      → Reply (List Event) × api.World
      → (Option Err × Dict Text) × api.World
  verify_listed max_failures_allowed (refuse e, w) = ((some e, []), w)
  verify_listed max_failures_allowed (reply events, w) =
      let bad_pods = add_bad_pods max_failures_allowed events [] in
      verify_all (keys_of bad_pods) bad_pods w

  -- `doChecks`
  unfoldable pub do_checks :
      (max_failures_allowed : ℕ) → api.World → (Option Err × Dict Text) × api.World
  do_checks max_failures_allowed w = verify_listed max_failures_allowed (api.list_warnings w)

  -- `Run`, with whether the timeout comes first
  unfoldable pub run :
      (max_failures_allowed : ℕ) (is_late : Bool) → api.World → Reported × api.World
  run max_failures_allowed true w = (
    reported_failure
        (codes "Failed to complete Pod Restart check in time! Timeout was reached." ∷ []),
    w,
  )
  run max_failures_allowed false w =
      let ((e, bad_pods), w') = do_checks max_failures_allowed w in
      (report_of (error_message e ++ messages bad_pods), w')
