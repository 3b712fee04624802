-- ===== src/Health.antt =====
-- pkg/health/state.go: the summary of all checks and jobs that the status page shows.
use kuberhealthy.Prelude.{Bool, true, List, [], ◌∷◌, ◌++◌, Text, Dict, is_empty, if◌then◌else◌}
use kuberhealthy.Api.Types.{WorkloadDetails}

pub record State : Type 0 where
  pub ok : Bool
  pub errors : List Text
  pub check_details : Dict WorkloadDetails
  pub job_details : Dict WorkloadDetails
  pub current_master : Text
  pub metadata : Dict Text

-- `AddError(s ...string)`: a blank text is skipped, any other goes to the end.
unfoldable pub add_error : State → List Text → State
add_error h [] = h
add_error h (str ∷ s) =
    add_error (if is_empty str then h else record h { errors = h.errors ++ str ∷ [] }) s

unfoldable pub new_state : State
new_state = record {
  ok = true;
  errors = [];
  check_details = [];
  job_details = [];
  current_master = [];
  metadata = [];
}
