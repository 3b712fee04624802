-- ===== src/Api/Cluster.antt =====
-- The API server, the clock and the other writers are not part of the program: they are a
-- parameter. Every call may change the world, since others act on it too.
use kuberhealthy.Prelude.{ℕ, ◌≡◌, none, List, Text}
use kuberhealthy.Api.Results.{reply, Call}
use kuberhealthy.Api.Types.{WorkloadDetails, KhState, Pod}

pub record Cluster : Type 1 where
  pub World : Type 0
  pub now : World → ℕ
  pub sleep : ℕ → World → World
  -- `KuberhealthyStates(namespace).Get(name)`, `.Create(&state)` and `.Update(&state)`
  pub get_state : (namespace name : Text) → Call World KhState
  pub create_state : (namespace : Text) → KhState → Call World KhState
  pub update_state : (namespace : Text) → KhState → Call World KhState
  -- Whether `Get` finds a khcheck, or a khjob, of the name.
  pub get_check : (namespace name : Text) → Call World (Unit {0})
  pub get_job : (namespace name : Text) → Call World (Unit {0})
  -- The running pods labelled app=kuberhealthy in the namespace of this pod.
  pub list_kuberhealthy_pods : Call World (List Pod)
  -- The pods in the target namespace that a label or field selector picks.
  pub list_pods : (selector : Text) → Call World (List Pod)

-- What the server holds of a khstate: the field that is not exported is not sent.
abbrev pub sent : WorkloadDetails → WorkloadDetails
sent details = record details { kh_workload = none }

-- The documented contract of Get, Create and Update while nobody else writes.
pub record IsQuiet (c : Cluster) : Type 0 where
  pub get_keeps : (ns n : Text) (w : c.World) → (c.get_state ns n w).1 ≡ w
  pub update_written :
      (ns : Text) (s t : KhState) (w : c.World)
      → (c.update_state ns s w).0 ≡ reply t
      → ((c.get_state ns s.name (c.update_state ns s w).1).0 ≡ reply t) × (t.spec ≡ sent s.spec)
  pub create_written :
      (ns : Text) (s t : KhState) (w : c.World)
      → (c.create_state ns s w).0 ≡ reply t
      → ((c.get_state ns s.name (c.create_state ns s w).1).0 ≡ reply t) × (t.spec ≡ sent s.spec)
