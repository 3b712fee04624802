-- ===== src/Examples/Mastering.antt =====
-- The choice of the master and the control loop on samples.
use kuberhealthy.Prelude.{
  ◌+◌, ◌≡◌, refl, true, false, List, [], ◌∷◌, Text, codes, text_eq, to_lower, arith,
}
use kuberhealthy.Api.Demo.{demo}
use kuberhealthy.Master.{
  text_leb, insert_text, sort_strings, choose_master, get_env_var, calculate_master, i_am_master,
}
use kuberhealthy.Master.Choice.{i_am_master_unique}
use kuberhealthy.Master.Monitor.{
  Monitor, Event, pod_event, tick, interval, run_monitor, Alternates, run_monitor-Alternates,
}
use kuberhealthy.Control.{
  Control, blocked, ControlEvent, became_master, lost_master, reload, run_control, new_control,
}
use kuberhealthy.Control.Balance.{IsBalanced, Goes, run_control-IsBalanced, early_reload_blocks}
use kuberhealthy.Examples.{host, master_pods, sample_world}

abbrev two_names : List Text
two_names = codes "kh-1" ∷ codes "kh-0" ∷ []

i_am_master_unique_example : to_lower (codes "Kuberhealthy-0") ≡ to_lower host
unfolding text_eq to_lower text_leb insert_text sort_strings choose_master get_env_var
    calculate_master i_am_master
i_am_master_unique_example =
    i_am_master_unique demo (codes "Kuberhealthy-0") host sample_world sample_world master_pods
      master_pods refl refl (λ n. refl) refl refl

abbrev idle : Monitor
idle = record { is_master = false; upcoming_master_state = false; last_master_change_time = 0 }

abbrev changes : List Event
changes =
    pod_event 5 true
    ∷ tick (7 + interval)
    ∷ pod_event (8 + interval) false
    ∷ tick (19 + interval + interval)
    ∷ []

run_monitor-Alternates_example :
    Alternates false (run_monitor idle changes).1 (run_monitor idle changes).0.is_master
run_monitor-Alternates_example = run_monitor-Alternates idle changes

abbrev a_day : List ControlEvent
a_day = became_master 3 ∷ reload true 4 ∷ lost_master ∷ reload false 4 ∷ became_master 4 ∷ []

run_control-IsBalanced_example : Goes (IsBalanced true) (run_control a_day new_control)
run_control-IsBalanced_example =
    run_control-IsBalanced false true a_day new_control refl
      (record { counted = refl; one_reaper = refl; cancels = refl })

early_reload_blocks_example :
    run_control (reload true 3 ∷ became_master 3 ∷ lost_master ∷ []) new_control ≡ blocked
early_reload_blocks_example = early_reload_blocks 3 3 (lost_master ∷ []) (omega arith)

abbrev after_two : Control
after_two = record { checks = 4; wg = 4; reapers = 1; can_cancel_reaper = true; state_reapers = 2 }
