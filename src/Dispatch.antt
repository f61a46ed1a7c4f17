-- ===== src/Dispatch.antt =====
-- server/include/DispatchPolicy.h and server/include/DynamicPriorityPolicy.h: what the policy, the
-- manager and the service speak of.
use multi_agent_route_planni.Base.{ℕ, String, Bool, true, false, List, [], Map}
use multi_agent_route_planni.Base.Floats.{Floats}

pub data CorridorDirection : Type 0 where
  forward reverse : CorridorDirection

abbrev pub same_direction : CorridorDirection → CorridorDirection → Bool
same_direction forward forward = true
same_direction reverse reverse = true
same_direction _ _ = false

pub data DispatchAction : Type 0 where
  no_action hold_all release : DispatchAction

pub record DispatchCandidate (F : Floats) : Type 0 where
  pub train_id : String
  pub line_id : String
  pub corridor_direction : CorridorDirection
  pub corridor_resource_id : String
  pub required_intersection_movement_ids : List String
  pub route_index : ℕ
  pub route_position : F.Double
  pub arrived_at_simulation_ms : ℕ
  pub received_at_wall_ms : ℕ
  pub predicted_arrival_simulation_ms : ℕ
  pub rolling_plan_rank : ℕ
  pub global_plan_priority : F.Double

pub record LineDispatchState (F : Floats) : Type 0 where
  pub target_headway_ms : ℕ
  pub last_release_simulation_ms : ℕ
  pub last_credit_update_simulation_ms : ℕ
  pub fairness_credit : F.Double

pub record SharedCorridorState (F : Floats) : Type 0 where
  pub corridor_resource_id : String
  pub corridor_id : String
  pub direction : CorridorDirection
  pub received_at_wall_ms : ℕ
  pub last_entry_simulation_ms : ℕ
  pub minimum_headway_ms : ℕ
  pub occupancy : ℕ
  pub capacity : ℕ
  pub downstream_available : Bool
  pub command_pending : Bool
  pub candidates : List (DispatchCandidate F)

pub record DispatchContext (F : Floats) : Type 0 where
  pub corridor : SharedCorridorState F
  pub lines : Map String (LineDispatchState F)
  pub last_released_line_id : String
  pub consecutive_release_count : ℕ
  pub simulation_now_ms : ℕ
  pub wall_now_ms : ℕ

pub record DispatchScoreBreakdown (F : Floats) : Type 0 where
  pub headway_urgency : F.Double
  pub waiting_time : F.Double
  pub fairness_credit : F.Double
  pub consecutive_penalty : F.Double
  pub global_plan_priority : F.Double

pub record DispatchDecision (F : Floats) : Type 0 where
  pub action : DispatchAction
  pub command_id : String
  pub corridor_resource_id : String
  pub corridor_id : String
  pub direction : CorridorDirection
  pub train_id : String
  pub line_id : String
  pub topology_revision : ℕ
  pub issued_at_simulation_ms : ℕ
  pub entry_route_index : ℕ
  pub exit_route_index : ℕ
  pub entry_route_position : F.Double
  pub exit_route_position : F.Double
  pub has_route_bounds : Bool
  pub reserved_intersection_movement_ids : List String
  pub reason : String
  pub score : F.Double
  pub breakdown : DispatchScoreBreakdown F

pub record DynamicPriorityConfig (F : Floats) : Type 0 where
  pub default_corridor_minimum_headway_ms : ℕ
  pub maximum_wait_ms : ℕ
  pub telemetry_stale_wall_ms : ℕ
  pub max_consecutive_release : ℕ
  pub headway_urgency_weight : F.Double
  pub waiting_time_weight : F.Double
  pub fairness_credit_weight : F.Double
  pub global_plan_weight : F.Double
  pub consecutive_penalty_weight : F.Double

-- The values that the headers give where nothing else is said.
module _ (F : Floats) where
  open F use {decimal}

  unfoldable pub default_line : LineDispatchState F
  default_line = record {
    target_headway_ms = 15000;
    last_release_simulation_ms = 0;
    last_credit_update_simulation_ms = 0;
    fairness_credit = decimal 0 0;
  }

  unfoldable pub default_breakdown : DispatchScoreBreakdown F
  default_breakdown = record {
    headway_urgency = decimal 0 0;
    waiting_time = decimal 0 0;
    fairness_credit = decimal 0 0;
    consecutive_penalty = decimal 0 0;
    global_plan_priority = decimal 0 0;
  }

  unfoldable pub default_decision : DispatchDecision F
  unfolding default_breakdown
  default_decision = record {
    action = no_action;
    command_id = "";
    corridor_resource_id = "";
    corridor_id = "";
    direction = forward;
    train_id = "";
    line_id = "";
    topology_revision = 0;
    issued_at_simulation_ms = 0;
    entry_route_index = 0;
    exit_route_index = 0;
    entry_route_position = decimal 0 0;
    exit_route_position = decimal 0 0;
    has_route_bounds = false;
    reserved_intersection_movement_ids = [];
    reason = "";
    score = decimal 0 0;
    breakdown = default_breakdown;
  }

  unfoldable pub default_config : DynamicPriorityConfig F
  default_config = record {
    default_corridor_minimum_headway_ms = 5000;
    maximum_wait_ms = 20000;
    telemetry_stale_wall_ms = 1500;
    max_consecutive_release = 2;
    headway_urgency_weight = decimal 50 2;
    waiting_time_weight = decimal 30 2;
    fairness_credit_weight = decimal 20 2;
    global_plan_weight = decimal 25 2;
    consecutive_penalty_weight = decimal 25 2;
  }
