-- ===== src/Planner.antt =====
-- server/src/AffectedLinePlanner.cpp and its header: when each train reaches each corridor of its
-- line, and in which order they had best enter. The distance to an entrance is a parameter: it
-- stands for `distanceToEntry`, which Approach models.
pub mod Ranks
pub mod Planning
pub mod Times
pub mod Arrivals
pub mod Ranking
pub mod Spacing
pub mod Schedule
mod Tests
use multi_agent_route_planni.Base.{
  ℕ, zero, suc, ◌+◌, ◌-◌, max, String, Bool, true, false, not, ◌&&◌, ◌||◌, Option, none, some, List,
  [], ◌∷◌, ◌++◌, if◌then◌else◌, ◌==◌, nat_eq, string_eq, ltb, leb, u64_max, Result, ok, fail,
  length, map, drop, set_elem, sort_by, is_lt, compare_text, Map, lookup, insert,
}
use multi_agent_route_planni.Base.Floats.{Floats, double_min, double_max, double_le}
use multi_agent_route_planni.Analysis.{LineRoute}
use multi_agent_route_planni.Dispatch.{CorridorDirection}
use multi_agent_route_planni.Monitor.{TrainTelemetry, MonitoredTrain}
use multi_agent_route_planni.Topology.{
  CorridorTraversal, LineTopologyRegistry, route, corridors_for_line,
}
use multi_agent_route_planni.Approach.{resource_id, composite_key, direction_for}

pub record AffectedLinePlannerConfig (F : Floats) : Type 0 where
  pub planning_horizon_ms : ℕ
  pub minimum_prediction_speed : F.Double
  pub reorder_tolerance_ms : ℕ
  pub planned_minimum_spacing_ms : ℕ
  pub same_line_consecutive_penalty : F.Double

pub record PlannedTrainArrival (F : Floats) : Type 0 where
  pub train_id : String
  pub line_id : String
  pub corridor_resource_id : String
  pub distance_to_entry : F.Double
  pub estimated_arrival_simulation_ms : ℕ
  pub planned_entry_simulation_ms : ℕ
  pub target_headway_ms : ℕ
  pub within_planning_horizon : Bool
  pub suggested_rank : ℕ
  pub line_distribution_need : F.Double
  pub global_priority : F.Double

pub record CorridorRollingPlan (F : Floats) : Type 0 where
  pub corridor_resource_id : String
  pub generated_at_simulation_ms : ℕ
  pub trains : List (PlannedTrainArrival F)

pub record RollingPlanResult (F : Floats) : Type 0 where
  pub plans_by_resource : Map String (CorridorRollingPlan F)
  pub by_train_resource : Map String (PlannedTrainArrival F)

unfoldable pub add_saturated : ℕ → ℕ → ℕ
add_saturated a b = if ltb (u64_max - a) b then u64_max else a + b

module _ (F : Floats) where
  open F use {
    Double, decimal, of_ℕ, add, sub, mul, div, eqb, is_finite, infinity, abs, ceil, truncate,
  }

  unfoldable pub find : RollingPlanResult F → String → String → Option (PlannedTrainArrival F)
  find r train_id resource = lookup (composite_key train_id resource) r.by_train_resource

  -- The constructor, which throws `std::invalid_argument`.
  unfoldable pub planner : AffectedLinePlannerConfig F → Result (AffectedLinePlannerConfig F)
  planner config =
      if config.planning_horizon_ms == 0
        || config.reorder_tolerance_ms == 0
        || config.planned_minimum_spacing_ms == 0
        || not (is_finite config.minimum_prediction_speed)
        || double_le F config.minimum_prediction_speed (decimal 0 0)
        || not (is_finite config.same_line_consecutive_penalty)
        || F.ltb config.same_line_consecutive_penalty (decimal 0 0)
      then fail "invalid affected-line planner config"
      else ok config

  -- The time to the entrance, which saturates.
  unfoldable pub travel_ms : AffectedLinePlannerConfig F → TrainTelemetry F → Double → ℕ
  travel_ms config train distance =
      let speed = double_max F (abs train.speed) config.minimum_prediction_speed in
      let ms = mul (div distance speed) (decimal 1000 0) in
      if double_le F (of_ℕ u64_max) ms then u64_max else truncate (ceil ms)

  unfoldable pub arrival :
      AffectedLinePlannerConfig F
      → ℕ
      → LineRoute F
      → CorridorTraversal F
      → TrainTelemetry F
      → Double
      → PlannedTrainArrival F
  arrival config now line traversal train distance = record {
    train_id = train.train_id;
    line_id = train.line_id;
    corridor_resource_id =
        resource_id traversal.corridor_id
          (direction_for traversal.direction_relation train.travel_direction);
    distance_to_entry = distance;
    estimated_arrival_simulation_ms = add_saturated now (travel_ms config train distance);
    planned_entry_simulation_ms = 0;
    target_headway_ms = line.target_headway_ms;
    within_planning_horizon = leb (travel_ms config train distance) config.planning_horizon_ms;
    suggested_rank = u64_max;
    line_distribution_need = decimal 0 0;
    global_priority = decimal 0 0;
  }

  abbrev pub Plans : Type 0
  Plans = Map String (CorridorRollingPlan F)

  abbrev pub trains_of : Option (CorridorRollingPlan F) → List (PlannedTrainArrival F)
  trains_of none = []
  trains_of (some plan) = plan.trains

  unfoldable pub push_arrival : ℕ → PlannedTrainArrival F → Plans → Plans
  push_arrival now a plans =
      insert a.corridor_resource_id
        (record {
          corridor_resource_id = a.corridor_resource_id;
          generated_at_simulation_ms = now;
          trains = trains_of (lookup a.corridor_resource_id plans) ++ a ∷ [];
        })
        plans

  -- In the order of arrival, the trains' names deciding between equals.
  unfoldable pub arrives_before : PlannedTrainArrival F → PlannedTrainArrival F → Bool
  arrives_before a b =
      if a.estimated_arrival_simulation_ms == b.estimated_arrival_simulation_ms
      then is_lt (compare_text a.train_id b.train_id)
      else ltb a.estimated_arrival_simulation_ms b.estimated_arrival_simulation_ms

  -- The gap to a train of the same line, as the share of the headway that it lacks.
  unfoldable pub crowding : ℕ → ℕ → Double
  crowding gap headway =
      if ltb gap headway then sub (decimal 1 0) (div (of_ℕ gap) (of_ℕ headway)) else decimal 0 0

  abbrev behind : PlannedTrainArrival F → Option (PlannedTrainArrival F) → Double → Double
  behind a none need = need
  behind a (some previous) need =
      let gap = a.estimated_arrival_simulation_ms - previous.estimated_arrival_simulation_ms in
      if ltb gap a.target_headway_ms then sub need (crowding gap a.target_headway_ms) else need

  abbrev ahead : PlannedTrainArrival F → Option (PlannedTrainArrival F) → Double → Double
  ahead a none need = need
  ahead a (some next) need =
      let gap = next.estimated_arrival_simulation_ms - a.estimated_arrival_simulation_ms in
      if ltb gap a.target_headway_ms then add need (crowding gap a.target_headway_ms) else need

  unfoldable pub distribution_need :
      Option (PlannedTrainArrival F)
      → PlannedTrainArrival F
      → Option (PlannedTrainArrival F)
      → Double
  unfolding crowding
  distribution_need previous a next =
      double_max F (sub (decimal 0 0) (decimal 1 0))
        (double_min F (decimal 1 0) (ahead a next (behind a previous (decimal 0 0))))

  unfoldable pub next_of_line :
      String → List (PlannedTrainArrival F) → Option (PlannedTrainArrival F)
  next_of_line line_id [] = none
  next_of_line line_id (a ∷ rest) =
      if a.line_id == line_id then some a else next_of_line line_id rest

  -- The neighbours of a train in the list of its line (`indices_by_line`): the last one of the line
  -- before it, and the first one after it.
  unfoldable pub distribute :
      Map String (PlannedTrainArrival F)
      → List (PlannedTrainArrival F)
      → List (PlannedTrainArrival F)
  distribute seen [] = []
  distribute seen (a ∷ rest) =
      record a {
        line_distribution_need =
            distribution_need (lookup a.line_id seen) a (next_of_line a.line_id rest);
      }
      ∷ distribute (insert a.line_id a seen) rest
