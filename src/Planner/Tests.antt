-- ===== src/Planner/Tests.antt =====
-- Three trains before one corridor, two of one line, before server/src/AffectedLinePlanner.cpp, in
-- thousandths.
use multi_agent_route_planni.Base.{
  ◌⊎◌, ℕ, ◌+◌, ◌≤◌, String, ◌≡◌, refl, false, none, some, List, [], ◌∷◌, map, arith, min, u64,
  u64_max, lookup, insert, string_eq, nat_eq, sort_by, insert_by, value_or, Option,
}
use multi_agent_route_planni.Base.Floats.{thousandths, double_min, double_max}
use multi_agent_route_planni.Analysis.{RouteDirectionRelation, LineRoute}
use multi_agent_route_planni.Monitor.{
  RouteTravelDirection, monitored, TrainTelemetry, MonitoredTrain,
}
use multi_agent_route_planni.Topology.{
  CorridorTraversal, LineTopologyRegistry, route, corridors_for_line,
}
use multi_agent_route_planni.Approach.{resource_id, direction_for}
use multi_agent_route_planni.Planner.{
  AffectedLinePlannerConfig, PlannedTrainArrival, CorridorRollingPlan, add_saturated, travel_ms,
  arrival, push_arrival, arrives_before, crowding, distribution_need, next_of_line, distribute,
}
use multi_agent_route_planni.Planner.Planning.{
  listed_before, schedule, scheduled, index_arrivals, finish, add_arrivals, predict, plan,
}
use multi_agent_route_planni.Planner.Ranks.{
  earliest_open, score, beats, scan, planned, choose, take_rank, rank_loop, first_round,
  rank_trains,
}
use multi_agent_route_planni.Planner.Times.{add_saturated_lem}
use multi_agent_route_planni.Planner.Ranking.{rank_loop-ends}
use multi_agent_route_planni.Planner.Arrivals.{Times, IsSchedule, plan_lem}

abbrev config : AffectedLinePlannerConfig thousandths
config = record {
  planning_horizon_ms = 300000;
  minimum_prediction_speed = 5000;
  reorder_tolerance_ms = 10000;
  planned_minimum_spacing_ms = 5000;
  same_line_consecutive_penalty = 250;
}

abbrev line : String → LineRoute thousandths
line id = record {
  line_id = id;
  line_name = "";
  transport_type = "train";
  geometry_source = "unknown";
  is_loop = false;
  points = [];
  target_headway_ms = 15000;
}

abbrev traversal : String → CorridorTraversal thousandths
traversal id = record {
  corridor_id = "C1";
  line_id = id;
  low_segment = 0;
  high_segment = 0;
  low_position = 1000;
  high_position = 2000;
  occurrence_id = "0";
  direction_relation = RouteDirectionRelation.same;
}

abbrev topology : LineTopologyRegistry thousandths
topology = record {
  routes = ("L1", line "L1") ∷ ("L2", line "L2") ∷ [];
  analysis = record { shared_corridors = []; intersections = []; movements = [] };
  corridors_by_line = ("L1", traversal "L1" ∷ []) ∷ ("L2", traversal "L2" ∷ []) ∷ [];
  intersections_by_line = [];
  revision = 1;
  algorithm_fingerprint = "";
}

abbrev train : String → String → ℕ → MonitoredTrain thousandths
train id line_id position = record {
  telemetry = record {
    train_id = id;
    line_id = line_id;
    x = 0;
    y = 0;
    z = 0;
    speed = 10000;
    route_index = 0;
    route_position = position;
    travel_direction = RouteTravelDirection.forward;
    simulation_time_ms = 50000;
    received_at_wall_ms = 1000;
  };
  phase = monitored;
  controlled_resource_id = "";
}

abbrev trains : List (MonitoredTrain thousandths)
trains = train "T1" "L1" 100000 ∷ train "T2" "L1" 120000 ∷ train "T3" "L2" 130000 ∷ []

-- The position stands for the distance.
abbrev distance :
    LineRoute thousandths → CorridorTraversal thousandths → TrainTelemetry thousandths → Option ℕ
distance l t x = some x.route_position

abbrev no_trains : CorridorRollingPlan thousandths
no_trains = record { corridor_resource_id = ""; generated_at_simulation_ms = 0; trains = [] }

forward_plan : CorridorRollingPlan thousandths
forward_plan =
    value_or no_trains "C1:FORWARD"
      (plan thousandths config 50000 distance trains topology).plans_by_resource

program : Unit {0}
unfolding forward_plan lookup insert value_or sort_by insert_by double_min double_max route
    corridors_for_line resource_id direction_for add_saturated travel_ms arrival push_arrival
    arrives_before crowding distribution_need next_of_line distribute earliest_open score beats scan
    planned choose take_rank rank_loop rank_trains listed_before schedule scheduled index_arrivals
    finish add_arrivals predict plan
program = tt

names :
    map (λ (a : PlannedTrainArrival thousandths). a.train_id) forward_plan.trains
    ≡ "T1" ∷ "T3" ∷ "T2" ∷ []
unfolding program
names = refl

found :
    lookup "C1:FORWARD" (plan thousandths config 50000 distance trains topology).plans_by_resource
    ≡ some forward_plan
unfolding program
found = refl

plan_lem_example :
    (y : CorridorRollingPlan thousandths) × (lookup "C1:FORWARD"
        (predict thousandths config 50000 distance topology trains [])
      ≡ some y)
    × (forward_plan.trains
        ≡ sort_by
            (listed_before thousandths config 50000)
            (schedule thousandths config 50000 y.trains))
    × Times thousandths config 50000 y.trains
    × IsSchedule thousandths config 50000 y.trains (schedule thousandths config 50000 y.trains)
plan_lem_example =
    plan_lem thousandths config 50000 distance (omega arith) (omega arith) trains topology
      "C1:FORWARD" forward_plan found

abbrev arrivals : List (PlannedTrainArrival thousandths)
arrivals =
    arrival thousandths config 50000 (line "L1") (traversal "L1") (train "T1" "L1" 100000).telemetry
      100000
    ∷ arrival thousandths config 50000 (line "L2") (traversal "L2")
        (train "T3" "L2" 130000).telemetry 130000
    ∷ []

rank_loop-ends_example :
    earliest_open thousandths 0
      (rank_loop thousandths config 50000 2 (first_round thousandths config 50000 arrivals)).slots
    ≡ none
unfolding program
rank_loop-ends_example =
    rank_loop-ends thousandths config 50000 2 (first_round thousandths config 50000 arrivals)
      (omega arith)

add_saturated_lem_example :
    (add_saturated 5 u64_max ≡ min (5 + u64_max) u64_max)
    × (5 ≤ add_saturated 5 u64_max)
    × (u64_max ≤ add_saturated 5 u64_max)
    × ((add_saturated 5 u64_max ≡ u64 (5 + u64_max)) ⊎ (add_saturated 5 u64_max ≡ u64_max))
add_saturated_lem_example = add_saturated_lem 5 u64_max (omega arith) (omega arith)
