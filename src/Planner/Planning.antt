-- ===== src/Planner/Planning.antt =====
-- `plan` of server/src/AffectedLinePlanner.cpp: its two loops.
use multi_agent_route_planni.Base.{
  ℕ, String, Bool, true, false, not, ◌&&◌, Option, none, some, List, [], ◌∷◌, if◌then◌else◌, ◌==◌,
  nat_eq, string_eq, ltb, sort_by, Map, insert,
}
use multi_agent_route_planni.Base.Floats.{Floats}
use multi_agent_route_planni.Analysis.{LineRoute}
use multi_agent_route_planni.Monitor.{TrainTelemetry, MonitoredTrain}
use multi_agent_route_planni.Topology.{
  CorridorTraversal, LineTopologyRegistry, route, corridors_for_line,
}
use multi_agent_route_planni.Approach.{composite_key}
use multi_agent_route_planni.Planner.{
  AffectedLinePlannerConfig, PlannedTrainArrival, CorridorRollingPlan, RollingPlanResult, arrival,
  Plans, push_arrival, arrives_before, distribute,
}
use multi_agent_route_planni.Planner.Ranks.{rank_trains}

module _ (F : Floats) where
  open F use {Double}

  module _ (config : AffectedLinePlannerConfig F) (now : ℕ) where
    -- The order in which a plan lists its trains; the sort is stable.
    unfoldable pub listed_before : PlannedTrainArrival F → PlannedTrainArrival F → Bool
    listed_before a b =
        if a.within_planning_horizon && not b.within_planning_horizon
        then true
        else if not a.within_planning_horizon && b.within_planning_horizon
        then false
        else if a.suggested_rank == b.suggested_rank
        then ltb a.estimated_arrival_simulation_ms b.estimated_arrival_simulation_ms
        else ltb a.suggested_rank b.suggested_rank

    -- What the second loop of `plan` makes of the arrivals at one direction.
    unfoldable pub schedule : List (PlannedTrainArrival F) → List (PlannedTrainArrival F)
    unfolding distribute rank_trains
    schedule arrivals =
        rank_trains F config now (distribute F [] (sort_by (arrives_before F) arrivals))

    unfoldable pub index_arrivals :
        List (PlannedTrainArrival F)
        → Map String (PlannedTrainArrival F)
        → Map String (PlannedTrainArrival F)
    index_arrivals [] m = m
    index_arrivals (a ∷ rest) m =
        index_arrivals rest (insert (composite_key a.train_id a.corridor_resource_id) a m)

    unfoldable pub scheduled : CorridorRollingPlan F → CorridorRollingPlan F
    unfolding schedule
    scheduled plan = record plan { trains = sort_by listed_before (schedule plan.trains) }

    unfoldable pub finish : Plans F → RollingPlanResult F → RollingPlanResult F
    unfolding scheduled index_arrivals
    finish [] r = r
    finish ((id, plan) ∷ plans) r = finish plans (record {
      plans_by_resource = insert id (scheduled plan) r.plans_by_resource;
      by_train_resource = index_arrivals (schedule plan.trains) r.by_train_resource;
    })

    module _ (distance : LineRoute F → CorridorTraversal F → TrainTelemetry F → Option Double) where
      unfoldable pub add_arrivals :
          LineRoute F → TrainTelemetry F → List (CorridorTraversal F) → Plans F → Plans F
      unfolding push_arrival
      add_arrivals line train [] plans = plans
      add_arrivals line train (t ∷ ts) plans = elim (distance line t train) [
        | none ↦ add_arrivals line train ts plans
        | some d ↦
            add_arrivals line train ts
              (push_arrival F now (arrival F config now line t train d) plans)
      ]

      -- The first loop of `plan`: the trains of lines with corridors.
      unfoldable pub predict : LineTopologyRegistry F → List (MonitoredTrain F) → Plans F → Plans F
      unfolding add_arrivals
      predict topology [] plans = plans
      predict topology (m ∷ ms) plans = elim (route F topology m.telemetry.line_id) [
        | none ↦ predict topology ms plans
        | some line ↦ predict topology ms (
            add_arrivals line m.telemetry (corridors_for_line F topology m.telemetry.line_id) plans)
      ]

      unfoldable pub plan : List (MonitoredTrain F) → LineTopologyRegistry F → RollingPlanResult F
      unfolding predict finish
      plan trains topology =
          finish (predict topology trains [])
            (record { plans_by_resource = []; by_train_resource = [] })
