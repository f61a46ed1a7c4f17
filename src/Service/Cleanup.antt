-- ===== src/Service/Cleanup.antt =====
-- What server/src/RailwayDispatchService.cpp drops when trains are no longer heard of.
use multi_agent_route_planni.Base.{
  ℕ, String, Bool, Option, none, some, List, [], ◌∷◌, ◌==◌, string_eq, remove_if, lookup, erase,
  erase_if, map_values,
}
use multi_agent_route_planni.Base.Floats.{Floats}
use multi_agent_route_planni.Dispatch.{DispatchDecision}
use multi_agent_route_planni.Monitor.{remove_stale}
use multi_agent_route_planni.Manager.Answers.{cancel_pending}
use multi_agent_route_planni.Planner.{PlannedTrainArrival, CorridorRollingPlan, RollingPlanResult}
use multi_agent_route_planni.Candidates.{forget_train}
use multi_agent_route_planni.Service.{RailwayDispatchService}

module _ (F : Floats) where
  abbrev is_of : String → PlannedTrainArrival F → Bool
  is_of train_id a = a.train_id == train_id

  unfoldable pub forget_plans : String → RollingPlanResult F → RollingPlanResult F
  forget_plans train_id r = record {
    plans_by_resource =
        map_values
          (λ (p : CorridorRollingPlan F). record p { trains = remove_if (is_of train_id) p.trains })
          r.plans_by_resource;
    by_train_resource = erase_if (λ key a. is_of train_id a) r.by_train_resource;
  }

  -- The command of the train, if there is one, is cancelled.
  unfoldable pub withdraw :
      String → Option (DispatchDecision F) → RailwayDispatchService F → RailwayDispatchService F
  withdraw train_id none s = s
  withdraw train_id (some d) s = record s {
    dispatch_manager = (cancel_pending F s.dispatch_manager d.corridor_resource_id).0;
    commands_by_train = erase train_id s.commands_by_train;
  }

  -- A train that is stale; `markTrainStale` of the data layer answers nothing. What the train
  -- occupies, it keeps.
  unfoldable pub drop_train : RailwayDispatchService F → String → RailwayDispatchService F
  unfolding forget_plans withdraw
  drop_train s train_id = withdraw train_id (lookup train_id s.commands_by_train) (record s {
    waiting = forget_train s.waiting train_id;
    rolling_plan_result = forget_plans train_id s.rolling_plan_result;
  })

  unfoldable pub drop_trains : List String → RailwayDispatchService F → RailwayDispatchService F
  unfolding drop_train
  drop_trains [] s = s
  drop_trains (id ∷ ids) s = drop_trains ids (drop_train s id)

  unfoldable pub cleanup_stale : RailwayDispatchService F → ℕ → RailwayDispatchService F
  unfolding drop_trains
  cleanup_stale s wall =
      let (trains, removed) = remove_stale F s.train_monitor wall s.config.train_stale_wall_ms in
      drop_trains removed (record s { train_monitor = trains })

  -- `runMaintenance`.
  unfoldable pub run_maintenance : RailwayDispatchService F → ℕ → RailwayDispatchService F
  run_maintenance s wall = cleanup_stale s wall
