-- ===== src/Service/Uploading.antt =====
-- An upload of routes to server/src/RailwayDispatchService.cpp.
use multi_agent_route_planni.Base.{
  ℕ, Bool, true, false, not, ◌&&◌, ◌||◌, Option, none, some, List, [], ◌∷◌, if◌then◌else◌, ◌==◌,
  nat_eq, string_eq, Result, ok, fail, length,
}
use multi_agent_route_planni.Base.Floats.{Floats}
use multi_agent_route_planni.Analysis.{LineRoute, LineTopologyAnalysis}
use multi_agent_route_planni.Monitor as Monitor
use multi_agent_route_planni.Monitor.{
  TrainDispatchPhase, monitored, inside_resource, MonitoredTrain, Trains,
}
use multi_agent_route_planni.Topology as Topology
use multi_agent_route_planni.Topology.{LineTopologyRegistry, LineTopologySnapshot}
use multi_agent_route_planni.Service.{
  persisted, error_text, DispatchPersistence, RailwayDispatchService, RouteUploadResult, no_plan,
  with_health,
}
use multi_agent_route_planni.Service.Same.{same_routes}
use multi_agent_route_planni.Service.Rebuilding.{rebuild}

abbrev pub is_nil {ℓ} : {A : Type ℓ} → List A → Bool
is_nil [] = true
is_nil (x ∷ xs) = false

module _ (F : Floats) where
  -- A call that changes nothing leaves `persistence_ok` as its caller sets it.
  abbrev pub counts : LineTopologySnapshot F → RouteUploadResult
  counts t = record {
    route_count = length t.routes;
    corridor_count = length t.analysis.shared_corridors;
    intersection_count = length t.analysis.intersections;
    persistence_ok = true;
    persistence_error = "";
  }

  unfoldable pub all_monitored : List (MonitoredTrain F) → Trains F → Trains F
  all_monitored [] trains = trains
  all_monitored (m ∷ ms) trains =
      all_monitored ms (Monitor.set_phase F trains m.telemetry.train_id monitored "").0

  unfoldable pub store_topology :
      DispatchPersistence F
      → ℕ
      → RailwayDispatchService F
      → RailwayDispatchService F × RouteUploadResult
  store_topology p wall s =
      let snapshot = Topology.snapshot F s.topology in
      if not s.persistence_enabled
      then (s, counts snapshot)
      else let answer = p.persist_topology snapshot wall in
        (
          with_health F s answer,
          record (counts snapshot) {
            persistence_ok = persisted answer;
            persistence_error = error_text answer;
          },
        )

  -- The state under a new topology, before its manager is built.
  abbrev pub with_topology :
      RailwayDispatchService F → LineTopologyRegistry F → RailwayDispatchService F
  with_topology s topology = record s {
    topology = topology;
    commands_by_train = [];
    active_by_train = [];
    rolling_plan_result = no_plan F;
    waiting = [];
    train_monitor = all_monitored (Monitor.snapshot F s.train_monitor) s.train_monitor;
  }

  module _ (analyze : List (LineRoute F) → LineTopologyAnalysis F) where
    -- `none` is an exception.
    unfoldable pub replace_routes :
        DispatchPersistence F
        → RailwayDispatchService F
        → List (LineRoute F)
        → ℕ
        → Option (RailwayDispatchService F × Result RouteUploadResult)
    unfolding store_topology all_monitored
    replace_routes p s routes wall =
        let current = Topology.snapshot F s.topology in
        if not (current.revision == 0) && same_routes F current.routes routes
        then some (s, ok (counts current))
        else if not (is_nil s.commands_by_train) || not (is_nil s.active_by_train)
        then some (s, fail "topology_change_blocked_by_active_commands")
        else let (topology, done) = Topology.replace_routes F analyze s.topology routes in
          elim done [
            | fail reason ↦ some (record s { topology = topology }, fail reason)
            | ok _ ↦ elim (rebuild F s.config.dispatch (Topology.snapshot F topology) wall) [
              | fail reason ↦ none
              | ok m ↦
                  let (kept, result) =
                    store_topology p wall
                      (record (with_topology s topology) { dispatch_manager = m }) in
                  some (kept, ok result)
            ]
          ]
