-- ===== src/Service/Leaving.antt =====
-- A train that tells server/src/RailwayDispatchService.cpp that it has left a corridor.
use multi_agent_route_planni.Base.{
  ℕ, String, Bool, true, false, not, ◌&&◌, ◌||◌, Option, none, some, List, [], ◌∷◌, ◌++◌,
  if◌then◌else◌, ◌==◌, nat_eq, string_eq, contains, lookup, erase,
}
use multi_agent_route_planni.Base.Floats.{Floats}
use multi_agent_route_planni.Dispatch.{DispatchDecision}
use multi_agent_route_planni.Reservation.{LineIntersectionMovement}
use multi_agent_route_planni.Monitor as Monitor
use multi_agent_route_planni.Monitor.{
  TrainDispatchPhase, monitored, inside_resource, MonitoredTrain, Trains,
}
use multi_agent_route_planni.Manager.{
  DispatchManager, mark_corridor_exited, mark_intersection_cleared,
}
use multi_agent_route_planni.Candidates.{forget_train}
use multi_agent_route_planni.Service.{Answer, DispatchPersistence, RailwayDispatchService}
use multi_agent_route_planni.Service.Uploading.{is_nil}
use multi_agent_route_planni.Service.Answering.{settle_stored}

module _ (F : Floats) where
  -- The intersections of the movements that the command holds, each once.
  unfoldable pub add_intersections :
      String → List LineIntersectionMovement → List String → List String
  add_intersections movement_id [] is = is
  add_intersections movement_id (m ∷ ms) is = add_intersections movement_id ms (
      if m.movement_id == movement_id && not (contains is m.intersection_id)
      then is ++ m.intersection_id ∷ []
      else is)

  unfoldable pub intersections_of :
      List String → List LineIntersectionMovement → List String → List String
  unfolding add_intersections
  intersections_of [] movements is = is
  intersections_of (id ∷ ids) movements is =
      intersections_of ids movements (add_intersections id movements is)

  abbrev pub effective_resource : String → Option (DispatchDecision F) → String
  effective_resource id none = id
  effective_resource id (some d) = if id == "" then d.corridor_resource_id else id

  abbrev pub effective_intersections :
      RailwayDispatchService F → List String → Option (DispatchDecision F) → List String
  effective_intersections s is none = is
  effective_intersections s is (some d) =
      if is_nil is
      then intersections_of d.reserved_intersection_movement_ids s.topology.analysis.movements []
      else is

  unfoldable pub clear_intersections :
      String → ℕ → List String → DispatchManager F × Bool → DispatchManager F × Bool
  clear_intersections train_id now [] r = r
  clear_intersections train_id now (i ∷ is) (m, changed) =
      let (m', done) = mark_intersection_cleared F m i train_id now in
      clear_intersections train_id now is (m', done || changed)

  unfoldable pub settle_cleared :
      RailwayDispatchService F → String → String → List String → ℕ → RailwayDispatchService F × Bool
  unfolding clear_intersections
  settle_cleared s train_id id is now =
      let exited =
        if id == ""
        then (s.dispatch_manager, false)
        else mark_corridor_exited F s.dispatch_manager id in
      let (m, changed) = clear_intersections train_id now is exited in
      let told = record s { dispatch_manager = m } in
      if changed
      then (
        record told {
          train_monitor = (Monitor.set_phase F s.train_monitor train_id monitored "").0;
          waiting = forget_train s.waiting train_id;
          active_by_train = erase train_id s.active_by_train;
        },
        true,
      )
      else (told, false)

  -- Only the passage of a command that is known is stored.
  abbrev pub cleared_answer :
      DispatchPersistence F
      → RailwayDispatchService F
      → Option (DispatchDecision F)
      → List String
      → ℕ
      → ℕ
      → Option Answer
  cleared_answer p s none is now event_wall = none
  cleared_answer p s (some d) is now event_wall =
      if s.persistence_enabled then some (p.persist_resource_cleared d is now event_wall) else none

  unfoldable pub mark_cleared :
      DispatchPersistence F
      → RailwayDispatchService F
      → String
      → String
      → List String
      → ℕ
      → ℕ
      → RailwayDispatchService F × Bool
  unfolding settle_cleared settle_stored intersections_of
  mark_cleared p s train_id id is now event_wall =
      let active = lookup train_id s.active_by_train in
      let resource = effective_resource id active in
      let intersections = effective_intersections s is active in
      settle_stored F (cleared_answer p s active intersections now event_wall) s
        (λ s'. settle_cleared s' train_id resource intersections now)
