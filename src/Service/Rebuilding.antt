-- ===== src/Service/Rebuilding.antt =====
-- What server/src/RailwayDispatchService.cpp builds from a topology: the two directions of each
-- corridor, what each line is owed there, and the movements at the intersections.
use multi_agent_route_planni.Base.{
  ℕ, String, true, false, Option, none, some, List, [], ◌∷◌, string_eq, Result, ok, fail, Map,
  lookup, insert,
}
use multi_agent_route_planni.Base.Floats.{Floats}
use multi_agent_route_planni.Analysis.{LineRoute, SharedCorridorMember, SharedCorridorDefinition}
use multi_agent_route_planni.Dispatch.{CorridorDirection, SharedCorridorState, default_line}
use multi_agent_route_planni.Reservation.{LineIntersectionMovement}
use multi_agent_route_planni.Manager.{
  DispatchManagerConfig, DispatchManager, manager, register_intersection_movement, upsert_corridor,
  upsert_line_state,
}
use multi_agent_route_planni.Topology.{LineTopologySnapshot}
use multi_agent_route_planni.Approach.{resource_id}

module _ (F : Floats) where
  unfoldable pub register_all :
      List LineIntersectionMovement → DispatchManager F → DispatchManager F
  register_all [] m = m
  register_all (x ∷ xs) m = register_all xs (register_intersection_movement F m x).0

  unfoldable pub headways : List (LineRoute F) → Map String ℕ → Map String ℕ
  headways [] m = m
  headways (r ∷ rs) m = headways rs (insert r.line_id r.target_headway_ms m)

  abbrev pub headway_of : Option ℕ → ℕ
  headway_of none = 15000
  headway_of (some h) = h

  unfoldable pub upsert_members :
      Map String ℕ → String → List (SharedCorridorMember F) → DispatchManager F → DispatchManager F
  upsert_members headway id [] m = m
  upsert_members headway id (x ∷ xs) m = upsert_members headway id xs (
      upsert_line_state F m id x.line_id
        (record (default_line F) { target_headway_ms = headway_of (lookup x.line_id headway) }))

  -- A direction as the topology knows it: no train is in it.
  unfoldable pub new_direction :
      DispatchManagerConfig F → ℕ → String → CorridorDirection → SharedCorridorState F
  new_direction config wall corridor_id direction = record {
    corridor_resource_id = resource_id corridor_id direction;
    corridor_id = corridor_id;
    direction = direction;
    received_at_wall_ms = wall;
    last_entry_simulation_ms = 0;
    minimum_headway_ms = config.priority.default_corridor_minimum_headway_ms;
    occupancy = 0;
    capacity = config.default_corridor_capacity;
    downstream_available = true;
    command_pending = false;
    candidates = [];
  }

  unfoldable pub add_direction :
      DispatchManagerConfig F
      → ℕ
      → Map String ℕ
      → SharedCorridorDefinition F
      → CorridorDirection
      → DispatchManager F
      → DispatchManager F
  unfolding new_direction upsert_members
  add_direction config wall headway c direction m =
      upsert_members headway (resource_id c.corridor_id direction) c.members
        (upsert_corridor F m (new_direction config wall c.corridor_id direction))

  unfoldable pub add_corridors :
      DispatchManagerConfig F
      → ℕ
      → Map String ℕ
      → List (SharedCorridorDefinition F)
      → DispatchManager F
      → DispatchManager F
  unfolding add_direction
  add_corridors config wall headway [] m = m
  add_corridors config wall headway (c ∷ cs) m = add_corridors config wall headway cs (
      add_direction config wall headway c CorridorDirection.reverse
        (add_direction config wall headway c CorridorDirection.forward m))

  -- What is built on a manager that the constructor gives.
  unfoldable pub built_on :
      DispatchManagerConfig F → LineTopologySnapshot F → ℕ → DispatchManager F → DispatchManager F
  unfolding register_all headways add_corridors
  built_on config topology wall m =
      add_corridors config wall (headways topology.routes []) topology.analysis.shared_corridors
        (register_all topology.analysis.movements m)

  -- `rebuildDispatchManagerLocked`, with the constructor's exception.
  unfoldable pub rebuild :
      DispatchManagerConfig F → LineTopologySnapshot F → ℕ → Result (DispatchManager F)
  unfolding built_on
  rebuild config topology wall = elim (manager F config) [
    | fail reason ↦ fail reason
    | ok m ↦ ok (built_on config topology wall m)
  ]
