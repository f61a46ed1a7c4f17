-- ===== src/Service/Safety.antt =====
-- The cycle of server/src/RailwayDispatchService.cpp keeps the commands and the manager in step.
use multi_agent_route_planni.Base.{
  ℕ, String, ◌≡◌, refl, inl, inr, List, [], ◌∷◌, string_eq, Option-cases, Map, lookup,
}
use multi_agent_route_planni.Base.Floats.{Floats}
use multi_agent_route_planni.Analysis.{SharedCorridorDefinition}
use multi_agent_route_planni.Dispatch.{CorridorDirection, DispatchCandidate, DispatchDecision}
use multi_agent_route_planni.Monitor.{remove_stale}
use multi_agent_route_planni.Manager.{DispatchManager, replace_candidates}
use multi_agent_route_planni.Manager.Names.{replace_candidates-IsNamed}
use multi_agent_route_planni.Manager.Steps.{replace_candidates-IsSafe}
use multi_agent_route_planni.Approach.{resource_id}
use multi_agent_route_planni.Candidates.{CandidateBuildResult}
use multi_agent_route_planni.Service.{RailwayDispatchService}
use multi_agent_route_planni.Service.Cleanup.{withdraw, drop_train, drop_trains, cleanup_stale}
use multi_agent_route_planni.Service.Cycle.{replace_direction, replace_all}
use multi_agent_route_planni.Service.Backing.{Sound, IsSound, withdraw-Sound, step-Sound, own_train}

module _ (F : Floats) where
  drop_train-IsSound :
      (s : RailwayDispatchService F) (t : String) → IsSound F s → IsSound F (drop_train F s t)
  unfolding drop_train withdraw
  drop_train-IsSound s t v = elim (Option-cases (lookup t s.commands_by_train)) [
    | inl e ↦ rw (e, withdraw) v
    | inr (d, e) ↦
        rw (e, withdraw)
          (withdraw-Sound F s.commands_by_train s.dispatch_manager t d.corridor_resource_id
            (own_train F s.commands_by_train s.dispatch_manager t d v e) v)
  ]

  drop_trains-IsSound :
      (ids : List String) (s : RailwayDispatchService F)
      → IsSound F s
      → IsSound F (drop_trains F ids s)
  unfolding drop_trains
  drop_trains-IsSound [] s v = v
  drop_trains-IsSound (id ∷ ids) s v =
      drop_trains-IsSound ids (drop_train F s id) (drop_train-IsSound s id v)

  pub cleanup_stale-IsSound :
      (s : RailwayDispatchService F) (wall : ℕ) → IsSound F s → IsSound F (cleanup_stale F s wall)
  unfolding cleanup_stale
  cleanup_stale-IsSound s wall v =
      let (kept, removed) = remove_stale F s.train_monitor wall s.config.train_stale_wall_ms in
      drop_trains-IsSound removed (record s { train_monitor = kept }) v

  replace_candidates-pending :
      (m : DispatchManager F) (id : String) (cs : List (DispatchCandidate F)) (wall : ℕ)
      → (replace_candidates F m id cs wall).0.pending_decisions ≡ m.pending_decisions
  unfolding replace_candidates
  replace_candidates-pending m id cs wall = elim (Option-cases (lookup id m.corridors)) [
    | inl e ↦ rw (e, replace_candidates) refl
    | inr (c, e) ↦ rw (e, replace_candidates) refl
  ]

  replace_direction-Sound :
      (built : CandidateBuildResult F) (wall : ℕ) (id : String)
      (cmds : Map String (DispatchDecision F)) (m : DispatchManager F)
      → Sound F cmds m
      → Sound F cmds (replace_direction F built wall id m)
  unfolding replace_direction
  replace_direction-Sound built wall id cmds m v =
      step-Sound F cmds m _ (replace_candidates-IsSafe F m v.safe id _ wall)
        (replace_candidates-IsNamed F m id _ wall v.named) (replace_candidates-pending m id _ wall)
        v

  pub replace_all-Sound :
      (built : CandidateBuildResult F) (wall : ℕ) (corridors : List (SharedCorridorDefinition F))
      (cmds : Map String (DispatchDecision F)) (m : DispatchManager F)
      → Sound F cmds m
      → Sound F cmds (replace_all F built wall corridors m)
  unfolding replace_all
  replace_all-Sound built wall [] cmds m v = v
  replace_all-Sound built wall (c ∷ cs) cmds m v = replace_all-Sound built wall cs cmds _ (
      replace_direction-Sound built wall (resource_id c.corridor_id CorridorDirection.reverse) cmds
        _
        (replace_direction-Sound built wall (resource_id c.corridor_id CorridorDirection.forward)
          cmds m v))
