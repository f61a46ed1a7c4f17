-- ===== src/Service/Recovery.antt =====
-- What server/src/RailwayDispatchService.cpp takes over from the data layer when it starts. `none`
-- is an exception; a failure leaves what was restored until then.
use multi_agent_route_planni.Base.{
  ℕ, max, true, not, Option, none, some, List, [], ◌∷◌, if◌then◌else◌, ◌==◌, nat_eq, string_eq,
  Result, ok, fail, insert,
}
use multi_agent_route_planni.Base.Floats.{Floats}
use multi_agent_route_planni.Analysis.{LineRoute, LineTopologyAnalysis}
use multi_agent_route_planni.Dispatch.{DispatchDecision}
use multi_agent_route_planni.Manager.Answers.{restore_pending, restore_active}
use multi_agent_route_planni.Topology as Topology
use multi_agent_route_planni.Service.{
  DispatchPersistence, DispatchRecoveryState, RailwayDispatchService,
}
use multi_agent_route_planni.Service.Rebuilding.{rebuild}
use multi_agent_route_planni.Service.Uploading.{is_nil}

module _ (F : Floats) where
  abbrev pub Outcome : Type 0
  Outcome = Option (RailwayDispatchService F × Result (Unit {0}))

  -- A command of another topology is refused without a reason.
  unfoldable pub restore_commands :
      ℕ → List (DispatchDecision F) → RailwayDispatchService F → Outcome
  restore_commands revision [] s = some (s, ok tt)
  restore_commands revision (d ∷ ds) s =
      if not (d.topology_revision == revision)
      then some (s, fail "")
      else elim (restore_pending F s.dispatch_manager d) [
        | none ↦ none
        | some (m, fail reason) ↦ some (record s { dispatch_manager = m }, fail reason)
        | some (m, ok _) ↦ restore_commands revision ds (record s {
          dispatch_manager = m;
          commands_by_train = insert d.train_id d s.commands_by_train;
        })
      ]

  unfoldable pub restore_passages :
      ℕ → List (DispatchDecision F) → RailwayDispatchService F → Outcome
  restore_passages revision [] s = some (s, ok tt)
  restore_passages revision (d ∷ ds) s =
      if not (d.topology_revision == revision)
      then some (s, fail "")
      else elim (restore_active F s.dispatch_manager d) [
        | none ↦ none
        | some (m, fail reason) ↦ some (record s { dispatch_manager = m }, fail reason)
        | some (m, ok _) ↦ restore_passages revision ds (record s {
          dispatch_manager = m;
          active_by_train = insert d.train_id d s.active_by_train;
        })
      ]

  abbrev pub enabled : ℕ → RailwayDispatchService F → RailwayDispatchService F
  enabled sequence s = record s {
    next_command_id = max s.next_command_id sequence;
    persistence_enabled = true;
    persistence_healthy = true;
    persistence_error = "";
  }

  -- After the topology: the commands, then the passages.
  unfoldable pub restore_all : DispatchRecoveryState F → RailwayDispatchService F → Outcome
  unfolding restore_commands restore_passages
  restore_all r s = elim (restore_commands r.topology_revision r.pending_commands s) [
    | none ↦ none
    | some (s', fail reason) ↦ some (s', fail reason)
    | some (s', ok _) ↦ elim (restore_passages r.topology_revision r.active_commands s') [
      | none ↦ none
      | some (s'', fail reason) ↦ some (s'', fail reason)
      | some (s'', ok _) ↦ some (enabled r.next_command_sequence s'', ok tt)
    ]
  ]

  module _ (analyze : List (LineRoute F) → LineTopologyAnalysis F) where
    unfoldable pub restore_topology :
        DispatchRecoveryState F → ℕ → RailwayDispatchService F → Outcome
    restore_topology r wall s =
        if is_nil r.routes
        then some (s, ok tt)
        else let (topology, done) =
            Topology.restore_routes F analyze s.topology r.routes r.topology_revision in
          elim done [
            | fail reason ↦ some (record s { topology = topology }, fail reason)
            | ok _ ↦ elim (rebuild F s.config.dispatch (Topology.snapshot F topology) wall) [
              | fail reason ↦ none
              | ok m ↦ some (record s { topology = topology; dispatch_manager = m }, ok tt)
            ]
          ]

    -- `enablePersistence`; `none` in place of the data layer is the null pointer.
    unfoldable pub enable_persistence :
        Option (DispatchPersistence F) → RailwayDispatchService F → ℕ → Outcome
    unfolding restore_topology restore_all
    enable_persistence none s wall = some (s, fail "persistence_is_null")
    enable_persistence (some p) s wall = elim p.load_recovery_state [
      | fail reason ↦ some (s, fail reason)
      | ok r ↦ elim (restore_topology r wall s) [
        | none ↦ none
        | some (s', fail reason) ↦ some (s', fail reason)
        | some (s', ok _) ↦ restore_all r s'
      ]
    ]
