-- ===== src/Service/Cycle.antt =====
-- One cycle of server/src/RailwayDispatchService.cpp: the batch of telemetry, the plan, the
-- candidates, and the commands. `none` is an exception.
use multi_agent_route_planni.Base.{
  ℕ, zero, suc, ◌+◌, ◌/◌, ◌%◌, String, concat, Bool, true, false, not, ◌&&◌, Option, none, some,
  List, [], ◌∷◌, ◌++◌, if◌then◌else◌, ◌==◌, nat_eq, string_eq, ltb, u64, length, get_elem?, Map,
  lookup, insert, erase,
}
use multi_agent_route_planni.Base.Floats.{Floats}
use multi_agent_route_planni.Analysis.{LineRoute, SharedCorridorMember, SharedCorridorDefinition}
use multi_agent_route_planni.Dispatch.{CorridorDirection, DispatchCandidate, DispatchDecision}
use multi_agent_route_planni.Monitor as Monitor
use multi_agent_route_planni.Monitor.{
  TrainDispatchPhase, release_pending, TrainTelemetry, MonitoredTrain, Trains,
  TrainBatchUpdateResult, upsert_batch,
}
use multi_agent_route_planni.Manager.{DispatchManager, replace_candidates}
use multi_agent_route_planni.Manager.Planning.{plan_next, is_release}
use multi_agent_route_planni.Manager.Answers.{cancel_pending}
use multi_agent_route_planni.Topology.{CorridorTraversal}
use multi_agent_route_planni.Approach.{resource_id, is_forward}
use multi_agent_route_planni.Planner.Planning.{plan}
use multi_agent_route_planni.Candidates.{CandidateBuildResult, build}
use multi_agent_route_planni.Service.{
  Answer, stored, refused, DispatchPersistence, RailwayDispatchService, with_health,
}
use multi_agent_route_planni.Service.Cleanup.{cleanup_stale}

abbrev digits : List String
digits = "0" ∷ "1" ∷ "2" ∷ "3" ∷ "4" ∷ "5" ∷ "6" ∷ "7" ∷ "8" ∷ "9" ∷ []

abbrev text_or : String → Option String → String
text_or d none = d
text_or d (some t) = t

-- `std::to_string`, on as many digits as the fuel allows; a number has fewer digits than its value
-- and one.
unfoldable pub to_text : ℕ → ℕ → String
to_text zero n = ""
to_text (suc fuel) n =
    let last = text_or "" (get_elem? digits (n % 10)) in
    let rest = to_text fuel (n / 10) in if ltb n 10 then last else concat rest last

unfoldable pub command_name : ℕ → String
unfolding to_text
command_name n = concat "CMD:" (to_text (suc n) n)

module _ (F : Floats) where
  abbrev pub at_resource : Option (List (DispatchCandidate F)) → List (DispatchCandidate F)
  at_resource none = []
  at_resource (some cs) = cs

  -- Every direction gets its candidates, none included.
  unfoldable pub replace_direction :
      CandidateBuildResult F → ℕ → String → DispatchManager F → DispatchManager F
  replace_direction built wall id m =
      (replace_candidates F m id (at_resource (lookup id built.candidates_by_resource)) wall).0

  unfoldable pub replace_all :
      CandidateBuildResult F
      → ℕ
      → List (SharedCorridorDefinition F)
      → DispatchManager F
      → DispatchManager F
  unfolding replace_direction
  replace_all built wall [] m = m
  replace_all built wall (c ∷ cs) m = replace_all built wall cs (
      replace_direction built wall (resource_id c.corridor_id CorridorDirection.reverse)
        (replace_direction built wall (resource_id c.corridor_id CorridorDirection.forward) m))

  unfoldable pub set_phases : Map String TrainDispatchPhase → Trains F → Trains F
  set_phases [] trains = trains
  set_phases ((id, phase) ∷ ps) trains = set_phases ps (Monitor.set_phase F trains id phase "").0

  abbrev pub with_bounds : Bool → SharedCorridorMember F → DispatchDecision F → DispatchDecision F
  with_bounds increasing x d = record d {
    entry_route_index = if increasing then x.start_segment else x.end_segment;
    exit_route_index = if increasing then x.end_segment else x.start_segment;
    entry_route_position = if increasing then x.start_position else x.end_position;
    exit_route_position = if increasing then x.end_position else x.start_position;
    has_route_bounds = true;
  }

  -- The bounds are those of the first member of the train's line.
  unfoldable pub bound_by :
      Bool → List (SharedCorridorMember F) → DispatchDecision F → DispatchDecision F
  bound_by increasing [] d = d
  bound_by increasing (x ∷ xs) d =
      if x.line_id == d.line_id then with_bounds increasing x d else bound_by increasing xs d

  abbrev pub bounds_for :
      Option (MonitoredTrain F)
      → List (SharedCorridorMember F)
      → DispatchDecision F
      → DispatchDecision F
  bounds_for none members d = d
  bounds_for (some m) members d = bound_by (is_forward m.telemetry.travel_direction) members d

  -- The command as the game sees it.
  unfoldable pub stamp :
      RailwayDispatchService F
      → ℕ
      → SharedCorridorDefinition F
      → DispatchDecision F
      → DispatchDecision F
  unfolding command_name bound_by
  stamp s now corridor d =
      bounds_for (Monitor.get F s.train_monitor d.train_id) corridor.members (record d {
        command_id = command_name s.next_command_id;
        topology_revision = s.topology.revision;
        issued_at_simulation_ms = now;
      })

  abbrev pub Cycle : Type 0
  Cycle = RailwayDispatchService F × List (DispatchDecision F)

  unfoldable pub publish :
      ℕ → SharedCorridorDefinition F → String → DispatchDecision F → Cycle → Cycle
  unfolding stamp
  publish now corridor id d (s, issued) =
      let command = stamp s now corridor d in
      (
        record s {
          commands_by_train = insert command.train_id command s.commands_by_train;
          next_command_id = u64 (s.next_command_id + 1);
          train_monitor =
              (Monitor.set_phase F s.train_monitor command.train_id release_pending id).0;
        },
        issued ++ command ∷ [],
      )

  abbrev pub has_command : RailwayDispatchService F → String → Bool
  has_command s train_id = elim (lookup train_id s.commands_by_train) [
    | none ↦ false
    | some d ↦ true
  ]

  -- One direction of the second loop.
  unfoldable pub decide_direction :
      ℕ → ℕ → SharedCorridorDefinition F → CorridorDirection → Cycle → Option Cycle
  unfolding publish
  decide_direction now wall corridor direction (s, issued) =
      let id = resource_id corridor.corridor_id direction in
      elim (plan_next F s.dispatch_manager id now wall) [
        | none ↦ none
        | some (m, d) ↦
            let planned = record s { dispatch_manager = m } in
            if is_release d.action && not (has_command s d.train_id)
            then some (publish now corridor id d (planned, issued))
            else some (planned, issued)
      ]

  unfoldable pub decide_all : ℕ → ℕ → List (SharedCorridorDefinition F) → Cycle → Option Cycle
  unfolding decide_direction
  decide_all now wall [] c = some c
  decide_all now wall (x ∷ xs) c = elim (decide_direction now wall x CorridorDirection.forward c) [
    | none ↦ none
    | some c' ↦ elim (decide_direction now wall x CorridorDirection.reverse c') [
      | none ↦ none
      | some c'' ↦ decide_all now wall xs c''
    ]
  ]

  -- A command that is not stored is not shown: the direction is open again.
  unfoldable pub revoke :
      List (DispatchDecision F) → RailwayDispatchService F → RailwayDispatchService F
  revoke [] s = s
  revoke (d ∷ ds) s = revoke ds (record s {
    dispatch_manager = (cancel_pending F s.dispatch_manager d.corridor_resource_id).0;
    commands_by_train = erase d.train_id s.commands_by_train;
  })

  -- What the data layer makes of the cycle.
  unfoldable pub settle_cycle :
      Answer → TrainBatchUpdateResult → Cycle → RailwayDispatchService F × TrainBatchUpdateResult
  unfolding revoke
  settle_cycle (stored error) r (s, issued) = (
    with_health F s (stored error),
    record r { persistence_ok = true; persistence_error = error },
  )
  settle_cycle (refused error) r (s, issued) = (
    revoke issued (with_health F s (refused error)),
    record r { issued_commands = 0; persistence_ok = false; persistence_error = error },
  )

  unfoldable pub store_cycle :
      DispatchPersistence F
      → ℕ
      → ℕ
      → TrainBatchUpdateResult
      → Cycle
      → RailwayDispatchService F × TrainBatchUpdateResult
  unfolding settle_cycle
  store_cycle p now wall r (s, issued) =
      let counted = record r { issued_commands = length issued } in
      if not s.persistence_enabled
      then (s, counted)
      else settle_cycle
          (p.persist_dispatch_cycle (Monitor.snapshot F s.train_monitor) s.rolling_plan_result
            issued s.topology.revision now wall)
          counted (s, issued)

  module _ (distance : LineRoute F → CorridorTraversal F → TrainTelemetry F → Option F.Double) where
    -- Before any direction is decided: the plan, the candidates and the phases are new.
    unfoldable pub refreshed : RailwayDispatchService F → ℕ → ℕ → RailwayDispatchService F
    unfolding replace_all set_phases
    refreshed s now wall =
        let seen = Monitor.snapshot F s.train_monitor in
        let rolling = plan F s.config.rolling_planner now distance seen s.topology in
        let (waiting, built) =
          build F distance s.config.candidate_builder s.waiting seen s.topology (some rolling) in
        record s {
          rolling_plan_result = rolling;
          waiting = waiting;
          dispatch_manager =
              replace_all built wall s.topology.analysis.shared_corridors s.dispatch_manager;
          train_monitor = set_phases built.phase_by_train s.train_monitor;
        }

    -- `refreshCandidatesAndPlanLocked`.
    unfoldable pub refresh : RailwayDispatchService F → ℕ → ℕ → Option Cycle
    unfolding refreshed decide_all
    refresh s now wall =
        let ready = refreshed s now wall in
        decide_all now wall ready.topology.analysis.shared_corridors (ready, [])

    unfoldable pub update_trains :
        DispatchPersistence F
        → RailwayDispatchService F
        → List (TrainTelemetry F)
        → ℕ
        → ℕ
        → Option (RailwayDispatchService F × TrainBatchUpdateResult)
    unfolding refresh store_cycle
    update_trains p s batch now wall =
        let (trains, r) = upsert_batch F s.train_monitor batch in
        let told = record s { last_train_snapshot_wall_ms = wall; train_monitor = trains } in
        elim (refresh (cleanup_stale F told wall) now wall) [
          | none ↦ none
          | some c ↦ some (store_cycle p now wall r c)
        ]
