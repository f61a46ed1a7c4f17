-- ===== src/Service.antt =====
-- server/src/RailwayDispatchService.cpp and its header: the one state that all workers share. The
-- service's mutex makes each method one step. The analysis of the routes is a parameter, as in
-- Topology, `distance` stands for `distanceToEntry`, which Approach models, and the data layer is
-- what it answers to a call.
pub mod Same
pub mod Rebuilding
pub mod Cleanup
pub mod Cycle
pub mod Uploading
pub mod Answering
pub mod Leaving
pub mod Recovery
pub mod Idle
pub mod Backing
pub mod Safety
pub mod Acks
pub mod Exposure
pub mod Revoking
pub mod Storing
pub mod Clears
pub mod Uploads
pub mod Restoring
pub mod Restarts
pub mod Histories
mod Tests
use multi_agent_route_planni.Base.{
  ℕ, ◌-◌, String, Bool, true, false, not, ◌&&◌, ◌||◌, Option, none, some, List, [], ◌∷◌, map,
  if◌then◌else◌, ◌==◌, nat_eq, string_eq, leb, Result, ok, fail, length, sort_by, is_lt,
  compare_text, Map, lookup,
}
use multi_agent_route_planni.Base.Floats.{Floats}
use multi_agent_route_planni.Analysis.{LineRoute}
use multi_agent_route_planni.Dispatch.{DispatchDecision}
use multi_agent_route_planni.Monitor as Monitor
use multi_agent_route_planni.Monitor.{MonitoredTrain, Trains}
use multi_agent_route_planni.Manager.{DispatchManagerConfig, DispatchManager, manager}
use multi_agent_route_planni.Topology as Topology
use multi_agent_route_planni.Topology.{
  LineTopologyRegistry, LineTopologySnapshot, LineTopologySummary, registry, summary,
}
use multi_agent_route_planni.Planner.{AffectedLinePlannerConfig, RollingPlanResult, planner}
use multi_agent_route_planni.Candidates.{DispatchCandidateBuilderConfig, Waiting, builder}

-- `route_analysis` is the text of the analysis' tolerances.
pub record RailwayDispatchServiceConfig (F : Floats) : Type 0 where
  pub dispatch : DispatchManagerConfig F
  pub route_analysis : String
  pub candidate_builder : DispatchCandidateBuilderConfig F
  pub rolling_planner : AffectedLinePlannerConfig F
  pub train_stale_wall_ms : ℕ

pub record RouteUploadResult : Type 0 where
  pub route_count : ℕ
  pub corridor_count : ℕ
  pub intersection_count : ℕ
  pub persistence_ok : Bool
  pub persistence_error : String

pub record RailwayRuntimeStatus : Type 0 where
  pub topology : LineTopologySummary
  pub train_count : ℕ
  pub last_train_snapshot_wall_ms : ℕ
  pub train_snapshot_age_ms : ℕ
  pub telemetry_connected : Bool

pub record DispatchRecoveryState (F : Floats) : Type 0 where
  pub topology_revision : ℕ
  pub next_command_sequence : ℕ
  pub routes : List (LineRoute F)
  pub pending_commands : List (DispatchDecision F)
  pub active_commands : List (DispatchDecision F)

-- What a method of the data layer answers: whether it stored, and the text that it leaves.
pub data Answer : Type 0 where
  stored refused : String → Answer

abbrev pub persisted : Answer → Bool
persisted (stored error) = true
persisted (refused error) = false

abbrev pub error_text : Answer → String
error_text (stored error) = error
error_text (refused error) = error

-- The data layer, as it answers one call of the service.
pub record DispatchPersistence (F : Floats) : Type 0 where
  pub load_recovery_state : Result (DispatchRecoveryState F)
  pub persist_topology : LineTopologySnapshot F → ℕ → Answer
  pub persist_dispatch_cycle :
      List (MonitoredTrain F) → RollingPlanResult F → List (DispatchDecision F) → ℕ → ℕ → ℕ → Answer
  pub persist_command_ack : DispatchDecision F → Bool → ℕ → ℕ → Answer
  pub persist_resource_cleared : DispatchDecision F → List String → ℕ → ℕ → Answer

-- `persistence_enabled`: the pointer to the data layer is set.
pub record RailwayDispatchService (F : Floats) : Type 0 where
  pub config : RailwayDispatchServiceConfig F
  pub train_monitor : Trains F
  pub topology : LineTopologyRegistry F
  pub waiting : Waiting
  pub dispatch_manager : DispatchManager F
  pub commands_by_train : Map String (DispatchDecision F)
  pub active_by_train : Map String (DispatchDecision F)
  pub rolling_plan_result : RollingPlanResult F
  pub last_train_snapshot_wall_ms : ℕ
  pub next_command_id : ℕ
  pub persistence_enabled : Bool
  pub persistence_healthy : Bool
  pub persistence_error : String

module _ (F : Floats) where
  abbrev pub no_plan : RollingPlanResult F
  no_plan = record { plans_by_resource = []; by_train_resource = [] }

  -- The service's state under a configuration whose parts are built.
  abbrev pub fresh_service :
      RailwayDispatchServiceConfig F → DispatchManager F → Bool → RailwayDispatchService F
  fresh_service config m enabled = record {
    config = config;
    train_monitor = [];
    topology = registry F config.route_analysis;
    waiting = [];
    dispatch_manager = m;
    commands_by_train = [];
    active_by_train = [];
    rolling_plan_result = no_plan;
    last_train_snapshot_wall_ms = 0;
    next_command_id = 1;
    persistence_enabled = enabled;
    persistence_healthy = true;
    persistence_error = "";
  }

  -- `configure`, with the constructors that it calls; the pointer to the data layer stays.
  unfoldable pub configure :
      RailwayDispatchService F → RailwayDispatchServiceConfig F → Result (RailwayDispatchService F)
  configure s config =
      if config.train_stale_wall_ms == 0
      then fail "train stale timeout must be positive"
      else elim (builder F config.candidate_builder) [
        | fail reason ↦ fail reason
        | ok _ ↦ elim (planner F config.rolling_planner) [
          | fail reason ↦ fail reason
          | ok _ ↦ elim (manager F config.dispatch) [
            | fail reason ↦ fail reason
            | ok m ↦ ok (fresh_service config m s.persistence_enabled)
          ]
        ]
      ]

  -- The answer of the data layer, kept for the health check.
  abbrev pub with_health : RailwayDispatchService F → Answer → RailwayDispatchService F
  with_health s (stored error) = record s { persistence_healthy = true; persistence_error = "" }
  with_health s (refused error) = record s {
    persistence_healthy = false;
    persistence_error = error;
  }

  unfoldable pub persistence_health : RailwayDispatchService F → Bool × String
  persistence_health s = (s.persistence_healthy, s.persistence_error)

  abbrev pub commands_before : DispatchDecision F → DispatchDecision F → Bool
  commands_before a b = is_lt (compare_text a.train_id b.train_id)

  unfoldable pub pending_commands :
      RailwayDispatchService F → Option String → List (DispatchDecision F)
  pending_commands s (some train_id) = elim (lookup train_id s.commands_by_train) [
    | none ↦ []
    | some d ↦ d ∷ []
  ]
  pending_commands s none = sort_by commands_before (map (λ e. e.1) s.commands_by_train)

  unfoldable pub trains : RailwayDispatchService F → List (MonitoredTrain F)
  trains s = Monitor.snapshot F s.train_monitor

  unfoldable pub topology : RailwayDispatchService F → LineTopologySnapshot F
  topology s = Topology.snapshot F s.topology

  unfoldable pub runtime_status : RailwayDispatchService F → ℕ → RailwayRuntimeStatus
  runtime_status s wall_now_ms =
      let last = s.last_train_snapshot_wall_ms in
      let known = not (last == 0) && leb last wall_now_ms in
      record {
        topology = summary F s.topology;
        train_count = length (Monitor.snapshot F s.train_monitor);
        last_train_snapshot_wall_ms = last;
        train_snapshot_age_ms = if known then wall_now_ms - last else 0;
        telemetry_connected = known && leb (wall_now_ms - last) s.config.train_stale_wall_ms;
      }

  unfoldable pub rolling_plan : RailwayDispatchService F → RollingPlanResult F
  rolling_plan s = s.rolling_plan_result
