-- ===== src/Service/Tests.antt =====
-- Two lines that share a corridor, and a train that waits for it, before
-- server/src/RailwayDispatchService.cpp, in thousandths.
use multi_agent_route_planni.Base.{
  ℕ, String, ◌≡◌, ◌⊎◌, refl, true, false, some, List, [], ◌∷◌, string_eq, nat_eq, Option, Result,
  ok, any_of, remove_if, sort_by, keep_some, lookup, insert, value_or, emplace, erase, none, map,
}
use multi_agent_route_planni.Base.Floats.{thousandths, double_min, double_max}
use multi_agent_route_planni.Analysis.{
  RouteDirectionRelation, LineRoutePoint, LineRoute, SharedCorridorMember, LineTopologyAnalysis,
}
use multi_agent_route_planni.Dispatch.{default_config, default_decision, default_line}
use multi_agent_route_planni.Monitor.{
  RouteTravelDirection, TrainTelemetry, TrainBatchUpdateResult, valid_telemetry, store, upsert,
  upsert_batch, get, set_phase, is_stale, stale_ids, remove_stale,
}
use multi_agent_route_planni.Policy.Constraints.{
  policy, hard_constraint, is_consistent, feasible_line,
}
use multi_agent_route_planni.Manager.{
  DispatchManager, fresh_manager, manager, upsert_corridor, upsert_line_state, replace_candidates,
  credited, update_fairness_credits, mark_corridor_exited,
}
use multi_agent_route_planni.Topology.{
  CorridorTraversal, index_intersections, is_valid_route, is_invalid_point, collect_routes,
  corridor_traversal, index_corridors, registry, route, corridors_for_line, intersections_for_line,
}
use multi_agent_route_planni.Planner.{
  planner, add_saturated, find, travel_ms, arrival, distribution_need, next_of_line,
}
use multi_agent_route_planni.Candidates.{builder, arrive, build}
use multi_agent_route_planni.Service.{
  Answer, stored, refused, DispatchPersistence, DispatchRecoveryState, RailwayDispatchService,
  RailwayDispatchServiceConfig, RouteUploadResult, fresh_service, configure, pending_commands,
}
use multi_agent_route_planni.Service.Cycle.{Cycle, refresh, update_trains}
use multi_agent_route_planni.Service.Uploading.{replace_routes}
use multi_agent_route_planni.Service.Leaving.{mark_cleared}
use multi_agent_route_planni.Service.Answering.{acknowledge}
use multi_agent_route_planni.Service.Recovery.{enable_persistence}
use multi_agent_route_planni.Service.Backing.{IsSound}
use multi_agent_route_planni.Service.Storing.{Outcome, before_cycle, update_trains_lem}
use multi_agent_route_planni.Service.Acks.{IsAnswered, acknowledge_lem}
use multi_agent_route_planni.Service.Uploads.{IsLeft, IsReplaced, replace_routes_answers}
use multi_agent_route_planni.Service.Restoring.{Ends}
use multi_agent_route_planni.Service.Restarts.{Begins, IsEmpty, enable_persistence_lem}
use multi_agent_route_planni.Service.Histories.{
  Reach, configured, then_, uploads, updates, acknowledges, clears, configure-IsEmpty,
  Reach-IsSound,
}
use multi_agent_route_planni.Approach.{resource_id, direction_for}
use multi_agent_route_planni.Manager.Answers.{entered, confirm_entry}
use multi_agent_route_planni.Manager.Planning.{
  opposing_reason, prepare, opposed, context_for, issue, plan_next,
}
use multi_agent_route_planni.Planner.Planning.{plan}
use multi_agent_route_planni.Policy.Decision.{scores_higher, select, release_decision, decide}
use multi_agent_route_planni.Policy.Scoring.{waiting, score_candidate, scored}
use multi_agent_route_planni.Reservation.{
  collect, requested_conflict, check_all, can_reserve, reserve_all, try_reserve_atomically,
}
use multi_agent_route_planni.Service.Cleanup.{cleanup_stale}
use multi_agent_route_planni.Service.Rebuilding.{rebuild}
use multi_agent_route_planni.Monitor as Monitor
use multi_agent_route_planni.Policy.Decision as Decision
use multi_agent_route_planni.Topology as Topology

abbrev point : ℕ → LineRoutePoint thousandths
point x = record { point_id = ""; x = x; y = 0; z = 0; track_segment_id = "" }

abbrev line : String → LineRoute thousandths
line id = record {
  line_id = id;
  line_name = "";
  transport_type = "train";
  geometry_source = "unknown";
  is_loop = false;
  points = point 0 ∷ point 100000 ∷ [];
  target_headway_ms = 15000;
}

abbrev routes : List (LineRoute thousandths)
routes = line "L1" ∷ line "L2" ∷ []

abbrev member : String → SharedCorridorMember thousandths
member id = record {
  line_id = id;
  start_position = 0;
  end_position = 1000;
  occurrence_id = "0";
  start_segment = 0;
  end_segment = 0;
  direction_relation = RouteDirectionRelation.same;
}

abbrev found : List (LineRoute thousandths) → LineTopologyAnalysis thousandths
found rs = record {
  shared_corridors =
      record {
        corridor_id = "C1";
        start_x = 0;
        start_y = 0;
        start_z = 0;
        end_x = 100000;
        end_y = 0;
        end_z = 0;
        length = 100000;
        geometry = [];
        members = member "L1" ∷ member "L2" ∷ [];
      }
      ∷ [];
  intersections = [];
  movements = [];
}

abbrev distance :
    LineRoute thousandths → CorridorTraversal thousandths → TrainTelemetry thousandths → Option ℕ
distance l t x = some 100000

abbrev train : TrainTelemetry thousandths
train = record {
  train_id = "T1";
  line_id = "L1";
  x = 0;
  y = 0;
  z = 0;
  speed = 10000;
  route_index = 0;
  route_position = 0;
  travel_direction = RouteTravelDirection.forward;
  simulation_time_ms = 50000;
  received_at_wall_ms = 1000;
}

abbrev config : RailwayDispatchServiceConfig thousandths
config = record {
  dispatch = record {
    priority = default_config thousandths;
    default_intersection_clearance_ms = 2000;
    default_corridor_capacity = 8;
  };
  route_analysis = "";
  candidate_builder = record { approach_distance = 2000000; control_point_distance = 1000000 };
  rolling_planner = record {
    planning_horizon_ms = 300000;
    minimum_prediction_speed = 5000;
    reorder_tolerance_ms = 10000;
    planned_minimum_spacing_ms = 5000;
    same_line_consecutive_penalty = 250;
  };
  train_stale_wall_ms = 5000;
}

abbrev built : DispatchManager thousandths
built = fresh_manager thousandths config.dispatch (default_config thousandths)

-- The service with the data layer, before any upload.
abbrev empty : RailwayDispatchService thousandths
empty = fresh_service thousandths config built true

abbrev recovery : DispatchRecoveryState thousandths
recovery = record {
  topology_revision = 7;
  next_command_sequence = 12;
  routes = routes;
  pending_commands =
      record (default_decision thousandths) {
        train_id = "T1";
        corridor_resource_id = "C1:FORWARD";
        topology_revision = 7;
      }
      ∷ [];
  active_commands = [];
}

abbrev answering : Answer → DispatchPersistence thousandths
answering a = record {
  load_recovery_state = ok recovery;
  persist_topology = λ t wall. a;
  persist_dispatch_cycle = λ trains plan issued revision now wall. a;
  persist_command_ack = λ d accepted now wall. a;
  persist_resource_cleared = λ d is now wall. a;
}

abbrev up : DispatchPersistence thousandths
up = answering (stored "")

abbrev down : DispatchPersistence thousandths
down = answering (refused "mysql gone")

empty-configured : configure thousandths empty config ≡ ok empty
unfolding configure builder planner manager policy default_config
empty-configured = refl

empty-managed : manager thousandths config.dispatch ≡ ok built
unfolding manager policy default_config
empty-managed = refl

empty-IsEmpty : IsEmpty thousandths empty
empty-IsEmpty = (configure-IsEmpty thousandths found distance empty config empty-configured).0

empty-IsSound : IsSound thousandths empty
empty-IsSound = Reach-IsSound thousandths found distance (configured empty config empty-configured)

enable_persistence_lem_example :
    Ends thousandths true
      (Begins thousandths found (some up))
      (enable_persistence thousandths found (some up) empty 900)
enable_persistence_lem_example =
    enable_persistence_lem thousandths found (some up) empty 900 empty-managed empty-IsEmpty

replace_routes_answers_example :
    (o : RailwayDispatchService thousandths × Result RouteUploadResult) × (replace_routes
        thousandths found up empty routes 900
      ≡ some o)
    × (IsLeft thousandths found empty routes o ⊎ IsReplaced thousandths found empty routes o)
replace_routes_answers_example =
    replace_routes_answers thousandths found up empty routes 900 empty-managed

abbrev uploaded :
    (o : RailwayDispatchService thousandths × Result RouteUploadResult) × (replace_routes
        thousandths found up empty routes 900
      ≡ some o)
    × (IsLeft thousandths found empty routes o ⊎ IsReplaced thousandths found empty routes o)
uploaded = replace_routes_answers thousandths found up empty routes 900 empty-managed

-- The state in which the train reports itself: the two lines uploaded.
abbrev loaded : RailwayDispatchService thousandths
loaded = uploaded.0.0

loaded-Reach : Reach thousandths found distance loaded
loaded-Reach = then_ (configured empty config empty-configured) (uploads up routes 900 uploaded.1)

loaded-IsSound : IsSound thousandths loaded
loaded-IsSound = Reach-IsSound thousandths found distance loaded-Reach

update_trains_lem_example :
    (o : RailwayDispatchService thousandths × TrainBatchUpdateResult) × (update_trains thousandths
        distance down loaded
        (train ∷ [])
        50000
        1000
      ≡ some o)
    × ((c : Cycle thousandths) × (refresh thousandths distance
            (before_cycle thousandths distance loaded (train ∷ []) 1000)
            50000
            1000
          ≡ some c)
        × Outcome thousandths down 50000 1000
            (before_cycle thousandths distance loaded (train ∷ []) 1000).commands_by_train
            c
            o)
update_trains_lem_example =
    update_trains_lem thousandths distance down loaded (train ∷ []) 50000 1000 loaded-IsSound

-- The train reports itself, and the data layer takes what the cycle decides.
abbrev updated :
    (o : RailwayDispatchService thousandths × TrainBatchUpdateResult) × (update_trains thousandths
        distance up loaded
        (train ∷ [])
        50000
        1000
      ≡ some o)
    × ((c : Cycle thousandths) × (refresh thousandths distance
            (before_cycle thousandths distance loaded (train ∷ []) 1000)
            50000
            1000
          ≡ some c)
        × Outcome thousandths up 50000 1000
            (before_cycle thousandths distance loaded (train ∷ []) 1000).commands_by_train
            c
            o)
updated = update_trains_lem thousandths distance up loaded (train ∷ []) 50000 1000 loaded-IsSound

abbrev commanded : RailwayDispatchService thousandths
commanded = updated.0.0

commanded-Reach : Reach thousandths found distance commanded
commanded-Reach = then_ loaded-Reach (updates up (train ∷ []) 50000 1000 updated.1)

commanded-IsSound : IsSound thousandths commanded
commanded-IsSound = Reach-IsSound thousandths found distance commanded-Reach

acknowledge_lem_example :
    IsAnswered thousandths up commanded "C1:FORWARD" "T1" true 51000 1001 "" commanded-IsSound
      (acknowledge thousandths up commanded "C1:FORWARD" "T1" true 51000 1001 "")
acknowledge_lem_example =
    acknowledge_lem thousandths up commanded "C1:FORWARD" "T1" true 51000 1001 "" commanded-IsSound

abbrev inside : RailwayDispatchService thousandths
inside = (acknowledge thousandths up commanded "C1:FORWARD" "T1" true 51000 1001 "").0

abbrev left_behind : RailwayDispatchService thousandths
left_behind = (mark_cleared thousandths up inside "T1" "C1:FORWARD" [] 60000 1002).0

left_behind-Reach : Reach thousandths found distance left_behind
left_behind-Reach =
    then_ (then_ commanded-Reach (acknowledges up "C1:FORWARD" "T1" true 51000 1001 ""))
      (clears up "T1" "C1:FORWARD" [] 60000 1002)

Reach-IsSound_example : IsSound thousandths left_behind
Reach-IsSound_example = Reach-IsSound thousandths found distance left_behind-Reach

-- A run: the routes are uploaded, the train is let in, says so, and leaves. Where the data layer
-- refuses the cycle, the game sees no command.
abbrev state_of {ℓ} :
    {A : Type ℓ}
    → Option (RailwayDispatchService thousandths × A)
    → RailwayDispatchService thousandths
state_of none = empty
state_of (some o) = o.0

abbrev shown : RailwayDispatchService thousandths → List String
shown s = map (λ d. d.command_id) (pending_commands thousandths s none)

abbrev after_upload : RailwayDispatchService thousandths
after_upload = state_of (replace_routes thousandths found up empty routes 900)

abbrev after_cycle : DispatchPersistence thousandths → RailwayDispatchService thousandths
after_cycle p = state_of (update_trains thousandths distance p after_upload (train ∷ []) 50000 1000)

abbrev after_entry : RailwayDispatchService thousandths
after_entry =
    (acknowledge thousandths up (after_cycle up) "C1:FORWARD" "T1" true 51000 1001 "CMD:1").0

program : Unit {0}
unfolding resource_id direction_for double_min double_max any_of remove_if sort_by keep_some lookup
    insert value_or emplace erase arrive build default_line default_config manager upsert_corridor
    upsert_line_state replace_candidates credited update_fairness_credits mark_corridor_exited
    entered confirm_entry opposing_reason prepare opposed context_for issue plan_next
    valid_telemetry store upsert upsert_batch get Monitor.snapshot set_phase is_stale stale_ids
    remove_stale add_saturated find travel_ms arrival distribution_need next_of_line plan policy
    hard_constraint is_consistent feasible_line scores_higher select release_decision
    Decision.choose decide waiting score_candidate scored collect requested_conflict check_all
    can_reserve reserve_all try_reserve_atomically pending_commands acknowledge cleanup_stale
    update_trains mark_cleared rebuild replace_routes index_intersections is_valid_route
    is_invalid_point collect_routes corridor_traversal index_corridors registry Topology.publish
    route corridors_for_line intersections_for_line Topology.snapshot Topology.replace_routes
program = tt

released : shown (after_cycle up) ≡ "CMD:1" ∷ []
unfolding program
released = refl

withheld : shown (after_cycle down) ≡ []
unfolding program
withheld = refl

under_way : map (λ e. e.0) after_entry.active_by_train ≡ "T1" ∷ []
unfolding program
under_way = refl

gone :
    map (λ e. e.0) (mark_cleared thousandths up after_entry "T1" "" [] 60000 1002).0.active_by_train
    ≡ []
unfolding program
gone = refl
