-- ===== src/Candidates.antt =====
-- server/src/DispatchCandidateBuilder.cpp and its header: which trains compete for a direction, and
-- since when each has waited for it. The distance to an entrance is a parameter: it stands for
-- `distanceToEntry`, which Approach models. The mutex makes each method one step.
pub mod Nearest
pub mod Offers
pub mod Active
pub mod Waits
pub mod Phases
mod Tests
use multi_agent_route_planni.Base.{
  ℕ, String, concat, Bool, true, false, not, ◌&&◌, ◌||◌, Option, none, some, List, [], ◌∷◌, ◌++◌,
  map, if◌then◌else◌, ◌==◌, nat_eq, string_eq, ltb, leb, u64_max, Result, ok, fail, contains,
  remove_if, starts_with, Map, lookup, insert, erase_if, value_or,
}
use multi_agent_route_planni.Base.Floats.{Floats, double_le}
use multi_agent_route_planni.Analysis.{LineRoute}
use multi_agent_route_planni.Dispatch.{DispatchCandidate}
use multi_agent_route_planni.Monitor.{
  RouteTravelDirection, TrainDispatchPhase, monitored, approaching, waiting_permission,
  TrainTelemetry, MonitoredTrain, is_bound,
}
use multi_agent_route_planni.Topology.{
  CorridorTraversal, IntersectionTraversal, LineTopologyRegistry, push_back, route,
  corridors_for_line, intersections_for_line,
}
use multi_agent_route_planni.Approach.{resource_id, composite_key, direction_for}
use multi_agent_route_planni.Planner.{PlannedTrainArrival, RollingPlanResult, find}

pub record DispatchCandidateBuilderConfig (F : Floats) : Type 0 where
  pub approach_distance : F.Double
  pub control_point_distance : F.Double

pub record CandidateBuildResult (F : Floats) : Type 0 where
  pub candidates_by_resource : Map String (List (DispatchCandidate F))
  pub phase_by_train : Map String TrainDispatchPhase

pub record WaitingRecord : Type 0 where
  pub arrived_at_simulation_ms : ℕ
  pub last_seen_wall_ms : ℕ

abbrev pub Waiting : Type 0
Waiting = Map String WaitingRecord

abbrev pub no_record : WaitingRecord
no_record = record { arrived_at_simulation_ms = 0; last_seen_wall_ms = 0 }

-- The wait begins when there is none, or when the game's time has gone back.
unfoldable pub arrive : ℕ → ℕ → WaitingRecord → WaitingRecord
arrive now wall w = record {
  arrived_at_simulation_ms =
      if w.arrived_at_simulation_ms == 0 || ltb now w.arrived_at_simulation_ms
      then now
      else w.arrived_at_simulation_ms;
  last_seen_wall_ms = wall;
}

unfoldable pub forget_train : Waiting → String → Waiting
forget_train waiting train_id = erase_if (λ key w. starts_with key (concat train_id "\n")) waiting

unfoldable pub clear : Waiting → Waiting
clear waiting = []

unfoldable pub lies_ahead : RouteTravelDirection → ℕ → ℕ → ℕ → IntersectionTraversal → Bool
lies_ahead RouteTravelDirection.forward at low high i =
    leb at i.segment_index && leb i.segment_index high
lies_ahead RouteTravelDirection.reverse at low high i =
    leb i.segment_index at && leb low i.segment_index

module _ (F : Floats) where
  open F use {Double, decimal, infinity, is_finite}

  -- The constructor, which throws `std::invalid_argument`.
  unfoldable pub builder :
      DispatchCandidateBuilderConfig F → Result (DispatchCandidateBuilderConfig F)
  builder config =
      if not (is_finite config.approach_distance)
        || not (is_finite config.control_point_distance)
        || double_le F config.approach_distance (decimal 0 0)
        || F.ltb config.control_point_distance (decimal 0 0)
        || F.ltb config.approach_distance config.control_point_distance
      then fail "invalid dispatch candidate distances"
      else ok config

  -- The variables of `build`'s loop over the trains.
  pub record Building : Type 0 where
    pub result : CandidateBuildResult F
    pub active : List String
    pub waiting : Waiting

  abbrev pub set_phase : String → TrainDispatchPhase → Building → Building
  set_phase train_id phase b = record b {
    result = record b.result { phase_by_train = insert train_id phase b.result.phase_by_train };
  }

  abbrev pub with_plan : Option (PlannedTrainArrival F) → DispatchCandidate F → DispatchCandidate F
  with_plan none c = c
  with_plan (some p) c = record c {
    predicted_arrival_simulation_ms = p.estimated_arrival_simulation_ms;
    rolling_plan_rank = p.suggested_rank;
    global_plan_priority = p.global_priority;
  }

  abbrev pub planned_for :
      Option (RollingPlanResult F) → String → String → Option (PlannedTrainArrival F)
  planned_for none train_id resource = none
  planned_for (some plan) train_id resource = find F plan train_id resource

  abbrev pub resource_of : CorridorTraversal F → TrainTelemetry F → String
  resource_of t train =
      resource_id t.corridor_id (direction_for t.direction_relation train.travel_direction)

  abbrev pub movements_ahead :
      CorridorTraversal F → TrainTelemetry F → List IntersectionTraversal → List String
  movements_ahead t train is =
      map (λ i. i.movement_id)
        (remove_if
          (λ i.
            not
              (lies_ahead train.travel_direction train.route_index t.low_segment t.high_segment i))
          is)

  -- The candidate that a train before a corridor is, with the time at which its wait began.
  unfoldable pub candidate :
      Option (RollingPlanResult F)
      → List IntersectionTraversal
      → CorridorTraversal F
      → TrainTelemetry F
      → ℕ
      → DispatchCandidate F
  candidate plan is t train arrived =
      with_plan (planned_for plan train.train_id (resource_of t train)) (record {
        train_id = train.train_id;
        line_id = train.line_id;
        corridor_direction = direction_for t.direction_relation train.travel_direction;
        corridor_resource_id = resource_of t train;
        required_intersection_movement_ids = movements_ahead t train is;
        route_index = train.route_index;
        route_position = train.route_position;
        arrived_at_simulation_ms = arrived;
        received_at_wall_ms = train.received_at_wall_ms;
        predicted_arrival_simulation_ms = 0;
        rolling_plan_rank = u64_max;
        global_plan_priority = decimal 0 0;
      })

  abbrev pub key_of : CorridorTraversal F → TrainTelemetry F → String
  key_of t train = composite_key train.train_id (resource_of t train)

  abbrev pub waits_since : Waiting → CorridorTraversal F → TrainTelemetry F → WaitingRecord
  waits_since waiting t train =
      arrive train.simulation_time_ms train.received_at_wall_ms
        (value_or no_record (key_of t train) waiting)

  -- A train within the control distance becomes a candidate.
  unfoldable pub offer :
      Option (RollingPlanResult F)
      → List IntersectionTraversal
      → CorridorTraversal F
      → TrainTelemetry F
      → Building
      → Building
  unfolding push_back candidate
  offer plan is t train b =
      let since = waits_since b.waiting t train in
      record {
        result = record {
          candidates_by_resource =
              push_back (resource_of t train)
                (candidate plan is t train since.arrived_at_simulation_ms)
                b.result.candidates_by_resource;
          phase_by_train = insert train.train_id waiting_permission b.result.phase_by_train;
        };
        active = key_of t train ∷ b.active;
        waiting = insert (key_of t train) since b.waiting;
      }

  module _ (distance : LineRoute F → CorridorTraversal F → TrainTelemetry F → Option Double)
      (config : DispatchCandidateBuilderConfig F) where
    -- The entrance that is nearest so far, and its distance.
    abbrev pub nearer :
        CorridorTraversal F
        → Option Double
        → Option (CorridorTraversal F) × Double
        → Option (CorridorTraversal F) × Double
    nearer t none (best, d) = (best, d)
    nearer t (some x) (best, d) =
        if double_le F x config.approach_distance && F.ltb x d then (some t, x) else (best, d)

    unfoldable pub nearest_from :
        LineRoute F
        → TrainTelemetry F
        → List (CorridorTraversal F)
        → Option (CorridorTraversal F) × Double
        → Option (CorridorTraversal F) × Double
    nearest_from line train [] best = best
    nearest_from line train (t ∷ ts) best =
        nearest_from line train ts (nearer t (distance line t train) best)

    unfoldable pub nearest :
        LineRoute F
        → TrainTelemetry F
        → List (CorridorTraversal F)
        → Option (CorridorTraversal F) × Double
    unfolding nearest_from
    nearest line train ts = nearest_from line train ts (none, infinity)

    unfoldable pub approach :
        Option (RollingPlanResult F)
        → List IntersectionTraversal
        → TrainTelemetry F
        → Option (CorridorTraversal F) × Double
        → Building
        → Building
    unfolding offer
    approach plan is train (none, d) b = b
    approach plan is train (some t, d) b =
        if F.ltb config.control_point_distance d
        then set_phase train.train_id approaching b
        else offer plan is t train (set_phase train.train_id approaching b)

    -- A train that no command or passage binds.
    unfoldable pub consider :
        Option (RollingPlanResult F)
        → LineTopologyRegistry F
        → TrainTelemetry F
        → Building
        → Building
    unfolding nearest approach
    consider plan topology train b = elim (route F topology train.line_id) [
      | none ↦ b
      | some line ↦
          approach plan (intersections_for_line F topology train.line_id) train
            (nearest line train (corridors_for_line F topology train.line_id)) b
    ]

    -- One round of the loop.
    unfoldable pub visit :
        Option (RollingPlanResult F)
        → LineTopologyRegistry F
        → MonitoredTrain F
        → Building
        → Building
    unfolding consider
    visit plan topology m b =
        let seen = set_phase m.telemetry.train_id monitored b in
        if is_bound m.phase
        then set_phase m.telemetry.train_id m.phase seen
        else consider plan topology m.telemetry seen

    unfoldable pub visit_all :
        Option (RollingPlanResult F)
        → LineTopologyRegistry F
        → List (MonitoredTrain F)
        → Building
        → Building
    unfolding visit
    visit_all plan topology [] b = b
    visit_all plan topology (m ∷ ms) b = visit_all plan topology ms (visit plan topology m b)

    abbrev pub begin : Waiting → Building
    begin waiting = record {
      result = record { candidates_by_resource = []; phase_by_train = [] };
      active = [];
      waiting = waiting;
    }

    abbrev pub keep_active : Building → Waiting
    keep_active b = erase_if (λ key w. not (contains b.active key)) b.waiting

    unfoldable pub build :
        Waiting
        → List (MonitoredTrain F)
        → LineTopologyRegistry F
        → Option (RollingPlanResult F)
        → Waiting × CandidateBuildResult F
    unfolding visit_all
    build waiting trains topology plan =
        let b = visit_all plan topology trains (begin waiting) in (keep_active b, b.result)
