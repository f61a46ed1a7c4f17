-- ===== src/Candidates/Tests.antt =====
-- Two trains before one corridor, and a third that a command binds, before
-- server/src/DispatchCandidateBuilder.cpp, in thousandths.
use mathlib.Core.List.{Memᴰ}
use multi_agent_route_planni.Base.{
  ℕ, String, ◌≡◌, ◌≢◌, refl, false, none, some, List, [], ◌∷◌, map, arith, lookup, insert,
  string_eq, nat_eq, ◌==◌, value_or, Option, erase_if, contains, remove_if,
}
use multi_agent_route_planni.Base.Floats.{thousandths}
use multi_agent_route_planni.Analysis.{RouteDirectionRelation, LineRoute}
use multi_agent_route_planni.Dispatch.{DispatchCandidate}
use multi_agent_route_planni.Monitor.{
  RouteTravelDirection, TrainDispatchPhase, monitored, release_pending, TrainTelemetry,
  MonitoredTrain,
}
use multi_agent_route_planni.Topology.{
  CorridorTraversal, LineTopologyRegistry, push_back, route, corridors_for_line,
  intersections_for_line,
}
use multi_agent_route_planni.Approach.{resource_id, composite_key, direction_for}
use multi_agent_route_planni.Planner.{find}
use multi_agent_route_planni.Candidates.{
  DispatchCandidateBuilderConfig, Waiting, arrive, lies_ahead, resource_of, candidate, offer,
  nearest_from, nearest, approach, consider, visit, visit_all, build,
}
use multi_agent_route_planni.Candidates.Nearest.{IsFound, IsLeast, nearest_lem}
use multi_agent_route_planni.Candidates.Phases.{standing, build_phases}
use multi_agent_route_planni.Candidates.Offers.{IsRival, build_iff}
use multi_agent_route_planni.Candidates.Active.{Waits}
use multi_agent_route_planni.Candidates.Waits.{HasBegun, build-Waits}

abbrev config : DispatchCandidateBuilderConfig thousandths
config = record { approach_distance = 2000000; control_point_distance = 1000000 }

abbrev line : LineRoute thousandths
line = record {
  line_id = "L1";
  line_name = "";
  transport_type = "train";
  geometry_source = "unknown";
  is_loop = false;
  points = [];
  target_headway_ms = 15000;
}

abbrev traversal : CorridorTraversal thousandths
traversal = record {
  corridor_id = "C1";
  line_id = "L1";
  low_segment = 0;
  high_segment = 0;
  low_position = 1000;
  high_position = 2000;
  occurrence_id = "0";
  direction_relation = RouteDirectionRelation.same;
}

abbrev topology : LineTopologyRegistry thousandths
topology = record {
  routes = ("L1", line) ∷ [];
  analysis = record { shared_corridors = []; intersections = []; movements = [] };
  corridors_by_line = ("L1", traversal ∷ []) ∷ [];
  intersections_by_line = [];
  revision = 1;
  algorithm_fingerprint = "";
}

abbrev train : String → ℕ → TrainDispatchPhase → MonitoredTrain thousandths
train id position phase = record {
  telemetry = record {
    train_id = id;
    line_id = "L1";
    x = 0;
    y = 0;
    z = 0;
    speed = 10000;
    route_index = 0;
    route_position = position;
    travel_direction = RouteTravelDirection.forward;
    simulation_time_ms = 50000;
    received_at_wall_ms = 1000;
  };
  phase = phase;
  controlled_resource_id = "";
}

abbrev first : MonitoredTrain thousandths
first = train "T1" 500000 monitored

abbrev trains : List (MonitoredTrain thousandths)
trains = first ∷ train "T2" 1500000 monitored ∷ train "T3" 100000 release_pending ∷ []

-- The position stands for the distance.
abbrev distance :
    LineRoute thousandths → CorridorTraversal thousandths → TrainTelemetry thousandths → Option ℕ
distance l t x = some x.route_position

-- The first train has waited since 40 s.
abbrev waited : Waiting
waited =
    ("T1\nC1:FORWARD", record { arrived_at_simulation_ms = 40000; last_seen_wall_ms = 900 })
    ∷ ("T9\nC1:FORWARD", record { arrived_at_simulation_ms = 30000; last_seen_wall_ms = 900 })
    ∷ []

program : Unit {0}
unfolding lookup insert value_or erase_if contains remove_if push_back route corridors_for_line
    intersections_for_line resource_id direction_for find arrive lies_ahead candidate offer
    nearest_from nearest approach consider visit visit_all build
program = tt

waits_on :
    map
      (λ (c : DispatchCandidate thousandths). c.arrived_at_simulation_ms)
      (value_or [] "C1:FORWARD"
        (build thousandths distance config waited trains topology none).1.candidates_by_resource)
    ≡ 40000 ∷ []
unfolding program
waits_on = refl

first_stands : (standing thousandths distance config topology first).1 ≡ some traversal
unfolding program
first_stands = refl

nearest_lem_example :
    IsFound thousandths distance config line first.telemetry
      (traversal ∷ [])
      (nearest thousandths distance config line first.telemetry (traversal ∷ []))
    × IsLeast thousandths distance config line first.telemetry
        (traversal ∷ [])
        (nearest thousandths distance config line first.telemetry (traversal ∷ [])).1
nearest_lem_example =
    nearest_lem thousandths distance config line first.telemetry
      (record { irreflexive = λ a. ground arith; transitive = λ a b c p q. ground arith })
      (traversal ∷ [])

differ : (a b : String) → (a == b) ≡ false → a ≢ b
differ a b h e = absurd (ground (arith, h, (string_eq.beq_iff a b).1 e))

build_phases_example :
    lookup "T1" (build thousandths distance config waited trains topology none).1.phase_by_train
    ≡ some (standing thousandths distance config topology first).0
build_phases_example =
    build_phases thousandths distance config topology none waited trains first
      (
        (differ "T2" "T1" refl, (differ "T3" "T1" refl, tt)),
        ((differ "T3" "T2" refl, tt), (tt, tt)),
      )
      (Memᴰ.head refl)

build_iff_example :
    ((c : DispatchCandidate thousandths)
      → Memᴰ c (
          value_or [] "C1:FORWARD" (
            (build thousandths distance config waited trains topology
              none).1.candidates_by_resource))
      → (m : MonitoredTrain thousandths) × Memᴰ m trains
        × (t : CorridorTraversal thousandths) × IsRival thousandths distance config topology none m
            t "C1:FORWARD" c)
    × ((m : MonitoredTrain thousandths) (t : CorridorTraversal thousandths)
        → Memᴰ m trains
        → (standing thousandths distance config topology m).1 ≡ some t
        → resource_of thousandths t m.telemetry ≡ "C1:FORWARD"
        → (c : DispatchCandidate thousandths) × Memᴰ c (
            value_or [] "C1:FORWARD" (
              (build thousandths distance config waited trains topology
                none).1.candidates_by_resource))
          × IsRival thousandths distance config topology none m t "C1:FORWARD" c)
build_iff_example = build_iff thousandths distance config topology none waited trains "C1:FORWARD"

build-Waits_example :
    ((id : String) (c : DispatchCandidate thousandths)
      → Memᴰ c (
          value_or [] id (
            (build thousandths distance config waited trains topology
              none).1.candidates_by_resource))
      → composite_key c.train_id c.corridor_resource_id ≡ "T1\nC1:FORWARD"
      → c.arrived_at_simulation_ms ≡ 40000)
    × (Waits thousandths distance config topology none "T1\nC1:FORWARD" trains
        → HasBegun thousandths distance config topology none "T1\nC1:FORWARD" 40000
            (build thousandths distance config waited trains topology none).0)
    × (¬ Waits thousandths distance config topology none "T1\nC1:FORWARD" trains
        → lookup "T1\nC1:FORWARD" (build thousandths distance config waited trains topology none).0
          ≡ none)
unfolding lookup
build-Waits_example =
    build-Waits thousandths distance config topology none waited trains "T1\nC1:FORWARD" 40000
      (λ e. absurd (ground (arith, e))) (refl, (refl, tt))
      (record { arrived_at_simulation_ms = 40000; last_seen_wall_ms = 900 }, refl, refl)
      (omega arith, (omega arith, (omega arith, tt)))
