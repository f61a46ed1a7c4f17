-- ===== src/Approach/Tests.antt =====
-- A train on a line of three points, before the entrance of a corridor, in thousandths.
use multi_agent_route_planni.Base.{ℕ, ◌≡◌, refl, false, Option, some, [], ◌∷◌, arith}
use multi_agent_route_planni.Base.Floats.{thousandths, double_min, double_max}
use multi_agent_route_planni.Analysis.{RouteDirectionRelation, LineRoutePoint, LineRoute}
use multi_agent_route_planni.Monitor.{RouteTravelDirection, TrainTelemetry}
use multi_agent_route_planni.Topology.{CorridorTraversal}
use multi_agent_route_planni.Approach.{
  segment_length, locate, step_of, wrap, advance, walk, current_position, delta_to,
  distance_to_entry,
}
use multi_agent_route_planni.Approach.Rounding.{Rounding}
use multi_agent_route_planni.Approach.Walk.{distance_to_entry-ends}

abbrev point : ℕ → LineRoutePoint thousandths
point x = record { point_id = ""; x = x; y = 0; z = 0; track_segment_id = "" }

abbrev line : LineRoute thousandths
line = record {
  line_id = "L1";
  line_name = "";
  transport_type = "train";
  geometry_source = "unknown";
  is_loop = false;
  points = point 0 ∷ point 100000 ∷ point 300000 ∷ [];
  target_headway_ms = 15000;
}

abbrev traversal : CorridorTraversal thousandths
traversal = record {
  corridor_id = "C1";
  line_id = "L1";
  low_segment = 1;
  high_segment = 1;
  low_position = 1500;
  high_position = 2000;
  occurrence_id = "0";
  direction_relation = RouteDirectionRelation.same;
}

abbrev train : TrainTelemetry thousandths
train = record {
  train_id = "T1";
  line_id = "L1";
  x = 50000;
  y = 0;
  z = 0;
  speed = 10000;
  route_index = 0;
  route_position = 500;
  travel_direction = RouteTravelDirection.forward;
  simulation_time_ms = 1000;
  received_at_wall_ms = 1000;
}

-- Half of the first segment, and half of the second, which is twice as long.
half_and_half : distance_to_entry thousandths 10 line traversal train ≡ some (some 150000)
unfolding distance_to_entry delta_to current_position walk advance locate step_of wrap
    segment_length double_min double_max
half_and_half = refl

-- Thousandths have the laws too, without a rounding.
thousandths-Rounding : Rounding thousandths
thousandths-Rounding = record {
  cancels = λ a. ground arith;
  positive = λ a h. ground (arith, h);
  apart = λ a h. ground (arith, h);
  one_positive = refl;
  zero_place = (refl, refl);
  zero_whole = refl;
  zero_fraction = refl;
  whole_place = λ n h. (ground arith, refl);
  whole_fraction = λ n h. ground arith;
  between_place = λ a b p q h. (ground (arith, p), refl);
  ahead = λ p h. ground arith;
  lands = λ p h. ((ground arith, refl), ground arith);
  lands_back = λ p h. ((ground arith, refl), ground arith);
  back = λ p h stop far. ((ground arith, refl), ground (arith, stop));
  within = λ way step h. ground (arith, h.0, h.1, h.2);
  shortens = λ way step h. ground (arith, h.1);
  descends = λ way h. ground (arith, h.1);
}

fuel_enough : delta_to thousandths line traversal train ≡ 1000
unfolding delta_to current_position double_min double_max
fuel_enough = refl

distance_to_entry-ends_example :
    (o : Option ℕ) × (distance_to_entry thousandths 3 line traversal train ≡ some o)
distance_to_entry-ends_example =
    distance_to_entry-ends thousandths thousandths-Rounding 3 line traversal train (omega arith)
      (rw fuel_enough refl) (rw fuel_enough (omega arith))
