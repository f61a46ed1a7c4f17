-- ===== src/Approach.antt =====
-- What server/src/DispatchCandidateBuilder.cpp and server/src/AffectedLinePlanner.cpp both say of a
-- train before a corridor: the name of a direction, and how far its entrance is along the line.
pub mod Rounding
pub mod Walk
mod Tests
use multi_agent_route_planni.Base.{
  ℕ, zero, suc, ◌+◌, ◌-◌, String, concat, Bool, true, false, not, ◌&&◌, ◌||◌, Option, none, some,
  List, [], ◌∷◌, if◌then◌else◌, ltb, length, min, u64, u64_max,
}
use multi_agent_route_planni.Base.Floats.{Floats, double_min, double_max, double_le}
use multi_agent_route_planni.Analysis.{RouteDirectionRelation, LineRoutePoint, LineRoute}
use multi_agent_route_planni.Dispatch.{CorridorDirection}
use multi_agent_route_planni.Monitor.{RouteTravelDirection, TrainTelemetry}
use multi_agent_route_planni.Topology.{CorridorTraversal}

unfoldable pub resource_id : String → CorridorDirection → String
resource_id corridor_id CorridorDirection.forward = concat corridor_id ":FORWARD"
resource_id corridor_id CorridorDirection.reverse = concat corridor_id ":REVERSE"

abbrev pub composite_key : String → String → String
composite_key train_id resource = concat (concat train_id "\n") resource

unfoldable pub direction_for : RouteDirectionRelation → RouteTravelDirection → CorridorDirection
direction_for RouteDirectionRelation.same RouteTravelDirection.forward = CorridorDirection.forward
direction_for RouteDirectionRelation.same RouteTravelDirection.reverse = CorridorDirection.reverse
direction_for RouteDirectionRelation.opposite RouteTravelDirection.forward =
    CorridorDirection.reverse
direction_for RouteDirectionRelation.opposite RouteTravelDirection.reverse =
    CorridorDirection.forward

abbrev pub is_forward : RouteTravelDirection → Bool
is_forward RouteTravelDirection.forward = true
is_forward RouteTravelDirection.reverse = false

module _ (F : Floats) where
  open F use {Double, decimal, of_ℕ, add, sub, mul, hypot, floor, truncate}

  -- Two points of a line that follow one another.
  abbrev pub between : LineRoutePoint F → LineRoutePoint F → Double
  between a b = hypot (sub b.x a.x) (sub b.z a.z)

  -- Past the end of the list the code reads memory that is not the line's; the model takes 0.
  unfoldable pub segment_length : List (LineRoutePoint F) → ℕ → Double
  segment_length (a ∷ b ∷ ps) zero = between a b
  segment_length (p ∷ ps) (suc i) = segment_length ps i
  segment_length _ _ = decimal 0 0

  -- The loop's variables.
  pub record Walker : Type 0 where
    pub delta : Double
    pub position : Double
    pub travelled : Double

  -- The segment that the train is on, and the part of it behind it: at a point, a train that runs
  -- backwards is on the segment before (`- 1` on `size_t`).
  unfoldable pub locate : LineRoute F → RouteTravelDirection → Double → ℕ × Double
  locate route travel position =
      let fraction = sub position (floor position) in
      if not (is_forward travel)
        && double_le F fraction (decimal 1 9)
        && F.ltb (decimal 0 0) position
      then (u64 (truncate (floor position) + u64_max), decimal 1 0)
      else (min (length route.points - 2) (truncate (floor position)), fraction)

  unfoldable pub step_of : RouteTravelDirection → Double → Double → Double
  step_of RouteTravelDirection.forward delta fraction =
      double_min F delta (sub (decimal 1 0) fraction)
  step_of RouteTravelDirection.reverse delta fraction =
      double_min F delta (if F.ltb (decimal 1 9) fraction then fraction else decimal 1 0)

  -- At the end of a loop line the train goes on from its other end.
  unfoldable pub wrap : RouteTravelDirection → Double → Double → Double → Double
  wrap travel maximum delta position =
      let onward =
        if double_le F (sub maximum (decimal 1 9)) position && F.ltb (decimal 1 9) delta
        then decimal 0 0
        else position in
      if double_le F onward (decimal 1 9) && F.ltb (decimal 1 9) delta && not (is_forward travel)
      then maximum
      else onward

  -- One round of the loop.
  unfoldable pub advance : LineRoute F → RouteTravelDirection → Double → Walker → Walker
  advance route travel maximum w =
      let (index, fraction) = locate route travel w.position in
      let step = step_of travel w.delta fraction in
      let delta = sub w.delta step in
      let position = if is_forward travel then add w.position step else sub w.position step in
      record {
        delta = delta;
        position = wrap travel maximum delta position;
        travelled = add w.travelled (mul step (segment_length route.points index));
      }

  -- The loop, as many rounds as the fuel allows.
  unfoldable pub walk : ℕ → LineRoute F → RouteTravelDirection → Double → Walker → Option Double
  unfolding advance
  walk zero route travel maximum w = if F.ltb (decimal 1 9) w.delta then none else some w.travelled
  walk (suc fuel) route travel maximum w =
      let rest = walk fuel route travel maximum (advance route travel maximum w) in
      if F.ltb (decimal 1 9) w.delta then rest else some w.travelled

  abbrev pub last_position : LineRoute F → Double
  last_position route = of_ℕ (length route.points - 1)

  unfoldable pub current_position : LineRoute F → TrainTelemetry F → Double
  current_position route train =
      double_max F (decimal 0 0) (double_min F (last_position route) train.route_position)

  -- How far the entrance is along the line's positions, with the way round a loop.
  unfoldable pub delta_to : LineRoute F → CorridorTraversal F → TrainTelemetry F → Double
  delta_to route traversal train =
      let current = current_position route train in
      let delta =
        if is_forward train.travel_direction
        then sub traversal.low_position current
        else sub current traversal.high_position in
      if F.ltb delta (sub (decimal 0 0) (decimal 1 6)) && route.is_loop
      then add delta (last_position route)
      else delta

  -- `none`: the fuel runs out; `some none`: the entrance is behind the train.
  unfoldable pub distance_to_entry :
      ℕ → LineRoute F → CorridorTraversal F → TrainTelemetry F → Option (Option Double)
  unfolding walk
  distance_to_entry fuel route traversal train =
      let delta = delta_to route traversal train in
      if ltb (length route.points) 2 || F.ltb delta (sub (decimal 0 0) (decimal 1 6))
      then some none
      else elim (walk fuel route train.travel_direction (last_position route) (record {
        delta = delta;
        position = current_position route train;
        travelled = decimal 0 0;
      })) [ none ↦ none | some d ↦ some (some d) ]
