-- ===== src/Service/Same.antt =====
-- When server/src/RailwayDispatchService.cpp takes an upload of routes for what it has already.
use multi_agent_route_planni.Base.{
  Bool, true, false, not, ◌&&◌, ◌||◌, List, ◌∷◌, if◌then◌else◌, ◌==◌, nat_eq, string_eq, length,
  sort_by, is_lt, compare_text,
}
use multi_agent_route_planni.Base.Floats.{Floats}
use multi_agent_route_planni.Analysis.{LineRoute, LineRoutePoint}

abbrev same_bool : Bool → Bool → Bool
same_bool true b = b
same_bool false b = not b

module _ (F : Floats) where
  open F use {decimal, sub, abs}

  abbrev far : F.Double → F.Double → Bool
  far a b = F.ltb (decimal 1 6) (abs (sub a b))

  unfoldable pub same_point : LineRoutePoint F → LineRoutePoint F → Bool
  same_point a b = not (
      not (a.point_id == b.point_id)
      || not (a.track_segment_id == b.track_segment_id)
      || far a.x b.x
      || far a.y b.y
      || far a.z b.z)

  -- The loop over two lists of one length.
  unfoldable pub same_points : List (LineRoutePoint F) → List (LineRoutePoint F) → Bool
  same_points (a ∷ as_) (b ∷ bs) = same_point a b && same_points as_ bs
  same_points _ _ = true

  unfoldable pub same_route : LineRoute F → LineRoute F → Bool
  same_route a b =
      if not (a.line_id == b.line_id)
        || not (a.transport_type == b.transport_type)
        || not (a.geometry_source == b.geometry_source)
        || not (same_bool a.is_loop b.is_loop)
        || not (a.target_headway_ms == b.target_headway_ms)
        || not (length a.points == length b.points)
      then false
      else same_points a.points b.points

  unfoldable pub same_sorted : List (LineRoute F) → List (LineRoute F) → Bool
  same_sorted (a ∷ as_) (b ∷ bs) = same_route a b && same_sorted as_ bs
  same_sorted _ _ = true

  abbrev by_id : List (LineRoute F) → List (LineRoute F)
  by_id = sort_by (λ a b. is_lt (compare_text a.line_id b.line_id))

  unfoldable pub same_routes : List (LineRoute F) → List (LineRoute F) → Bool
  unfolding same_sorted
  same_routes a b = if not (length a == length b) then false else same_sorted (by_id a) (by_id b)
