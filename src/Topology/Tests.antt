-- ===== src/Topology/Tests.antt =====
-- Two lines that share a corridor and cross once, before server/src/LineTopologyRegistry.cpp, in
-- thousandths.
use mathlib.Core.List.{flat_map}
use multi_agent_route_planni.Base.{
  ℕ, ◌+◌, String, ◌≡◌, refl, ◌⊎◌, false, none, List, [], ◌∷◌, string_eq, u64, ok, fail, any_of,
  lookup, insert,
}
use multi_agent_route_planni.Base.Floats.{thousandths}
use multi_agent_route_planni.Analysis.{
  RouteDirectionRelation, LineRoutePoint, LineRoute, SharedCorridorMember, LineTopologyAnalysis,
}
use multi_agent_route_planni.Topology.{
  LineTopologyRegistry, is_valid_route, is_invalid_point, collect_routes, registry, route,
  corridors_for_line, intersections_for_line, replace_routes,
}
use multi_agent_route_planni.Topology.Index.{ends_of, corridors_of, replace_routes-indexes}
use multi_agent_route_planni.Topology.Routes.{IsSnapshot, find_route, replace_routes_lem}

abbrev point : ℕ → LineRoutePoint thousandths
point x = record { point_id = ""; x = x; y = 0; z = 0; track_segment_id = "" }

abbrev line : String → LineRoute thousandths
line id = record {
  line_id = id;
  line_name = "";
  transport_type = "train";
  geometry_source = "unknown";
  is_loop = false;
  points = point 0 ∷ point 100000 ∷ [];
  target_headway_ms = 15000;
}

abbrev routes : List (LineRoute thousandths)
routes = line "L1" ∷ line "L2" ∷ []

abbrev member : String → SharedCorridorMember thousandths
member id = record {
  line_id = id;
  start_position = 0;
  end_position = 1000;
  occurrence_id = "0";
  start_segment = 0;
  end_segment = 0;
  direction_relation = RouteDirectionRelation.same;
}

abbrev found : List (LineRoute thousandths) → LineTopologyAnalysis thousandths
found rs = record {
  shared_corridors =
      record {
        corridor_id = "C1";
        start_x = 0;
        start_y = 0;
        start_z = 0;
        end_x = 100000;
        end_y = 0;
        end_z = 0;
        length = 100000;
        geometry = [];
        members = member "L1" ∷ member "L2" ∷ [];
      }
      ∷ [];
  intersections =
      record {
        intersection_id = "X1";
        x = 0;
        y = 0;
        z = 0;
        line_a_id = "L1";
        line_b_id = "L2";
        line_a_segment = 0;
        line_b_segment = 0;
        line_a_movement_id = "east";
        line_b_movement_id = "north";
      }
      ∷ [];
  movements = [];
}

start : LineTopologyRegistry thousandths
start = registry thousandths "v3"

accepted : (replace_routes thousandths found start routes).1 ≡ ok tt
unfolding replace_routes collect_routes is_valid_route is_invalid_point any_of lookup insert
accepted = refl

replace_routes-indexes_example :
    let s' = (replace_routes thousandths found start routes).0 in
    (corridors_for_line thousandths s' "L2"
      ≡ flat_map (corridors_of thousandths "L2") (found routes).shared_corridors)
    × (intersections_for_line thousandths s' "L2"
        ≡ flat_map (ends_of "L2") (found routes).intersections)
replace_routes-indexes_example = replace_routes-indexes thousandths found start routes "L2" accepted

replace_routes_lem_example :
    let r = replace_routes thousandths found start routes in
    (IsSnapshot thousandths routes
      × (r.1 ≡ ok tt)
      × (r.0.revision ≡ u64 (start.revision + 1))
      × (r.0.analysis ≡ found routes)
      × ((id : String) → route thousandths r.0 id ≡ find_route thousandths id routes none))
    ⊎ ((IsSnapshot thousandths routes → ⊥)
        × (r.0 ≡ start)
        × ((reason : String) × (r.1 ≡ fail reason)))
replace_routes_lem_example = replace_routes_lem thousandths found start routes
