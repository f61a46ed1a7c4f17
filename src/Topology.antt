-- ===== src/Topology.antt =====
-- server/src/LineTopologyRegistry.cpp and its header: the routes of the lines, what the analysis finds
-- on them, and the index from a line to its corridors and intersections. The analysis and the text of
-- its tolerances are parameters. The mutex makes each method one step.
pub mod Routes
pub mod Index
mod Tests
use multi_agent_route_planni.Base.{
  ℕ, ◌+◌, String, concat, Bool, true, false, not, ◌&&◌, ◌||◌, Option, none, some, List, [], ◌∷◌,
  ◌++◌, map, if◌then◌else◌, ◌==◌, nat_eq, string_eq, ltb, u64, Result, ok, fail, length, any_of,
  sort_by, is_lt, compare_text, Map, lookup, insert, value_or,
}
use multi_agent_route_planni.Base.Floats.{Floats, double_min, double_max}
use multi_agent_route_planni.Analysis.{
  RouteDirectionRelation, LineRoutePoint, LineRoute, SharedCorridorMember, SharedCorridorDefinition,
  LineIntersectionDefinition, LineTopologyAnalysis,
}

pub record CorridorTraversal (F : Floats) : Type 0 where
  pub corridor_id : String
  pub line_id : String
  pub low_segment : ℕ
  pub high_segment : ℕ
  pub low_position : F.Double
  pub high_position : F.Double
  pub occurrence_id : String
  pub direction_relation : RouteDirectionRelation

pub record IntersectionTraversal : Type 0 where
  pub intersection_id : String
  pub movement_id : String
  pub line_id : String
  pub segment_index : ℕ

pub record LineTopologySnapshot (F : Floats) : Type 0 where
  pub revision : ℕ
  pub algorithm_version : ℕ
  pub algorithm_fingerprint : String
  pub routes : List (LineRoute F)
  pub analysis : LineTopologyAnalysis F

pub record LineTopologySummary : Type 0 where
  pub revision : ℕ
  pub algorithm_version : ℕ
  pub algorithm_fingerprint : String
  pub route_count : ℕ
  pub corridor_count : ℕ
  pub intersection_count : ℕ
  pub movement_count : ℕ

pub record LineTopologyRegistry (F : Floats) : Type 0 where
  pub routes : Map String (LineRoute F)
  pub analysis : LineTopologyAnalysis F
  pub corridors_by_line : Map String (List (CorridorTraversal F))
  pub intersections_by_line : Map String (List IntersectionTraversal)
  pub revision : ℕ
  pub algorithm_fingerprint : String

abbrev pub algorithm_version_number : ℕ
algorithm_version_number = 3

-- `m[k].push_back(v)`.
unfoldable pub push_back {ℓ} : {V : Type ℓ} → String → V → Map String (List V) → Map String (List V)
push_back k v m = insert k (value_or [] k m ++ v ∷ []) m

unfoldable pub index_intersections :
    {F : Floats}
    → List (LineIntersectionDefinition F)
    → Map String (List IntersectionTraversal)
    → Map String (List IntersectionTraversal)
unfolding push_back
index_intersections [] m = m
index_intersections (d ∷ ds) m = index_intersections ds (
    push_back d.line_b_id
      (record {
        intersection_id = d.intersection_id;
        movement_id = d.line_b_movement_id;
        line_id = d.line_b_id;
        segment_index = d.line_b_segment;
      })
      (push_back d.line_a_id
        (record {
          intersection_id = d.intersection_id;
          movement_id = d.line_a_movement_id;
          line_id = d.line_a_id;
          segment_index = d.line_a_segment;
        })
        m))

module _ (F : Floats) where
  open F use {is_finite}

  -- The tests of the first loop of `replaceRoutes`.
  unfoldable pub is_valid_route : LineRoute F → Bool
  is_valid_route r = not (r.line_id == "" || ltb (length r.points) 2 || r.target_headway_ms == 0)

  unfoldable pub is_invalid_point : LineRoutePoint F → Bool
  is_invalid_point p = not (is_finite p.x) || not (is_finite p.y) || not (is_finite p.z)

  unfoldable pub collect_routes :
      List (LineRoute F) → Map String (LineRoute F) → Result (Map String (LineRoute F))
  collect_routes [] m = ok m
  collect_routes (r ∷ rs) m =
      let rest = collect_routes rs (insert r.line_id r m) in
      if not (is_valid_route r) then fail "invalid_line_route" else elim (lookup r.line_id m) [
        | some _ ↦ fail (concat "duplicate_line_id:" r.line_id)
        | none ↦
            if any_of is_invalid_point r.points
            then fail (concat "invalid_line_point:" r.line_id)
            else rest
      ]

  unfoldable pub corridor_traversal : String → SharedCorridorMember F → CorridorTraversal F
  corridor_traversal corridor_id member = record {
    corridor_id = corridor_id;
    line_id = member.line_id;
    low_segment = member.start_segment;
    high_segment = member.end_segment;
    low_position = double_min F member.start_position member.end_position;
    high_position = double_max F member.start_position member.end_position;
    occurrence_id = member.occurrence_id;
    direction_relation = member.direction_relation;
  }

  unfoldable pub index_members :
      String
      → List (SharedCorridorMember F)
      → Map String (List (CorridorTraversal F))
      → Map String (List (CorridorTraversal F))
  unfolding push_back
  index_members corridor_id [] m = m
  index_members corridor_id (x ∷ xs) m =
      index_members corridor_id xs (push_back x.line_id (corridor_traversal corridor_id x) m)

  unfoldable pub index_corridors :
      List (SharedCorridorDefinition F)
      → Map String (List (CorridorTraversal F))
      → Map String (List (CorridorTraversal F))
  unfolding index_members
  index_corridors [] m = m
  index_corridors (d ∷ ds) m = index_corridors ds (index_members d.corridor_id d.members m)

  -- The constructor, with the text of the tolerances.
  unfoldable pub registry : String → LineTopologyRegistry F
  registry fingerprint = record {
    routes = [];
    analysis = record { shared_corridors = []; intersections = []; movements = [] };
    corridors_by_line = [];
    intersections_by_line = [];
    revision = 0;
    algorithm_fingerprint = fingerprint;
  }

  unfoldable pub publish :
      LineTopologyRegistry F
      → Map String (LineRoute F)
      → LineTopologyAnalysis F
      → LineTopologyRegistry F
  publish s routes analysis = record s {
    routes = routes;
    analysis = analysis;
    corridors_by_line = index_corridors analysis.shared_corridors [];
    intersections_by_line = index_intersections analysis.intersections [];
    revision = u64 (s.revision + 1);
  }

  unfoldable pub route : LineTopologyRegistry F → String → Option (LineRoute F)
  route s line_id = lookup line_id s.routes

  unfoldable pub corridors_for_line : LineTopologyRegistry F → String → List (CorridorTraversal F)
  corridors_for_line s line_id = elim (lookup line_id s.corridors_by_line) [
    | none ↦ []
    | some ts ↦ ts
  ]

  unfoldable pub intersections_for_line :
      LineTopologyRegistry F → String → List IntersectionTraversal
  intersections_for_line s line_id = elim (lookup line_id s.intersections_by_line) [
    | none ↦ []
    | some ts ↦ ts
  ]

  unfoldable pub snapshot : LineTopologyRegistry F → LineTopologySnapshot F
  snapshot s = record {
    revision = s.revision;
    algorithm_version = algorithm_version_number;
    algorithm_fingerprint = s.algorithm_fingerprint;
    routes = sort_by (λ a b. is_lt (compare_text a.line_id b.line_id)) (map (λ e. e.1) s.routes);
    analysis = s.analysis;
  }

  unfoldable pub summary : LineTopologyRegistry F → LineTopologySummary
  summary s = record {
    revision = s.revision;
    algorithm_version = algorithm_version_number;
    algorithm_fingerprint = s.algorithm_fingerprint;
    route_count = length s.routes;
    corridor_count = length s.analysis.shared_corridors;
    intersection_count = length s.analysis.intersections;
    movement_count = length s.analysis.movements;
  }

  module _ (analyze : List (LineRoute F) → LineTopologyAnalysis F) where
    unfoldable pub replace_routes :
        LineTopologyRegistry F → List (LineRoute F) → LineTopologyRegistry F × Result (Unit {0})
    replace_routes s routes = elim (collect_routes routes []) [
      | fail reason ↦ (s, fail reason)
      | ok new_routes ↦ (publish s new_routes (analyze routes), ok tt)
    ]

    abbrev with_revision :
        ℕ → LineTopologyRegistry F × Result (Unit {0}) → LineTopologyRegistry F × Result (Unit {0})
    with_revision revision (s, fail reason) = (s, fail reason)
    with_revision revision (s, ok _) = (record s { revision = revision }, ok tt)

    unfoldable pub restore_routes :
        LineTopologyRegistry F → List (LineRoute F) → ℕ → LineTopologyRegistry F × Result (Unit {0})
    restore_routes s routes revision =
        if revision == 0
        then (s, fail "invalid_topology_revision")
        else with_revision revision (replace_routes s routes)
