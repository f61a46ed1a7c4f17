-- ===== src/Analysis.antt =====
-- server/include/LineRouteAnalyzer.h: the routes of the lines, and what their analysis finds.
use multi_agent_route_planni.Base.{ℕ, String, Bool, List}
use multi_agent_route_planni.Base.Floats.{Floats}
use multi_agent_route_planni.Reservation.{LineIntersectionMovement}

pub data RouteDirectionRelation : Type 0 where
  same opposite : RouteDirectionRelation

pub record LineRoutePoint (F : Floats) : Type 0 where
  pub point_id : String
  pub x : F.Double
  pub y : F.Double
  pub z : F.Double
  pub track_segment_id : String

pub record LineRoute (F : Floats) : Type 0 where
  pub line_id : String
  pub line_name : String
  pub transport_type : String
  pub geometry_source : String
  pub is_loop : Bool
  pub points : List (LineRoutePoint F)
  pub target_headway_ms : ℕ

pub record SharedCorridorMember (F : Floats) : Type 0 where
  pub line_id : String
  pub start_position : F.Double
  pub end_position : F.Double
  pub occurrence_id : String
  pub start_segment : ℕ
  pub end_segment : ℕ
  pub direction_relation : RouteDirectionRelation

pub record SharedCorridorDefinition (F : Floats) : Type 0 where
  pub corridor_id : String
  pub start_x : F.Double
  pub start_y : F.Double
  pub start_z : F.Double
  pub end_x : F.Double
  pub end_y : F.Double
  pub end_z : F.Double
  pub length : F.Double
  pub geometry : List (LineRoutePoint F)
  pub members : List (SharedCorridorMember F)

pub record LineIntersectionDefinition (F : Floats) : Type 0 where
  pub intersection_id : String
  pub x : F.Double
  pub y : F.Double
  pub z : F.Double
  pub line_a_id : String
  pub line_b_id : String
  pub line_a_segment : ℕ
  pub line_b_segment : ℕ
  pub line_a_movement_id : String
  pub line_b_movement_id : String

pub record LineTopologyAnalysis (F : Floats) : Type 0 where
  pub shared_corridors : List (SharedCorridorDefinition F)
  pub intersections : List (LineIntersectionDefinition F)
  pub movements : List LineIntersectionMovement
