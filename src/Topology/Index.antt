-- ===== src/Topology/Index.antt =====
-- The index of server/src/LineTopologyRegistry.cpp from a line to what it passes.
use mathlib.Core.List.{append-nil, append_assoc, flat_map}
use multi_agent_route_planni.Base.{
  String, ◌≡◌, sym, ap, ◌∙◌, Bool, true, false, List, [], ◌∷◌, ◌++◌, arith, ◌==◌, string_eq, ok,
  Result-cases, inl, inr, Map, lookup, value_or, lookup-insert,
}
use multi_agent_route_planni.Base.Floats.{Floats}
use multi_agent_route_planni.Analysis.{
  LineRoute, SharedCorridorMember, SharedCorridorDefinition, LineIntersectionDefinition,
  LineTopologyAnalysis,
}
use multi_agent_route_planni.Topology.{
  CorridorTraversal, IntersectionTraversal, LineTopologyRegistry, push_back, index_intersections,
  corridor_traversal, index_members, index_corridors, publish, corridors_for_line,
  intersections_for_line, collect_routes, replace_routes,
}

-- One element, if the key is the one asked for.
abbrev pub only {ℓ} : {V : Type ℓ} → Bool → V → List V
only true v = v ∷ []
only false v = []

pub value_or-push_back {ℓ} :
    {V : Type ℓ} (id k : String) (v : V) (m : Map String (List V))
    → value_or [] id (push_back k v m) ≡ value_or [] id m ++ only (k == id) v
unfolding value_or push_back
value_or-push_back id k v m = ground (
  arith,
  string_eq.beq_iff k id,
  lookup-insert k id (value_or [] k m ++ v ∷ []) m,
  append-nil (value_or [] id m),
)

module _ {F : Floats} where
  abbrev pub first_end : LineIntersectionDefinition F → IntersectionTraversal
  first_end d = record {
    intersection_id = d.intersection_id;
    movement_id = d.line_a_movement_id;
    line_id = d.line_a_id;
    segment_index = d.line_a_segment;
  }

  abbrev pub second_end : LineIntersectionDefinition F → IntersectionTraversal
  second_end d = record {
    intersection_id = d.intersection_id;
    movement_id = d.line_b_movement_id;
    line_id = d.line_b_id;
    segment_index = d.line_b_segment;
  }

  -- The movements of one line at the intersections, in order; a line that crosses itself has two.
  abbrev pub ends_of : String → LineIntersectionDefinition F → List IntersectionTraversal
  ends_of id d = only (d.line_a_id == id) (first_end d) ++ only (d.line_b_id == id) (second_end d)

  value_or-index_intersections :
      (id : String) (ds : List (LineIntersectionDefinition F))
      (m : Map String (List IntersectionTraversal))
      → value_or [] id (index_intersections ds m) ≡ value_or [] id m ++ flat_map (ends_of id) ds
  unfolding index_intersections flat_map
  value_or-index_intersections id [] m = sym (append-nil (value_or [] id m))
  value_or-index_intersections id (d ∷ ds) m =
      let m' = push_back d.line_a_id (first_end d) m in
      let old = value_or [] id m in
      let rest = flat_map (ends_of id) ds in
      let a = only (d.line_a_id == id) (first_end d) in
      let b = only (d.line_b_id == id) (second_end d) in
      value_or-index_intersections id ds (push_back d.line_b_id (second_end d) m')
      ∙ ap (λ xs. xs ++ rest)
          (value_or-push_back id d.line_b_id (second_end d) m'
            ∙ ap (λ xs. xs ++ b) (value_or-push_back id d.line_a_id (first_end d) m)
            ∙ append_assoc old a b)
      ∙ append_assoc old (a ++ b) rest

module _ (F : Floats) where
  -- The stretches of one line in a corridor, in order.
  abbrev pub stretches_of : String → String → SharedCorridorMember F → List (CorridorTraversal F)
  stretches_of id corridor_id x = only (x.line_id == id) (corridor_traversal F corridor_id x)

  abbrev pub corridors_of : String → SharedCorridorDefinition F → List (CorridorTraversal F)
  corridors_of id d = flat_map (stretches_of id d.corridor_id) d.members

  value_or-index_members :
      (id corridor_id : String) (xs : List (SharedCorridorMember F))
      (m : Map String (List (CorridorTraversal F)))
      → value_or [] id (index_members F corridor_id xs m)
        ≡ value_or [] id m ++ flat_map (stretches_of id corridor_id) xs
  unfolding index_members flat_map
  value_or-index_members id corridor_id [] m = sym (append-nil (value_or [] id m))
  value_or-index_members id corridor_id (x ∷ xs) m =
      let t = corridor_traversal F corridor_id x in
      let rest = flat_map (stretches_of id corridor_id) xs in
      value_or-index_members id corridor_id xs (push_back x.line_id t m)
      ∙ ap (λ ys. ys ++ rest) (value_or-push_back id x.line_id t m)
      ∙ append_assoc (value_or [] id m) (only (x.line_id == id) t) rest

  value_or-index_corridors :
      (id : String) (ds : List (SharedCorridorDefinition F))
      (m : Map String (List (CorridorTraversal F)))
      → value_or [] id (index_corridors F ds m) ≡ value_or [] id m ++ flat_map (corridors_of id) ds
  unfolding index_corridors flat_map
  value_or-index_corridors id [] m = sym (append-nil (value_or [] id m))
  value_or-index_corridors id (d ∷ ds) m =
      let rest = flat_map (corridors_of id) ds in
      value_or-index_corridors id ds (index_members F d.corridor_id d.members m)
      ∙ ap (λ ys. ys ++ rest) (value_or-index_members id d.corridor_id d.members m)
      ∙ append_assoc (value_or [] id m) (corridors_of id d) rest

  publish-indexes :
      (s : LineTopologyRegistry F) (routes : Map String (LineRoute F))
      (analysis : LineTopologyAnalysis F) (id : String)
      → (corridors_for_line F (publish F s routes analysis) id
          ≡ flat_map (corridors_of id) analysis.shared_corridors)
        × (intersections_for_line F (publish F s routes analysis) id
            ≡ flat_map (ends_of id) analysis.intersections)
  unfolding publish corridors_for_line intersections_for_line value_or lookup
  publish-indexes s routes analysis id = (
    value_or-index_corridors id analysis.shared_corridors [],
    value_or-index_intersections id analysis.intersections [],
  )

  -- After a snapshot is accepted, the index answers for every line what the analysis found for it:
  -- its stretches of the corridors, and its movements at the intersections, each in the order of
  -- the analysis.
  pub replace_routes-indexes :
      (analyze : List (LineRoute F) → LineTopologyAnalysis F) (s : LineTopologyRegistry F)
      (routes : List (LineRoute F)) (id : String)
      → (replace_routes F analyze s routes).1 ≡ ok tt
      → let s' = (replace_routes F analyze s routes).0 in
        (corridors_for_line F s' id ≡ flat_map (corridors_of id) (analyze routes).shared_corridors)
        × (intersections_for_line F s' id ≡ flat_map (ends_of id) (analyze routes).intersections)
  unfolding replace_routes
  replace_routes-indexes analyze s routes id h = elim (Result-cases (collect_routes F routes [])) [
    | inr (reason, e) ↦ absurd (ground (arith, e))
    | inl (m, e) ↦ rw (e, replace_routes) (publish-indexes s m (analyze routes) id)
  ]
