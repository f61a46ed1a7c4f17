-- ===== src/Topology/Routes.antt =====
-- Which snapshots of routes server/src/LineTopologyRegistry.cpp accepts, and what it keeps of them.
use multi_agent_route_planni.Base.{
  ◌+◌, String, ◌≡◌, ◌≢◌, refl, ap, ◌∙◌, ◌⊎◌, inl, inr, true, false, Option, none, some, List, [],
  ◌∷◌, arith, if◌then◌else◌, ◌==◌, string_eq, concat, u64, ok, fail, Bool-cases, Option-cases, All,
  any_of, Map, lookup, insert, lookup-insert,
}
use multi_agent_route_planni.Base.Floats.{Floats}
use multi_agent_route_planni.Analysis.{LineRoute, LineTopologyAnalysis}
use multi_agent_route_planni.Topology.{
  LineTopologyRegistry, is_valid_route, is_invalid_point, collect_routes, publish, route,
  replace_routes,
}

module _ (F : Floats) where
  abbrev pub IsRoute : LineRoute F → Type 0
  IsRoute r = (is_valid_route F r ≡ true) × (any_of (is_invalid_point F) r.points ≡ false)

  -- Every route is valid, and no two are of one line.
  abbrev pub Distinct : List (LineRoute F) → Type 0
  Distinct [] = Unit
  Distinct (r ∷ rs) = All (λ (x : LineRoute F). r.line_id ≢ x.line_id) rs × Distinct rs

  abbrev pub IsSnapshot : List (LineRoute F) → Type 0
  IsSnapshot rs = All IsRoute rs × Distinct rs

  abbrev pub find_route : String → List (LineRoute F) → Option (LineRoute F) → Option (LineRoute F)
  find_route id [] o = o
  find_route id (r ∷ rs) o = find_route id rs (if r.line_id == id then some r else o)

  -- The lines of a list that a map does not hold.
  abbrev AreNew : Map String (LineRoute F) → List (LineRoute F) → Type 0
  AreNew m = All (λ (x : LineRoute F). lookup x.line_id m ≡ none)

  AreNew-insert :
      (r : LineRoute F) (rs : List (LineRoute F)) (m : Map String (LineRoute F))
      → AreNew m rs
      → All (λ (x : LineRoute F). r.line_id ≢ x.line_id) rs
      → AreNew (insert r.line_id r m) rs
  AreNew-insert r [] m h d = tt
  AreNew-insert r (x ∷ rs) m h d = (
    ground (
      arith,
      string_eq.beq_iff r.line_id x.line_id,
      lookup-insert r.line_id x.line_id r m,
      h.0,
      d.0,
    ),
    AreNew-insert r rs m h.1 d.1,
  )

  AreNew-before :
      (r : LineRoute F) (rs : List (LineRoute F)) (m : Map String (LineRoute F))
      → AreNew (insert r.line_id r m) rs
      → AreNew m rs × All (λ (x : LineRoute F). r.line_id ≢ x.line_id) rs
  AreNew-before r [] m h = (tt, tt)
  AreNew-before r (x ∷ rs) m h =
      let (old, apart) = AreNew-before r rs m h.1 in
      (
        (
          ground (
            arith,
            string_eq.beq_iff r.line_id x.line_id,
            lookup-insert r.line_id x.line_id r m,
            h.0,
          ),
          old,
        ),
        (
          λ e. ground (
            arith,
            string_eq.beq_iff r.line_id x.line_id,
            lookup-insert r.line_id x.line_id r m,
            h.0,
          ),
          apart,
        ),
      )

  abbrev Fits : List (LineRoute F) → Map String (LineRoute F) → Type 0
  Fits rs m = All IsRoute rs × Distinct rs × AreNew m rs

  -- The first loop of `replaceRoutes` on a map that holds some routes already.
  record Collects (rs : List (LineRoute F)) (m m' : Map String (LineRoute F)) : Type 0 where
    fits : Fits rs m
    collected : collect_routes F rs m ≡ ok m'
    found : (id : String) → lookup id m' ≡ find_route id rs (lookup id m)

  Collects-cons :
      (r : LineRoute F) (rs : List (LineRoute F)) (m m' : Map String (LineRoute F))
      → is_valid_route F r ≡ true
      → any_of (is_invalid_point F) r.points ≡ false
      → lookup r.line_id m ≡ none
      → collect_routes F (r ∷ rs) m ≡ collect_routes F rs (insert r.line_id r m)
      → Collects rs (insert r.line_id r m) m'
      → Collects (r ∷ rs) m m'
  Collects-cons r rs m m' good fine new step c =
      let (old, apart) = AreNew-before r rs m c.fits.2 in
      record {
        fits = (((good, fine), c.fits.0), (apart, c.fits.1), (new, old));
        collected = step ∙ c.collected;
        found = λ id. c.found id ∙ ap (find_route id rs) (lookup-insert r.line_id id r m);
      }

  AreNew-nil : (rs : List (LineRoute F)) → AreNew [] rs
  unfolding lookup
  AreNew-nil [] = tt
  AreNew-nil (r ∷ rs) = (refl, AreNew-nil rs)

  collect_routes_cases :
      (rs : List (LineRoute F)) (m : Map String (LineRoute F))
      → ((m' : Map String (LineRoute F)) × Collects rs m m')
        ⊎ ((Fits rs m → ⊥) × ((reason : String) × (collect_routes F rs m ≡ fail reason)))
  unfolding collect_routes
  collect_routes_cases [] m =
      inl (m, record { fits = (tt, tt, tt); collected = refl; found = λ id. refl })
  collect_routes_cases (r ∷ rs) m = elim (Bool-cases (is_valid_route F r)) [
    | inr bad ↦
        inr (λ h. ground (arith, h.0.0.0), ("invalid_line_route", rw (bad, collect_routes) refl))
    | inl good ↦ elim (Option-cases (lookup r.line_id m)) [
      | inr (old, e) ↦ inr (
        λ h. ground (arith, h.2.0, e),
        (concat "duplicate_line_id:" r.line_id, rw (good, collect_routes, e) refl),
      )
      | inl e ↦ elim (Bool-cases (any_of (is_invalid_point F) r.points)) [
        | inl bad ↦ inr (
          λ h. ground (arith, h.0.0.1),
          (concat "invalid_line_point:" r.line_id, rw (good, collect_routes, e, bad) refl),
        )
        | inr fine ↦
            let step : collect_routes F (r ∷ rs) m ≡ collect_routes F rs (insert r.line_id r m) =
              rw (good, collect_routes, e, fine) refl in
            elim (collect_routes_cases rs (insert r.line_id r m)) [
              | inl (m', c) ↦ inl (m', Collects-cons r rs m m' good fine e step c)
              | inr (never, (reason, f)) ↦
                  inr (
                    λ h. never (h.0.1, h.1.1, AreNew-insert r rs m h.2.1 h.1.0),
                    (reason, step ∙ f),
                  )
            ]
      ]
    ]
  ]

  -- replaceRoutes accepts exactly the snapshots in which every route is valid and no line has two.
  -- It then keeps each line's route and the analysis of them all, under the next revision;
  -- otherwise it says why and nothing has changed.
  pub replace_routes_lem :
      (analyze : List (LineRoute F) → LineTopologyAnalysis F) (s : LineTopologyRegistry F)
      (routes : List (LineRoute F))
      → let r = replace_routes F analyze s routes in
        (IsSnapshot routes
          × (r.1 ≡ ok tt)
          × (r.0.revision ≡ u64 (s.revision + 1))
          × (r.0.analysis ≡ analyze routes)
          × ((id : String) → route F r.0 id ≡ find_route id routes none))
        ⊎ ((IsSnapshot routes → ⊥) × (r.0 ≡ s) × ((reason : String) × (r.1 ≡ fail reason)))
  unfolding replace_routes publish route
  replace_routes_lem analyze s routes = elim (collect_routes_cases routes []) [
    | inl (m, c) ↦ inl (
      (c.fits.0, c.fits.1),
      rw (c.collected, replace_routes) refl,
      rw (c.collected, replace_routes) refl,
      rw (c.collected, replace_routes) refl,
      λ id. rw (c.collected, replace_routes) (unfold lookup in c.found id),
    )
    | inr (never, (reason, f)) ↦ inr (
      λ h. never (h.0, h.1, AreNew-nil routes),
      rw (f, replace_routes) refl,
      (reason, rw (f, replace_routes) refl),
    )
  ]
