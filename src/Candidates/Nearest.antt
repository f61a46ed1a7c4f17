-- ===== src/Candidates/Nearest.antt =====
-- The search of server/src/DispatchCandidateBuilder.cpp for the nearest entrance of a train.
use mathlib.Core.List.{Memᴰ}
use multi_agent_route_planni.Base.{
  ◌≡◌, refl, sym, ap, ◌∙◌, some-eq, subst, ◌⊎◌, inl, inr, true, false, ◌&&◌, Option, none, some,
  List, [], ◌∷◌, arith, Bool-cases, Option-cases,
}
use multi_agent_route_planni.Base.Floats.{Floats, double_le}
use multi_agent_route_planni.Analysis.{LineRoute}
use multi_agent_route_planni.Monitor.{TrainTelemetry}
use multi_agent_route_planni.Topology.{CorridorTraversal}
use multi_agent_route_planni.Candidates.{
  DispatchCandidateBuilderConfig, nearer, nearest_from, nearest,
}

-- `<` orders the numbers, those that are none aside.
pub record IsOrder (F : Floats) : Type 0 where
  pub irreflexive : (a : F.Double) → F.ltb a a ≡ false
  pub transitive : (a b c : F.Double) → F.ltb a b ≡ true → F.ltb b c ≡ true → F.ltb a c ≡ true

module _ (F : Floats)
    (distance : LineRoute F → CorridorTraversal F → TrainTelemetry F → Option F.Double)
    (config : DispatchCandidateBuilderConfig F) (line : LineRoute F)
    (train : TrainTelemetry F) where
  -- How far an entrance within the approach distance is.
  abbrev pub IsNear : CorridorTraversal F → F.Double → Type 0
  IsNear t x = (distance line t train ≡ some x) × (double_le F x config.approach_distance ≡ true)

  -- Nothing is found, or the entrance of one of the corridors.
  abbrev pub IsFound : List (CorridorTraversal F) → Option (CorridorTraversal F) × F.Double → Type 0
  IsFound ts r =
      ((r.0 ≡ none) × (r.1 ≡ F.infinity))
      ⊎ ((t : CorridorTraversal F) × Memᴰ t ts × (r.0 ≡ some t) × IsNear t r.1)

  -- No corridor's entrance is nearer.
  abbrev pub IsLeast : List (CorridorTraversal F) → F.Double → Type 0
  IsLeast ts d =
      (t : CorridorTraversal F) (x : F.Double) → Memᴰ t ts → IsNear t x → F.ltb x d ≡ false

  nearer-cases :
      (t : CorridorTraversal F) (best : Option (CorridorTraversal F) × F.Double)
      → ((nearer F distance config t (distance line t train) best ≡ best)
          × ((x : F.Double) → IsNear t x → F.ltb x best.1 ≡ false))
        ⊎ ((x : F.Double) × IsNear t x
            × (F.ltb x best.1 ≡ true)
            × (nearer F distance config t (distance line t train) best ≡ (some t, x)))
  nearer-cases t (best, d) = elim (Option-cases (distance line t train)) [
    | inl e ↦ inl (rw e refl, λ x h. absurd (ground (arith, e, h.0)))
    | inr (y, e) ↦ elim (Bool-cases (double_le F y config.approach_distance && F.ltb y d)) [
      | inl better ↦ inr (y, (e, ground arith), ground arith, rw (e, better) refl)
      | inr worse ↦ inl (
        rw (e, worse) refl,
        λ x h.
            let same : y ≡ x = some-eq (sym e ∙ h.0) in
            let near : double_le F y config.approach_distance ≡ true =
              subst (λ z. double_le F z config.approach_distance ≡ true) (sym same) h.1 in
            subst (λ z. F.ltb z d ≡ false) same (ground arith),
      )
    ]
  ]

  -- What is found goes on being the least: `<` is transitive.
  nearest_from-le :
      IsOrder F
      → (ts : List (CorridorTraversal F)) (best : Option (CorridorTraversal F) × F.Double)
        (x : F.Double)
      → F.ltb x best.1 ≡ false
      → F.ltb x (nearest_from F distance config line train ts best).1 ≡ false
  unfolding nearest_from
  nearest_from-le o [] best x h = h
  nearest_from-le o (t ∷ ts) best x h = elim (nearer-cases t best) [
    | inl (e, _) ↦ rw (nearest_from, e) (nearest_from-le o ts best x h)
    | inr (y, near, less, e) ↦
        rw (nearest_from, e)
          (nearest_from-le o ts (some t, y) x
            (elim (Bool-cases (F.ltb x y)) [
              | inl below ↦ absurd (ground (arith, o.transitive x y best.1 below less))
              | inr h' ↦ h'
            ]))
  ]

  nearest_from-IsLeast :
      IsOrder F
      → (ts : List (CorridorTraversal F)) (best : Option (CorridorTraversal F) × F.Double)
      → IsLeast ts (nearest_from F distance config line train ts best).1
  unfolding nearest_from
  nearest_from-IsLeast o [] best t x m near = elim m [ ]
  nearest_from-IsLeast o (u ∷ ts) best t x m near = elim m [
    | Memᴰ.tail m' ↦
        nearest_from-IsLeast o ts (nearer F distance config u (distance line u train) best) t x m'
          near
    | Memᴰ.head same ↦
        nearest_from-le o ts (nearer F distance config u (distance line u train) best) x (
          let near' : IsNear u x = subst (λ z. IsNear z x) same near in
          elim (nearer-cases u best) [
            | inl (e, h) ↦ rw e (h x near')
            | inr (y, (f, _), less, e) ↦
                let x=y : y ≡ x = some-eq (sym f ∙ near'.0) in
                rw e (subst (λ z. F.ltb z y ≡ false) x=y (o.irreflexive y))
          ])
  ]

  nearest_from-IsFound :
      (ts : List (CorridorTraversal F)) (best : Option (CorridorTraversal F) × F.Double)
      → (nearest_from F distance config line train ts best ≡ best)
        ⊎ ((t : CorridorTraversal F) × Memᴰ t ts
            × ((nearest_from F distance config line train ts best).0 ≡ some t)
            × IsNear t (nearest_from F distance config line train ts best).1)
  unfolding nearest_from
  nearest_from-IsFound [] best = inl refl
  nearest_from-IsFound (u ∷ ts) best =
      elim (nearest_from-IsFound ts (nearer F distance config u (distance line u train) best)) [
        | inr (t, m, e, near) ↦ inr (t, Memᴰ.tail m, e, near)
        | inl e ↦ elim (nearer-cases u best) [
          | inl (f, _) ↦ inl (e ∙ f)
          | inr (y, near, _, f) ↦
              let g = e ∙ f in
              inr (
                u,
                Memᴰ.head refl,
                ap (λ (r : Option (CorridorTraversal F) × F.Double). r.0) g,
                subst (λ (r : Option (CorridorTraversal F) × F.Double). IsNear u r.1) (sym g) near,
              )
        ]
      ]

  -- Where `<` is a strict order of doubles, the search for the nearest entrance finds one of the
  -- line's corridors within the approach distance, or none at all, and no entrance within that
  -- distance is nearer than what it found.
  pub nearest_lem :
      IsOrder F
      → (ts : List (CorridorTraversal F))
      → IsFound ts (nearest F distance config line train ts)
        × IsLeast ts (nearest F distance config line train ts).1
  unfolding nearest
  nearest_lem o ts = (
    elim (nearest_from-IsFound ts (none, F.infinity)) [
      | inl e ↦ inl (
        ap (λ (r : Option (CorridorTraversal F) × F.Double). r.0) e,
        ap (λ (r : Option (CorridorTraversal F) × F.Double). r.1) e,
      )
      | inr (t, m, e, near) ↦ inr (t, m, e, near)
    ],
    nearest_from-IsLeast o ts (none, F.infinity),
  )
