-- ===== src/Planner/Schedule.antt =====
-- What server/src/AffectedLinePlanner.cpp makes of the trains at one direction: those within the
-- horizon are ranked, and enter apart.
use multi_agent_route_planni.Base.{
  ℕ, zero, suc, ◌+◌, ◌≤◌, ◌<◌, ◌≡◌, ◌≢◌, refl, sym, ap, ◌∙◌, subst, inl, inr, true, some, List, [],
  ◌∷◌, map, arith, length, get_elem?, get_elem?-map, map-set_elem, if◌then◌else◌, u64_max,
  Option-cases,
}
use multi_agent_route_planni.Base.Floats.{Floats}
use multi_agent_route_planni.Planner.{AffectedLinePlannerConfig, PlannedTrainArrival}
use multi_agent_route_planni.Planner.Ranks.{
  Slot, Round, earliest_open, choose, take_rank, rank_loop, planned, first_round, rank_trains,
}
use multi_agent_route_planni.Planner.Ranking.{
  choose-IsOpen, count_open, rank_loop-rank, earliest-none, rank_loop-ends,
}
use multi_agent_route_planni.Planner.Spacing.{
  AreApart, AreTimes, Ranked, rank_loop-Ranked, first_round-Ranked,
}

module _ (F : Floats) (config : AffectedLinePlannerConfig F) (now : ℕ) where
  -- What the loop leaves alone.
  abbrev pub unplanned : PlannedTrainArrival F → PlannedTrainArrival F
  unplanned a = record a {
    suggested_rank = u64_max;
    planned_entry_simulation_ms = 0;
    global_priority = F.decimal 0 0;
  }

  rank_loop-keeps :
      (fuel : ℕ) (r : Round F)
      → map (λ (s : Slot F). unplanned s.state) (rank_loop F config now fuel r).slots
        ≡ map (λ (s : Slot F). unplanned s.state) r.slots
  unfolding rank_loop take_rank planned
  rank_loop-keeps zero r = refl
  rank_loop-keeps (suc fuel) r = elim (Option-cases (earliest_open F 0 r.slots)) [
    | inl e ↦ rw (e, rank_loop) refl
    | inr ((i, a), e) ↦
        let c = choose F config now r i a in
        let (s, found, open_, same) = choose-IsOpen F config now r e in
        rw (e, rank_loop)
          (rank_loop-keeps fuel (take_rank F config now r c)
            ∙ map-set_elem (λ (s : Slot F). unplanned s.state) r.slots c.0
                (record {
                  selected = true;
                  state = planned F config now r.rank r.last_planned_entry c.1;
                })
                found (ap unplanned (sym same)))
  ]

  map-first_slots :
      (states : List (PlannedTrainArrival F))
      → map (λ (s : Slot F). unplanned s.state) (first_round F config now states).slots
        ≡ map unplanned states
  map-first_slots [] = refl
  map-first_slots (a ∷ states) = ap (λ xs. unplanned a ∷ xs) (map-first_slots states)

  map-states :
      (slots : List (Slot F))
      → map unplanned (map (λ (s : Slot F). s.state) slots)
        ≡ map (λ (s : Slot F). unplanned s.state) slots
  map-states [] = refl
  map-states (s ∷ slots) = ap (λ xs. unplanned s.state ∷ xs) (map-states slots)

  -- Ranking changes nothing of a train but its rank, its planned entry and its priority.
  pub rank_trains-keeps :
      (states : List (PlannedTrainArrival F))
      → map unplanned (rank_trains F config now states) ≡ map unplanned states
  unfolding rank_trains
  rank_trains-keeps states =
      map-states _
      ∙ rank_loop-keeps (length states) (first_round F config now states)
      ∙ map-first_slots states

  -- A train that the loop ranks is within the horizon.
  abbrev final : List (PlannedTrainArrival F) → Round F
  final states = rank_loop F config now (length states) (first_round F config now states)

  abbrev pub count_within : List (PlannedTrainArrival F) → ℕ
  count_within [] = 0
  count_within (a ∷ rest) = (if a.within_planning_horizon then 1 else 0) + count_within rest

  first-count_open :
      (states : List (PlannedTrainArrival F))
      → count_open F (first_round F config now states).slots ≡ count_within states
  first-count_open [] = refl
  first-count_open (a ∷ rest) = omega (arith, first-count_open rest)

  first-fuel :
      (states : List (PlannedTrainArrival F))
      → count_open F (first_round F config now states).slots ≤ length states
  first-fuel [] = omega arith
  first-fuel (a ∷ rest) = ground (arith, first-fuel rest)

  final-Ranked :
      (states : List (PlannedTrainArrival F))
      → AreTimes F config now states
      → Ranked F config now (final states)
  final-Ranked states h =
      rank_loop-Ranked F config now (length states) (first_round F config now states)
        (first_round-Ranked F config now states h)

  final-rank : (states : List (PlannedTrainArrival F)) → (final states).rank ≡ count_within states
  final-rank states =
      rank_loop-rank F config now (length states) (first_round F config now states)
        (first-fuel states)
      ∙ omega (arith, first-count_open states)

  -- Where a train of the result is from: within the horizon it is ranked.
  final-slot :
      (states : List (PlannedTrainArrival F)) (i : ℕ) (a : PlannedTrainArrival F)
      → get_elem? (rank_trains F config now states) i ≡ some a
      → a.within_planning_horizon ≡ true
      → (s : Slot F) × (get_elem? (final states).slots i ≡ some s)
        × (s.state ≡ a)
        × (s.selected ≡ true)
  unfolding rank_trains
  final-slot states i a e w =
      let (s, found, same) = get_elem?-map (λ (s : Slot F). s.state) (final states).slots i e in
      let w' : s.state.within_planning_horizon ≡ true =
        subst (λ (x : PlannedTrainArrival F). x.within_planning_horizon ≡ true) (sym same) w in
      let closed =
        earliest-none F 0 (final states).slots
          (rank_loop-ends F config now (length states) (first_round F config now states)
            (first-fuel states))
          i found in
      (s, found, same, ground arith)

  -- A ranked train: its rank is below the number of trains in the horizon, and it enters after it
  -- arrives.
  abbrev pub IsPlanned : List (PlannedTrainArrival F) → PlannedTrainArrival F → Type 0
  IsPlanned states a =
      (a.suggested_rank < count_within states)
      × (a.estimated_arrival_simulation_ms ≤ a.planned_entry_simulation_ms)
      × (a.planned_entry_simulation_ms ≤ u64_max)

  pub rank_trains_lem :
      (states : List (PlannedTrainArrival F))
      → AreTimes F config now states
      → (map unplanned (rank_trains F config now states) ≡ map unplanned states)
        × ((i : ℕ) (a : PlannedTrainArrival F)
            → get_elem? (rank_trains F config now states) i ≡ some a
            → a.within_planning_horizon ≡ true
            → IsPlanned states a)
        × ((i j : ℕ) (a b : PlannedTrainArrival F)
            → i ≢ j
            → get_elem? (rank_trains F config now states) i ≡ some a
            → get_elem? (rank_trains F config now states) j ≡ some b
            → a.within_planning_horizon ≡ true
            → b.within_planning_horizon ≡ true
            → AreApart F config now a b)
  rank_trains_lem states h =
      let v = final-Ranked states h in
      (
        rank_trains-keeps states,
        λ i a e w.
            let (s, found, same, sel) = final-slot states i a e w in
            let (lower, after, until) = v.below i found sel in
            subst (IsPlanned states) same
              (omega (arith, final-rank states, lower), after, omega (arith, until, v.bounded)),
        λ i j a b ne ei ej wi wj.
            let (s, fi, same_i, si) = final-slot states i a ei wi in
            let (t, fj, same_j, sj) = final-slot states j b ej wj in
            subst (λ x. AreApart F config now x b) same_i
              (subst (λ x. AreApart F config now s.state x) same_j (v.apart i j ne fi fj si sj)),
      )
