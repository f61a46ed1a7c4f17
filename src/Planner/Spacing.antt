-- ===== src/Planner/Spacing.antt =====
-- The plan that server/src/AffectedLinePlanner.cpp makes for one direction: every train within the
-- horizon has a rank of its own, and the entries are apart.
use multi_agent_route_planni.Base.{
  ℕ, zero, suc, ◌+◌, ◌≤◌, ◌<◌, ◌≡◌, ◌≢◌, refl, sym, ap, ◌∙◌, subst, ◌⊎◌, inl, inr, true, false,
  some, List, arith, get_elem?, get_elem?-map, set_elem, get_elem?-set_elem_other,
  get_elem?-set_elem_self, u64_max, some-eq, Option-cases, ◌==◌, nat_eq, Bool-cases,
}
use multi_agent_route_planni.Base.Floats.{Floats}
use multi_agent_route_planni.Planner.{AffectedLinePlannerConfig, PlannedTrainArrival, add_saturated}
use multi_agent_route_planni.Planner.Ranks.{
  Slot, Round, earliest_open, choose, take_rank, rank_loop, planned, first_round,
}
use multi_agent_route_planni.Planner.Times.{
  add_saturated_mono, add_saturated-ge, add_saturated-le_max,
}
use multi_agent_route_planni.Planner.Ranking.{IsOpen, choose-IsOpen}

set_elem-cases {ℓ} :
    {A : Type ℓ} (xs : List A) (b i : ℕ) {x y s : A}
    → get_elem? xs b ≡ some y
    → get_elem? (set_elem b x xs) i ≡ some s
    → ((i ≡ b) × (x ≡ s)) ⊎ ((i ≢ b) × (get_elem? xs i ≡ some s))
set_elem-cases xs b i {x} {y} {s} h e = elim (Bool-cases (i == b)) [
  | inl here ↦
      let i=b : i ≡ b = ground arith in
      let e' : get_elem? (set_elem b x xs) b ≡ some s =
        subst (λ j. get_elem? (set_elem b x xs) j ≡ some s) i=b e in
      inl (i=b, some-eq (sym (get_elem?-set_elem_self xs b x y h) ∙ e'))
  | inr other ↦
      let b≠i : b ≢ i = λ q. absurd (ground arith) in
      inr (λ q. absurd (ground arith), sym (get_elem?-set_elem_other xs b i x b≠i) ∙ e)
]

module _ (F : Floats) (config : AffectedLinePlannerConfig F) (now : ℕ) where
  -- Two trains of one plan: the one that enters first is ranked first, and the spacing is kept.
  abbrev pub AreApart : PlannedTrainArrival F → PlannedTrainArrival F → Type 0
  AreApart a b =
      (a.suggested_rank ≢ b.suggested_rank)
      × (a.suggested_rank < b.suggested_rank
          → add_saturated a.planned_entry_simulation_ms config.planned_minimum_spacing_ms
            ≤ b.planned_entry_simulation_ms)

  -- An arrival after the beginning of the game's time, in 64 bits.
  abbrev pub IsTime : PlannedTrainArrival F → Type 0
  IsTime a = (0 < a.estimated_arrival_simulation_ms) × (a.estimated_arrival_simulation_ms ≤ u64_max)

  -- Between two rounds.
  pub record Ranked (r : Round F) : Type 0 where
    pub later : (i : ℕ) {s : Slot F} → get_elem? r.slots i ≡ some s → IsTime s.state
    pub below :
        (i : ℕ) {s : Slot F}
        → get_elem? r.slots i ≡ some s
        → s.selected ≡ true
        → (s.state.suggested_rank < r.rank)
          × (s.state.estimated_arrival_simulation_ms ≤ s.state.planned_entry_simulation_ms)
          × (s.state.planned_entry_simulation_ms ≤ r.last_planned_entry)
    pub apart :
        (i j : ℕ) {s t : Slot F}
        → i ≢ j
        → get_elem? r.slots i ≡ some s
        → get_elem? r.slots j ≡ some t
        → s.selected ≡ true
        → t.selected ≡ true
        → AreApart s.state t.state
    pub started : r.rank ≢ 0 → r.last_planned_entry ≢ 0
    pub bounded : r.last_planned_entry ≤ u64_max

  -- The entry of the next train: from its arrival on, and a spacing after the last.
  planned-after :
      (rank last : ℕ) (a : PlannedTrainArrival F)
      → IsTime a
      → last ≤ u64_max
      → (a.estimated_arrival_simulation_ms
          ≤ (planned F config now rank last a).planned_entry_simulation_ms)
        × (last ≤ (planned F config now rank last a).planned_entry_simulation_ms)
        × ((planned F config now rank last a).planned_entry_simulation_ms ≤ u64_max)
        × ((planned F config now rank last a).planned_entry_simulation_ms ≢ 0)
        × (last ≢ 0
            → add_saturated last config.planned_minimum_spacing_ms
              ≤ (planned F config now rank last a).planned_entry_simulation_ms)
  unfolding planned
  planned-after rank last a t h =
      let grows = add_saturated-ge last config.planned_minimum_spacing_ms h in
      let fits = add_saturated-le_max last config.planned_minimum_spacing_ms h in
      (ground arith, ground arith, ground arith, ground arith, λ n. ground arith)

  -- A train that is ranked, and the next one.
  next-AreApart :
      (r : Round F) (a : PlannedTrainArrival F) (i : ℕ) {s : Slot F}
      → IsTime a
      → Ranked r
      → get_elem? r.slots i ≡ some s
      → s.selected ≡ true
      → AreApart s.state (planned F config now r.rank r.last_planned_entry a)
        × AreApart (planned F config now r.rank r.last_planned_entry a) s.state
  unfolding planned
  next-AreApart r a i {s} t v e sel =
      let (lower, after, until) = v.below i e sel in
      let (arrived, kept, fits, on, spaced) =
        planned-after r.rank r.last_planned_entry a t v.bounded in
      let far = spaced (v.started (omega arith)) in
      let mono =
        add_saturated_mono s.state.planned_entry_simulation_ms r.last_planned_entry
          config.planned_minimum_spacing_ms until in
      ((omega arith, λ l. omega arith), (omega arith, λ l. absurd (omega arith)))

  take_rank-Ranked :
      (r : Round F) (c : ℕ × PlannedTrainArrival F)
      → IsOpen F r.slots c.0 c.1
      → Ranked r
      → Ranked (take_rank F config now r c)
  unfolding take_rank planned
  take_rank-Ranked r (best, a) (s₀, found, open_, same) v =
      let time : IsTime a = subst IsTime same (v.later best found) in
      let (arrived, kept, fits, on, spaced) =
        planned-after r.rank r.last_planned_entry a time v.bounded in
      record {
        later = λ i {s} e. elim (set_elem-cases r.slots best i found e) [
          | inl (_, new) ↦ subst (λ (x : Slot F). IsTime x.state) new time
          | inr (_, e') ↦ v.later i e'
        ];
        below = λ i {s} e sel. elim (set_elem-cases r.slots best i found e) [
          | inl (_, new) ↦
              subst
                (λ (x : Slot F).
                  (x.state.suggested_rank < r.rank + 1)
                  × (x.state.estimated_arrival_simulation_ms ≤ x.state.planned_entry_simulation_ms)
                  × (x.state.planned_entry_simulation_ms
                      ≤ (planned F config now r.rank r.last_planned_entry
                          a).planned_entry_simulation_ms))
                new (omega arith, arrived, omega arith)
          | inr (_, e') ↦
              let (lower, after, until) = v.below i e' sel in (omega arith, after, omega arith)
        ];
        apart = λ i j {s} {t} ne ei ej si sj. elim (set_elem-cases r.slots best i found ei) [
          | inl (hi, new) ↦ elim (set_elem-cases r.slots best j found ej) [
            | inl (hj, _) ↦ absurd (ne (hi ∙ sym hj))
            | inr (_, ej') ↦
                subst (λ (x : Slot F). AreApart x.state t.state) new
                  (next-AreApart r a j time v ej' sj).1
          ]
          | inr (_, ei') ↦ elim (set_elem-cases r.slots best j found ej) [
            | inl (_, new) ↦
                subst (λ (x : Slot F). AreApart s.state x.state) new
                  (next-AreApart r a i time v ei' si).0
            | inr (_, ej') ↦ v.apart i j ne ei' ej' si sj
          ]
        ];
        started = λ n. on;
        bounded = fits;
      }

  pub rank_loop-Ranked :
      (fuel : ℕ) (r : Round F) → Ranked r → Ranked (rank_loop F config now fuel r)
  unfolding rank_loop
  rank_loop-Ranked zero r v = v
  rank_loop-Ranked (suc fuel) r v = elim (Option-cases (earliest_open F 0 r.slots)) [
    | inl e ↦ rw (e, rank_loop) v
    | inr ((i, a), e) ↦
        rw (e, rank_loop)
          (rank_loop-Ranked fuel (take_rank F config now r (choose F config now r i a))
            (take_rank-Ranked r (choose F config now r i a) (choose-IsOpen F config now r e) v))
  ]

  abbrev pub AreTimes : List (PlannedTrainArrival F) → Type 0
  AreTimes states = (i : ℕ) (a : PlannedTrainArrival F) → get_elem? states i ≡ some a → IsTime a

  first_slot :
      (states : List (PlannedTrainArrival F)) (i : ℕ) {s : Slot F}
      → get_elem? (first_round F config now states).slots i ≡ some s
      → (s.selected ≡ false) × (get_elem? states i ≡ some s.state)
  first_slot states i {s} e =
      let (a, found, same) = get_elem?-map _ states i e in
      (ap (λ (x : Slot F). x.selected) (sym same), found ∙ ap (λ (x : Slot F). some x.state) same)

  pub first_round-Ranked :
      (states : List (PlannedTrainArrival F))
      → AreTimes states
      → Ranked (first_round F config now states)
  first_round-Ranked states h = record {
    later = λ i {s} e. h i s.state (first_slot states i e).1;
    below = λ i e sel. absurd (ground (arith, (first_slot states i e).0));
    apart = λ i j ne ei ej si sj. absurd (ground (arith, (first_slot states i ei).0));
    started = λ n. absurd (n refl);
    bounded = omega arith;
  }
