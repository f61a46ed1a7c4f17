-- ===== src/Planner/Ranking.antt =====
-- The loop of server/src/AffectedLinePlanner.cpp that ranks the trains of one direction: each round
-- ranks one open train, and the loop ends when none is left.
use multi_agent_route_planni.Base.{
  ℕ, zero, suc, ◌+◌, ◌≤◌, String, ◌≡◌, refl, sym, ap, ◌∙◌, subst, inl, inr, true, false, ◌&&◌, none,
  some, List, [], ◌∷◌, arith, if◌then◌else◌, ltb, length, drop, get_elem?, set_elem, get_elem?-drop,
  Bool-cases, Option-cases, some-eq,
}
use multi_agent_route_planni.Base.Floats.{Floats}
use multi_agent_route_planni.Planner.{AffectedLinePlannerConfig, PlannedTrainArrival}
use multi_agent_route_planni.Planner.Ranks.{
  Slot, Round, is_open, earliest_open, scan, beats, score, choose, take_rank, rank_loop, planned,
}

module _ (F : Floats) where
  -- The slot at an index is open and holds the train.
  abbrev pub IsOpen : List (Slot F) → ℕ → PlannedTrainArrival F → Type 0
  IsOpen slots i a =
      (s : Slot F) × (get_elem? slots i ≡ some s) × (is_open F s ≡ true) × (s.state ≡ a)

  -- The indices of `xs` are those of `slots` from `i` on.
  abbrev IsSuffix : ℕ → List (Slot F) → List (Slot F) → Type 0
  IsSuffix i xs slots = (j : ℕ) → get_elem? xs j ≡ get_elem? slots (i + j)

  suffix_tail :
      (i : ℕ) (s : Slot F) (xs slots : List (Slot F))
      → IsSuffix i (s ∷ xs) slots
      → IsSuffix (suc i) xs slots
  suffix_tail i s xs slots h j =
      let e : i + suc j ≡ suc i + j = omega arith in h (suc j) ∙ ap (get_elem? slots) e

  suffix_head :
      (i : ℕ) (s : Slot F) (xs slots : List (Slot F))
      → IsSuffix i (s ∷ xs) slots
      → get_elem? slots i ≡ some s
  suffix_head i s xs slots h =
      let e : i + 0 ≡ i = omega arith in ap (get_elem? slots) (sym e) ∙ sym (h 0)

  earliest-IsOpen :
      (i : ℕ) (xs slots : List (Slot F)) {j : ℕ} {a : PlannedTrainArrival F}
      → IsSuffix i xs slots
      → earliest_open F i xs ≡ some (j, a)
      → IsOpen slots j a
  unfolding earliest_open
  earliest-IsOpen i [] slots h e = absurd (ground (arith, e))
  earliest-IsOpen i (s ∷ xs) slots {j} {a} h e = elim (Bool-cases (is_open F s)) [
    | inl open_ ↦
        let same : (i, s.state) ≡ (j, a) = some-eq (sym (rw (open_, earliest_open) refl) ∙ e) in
        subst (λ (x : ℕ × PlannedTrainArrival F). IsOpen slots x.0 x.1) same
          (s, suffix_head i s xs slots h, open_, refl)
    | inr closed ↦
        earliest-IsOpen (suc i) xs slots (suffix_tail i s xs slots h)
          (sym (rw (closed, earliest_open) refl) ∙ e)
  ]

  pub earliest-none :
      (i : ℕ) (xs : List (Slot F))
      → earliest_open F i xs ≡ none
      → (j : ℕ) {t : Slot F} → get_elem? xs j ≡ some t
      → is_open F t ≡ false
  unfolding earliest_open
  earliest-none i [] e j h = absurd (ground (arith, h))
  earliest-none i (s ∷ xs) e zero {t} h = elim (Bool-cases (is_open F s)) [
    | inl open_ ↦
        let bad : some (i, s.state) ≡ none = sym (rw (open_, earliest_open) refl) ∙ e in
        absurd (ground (arith, bad))
    | inr closed ↦ subst (λ x. is_open F x ≡ false) (some-eq h) closed
  ]
  earliest-none i (s ∷ xs) e (suc j) {t} h = elim (Bool-cases (is_open F s)) [
    | inl open_ ↦
        let bad : some (i, s.state) ≡ none = sym (rw (open_, earliest_open) refl) ∙ e in
        absurd (ground (arith, bad))
    | inr closed ↦ earliest-none (suc i) xs (sym (rw (closed, earliest_open) refl) ∙ e) j h
  ]

  module _ (config : AffectedLinePlannerConfig F) (now : ℕ) where
    scan-IsOpen :
        (cutoff : ℕ) (last_line : String) (i : ℕ) (xs slots : List (Slot F))
        (c : ℕ × PlannedTrainArrival F × F.Double)
        → IsSuffix i xs slots
        → IsOpen slots c.0 c.1
        → IsOpen slots
            (scan F config now cutoff last_line i xs c).0
            (scan F config now cutoff last_line i xs c).1
    unfolding scan
    scan-IsOpen cutoff last_line i [] slots (best, a, b) h o = o
    scan-IsOpen cutoff last_line i (s ∷ xs) slots (best, a, b) h o =
        elim (Bool-cases (ltb cutoff s.state.estimated_arrival_simulation_ms)) [
          | inl late ↦ rw (late, scan) o
          | inr early ↦
              elim (Bool-cases (
                is_open F s
                && beats F config now (score F config now last_line s.state) s.state b a)) [
                  | inl better ↦
                      rw (early, scan, better)
                        (scan-IsOpen cutoff last_line (suc i) xs slots
                          (i, s.state, score F config now last_line s.state)
                          (suffix_tail i s xs slots h)
                          (s, suffix_head i s xs slots h, ground arith, refl))
                  | inr worse ↦
                      rw (early, scan, worse)
                        (scan-IsOpen cutoff last_line (suc i) xs slots (best, a, b)
                          (suffix_tail i s xs slots h) o)
                ]
        ]

    -- The train that a round ranks is one that is open.
    pub choose-IsOpen :
        (r : Round F) {i : ℕ} {a : PlannedTrainArrival F}
        → earliest_open F 0 r.slots ≡ some (i, a)
        → IsOpen r.slots (choose F config now r i a).0 (choose F config now r i a).1
    unfolding choose
    choose-IsOpen r {i} {a} e =
        scan-IsOpen _ r.last_line i (drop i r.slots) r.slots _ (λ j. get_elem?-drop i j r.slots)
          (earliest-IsOpen 0 r.slots r.slots
            (λ j. let e₀ : j ≡ 0 + j = omega arith in ap (get_elem? r.slots) e₀) e)

  -- How many trains the loop still has to rank.
  abbrev pub count_open : List (Slot F) → ℕ
  count_open [] = 0
  count_open (s ∷ slots) = (if is_open F s then 1 else 0) + count_open slots

  pub count_open-le : (slots : List (Slot F)) → count_open slots ≤ length slots
  count_open-le [] = omega arith
  count_open-le (s ∷ slots) = ground (arith, count_open-le slots)

  pub count_open-set_elem :
      (slots : List (Slot F)) (i : ℕ) (s x : Slot F)
      → get_elem? slots i ≡ some s
      → is_open F s ≡ true
      → is_open F x ≡ false
      → count_open (set_elem i x slots) + 1 ≡ count_open slots
  count_open-set_elem [] i s x h o c = absurd (ground (arith, h))
  count_open-set_elem (y ∷ slots) zero s x h o c =
      let o' : is_open F y ≡ true = subst (λ z. is_open F z ≡ true) (sym (some-eq h)) o in
      rw (o', c) (omega arith)
  count_open-set_elem (y ∷ slots) (suc i) s x h o c =
      omega (arith, count_open-set_elem slots i s x h o c)

  pub count_open-none :
      (i : ℕ) (slots : List (Slot F)) → count_open slots ≡ 0 → earliest_open F i slots ≡ none
  unfolding earliest_open
  count_open-none i [] h = refl
  count_open-none i (s ∷ slots) h = elim (Bool-cases (is_open F s)) [
    | inl open_ ↦ absurd (ground arith)
    | inr closed ↦ rw (closed, earliest_open) (count_open-none (suc i) slots (ground arith))
  ]

  take_rank-count_open :
      (config : AffectedLinePlannerConfig F) (now : ℕ) (r : Round F) (c : ℕ × PlannedTrainArrival F)
      → IsOpen r.slots c.0 c.1
      → count_open (take_rank F config now r c).slots + 1 ≡ count_open r.slots
  unfolding take_rank planned
  take_rank-count_open config now r (best, a) (s, found, open_, same) =
      count_open-set_elem r.slots best s
        (record { selected = true; state = planned F config now r.rank r.last_planned_entry a })
        found open_ refl

  -- The loop that ranks the trains of a direction ends: after as many rounds as there are trains
  -- that are neither ranked nor beyond the horizon, none of those is left.
  pub rank_loop-ends :
      (config : AffectedLinePlannerConfig F) (now fuel : ℕ) (r : Round F)
      → count_open r.slots ≤ fuel
      → earliest_open F 0 (rank_loop F config now fuel r).slots ≡ none
  unfolding rank_loop
  rank_loop-ends config now zero r h = count_open-none 0 r.slots (omega arith)
  rank_loop-ends config now (suc fuel) r h = elim (Option-cases (earliest_open F 0 r.slots)) [
    | inl e ↦ rw (e, rank_loop) e
    | inr ((i, a), e) ↦
        rw (e, rank_loop)
          (rank_loop-ends config now fuel (take_rank F config now r (choose F config now r i a)) (
            omega (
              arith,
              take_rank-count_open config now r (choose F config now r i a)
                  (choose-IsOpen config now r e),
            )))
  ]

  earliest_none-count_open :
      (i : ℕ) (slots : List (Slot F)) → earliest_open F i slots ≡ none → count_open slots ≡ 0
  unfolding earliest_open
  earliest_none-count_open i [] e = refl
  earliest_none-count_open i (s ∷ slots) e = elim (Bool-cases (is_open F s)) [
    | inl open_ ↦
        let bad : some (i, s.state) ≡ none = sym (rw (open_, earliest_open) refl) ∙ e in
        absurd (ground (arith, bad))
    | inr closed ↦
        let rest =
          earliest_none-count_open (suc i) slots (sym (rw (closed, earliest_open) refl) ∙ e) in
        rw closed (omega (arith, rest))
  ]

  -- Each round ranks one train.
  pub rank_loop-rank :
      (config : AffectedLinePlannerConfig F) (now fuel : ℕ) (r : Round F)
      → count_open r.slots ≤ fuel
      → (rank_loop F config now fuel r).rank ≡ r.rank + count_open r.slots
  unfolding rank_loop take_rank
  rank_loop-rank config now zero r h = omega arith
  rank_loop-rank config now (suc fuel) r h = elim (Option-cases (earliest_open F 0 r.slots)) [
    | inl e ↦ rw (e, rank_loop) (omega (arith, earliest_none-count_open 0 r.slots e))
    | inr ((i, a), e) ↦
        let next = take_rank F config now r (choose F config now r i a) in
        let one_less =
          take_rank-count_open config now r (choose F config now r i a)
            (choose-IsOpen config now r e) in
        rw (e, rank_loop) (omega (arith, rank_loop-rank config now fuel next (omega arith)))
  ]
