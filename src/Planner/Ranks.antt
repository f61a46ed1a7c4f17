-- ===== src/Planner/Ranks.antt =====
-- The order in which server/src/AffectedLinePlanner.cpp has the trains before a direction enter it:
-- the loop of `plan` that ranks them.
use multi_agent_route_planni.Base.{
  ℕ, zero, suc, ◌+◌, ◌-◌, max, String, Bool, true, false, not, ◌&&◌, ◌||◌, Option, none, some, List,
  [], ◌∷◌, if◌then◌else◌, ◌==◌, nat_eq, string_eq, ltb, length, map, drop, set_elem, is_lt,
  compare_text,
}
use multi_agent_route_planni.Base.Floats.{Floats, double_min}
use multi_agent_route_planni.Planner.{AffectedLinePlannerConfig, PlannedTrainArrival, add_saturated}

module _ (F : Floats) where
  open F use {
    Double, decimal, of_ℕ, add, sub, mul, div, eqb, is_finite, infinity, abs, ceil, truncate,
  }

  -- `states` and `selected`, which run side by side.
  pub record Slot : Type 0 where
    pub selected : Bool
    pub state : PlannedTrainArrival F

  abbrev pub is_open : Slot → Bool
  is_open s = not s.selected && s.state.within_planning_horizon

  unfoldable pub earliest_open : ℕ → List Slot → Option (ℕ × PlannedTrainArrival F)
  earliest_open i [] = none
  earliest_open i (s ∷ slots) = if is_open s then some (i, s.state) else earliest_open (suc i) slots

  -- The loop's variables.
  pub record Round : Type 0 where
    pub slots : List Slot
    pub last_line : String
    pub last_planned_entry : ℕ
    pub rank : ℕ

  module _ (config : AffectedLinePlannerConfig F) (now : ℕ) where
    unfoldable pub score : String → PlannedTrainArrival F → Double
    score last_line a =
        let until = of_ℕ (a.estimated_arrival_simulation_ms - now) in
        let urgency =
          sub (decimal 1 0)
            (double_min F (decimal 1 0) (div until (of_ℕ config.planning_horizon_ms))) in
        let base = add (mul (decimal 6 1) urgency) (mul (decimal 4 1) a.line_distribution_need) in
        if not (last_line == "") && a.line_id == last_line
        then sub base config.same_line_consecutive_penalty
        else base

    unfoldable pub beats : Double → PlannedTrainArrival F → Double → PlannedTrainArrival F → Bool
    beats x a best_score best =
        F.ltb best_score x || eqb x best_score && is_lt (compare_text a.train_id best.train_id)

    -- The best of the open ones that arrive until the cutoff: `best`, its state, and its score.
    unfoldable pub scan :
        ℕ → String → ℕ → List Slot → ℕ × PlannedTrainArrival F × Double → ℕ × PlannedTrainArrival F
    unfolding score beats
    scan cutoff last_line i [] (best, a, best_score) = (best, a)
    scan cutoff last_line i (s ∷ slots) (best, a, best_score) =
        let x = score last_line s.state in
        let next =
          if is_open s && beats x s.state best_score a
          then (i, s.state, x)
          else (best, a, best_score) in
        let rest = scan cutoff last_line (suc i) slots next in
        if ltb cutoff s.state.estimated_arrival_simulation_ms then (best, a) else rest

    abbrev pub entry_for : ℕ → PlannedTrainArrival F → ℕ
    entry_for last a = max a.estimated_arrival_simulation_ms (
        if last == 0
        then a.estimated_arrival_simulation_ms
        else add_saturated last config.planned_minimum_spacing_ms)

    unfoldable pub planned : ℕ → ℕ → PlannedTrainArrival F → PlannedTrainArrival F
    planned rank last a = record a {
      suggested_rank = rank;
      planned_entry_simulation_ms = entry_for last a;
      global_priority =
          add (div (decimal 1 0) (of_ℕ (rank + 1))) (mul (decimal 5 1) a.line_distribution_need);
    }

    unfoldable pub choose : Round → ℕ → PlannedTrainArrival F → ℕ × PlannedTrainArrival F
    unfolding scan
    choose r earliest a =
        scan (add_saturated a.estimated_arrival_simulation_ms config.reorder_tolerance_ms)
          r.last_line earliest (drop earliest r.slots) (earliest, a, sub (decimal 0 0) infinity)

    unfoldable pub take_rank : Round → ℕ × PlannedTrainArrival F → Round
    unfolding planned
    take_rank r (best, a) =
        let p = planned r.rank r.last_planned_entry a in
        record {
          slots = set_elem best (record { selected = true; state = p }) r.slots;
          last_line = p.line_id;
          last_planned_entry = p.planned_entry_simulation_ms;
          rank = r.rank + 1;
        }

    -- The loop, as many rounds as the fuel allows.
    unfoldable pub rank_loop : ℕ → Round → Round
    unfolding earliest_open choose take_rank
    rank_loop zero r = r
    rank_loop (suc fuel) r = elim (earliest_open 0 r.slots) [
      | none ↦ r
      | some (i, a) ↦ rank_loop fuel (take_rank r (choose r i a))
    ]

    abbrev pub first_round : List (PlannedTrainArrival F) → Round
    first_round states = record {
      slots = map (λ a. record { selected = false; state = a }) states;
      last_line = "";
      last_planned_entry = 0;
      rank = 0;
    }

    unfoldable pub rank_trains : List (PlannedTrainArrival F) → List (PlannedTrainArrival F)
    unfolding rank_loop
    rank_trains states = map (λ s. s.state) (rank_loop (length states) (first_round states)).slots
