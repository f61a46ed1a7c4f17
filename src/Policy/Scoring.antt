-- ===== src/Policy/Scoring.antt =====
-- The scoring loop of `decide` in server/src/DynamicPriorityPolicy.cpp.
use mathlib.Core.Option
use multi_agent_route_planni.Base.{
  ℕ, Bool, not, ◌&&◌, ◌||◌, Option, List, if◌then◌else◌, ◌==◌, nat_eq, string_eq, ltb, leb, any_of,
  keep_some,
}
use multi_agent_route_planni.Base.Floats.{Floats}
use multi_agent_route_planni.Dispatch.{
  DispatchCandidate, LineDispatchState, DispatchContext, DispatchScoreBreakdown,
  DynamicPriorityConfig,
}
use multi_agent_route_planni.Policy.Constraints.{elapsed_since, feasible_line}

-- A candidate that is in the running.
pub record ScoredCandidate (F : Floats) : Type 0 where
  pub candidate : DispatchCandidate F
  pub breakdown : DispatchScoreBreakdown F
  pub score : F.Double
  pub waiting_ms : ℕ
  pub maximum_wait_exceeded : Bool
  pub consecutive_limit_reached : Bool

module _ (F : Floats) where
  open F use {Double, decimal, of_ℕ, add, sub, mul, div}

  module _ (config : DynamicPriorityConfig F) (context : DispatchContext F) where
    -- A line that was never released counts as one target headway late.
    unfoldable pub since_release : LineDispatchState F → ℕ
    since_release line =
        if line.last_release_simulation_ms == 0
        then line.target_headway_ms
        else elapsed_since context.simulation_now_ms line.last_release_simulation_ms

    unfoldable pub waiting : DispatchCandidate F → ℕ
    waiting c = elapsed_since context.simulation_now_ms c.arrived_at_simulation_ms

    unfoldable pub breakdown_of :
        DispatchCandidate F → LineDispatchState F → DispatchScoreBreakdown F
    breakdown_of c line = record {
      headway_urgency = div (of_ℕ (since_release line)) (of_ℕ line.target_headway_ms);
      waiting_time = div (of_ℕ (waiting c)) (of_ℕ config.maximum_wait_ms);
      fairness_credit = line.fairness_credit;
      consecutive_penalty =
          if c.line_id == context.last_released_line_id
          then of_ℕ context.consecutive_release_count
          else decimal 0 0;
      global_plan_priority = c.global_plan_priority;
    }

    unfoldable pub score_of : DispatchScoreBreakdown F → Double
    score_of b =
        sub
          (add
            (add
              (add (mul config.headway_urgency_weight b.headway_urgency)
                (mul config.waiting_time_weight b.waiting_time))
              (mul config.fairness_credit_weight b.fairness_credit))
            (mul config.global_plan_weight b.global_plan_priority))
          (mul config.consecutive_penalty_weight b.consecutive_penalty)

    unfoldable pub score_candidate : DispatchCandidate F → LineDispatchState F → ScoredCandidate F
    unfolding breakdown_of
    score_candidate c line = record {
      candidate = c;
      breakdown = breakdown_of c line;
      score = score_of (breakdown_of c line);
      waiting_ms = waiting c;
      maximum_wait_exceeded = leb config.maximum_wait_ms (waiting c);
      consecutive_limit_reached =
          ltb 0 config.max_consecutive_release
          && c.line_id == context.last_released_line_id
          && leb config.max_consecutive_release context.consecutive_release_count;
    }

    -- The scoring loop.
    abbrev pub scored_item : DispatchCandidate F → Option (ScoredCandidate F)
    scored_item c = Option.map (score_candidate c) (feasible_line F config context c)

    unfoldable pub scored : List (DispatchCandidate F) → List (ScoredCandidate F)
    scored candidates = keep_some scored_item candidates

    unfoldable pub has_alternative_line : List (ScoredCandidate F) → Bool
    has_alternative_line items =
        any_of (λ i. not (i.candidate.line_id == context.last_released_line_id)) items

abbrev pub eligible : {F : Floats} → Bool → ScoredCandidate F → Bool
eligible has_alternative item =
    item.maximum_wait_exceeded || not (item.consecutive_limit_reached && has_alternative)
