-- ===== src/Policy/Decision.antt =====
-- The selection loops and the result of `decide` in server/src/DynamicPriorityPolicy.cpp.
use multi_agent_route_planni.Base.{
  String, Bool, true, ◌&&◌, ◌||◌, Option, none, some, List, [], ◌∷◌, if◌then◌else◌, ◌==◌, nat_eq,
  string_eq, ltb, is_lt, compare_text,
}
use multi_agent_route_planni.Base.Floats.{Floats}
use multi_agent_route_planni.Dispatch.{
  no_action, release, SharedCorridorState, DispatchContext, DispatchDecision, DynamicPriorityConfig,
}
use multi_agent_route_planni.Policy.Constraints.{make_decision, hard_constraint}
use multi_agent_route_planni.Policy.Scoring.{
  ScoredCandidate, scored, has_alternative_line, eligible,
}

-- A selection loop: of the items that pass the first test, the last that beats what was selected
-- before it.
unfoldable pub select_by :
    {A : Type 0} → (A → Bool) → (Option A → A → Bool) → List A → Option A → Option A
select_by runs beats [] selected = selected
select_by runs beats (item ∷ items) selected =
    select_by runs beats items (if runs item && beats selected item then some item else selected)

module _ (F : Floats) where
  -- `!selected || …` in the two selection loops.
  unfoldable pub waits_longer : Option (ScoredCandidate F) → ScoredCandidate F → Bool
  waits_longer none item = true
  waits_longer (some s) item =
      ltb s.waiting_ms item.waiting_ms
      || (item.waiting_ms == s.waiting_ms && F.ltb s.score item.score)

  unfoldable pub scores_higher : Option (ScoredCandidate F) → ScoredCandidate F → Bool
  scores_higher none item = true
  scores_higher (some s) item =
      F.ltb s.score item.score
      || (F.eqb item.score s.score && ltb s.waiting_ms item.waiting_ms)
      || (F.eqb item.score s.score
          && item.waiting_ms == s.waiting_ms
          && is_lt (compare_text item.candidate.train_id s.candidate.train_id))

  -- Starving trains come first; without any, the score decides.
  unfoldable pub select : Bool → List (ScoredCandidate F) → Option (ScoredCandidate F)
  unfolding select_by
  select has_alternative items =
      elim (select_by (λ i. eligible has_alternative i && i.maximum_wait_exceeded) waits_longer
        items none) [
          | some s ↦ some s
          | none ↦ select_by (eligible has_alternative) scores_higher items none
        ]

  unfoldable pub release_decision : SharedCorridorState F → ScoredCandidate F → DispatchDecision F
  unfolding make_decision
  release_decision corridor s = record (make_decision F release corridor why) {
    train_id = s.candidate.train_id;
    line_id = s.candidate.line_id;
    reserved_intersection_movement_ids = s.candidate.required_intersection_movement_ids;
    score = s.score;
    breakdown = s.breakdown;
  }
    where
      why : String
      why = if s.maximum_wait_exceeded then "maximum_wait_exceeded" else "highest_dynamic_priority"

  unfoldable pub choose :
      DynamicPriorityConfig F → DispatchContext F → List (ScoredCandidate F) → DispatchDecision F
  choose config context [] = make_decision F no_action context.corridor "no_feasible_candidate"
  choose config context (item ∷ items) =
      elim (select (has_alternative_line F config context (item ∷ items)) (item ∷ items)) [
        | none ↦ make_decision F no_action context.corridor "no_eligible_candidate"
        | some s ↦ release_decision context.corridor s
      ]

  unfoldable pub decide : DynamicPriorityConfig F → DispatchContext F → DispatchDecision F
  decide config context = elim (hard_constraint F config context) [
    | some decision ↦ decision
    | none ↦ choose config context (scored F config context context.corridor.candidates)
  ]
