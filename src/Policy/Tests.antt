-- ===== src/Policy/Tests.antt =====
-- Three waiting trains before the policy of server/src/DynamicPriorityPolicy.cpp, in thousandths.
use mathlib.Core.List.{Memᴰ}
use multi_agent_route_planni.Base.{
  ℕ, ◌≤◌, ◌<◌, String, ◌≡◌, ◌↔◌, refl, sym, subst, ◌⊎◌, inl, inr, true, false, some, List, [], ◌∷◌,
  arith, nat_eq, string_eq, any_of, keep_some, lookup,
}
use multi_agent_route_planni.Base.Floats.{thousandths}
use multi_agent_route_planni.Dispatch.{
  release, CorridorDirection, DispatchCandidate, LineDispatchState, SharedCorridorState,
  DispatchContext, DynamicPriorityConfig, default_decision, default_config, default_line,
  default_breakdown,
}
use multi_agent_route_planni.Policy.Constraints.{
  make_decision, minimum_headway, hard_constraint, is_consistent, feasible_line,
}
use multi_agent_route_planni.Policy.Scoring.{
  since_release, waiting, breakdown_of, score_of, score_candidate, scored, has_alternative_line,
}
use multi_agent_route_planni.Policy.Decision.{
  waits_longer, scores_higher, select_by, select, release_decision, choose, decide,
}
use multi_agent_route_planni.Policy.Release.{IsOpen, IsFeasible}
use multi_agent_route_planni.Policy.Choice.{Releases, decide_release_safe, decide_release_iff}
use multi_agent_route_planni.Policy.Fairness.{
  IsOrdered, decide_longest_wait, decide_within_limit, decide_highest_score,
}

program : Unit {0}
unfolding default_decision default_config default_line default_breakdown make_decision
    minimum_headway hard_constraint is_consistent feasible_line since_release waiting breakdown_of
    score_of score_candidate scored has_alternative_line waits_longer scores_higher select_by select
    release_decision choose decide any_of keep_some lookup
program = tt

abbrev candidate : String → String → ℕ → DispatchCandidate thousandths
candidate train line arrived = record {
  train_id = train;
  line_id = line;
  corridor_direction = CorridorDirection.forward;
  corridor_resource_id = "C1:FORWARD";
  required_intersection_movement_ids = [];
  route_index = 0;
  route_position = 0;
  arrived_at_simulation_ms = arrived;
  received_at_wall_ms = 1000;
  predicted_arrival_simulation_ms = 0;
  rolling_plan_rank = 0;
  global_plan_priority = 0;
}

line : LineDispatchState thousandths
unfolding default_line
line = default_line thousandths

abbrev corridor : List (DispatchCandidate thousandths) → SharedCorridorState thousandths
corridor candidates = record {
  corridor_resource_id = "C1:FORWARD";
  corridor_id = "C1";
  direction = CorridorDirection.forward;
  received_at_wall_ms = 1000;
  last_entry_simulation_ms = 0;
  minimum_headway_ms = 5000;
  occupancy = 0;
  capacity = 8;
  downstream_available = true;
  command_pending = false;
  candidates = candidates;
}

abbrev context_of : List (DispatchCandidate thousandths) → String → ℕ → DispatchContext thousandths
context_of candidates last count = record {
  corridor = corridor candidates;
  lines = ("A", line) ∷ ("B", line) ∷ [];
  last_released_line_id = last;
  consecutive_release_count = count;
  simulation_now_ms = 50000;
  wall_now_ms = 1500;
}

abbrev first : DispatchCandidate thousandths
first = candidate "T1" "A" 45000

abbrev second : DispatchCandidate thousandths
second = candidate "T2" "B" 49000

abbrev starved : DispatchCandidate thousandths
starved = candidate "T3" "B" 29000

config : DynamicPriorityConfig thousandths
unfolding default_config
config = default_config thousandths

calm : DispatchContext thousandths
calm = context_of (first ∷ second ∷ []) "" 0

-- After two releases of line A in a row, line B goes first.
limited : DispatchContext thousandths
limited = context_of (first ∷ second ∷ []) "A" 2

alone : DispatchContext thousandths
alone = context_of (first ∷ []) "A" 2

starving : DispatchContext thousandths
starving = context_of (first ∷ second ∷ starved ∷ []) "B" 5

released_calm : (decide thousandths config calm).train_id ≡ "T1"
unfolding program config line calm
released_calm = refl

released_limited : (decide thousandths config limited).train_id ≡ "T2"
unfolding program config line limited
released_limited = refl

released_starving : (decide thousandths config starving).train_id ≡ "T3"
unfolding program config line starving
released_starving = refl

calm_releases : (decide thousandths config calm).action ≡ release
unfolding program config line calm
calm_releases = refl

decide_release_safe_example :
    IsOpen thousandths config calm
    × ((c : DispatchCandidate thousandths) × IsFeasible thousandths config calm c
        × Releases thousandths config calm c (decide thousandths config calm))
decide_release_safe_example = decide_release_safe thousandths config calm calm_releases

decide_release_iff_example : ((decide thousandths config limited).action ≡ release) ↔ (
    IsOpen thousandths config limited
    × ((c : DispatchCandidate thousandths) × IsFeasible thousandths config limited c))
decide_release_iff_example = decide_release_iff thousandths config limited

starving_releases : (decide thousandths config starving).action ≡ release
unfolding program config line starving
starving_releases = refl

starved-IsFeasible : IsFeasible thousandths config starving starved
unfolding program config line starving
starved-IsFeasible = (Memᴰ.tail (Memᴰ.tail (Memᴰ.head refl)), (line, refl))

starved_waited : config.maximum_wait_ms ≤ waiting thousandths config starving starved
unfolding program config starving
starved_waited = omega arith

decide_longest_wait_example :
    (r : DispatchCandidate thousandths) × IsFeasible thousandths config starving r
    × Releases thousandths config starving r (decide thousandths config starving)
    × (waiting thousandths config starving starved ≤ waiting thousandths config starving r)
decide_longest_wait_example =
    decide_longest_wait thousandths config starving starved starving_releases starved-IsFeasible
      starved_waited

alone_releases : (decide thousandths config alone).action ≡ release
unfolding program config line alone
alone_releases = refl

alone_line : (decide thousandths config alone).line_id ≡ alone.last_released_line_id
unfolding program config line alone
alone_line = refl

decide_within_limit_example :
    ((r : DispatchCandidate thousandths) × IsFeasible thousandths config alone r
      × Releases thousandths config alone r (decide thousandths config alone)
      × (config.maximum_wait_ms ≤ waiting thousandths config alone r))
    ⊎ ((c : DispatchCandidate thousandths)
        → IsFeasible thousandths config alone c
        → c.line_id ≡ alone.last_released_line_id)
decide_within_limit_example =
    decide_within_limit thousandths config alone alone_releases alone_line
      (unfold config default_config in omega arith)
      (unfold config default_config alone in omega arith)

thousandths-IsOrdered : IsOrdered thousandths
thousandths-IsOrdered = record {
  irreflexive = λ a. ground arith;
  transitive = λ a b c h k. ground arith;
  eq_ltb = λ a b c h k. ground arith;
}

calm_patient :
    (x : DispatchCandidate thousandths)
    → IsFeasible thousandths config calm x
    → waiting thousandths config calm x < config.maximum_wait_ms
unfolding program config calm
calm_patient x (m, l) = elim m [
  | Memᴰ.head e ↦
      subst
        (λ (y : DispatchCandidate thousandths).
          waiting thousandths config calm y < config.maximum_wait_ms)
        (sym e) (omega arith)
  | Memᴰ.tail m' ↦ elim m' [
    | Memᴰ.head e ↦
        subst
          (λ (y : DispatchCandidate thousandths).
            waiting thousandths config calm y < config.maximum_wait_ms)
          (sym e) (omega arith)
    | Memᴰ.tail m'' ↦ elim m'' [ ]
  ]
]

second_line : feasible_line thousandths config calm second ≡ some line
unfolding program config line calm
second_line = refl

decide_highest_score_example :
    thousandths.ltb
      (decide thousandths config calm).score
      (score_of thousandths config calm (breakdown_of thousandths config calm second line))
    ≡ false
unfolding calm
decide_highest_score_example =
    decide_highest_score thousandths config calm second line thousandths-IsOrdered calm_releases
      calm_patient (Memᴰ.tail (Memᴰ.head refl)) second_line
      (inr (inl (unfold config default_config in omega arith)))
