-- ===== src/Manager/Tests.antt =====
-- One corridor with both directions, and a train that waits at its forward end, before
-- server/src/DispatchManager.cpp, in thousandths.
use multi_agent_route_planni.Base.{
  String, ◌≡◌, ◌≢◌, ◌↔◌, ◌⊎◌, refl, true, false, none, some, [], ◌∷◌, arith, nat_eq, string_eq, ok,
  any_of, any_entry, contains, remove_if, keep_some, lookup, insert, erase, erase_if, value_or,
  emplace,
}
use multi_agent_route_planni.Base.Floats.{thousandths, double_min}
use multi_agent_route_planni.Dispatch.{
  release, CorridorDirection, DispatchCandidate, LineDispatchState, SharedCorridorState,
  DispatchDecision, default_decision, default_config, default_line, default_breakdown,
}
use multi_agent_route_planni.Reservation.{
  LineIntersectionMovement, init, runtime_at, try_emplace, is_registrable, register_movement,
  clearance_for, movements_conflict, collect, requested_conflict, blocks_active, blocks_cleared,
  check_runtime, check_movement, check_all, admit, can_reserve, reserve_one, reserve_all,
  try_reserve_atomically,
}
use multi_agent_route_planni.Reservation.Lookup.{active_at, cleared_at}
use multi_agent_route_planni.Reservation.Clearing.{is_held}
use multi_agent_route_planni.Policy.Constraints.{
  make_decision, policy, minimum_headway, hard_constraint, is_consistent, feasible_line,
}
use multi_agent_route_planni.Policy.Scoring.{
  since_release, waiting, breakdown_of, score_of, score_candidate, scored, has_alternative_line,
}
use multi_agent_route_planni.Policy.Decision.{
  waits_longer, scores_higher, select_by, select, release_decision, choose, decide,
}
use multi_agent_route_planni.Manager.{
  DispatchManagerConfig, DispatchManager, fresh_manager, manager, register_intersection_movement,
  upsert_corridor, upsert_line_state, replace_candidates, credited, update_fairness_credits,
}
use multi_agent_route_planni.Manager.Planning.{
  opposing_reason, prepare, opposed, last_reason, intersection_hold, context_for,
  reservation_failed, issue, settle, commit, choose_next, plan_for, plan_next,
}
use multi_agent_route_planni.Manager.Answers.{confirm_entry, cancel_pending}
use multi_agent_route_planni.Manager.Safety.{IsSafe}
use multi_agent_route_planni.Manager.Histories.{
  Reach, start, then_, registers_movement, upserts, upserts_line, replaces, plans, Reach-IsSafe,
}
use multi_agent_route_planni.Manager.Plans.{Holds, Issues, plan_next_cases}
use multi_agent_route_planni.Manager.Releases.{CanRelease, plan_next_iff}
use multi_agent_route_planni.Manager.Cancels.{cancel_pending-plan_next}
use multi_agent_route_planni.Manager.Entries.{Enters, confirm_entry-plan_next}

program : Unit {0}
unfolding default_decision default_config default_line default_breakdown make_decision policy
    minimum_headway hard_constraint is_consistent feasible_line since_release waiting breakdown_of
    score_of score_candidate scored has_alternative_line waits_longer scores_higher select_by select
    release_decision choose decide any_of keep_some lookup insert erase erase_if value_or emplace
    remove_if contains any_entry double_min init runtime_at try_emplace is_registrable
    register_movement clearance_for movements_conflict collect requested_conflict blocks_active
    blocks_cleared check_runtime check_movement check_all admit can_reserve reserve_one reserve_all
    try_reserve_atomically active_at cleared_at manager register_intersection_movement
    upsert_corridor upsert_line_state replace_candidates credited update_fairness_credits
    opposing_reason prepare opposed last_reason intersection_hold context_for reservation_failed
    issue settle commit choose_next plan_for plan_next
program = tt

abbrev config : DispatchManagerConfig thousandths
config = record {
  priority = default_config thousandths;
  default_intersection_clearance_ms = 2000;
  default_corridor_capacity = 8;
}

abbrev corridor : String → CorridorDirection → SharedCorridorState thousandths
corridor id direction = record {
  corridor_resource_id = id;
  corridor_id = "C1";
  direction = direction;
  received_at_wall_ms = 1000;
  last_entry_simulation_ms = 0;
  minimum_headway_ms = 5000;
  occupancy = 0;
  capacity = 8;
  downstream_available = true;
  command_pending = false;
  candidates = [];
}

abbrev candidate : DispatchCandidate thousandths
candidate = record {
  train_id = "T1";
  line_id = "L1";
  corridor_direction = CorridorDirection.forward;
  corridor_resource_id = "C1:FORWARD";
  required_intersection_movement_ids = "east" ∷ [];
  route_index = 0;
  route_position = 0;
  arrived_at_simulation_ms = 50000;
  received_at_wall_ms = 1000;
  predicted_arrival_simulation_ms = 0;
  rolling_plan_rank = 0;
  global_plan_priority = 0;
}

abbrev east : LineIntersectionMovement
east = record {
  movement_id = "east";
  intersection_id = "X";
  line_id = "L1";
  incoming_route_segment_id = "in";
  outgoing_route_segment_id = "out";
  conflict_movement_ids = [];
  clearance_time_ms = 0;
}

abbrev line : LineDispatchState thousandths
line = default_line thousandths

built : DispatchManager thousandths
built = fresh_manager thousandths config (default_config thousandths)

with_movement : DispatchManager thousandths
with_movement = (register_intersection_movement thousandths built east).0

with_forward : DispatchManager thousandths
with_forward =
    upsert_corridor thousandths with_movement (corridor "C1:FORWARD" CorridorDirection.forward)

with_reverse : DispatchManager thousandths
with_reverse =
    upsert_corridor thousandths with_forward (corridor "C1:REVERSE" CorridorDirection.reverse)

with_line : DispatchManager thousandths
with_line = upsert_line_state thousandths with_reverse "C1:FORWARD" "L1" line

ready : DispatchManager thousandths
ready = (replace_candidates thousandths with_line "C1:FORWARD" (candidate ∷ []) 1000).0

planned : DispatchManager thousandths × DispatchDecision thousandths
planned = elim (plan_next thousandths ready "C1:FORWARD" 60000 1200) [
  | none ↦ (ready, default_decision thousandths)
  | some o ↦ o
]

data_ : Unit {0}
unfolding program built with_movement with_forward with_reverse with_line ready planned
data_ = tt

plans_ : plan_next thousandths ready "C1:FORWARD" 60000 1200 ≡ some planned
unfolding data_
plans_ = refl

releases_ : planned.1.action ≡ release
unfolding data_
releases_ = refl

builds : manager thousandths config ≡ ok built
unfolding data_
builds = refl

before : Reach thousandths built ready
unfolding data_
before =
    then_
      (then_
        (then_
          (then_ (then_ start (registers_movement east (λ i. refl)))
            (upserts (corridor "C1:FORWARD" CorridorDirection.forward) refl))
          (upserts (corridor "C1:REVERSE" CorridorDirection.reverse) refl))
        (upserts_line "C1:FORWARD" "L1" line))
      (replaces "C1:FORWARD" (candidate ∷ []) 1000)

after : Reach thousandths built planned.0
after = then_ before (plans "C1:FORWARD" 60000 1200 plans_)

Reach-IsSafe_example : IsSafe thousandths planned.0
Reach-IsSafe_example = Reach-IsSafe thousandths config builds after

ready-IsSafe : IsSafe thousandths ready
ready-IsSafe = Reach-IsSafe thousandths config builds before

plan_next_cases_example :
    (o : DispatchManager thousandths × DispatchDecision thousandths) × (plan_next thousandths ready
        "C1:FORWARD" 60000 1200
      ≡ some o)
    × (Holds thousandths ready o ⊎ Issues thousandths ready "C1:FORWARD" 60000 1200 o)
plan_next_cases_example = plan_next_cases thousandths ready "C1:FORWARD" 60000 1200

plan_next_iff_example :
    ((o : DispatchManager thousandths × DispatchDecision thousandths) × (plan_next thousandths ready
          "C1:FORWARD" 60000 1200
        ≡ some o)
      × (o.1.action ≡ release))
    ↔ CanRelease thousandths ready "C1:FORWARD" 60000 1200
plan_next_iff_example =
    plan_next_iff thousandths ready "C1:FORWARD" 60000 1200 ready-IsSafe.corridor_keys

confirm_entry-plan_next_example :
    let r = confirm_entry thousandths planned.0 "C1:FORWARD" planned.1.train_id 61000 in
    (r.1 ≡ true)
    × ((c : SharedCorridorState thousandths) × (c' : SharedCorridorState thousandths) × (lookup
            "C1:FORWARD" ready.corridors
          ≡ some c)
        × (lookup "C1:FORWARD" r.0.corridors ≡ some c')
        × Enters thousandths c planned.1.train_id 61000 c')
    × (lookup "C1:FORWARD" r.0.pending_decisions ≡ none)
    × ((j : String) → "C1:FORWARD" ≢ j → lookup j r.0.corridors ≡ lookup j ready.corridors)
confirm_entry-plan_next_example =
    confirm_entry-plan_next thousandths ready "C1:FORWARD" 60000 1200 61000 ready-IsSafe plans_
      releases_

nothing_held :
    (i a : String) → is_held planned.1.train_id (active_at ready.reservations i a) ≡ false
unfolding data_
nothing_held i a = ground arith

cancel_pending-plan_next_example :
    let r = (cancel_pending thousandths planned.0 "C1:FORWARD").0 in
    ((j : String) → lookup j r.corridors ≡ lookup j ready.corridors)
    × ((j : String) → lookup j r.pending_decisions ≡ lookup j ready.pending_decisions)
    × ((i a : String)
        → (active_at r.reservations i a ≡ active_at ready.reservations i a)
          × (cleared_at r.reservations i a ≡ cleared_at ready.reservations i a))
cancel_pending-plan_next_example =
    cancel_pending-plan_next thousandths ready "C1:FORWARD" 60000 1200 ready-IsSafe plans_ releases_
      nothing_held
