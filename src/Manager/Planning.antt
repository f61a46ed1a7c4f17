-- ===== src/Manager/Planning.antt =====
-- `planNext` of server/src/DispatchManager.cpp: the next command for one direction of a corridor.
use multi_agent_route_planni.Base.{
  ℕ, String, Bool, true, false, not, ◌&&◌, ◌||◌, Option, none, some, List, [], ◌∷◌, if◌then◌else◌,
  ◌==◌, nat_eq, string_eq, ltb, Result, ok, fail, is_ok, remove_if, Map, lookup, insert, value_or,
  emplace,
}
use multi_agent_route_planni.Base.Floats.{Floats}
use multi_agent_route_planni.Dispatch.{
  DispatchAction, no_action, hold_all, release, DispatchCandidate, SharedCorridorState,
  DispatchContext, DispatchDecision, default_decision,
}
use multi_agent_route_planni.Reservation.{ReservationManager, can_reserve, try_reserve_atomically}
use multi_agent_route_planni.Policy.Decision.{decide}
use multi_agent_route_planni.Manager.{DispatchManager, update_fairness_credits}

abbrev pub is_release : DispatchAction → Bool
is_release release = true
is_release _ = false

module _ (F : Floats) where
  -- The loop over the other directions: the first that is in use closes this one.
  unfoldable pub opposing_reason :
      String → String → Map String (SharedCorridorState F) → Option String
  opposing_reason id corridor_id [] = none
  opposing_reason id corridor_id ((j, c) ∷ rest) =
      let others = opposing_reason id corridor_id rest in
      if j == id || not (c.corridor_id == corridor_id)
      then others
      else if ltb 0 c.occupancy
      then some "opposing_direction_occupied"
      else if c.command_pending
      then some "opposing_direction_pending"
      else others

  abbrev pub is_empty : List (DispatchCandidate F) → Bool
  is_empty [] = true
  is_empty (c ∷ cs) = false

  -- `operator[]` leaves an entry for the resource in three maps.
  unfoldable pub prepare : DispatchManager F → String → ℕ → DispatchManager F
  prepare m id now =
      let m' = update_fairness_credits F m id now in
      record m' {
        line_states = emplace id [] m'.line_states;
        last_released_line = emplace id "" m'.last_released_line;
        consecutive_release_count = emplace id 0 m'.consecutive_release_count;
      }

  unfoldable pub opposed : String → SharedCorridorState F → String → DispatchDecision F
  opposed id c reason = record (default_decision F) {
    action = if is_empty c.candidates then no_action else hold_all;
    corridor_resource_id = id;
    corridor_id = c.corridor_id;
    direction = c.direction;
    reason = reason;
  }

  -- The candidates that the intersections let through, and the reason of the last that they do not.
  abbrev pub is_blocked : ReservationManager → ℕ → DispatchCandidate F → Bool
  is_blocked r now c = not (is_ok (can_reserve r c.required_intersection_movement_ids now))

  unfoldable pub last_reason : ReservationManager → ℕ → List (DispatchCandidate F) → String → String
  last_reason r now [] reason = reason
  last_reason r now (c ∷ cs) reason =
      last_reason r now cs (elim (can_reserve r c.required_intersection_movement_ids now) [
        | ok _ ↦ reason
        | fail why ↦ why
      ])

  unfoldable pub intersection_hold : SharedCorridorState F → String → DispatchDecision F
  intersection_hold c reason = record (default_decision F) {
    action = hold_all;
    corridor_resource_id = c.corridor_resource_id;
    corridor_id = c.corridor_id;
    direction = c.direction;
    reason = if reason == "" then "line_intersection_conflict" else reason;
  }

  unfoldable pub context_for :
      DispatchManager F → String → ℕ → ℕ → SharedCorridorState F → DispatchContext F
  context_for m id now wall c = record {
    corridor = record c { candidates = remove_if (is_blocked m.reservations now) c.candidates };
    lines = value_or [] id m.line_states;
    last_released_line_id = value_or "" id m.last_released_line;
    consecutive_release_count = value_or 0 id m.consecutive_release_count;
    simulation_now_ms = now;
    wall_now_ms = wall;
  }

  unfoldable pub reservation_failed : DispatchDecision F → String → DispatchDecision F
  reservation_failed d reason = record d {
    action = hold_all;
    reason = if reason == "" then "line_intersection_reservation_failed" else reason;
    train_id = "";
    line_id = "";
    reserved_intersection_movement_ids = [];
  }

  -- What a successful reservation leaves: the command waits for the game's answer.
  unfoldable pub issue :
      DispatchManager F
      → String
      → SharedCorridorState F
      → DispatchDecision F
      → ReservationManager
      → DispatchManager F
  issue m id c d r = record m {
    reservations = r;
    corridors = insert id (record c { command_pending = true }) m.corridors;
    pending_decisions = insert id d m.pending_decisions;
  }

  unfoldable pub settle :
      DispatchManager F
      → String
      → SharedCorridorState F
      → DispatchDecision F
      → Option (ReservationManager × Result (Unit {0}))
      → Option (DispatchManager F × DispatchDecision F)
  settle m id c d none = none
  settle m id c d (some (r, fail reason)) =
      some (record m { reservations = r }, reservation_failed d reason)
  settle m id c d (some (r, ok _)) = some (issue m id c d r, d)

  unfoldable pub commit :
      DispatchManager F
      → String
      → ℕ
      → SharedCorridorState F
      → DispatchDecision F
      → Option (DispatchManager F × DispatchDecision F)
  unfolding settle
  commit m id now c d =
      if is_release d.action
      then settle m id c d (
          try_reserve_atomically m.reservations d.train_id d.reserved_intersection_movement_ids now)
      else some (m, d)

  -- `planNext` for a direction that exists and that no other one closes.
  unfoldable pub choose_next :
      DispatchManager F
      → String
      → ℕ
      → ℕ
      → SharedCorridorState F
      → Option (DispatchManager F × DispatchDecision F)
  unfolding commit
  choose_next m id now wall c =
      let context = context_for m id now wall c in
      if not (is_empty c.candidates) && is_empty context.corridor.candidates
      then some (m, intersection_hold c (last_reason m.reservations now c.candidates ""))
      else commit m id now c (decide F m.policy_config context)

  unfoldable pub plan_for :
      DispatchManager F
      → String
      → ℕ
      → ℕ
      → SharedCorridorState F
      → Option (DispatchManager F × DispatchDecision F)
  unfolding choose_next
  plan_for m id now wall c = elim (opposing_reason id c.corridor_id m.corridors) [
    | some reason ↦ some (m, opposed id c reason)
    | none ↦ choose_next m id now wall c
  ]

  unfoldable pub plan_next :
      DispatchManager F → String → ℕ → ℕ → Option (DispatchManager F × DispatchDecision F)
  unfolding plan_for
  plan_next m id now wall = elim (lookup id m.corridors) [
    | none ↦ some (m, record (default_decision F) { reason = "unknown_shared_corridor_resource" })
    | some c ↦ plan_for (prepare m id now) id now wall c
  ]
