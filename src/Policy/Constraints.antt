-- ===== src/Policy/Constraints.antt =====
-- The early returns and the guards of `decide` in server/src/DynamicPriorityPolicy.cpp.
use multi_agent_route_planni.Base.{
  ℕ, ◌-◌, String, Bool, not, ◌&&◌, ◌||◌, Option, none, some, if◌then◌else◌, ◌==◌, nat_eq, string_eq,
  ltb, leb, lookup, Result, ok, fail,
}
use multi_agent_route_planni.Base.Floats.{Floats}
use multi_agent_route_planni.Dispatch.{
  DispatchAction, no_action, hold_all, same_direction, DispatchCandidate, LineDispatchState,
  SharedCorridorState, DispatchContext, DispatchDecision, DynamicPriorityConfig, default_decision,
}

abbrev pub elapsed_since : ℕ → ℕ → ℕ
elapsed_since now_ms then_ms = if leb then_ms now_ms then now_ms - then_ms else 0

abbrev pub wall_state_stale : ℕ → ℕ → ℕ → Bool
wall_state_stale received_at_ms wall_now_ms stale_ms =
    received_at_ms == 0
    || ltb wall_now_ms received_at_ms
    || ltb stale_ms (elapsed_since wall_now_ms received_at_ms)

module _ (F : Floats) where
  open F use {Double, of_ℕ, is_finite}

  unfoldable pub make_decision :
      DispatchAction → SharedCorridorState F → String → DispatchDecision F
  unfolding default_decision
  make_decision action corridor reason = record (default_decision F) {
    action = action;
    corridor_resource_id = corridor.corridor_resource_id;
    corridor_id = corridor.corridor_id;
    direction = corridor.direction;
    reason = reason;
  }

  -- The constructor, which throws `std::invalid_argument`.
  unfoldable pub policy : DynamicPriorityConfig F → Result (DynamicPriorityConfig F)
  policy c =
      if c.default_corridor_minimum_headway_ms == 0 || c.maximum_wait_ms == 0
      then fail "dispatch time limits must be greater than zero"
      else if not (is_finite c.headway_urgency_weight)
          || not (is_finite c.waiting_time_weight)
          || not (is_finite c.fairness_credit_weight)
          || not (is_finite c.global_plan_weight)
          || not (is_finite c.consecutive_penalty_weight)
      then fail "dispatch weights must be finite"
      else ok c

  module _ (config : DynamicPriorityConfig F) where
    unfoldable pub minimum_headway : SharedCorridorState F → ℕ
    minimum_headway corridor =
        if corridor.minimum_headway_ms == 0
        then config.default_corridor_minimum_headway_ms
        else corridor.minimum_headway_ms

    -- The early returns of `decide`: the constraints that no score overrides.
    unfoldable pub hard_constraint : DispatchContext F → Option (DispatchDecision F)
    hard_constraint context =
        if wall_state_stale corridor.received_at_wall_ms context.wall_now_ms
          config.telemetry_stale_wall_ms
        then some (make_decision hold_all corridor "corridor_state_stale")
        else if corridor.command_pending
        then some (make_decision no_action corridor "command_pending")
        else if not corridor.downstream_available
        then some (make_decision hold_all corridor "downstream_unavailable")
        else if corridor.capacity == 0 || leb corridor.capacity corridor.occupancy
        then some (make_decision hold_all corridor "corridor_at_capacity")
        else if not (corridor.last_entry_simulation_ms == 0)
            && ltb (elapsed_since context.simulation_now_ms corridor.last_entry_simulation_ms)
                (minimum_headway corridor)
        then some (make_decision hold_all corridor "minimum_headway_not_met")
        else none
      where
        corridor : SharedCorridorState F
        corridor = context.corridor

    -- The loop's first guard; it passes over what does not fit the corridor and the clocks.
    unfoldable pub is_consistent : DispatchContext F → DispatchCandidate F → Bool
    is_consistent context c = not (
        c.train_id == ""
        || c.line_id == ""
        || not (c.corridor_resource_id == context.corridor.corridor_resource_id)
        || not (same_direction c.corridor_direction context.corridor.direction)
        || c.arrived_at_simulation_ms == 0
        || ltb context.simulation_now_ms c.arrived_at_simulation_ms
        || wall_state_stale c.received_at_wall_ms context.wall_now_ms config.telemetry_stale_wall_ms
        || not (is_finite c.global_plan_priority))

    -- Its second guard gives the candidate's line.
    unfoldable pub feasible_line :
        DispatchContext F → DispatchCandidate F → Option (LineDispatchState F)
    feasible_line context c =
        if is_consistent context c
        then elim (lookup c.line_id context.lines) [
          | none ↦ none
          | some line ↦ if line.target_headway_ms == 0 then none else some line
        ]
        else none
