-- ===== src/Manager.antt =====
-- server/src/DispatchManager.cpp and its header: the corridors, what the lines are owed, and the
-- commands that wait for the game's answer, over the reservations and the policy. The mutex makes
-- each method one step. A method returns the manager as it leaves it, beside its result.
pub mod Planning
pub mod Answers
pub mod Interlock
pub mod Plans
pub mod Matching
pub mod Safety
pub mod Steps
pub mod Commands
pub mod Histories
pub mod Releases
pub mod Entries
pub mod Cancels
pub mod Names
pub mod Restores
mod Tests
use multi_agent_route_planni.Base.{
  ℕ, ◌+◌, ◌-◌, max, String, Bool, true, false, not, ◌&&◌, ◌||◌, Option, none, some, List, [],
  if◌then◌else◌, ◌==◌, nat_eq, string_eq, ltb, Result, ok, fail, Map, lookup, insert, map_values,
}
use multi_agent_route_planni.Base.Floats.{Floats, double_min}
use multi_agent_route_planni.Dispatch.{
  DispatchCandidate, LineDispatchState, SharedCorridorState, DispatchDecision,
  DynamicPriorityConfig,
}
use multi_agent_route_planni.Reservation.{
  LineIntersectionMovement, IntersectionReservation, ReservationManager, init, register_movement,
  mark_cleared, active_reservations,
}
use multi_agent_route_planni.Policy.Constraints.{policy}

pub record DispatchManagerConfig (F : Floats) : Type 0 where
  pub priority : DynamicPriorityConfig F
  pub default_intersection_clearance_ms : ℕ
  pub default_corridor_capacity : ℕ

pub record DispatchManager (F : Floats) : Type 0 where
  pub policy_config : DynamicPriorityConfig F
  pub reservations : ReservationManager
  pub default_corridor_capacity : ℕ
  pub corridors : Map String (SharedCorridorState F)
  pub line_states : Map String (Map String (LineDispatchState F))
  pub last_released_line : Map String String
  pub consecutive_release_count : Map String ℕ
  pub pending_decisions : Map String (DispatchDecision F)

module _ (F : Floats) where
  open F use {decimal, of_ℕ, add, div}

  abbrev pub fresh_manager : DispatchManagerConfig F → DynamicPriorityConfig F → DispatchManager F
  fresh_manager config priority = record {
    policy_config = priority;
    reservations = init config.default_intersection_clearance_ms;
    default_corridor_capacity = config.default_corridor_capacity;
    corridors = [];
    line_states = [];
    last_released_line = [];
    consecutive_release_count = [];
    pending_decisions = [];
  }

  -- The constructor, and the policy's, which throw `std::invalid_argument`.
  unfoldable pub manager : DispatchManagerConfig F → Result (DispatchManager F)
  manager config = elim (policy F config.priority) [
    | fail reason ↦ fail reason
    | ok priority ↦
        if config.default_intersection_clearance_ms == 0 || config.default_corridor_capacity == 0
        then fail "dispatch resource defaults must be greater than zero"
        else ok (fresh_manager config priority)
  ]

  unfoldable pub register_intersection_movement :
      DispatchManager F → LineIntersectionMovement → DispatchManager F × Bool
  register_intersection_movement m movement =
      let (reservations, done) = register_movement m.reservations movement in
      (record m { reservations = reservations }, done)

  -- The snapshot that `upsertCorridor` stores: the command that is waiting is the server's own, and
  -- the time of the last entry only grows.
  abbrev pub keep_pending :
      SharedCorridorState F → Option (SharedCorridorState F) → SharedCorridorState F
  keep_pending updated none = updated
  keep_pending updated (some existing) = record updated {
    command_pending = existing.command_pending;
    last_entry_simulation_ms =
        max updated.last_entry_simulation_ms existing.last_entry_simulation_ms;
  }

  abbrev pub with_defaults : DispatchManager F → SharedCorridorState F → SharedCorridorState F
  with_defaults m c = record c {
    minimum_headway_ms =
        if c.minimum_headway_ms == 0
        then m.policy_config.default_corridor_minimum_headway_ms
        else c.minimum_headway_ms;
    capacity = if c.capacity == 0 then m.default_corridor_capacity else c.capacity;
  }

  abbrev pub with_corridor : DispatchManager F → String → SharedCorridorState F → DispatchManager F
  with_corridor m id c = record m { corridors = insert id c m.corridors }

  unfoldable pub upsert_corridor : DispatchManager F → SharedCorridorState F → DispatchManager F
  upsert_corridor m corridor =
      let id = corridor.corridor_resource_id in
      if id == ""
      then m
      else with_corridor m id (with_defaults m (keep_pending corridor (lookup id m.corridors)))

  abbrev lines_at : DispatchManager F → String → Map String (LineDispatchState F)
  lines_at m id = elim (lookup id m.line_states) [ none ↦ [] | some lines ↦ lines ]

  unfoldable pub upsert_line_state :
      DispatchManager F → String → String → LineDispatchState F → DispatchManager F
  upsert_line_state m id line_id state =
      if id == "" || line_id == "" || state.target_headway_ms == 0
      then m
      else record m { line_states = insert id (insert line_id state (lines_at m id)) m.line_states }

  unfoldable pub replace_candidates :
      DispatchManager F → String → List (DispatchCandidate F) → ℕ → DispatchManager F × Bool
  replace_candidates m id candidates received_at_wall_ms = elim (lookup id m.corridors) [
    | none ↦ (m, false)
    | some c ↦ (
      with_corridor m id
          (record c { candidates = candidates; received_at_wall_ms = received_at_wall_ms }),
      true,
    )
  ]

  -- One line of the loop of `updateFairnessCreditsLocked`.
  unfoldable pub credited : ℕ → LineDispatchState F → LineDispatchState F
  credited now line =
      if line.last_credit_update_simulation_ms == 0 || ltb now line.last_credit_update_simulation_ms
      then record line { last_credit_update_simulation_ms = now }
      else record line {
        fairness_credit = double_min F (decimal 3 0) (
            add line.fairness_credit (
              div (of_ℕ (now - line.last_credit_update_simulation_ms))
                (of_ℕ line.target_headway_ms)));
        last_credit_update_simulation_ms = now;
      }

  unfoldable pub update_fairness_credits : DispatchManager F → String → ℕ → DispatchManager F
  update_fairness_credits m id now = elim (lookup id m.line_states) [
    | none ↦ m
    | some lines ↦ record m {
      line_states = insert id (map_values (credited now) lines) m.line_states;
    }
  ]

  unfoldable pub mark_corridor_exited : DispatchManager F → String → DispatchManager F × Bool
  mark_corridor_exited m id = elim (lookup id m.corridors) [
    | none ↦ (m, false)
    | some c ↦
        if c.occupancy == 0
        then (m, false)
        else (with_corridor m id (record c { occupancy = c.occupancy - 1 }), true)
  ]

  unfoldable pub mark_intersection_cleared :
      DispatchManager F → String → String → ℕ → DispatchManager F × Bool
  mark_intersection_cleared m intersection_id train_id now =
      let (reservations, done) = mark_cleared m.reservations intersection_id train_id now in
      (record m { reservations = reservations }, done)

  unfoldable pub corridor_state : DispatchManager F → String → Option (SharedCorridorState F)
  corridor_state m id = lookup id m.corridors

  unfoldable pub active_intersection_reservations : DispatchManager F → List IntersectionReservation
  active_intersection_reservations m = active_reservations m.reservations
