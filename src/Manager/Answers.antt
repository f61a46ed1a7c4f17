-- ===== src/Manager/Answers.antt =====
-- What server/src/DispatchManager.cpp does when the game answers a command, and when the service
-- restores commands after a restart.
use multi_agent_route_planni.Base.{
  ℕ, ◌+◌, max, String, Bool, true, false, Option, none, some, [], if◌then◌else◌, ◌==◌, nat_eq,
  string_eq, ltb, u64, Result, ok, fail, remove_if, Map, lookup, insert, erase, value_or, emplace,
}
use multi_agent_route_planni.Base.Floats.{Floats, double_max}
use multi_agent_route_planni.Dispatch.{
  DispatchCandidate, LineDispatchState, SharedCorridorState, DispatchDecision, default_line,
}
use multi_agent_route_planni.Reservation.{ReservationManager, cancel_train, try_reserve_atomically}
use multi_agent_route_planni.Manager.{DispatchManager}
use multi_agent_route_planni.Manager.Planning.{opposing_reason}

module _ (F : Floats) where
  open F use {decimal, sub}

  abbrev pub add_occupant : SharedCorridorState F → ℕ
  add_occupant c = if ltb c.occupancy c.capacity then c.occupancy + 1 else c.occupancy

  -- The corridor once the train has entered.
  unfoldable pub entered : String → ℕ → SharedCorridorState F → SharedCorridorState F
  entered train_id now c = record c {
    command_pending = false;
    last_entry_simulation_ms = now;
    occupancy = add_occupant c;
    candidates = remove_if (λ (x : DispatchCandidate F). x.train_id == train_id) c.candidates;
  }

  unfoldable pub released_line : ℕ → LineDispatchState F → LineDispatchState F
  released_line now line = record line {
    last_release_simulation_ms = now;
    last_credit_update_simulation_ms = now;
    fairness_credit = double_max F (decimal 0 0) (sub line.fairness_credit (decimal 1 0));
  }

  unfoldable pub release_to :
      String → ℕ → Map String (LineDispatchState F) → Map String (LineDispatchState F)
  release_to line_id now lines =
      insert line_id (released_line now (value_or (default_line F) line_id lines)) lines

  -- The history of releases: a further one of the same line, or the first of another.
  unfoldable pub count_release : DispatchManager F → String → String → DispatchManager F
  count_release m id line_id =
      if value_or "" id m.last_released_line == line_id
      then record m {
        last_released_line = emplace id "" m.last_released_line;
        consecutive_release_count =
            insert id (u64 (value_or 0 id m.consecutive_release_count + 1))
              m.consecutive_release_count;
      }
      else record m {
        last_released_line = insert id line_id m.last_released_line;
        consecutive_release_count = insert id 1 m.consecutive_release_count;
      }

  unfoldable pub confirm :
      DispatchManager F
      → String
      → String
      → ℕ
      → DispatchDecision F
      → SharedCorridorState F
      → DispatchManager F
  confirm m id train_id now d c =
      let counted = count_release m id d.line_id in
      record counted {
        corridors = insert id (entered train_id now c) m.corridors;
        line_states =
            insert id (release_to d.line_id now (value_or [] id m.line_states)) m.line_states;
        pending_decisions = erase id m.pending_decisions;
      }

  unfoldable pub confirm_entry : DispatchManager F → String → String → ℕ → DispatchManager F × Bool
  unfolding confirm
  confirm_entry m id train_id now = elim (lookup id m.pending_decisions) [
    | none ↦ (m, false)
    | some d ↦ elim (lookup id m.corridors) [
      | none ↦ (m, false)
      | some c ↦
          if d.train_id == train_id then (confirm m id train_id now d c, true) else (m, false)
    ]
  ]

  abbrev pub reopen :
      String
      → Option (SharedCorridorState F)
      → Map String (SharedCorridorState F)
      → Map String (SharedCorridorState F)
  reopen id none corridors = corridors
  reopen id (some c) corridors = insert id (record c { command_pending = false }) corridors

  unfoldable pub cancel_pending : DispatchManager F → String → DispatchManager F × Bool
  cancel_pending m id = elim (lookup id m.pending_decisions) [
    | none ↦ (m, false)
    | some d ↦ (
      record m {
        reservations = cancel_train m.reservations d.train_id;
        corridors = reopen id (lookup id m.corridors) m.corridors;
        pending_decisions = erase id m.pending_decisions;
      },
      true,
    )
  ]

  -- Both restoring methods hold back if another direction is in use, and reserve before they write.
  unfoldable pub restore :
      DispatchManager F
      → DispatchDecision F
      → SharedCorridorState F
      → (ReservationManager → DispatchManager F)
      → Option (DispatchManager F × Result (Unit {0}))
  restore m d c finish = elim (opposing_reason F d.corridor_resource_id c.corridor_id m.corridors) [
    | some _ ↦ some (m, fail "opposing_direction_busy")
    | none ↦
        elim (try_reserve_atomically m.reservations d.train_id d.reserved_intersection_movement_ids
          d.issued_at_simulation_ms) [
            | none ↦ none
            | some (r, fail reason) ↦ some (record m { reservations = r }, fail reason)
            | some (r, ok _) ↦ some (finish r, ok tt)
          ]
  ]

  unfoldable pub as_pending :
      DispatchManager F
      → DispatchDecision F
      → SharedCorridorState F
      → ReservationManager
      → DispatchManager F
  as_pending m d c r = record m {
    reservations = r;
    corridors = insert d.corridor_resource_id (record c { command_pending = true }) m.corridors;
    pending_decisions = insert d.corridor_resource_id d m.pending_decisions;
  }

  unfoldable pub restore_pending :
      DispatchManager F → DispatchDecision F → Option (DispatchManager F × Result (Unit {0}))
  unfolding restore
  restore_pending m d = elim (lookup d.corridor_resource_id m.corridors) [
    | none ↦ some (m, fail "unknown_or_busy_corridor")
    | some c ↦
        if c.command_pending
        then some (m, fail "unknown_or_busy_corridor")
        else restore m d c (as_pending m d c)
  ]

  unfoldable pub as_active :
      DispatchManager F
      → DispatchDecision F
      → SharedCorridorState F
      → ReservationManager
      → DispatchManager F
  as_active m d c r = record m {
    reservations = r;
    corridors =
        insert d.corridor_resource_id
          (record c {
            occupancy = add_occupant c;
            last_entry_simulation_ms = max c.last_entry_simulation_ms d.issued_at_simulation_ms;
          })
          m.corridors;
  }

  unfoldable pub restore_active :
      DispatchManager F → DispatchDecision F → Option (DispatchManager F × Result (Unit {0}))
  unfolding restore
  restore_active m d = elim (lookup d.corridor_resource_id m.corridors) [
    | none ↦ some (m, fail "unknown_corridor")
    | some c ↦ restore m d c (as_active m d c)
  ]
