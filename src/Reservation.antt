-- ===== src/Reservation.antt =====
-- server/src/IntersectionReservationManager.cpp and its header: the table of line movements, and
-- for each intersection the movements that a train holds and the times at which they were cleared.
-- A method returns the manager as it leaves it, beside its result; `reason` is the text in `fail`.
-- The mutex makes each method one step. `at` throws on a missing key, which is `none`.
pub mod Lookup
pub mod Booking
pub mod Clearing
pub mod Requests
pub mod Blocking
pub mod Admission
pub mod Atomic
pub mod Exclusion
pub mod History
mod Tests
use mathlib.Core.Option
use multi_agent_route_planni.Base.{
  ℕ, ◌-◌, max, String, concat, Bool, true, false, not, ◌&&◌, ◌||◌, Option, none, some, List, [],
  ◌∷◌, map, flat_map, if◌then◌else◌, ◌==◌, nat_eq, string_eq, ltb, Result, ok, fail, contains,
  any_of, Map, lookup, insert, erase_if, any_entry, map_values,
}

pub record LineIntersectionMovement : Type 0 where
  pub movement_id : String
  pub intersection_id : String
  pub line_id : String
  pub incoming_route_segment_id : String
  pub outgoing_route_segment_id : String
  pub conflict_movement_ids : List String
  pub clearance_time_ms : ℕ

pub record IntersectionReservation : Type 0 where
  pub intersection_id : String
  pub movement_id : String
  pub train_id : String
  pub reserved_at_simulation_ms : ℕ

pub record IntersectionRuntime : Type 0 where
  pub active_by_movement : Map String IntersectionReservation
  pub last_clear_by_movement : Map String ℕ

pub record ReservationManager : Type 0 where
  pub default_clearance_ms : ℕ
  pub movements : Map String LineIntersectionMovement
  pub intersections : Map String IntersectionRuntime

unfoldable pub init : ℕ → ReservationManager
init default_clearance_ms = record {
  default_clearance_ms = default_clearance_ms;
  movements = [];
  intersections = [];
}

abbrev pub empty_runtime : IntersectionRuntime
empty_runtime = record { active_by_movement = []; last_clear_by_movement = [] }

abbrev or_empty : Option IntersectionRuntime → IntersectionRuntime
or_empty none = empty_runtime
or_empty (some r) = r

-- `intersections_[id]`, which creates the entry, and `try_emplace`, which leaves one that is there.
unfoldable pub runtime_at : ReservationManager → String → IntersectionRuntime
runtime_at s id = or_empty (lookup id s.intersections)

unfoldable pub try_emplace :
    String → Map String IntersectionRuntime → Map String IntersectionRuntime
try_emplace id m = elim (lookup id m) [ none ↦ insert id empty_runtime m | some _ ↦ m ]

unfoldable pub is_registrable : LineIntersectionMovement → Bool
is_registrable m = not (
    m.movement_id == ""
    || m.intersection_id == ""
    || m.line_id == ""
    || m.incoming_route_segment_id == ""
    || m.outgoing_route_segment_id == "")

unfoldable pub register_movement :
    ReservationManager → LineIntersectionMovement → ReservationManager × Bool
unfolding try_emplace
register_movement s m =
    if is_registrable m
    then (
      record s {
        movements = insert m.movement_id m s.movements;
        intersections = try_emplace m.intersection_id s.intersections;
      },
      true,
    )
    else (s, false)

unfoldable pub clearance_for : ReservationManager → LineIntersectionMovement → ℕ
clearance_for s m = if m.clearance_time_ms == 0 then s.default_clearance_ms else m.clearance_time_ms

unfoldable pub movements_conflict : LineIntersectionMovement → LineIntersectionMovement → Bool
movements_conflict lhs rhs =
    if lhs.movement_id == rhs.movement_id
    then true
    else contains lhs.conflict_movement_ids rhs.movement_id
      || contains rhs.conflict_movement_ids lhs.movement_id

-- The first loop of `canReserveLocked`: each id once, looked up.
unfoldable pub collect :
    Map String LineIntersectionMovement
    → List String
    → List String
    → Result (List LineIntersectionMovement)
collect movements unique_ids [] = ok []
collect movements unique_ids (id ∷ ids) =
    let again = collect movements unique_ids ids in
    let rest = collect movements (id ∷ unique_ids) ids in
    if contains unique_ids id then again else elim (lookup id movements) [
      | none ↦ fail (concat "unknown_line_intersection_movement:" id)
      | some m ↦ elim rest [ ok ms ↦ ok (m ∷ ms) | fail reason ↦ fail reason ]
    ]

abbrev pub clash : LineIntersectionMovement → LineIntersectionMovement → Bool
clash m n = m.intersection_id == n.intersection_id && movements_conflict m n

-- The second loop: two movements of one request that exclude one another.
unfoldable pub requested_conflict : List LineIntersectionMovement → Bool
requested_conflict [] = false
requested_conflict (m ∷ ms) = any_of (clash m) ms || requested_conflict ms

-- The third loop, for one movement: the reservations held, then the times of clearing.
unfoldable pub blocks_active : ReservationManager → LineIntersectionMovement → String → Bool
blocks_active s m id = elim (lookup id s.movements) [
  | none ↦ false
  | some active ↦ movements_conflict m active
]

unfoldable pub blocks_cleared :
    ReservationManager → LineIntersectionMovement → ℕ → String → ℕ → Bool
blocks_cleared s m now id cleared_at = elim (lookup id s.movements) [
  | none ↦ false
  | some cleared ↦
      movements_conflict m cleared
      && (ltb now cleared_at
          || ltb (now - cleared_at) (max (clearance_for s m) (clearance_for s cleared)))
]

unfoldable pub check_runtime :
    ReservationManager → LineIntersectionMovement → ℕ → IntersectionRuntime → Option String
check_runtime s m now runtime =
    if any_entry (λ id _. blocks_active s m id) runtime.active_by_movement
    then some (concat "line_intersection_occupied:" m.intersection_id)
    else if any_entry (blocks_cleared s m now) runtime.last_clear_by_movement
    then some (concat "line_intersection_clearance_not_met:" m.intersection_id)
    else none

unfoldable pub check_movement : ReservationManager → ℕ → LineIntersectionMovement → Option String
check_movement s now m = elim (lookup m.intersection_id s.intersections) [
  | none ↦ none
  | some runtime ↦ check_runtime s m now runtime
]

unfoldable pub check_all : ReservationManager → ℕ → List LineIntersectionMovement → Option String
check_all s now [] = none
check_all s now (m ∷ ms) = elim (check_movement s now m) [
  | none ↦ check_all s now ms
  | some reason ↦ some reason
]

-- `canReserveLocked` past its first loop.
unfoldable pub admit : ReservationManager → ℕ → List LineIntersectionMovement → Result (Unit {0})
admit s now requested =
    if requested_conflict requested
    then fail "requested_intersection_movements_conflict"
    else elim (check_all s now requested) [ none ↦ ok tt | some reason ↦ fail reason ]

unfoldable pub can_reserve : ReservationManager → List String → ℕ → Result (Unit {0})
unfolding admit
can_reserve s movement_ids now = elim (collect s.movements [] movement_ids) [
  | fail reason ↦ fail reason
  | ok requested ↦ admit s now requested
]

-- The reservation that the second part of `tryReserveAtomically` writes.
abbrev pub reservation_for :
    String → String → LineIntersectionMovement → ℕ → IntersectionReservation
reservation_for train_id movement_id m now = record {
  intersection_id = m.intersection_id;
  movement_id = movement_id;
  train_id = train_id;
  reserved_at_simulation_ms = now;
}

abbrev pub add_active : String → IntersectionReservation → IntersectionRuntime → IntersectionRuntime
add_active movement_id reservation r = record r {
  active_by_movement = insert movement_id reservation r.active_by_movement;
}

unfoldable pub reserve_one :
    ReservationManager → String → String → LineIntersectionMovement → ℕ → ReservationManager
unfolding runtime_at
reserve_one s train_id movement_id m now = record s {
  intersections =
      insert m.intersection_id
        (add_active movement_id (reservation_for train_id movement_id m now)
          (runtime_at s m.intersection_id))
        s.intersections;
}

unfoldable pub reserve_all :
    ReservationManager → String → List String → List String → ℕ → Option ReservationManager
reserve_all s train_id unique_ids [] now = some s
reserve_all s train_id unique_ids (id ∷ ids) now =
    let again = reserve_all s train_id unique_ids ids now in
    if contains unique_ids id then again else elim (lookup id s.movements) [
      | none ↦ none
      | some m ↦ reserve_all (reserve_one s train_id id m now) train_id (id ∷ unique_ids) ids now
    ]

unfoldable pub try_reserve_atomically :
    ReservationManager → String → List String → ℕ → Option (ReservationManager × Result (Unit {0}))
try_reserve_atomically s train_id movement_ids now =
    if train_id == ""
    then some (s, fail "empty_train_id")
    else elim (can_reserve s movement_ids now) [
      | fail reason ↦ some (s, fail reason)
      | ok _ ↦ Option.map (λ s'. (s', ok tt)) (reserve_all s train_id [] movement_ids now)
    ]

abbrev pub held_by : String → String → IntersectionReservation → Bool
held_by train_id movement_id r = r.train_id == train_id

-- The loop of `markCleared` over the reservations, newest clearing times first.
unfoldable pub clear_times :
    String → ℕ → Map String IntersectionReservation → Map String ℕ → Map String ℕ
clear_times train_id now [] cleared = cleared
clear_times train_id now ((id, r) ∷ active) cleared =
    clear_times train_id now active
      (if r.train_id == train_id then insert id now cleared else cleared)

unfoldable pub clear_runtime : String → ℕ → IntersectionRuntime → IntersectionRuntime
clear_runtime train_id now r = record {
  active_by_movement = erase_if (held_by train_id) r.active_by_movement;
  last_clear_by_movement = clear_times train_id now r.active_by_movement r.last_clear_by_movement;
}

unfoldable pub mark_cleared : ReservationManager → String → String → ℕ → ReservationManager × Bool
mark_cleared s intersection_id train_id now = elim (lookup intersection_id s.intersections) [
  | none ↦ (s, false)
  | some r ↦ (
    record s {
      intersections = insert intersection_id (clear_runtime train_id now r) s.intersections;
    },
    any_entry (held_by train_id) r.active_by_movement,
  )
]

abbrev pub cancel_runtime : String → IntersectionRuntime → IntersectionRuntime
cancel_runtime train_id r = record r {
  active_by_movement = erase_if (held_by train_id) r.active_by_movement;
}

unfoldable pub cancel_train : ReservationManager → String → ReservationManager
cancel_train s train_id = record s {
  intersections = map_values (cancel_runtime train_id) s.intersections;
}

unfoldable pub active_reservations : ReservationManager → List IntersectionReservation
active_reservations s = flat_map (λ e. map (λ a. a.1) e.1.active_by_movement) s.intersections
