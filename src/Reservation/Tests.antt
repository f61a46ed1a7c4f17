-- ===== src/Reservation/Tests.antt =====
-- Two trains and three movements through the manager of
-- server/src/IntersectionReservationManager.cpp.
use multi_agent_route_planni.Base.{
  ◌+◌, ◌≤◌, max, String, ◌≡◌, ◌≢◌, ◌↔◌, ◌⊎◌, refl, true, none, some, List, [], ◌∷◌, arith,
  string_eq, lookup, insert, erase_if, any_entry, contains, any_of, ok, fail, is_ok,
}
use multi_agent_route_planni.Reservation.{
  LineIntersectionMovement, IntersectionReservation, ReservationManager, init, runtime_at,
  try_emplace, is_registrable, register_movement, clearance_for, movements_conflict, collect,
  requested_conflict, blocks_active, blocks_cleared, check_runtime, check_movement, check_all,
  admit, can_reserve, reserve_one, reserve_all, try_reserve_atomically, clear_times, clear_runtime,
  mark_cleared, cancel_train, active_reservations,
}
use multi_agent_route_planni.Reservation.Lookup.{active_at, cleared_at}
use multi_agent_route_planni.Reservation.Booking.{Books}
use multi_agent_route_planni.Reservation.Admission.{IsAdmissible, can_reserve_iff}
use multi_agent_route_planni.Reservation.Atomic.{try_reserve_all_or_none, mark_cleared_waits}
use multi_agent_route_planni.Reservation.History.{
  Inv, Reach, here, next, registers, reserves, Reach-Inv,
}

program : Unit {0}
unfolding init runtime_at try_emplace is_registrable register_movement clearance_for
    movements_conflict collect requested_conflict blocks_active blocks_cleared check_runtime
    check_movement check_all admit can_reserve reserve_one reserve_all try_reserve_atomically
    clear_times clear_runtime mark_cleared cancel_train active_reservations active_at cleared_at
    lookup insert erase_if any_entry contains any_of
program = tt

abbrev movement : String → String → List String → LineIntersectionMovement
movement id intersection conflicts = record {
  movement_id = id;
  intersection_id = intersection;
  line_id = "L";
  incoming_route_segment_id = "in";
  outgoing_route_segment_id = "out";
  conflict_movement_ids = conflicts;
  clearance_time_ms = 0;
}

abbrev east : LineIntersectionMovement
east = movement "east" "X" ("north" ∷ [])

abbrev north : LineIntersectionMovement
north = movement "north" "X" []

abbrev far : LineIntersectionMovement
far = movement "far" "Y" []

table₁ : ReservationManager
table₁ = (register_movement (init 2000) east).0

table₂ : ReservationManager
table₂ = (register_movement table₁ north).0

table : ReservationManager
unfolding table₁ table₂
table = (register_movement table₂ far).0

held : ReservationManager
unfolding table reserve_one runtime_at
held = reserve_one (reserve_one table "T1" "east" east 100) "T1" "far" far 100

reserved : try_reserve_atomically table "T1" ("east" ∷ "far" ∷ "east" ∷ []) 100 ≡ some (held, ok tt)
unfolding program held
reserved = refl

occupied : can_reserve held ("north" ∷ []) 200 ≡ fail "line_intersection_occupied:X"
unfolding program held
occupied = refl

too_early :
    can_reserve (mark_cleared held "X" "T1" 500).0 ("north" ∷ []) 2499
    ≡ fail "line_intersection_clearance_not_met:X"
unfolding program held
too_early = refl

in_time : can_reserve (mark_cleared held "X" "T1" 500).0 ("north" ∷ []) 2500 ≡ ok tt
unfolding program held
in_time = refl

cancelled_waits_not : can_reserve (cancel_train held "T1") ("north" ∷ []) 200 ≡ ok tt
unfolding program held
cancelled_waits_not = refl

exclusive_request :
    can_reserve table ("east" ∷ "north" ∷ []) 200 ≡ fail "requested_intersection_movements_conflict"
unfolding program table
exclusive_request = refl

fresh_east : (i : String) → active_at (init 2000) i "east" ≡ none
unfolding program
fresh_east i = refl

fresh_north : (i : String) → active_at table₁ i "north" ≡ none
unfolding program table₁
fresh_north i = ground arith

fresh_far : (i : String) → active_at table₂ i "far" ≡ none
unfolding program table₁ table₂
fresh_far i = ground arith

table-Reach : Reach (init 2000) table
unfolding table table₁ table₂
table-Reach =
    next (next (next here (registers east fresh_east)) (registers north fresh_north))
      (registers far fresh_far)

Reach-Inv_example : Inv held
Reach-Inv_example =
    Reach-Inv 2000
      (next table-Reach (reserves "T1" ("east" ∷ "far" ∷ "east" ∷ []) 100 (ok tt) reserved))

table-Inv : Inv table
table-Inv = Reach-Inv 2000 table-Reach

can_reserve_iff_example :
    (is_ok (can_reserve held ("north" ∷ []) 200) ≡ true) ↔ IsAdmissible held ("north" ∷ []) 200
can_reserve_iff_example = can_reserve_iff held ("north" ∷ []) 200 Reach-Inv_example.keyed

named : ◌≢◌ {A = String} "T1" ""
named = ground (arith, string_eq.beq_iff "T1" "")

abbrev request : List String
request = "east" ∷ "far" ∷ "east" ∷ []

try_reserve_all_or_none_example :
    ((reason : String) × (can_reserve table request 100 ≡ fail reason)
      × (try_reserve_atomically table "T1" request 100 ≡ some (table, fail reason)))
    ⊎ ((s' : ReservationManager) × (can_reserve table request 100 ≡ ok tt)
        × (try_reserve_atomically table "T1" request 100 ≡ some (s', ok tt))
        × Books table "T1" [] request 100 s')
try_reserve_all_or_none_example = try_reserve_all_or_none table "T1" request 100 named

east_held : IntersectionReservation
east_held = record {
  intersection_id = "X";
  movement_id = "east";
  train_id = "T1";
  reserved_at_simulation_ms = 100;
}

east_held-active : active_at held "X" "east" ≡ some east_held
unfolding program held east_held
east_held-active = refl

east_held-owner : east_held.train_id ≡ "T1"
unfolding east_held
east_held-owner = refl

mark_cleared_waits_example : 500 + max (clearance_for held north) (clearance_for held east) ≤ 2500
unfolding program held
mark_cleared_waits_example =
    mark_cleared_waits held "X" "T1" "east" 500 2500 east_held east north "north" ("north" ∷ [])
      Reach-Inv_example.keyed east_held-active east_held-owner refl refl refl refl refl refl
