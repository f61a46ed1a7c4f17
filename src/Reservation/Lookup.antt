-- ===== src/Reservation/Lookup.antt =====
-- What each method of server/src/IntersectionReservationManager.cpp leaves at one movement of one
-- intersection: the reservation held there, and the time of its last clearing.
use multi_agent_route_planni.Base.{
  ℕ, String, ◌≡◌, Option, some, arith, if◌then◌else◌, ◌==◌, string_eq, inl, inr, lookup, insert,
  IsMap, Option-cases, lookup-insert, insert-IsMap,
}
use multi_agent_route_planni.Reservation.{
  IntersectionReservation, IntersectionRuntime, ReservationManager, runtime_at,
}

unfoldable pub active_at : ReservationManager → String → String → Option IntersectionReservation
active_at s i a = lookup a (runtime_at s i).active_by_movement

unfoldable pub cleared_at : ReservationManager → String → String → Option ℕ
cleared_at s i a = lookup a (runtime_at s i).last_clear_by_movement

-- The containers hold a key once.
pub record IsRuntime (r : IntersectionRuntime) : Type 0 where
  pub active_keys : IsMap r.active_by_movement
  pub cleared_keys : IsMap r.last_clear_by_movement

pub record IsKeyed (s : ReservationManager) : Type 0 where
  pub intersection_keys : IsMap s.intersections
  pub runtime_keys :
      (i : String) (r : IntersectionRuntime) → lookup i s.intersections ≡ some r → IsRuntime r

pub runtime_at-IsRuntime :
    (s : ReservationManager) (i : String) → IsKeyed s → IsRuntime (runtime_at s i)
unfolding runtime_at
runtime_at-IsRuntime s i v = elim (Option-cases (lookup i s.intersections)) [
  | inl e ↦ ground (arith, e)
  | inr (r, e) ↦ ground (arith, e, v.runtime_keys i r e)
]

abbrev pub with_runtime : ReservationManager → String → IntersectionRuntime → ReservationManager
with_runtime s k r = record s { intersections = insert k r s.intersections }

pub runtime_at-with_runtime :
    (s : ReservationManager) (k i : String) (r : IntersectionRuntime)
    → runtime_at (with_runtime s k r) i ≡ (if k == i then r else runtime_at s i)
unfolding runtime_at
runtime_at-with_runtime s k i r = rw (lookup-insert k i r s.intersections) (ground arith)

pub with_runtime-IsKeyed :
    (s : ReservationManager) (k : String) (r : IntersectionRuntime)
    → IsKeyed s
    → IsRuntime r
    → IsKeyed (with_runtime s k r)
with_runtime-IsKeyed s k r v h = record {
  intersection_keys = insert-IsMap k r s.intersections v.intersection_keys;
  runtime_keys =
      λ i r' e. ground (arith, lookup-insert k i r s.intersections, v.runtime_keys i r', h);
}
