-- ===== src/Reservation/History.antt =====
-- Histories of the methods of server/src/IntersectionReservationManager.cpp, each under its lock.
use multi_agent_route_planni.Base.{
  ℕ, String, ◌≡◌, ◌⊎◌, sym, subst, ◌∙◌, none, some, List, arith, string_eq, inl, inr, lookup,
  Result, ok, fail, lookup-insert,
}
use multi_agent_route_planni.Reservation.{
  LineIntersectionMovement, ReservationManager, init, empty_runtime, runtime_at, register_movement,
  try_reserve_atomically, mark_cleared, cancel_train,
}
use multi_agent_route_planni.Reservation.Lookup.{
  active_at, IsKeyed, with_runtime, with_runtime-IsKeyed,
}
use multi_agent_route_planni.Reservation.Atomic.{try_reserve_succeeds, try_reserve_refused}
use multi_agent_route_planni.Reservation.Clearing.{mark_cleared-IsKeyed, cancel_train-IsKeyed}
use multi_agent_route_planni.Reservation.Exclusion.{
  IsExclusive, HoldsLess-IsExclusive, mark_cleared-HoldsLess, cancel_train-HoldsLess,
  try_reserve-IsExclusive,
}

-- `registerMovement` for a movement that nobody holds.
abbrev pub IsFresh : ReservationManager → String → Type 0
IsFresh s id = (i : String) → active_at s i id ≡ none

pub active_at-register :
    (s : ReservationManager) (m : LineIntersectionMovement) (i a : String)
    → active_at (register_movement s m).0 i a ≡ active_at s i a
unfolding active_at runtime_at register_movement lookup
active_at-register s m i a = ground (
  arith,
  lookup-insert m.intersection_id i empty_runtime s.intersections,
  string_eq.beq_iff m.intersection_id i,
)

IsKeyed-eq :
    (s s' : ReservationManager) → s'.intersections ≡ s.intersections → IsKeyed s → IsKeyed s'
IsKeyed-eq s s' e v = record {
  intersection_keys = rw e v.intersection_keys;
  runtime_keys = λ i r f. v.runtime_keys i r (rw (← e) f);
}

register-intersections :
    (s : ReservationManager) (m : LineIntersectionMovement)
    → ((register_movement s m).0.intersections ≡ s.intersections)
      ⊎ ((register_movement s m).0.intersections
          ≡ (with_runtime s m.intersection_id empty_runtime).intersections)
unfolding register_movement
register-intersections s m = ground arith

register-IsKeyed :
    (s : ReservationManager) (m : LineIntersectionMovement)
    → IsKeyed s
    → IsKeyed (register_movement s m).0
register-IsKeyed s m v = elim (register-intersections s m) [
  | inl e ↦ IsKeyed-eq s _ e v
  | inr e ↦ IsKeyed-eq (with_runtime s m.intersection_id empty_runtime) _ e (
      with_runtime-IsKeyed s m.intersection_id empty_runtime v
        (record { active_keys = tt; cleared_keys = tt }))
]

register-IsExclusive :
    (s : ReservationManager) (m : LineIntersectionMovement)
    → IsFresh s m.movement_id
    → IsExclusive s
    → IsExclusive (register_movement s m).0
unfolding register_movement
register-IsExclusive s m fresh x i a b ra rb n k ne ha hb fa fb =
    let ha' : active_at s i a ≡ some ra = sym (active_at-register s m i a) ∙ ha in
    let hb' : active_at s i b ≡ some rb = sym (active_at-register s m i b) ∙ hb in
    ground (
      arith,
      fresh i,
      string_eq.beq_iff m.movement_id a,
      string_eq.beq_iff m.movement_id b,
      lookup-insert m.movement_id a m s.movements,
      lookup-insert m.movement_id b m s.movements,
      x i a b ra rb n k ne ha' hb',
    )

-- One call, with the conditions that its caller meets: the service registers movements while it
-- builds a manager, before any of them is held.
pub data Step (s : ReservationManager) : ReservationManager → Type 0 where
  registers :
      (m : LineIntersectionMovement) → IsFresh s m.movement_id → Step s (register_movement s m).0
  reserves :
      (train_id : String) (ids : List String) (now : ℕ) {s' : ReservationManager}
      (r : Result (Unit {0}))
      → try_reserve_atomically s train_id ids now ≡ some (s', r)
      → Step s s'
  clears : (i train_id : String) (now : ℕ) → Step s (mark_cleared s i train_id now).0
  cancels : (train_id : String) → Step s (cancel_train s train_id)

pub data Reach (s : ReservationManager) : ReservationManager → Type 0 where
  here : Reach s s
  next : {t u : ReservationManager} → Reach s t → Step t u → Reach s u

pub record Inv (s : ReservationManager) : Type 0 where
  pub keyed : IsKeyed s
  pub exclusive : IsExclusive s

init-Inv : (c : ℕ) → Inv (init c)
unfolding init active_at runtime_at lookup
init-Inv c = record {
  keyed = record { intersection_keys = tt; runtime_keys = λ i r e. absurd (ground arith) };
  exclusive = λ i a b ra rb m n ne ha hb fa fb. absurd (ground arith);
}

try_reserve-Inv :
    (s : ReservationManager) (train_id : String) (ids : List String) (now : ℕ)
    {s' : ReservationManager} (r : Result (Unit {0}))
    → try_reserve_atomically s train_id ids now ≡ some (s', r)
    → Inv s
    → Inv s'
try_reserve-Inv s train_id ids now (ok _) e v = record {
  keyed = (try_reserve_succeeds s train_id ids now e).2.keyed v.keyed;
  exclusive = try_reserve-IsExclusive s train_id ids now e v.exclusive;
}
try_reserve-Inv s train_id ids now {s'} (fail reason) e v =
    subst Inv (try_reserve_refused s train_id ids now reason e) v

pub Step-Inv : {s t : ReservationManager} → Step s t → Inv s → Inv t
Step-Inv {s} (registers m fresh) v = record {
  keyed = register-IsKeyed s m v.keyed;
  exclusive = register-IsExclusive s m fresh v.exclusive;
}
Step-Inv {s} (reserves train_id ids now r e) v = try_reserve-Inv s train_id ids now r e v
Step-Inv {s} (clears i train_id now) v = record {
  keyed = mark_cleared-IsKeyed s i train_id now v.keyed;
  exclusive =
      HoldsLess-IsExclusive _ s (mark_cleared-HoldsLess s i train_id now v.keyed) v.exclusive;
}
Step-Inv {s} (cancels train_id) v = record {
  keyed = cancel_train-IsKeyed s train_id v.keyed;
  exclusive = HoldsLess-IsExclusive _ s (cancel_train-HoldsLess s train_id v.keyed) v.exclusive;
}

-- After any history of calls from an empty manager, in which a movement is registered only while
-- nobody holds it, no two reservations held at one intersection exclude one another, and each
-- container holds a key once.
pub Reach-Inv : (c : ℕ) {s : ReservationManager} → Reach (init c) s → Inv s
Reach-Inv c here = init-Inv c
Reach-Inv c (next r st) = Step-Inv st (Reach-Inv c r)
