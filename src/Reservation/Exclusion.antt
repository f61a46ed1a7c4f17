-- ===== src/Reservation/Exclusion.antt =====
-- Mutual exclusion at every intersection, over any history of the methods of
-- server/src/IntersectionReservationManager.cpp.
use multi_agent_route_planni.Base.{
  ℕ, String, ◌≡◌, ◌≢◌, ◌⊎◌, refl, sym, ◌∙◌, true, false, Option, some, List, [], arith, string_eq,
  inl, inr, lookup, contains, ok,
}
use multi_agent_route_planni.Reservation.{
  LineIntersectionMovement, IntersectionReservation, ReservationManager, movements_conflict,
  try_reserve_atomically, mark_cleared, cancel_train,
}
use multi_agent_route_planni.Reservation.Lookup.{active_at, IsKeyed}
use multi_agent_route_planni.Reservation.Booking.{booked, Books}
use multi_agent_route_planni.Reservation.Requests.{movements_conflict_symm}
use multi_agent_route_planni.Reservation.Admission.{no_id, can_reserve-IsAdmissible}
use multi_agent_route_planni.Reservation.Atomic.{try_reserve_succeeds, mark_cleared-movements}
use multi_agent_route_planni.Reservation.Clearing.{
  released, active_at-cancel_train, active_at-mark_cleared,
}

-- No two reservations held at one intersection are for movements that exclude one another.
abbrev pub IsExclusive : ReservationManager → Type 0
IsExclusive s =
    (i a b : String) (ra rb : IntersectionReservation) (m n : LineIntersectionMovement)
    → a ≢ b
    → active_at s i a ≡ some ra
    → active_at s i b ≡ some rb
    → lookup a s.movements ≡ some m
    → lookup b s.movements ≡ some n
    → movements_conflict m n ≡ false

-- A state that holds no more than another, over the same table, is as exclusive.
abbrev pub HoldsLess : ReservationManager → ReservationManager → Type 0
HoldsLess s' s =
    (s'.movements ≡ s.movements)
    × ((i a : String) (r : IntersectionReservation)
        → active_at s' i a ≡ some r
        → active_at s i a ≡ some r)

pub HoldsLess-IsExclusive :
    (s' s : ReservationManager) → HoldsLess s' s → IsExclusive s → IsExclusive s'
HoldsLess-IsExclusive s' s (same, less) x i a b ra rb m n ne ha hb fa fb =
    x i a b ra rb m n ne (less i a ra ha) (less i b rb hb) (rw (← same) fa) (rw (← same) fb)

released-some :
    (train_id : String) (o : Option IntersectionReservation) (r : IntersectionReservation)
    → released train_id o ≡ some r
    → o ≡ some r
released-some train_id o r h = ground arith

pub mark_cleared-HoldsLess :
    (s : ReservationManager) (i train_id : String) (now : ℕ)
    → IsKeyed s
    → HoldsLess (mark_cleared s i train_id now).0 s
mark_cleared-HoldsLess s i train_id now v = (
  (mark_cleared-movements s i train_id now).0,
  λ j a r h. ground (
    arith,
    active_at-mark_cleared s i train_id now v j a,
    released-some train_id (active_at s j a) r,
  ),
)

pub cancel_train-HoldsLess :
    (s : ReservationManager) (train_id : String) → IsKeyed s → HoldsLess (cancel_train s train_id) s
unfolding cancel_train
cancel_train-HoldsLess s train_id v = (
  refl,
  λ j a r h.
      released-some train_id (active_at s j a) r
        (sym (active_at-cancel_train s train_id v j a) ∙ h),
)

-- A reservation held after a request is one of the request's or was there before.
booked_or_held :
    (s : ReservationManager) (train_id : String) (ids : List String) (now : ℕ)
    (s' : ReservationManager) (i a : String) (r : IntersectionReservation)
    (m : LineIntersectionMovement)
    → Books s train_id [] ids now s'
    → active_at s' i a ≡ some r
    → lookup a s.movements ≡ some m
    → ((contains ids a ≡ true) × (m.intersection_id ≡ i)) ⊎ (active_at s i a ≡ some r)
unfolding booked
booked_or_held s train_id ids now s' i a r m b h found =
    ground (arith, b.active_books i a, no_id a, string_eq.beq_iff m.intersection_id i)

-- A request that is granted keeps the reservations exclusive.
pub try_reserve-IsExclusive :
    (s : ReservationManager) (train_id : String) (ids : List String) (now : ℕ)
    {s' : ReservationManager}
    → try_reserve_atomically s train_id ids now ≡ some (s', ok tt)
    → IsExclusive s
    → IsExclusive s'
try_reserve-IsExclusive s train_id ids now {s'} h x i a b ra rb m n ne ha hb fa fb =
    let (_, granted, books) = try_reserve_succeeds s train_id ids now h in
    let free = can_reserve-IsAdmissible s ids now granted in
    let fa' : lookup a s.movements ≡ some m = rw books.movements_kept at fa in
    let fb' : lookup b s.movements ≡ some n = rw books.movements_kept at fb in
    elim (booked_or_held s train_id ids now s' i a ra m books ha fa') [
      | inl (qa, ia) ↦ elim (booked_or_held s train_id ids now s' i b rb n books hb fb') [
        | inl (qb, ib) ↦ free.apart a b m n qa qb ne fa' fb' (ia ∙ sym ib)
        | inr ob ↦ (free.clear a m qa fa').unoccupied b n rb (rw ia ob) fb'
      ]
      | inr oa ↦ elim (booked_or_held s train_id ids now s' i b rb n books hb fb') [
        | inl (qb, ib) ↦
            movements_conflict_symm m n ∙ (free.clear b n qb fb').unoccupied a m ra (rw ib oa) fa'
        | inr ob ↦ x i a b ra rb m n ne oa ob fa' fb'
      ]
    ]
