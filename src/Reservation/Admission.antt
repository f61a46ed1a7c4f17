-- ===== src/Reservation/Admission.antt =====
-- `canReserve` of server/src/IntersectionReservationManager.cpp against what a request needs.
use multi_agent_route_planni.Base.{
  ℕ, String, ◌≡◌, ◌≢◌, ◌↔◌, refl, sym, subst, ◌∙◌, some-eq, true, false, none, some, List, [],
  arith, string_eq, inl, inr, lookup, contains, Result-cases, ok, is_ok, All-map,
}
use multi_agent_route_planni.Reservation.{
  LineIntersectionMovement, ReservationManager, movements_conflict, collect, requested_conflict,
  check_movement, check_all, can_reserve,
}
use multi_agent_route_planni.Reservation.Lookup.{IsKeyed}
use multi_agent_route_planni.Reservation.Requests.{
  collect_found, collect-Asked, collect_total, requested_conflict-Apart, Apart-requested_conflict,
}
use multi_agent_route_planni.Reservation.Blocking.{
  IsClearFor, check_movement-IsClearFor, IsClearFor-check_movement, check_all-All, All-check_all,
}

-- What a request needs: its movements are known, pairwise compatible, and each is clear.
pub record IsAdmissible (s : ReservationManager) (ids : List String) (now : ℕ) : Type 0 where
  pub known :
      (a : String)
      → contains ids a ≡ true
      → (m : LineIntersectionMovement) × (lookup a s.movements ≡ some m)
  pub apart :
      (a b : String) (m n : LineIntersectionMovement)
      → contains ids a ≡ true
      → contains ids b ≡ true
      → a ≢ b
      → lookup a s.movements ≡ some m
      → lookup b s.movements ≡ some n
      → m.intersection_id ≡ n.intersection_id
      → movements_conflict m n ≡ false
  pub clear :
      (a : String) (m : LineIntersectionMovement)
      → contains ids a ≡ true
      → lookup a s.movements ≡ some m
      → IsClearFor s now m

pub no_id : (a : String) → contains [] a ≡ false
unfolding contains
no_id a = refl

-- A request that passed all three loops.
can_reserve_passed :
    (s : ReservationManager) (ids : List String) (now : ℕ)
    → is_ok (can_reserve s ids now) ≡ true
    → (ms : List LineIntersectionMovement) × (collect s.movements [] ids ≡ ok ms)
      × (requested_conflict ms ≡ false)
      × (check_all s now ms ≡ none)
unfolding can_reserve
can_reserve_passed s ids now h = elim (Result-cases (collect s.movements [] ids)) [
  | inl (ms, e) ↦ (ms, e, ground arith, ground arith)
  | inr (reason, e) ↦ absurd (ground arith)
]

pub can_reserve-IsAdmissible :
    (s : ReservationManager) (ids : List String) (now : ℕ)
    → is_ok (can_reserve s ids now) ≡ true
    → IsAdmissible s ids now
can_reserve-IsAdmissible s ids now h =
    let (ms, e, apart, passed) = can_reserve_passed s ids now h in
    record {
      known = λ a q.
          let (m, found, _) =
            collect_found s.movements (λ m. Unit {0}) [] ids e
              (All-map ms (λ m p. tt) (check_all-All s now ms passed)) a (q, no_id a) in
          (m, found);
      apart = λ a b m n p q.
          requested_conflict-Apart s.movements [] ids e apart a b m n (p, no_id a) (q, no_id b);
      clear = λ a m q found.
          let (m', found', pass) =
            collect_found s.movements (λ m. check_movement s now m ≡ none) [] ids e
              (check_all-All s now ms passed) a (q, no_id a) in
          let same : m' ≡ m = some-eq (sym found' ∙ found) in
          check_movement-IsClearFor s now m (subst (λ x. check_movement s now x ≡ none) same pass);
    }

pub IsAdmissible-can_reserve :
    (s : ReservationManager) (ids : List String) (now : ℕ)
    → IsKeyed s
    → IsAdmissible s ids now
    → can_reserve s ids now ≡ ok tt
unfolding can_reserve
IsAdmissible-can_reserve s ids now v h =
    let (ms, e) = collect_total s.movements [] ids (λ a q. h.known a q.0) in
    let apart : requested_conflict ms ≡ false =
      Apart-requested_conflict s.movements [] ids e (λ a b m n p q. h.apart a b m n p.0 q.0) in
    let passed : check_all s now ms ≡ none = All-check_all s now ms (
      All-map ms (λ m (a, q, found). IsClearFor-check_movement s now m v (h.clear a m q.0 found))
        (collect-Asked s.movements [] ids e)) in
    ground (arith, e, apart, passed)

-- canReserve accepts a request exactly when its movements are all registered, no two of them
-- exclude one another at one intersection, no train holds a movement that excludes one of them,
-- and every excluded movement that was cleared has been clear for the longer of the two clearance
-- times. The containers hold a key once.
pub can_reserve_iff :
    (s : ReservationManager) (ids : List String) (now : ℕ)
    → IsKeyed s
    → (is_ok (can_reserve s ids now) ≡ true) ↔ IsAdmissible s ids now
can_reserve_iff s ids now v =
    (can_reserve-IsAdmissible s ids now, λ h. rw (IsAdmissible-can_reserve s ids now v h) refl)
