-- ===== src/Reservation/Blocking.antt =====
-- The third loop of `canReserveLocked` in server/src/IntersectionReservationManager.cpp: what held
-- reservations and clearing times demand of one movement.
use multi_agent_route_planni.Base.{
  ℕ, ◌-◌, ◌≤◌, max, String, ◌≡◌, refl, true, false, none, some, List, [], ◌∷◌, arith, string_eq,
  inl, inr, lookup, any_entry, any_entry-false, any_entry_witness, Option-cases, Bool-cases, All,
}
use multi_agent_route_planni.Reservation.{
  LineIntersectionMovement, IntersectionReservation, IntersectionRuntime, ReservationManager,
  runtime_at, clearance_for, movements_conflict, blocks_active, blocks_cleared, check_runtime,
  check_movement, check_all,
}
use multi_agent_route_planni.Reservation.Lookup.{active_at, cleared_at, IsKeyed}

-- No train holds a movement that excludes `m` at its intersection, and each such movement has been
-- clear for the longer of the two clearance times.
pub record IsClearFor (s : ReservationManager) (now : ℕ) (m : LineIntersectionMovement)
    : Type 0 where
  pub unoccupied :
      (b : String) (x : LineIntersectionMovement) (r : IntersectionReservation)
      → active_at s m.intersection_id b ≡ some r
      → lookup b s.movements ≡ some x
      → movements_conflict m x ≡ false
  pub waited :
      (b : String) (x : LineIntersectionMovement) (t : ℕ)
      → cleared_at s m.intersection_id b ≡ some t
      → lookup b s.movements ≡ some x
      → movements_conflict m x ≡ true
      → (t ≤ now) × (max (clearance_for s m) (clearance_for s x) ≤ now - t)

blocks_cleared-false :
    (s : ReservationManager) (m x : LineIntersectionMovement) (now : ℕ) (b : String) (t : ℕ)
    → lookup b s.movements ≡ some x
    → blocks_cleared s m now b t ≡ false
    → movements_conflict m x ≡ true
    → (t ≤ now) × (max (clearance_for s m) (clearance_for s x) ≤ now - t)
unfolding blocks_cleared
blocks_cleared-false s m x now b t e h c = ground arith

check_runtime_passes :
    (s : ReservationManager) (m : LineIntersectionMovement) (now : ℕ) (r : IntersectionRuntime)
    → check_runtime s m now r ≡ none
    → (any_entry (λ id _. blocks_active s m id) r.active_by_movement ≡ false)
      × (any_entry (blocks_cleared s m now) r.last_clear_by_movement ≡ false)
unfolding check_runtime
check_runtime_passes s m now r h = ground arith

-- A movement that passes is clear.
pub check_movement-IsClearFor :
    (s : ReservationManager) (now : ℕ) (m : LineIntersectionMovement)
    → check_movement s now m ≡ none
    → IsClearFor s now m
unfolding check_movement active_at cleared_at runtime_at lookup
check_movement-IsClearFor s now m h =
    elim (Option-cases (lookup m.intersection_id s.intersections)) [
      | inl e ↦ record {
        unoccupied = λ b x r a f. absurd (ground arith);
        waited = λ b x t a f c. absurd (ground arith);
      }
      | inr (rt, e) ↦
          let (active, cleared) = check_runtime_passes s m now rt (ground arith) in
          record {
            unoccupied = λ b x r a f.
                let free =
                  any_entry-false (λ id _. blocks_active s m id) b r rt.active_by_movement active
                    (ground arith) in
                unfold blocks_active in ground arith;
            waited = λ b x t a f c.
                blocks_cleared-false s m x now b t f
                  (any_entry-false (blocks_cleared s m now) b t rt.last_clear_by_movement cleared
                    (ground arith))
                  c;
          }
    ]

blocks_active-true :
    (s : ReservationManager) (m : LineIntersectionMovement) (b : String)
    → blocks_active s m b ≡ true
    → (x : LineIntersectionMovement) × (lookup b s.movements ≡ some x)
      × (movements_conflict m x ≡ true)
unfolding blocks_active
blocks_active-true s m b h = ground arith

blocks_cleared-true :
    (s : ReservationManager) (m : LineIntersectionMovement) (now : ℕ) (b : String) (t : ℕ)
    → blocks_cleared s m now b t ≡ true
    → (x : LineIntersectionMovement) × (lookup b s.movements ≡ some x)
      × (movements_conflict m x ≡ true)
      × ¬ ((t ≤ now) × (max (clearance_for s m) (clearance_for s x) ≤ now - t))
unfolding blocks_cleared
blocks_cleared-true s m now b t h = elim (Option-cases (lookup b s.movements)) [
  | inl e ↦ absurd (ground arith)
  | inr (x, e) ↦ (x, e, ground arith, λ w. ground arith)
]

-- A clear movement passes.
pub IsClearFor-check_movement :
    (s : ReservationManager) (now : ℕ) (m : LineIntersectionMovement)
    → IsKeyed s
    → IsClearFor s now m
    → check_movement s now m ≡ none
unfolding check_movement check_runtime active_at cleared_at runtime_at
IsClearFor-check_movement s now m v c =
    elim (Option-cases (lookup m.intersection_id s.intersections)) [
      | inl e ↦ ground arith
      | inr (rt, e) ↦
          let keys = v.runtime_keys m.intersection_id rt e in
          elim (Bool-cases (any_entry (λ id _. blocks_active s m id) rt.active_by_movement)) [
            | inl occupied ↦
                let (b, r, found, hit) =
                  any_entry_witness (λ id _. blocks_active s m id) rt.active_by_movement
                    keys.active_keys occupied in
                let (x, known, conflict) = blocks_active-true s m b hit in
                absurd (ground (arith, c.unoccupied b x r))
            | inr free ↦
                elim (Bool-cases (any_entry (blocks_cleared s m now) rt.last_clear_by_movement)) [
                  | inl early ↦
                      let (b, t, found, hit) =
                        any_entry_witness (blocks_cleared s m now) rt.last_clear_by_movement
                          keys.cleared_keys early in
                      let (x, known, conflict, late) = blocks_cleared-true s m now b t hit in
                      absurd (late (c.waited b x t (ground arith) known conflict))
                  | inr passed ↦ ground arith
                ]
          ]
    ]

pub check_all-All :
    (s : ReservationManager) (now : ℕ) (ms : List LineIntersectionMovement)
    → check_all s now ms ≡ none
    → All (λ m. check_movement s now m ≡ none) ms
unfolding check_all
check_all-All s now [] h = tt
check_all-All s now (m ∷ ms) h = (ground arith, check_all-All s now ms (ground arith))

pub All-check_all :
    (s : ReservationManager) (now : ℕ) (ms : List LineIntersectionMovement)
    → All (λ m. check_movement s now m ≡ none) ms
    → check_all s now ms ≡ none
unfolding check_all
All-check_all s now [] h = refl
All-check_all s now (m ∷ ms) h = ground (arith, All-check_all s now ms h.1)
