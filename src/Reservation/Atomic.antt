-- ===== src/Reservation/Atomic.antt =====
-- `tryReserveAtomically` of server/src/IntersectionReservationManager.cpp: all the movements of a
-- request or none, and how the two ways of giving them up undo it.
use multi_agent_route_planni.Base.{
  ℕ, ◌+◌, ◌≤◌, max, String, ◌≡◌, ◌≢◌, ◌⊎◌, refl, subst, ◌∙◌, true, false, none, some, List, [], ◌∷◌,
  arith, string_eq, ◌==◌, inl, inr, lookup, contains, Bool-cases, Option-cases, Result-cases, ok,
  fail, is_ok,
}
use multi_agent_route_planni.Reservation.{
  LineIntersectionMovement, IntersectionReservation, ReservationManager, clearance_for,
  movements_conflict, collect, can_reserve, reserve_one, reserve_all, try_reserve_atomically,
  mark_cleared, cancel_train,
}
use multi_agent_route_planni.Reservation.Lookup.{active_at, cleared_at, IsKeyed}
use multi_agent_route_planni.Reservation.Booking.{
  booked, or_else, Books, reserve_one-movements, reserve_all-Books,
}
use multi_agent_route_planni.Reservation.Requests.{collect_cons}
use multi_agent_route_planni.Reservation.Admission.{IsAdmissible, no_id, can_reserve-IsAdmissible}
use multi_agent_route_planni.Reservation.Clearing.{
  released, is_held, active_at-cancel_train, cleared_at-cancel_train, cleared_at-mark_cleared,
}

-- `at` does not throw for ids that the first loop has looked up.
reserve_all_total :
    (s : ReservationManager) (train_id : String) (u ids : List String) (now : ℕ)
    {ms : List LineIntersectionMovement}
    → collect s.movements u ids ≡ ok ms
    → (s' : ReservationManager) × (reserve_all s train_id u ids now ≡ some s')
unfolding reserve_all collect
reserve_all_total s train_id u [] now e = (s, refl)
reserve_all_total s train_id u (id ∷ ids) now e = elim (Bool-cases (contains u id)) [
  | inl seen ↦
      let (s', r) = reserve_all_total s train_id u ids now (rw seen at e) in (s', ground arith)
  | inr new ↦
      let (m, rest, found, c, _) = collect_cons s.movements u id ids new e in
      let s₁ = reserve_one s train_id id m now in
      let (s', r) =
        reserve_all_total s₁ train_id (id ∷ u) ids now {ms = rest}
          (rw (reserve_one-movements s train_id id m now) c) in
      (s', ground arith)
]

can_reserve_collects :
    (s : ReservationManager) (ids : List String) (now : ℕ)
    → can_reserve s ids now ≡ ok tt
    → (ms : List LineIntersectionMovement) × (collect s.movements [] ids ≡ ok ms)
unfolding can_reserve
can_reserve_collects s ids now h = elim (Result-cases (collect s.movements [] ids)) [
  | inl (ms, e) ↦ (ms, e)
  | inr (reason, e) ↦ absurd (ground arith)
]

-- A reservation of a named train takes every movement of the request or none, and never throws: if
-- canReserve refuses, the reason is the same and nothing has changed; if it accepts, exactly the
-- movements asked for are held by the train, and no clearing time has changed.
pub try_reserve_all_or_none :
    (s : ReservationManager) (train_id : String) (ids : List String) (now : ℕ)
    → train_id ≢ ""
    → ((reason : String) × (can_reserve s ids now ≡ fail reason)
        × (try_reserve_atomically s train_id ids now ≡ some (s, fail reason)))
      ⊎ ((s' : ReservationManager) × (can_reserve s ids now ≡ ok tt)
          × (try_reserve_atomically s train_id ids now ≡ some (s', ok tt))
          × Books s train_id [] ids now s')
unfolding try_reserve_atomically
try_reserve_all_or_none s train_id ids now named = elim (Result-cases (can_reserve s ids now)) [
  | inr (reason, e) ↦ inl (reason, e, ground (arith, string_eq.beq_iff train_id ""))
  | inl (_, e) ↦
      let (ms, c) = can_reserve_collects s ids now e in
      let (s', r) = reserve_all_total s train_id [] ids now c in
      inr (
        s',
        e,
        ground (arith, string_eq.beq_iff train_id ""),
        reserve_all-Books s train_id [] ids now r,
      )
]

-- An empty train id is refused.
pub try_reserve_unnamed :
    (s : ReservationManager) (ids : List String) (now : ℕ)
    → try_reserve_atomically s "" ids now ≡ some (s, fail "empty_train_id")
unfolding try_reserve_atomically
try_reserve_unnamed s ids now = refl

-- A successful call is one that `canReserve` accepts, and books.
pub try_reserve_succeeds :
    (s : ReservationManager) (train_id : String) (ids : List String) (now : ℕ)
    {s' : ReservationManager}
    → try_reserve_atomically s train_id ids now ≡ some (s', ok tt)
    → (train_id ≢ "") × (is_ok (can_reserve s ids now) ≡ true) × Books s train_id [] ids now s'
unfolding try_reserve_atomically
try_reserve_succeeds s train_id ids now {s'} h = elim (Bool-cases (train_id == "")) [
  | inl unnamed ↦ absurd (ground arith)
  | inr named ↦
      let ne : train_id ≢ "" = λ e. ground (arith, string_eq.beq_iff train_id "") in
      elim (try_reserve_all_or_none s train_id ids now ne) [
        | inl (reason, e, f) ↦ absurd (ground arith)
        | inr (s₁, e, f, b) ↦
            let same : s₁ ≡ s' = ground arith in
            (ne, ground arith, subst (λ x. Books s train_id [] ids now x) same b)
      ]
]

-- A call that fails changes nothing.
pub try_reserve_refused :
    (s : ReservationManager) (train_id : String) (ids : List String) (now : ℕ) (reason : String)
    {s' : ReservationManager}
    → try_reserve_atomically s train_id ids now ≡ some (s', fail reason)
    → s ≡ s'
unfolding try_reserve_atomically
try_reserve_refused s train_id ids now reason h = ground arith

conflict_self : (m : LineIntersectionMovement) → movements_conflict m m ≡ true
unfolding movements_conflict
conflict_self m = ground (arith, string_eq.beq_iff m.movement_id m.movement_id)

-- What is asked for was held by nobody.
pub asked_was_free :
    (s : ReservationManager) (ids : List String) (now : ℕ) (a : String)
    (m : LineIntersectionMovement)
    → IsAdmissible s ids now
    → contains ids a ≡ true
    → lookup a s.movements ≡ some m
    → active_at s m.intersection_id a ≡ none
asked_was_free s ids now a m h asked found = elim (Option-cases (active_at s m.intersection_id a)) [
  | inl e ↦ e
  | inr (r, e) ↦
      absurd (ground (arith, conflict_self m, (h.clear a m asked found).unoccupied a m r e found))
]

released-booked :
    (s : ReservationManager) (train_id : String) (ids : List String) (now : ℕ) (i a : String)
    → IsAdmissible s ids now
    → contains ids a ≡ true
    → is_held train_id (active_at s i a) ≡ false
    → released train_id (or_else (booked s.movements train_id now i a) (active_at s i a))
      ≡ active_at s i a
unfolding booked
released-booked s train_id ids now i a ok' asked h =
    let (m, found) = ok'.known a asked in
    elim (Bool-cases (m.intersection_id == i)) [
      | inl here ↦ ground (
        arith,
        string_eq.beq_iff train_id train_id,
        string_eq.beq_iff m.intersection_id i,
        asked_was_free s ids now a m ok' asked found,
      )
      | inr elsewhere ↦ ground arith
    ]

released_other :
    (s : ReservationManager) (train_id i a : String)
    → is_held train_id (active_at s i a) ≡ false
    → released train_id (active_at s i a) ≡ active_at s i a
released_other s train_id i a h = ground arith

-- Cancelling a train's command takes back what was reserved for it, and leaves no clearing time:
-- if the train held nothing before, every reservation and every clearing time is as it was. The
-- containers hold a key once.
pub cancel_train-try_reserve :
    (s : ReservationManager) (train_id : String) (ids : List String) (now : ℕ)
    {s' : ReservationManager}
    → IsKeyed s
    → try_reserve_atomically s train_id ids now ≡ some (s', ok tt)
    → ((i a : String) → is_held train_id (active_at s i a) ≡ false)
    → (i a : String)
    → (active_at (cancel_train s' train_id) i a ≡ active_at s i a)
      × (cleared_at (cancel_train s' train_id) i a ≡ cleared_at s i a)
cancel_train-try_reserve s train_id ids now {s'} v h free i a =
    let (ne, ok', b) = try_reserve_succeeds s train_id ids now h in
    (
      ground (
        arith,
        active_at-cancel_train s' train_id (b.keyed v) i a,
        b.active_books i a,
        no_id a,
        released-booked s train_id ids now i a (can_reserve-IsAdmissible s ids now ok'),
        released_other s train_id i a (free i a),
      ),
      cleared_at-cancel_train s' train_id (b.keyed v) i a ∙ b.cleared_kept i a,
    )

pub mark_cleared-movements :
    (s : ReservationManager) (i train_id : String) (now : ℕ)
    → ((mark_cleared s i train_id now).0.movements ≡ s.movements)
      × ((mark_cleared s i train_id now).0.default_clearance_ms ≡ s.default_clearance_ms)
unfolding mark_cleared
mark_cleared-movements s i train_id now = (ground arith, ground arith)

-- After a train has left a movement, a request for one that excludes it at that intersection is
-- accepted only when the longer of the two clearance times has passed. The containers hold a key
-- once, and both movements are registered.
pub mark_cleared_waits :
    (s : ReservationManager) (i train_id b : String) (now later : ℕ) (r : IntersectionReservation)
    (x m : LineIntersectionMovement) (a : String) (ids : List String)
    → IsKeyed s
    → active_at s i b ≡ some r
    → r.train_id ≡ train_id
    → lookup b s.movements ≡ some x
    → contains ids a ≡ true
    → lookup a s.movements ≡ some m
    → m.intersection_id ≡ i
    → movements_conflict m x ≡ true
    → is_ok (can_reserve (mark_cleared s i train_id now).0 ids later) ≡ true
    → now + max (clearance_for s m) (clearance_for s x) ≤ later
unfolding clearance_for
mark_cleared_waits s i train_id b now later r x m a ids v held owner known asked found at_i c h =
    let s' = (mark_cleared s i train_id now).0 in
    let (kept, default) = mark_cleared-movements s i train_id now in
    let free = can_reserve-IsAdmissible s' ids later h in
    let clear = free.clear a m asked (rw kept found) in
    let noted : cleared_at s' m.intersection_id b ≡ some now = ground (
      arith,
      cleared_at-mark_cleared s i train_id now v m.intersection_id b,
      string_eq.beq_iff i m.intersection_id,
      string_eq.beq_iff r.train_id train_id,
    ) in
    let waited = clear.waited b x now noted (rw kept known) c in ground (arith, waited)
