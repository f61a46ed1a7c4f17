-- ===== src/Reservation/Booking.antt =====
-- The write loop of `tryReserveAtomically` in server/src/IntersectionReservationManager.cpp, at one
-- movement of one intersection.
use multi_agent_route_planni.Base.{
  ℕ, String, ◌≡◌, refl, subst, ◌∙◌, some-eq, true, false, not, ◌&&◌, Option, none, some, List, [],
  ◌∷◌, arith, if◌then◌else◌, ◌==◌, string_eq, inl, inr, contains, Map, lookup, Option-cases,
  Bool-cases, lookup-insert, insert-IsMap,
}
use multi_agent_route_planni.Reservation.{
  LineIntersectionMovement, IntersectionReservation, IntersectionRuntime, ReservationManager,
  runtime_at, reservation_for, add_active, reserve_one, reserve_all,
}
use multi_agent_route_planni.Reservation.Lookup.{
  active_at, cleared_at, IsKeyed, runtime_at-IsRuntime, runtime_at-with_runtime,
  with_runtime-IsKeyed,
}

-- `reserve_one` and the map that it writes.
module _ (s : ReservationManager) (train_id id : String) (m : LineIntersectionMovement)
    (now : ℕ) where
  abbrev booked_runtime : IntersectionRuntime
  booked_runtime =
      add_active id (reservation_for train_id id m now) (runtime_at s m.intersection_id)

  active_at-reserve_one :
      (i a : String)
      → active_at (reserve_one s train_id id m now) i a ≡ (
          if m.intersection_id == i && id == a
          then some (reservation_for train_id id m now)
          else active_at s i a)
  unfolding active_at reserve_one
  active_at-reserve_one i a = rw (runtime_at-with_runtime s m.intersection_id i booked_runtime) (
      ground (
        arith,
        string_eq.beq_iff m.intersection_id i,
        lookup-insert id a (reservation_for train_id id m now)
            (runtime_at s m.intersection_id).active_by_movement,
      ))

  cleared_at-reserve_one :
      (i a : String) → cleared_at (reserve_one s train_id id m now) i a ≡ cleared_at s i a
  unfolding cleared_at reserve_one
  cleared_at-reserve_one i a =
      rw (runtime_at-with_runtime s m.intersection_id i booked_runtime)
        (ground (arith, string_eq.beq_iff m.intersection_id i))

  reserve_one-IsKeyed : IsKeyed s → IsKeyed (reserve_one s train_id id m now)
  unfolding reserve_one
  reserve_one-IsKeyed v =
      let old = runtime_at-IsRuntime s m.intersection_id v in
      with_runtime-IsKeyed s m.intersection_id booked_runtime v (record {
        active_keys =
            insert-IsMap id (reservation_for train_id id m now)
              (runtime_at s m.intersection_id).active_by_movement old.active_keys;
        cleared_keys = old.cleared_keys;
      })

-- The reservation that a request of `a` makes at the intersection `i`.
unfoldable pub booked :
    Map String LineIntersectionMovement
    → String
    → ℕ
    → String
    → String
    → Option IntersectionReservation
booked movements train_id now i a = elim (lookup a movements) [
  | none ↦ none
  | some m ↦ if m.intersection_id == i then some (reservation_for train_id a m now) else none
]

abbrev pub or_else {ℓ} : {A : Type ℓ} → Option A → Option A → Option A
or_else none b = b
or_else (some a) b = some a

reserve_one-booked :
    (s : ReservationManager) (train_id id : String) (m : LineIntersectionMovement) (now : ℕ)
    (i : String)
    → lookup id s.movements ≡ some m
    → active_at (reserve_one s train_id id m now) i id
      ≡ or_else (booked s.movements train_id now i id) (active_at s i id)
unfolding booked
reserve_one-booked s train_id id m now i e =
    ground (arith, active_at-reserve_one s train_id id m now i id, string_eq.beq_iff id id)

reserve_one-other :
    (s : ReservationManager) (train_id id : String) (m : LineIntersectionMovement) (now : ℕ)
    (i a : String)
    → (id == a) ≡ false
    → active_at (reserve_one s train_id id m now) i a ≡ active_at s i a
reserve_one-other s train_id id m now i a e =
    ground (arith, active_at-reserve_one s train_id id m now i a)

pub reserve_one-movements :
    (s : ReservationManager) (train_id id : String) (m : LineIntersectionMovement) (now : ℕ)
    → (reserve_one s train_id id m now).movements ≡ s.movements
unfolding reserve_one
reserve_one-movements s train_id id m now = refl

reserve_one-default :
    (s : ReservationManager) (train_id id : String) (m : LineIntersectionMovement) (now : ℕ)
    → (reserve_one s train_id id m now).default_clearance_ms ≡ s.default_clearance_ms
unfolding reserve_one
reserve_one-default s train_id id m now = refl

-- What the write loop changes: exactly the movements asked for, each at its own intersection.
pub record Books (s : ReservationManager) (train_id : String) (unique_ids ids : List String)
    (now : ℕ) (s' : ReservationManager) : Type 0 where
  pub movements_kept : s'.movements ≡ s.movements
  pub default_kept : s'.default_clearance_ms ≡ s.default_clearance_ms
  pub active_books :
      (i a : String)
      → active_at s' i a ≡ (
          if contains ids a && not (contains unique_ids a)
          then or_else (booked s.movements train_id now i a) (active_at s i a)
          else active_at s i a)
  pub cleared_kept : (i a : String) → cleared_at s' i a ≡ cleared_at s i a
  pub keyed : IsKeyed s → IsKeyed s'

Books-nil :
    (s : ReservationManager) (train_id : String) (unique_ids : List String) (now : ℕ)
    → Books s train_id unique_ids [] now s
unfolding contains
Books-nil s train_id unique_ids now = record {
  movements_kept = refl;
  default_kept = refl;
  active_books = λ i a. refl;
  cleared_kept = λ i a. refl;
  keyed = λ v. v;
}

Books-skip :
    (s : ReservationManager) (train_id : String) (unique_ids : List String) (id : String)
    (ids : List String) (now : ℕ) {s' : ReservationManager}
    → contains unique_ids id ≡ true
    → Books s train_id unique_ids ids now s'
    → Books s train_id unique_ids (id ∷ ids) now s'
unfolding contains
Books-skip s train_id unique_ids id ids now seen b = record {
  movements_kept = b.movements_kept;
  default_kept = b.default_kept;
  active_books = λ i a. ground (arith, b.active_books i a, string_eq.beq_iff id a);
  cleared_kept = b.cleared_kept;
  keyed = b.keyed;
}

module _ (s : ReservationManager) (train_id : String) (unique_ids : List String) (id : String) where
  Books-cons :
      (ids : List String) (m : LineIntersectionMovement) (now : ℕ) {s' : ReservationManager}
      → contains unique_ids id ≡ false
      → lookup id s.movements ≡ some m
      → Books (reserve_one s train_id id m now) train_id (id ∷ unique_ids) ids now s'
      → Books s train_id unique_ids (id ∷ ids) now s'
  unfolding contains
  Books-cons ids m now new found b = record {
    movements_kept = b.movements_kept ∙ reserve_one-movements s train_id id m now;
    default_kept = b.default_kept ∙ reserve_one-default s train_id id m now;
    active_books = λ i a. ground (
      arith,
      b.active_books i a,
      reserve_one-movements s train_id id m now,
      reserve_one-booked s train_id id m now i found,
      reserve_one-other s train_id id m now i a,
      string_eq.beq_iff id a,
    );
    cleared_kept = λ i a. b.cleared_kept i a ∙ cleared_at-reserve_one s train_id id m now i a;
    keyed = λ v. b.keyed (reserve_one-IsKeyed s train_id id m now v);
  }

pub reserve_all-Books :
    (s : ReservationManager) (train_id : String) (unique_ids ids : List String) (now : ℕ)
    {s' : ReservationManager}
    → reserve_all s train_id unique_ids ids now ≡ some s'
    → Books s train_id unique_ids ids now s'
unfolding reserve_all
reserve_all-Books s train_id u [] now {s'} e =
    subst (λ x. Books s train_id u [] now x) (some-eq e) (Books-nil s train_id u now)
reserve_all-Books s train_id u (id ∷ ids) now {s'} e = elim (Bool-cases (contains u id)) [
  | inl seen ↦
      Books-skip s train_id u id ids now seen
        (reserve_all-Books s train_id u ids now (rw seen at e))
  | inr new ↦ elim (Option-cases (lookup id s.movements)) [
    | inl missing ↦ absurd (ground arith)
    | inr (m, found) ↦ Books-cons s train_id u id ids m now new found (
        reserve_all-Books (reserve_one s train_id id m now) train_id (id ∷ u) ids now
          (ground arith))
  ]
]
