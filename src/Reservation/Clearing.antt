-- ===== src/Reservation/Clearing.antt =====
-- `markCleared` and `cancelTrain` of server/src/IntersectionReservationManager.cpp, at one movement
-- of one intersection.
use multi_agent_route_planni.Base.{
  ℕ, String, ◌≡◌, refl, subst, Bool, true, false, ◌&&◌, Option, none, some, [], ◌∷◌, arith,
  if◌then◌else◌, ◌==◌, string_eq, inl, inr, Map, lookup, insert, erase_if, IsMap, unless,
  Option-cases, lookup-insert, insert-IsMap, lookup-erase_if-none, lookup-erase_if-some,
  erase_if-IsMap, lookup-map_values, map_values-IsMap, any_entry, any_entry-true, any_entry-false,
}
use multi_agent_route_planni.Reservation.{
  IntersectionReservation, IntersectionRuntime, ReservationManager, runtime_at, held_by,
  clear_times, clear_runtime, mark_cleared, cancel_runtime, cancel_train,
}
use multi_agent_route_planni.Reservation.Lookup.{
  active_at, cleared_at, IsRuntime, IsKeyed, with_runtime, runtime_at-with_runtime,
  with_runtime-IsKeyed,
}

-- What is left of a reservation when the train gives up its own.
abbrev pub released : String → Option IntersectionReservation → Option IntersectionReservation
released train_id none = none
released train_id (some r) = unless (r.train_id == train_id) (some r)

abbrev pub is_held : String → Option IntersectionReservation → Bool
is_held train_id none = false
is_held train_id (some r) = r.train_id == train_id

lookup-erase_held :
    (train_id a : String) (m : Map String IntersectionReservation)
    → IsMap m
    → lookup a (erase_if (held_by train_id) m) ≡ released train_id (lookup a m)
lookup-erase_held train_id a m h = elim (Option-cases (lookup a m)) [
  | inl e ↦ rw (e, lookup-erase_if-none (held_by train_id) a m e) refl
  | inr (r, e) ↦ rw (e, lookup-erase_if-some (held_by train_id) a r m h e) refl
]

lookup-clear_times :
    (train_id a : String) (now : ℕ) (active : Map String IntersectionReservation)
    (cleared : Map String ℕ)
    → IsMap active
    → lookup a (clear_times train_id now active cleared)
      ≡ (if is_held train_id (lookup a active) then some now else lookup a cleared)
unfolding clear_times lookup
lookup-clear_times train_id a now [] cleared h = refl
lookup-clear_times train_id a now ((id, r) ∷ active) cleared h = ground (
  arith,
  string_eq.beq_iff id a,
  lookup-insert id a now cleared,
  lookup-clear_times train_id a now active
      (if r.train_id == train_id then insert id now cleared else cleared) h.1,
)

clear_times-IsMap :
    (train_id : String) (now : ℕ) (active : Map String IntersectionReservation)
    (cleared : Map String ℕ)
    → IsMap cleared
    → IsMap (clear_times train_id now active cleared)
unfolding clear_times
clear_times-IsMap train_id now [] cleared h = h
clear_times-IsMap train_id now ((id, r) ∷ active) cleared h =
    clear_times-IsMap train_id now active _ (ground (arith, insert-IsMap id now cleared h))

clear_runtime-IsRuntime :
    (train_id : String) (now : ℕ) (r : IntersectionRuntime)
    → IsRuntime r
    → IsRuntime (clear_runtime train_id now r)
unfolding clear_runtime
clear_runtime-IsRuntime train_id now r h = record {
  active_keys = erase_if-IsMap (held_by train_id) r.active_by_movement h.active_keys;
  cleared_keys =
      clear_times-IsMap train_id now r.active_by_movement r.last_clear_by_movement h.cleared_keys;
}

mark_cleared_unknown :
    (s : ReservationManager) (i train_id : String) (now : ℕ)
    → lookup i s.intersections ≡ none
    → mark_cleared s i train_id now ≡ (s, false)
unfolding mark_cleared
mark_cleared_unknown s i train_id now e = rw (e, mark_cleared) refl

mark_cleared_known :
    (s : ReservationManager) (i train_id : String) (now : ℕ) (r : IntersectionRuntime)
    → lookup i s.intersections ≡ some r
    → mark_cleared s i train_id now ≡ (
      with_runtime s i (clear_runtime train_id now r),
      any_entry (held_by train_id) r.active_by_movement,
    )
unfolding mark_cleared
mark_cleared_known s i train_id now r e = rw (e, mark_cleared) refl

module _ (s : ReservationManager) (i train_id : String) (now : ℕ) (v : IsKeyed s) where
  -- `markCleared` drops the train's reservations at this intersection, and no others.
  pub active_at-mark_cleared :
      (j a : String)
      → active_at (mark_cleared s i train_id now).0 j a
        ≡ (if i == j then released train_id (active_at s j a) else active_at s j a)
  unfolding active_at runtime_at clear_runtime lookup
  active_at-mark_cleared j a = elim (Option-cases (lookup i s.intersections)) [
    | inl e ↦ ground (arith, mark_cleared_unknown s i train_id now e, string_eq.beq_iff i j)
    | inr (r, e) ↦ ground (
      arith,
      mark_cleared_known s i train_id now r e,
      string_eq.beq_iff i j,
      runtime_at-with_runtime s i j (clear_runtime train_id now r),
      lookup-erase_held train_id a r.active_by_movement (v.runtime_keys i r e).active_keys,
    )
  ]

  -- It notes the time for each of them.
  pub cleared_at-mark_cleared :
      (j a : String)
      → cleared_at (mark_cleared s i train_id now).0 j a
        ≡ (if i == j && is_held train_id (active_at s j a) then some now else cleared_at s j a)
  unfolding active_at cleared_at runtime_at clear_runtime lookup
  cleared_at-mark_cleared j a = elim (Option-cases (lookup i s.intersections)) [
    | inl e ↦ ground (arith, mark_cleared_unknown s i train_id now e, string_eq.beq_iff i j)
    | inr (r, e) ↦ ground (
      arith,
      mark_cleared_known s i train_id now r e,
      string_eq.beq_iff i j,
      runtime_at-with_runtime s i j (clear_runtime train_id now r),
      lookup-clear_times train_id a now r.active_by_movement r.last_clear_by_movement
          (v.runtime_keys i r e).active_keys,
    )
  ]

  pub mark_cleared-IsKeyed : IsKeyed (mark_cleared s i train_id now).0
  mark_cleared-IsKeyed = elim (Option-cases (lookup i s.intersections)) [
    | inl e ↦ rw (mark_cleared_unknown s i train_id now e) v
    | inr (r, e) ↦ rw (mark_cleared_known s i train_id now r e) (
        with_runtime-IsKeyed s i (clear_runtime train_id now r) v
          (clear_runtime-IsRuntime train_id now r (v.runtime_keys i r e)))
  ]

  -- It answers whether the train held anything there.
  pub mark_cleared-none_held :
      (mark_cleared s i train_id now).1 ≡ false
      → (a : String) → is_held train_id (active_at s i a) ≡ false
  unfolding active_at runtime_at lookup
  mark_cleared-none_held h a = elim (Option-cases (lookup i s.intersections)) [
    | inl e ↦ ground (arith, e)
    | inr (r, e) ↦ elim (Option-cases (lookup a r.active_by_movement)) [
      | inl f ↦ ground (arith, e, f)
      | inr (x, f) ↦ ground (
        arith,
        mark_cleared_known s i train_id now r e,
        any_entry-false (held_by train_id) a x r.active_by_movement,
      )
    ]
  ]

  pub mark_cleared-some_held :
      (a : String)
      → is_held train_id (active_at s i a) ≡ true
      → (mark_cleared s i train_id now).1 ≡ true
  unfolding active_at runtime_at lookup
  mark_cleared-some_held a h = elim (Option-cases (lookup i s.intersections)) [
    | inl e ↦ ground (arith, e)
    | inr (r, e) ↦ elim (Option-cases (lookup a r.active_by_movement)) [
      | inl f ↦ ground (arith, e, f)
      | inr (x, f) ↦ ground (
        arith,
        mark_cleared_known s i train_id now r e,
        any_entry-true (held_by train_id) a x r.active_by_movement,
      )
    ]
  ]

module _ (s : ReservationManager) (train_id : String) (v : IsKeyed s) where
  -- `cancelTrain` drops the train's reservations at every intersection.
  pub active_at-cancel_train :
      (j a : String) → active_at (cancel_train s train_id) j a ≡ released train_id (active_at s j a)
  unfolding active_at runtime_at cancel_train lookup
  active_at-cancel_train j a = elim (Option-cases (lookup j s.intersections)) [
    | inl e ↦ ground (arith, e, lookup-map_values (cancel_runtime train_id) j s.intersections)
    | inr (r, e) ↦ ground (
      arith,
      e,
      lookup-map_values (cancel_runtime train_id) j s.intersections,
      lookup-erase_held train_id a r.active_by_movement (v.runtime_keys j r e).active_keys,
    )
  ]

  pub cleared_at-cancel_train :
      (j a : String) → cleared_at (cancel_train s train_id) j a ≡ cleared_at s j a
  unfolding cleared_at runtime_at cancel_train lookup
  cleared_at-cancel_train j a =
      ground (arith, lookup-map_values (cancel_runtime train_id) j s.intersections)

  pub cancel_train-IsKeyed : IsKeyed (cancel_train s train_id)
  unfolding cancel_train
  cancel_train-IsKeyed = record {
    intersection_keys =
        map_values-IsMap (cancel_runtime train_id) s.intersections v.intersection_keys;
    runtime_keys = λ j r e. elim (Option-cases (lookup j s.intersections)) [
      | inl f ↦
          absurd (ground (arith, lookup-map_values (cancel_runtime train_id) j s.intersections))
      | inr (q, f) ↦
          subst IsRuntime
            (ground (arith, f, lookup-map_values (cancel_runtime train_id) j s.intersections))
            (record {
              active_keys =
                  erase_if-IsMap (held_by train_id) q.active_by_movement
                    (v.runtime_keys j q f).active_keys;
              cleared_keys = (v.runtime_keys j q f).cleared_keys;
            })
    ];
  }
