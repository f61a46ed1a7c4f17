-- ===== src/Reservation/Requests.antt =====
-- The first two loops of `canReserveLocked` in server/src/IntersectionReservationManager.cpp: the
-- movements that a request names, and whether two of them exclude one another.
use multi_agent_route_planni.Base.{
  String, ◌≡◌, ◌≢◌, refl, sym, subst, ok-eq, some-eq, ◌∙◌, true, false, some, List, [], ◌∷◌, arith,
  ◌==◌, string_eq, inl, inr, contains, Map, lookup, Option-cases, Bool-cases, Result-cases, ok, All,
  All-map, any_of, any_of-All-false, any_of-false,
}
use multi_agent_route_planni.Reservation.{
  LineIntersectionMovement, movements_conflict, collect, clash, requested_conflict,
}

-- Mutual exclusion is symmetric: either side may declare it.
pub movements_conflict_symm :
    (m n : LineIntersectionMovement) → movements_conflict m n ≡ movements_conflict n m
unfolding movements_conflict
movements_conflict_symm m n = ground (
  arith,
  string_eq.beq_iff m.movement_id n.movement_id,
  string_eq.beq_iff n.movement_id m.movement_id,
)

-- An id of the request that the loop has not met yet.
abbrev pub Asked : List String → List String → String → Type 0
Asked unique_ids ids a = (contains ids a ≡ true) × (contains unique_ids a ≡ false)

module _ (ms : Map String LineIntersectionMovement) where
  pub collect_cons :
      (u : List String) (id : String) (ids : List String)
      {requested : List LineIntersectionMovement}
      → contains u id ≡ false
      → collect ms u (id ∷ ids) ≡ ok requested
      → (m : LineIntersectionMovement) × (rest : List LineIntersectionMovement) × (lookup id ms
          ≡ some m)
        × (collect ms (id ∷ u) ids ≡ ok rest)
        × (m ∷ rest ≡ requested)
  unfolding collect
  collect_cons u id ids new e = elim (Option-cases (lookup id ms)) [
    | inl missing ↦ absurd (ground arith)
    | inr (m, found) ↦ elim (Result-cases (collect ms (id ∷ u) ids)) [
      | inl (rest, r) ↦ (m, rest, found, r, ground arith)
      | inr (reason, r) ↦ absurd (ground arith)
    ]
  ]

  -- Each id asked for has a movement, and it is among those collected.
  pub collect_found {κ} :
      (P : LineIntersectionMovement → Type κ) (u ids : List String)
      {requested : List LineIntersectionMovement}
      → collect ms u ids ≡ ok requested
      → All P requested
      → (a : String) → Asked u ids a
      → (m : LineIntersectionMovement) × (lookup a ms ≡ some m) × P m
  unfolding collect contains
  collect_found P u [] e h a asked = absurd (ground arith)
  collect_found P u (id ∷ ids) e h a asked = elim (Bool-cases (contains u id)) [
    | inl seen ↦
        collect_found P u ids (rw seen at e) h a (ground (arith, string_eq.beq_iff id a), asked.1)
    | inr new ↦
        let (m, rest, found, r, split) = collect_cons u id ids new e in
        let h' : All P (m ∷ rest) = subst (All P) (sym split) h in
        elim (Bool-cases (id == a)) [
          | inl here ↦
              (m, subst (λ x. lookup x ms ≡ some m) ((string_eq.beq_iff id a).0 here) found, h'.0)
          | inr there ↦ collect_found P (id ∷ u) ids r h'.1 a (ground arith, ground arith)
        ]
  ]

  -- Each movement collected was asked for.
  pub collect-Asked :
      (u ids : List String) {requested : List LineIntersectionMovement}
      → collect ms u ids ≡ ok requested
      → All (λ m. (a : String) × Asked u ids a × (lookup a ms ≡ some m)) requested
  unfolding collect contains
  collect-Asked u [] e = subst (All _) (ok-eq e) tt
  collect-Asked u (id ∷ ids) e = elim (Bool-cases (contains u id)) [
    | inl seen ↦
        All-map _ (λ m (a, q, f). (a, (ground arith, q.1), f)) (collect-Asked u ids (rw seen at e))
    | inr new ↦
        let (m, rest, found, r, split) = collect_cons u id ids new e in
        subst (All _) split (
          (id, (ground (arith, string_eq.beq_iff id id), new), found),
          All-map rest (λ m (a, q, f). (a, (ground arith, ground arith), f))
              (collect-Asked (id ∷ u) ids r),
        )
  ]

  -- A request of known movements is collected.
  pub collect_total :
      (u ids : List String)
      → ((a : String) → Asked u ids a → (m : LineIntersectionMovement) × (lookup a ms ≡ some m))
      → (requested : List LineIntersectionMovement) × (collect ms u ids ≡ ok requested)
  unfolding collect contains
  collect_total u [] known = ([], refl)
  collect_total u (id ∷ ids) known = elim (Bool-cases (contains u id)) [
    | inl seen ↦
        let (requested, r) = collect_total u ids (λ a q. known a (ground arith, q.1)) in
        (requested, ground arith)
    | inr new ↦
        let (m, found) = known id (ground (arith, string_eq.beq_iff id id), new) in
        let (rest, r) = collect_total (id ∷ u) ids (λ a q. known a (ground arith, ground arith)) in
        (m ∷ rest, ground arith)
  ]

  -- Two movements of one request at one intersection do not exclude one another.
  abbrev pub Apart : List String → List String → Type 0
  Apart u ids =
      (a b : String) (m n : LineIntersectionMovement)
      → Asked u ids a
      → Asked u ids b
      → a ≢ b
      → lookup a ms ≡ some m
      → lookup b ms ≡ some n
      → m.intersection_id ≡ n.intersection_id
      → movements_conflict m n ≡ false

  clash_apart :
      (m n : LineIntersectionMovement)
      → m.intersection_id ≡ n.intersection_id
      → clash m n ≡ false
      → movements_conflict m n ≡ false
  clash_apart m n e h = ground (arith, string_eq.beq_iff m.intersection_id n.intersection_id)

  head_apart :
      (m : LineIntersectionMovement) (u ids : List String) {rest : List LineIntersectionMovement}
      → collect ms u ids ≡ ok rest
      → any_of (clash m) rest ≡ false
      → (b : String) (n : LineIntersectionMovement) → Asked u ids b
      → lookup b ms ≡ some n
      → m.intersection_id ≡ n.intersection_id
      → movements_conflict m n ≡ false
  head_apart m u ids {rest} r h b n q fb at_one =
      let (n', found, free) =
        collect_found (λ n'. clash m n' ≡ false) u ids r (any_of-All-false (clash m) rest h) b q in
      let same : n' ≡ n = some-eq (sym found ∙ fb) in
      clash_apart m n at_one (subst (λ x. clash m x ≡ false) same free)

  -- A request that passes the second loop has its movements apart.
  pub requested_conflict-Apart :
      (u ids : List String) {requested : List LineIntersectionMovement}
      → collect ms u ids ≡ ok requested
      → requested_conflict requested ≡ false
      → Apart u ids
  unfolding collect contains requested_conflict
  requested_conflict-Apart u [] e h = λ a b m n p q. absurd (ground arith)
  requested_conflict-Apart u (id ∷ ids) {requested} e h = λ a b m n p q ne fa fb at_one.
      elim (Bool-cases (contains u id)) [
        | inl seen ↦
            requested_conflict-Apart u ids (rw seen at e) h a b m n
              (ground (arith, string_eq.beq_iff id a), p.1)
              (ground (arith, string_eq.beq_iff id b), q.1) ne fa fb at_one
        | inr new ↦
            let (m₀, rest, found, r, split) = collect_cons u id ids new e in
            let h' : requested_conflict (m₀ ∷ rest) ≡ false =
              subst (λ x. requested_conflict x ≡ false) (sym split) h in
            let first : any_of (clash m₀) rest ≡ false = ground arith in
            elim (Bool-cases (id == a)) [
              | inl is_a ↦
                  let same : m₀ ≡ m = ground (arith, string_eq.beq_iff id a) in
                  subst (λ x. movements_conflict x n ≡ false) same
                    (head_apart m₀ (id ∷ u) ids r first b n
                      (ground (arith, string_eq.beq_iff id a, string_eq.beq_iff id b)) fb
                      (ground arith))
              | inr not_a ↦ elim (Bool-cases (id == b)) [
                | inl is_b ↦
                    let same : m₀ ≡ n = ground (arith, string_eq.beq_iff id b) in
                    movements_conflict_symm m n
                    ∙ subst (λ x. movements_conflict x m ≡ false) same
                        (head_apart m₀ (id ∷ u) ids r first a m (ground arith) fa (ground arith))
                | inr not_b ↦
                    requested_conflict-Apart (id ∷ u) ids r (ground arith) a b m n (ground arith)
                      (ground arith) ne fa fb at_one
              ]
            ]
      ]

  -- And only such a request passes it.
  pub Apart-requested_conflict :
      (u ids : List String) {requested : List LineIntersectionMovement}
      → collect ms u ids ≡ ok requested
      → Apart u ids
      → requested_conflict requested ≡ false
  unfolding collect contains requested_conflict
  Apart-requested_conflict u [] e h = subst (λ x. requested_conflict x ≡ false) (ok-eq e) refl
  Apart-requested_conflict u (id ∷ ids) {requested} e h = elim (Bool-cases (contains u id)) [
    | inl seen ↦
        Apart-requested_conflict u ids (rw seen at e)
          (λ a b m n p q. h a b m n (ground arith, p.1) (ground arith, q.1))
    | inr new ↦
        let (m₀, rest, found, r, split) = collect_cons u id ids new e in
        let free : any_of (clash m₀) rest ≡ false = any_of-false (clash m₀) rest (
          All-map rest
            (λ n (b, q, fb). ground (
              arith,
              string_eq.beq_iff id b,
              string_eq.beq_iff id id,
              string_eq.beq_iff m₀.intersection_id n.intersection_id,
              h id b m₀ n,
            ))
            (collect-Asked (id ∷ u) ids r)) in
        let apart : requested_conflict rest ≡ false =
          Apart-requested_conflict (id ∷ u) ids r
            (λ a b m n p q. h a b m n (ground arith, ground arith) (ground arith, ground arith)) in
        subst (λ x. requested_conflict x ≡ false) split (ground arith)
  ]
