-- ===== src/Manager/Commands.antt =====
-- Each method of server/src/DispatchManager.cpp that issues, ends or restores a command, over the
-- tables.
use multi_agent_route_planni.Base.{
  ℕ, some-eq, value_or, String, ◌≡◌, refl, sym, ◌∙◌, subst, inl, inr, true, false, some, List,
  arith, ◌==◌, nat_eq, string_eq, Result, ok, fail, Bool-cases, Option-cases, lookup, insert, erase,
}
use multi_agent_route_planni.Base.Floats.{Floats}
use multi_agent_route_planni.Dispatch.{SharedCorridorState, DispatchDecision}
use multi_agent_route_planni.Reservation.{ReservationManager, try_reserve_atomically, cancel_train}
use multi_agent_route_planni.Reservation.History as History
use multi_agent_route_planni.Reservation.History.{
  IsFresh, Step-Inv, registers, reserves, clears, cancels,
}
use multi_agent_route_planni.Manager.{DispatchManager}
use multi_agent_route_planni.Manager.Planning.{opposing_reason, plan_next}
use multi_agent_route_planni.Manager.Answers.{
  entered, count_release, confirm, confirm_entry, cancel_pending, restore,
}
use multi_agent_route_planni.Manager.Interlock.{IsClear, opposing_reason-IsClear}
use multi_agent_route_planni.Manager.Plans.{Holds, Issues, try_reserve_cases, plan_next_cases}
use multi_agent_route_planni.Manager.Safety.{IsSafe, Safe, command-Safe, answer-Safe}

module _ (F : Floats) (m : DispatchManager F) (v : IsSafe F m) where
  reserves-Inv :
      (t : String) (ids : List String) (now : ℕ) {r : ReservationManager} (a : Result (Unit {0}))
      → try_reserve_atomically m.reservations t ids now ≡ some (r, a)
      → History.Inv r
  reserves-Inv t ids now a e = Step-Inv (reserves t ids now a e) v.booked

  pub Holds-IsSafe : (o : DispatchManager F × DispatchDecision F) → Holds F m o → IsSafe F o.0
  Holds-IsSafe o h = rw (h.corridors, h.pending, h.reservations) v

  pub Issues-IsSafe :
      (id : String) (now wall : ℕ) (o : DispatchManager F × DispatchDecision F)
      → Issues F m id now wall o
      → IsSafe F o.0
  Issues-IsSafe id now wall o h =
      let safe =
        command-Safe F id (record h.corridor { command_pending = true }) o.1 m.corridors
          m.pending_decisions m.reservations o.0.reservations h.clear refl
          (reserves-Inv o.1.train_id o.1.reserved_intersection_movement_ids now (ok tt) h.reserved)
          v in
      rw (h.corridors, h.pending) safe

  pub plan_next-IsSafe :
      (id : String) (now wall : ℕ) {o : DispatchManager F × DispatchDecision F}
      → plan_next F m id now wall ≡ some o
      → IsSafe F o.0
  plan_next-IsSafe id now wall {o} e =
      let (o', f, w) = plan_next_cases F m id now wall in
      let same : o' ≡ o = some-eq (sym f ∙ e) in
      subst (λ (x : DispatchManager F × DispatchDecision F). IsSafe F x.0) same
        (elim w [ inl h ↦ Holds-IsSafe o' h | inr h ↦ Issues-IsSafe id now wall o' h ])

  entered-Safe :
      (id t : String) (now : ℕ) (d : DispatchDecision F) (c : SharedCorridorState F)
      → lookup id m.corridors ≡ some c
      → lookup id m.pending_decisions ≡ some d
      → Safe F
          (insert id (entered F t now c) m.corridors)
          (erase id m.pending_decisions)
          m.reservations
  unfolding entered
  entered-Safe id t now d c e f =
      answer-Safe F id (entered F t now c) c d m.corridors m.pending_decisions m.reservations
        m.reservations e f refl refl v.booked v

  confirm-IsSafe :
      (id t : String) (now : ℕ) (d : DispatchDecision F) (c : SharedCorridorState F)
      → lookup id m.corridors ≡ some c
      → lookup id m.pending_decisions ≡ some d
      → IsSafe F (confirm F m id t now d c)
  unfolding confirm count_release
  confirm-IsSafe id t now d c e f =
      elim (Bool-cases (value_or "" id m.last_released_line == d.line_id)) [
        | inl again ↦ rw (again, count_release) (entered-Safe id t now d c e f)
        | inr other ↦ rw (other, count_release) (entered-Safe id t now d c e f)
      ]

  pub confirm_entry-IsSafe : (id t : String) (now : ℕ) → IsSafe F (confirm_entry F m id t now).0
  unfolding confirm_entry
  confirm_entry-IsSafe id t now = elim (Option-cases (lookup id m.pending_decisions)) [
    | inl f ↦ rw (f, confirm_entry) v
    | inr (d, f) ↦ elim (Option-cases (lookup id m.corridors)) [
      | inl e ↦ rw (f, confirm_entry, e) v
      | inr (c, e) ↦ elim (Bool-cases (d.train_id == t)) [
        | inr other ↦ rw (f, confirm_entry, e, other) v
        | inl same ↦ rw (f, confirm_entry, e, same) (confirm-IsSafe id t now d c e f)
      ]
    ]
  ]

  pub cancel_pending-IsSafe : (id : String) → IsSafe F (cancel_pending F m id).0
  unfolding cancel_pending
  cancel_pending-IsSafe id = elim (Option-cases (lookup id m.pending_decisions)) [
    | inl f ↦ rw (f, cancel_pending) v
    | inr (d, f) ↦ elim (Option-cases (lookup id m.corridors)) [
      | inl e ↦ absurd (ground (arith, v.matched id, e, f))
      | inr (c, e) ↦
          rw (f, cancel_pending, e)
            (answer-Safe F id (record c { command_pending = false }) c d m.corridors
              m.pending_decisions m.reservations (cancel_train m.reservations d.train_id) e f refl
              refl (Step-Inv (cancels d.train_id) v.booked) v)
    ]
  ]

  pub restore-IsSafe :
      (d : DispatchDecision F) (c : SharedCorridorState F)
      (finish : ReservationManager → DispatchManager F) {o : DispatchManager F × Result (Unit {0})}
      → restore F m d c finish ≡ some o
      → ((r : ReservationManager)
          → History.Inv r
          → IsClear F d.corridor_resource_id c.corridor_id m.corridors
          → IsSafe F (finish r))
      → IsSafe F o.0
  unfolding restore
  restore-IsSafe d c finish {o} e done =
      elim (Option-cases (opposing_reason F d.corridor_resource_id c.corridor_id m.corridors)) [
        | inr (reason, f) ↦
            let same : (m, fail "opposing_direction_busy") ≡ o =
              some-eq (sym (rw (f, restore) refl) ∙ e) in
            subst (λ (x : DispatchManager F × Result (Unit {0})). IsSafe F x.0) same v
        | inl f ↦
            elim (try_reserve_cases m.reservations d.train_id d.reserved_intersection_movement_ids
              d.issued_at_simulation_ms) [
                | inl (reason, g) ↦
                    let same : (record m { reservations = m.reservations }, fail reason) ≡ o =
                      some-eq (sym (rw (f, restore, g) refl) ∙ e) in
                    subst (λ (x : DispatchManager F × Result (Unit {0})). IsSafe F x.0) same
                      (record {
                        corridor_keys = v.corridor_keys;
                        pending_keys = v.pending_keys;
                        interlock = v.interlock;
                        matched = v.matched;
                        booked = v.booked;
                      })
                | inr (r, g) ↦
                    let same : (finish r, ok tt) ≡ o =
                      some-eq (sym (rw (f, restore, g) refl) ∙ e) in
                    subst (λ (x : DispatchManager F × Result (Unit {0})). IsSafe F x.0) same
                      (done r (reserves-Inv _ _ _ (ok tt) g) (
                        opposing_reason-IsClear F d.corridor_resource_id c.corridor_id m.corridors
                          f))
              ]
      ]
