-- ===== src/Manager/Restores.antt =====
-- What `restorePending` and `restoreActive` of server/src/DispatchManager.cpp leave in the tables.
use multi_agent_route_planni.Base.{
  String, ◌≡◌, refl, ◌⊎◌, inl, inr, true, none, some, arith, string_eq, Result, ok, fail,
  Bool-cases, Option-cases, lookup, insert,
}
use multi_agent_route_planni.Base.Floats.{Floats}
use multi_agent_route_planni.Dispatch.{SharedCorridorState, DispatchDecision}
use multi_agent_route_planni.Reservation.{ReservationManager}
use multi_agent_route_planni.Manager.{DispatchManager}
use multi_agent_route_planni.Manager.Planning.{opposing_reason}
use multi_agent_route_planni.Manager.Answers.{
  restore, as_pending, restore_pending, as_active, restore_active,
}
use multi_agent_route_planni.Manager.Names.{IsNamed, insert-IsNamed}
use multi_agent_route_planni.Manager.Plans.{try_reserve_cases}
use multi_agent_route_planni.Manager.Safety.{IsSafe}

module _ (F : Floats) (m : DispatchManager F) (d : DispatchDecision F) where
  abbrev Outcome : Type 0
  Outcome = DispatchManager F × Result (Unit {0})

  restore_cases :
      (c : SharedCorridorState F) (finish : ReservationManager → DispatchManager F)
      → ((reason : String) × (restore F m d c finish ≡ some (m, fail reason)))
        ⊎ ((r : ReservationManager) × (restore F m d c finish ≡ some (finish r, ok tt)))
  unfolding restore
  restore_cases c finish =
      elim (Option-cases (opposing_reason F d.corridor_resource_id c.corridor_id m.corridors)) [
        | inr (reason, f) ↦ inl ("opposing_direction_busy", rw (f, restore) refl)
        | inl f ↦
            elim (try_reserve_cases m.reservations d.train_id d.reserved_intersection_movement_ids
              d.issued_at_simulation_ms) [
                | inl (reason, g) ↦ inl (reason, rw (f, restore, g) refl)
                | inr (r, g) ↦ inr (r, rw (f, restore, g) refl)
              ]
      ]

  -- A command is restored where none waits, or the manager stays as it is.
  pub restore_pending_cases :
      IsSafe F m
      → ((reason : String) × (restore_pending F m d ≡ some (m, fail reason)))
        ⊎ ((n : DispatchManager F) × (restore_pending F m d ≡ some (n, ok tt))
            × (lookup d.corridor_resource_id m.pending_decisions ≡ none)
            × (n.pending_decisions ≡ insert d.corridor_resource_id d m.pending_decisions)
            × (IsNamed F m.corridors → IsNamed F n.corridors))
  unfolding restore_pending as_pending
  restore_pending_cases v =
      let id = d.corridor_resource_id in
      elim (Option-cases (lookup id m.corridors)) [
        | inl e ↦ inl ("unknown_or_busy_corridor", rw (e, restore_pending) refl)
        | inr (c, e) ↦ elim (Bool-cases c.command_pending) [
          | inl busy ↦ inl ("unknown_or_busy_corridor", simp (e, restore_pending, busy) refl)
          | inr idle ↦ elim (restore_cases c (as_pending F m d c)) [
            | inl (reason, f) ↦ inl (reason, simp (e, restore_pending, idle) f)
            | inr (r, f) ↦ inr (
              as_pending F m d c r,
              simp (e, restore_pending, idle) f,
              ground (arith, v.matched id, e, idle),
              refl,
              λ named.
                  insert-IsNamed F id (record c { command_pending = true }) m.corridors
                    (named id c e) named,
            )
          ]
        ]
      ]

  -- A passage is restored, or the manager stays as it is; no command comes or goes.
  pub restore_active_cases :
      ((reason : String) × (restore_active F m d ≡ some (m, fail reason)))
      ⊎ ((n : DispatchManager F) × (restore_active F m d ≡ some (n, ok tt))
          × (n.pending_decisions ≡ m.pending_decisions)
          × (IsNamed F m.corridors → IsNamed F n.corridors))
  unfolding restore_active as_active
  restore_active_cases =
      let id = d.corridor_resource_id in
      elim (Option-cases (lookup id m.corridors)) [
        | inl e ↦ inl ("unknown_corridor", rw (e, restore_active) refl)
        | inr (c, e) ↦ elim (restore_cases c (as_active F m d c)) [
          | inl (reason, f) ↦ inl (reason, simp (e, restore_active) f)
          | inr (r, f) ↦ inr (
            as_active F m d c r,
            simp (e, restore_active) f,
            refl,
            λ named. insert-IsNamed F id _ m.corridors (named id c e) named,
          )
        ]
      ]
