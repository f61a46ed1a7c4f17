-- ===== src/Manager/Steps.antt =====
-- Each method of server/src/DispatchManager.cpp that no command depends on, over the tables.
use multi_agent_route_planni.Base.{
  ℕ, ◌-◌, String, ◌≡◌, refl, inl, inr, true, false, ◌||◌, none, some, List, arith, ◌==◌, nat_eq,
  string_eq, Bool-cases, Option-cases, lookup, insert-IsMap,
}
use multi_agent_route_planni.Base.Floats.{Floats}
use multi_agent_route_planni.Dispatch.{DispatchCandidate, LineDispatchState, SharedCorridorState}
use multi_agent_route_planni.Reservation.{LineIntersectionMovement}
use multi_agent_route_planni.Reservation.History.{IsFresh, registers, clears}
use multi_agent_route_planni.Manager.{
  DispatchManager, register_intersection_movement, keep_pending, with_defaults, with_corridor,
  upsert_corridor, upsert_line_state, replace_candidates, mark_corridor_exited,
  mark_intersection_cleared,
}
use multi_agent_route_planni.Manager.Interlock.{is_busy, Interlock-idle}
use multi_agent_route_planni.Manager.Matching.{Matched-keep}
use multi_agent_route_planni.Manager.Safety.{
  IsSafe, IsAcceptable, set_corridor-Safe, with_reservations-Safe,
}

module _ (F : Floats) (m : DispatchManager F) (v : IsSafe F m) where
  pub register-IsSafe :
      (movement : LineIntersectionMovement)
      → IsFresh m.reservations movement.movement_id
      → IsSafe F (register_intersection_movement F m movement).0
  unfolding register_intersection_movement
  register-IsSafe movement fresh =
      with_reservations-Safe F m.corridors m.pending_decisions m.reservations _
        (registers movement fresh) v

  pub mark_intersection_cleared-IsSafe :
      (i t : String) (now : ℕ) → IsSafe F (mark_intersection_cleared F m i t now).0
  unfolding mark_intersection_cleared
  mark_intersection_cleared-IsSafe i t now =
      with_reservations-Safe F m.corridors m.pending_decisions m.reservations _ (clears i t now) v

  upsert_new :
      (id : String) (c : SharedCorridorState F)
      → lookup id m.corridors ≡ none
      → is_busy F c ≡ false
      → IsSafe F (with_corridor F m id c)
  upsert_new id c e idle = record {
    corridor_keys = insert-IsMap id c m.corridors v.corridor_keys;
    pending_keys = v.pending_keys;
    interlock = Interlock-idle F id c m.corridors idle v.interlock;
    matched = Matched-keep F id c m.corridors m.pending_decisions (rw e (ground arith)) v.matched;
    booked = v.booked;
  }

  with_corridor-IsSafe :
      (id : String) (c e : SharedCorridorState F)
      → lookup id m.corridors ≡ some e
      → c.corridor_id ≡ e.corridor_id
      → c.command_pending ≡ e.command_pending
      → (is_busy F c ≡ true → is_busy F e ≡ true)
      → IsSafe F (with_corridor F m id c)
  with_corridor-IsSafe id c e found same pending less =
      set_corridor-Safe F id c e m.corridors m.pending_decisions m.reservations found same pending
        less v

  pub upsert_corridor-IsSafe :
      (c : SharedCorridorState F)
      → IsAcceptable F c (lookup c.corridor_resource_id m.corridors)
      → IsSafe F (upsert_corridor F m c)
  unfolding upsert_corridor
  upsert_corridor-IsSafe c h = elim (Bool-cases (c.corridor_resource_id == "")) [
    | inl unnamed ↦ rw (unnamed, upsert_corridor) v
    | inr named ↦ elim (Option-cases (lookup c.corridor_resource_id m.corridors)) [
      | inl e ↦
          rw (named, upsert_corridor, e)
            (upsert_new c.corridor_resource_id (with_defaults F m c) e (ground (arith, h, e)))
      | inr (x, e) ↦
          rw (named, upsert_corridor, e)
            (with_corridor-IsSafe c.corridor_resource_id
              (with_defaults F m (keep_pending F c (some x))) x e (ground (arith, h)) refl
              (λ q. ground (arith, h)))
    ]
  ]

  pub upsert_line_state-IsSafe :
      (id line_id : String) (line : LineDispatchState F)
      → IsSafe F (upsert_line_state F m id line_id line)
  unfolding upsert_line_state
  upsert_line_state-IsSafe id line_id line =
      elim (Bool-cases (id == "" || line_id == "" || line.target_headway_ms == 0)) [
        | inl bad ↦ rw (bad, upsert_line_state) v
        | inr good ↦
            rw (good, upsert_line_state)
              (record {
                corridor_keys = v.corridor_keys;
                pending_keys = v.pending_keys;
                interlock = v.interlock;
                matched = v.matched;
                booked = v.booked;
              })
      ]

  pub replace_candidates-IsSafe :
      (id : String) (cs : List (DispatchCandidate F)) (wall : ℕ)
      → IsSafe F (replace_candidates F m id cs wall).0
  unfolding replace_candidates
  replace_candidates-IsSafe id cs wall = elim (Option-cases (lookup id m.corridors)) [
    | inl e ↦ rw (e, replace_candidates) v
    | inr (c, e) ↦
        rw (e, replace_candidates)
          (with_corridor-IsSafe id (record c { candidates = cs; received_at_wall_ms = wall }) c e
            refl refl (λ q. q))
  ]

  pub mark_corridor_exited-IsSafe : (id : String) → IsSafe F (mark_corridor_exited F m id).0
  unfolding mark_corridor_exited
  mark_corridor_exited-IsSafe id = elim (Option-cases (lookup id m.corridors)) [
    | inl e ↦ rw (e, mark_corridor_exited) v
    | inr (c, e) ↦ elim (Bool-cases (c.occupancy == 0)) [
      | inl empty ↦ rw (e, mark_corridor_exited, empty) v
      | inr used ↦
          rw (e, mark_corridor_exited, used)
            (with_corridor-IsSafe id (record c { occupancy = c.occupancy - 1 }) c e refl refl
              (λ q. ground arith))
    ]
  ]
