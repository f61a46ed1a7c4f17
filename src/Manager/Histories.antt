-- ===== src/Manager/Histories.antt =====
-- Histories of the methods of server/src/DispatchManager.cpp, each under its lock.
use multi_agent_route_planni.Base.{
  ℕ, some-eq, String, ◌≡◌, refl, sym, ◌∙◌, subst, inl, inr, true, ◌||◌, some, List, [], arith, ◌==◌,
  nat_eq, string_eq, Result, ok, fail, Bool-cases, Option-cases, lookup, insert-IsMap,
}
use multi_agent_route_planni.Base.Floats.{Floats}
use multi_agent_route_planni.Dispatch.{
  DispatchCandidate, LineDispatchState, SharedCorridorState, DispatchDecision,
}
use multi_agent_route_planni.Reservation.{LineIntersectionMovement}
use multi_agent_route_planni.Reservation.History.{IsFresh}
use multi_agent_route_planni.Manager.{
  DispatchManager, register_intersection_movement, upsert_corridor, upsert_line_state,
  replace_candidates, mark_corridor_exited, mark_intersection_cleared,
}
use multi_agent_route_planni.Manager.Planning.{plan_next}
use multi_agent_route_planni.Manager.Answers.{
  confirm_entry, cancel_pending, as_pending, restore_pending, as_active, restore_active,
}
use multi_agent_route_planni.Manager.Interlock.{Interlock-clear}
use multi_agent_route_planni.Manager.Matching.{Matched-keep}
use multi_agent_route_planni.Manager.Safety.{IsSafe, Safe, IsAcceptable, command-Safe}
use multi_agent_route_planni.Manager.{DispatchManagerConfig, fresh_manager, manager}
use multi_agent_route_planni.Reservation.{init}
use multi_agent_route_planni.Reservation.History.{here, Reach-Inv}
use multi_agent_route_planni.Policy.Constraints.{policy}
use multi_agent_route_planni.Base.{Result-cases, ok-eq}
use multi_agent_route_planni.Manager.Steps.{
  register-IsSafe, mark_intersection_cleared-IsSafe, upsert_corridor-IsSafe,
  upsert_line_state-IsSafe, replace_candidates-IsSafe, mark_corridor_exited-IsSafe,
}
use multi_agent_route_planni.Manager.Commands.{
  plan_next-IsSafe, confirm_entry-IsSafe, cancel_pending-IsSafe, restore-IsSafe,
}

module _ (F : Floats) where
  pub restore_pending-IsSafe :
      (m : DispatchManager F) (d : DispatchDecision F) {o : DispatchManager F × Result (Unit {0})}
      → IsSafe F m
      → restore_pending F m d ≡ some o
      → IsSafe F o.0
  unfolding restore_pending as_pending
  restore_pending-IsSafe m d {o} v e =
      elim (Option-cases (lookup d.corridor_resource_id m.corridors)) [
        | inl f ↦
            let same : (m, fail "unknown_or_busy_corridor") ≡ o =
              some-eq (sym (rw (f, restore_pending) refl) ∙ e) in
            subst (λ (x : DispatchManager F × Result (Unit {0})). IsSafe F x.0) same v
        | inr (c, f) ↦ elim (Bool-cases c.command_pending) [
          | inl busy ↦
              let same : (m, fail "unknown_or_busy_corridor") ≡ o =
                some-eq (sym (rw (f, restore_pending, busy) refl) ∙ e) in
              subst (λ (x : DispatchManager F × Result (Unit {0})). IsSafe F x.0) same v
          | inr free ↦
              restore-IsSafe F m v d c (as_pending F m d c)
                (sym (rw (f, restore_pending, free) refl) ∙ e)
                (λ r booked clear.
                  command-Safe F d.corridor_resource_id (record c { command_pending = true }) d
                    m.corridors m.pending_decisions m.reservations r clear refl booked v)
        ]
      ]

  pub restore_active-IsSafe :
      (m : DispatchManager F) (d : DispatchDecision F) {o : DispatchManager F × Result (Unit {0})}
      → IsSafe F m
      → restore_active F m d ≡ some o
      → IsSafe F o.0
  unfolding restore_active as_active
  restore_active-IsSafe m d {o} v e =
      elim (Option-cases (lookup d.corridor_resource_id m.corridors)) [
        | inl f ↦
            let same : (m, fail "unknown_corridor") ≡ o =
              some-eq (sym (rw (f, restore_active) refl) ∙ e) in
            subst (λ (x : DispatchManager F × Result (Unit {0})). IsSafe F x.0) same v
        | inr (c, f) ↦
            restore-IsSafe F m v d c (as_active F m d c) (sym (rw (f, restore_active) refl) ∙ e)
              (λ r booked clear. record {
                corridor_keys = insert-IsMap d.corridor_resource_id _ m.corridors v.corridor_keys;
                pending_keys = v.pending_keys;
                interlock =
                    Interlock-clear F d.corridor_resource_id _ m.corridors clear v.interlock;
                matched =
                    Matched-keep F d.corridor_resource_id _ m.corridors m.pending_decisions
                      (rw f refl) v.matched;
                booked = booked;
              })
      ]

  -- One call, with what its caller sees to: a movement is registered while nobody holds it, and a
  -- snapshot moves no train.
  pub data Step (m : DispatchManager F) : DispatchManager F → Type 0 where
    registers_movement :
        (movement : LineIntersectionMovement)
        → IsFresh m.reservations movement.movement_id
        → Step m (register_intersection_movement F m movement).0
    upserts :
        (c : SharedCorridorState F)
        → IsAcceptable F c (lookup c.corridor_resource_id m.corridors)
        → Step m (upsert_corridor F m c)
    upserts_line :
        (id line_id : String) (line : LineDispatchState F)
        → Step m (upsert_line_state F m id line_id line)
    replaces :
        (id : String) (cs : List (DispatchCandidate F)) (wall : ℕ)
        → Step m (replace_candidates F m id cs wall).0
    plans :
        (id : String) (now wall : ℕ) {o : DispatchManager F × DispatchDecision F}
        → plan_next F m id now wall ≡ some o
        → Step m o.0
    confirms : (id train_id : String) (now : ℕ) → Step m (confirm_entry F m id train_id now).0
    cancels_pending : (id : String) → Step m (cancel_pending F m id).0
    restores_pending :
        (d : DispatchDecision F) {o : DispatchManager F × Result (Unit {0})}
        → restore_pending F m d ≡ some o
        → Step m o.0
    restores_active :
        (d : DispatchDecision F) {o : DispatchManager F × Result (Unit {0})}
        → restore_active F m d ≡ some o
        → Step m o.0
    exits : (id : String) → Step m (mark_corridor_exited F m id).0
    clears_intersection :
        (i train_id : String) (now : ℕ) → Step m (mark_intersection_cleared F m i train_id now).0

  pub data Reach (m : DispatchManager F) : DispatchManager F → Type 0 where
    start : Reach m m
    then_ : {n o : DispatchManager F} → Reach m n → Step n o → Reach m o

  Step-IsSafe : {m n : DispatchManager F} → Step m n → IsSafe F m → IsSafe F n
  Step-IsSafe {m} (registers_movement movement fresh) v = register-IsSafe F m v movement fresh
  Step-IsSafe {m} (upserts c h) v = upsert_corridor-IsSafe F m v c h
  Step-IsSafe {m} (upserts_line id line_id line) v = upsert_line_state-IsSafe F m v id line_id line
  Step-IsSafe {m} (replaces id cs wall) v = replace_candidates-IsSafe F m v id cs wall
  Step-IsSafe {m} (plans id now wall e) v = plan_next-IsSafe F m v id now wall e
  Step-IsSafe {m} (confirms id train_id now) v = confirm_entry-IsSafe F m v id train_id now
  Step-IsSafe {m} (cancels_pending id) v = cancel_pending-IsSafe F m v id
  Step-IsSafe {m} (restores_pending d e) v = restore_pending-IsSafe m d v e
  Step-IsSafe {m} (restores_active d e) v = restore_active-IsSafe m d v e
  Step-IsSafe {m} (exits id) v = mark_corridor_exited-IsSafe F m v id
  Step-IsSafe {m} (clears_intersection i t now) v = mark_intersection_cleared-IsSafe F m v i t now

  Safe-nil : (clearance_ms : ℕ) → Safe F [] [] (init clearance_ms)
  unfolding lookup
  Safe-nil clearance_ms = record {
    corridor_keys = tt;
    pending_keys = tt;
    interlock = λ i j c d fi fj ne same busy. absurd (ground arith);
    matched = λ k. refl;
    booked = Reach-Inv clearance_ms here;
  }

  pub manager-IsSafe :
      (config : DispatchManagerConfig F) {m : DispatchManager F}
      → manager F config ≡ ok m
      → IsSafe F m
  unfolding manager
  manager-IsSafe config {m} e = elim (Result-cases (policy F config.priority)) [
    | inr (reason, f) ↦ absurd (ground (arith, f))
    | inl (priority, f) ↦
        elim (Bool-cases (
          config.default_intersection_clearance_ms == 0 || config.default_corridor_capacity == 0)) [
            | inl bad ↦ absurd (ground (arith, f))
            | inr good ↦
                let built : manager F config ≡ ok (fresh_manager F config priority) =
                  rw (f, manager, good) refl in
                let same : fresh_manager F config priority ≡ m = ok-eq (sym built ∙ e) in
                subst (λ (x : DispatchManager F). IsSafe F x) same
                  (Safe-nil config.default_intersection_clearance_ms)
          ]
  ]

  -- After any history of calls from a manager just built, in which a movement is registered only
  -- while nobody holds it and a snapshot of a corridor moves no train: no two directions of one
  -- corridor are in use (occupied, or with a command waiting); a direction is marked as waiting
  -- exactly when a command is kept for it; and no two reservations held at one intersection
  -- exclude one another.
  pub Reach-IsSafe :
      (config : DispatchManagerConfig F) {m n : DispatchManager F}
      → manager F config ≡ ok m
      → Reach m n
      → IsSafe F n
  Reach-IsSafe config e start = manager-IsSafe config e
  Reach-IsSafe config e (then_ r st) = Step-IsSafe st (Reach-IsSafe config e r)
