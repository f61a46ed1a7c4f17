-- ===== src/Manager/Cancels.antt =====
-- A command of server/src/DispatchManager.cpp that is taken back, and what waits while it is not.
use multi_agent_route_planni.Base.{
  ℕ, String, ◌≡◌, ◌≢◌, refl, sym, ap, ◌∙◌, subst, true, false, some, arith, nat_eq, string_eq,
  lookup, insert, erase, IsMap, lookup-insert, insert-IsMap, lookup-erase, some-eq,
}
use multi_agent_route_planni.Base.Floats.{Floats}
use multi_agent_route_planni.Dispatch.{release, SharedCorridorState, DispatchDecision}
use multi_agent_route_planni.Reservation.{ReservationManager, cancel_train}
use multi_agent_route_planni.Reservation.Lookup.{active_at, cleared_at}
use multi_agent_route_planni.Reservation.Clearing.{is_held}
use multi_agent_route_planni.Reservation.Atomic.{cancel_train-try_reserve}
use multi_agent_route_planni.Manager.{DispatchManager}
use multi_agent_route_planni.Manager.Planning.{plan_next}
use multi_agent_route_planni.Manager.Answers.{cancel_pending}
use multi_agent_route_planni.Manager.Safety.{IsSafe}
use multi_agent_route_planni.Manager.Entries.{plan_next-Issues, Issues-HadRoom}

module _ (F : Floats) where
  cancel_pending_match :
      (m : DispatchManager F) (id : String) (d : DispatchDecision F) (c : SharedCorridorState F)
      → lookup id m.pending_decisions ≡ some d
      → lookup id m.corridors ≡ some c
      → let r = (cancel_pending F m id).0 in
        (r.corridors ≡ insert id (record c { command_pending = false }) m.corridors)
        × (r.pending_decisions ≡ erase id m.pending_decisions)
        × (r.reservations ≡ cancel_train m.reservations d.train_id)
  unfolding cancel_pending
  cancel_pending_match m id d c f e = rw (f, cancel_pending, e) (refl, refl, refl)

  reopened :
      (c : SharedCorridorState F)
      → c.command_pending ≡ false
      → record c { command_pending = false } ≡ c
  reopened c e = rw (← e) refl

  -- Cancelling a command just issued undoes the plan: every direction, every waiting command,
  -- every reservation and every clearing time is as it was, if the train held nothing before. The
  -- manager is in a state that its calls lead to (`IsSafe`).
  pub cancel_pending-plan_next :
      (m : DispatchManager F) (id : String) (now wall : ℕ)
      {o : DispatchManager F × DispatchDecision F}
      → IsSafe F m
      → plan_next F m id now wall ≡ some o
      → o.1.action ≡ release
      → ((i a : String) → is_held o.1.train_id (active_at m.reservations i a) ≡ false)
      → let r = (cancel_pending F o.0 id).0 in
        ((j : String) → lookup j r.corridors ≡ lookup j m.corridors)
        × ((j : String) → lookup j r.pending_decisions ≡ lookup j m.pending_decisions)
        × ((i a : String)
            → (active_at r.reservations i a ≡ active_at m.reservations i a)
              × (cleared_at r.reservations i a ≡ cleared_at m.reservations i a))
  cancel_pending-plan_next m id now wall {o} v e a free =
      let h = plan_next-Issues F m id now wall e a in
      let idle = (Issues-HadRoom F m id now wall o h).idle in
      let c = record h.corridor { command_pending = true } in
      let f : lookup id o.0.pending_decisions ≡ some o.1 =
        rw h.pending
          (ground (arith, string_eq.beq_iff id id, lookup-insert id id o.1 m.pending_decisions)) in
      let g : lookup id o.0.corridors ≡ some c =
        rw h.corridors
          (ground (arith, string_eq.beq_iff id id, lookup-insert id id c m.corridors)) in
      let (cs, ps, rs) = cancel_pending_match o.0 id o.1 c f g in
      let back : record h.corridor { command_pending = false } ≡ h.corridor =
        reopened h.corridor idle in
      let keys : IsMap (insert id o.1 m.pending_decisions) =
        insert-IsMap id o.1 m.pending_decisions v.pending_keys in
      (
        λ j.
            ap (lookup j) (cs ∙ ap (insert id _) h.corridors)
            ∙ ground (
              arith,
              back,
              h.found,
              string_eq.beq_iff id j,
              lookup-insert id j c m.corridors,
              lookup-insert id j (record h.corridor { command_pending = false })
                  (insert id c m.corridors),
            ),
        λ j.
            ap (lookup j) (ps ∙ ap (erase id) h.pending)
            ∙ ground (
              arith,
              idle,
              h.found,
              v.matched id,
              string_eq.beq_iff id j,
              lookup-insert id j o.1 m.pending_decisions,
              lookup-erase id j (insert id o.1 m.pending_decisions) keys,
            ),
        λ i a.
            subst
              (λ (s : ReservationManager).
                (active_at s i a ≡ active_at m.reservations i a)
                × (cleared_at s i a ≡ cleared_at m.reservations i a))
              (sym rs)
              (cancel_train-try_reserve m.reservations o.1.train_id
                o.1.reserved_intersection_movement_ids now v.booked.keyed h.reserved free i a),
      )

  -- While the command for one direction of a corridor waits, no plan releases a train into
  -- another.
  pub plan_next-opposing :
      (m : DispatchManager F) (i j : String) (now wall later wall' : ℕ)
      {o o' : DispatchManager F × DispatchDecision F} (c d : SharedCorridorState F)
      → lookup i m.corridors ≡ some c
      → lookup j m.corridors ≡ some d
      → i ≢ j
      → c.corridor_id ≡ d.corridor_id
      → plan_next F m i now wall ≡ some o
      → o.1.action ≡ release
      → plan_next F o.0 j later wall' ≡ some o'
      → o'.1.action ≢ release
  plan_next-opposing m i j now wall later wall' {o} {o'} c d fc fd ne same e a e' a' =
      let h = plan_next-Issues F m i now wall e a in
      let k = plan_next-Issues F o.0 j later wall' e' a' in
      let x = record h.corridor { command_pending = true } in
      let at_i : lookup i o.0.corridors ≡ some x =
        rw h.corridors (ground (arith, string_eq.beq_iff i i, lookup-insert i i x m.corridors)) in
      let at_j : lookup j o.0.corridors ≡ some d =
        rw h.corridors
          (ground (arith, fd, string_eq.beq_iff i j, lookup-insert i j x m.corridors)) in
      let here : h.corridor ≡ c = some-eq (sym h.found ∙ fc) in
      let there : k.corridor ≡ d = some-eq (sym k.found ∙ at_j) in
      let idle =
        k.clear i x at_i (λ q. ne (sym q))
          (ap (λ (y : SharedCorridorState F). y.corridor_id) there
            ∙ sym same
            ∙ ap (λ (y : SharedCorridorState F). y.corridor_id) (sym here)) in
      ground (arith, idle)
