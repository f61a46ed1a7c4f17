-- ===== src/Manager/Entries.antt =====
-- What the game's answer makes of the command that `planNext` of server/src/DispatchManager.cpp has
-- issued: the train has entered, or the command is taken back.
use multi_agent_route_planni.Base.{
  ℕ, ◌+◌, ◌≤◌, ◌<◌, String, ◌≡◌, ◌≢◌, refl, sym, ap, ◌∙◌, subst, inl, inr, true, false, none, some,
  arith, ◌==◌, nat_eq, string_eq, All, All-remove_if, lookup, insert, erase, IsMap, lookup-insert,
  insert-IsMap, lookup-erase, some-eq,
}
use multi_agent_route_planni.Base.Floats.{Floats}
use multi_agent_route_planni.Dispatch.{
  release, DispatchCandidate, SharedCorridorState, DispatchDecision,
}
use multi_agent_route_planni.Manager.{DispatchManager}
use multi_agent_route_planni.Manager.Planning.{context_for, plan_next}
use multi_agent_route_planni.Manager.Answers.{entered, confirm, confirm_entry}
use multi_agent_route_planni.Manager.Safety.{IsSafe}
use multi_agent_route_planni.Manager.Plans.{Issues, plan_next_cases}
use multi_agent_route_planni.Manager.Releases.{Issues-IsOpen}

module _ (F : Floats) where
  pub plan_next-Issues :
      (m : DispatchManager F) (id : String) (now wall : ℕ)
      {o : DispatchManager F × DispatchDecision F}
      → plan_next F m id now wall ≡ some o
      → o.1.action ≡ release
      → Issues F m id now wall o
  plan_next-Issues m id now wall {o} e a =
      let (o', f, w) = plan_next_cases F m id now wall in
      let same : o' ≡ o = some-eq (sym f ∙ e) in
      elim w [
        | inr h ↦
            subst (λ (x : DispatchManager F × DispatchDecision F). Issues F m id now wall x) same h
        | inl h ↦
            absurd
              (h.action (ap (λ (x : DispatchManager F × DispatchDecision F). x.1.action) same ∙ a))
      ]

  -- The corridor that a command was issued for was idle and had room.
  pub record HadRoom (c : SharedCorridorState F) : Type 0 where
    pub idle : c.command_pending ≡ false
    pub room : c.occupancy < c.capacity

  pub Issues-HadRoom :
      (m : DispatchManager F) (id : String) (now wall : ℕ)
      (o : DispatchManager F × DispatchDecision F) (h : Issues F m id now wall o)
      → HadRoom h.corridor
  unfolding context_for
  Issues-HadRoom m id now wall o h =
      let open_ = Issues-IsOpen F m id now wall o h in
      record { idle = open_.idle; room = open_.room }

  -- What a confirmed entry leaves of the direction `c`.
  pub record Enters (c : SharedCorridorState F) (train_id : String) (now : ℕ)
      (c' : SharedCorridorState F) : Type 0 where
    pub occupancy : c'.occupancy ≡ c.occupancy + 1
    pub room : c'.occupancy ≤ c'.capacity
    pub idle : c'.command_pending ≡ false
    pub last_entry : c'.last_entry_simulation_ms ≡ now
    pub gone : All (λ (x : DispatchCandidate F). (x.train_id == train_id) ≡ false) c'.candidates

  entered-Enters :
      (c : SharedCorridorState F) (train_id : String) (now : ℕ)
      → HadRoom c
      → Enters c train_id now (entered F train_id now (record c { command_pending = true }))
  unfolding entered
  entered-Enters c train_id now h = record {
    occupancy = ground (arith, h.room);
    room = ground (arith, h.room);
    idle = refl;
    last_entry = refl;
    gone = All-remove_if (λ (x : DispatchCandidate F). x.train_id == train_id) c.candidates;
  }

  confirm-tables :
      (m : DispatchManager F) (id t : String) (now : ℕ) (d : DispatchDecision F)
      (c : SharedCorridorState F)
      → ((confirm F m id t now d c).corridors ≡ insert id (entered F t now c) m.corridors)
        × ((confirm F m id t now d c).pending_decisions ≡ erase id m.pending_decisions)
  unfolding confirm
  confirm-tables m id t now d c = (refl, refl)

  confirm_entry_match :
      (m : DispatchManager F) (id : String) (now : ℕ) (d : DispatchDecision F)
      (c : SharedCorridorState F)
      → lookup id m.pending_decisions ≡ some d
      → lookup id m.corridors ≡ some c
      → confirm_entry F m id d.train_id now ≡ (confirm F m id d.train_id now d c, true)
  unfolding confirm_entry
  confirm_entry_match m id now d c f e =
      let same : (d.train_id == d.train_id) ≡ true =
        ground (arith, string_eq.beq_iff d.train_id d.train_id) in
      rw (f, confirm_entry, e, same) refl

  -- The game confirms the train of a command just issued: the answer is accepted, the direction
  -- holds one train more, within its capacity, at the given time; no command waits for it any
  -- more, and the train is no candidate; the other directions are as they were. The manager is in
  -- a state that its calls lead to (`IsSafe`).
  pub confirm_entry-plan_next :
      (m : DispatchManager F) (id : String) (now wall later : ℕ)
      {o : DispatchManager F × DispatchDecision F}
      → IsSafe F m
      → plan_next F m id now wall ≡ some o
      → o.1.action ≡ release
      → let r = confirm_entry F o.0 id o.1.train_id later in
        (r.1 ≡ true)
        × ((c : SharedCorridorState F) × (c' : SharedCorridorState F) × (lookup id m.corridors
              ≡ some c)
            × (lookup id r.0.corridors ≡ some c')
            × Enters c o.1.train_id later c')
        × (lookup id r.0.pending_decisions ≡ none)
        × ((j : String) → id ≢ j → lookup j r.0.corridors ≡ lookup j m.corridors)
  confirm_entry-plan_next m id now wall later {o} v e a =
      let h = plan_next-Issues m id now wall e a in
      let c = record h.corridor { command_pending = true } in
      let t = o.1.train_id in
      let f : lookup id o.0.pending_decisions ≡ some o.1 =
        rw h.pending
          (ground (arith, string_eq.beq_iff id id, lookup-insert id id o.1 m.pending_decisions)) in
      let g : lookup id o.0.corridors ≡ some c =
        rw h.corridors
          (ground (arith, string_eq.beq_iff id id, lookup-insert id id c m.corridors)) in
      let (cs, ps) = confirm-tables o.0 id t later o.1 c in
      let keys : IsMap o.0.pending_decisions =
        rw h.pending (insert-IsMap id o.1 m.pending_decisions v.pending_keys) in
      rw (confirm_entry_match o.0 id later o.1 c f g) (
        refl,
        (
          h.corridor,
          entered F t later c,
          h.found,
          rw cs (
              ground (
                arith,
                string_eq.beq_iff id id,
                lookup-insert id id (entered F t later c) o.0.corridors,
              )),
          entered-Enters h.corridor t later (Issues-HadRoom m id now wall o h),
        ),
        rw ps (
            ground (arith, string_eq.beq_iff id id, lookup-erase id id o.0.pending_decisions keys)),
        λ j ne.
            rw (cs, h.corridors)
              (ground (
                arith,
                string_eq.beq_iff id j,
                lookup-insert id j c m.corridors,
                lookup-insert id j (entered F t later c) (insert id c m.corridors),
              )),
      )
