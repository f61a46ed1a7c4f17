-- ===== src/Service/Backing.antt =====
-- The commands that server/src/RailwayDispatchService.cpp shows to the game are those that its
-- manager waits for.
use multi_agent_route_planni.Base.{
  String, ◌≡◌, sym, ◌∙◌, subst, inl, inr, none, some, arith, ◌==◌, string_eq, some-eq, Bool-cases,
  Option-cases, Map, lookup, insert, erase, lookup-insert, lookup-erase, IsMap, erase-IsMap,
}
use multi_agent_route_planni.Base.Floats.{Floats}
use multi_agent_route_planni.Dispatch.{DispatchDecision}
use multi_agent_route_planni.Manager.{DispatchManager}
use multi_agent_route_planni.Manager.Answers.{cancel_pending}
use multi_agent_route_planni.Manager.Commands.{cancel_pending-IsSafe}
use multi_agent_route_planni.Manager.Matching.{Pending}
use multi_agent_route_planni.Manager.Names.{IsNamed, cancel_pending_answers, cancel_pending-none}
use multi_agent_route_planni.Manager.Safety.{IsSafe}
use multi_agent_route_planni.Service.{RailwayDispatchService}

module _ (F : Floats) where
  -- The manager waits for the train of the command, at its direction.
  abbrev pub IsWaiting : Pending F → DispatchDecision F → Type 0
  IsWaiting ps d =
      (e : DispatchDecision F) × (lookup d.corridor_resource_id ps ≡ some e)
      × (e.train_id ≡ d.train_id)

  abbrev pub Backed : Map String (DispatchDecision F) → Pending F → Type 0
  Backed cmds ps =
      (t : String) (d : DispatchDecision F)
      → lookup t cmds ≡ some d
      → (d.train_id ≡ t) × IsWaiting ps d

  -- The commands that are shown, over the manager.
  pub record Sound (cmds : Map String (DispatchDecision F)) (m : DispatchManager F) : Type 0 where
    pub safe : IsSafe F m
    pub named : IsNamed F m.corridors
    pub keys : IsMap cmds
    pub backed : Backed cmds m.pending_decisions

  abbrev pub IsSound : RailwayDispatchService F → Type 0
  IsSound s = Sound s.commands_by_train s.dispatch_manager

  pub IsWaiting-insert :
      (id : String) (e : DispatchDecision F) (ps : Pending F) (d : DispatchDecision F)
      → lookup id ps ≡ none
      → IsWaiting ps d
      → IsWaiting (insert id e ps) d
  IsWaiting-insert id e ps d free (x, found, same) = (
    x,
    ground (
      arith,
      free,
      found,
      lookup-insert id d.corridor_resource_id e ps,
      string_eq.beq_iff id d.corridor_resource_id,
    ),
    same,
  )

  pub Backed-insert :
      (id : String) (e : DispatchDecision F) (cmds : Map String (DispatchDecision F))
      (ps : Pending F)
      → lookup id ps ≡ none
      → Backed cmds ps
      → Backed cmds (insert id e ps)
  Backed-insert id e cmds ps free b t d found =
      let (same, waiting) = b t d found in (same, IsWaiting-insert id e ps d free waiting)

  pub Backed-command :
      (t : String) (d : DispatchDecision F) (cmds : Map String (DispatchDecision F))
      (ps : Pending F)
      → d.train_id ≡ t
      → IsWaiting ps d
      → Backed cmds ps
      → Backed (insert t d cmds) ps
  Backed-command t d cmds ps same waiting b u x found = elim (Bool-cases (t == u)) [
    | inl here ↦
        let d=x : d ≡ x = ground (arith, here, found, lookup-insert t u d cmds) in
        subst (λ (y : DispatchDecision F). (y.train_id ≡ u) × IsWaiting ps y) d=x
          (same ∙ (string_eq.beq_iff t u).0 here, waiting)
    | inr other ↦ b u x (ground (arith, other, found, lookup-insert t u d cmds))
  ]

  -- A command and the entry that it waits by go together: at the direction, the train waits, or
  -- nothing does.
  pub Backed-erase :
      (t id : String) (cmds : Map String (DispatchDecision F)) (ps : Pending F)
      → IsMap cmds
      → IsMap ps
      → ((e : DispatchDecision F) → lookup id ps ≡ some e → e.train_id ≡ t)
      → Backed cmds ps
      → Backed (erase t cmds) (erase id ps)
  Backed-erase t id cmds ps ck pk own b u d found = elim (Bool-cases (t == u)) [
    | inl gone ↦ absurd (ground (arith, gone, found, lookup-erase t u cmds ck))
    | inr other ↦
        let (same, (e, at, train)) =
          b u d (ground (arith, other, found, lookup-erase t u cmds ck)) in
        elim (Bool-cases (id == d.corridor_resource_id)) [
          | inl here ↦
              let id=r = (string_eq.beq_iff id d.corridor_resource_id).0 here in
              let t=u : t ≡ u =
                sym (own e (subst (λ i. lookup i ps ≡ some e) (sym id=r) at)) ∙ train ∙ same in
              absurd (ground (arith, other, (string_eq.beq_iff t u).1 t=u))
          | inr elsewhere ↦ (
            same,
            (e, ground (arith, at, elsewhere, lookup-erase id d.corridor_resource_id ps pk), train),
          )
        ]
  ]

  Backed-forget :
      (t : String) (cmds : Map String (DispatchDecision F)) (ps : Pending F)
      → IsMap cmds
      → Backed cmds ps
      → Backed (erase t cmds) ps
  Backed-forget t cmds ps keys b u d found =
      b u d (ground (arith, found, lookup-erase t u cmds keys))

  -- The command of a train is withdrawn, and the manager waits for it no longer.
  pub withdraw-Sound :
      (cmds : Map String (DispatchDecision F)) (m : DispatchManager F) (t id : String)
      → ((e : DispatchDecision F) → lookup id m.pending_decisions ≡ some e → e.train_id ≡ t)
      → Sound cmds m
      → Sound (erase t cmds) (cancel_pending F m id).0
  withdraw-Sound cmds m t id own v = elim (Option-cases (lookup id m.pending_decisions)) [
    | inl e ↦ rw (cancel_pending-none F m id e) (record {
      safe = v.safe;
      named = v.named;
      keys = erase-IsMap t cmds v.keys;
      backed = Backed-forget t cmds m.pending_decisions v.keys v.backed;
    })
    | inr (d, e) ↦
        let (_, pending, named) = cancel_pending_answers F m id d v.safe e in
        record {
          safe = cancel_pending-IsSafe F m v.safe id;
          named = named v.named;
          keys = erase-IsMap t cmds v.keys;
          backed =
              rw pending (
                Backed-erase t id cmds m.pending_decisions v.keys v.safe.pending_keys own v.backed);
        }
  ]

  -- The manager changes, and waits for what it waited for.
  pub step-Sound :
      (cmds : Map String (DispatchDecision F)) (m n : DispatchManager F)
      → IsSafe F n
      → IsNamed F n.corridors
      → n.pending_decisions ≡ m.pending_decisions
      → Sound cmds m
      → Sound cmds n
  step-Sound cmds m n safe named same v = record {
    safe = safe;
    named = named;
    keys = v.keys;
    backed = rw same v.backed;
  }

  -- The direction of a command, and the train that the manager waits for there.
  pub own_train :
      (cmds : Map String (DispatchDecision F)) (m : DispatchManager F) (t : String)
      (d : DispatchDecision F)
      → Sound cmds m
      → lookup t cmds ≡ some d
      → (e : DispatchDecision F) → lookup d.corridor_resource_id m.pending_decisions ≡ some e
      → e.train_id ≡ t
  own_train cmds m t d v found e at =
      let (same, (x, at', train)) = v.backed t d found in
      let x=e : x ≡ e = some-eq (sym at' ∙ at) in
      subst (λ (y : DispatchDecision F). y.train_id ≡ t) x=e (train ∙ same)
