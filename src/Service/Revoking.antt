-- ===== src/Service/Revoking.antt =====
-- What a cycle of server/src/RailwayDispatchService.cpp takes back when the data layer refuses it.
use mathlib.Core.List.{Memᴰ}
use multi_agent_route_planni.Base.{
  String, ◌≡◌, sym, ap, ◌∙◌, subst, ◌⊎◌, inl, inr, Bool, if◌then◌else◌, none, some, List, [], ◌∷◌,
  arith, ◌==◌, string_eq, some-eq, Option-cases, All, All-map, lookup, erase, lookup-erase,
}
use multi_agent_route_planni.Base.Floats.{Floats}
use multi_agent_route_planni.Dispatch.{DispatchDecision}
use multi_agent_route_planni.Manager.{DispatchManager}
use multi_agent_route_planni.Manager.Answers.{cancel_pending}
use multi_agent_route_planni.Manager.Matching.{Pending}
use multi_agent_route_planni.Manager.Safety.{IsSafe}
use multi_agent_route_planni.Manager.Names.{cancel_pending_answers, cancel_pending-none}
use multi_agent_route_planni.Service.{RailwayDispatchService}
use multi_agent_route_planni.Service.Cycle.{revoke}
use multi_agent_route_planni.Service.Backing.{Sound, IsSound, IsWaiting, withdraw-Sound}
use multi_agent_route_planni.Service.Exposure.{Commands}

module _ (F : Floats) where
  -- At its direction the manager waits for the train of the command, or for none.
  abbrev pub MayWait : Pending F → DispatchDecision F → Type 0
  MayWait ps d =
      (e : DispatchDecision F) → lookup d.corridor_resource_id ps ≡ some e → e.train_id ≡ d.train_id

  pub IsWaiting-MayWait :
      (ps : Pending F) (d : DispatchDecision F) → IsWaiting F ps d → MayWait ps d
  IsWaiting-MayWait ps d (x, at, same) e at' =
      subst (λ (y : DispatchDecision F). y.train_id ≡ d.train_id) (some-eq (sym at ∙ at')) same

  cancel_pending-MayWait :
      (cmds : Commands F) (m : DispatchManager F) (id : String) (d : DispatchDecision F)
      → Sound F cmds m
      → MayWait m.pending_decisions d
      → MayWait (cancel_pending F m id).0.pending_decisions d
  cancel_pending-MayWait cmds m id d v w e at =
      elim (Option-cases (lookup id m.pending_decisions)) [
        | inl f ↦ w e (
            subst
              (λ (x : DispatchManager F).
                lookup d.corridor_resource_id x.pending_decisions ≡ some e)
              (ap (λ x. x.0) (cancel_pending-none F m id f)) at)
        | inr (x, f) ↦
            let (_, pending, _) = cancel_pending_answers F m id x v.safe f in
            w e (
              ground (
                arith,
                at,
                pending,
                lookup-erase id d.corridor_resource_id m.pending_decisions v.safe.pending_keys,
              ))
      ]

  -- What revoking has still to do: the commands are those of `base`, and the ones to be revoked.
  pub record Revoking (base : Commands F) (ds : List (DispatchDecision F))
      (s : RailwayDispatchService F) : Type 0 where
    pub sound : IsSound F s
    pub own : All (MayWait s.dispatch_manager.pending_decisions) ds
    pub fresh : All (λ (d : DispatchDecision F). lookup d.train_id base ≡ none) ds
    pub shown :
        (t : String) (d : DispatchDecision F)
        → lookup t s.commands_by_train ≡ some d
        → (lookup t base ≡ some d) ⊎ Memᴰ d ds
    pub kept :
        (t : String) (d : DispatchDecision F)
        → lookup t base ≡ some d
        → lookup t s.commands_by_train ≡ some d

  -- One command is revoked: the direction is open, the others are still to do.
  abbrev revoked : DispatchDecision F → RailwayDispatchService F → RailwayDispatchService F
  revoked d s = record s {
    dispatch_manager = (cancel_pending F s.dispatch_manager d.corridor_resource_id).0;
    commands_by_train = erase d.train_id s.commands_by_train;
  }

  revoked-Revoking :
      (base : Commands F) (d : DispatchDecision F) (ds : List (DispatchDecision F))
      (s : RailwayDispatchService F)
      → Revoking base (d ∷ ds) s
      → Revoking base ds (revoked d s)
  revoked-Revoking base d ds s v =
      let m = s.dispatch_manager in
      let cmds = s.commands_by_train in
      record {
        sound = withdraw-Sound F cmds m d.train_id d.corridor_resource_id v.own.0 v.sound;
        own =
            All-map ds (λ x w. cancel_pending-MayWait cmds m d.corridor_resource_id x v.sound w)
              v.own.1;
        fresh = v.fresh.1;
        shown = λ t x e.
            let was : lookup t cmds ≡ some x =
              ground (arith, e, lookup-erase d.train_id t cmds v.sound.keys) in
            elim (v.shown t x was) [
              | inl old ↦ inl old
              | inr new ↦ elim new [
                | Memᴰ.tail later ↦ inr later
                | Memᴰ.head same ↦
                    let t=d : d.train_id ≡ t =
                      ap (λ (y : DispatchDecision F). y.train_id) (sym same)
                      ∙ (v.sound.backed t x was).0 in
                    absurd (
                      ground (
                        arith,
                        e,
                        lookup-erase d.train_id t cmds v.sound.keys,
                        (string_eq.beq_iff d.train_id t).1 t=d,
                      ))
              ]
            ];
        kept = λ t x e. ground (
          arith,
          e,
          v.kept t x e,
          v.fresh.0,
          lookup-erase d.train_id t cmds v.sound.keys,
          string_eq.beq_iff d.train_id t,
        );
      }

  cancel_pending-lookup :
      (m : DispatchManager F) (id r : String)
      → IsSafe F m
      → (lookup r (cancel_pending F m id).0.pending_decisions
          ≡ (if id == r then none else lookup r m.pending_decisions))
  cancel_pending-lookup m id r v = elim (Option-cases (lookup id m.pending_decisions)) [
    | inl e ↦
        ap (λ (x : DispatchManager F × Bool). lookup r x.0.pending_decisions)
          (cancel_pending-none F m id e)
        ∙ ground (arith, e, string_eq.beq_iff id r)
    | inr (d, e) ↦
        let (_, pending, _) = cancel_pending_answers F m id d v e in
        ap (λ ps. lookup r ps) pending ∙ lookup-erase id r m.pending_decisions v.pending_keys
  ]

  revoke-open :
      (base : Commands F) (ds : List (DispatchDecision F)) (s : RailwayDispatchService F)
      (r : String)
      → Revoking base ds s
      → lookup r s.dispatch_manager.pending_decisions ≡ none
      → lookup r (revoke F ds s).dispatch_manager.pending_decisions ≡ none
  unfolding revoke
  revoke-open base [] s r v e = e
  revoke-open base (d ∷ ds) s r v e =
      revoke-open base ds (revoked d s) r (revoked-Revoking base d ds s v) (
        ground (
          arith,
          e,
          cancel_pending-lookup s.dispatch_manager d.corridor_resource_id r v.sound.safe,
        ))

  -- No command waits at the directions of those that are revoked.
  abbrev pub AreOpen : List (DispatchDecision F) → RailwayDispatchService F → Type 0
  AreOpen ds s =
      All
        (λ (d : DispatchDecision F).
          lookup d.corridor_resource_id s.dispatch_manager.pending_decisions ≡ none)
        ds

  pub revoke-AreOpen :
      (base : Commands F) (ds : List (DispatchDecision F)) (s : RailwayDispatchService F)
      → Revoking base ds s
      → AreOpen ds (revoke F ds s)
  unfolding revoke
  revoke-AreOpen base [] s v = tt
  revoke-AreOpen base (d ∷ ds) s v =
      let id = d.corridor_resource_id in
      let next = revoked-Revoking base d ds s v in
      (
        revoke-open base ds (revoked d s) id next (
            ground (
              arith,
              cancel_pending-lookup s.dispatch_manager id id v.sound.safe,
              string_eq.beq_iff id id,
            )),
        revoke-AreOpen base ds (revoked d s) next,
      )

  pub revoke-back :
      (base : Commands F) (ds : List (DispatchDecision F)) (s : RailwayDispatchService F)
      → Revoking base ds s
      → IsSound F (revoke F ds s)
        × ((t : String) → lookup t (revoke F ds s).commands_by_train ≡ lookup t base)
  unfolding revoke
  revoke-back base [] s v = (
    v.sound,
    λ t. elim (Option-cases (lookup t s.commands_by_train)) [
      | inr (d, e) ↦ elim (v.shown t d e) [ inl old ↦ e ∙ sym old | inr new ↦ elim new [ ] ]
      | inl e ↦ elim (Option-cases (lookup t base)) [
        | inl f ↦ e ∙ sym f
        | inr (d, f) ↦ absurd (ground (arith, e, v.kept t d f))
      ]
    ],
  )
  revoke-back base (d ∷ ds) s v = revoke-back base ds (revoked d s) (revoked-Revoking base d ds s v)
