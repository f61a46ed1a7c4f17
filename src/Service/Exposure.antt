-- ===== src/Service/Exposure.antt =====
-- The commands of one cycle of server/src/RailwayDispatchService.cpp: each is new, the manager waits
-- for it, and if it cannot be stored, none is shown.
use mathlib.Core.List.{Memᴰ}
use mathlib.Core.List.Memᴰ
use multi_agent_route_planni.Base.{
  insert, ℕ, String, ◌≡◌, refl, sym, ◌∙◌, subst, ◌⊎◌, inl, inr, false, Bool, not, ◌&&◌, Option,
  none, some, List, [], ◌∷◌, ◌++◌, arith, ◌==◌, string_eq, Bool-cases, Option-cases, All, All-map,
  All-append, Map, lookup, insert-IsMap, lookup-insert,
}
use multi_agent_route_planni.Base.Floats.{Floats}
use multi_agent_route_planni.Analysis.{SharedCorridorMember, SharedCorridorDefinition}
use multi_agent_route_planni.Dispatch.{CorridorDirection, DispatchDecision}
use multi_agent_route_planni.Monitor as Monitor
use multi_agent_route_planni.Monitor.{MonitoredTrain}
use multi_agent_route_planni.Manager.{DispatchManager}
use multi_agent_route_planni.Manager.Planning.{plan_next, is_release}
use multi_agent_route_planni.Manager.Commands.{Holds-IsSafe, Issues-IsSafe}
use multi_agent_route_planni.Manager.Names.{Issues-names, plan_next-IsNamed}
use multi_agent_route_planni.Manager.Plans.{Holds, Issues, plan_next_cases}
use multi_agent_route_planni.Approach.{resource_id, is_forward}
use multi_agent_route_planni.Service.{RailwayDispatchService}
use multi_agent_route_planni.Service.Cycle.{
  bounds_for, bound_by, stamp, Cycle, publish, has_command, decide_direction, decide_all,
}
use multi_agent_route_planni.Service.Backing.{
  Sound, IsSound, IsWaiting, IsWaiting-insert, Backed-insert, Backed-command,
}

module _ (F : Floats) where
  abbrev Keeps : DispatchDecision F → DispatchDecision F → Type 0
  Keeps d e = (e.train_id ≡ d.train_id) × (e.corridor_resource_id ≡ d.corridor_resource_id)

  bound_by-Keeps :
      (increasing : Bool) (xs : List (SharedCorridorMember F)) (d : DispatchDecision F)
      → Keeps d (bound_by F increasing xs d)
  unfolding bound_by
  bound_by-Keeps increasing [] d = (refl, refl)
  bound_by-Keeps increasing (x ∷ xs) d = elim (Bool-cases (x.line_id == d.line_id)) [
    | inl mine ↦ rw (mine, bound_by) (refl, refl)
    | inr other ↦ rw (other, bound_by) (bound_by-Keeps increasing xs d)
  ]

  bounds_for-Keeps :
      (o : Option (MonitoredTrain F)) (xs : List (SharedCorridorMember F)) (d : DispatchDecision F)
      → Keeps d (bounds_for F o xs d)
  bounds_for-Keeps none xs d = (refl, refl)
  bounds_for-Keeps (some m) xs d = bound_by-Keeps (is_forward m.telemetry.travel_direction) xs d

  pub stamp-Keeps :
      (s : RailwayDispatchService F) (now : ℕ) (corridor : SharedCorridorDefinition F)
      (d : DispatchDecision F)
      → Keeps d (stamp F s now corridor d)
  unfolding stamp
  stamp-Keeps s now corridor d =
      bounds_for-Keeps (Monitor.get F s.train_monitor d.train_id) corridor.members _

  abbrev pub Commands : Type 0
  Commands = Map String (DispatchDecision F)

  -- While the directions are decided: the commands are those from before the cycle, and those that
  -- it issues, each to a train that had none.
  pub record IsCycle (base : Commands) (c : Cycle F) : Type 0 where
    pub sound : IsSound F c.0
    pub own : All (IsWaiting F c.0.dispatch_manager.pending_decisions) c.1
    pub fresh : All (λ (d : DispatchDecision F). lookup d.train_id base ≡ none) c.1
    pub stands :
        All (λ (d : DispatchDecision F). lookup d.train_id c.0.commands_by_train ≡ some d) c.1
    pub shown :
        (t : String) (d : DispatchDecision F)
        → lookup t c.0.commands_by_train ≡ some d
        → (lookup t base ≡ some d) ⊎ Memᴰ d c.1
    pub kept :
        (t : String) (d : DispatchDecision F)
        → lookup t base ≡ some d
        → lookup t c.0.commands_by_train ≡ some d

  -- A plan that issues nothing, or whose train has a command.
  planned-IsCycle :
      (base : Commands) (s : RailwayDispatchService F) (issued : List (DispatchDecision F))
      (m : DispatchManager F)
      → Sound F s.commands_by_train m
      → All (IsWaiting F m.pending_decisions) issued
      → IsCycle base (s, issued)
      → IsCycle base (record s { dispatch_manager = m }, issued)
  planned-IsCycle base s issued m sound own v = record {
    sound = sound;
    own = own;
    fresh = v.fresh;
    stands = v.stands;
    shown = v.shown;
    kept = v.kept;
  }

  publish-IsCycle :
      (now : ℕ) (corridor : SharedCorridorDefinition F) (id : String) (d : DispatchDecision F)
      (base : Commands) (s : RailwayDispatchService F) (issued : List (DispatchDecision F))
      → d.corridor_resource_id ≡ id
      → lookup id s.dispatch_manager.pending_decisions ≡ some d
      → lookup d.train_id s.commands_by_train ≡ none
      → IsCycle base (s, issued)
      → IsCycle base (publish F now corridor id d (s, issued))
  unfolding publish
  publish-IsCycle now corridor id d base s issued at waiting free v =
      let command = stamp F s now corridor d in
      let (same_train, same_resource) = stamp-Keeps s now corridor d in
      let w : IsWaiting F s.dispatch_manager.pending_decisions command = (
        d,
        subst (λ i. lookup i s.dispatch_manager.pending_decisions ≡ some d)
            (sym (same_resource ∙ at)) waiting,
        sym same_train,
      ) in
      let free' : lookup command.train_id s.commands_by_train ≡ none =
        subst (λ t. lookup t s.commands_by_train ≡ none) (sym same_train) free in
      record {
        sound = record {
          safe = v.sound.safe;
          named = v.sound.named;
          keys = insert-IsMap command.train_id command s.commands_by_train v.sound.keys;
          backed =
              Backed-command F command.train_id command s.commands_by_train
                s.dispatch_manager.pending_decisions refl w v.sound.backed;
        };
        own =
            All-append (IsWaiting F s.dispatch_manager.pending_decisions) issued (command ∷ [])
              v.own (w, tt);
        fresh =
            All-append (λ (x : DispatchDecision F). lookup x.train_id base ≡ none) issued
              (command ∷ []) v.fresh
              (
                elim (Option-cases (lookup command.train_id base)) [
                  | inl e ↦ e
                  | inr (x, e) ↦ absurd (ground (arith, v.kept command.train_id x e, free'))
                ],
                tt,
              );
        stands =
            let after = insert command.train_id command s.commands_by_train in
            All-append (λ (x : DispatchDecision F). lookup x.train_id after ≡ some x) issued
              (command ∷ [])
              (All-map issued
                (λ x e. ground (
                  arith,
                  e,
                  free',
                  lookup-insert command.train_id x.train_id command s.commands_by_train,
                  string_eq.beq_iff command.train_id x.train_id,
                ))
                v.stands)
              (
                ground (
                  arith,
                  lookup-insert command.train_id command.train_id command s.commands_by_train,
                  string_eq.beq_iff command.train_id command.train_id,
                ),
                tt,
              );
        shown = λ t x e. elim (Bool-cases (command.train_id == t)) [
          | inl here ↦
              let c=x : command ≡ x =
                ground
                  (arith, here, e, lookup-insert command.train_id t command s.commands_by_train) in
              inr (
                subst (λ y. Memᴰ y (issued ++ command ∷ [])) c=x
                  (Memᴰ.append_right issued (Memᴰ.head refl)))
          | inr other ↦
              elim (v.shown t x (
                ground (
                  arith,
                  other,
                  e,
                  lookup-insert command.train_id t command s.commands_by_train,
                ))) [ inl old ↦ inl old | inr new ↦ inr (Memᴰ.append_left (command ∷ []) new) ]
        ];
        kept = λ t x e.
            let here = v.kept t x e in
            ground (
              arith,
              here,
              free',
              lookup-insert command.train_id t command s.commands_by_train,
              string_eq.beq_iff command.train_id t,
            );
      }

  -- The direction of a plan is decided, and the commands are those that they should be.
  plan-Sound :
      (cmds : Commands) (m : DispatchManager F) (id : String) (now wall : ℕ)
      (issued : List (DispatchDecision F)) (o : DispatchManager F × DispatchDecision F)
      → plan_next F m id now wall ≡ some o
      → Sound F cmds m
      → All (IsWaiting F m.pending_decisions) issued
      → Holds F m o ⊎ Issues F m id now wall o
      → Sound F cmds o.0 × All (IsWaiting F o.0.pending_decisions) issued
  plan-Sound cmds m id now wall issued o e v own (inl h) = (
    record {
      safe = Holds-IsSafe F m v.safe o h;
      named = plan_next-IsNamed F m id now wall v.named e;
      keys = v.keys;
      backed = rw h.pending v.backed;
    },
    rw h.pending own,
  )
  plan-Sound cmds m id now wall issued o e v own (inr h) =
      let (named, free) = Issues-names F m id now wall o v.safe v.named h in
      (
        record {
          safe = Issues-IsSafe F m v.safe id now wall o h;
          named = plan_next-IsNamed F m id now wall v.named e;
          keys = v.keys;
          backed = rw h.pending (Backed-insert F id o.1 cmds m.pending_decisions free v.backed);
        },
        rw h.pending
            (All-map issued (λ d w. IsWaiting-insert F id o.1 m.pending_decisions d free w) own),
      )

  has_command-false :
      (s : RailwayDispatchService F) (t : String)
      → has_command F s t ≡ false
      → lookup t s.commands_by_train ≡ none
  has_command-false s t h = elim (Option-cases (lookup t s.commands_by_train)) [
    | inl e ↦ e
    | inr (d, e) ↦ absurd (ground (arith, h, e))
  ]

  -- One direction, without an exception.
  decide_direction-IsCycle :
      (now wall : ℕ) (corridor : SharedCorridorDefinition F) (direction : CorridorDirection)
      (base : Commands) (s : RailwayDispatchService F) (issued : List (DispatchDecision F))
      → IsCycle base (s, issued)
      → (c : Cycle F) × (decide_direction F now wall corridor direction (s, issued) ≡ some c)
        × IsCycle base c
  unfolding decide_direction
  decide_direction-IsCycle now wall corridor direction base s issued v =
      let id = resource_id corridor.corridor_id direction in
      let m = s.dispatch_manager in
      let (o, e, w) = plan_next_cases F m id now wall in
      let (sound, own) = plan-Sound s.commands_by_train m id now wall issued o e v.sound v.own w in
      let planned = record s { dispatch_manager = o.0 } in
      let next = planned-IsCycle base s issued o.0 sound own v in
      elim (Bool-cases (is_release o.1.action && not (has_command F s o.1.train_id))) [
        | inr skip ↦ ((planned, issued), rw (e, decide_direction, skip) refl, next)
        | inl go ↦ elim w [
          | inl h ↦ absurd (ground (arith, go, h.action))
          | inr h ↦
              let (named, _) = Issues-names F m id now wall o v.sound.safe v.sound.named h in
              let waiting : lookup id o.0.pending_decisions ≡ some o.1 = ground (
                arith,
                h.pending,
                lookup-insert id id o.1 m.pending_decisions,
                string_eq.beq_iff id id,
              ) in
              (
                publish F now corridor id o.1 (planned, issued),
                rw (e, decide_direction, go) refl,
                publish-IsCycle now corridor id o.1 base planned issued named waiting
                    (has_command-false s o.1.train_id (ground (arith, go))) next,
              )
        ]
      ]

  pub decide_all-IsCycle :
      (now wall : ℕ) (corridors : List (SharedCorridorDefinition F)) (base : Commands) (c : Cycle F)
      → IsCycle base c
      → (c' : Cycle F) × (decide_all F now wall corridors c ≡ some c') × IsCycle base c'
  unfolding decide_all
  decide_all-IsCycle now wall [] base c v = (c, refl, v)
  decide_all-IsCycle now wall (x ∷ xs) base (s, issued) v =
      let (c₁, e₁, v₁) =
        decide_direction-IsCycle now wall x CorridorDirection.forward base s issued v in
      let (c₂, e₂, v₂) =
        decide_direction-IsCycle now wall x CorridorDirection.reverse base c₁.0 c₁.1 v₁ in
      let (c₃, e₃, v₃) = decide_all-IsCycle now wall xs base c₂ v₂ in
      (c₃, rw (e₁, decide_all, e₂) e₃, v₃)

  pub begin-IsCycle :
      (s : RailwayDispatchService F) → IsSound F s → IsCycle s.commands_by_train (s, [])
  begin-IsCycle s v = record {
    sound = v;
    own = tt;
    fresh = tt;
    stands = tt;
    shown = λ t d e. inl e;
    kept = λ t d e. e;
  }
