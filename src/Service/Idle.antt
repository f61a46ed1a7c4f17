-- ===== src/Service/Idle.antt =====
-- The manager that server/src/RailwayDispatchService.cpp builds from a topology is idle: no train
-- is anywhere, and no command waits.
use multi_agent_route_planni.Base.{
  ℕ, String, ◌≡◌, refl, sym, ◌∙◌, subst, inl, inr, false, ◌||◌, none, some, List, [], ◌∷◌, arith,
  ◌==◌, nat_eq, string_eq, ok, ok-eq, Result-cases, Bool-cases, Option-cases, Map, lookup, IsMap,
  insert-IsMap, lookup-insert,
}
use multi_agent_route_planni.Base.Floats.{Floats}
use multi_agent_route_planni.Analysis.{SharedCorridorMember, SharedCorridorDefinition}
use multi_agent_route_planni.Dispatch.{CorridorDirection, LineDispatchState, SharedCorridorState}
use multi_agent_route_planni.Reservation.{LineIntersectionMovement, init, runtime_at}
use multi_agent_route_planni.Reservation.Lookup.{active_at}
use multi_agent_route_planni.Reservation.History.{
  Inv, Reach-Inv, here, Step-Inv, registers, active_at-register,
}
use multi_agent_route_planni.Policy.Constraints.{policy}
use multi_agent_route_planni.Manager.{
  DispatchManagerConfig, DispatchManager, fresh_manager, manager, register_intersection_movement,
  upsert_corridor, upsert_line_state, with_corridor, with_defaults, keep_pending,
}
use multi_agent_route_planni.Manager.Interlock.{is_busy}
use multi_agent_route_planni.Manager.Names.{IsNamed, insert-IsNamed}
use multi_agent_route_planni.Manager.Safety.{IsSafe}
use multi_agent_route_planni.Topology.{LineTopologySnapshot}
use multi_agent_route_planni.Approach.{resource_id}
use multi_agent_route_planni.Service.Rebuilding.{
  register_all, headways, upsert_members, new_direction, add_direction, add_corridors, built_on,
  rebuild,
}

module _ (F : Floats) where
  pub record IsIdle (m : DispatchManager F) : Type 0 where
    pub keys : IsMap m.corridors
    pub idle :
        (id : String) (c : SharedCorridorState F)
        → lookup id m.corridors ≡ some c
        → is_busy F c ≡ false
    pub named : IsNamed F m.corridors
    pub quiet : m.pending_decisions ≡ []
    pub free : (i a : String) → active_at m.reservations i a ≡ none
    pub booked : Inv m.reservations

  pub IsIdle-IsSafe : (m : DispatchManager F) → IsIdle m → IsSafe F m
  unfolding lookup
  IsIdle-IsSafe m v = record {
    corridor_keys = v.keys;
    pending_keys = rw v.quiet tt;
    interlock = λ i j c d fi fj ne same busy. v.idle j d fj;
    matched = λ k. elim (Option-cases (lookup k m.corridors)) [
      | inl e ↦ rw (e, v.quiet) refl
      | inr (c, e) ↦ rw (e, v.quiet) (ground (arith, v.idle k c e))
    ];
    booked = v.booked;
  }

  pub fresh-IsIdle :
      (config : DispatchManagerConfig F) {m : DispatchManager F}
      → manager F config ≡ ok m
      → IsIdle m
  unfolding manager lookup init active_at runtime_at
  fresh-IsIdle config {m} e = elim (Result-cases (policy F config.priority)) [
    | inr (reason, f) ↦ absurd (ground (arith, f))
    | inl (priority, f) ↦
        elim (Bool-cases (
          config.default_intersection_clearance_ms == 0 || config.default_corridor_capacity == 0)) [
            | inl bad ↦ absurd (ground (arith, f))
            | inr good ↦
                let built : manager F config ≡ ok (fresh_manager F config priority) =
                  rw (f, manager, good) refl in
                let same : fresh_manager F config priority ≡ m = ok-eq (sym built ∙ e) in
                subst IsIdle same (record {
                  keys = tt;
                  idle = λ id c h. absurd (ground (arith, h));
                  named = λ id c h. absurd (ground (arith, h));
                  quiet = refl;
                  free = λ i a. refl;
                  booked = Reach-Inv config.default_intersection_clearance_ms here;
                })
          ]
  ]

  register-IsIdle :
      (x : LineIntersectionMovement) (m : DispatchManager F)
      → IsIdle m
      → IsIdle (register_intersection_movement F m x).0
  unfolding register_intersection_movement
  register-IsIdle x m v = record {
    keys = v.keys;
    idle = v.idle;
    named = v.named;
    quiet = v.quiet;
    free = λ i a. active_at-register m.reservations x i a ∙ v.free i a;
    booked = Step-Inv (registers x (λ i. v.free i x.movement_id)) v.booked;
  }

  with_corridor-IsIdle :
      (m : DispatchManager F) (id : String) (c : SharedCorridorState F)
      → c.corridor_resource_id ≡ id
      → is_busy F c ≡ false
      → IsIdle m
      → IsIdle (with_corridor F m id c)
  with_corridor-IsIdle m id c same free v = record {
    keys = insert-IsMap id c m.corridors v.keys;
    idle = λ j d e. elim (Bool-cases (id == j)) [
      | inl here_ ↦
          let c=d : c ≡ d = ground (arith, here_, e, lookup-insert id j c m.corridors) in
          subst (λ x. is_busy F x ≡ false) c=d free
      | inr other ↦ v.idle j d (ground (arith, other, e, lookup-insert id j c m.corridors))
    ];
    named = insert-IsNamed F id c m.corridors same v.named;
    quiet = v.quiet;
    free = v.free;
    booked = v.booked;
  }

  upsert_corridor-IsIdle :
      (m : DispatchManager F) (c : SharedCorridorState F)
      → is_busy F c ≡ false
      → IsIdle m
      → IsIdle (upsert_corridor F m c)
  unfolding upsert_corridor
  upsert_corridor-IsIdle m c free v =
      let id = c.corridor_resource_id in
      elim (Bool-cases (id == "")) [
        | inl unnamed ↦ rw (unnamed, upsert_corridor) v
        | inr named ↦ elim (Option-cases (lookup id m.corridors)) [
          | inl e ↦
              rw (named, upsert_corridor, e)
                (with_corridor-IsIdle m id (with_defaults F m c) refl free v)
          | inr (x, e) ↦
              rw (named, upsert_corridor, e)
                (with_corridor-IsIdle m id (with_defaults F m (keep_pending F c (some x))) refl
                  (ground (arith, v.idle id x e)) v)
        ]
      ]

  upsert_line_state-IsIdle :
      (m : DispatchManager F) (id line_id : String) (line : LineDispatchState F)
      → IsIdle m
      → IsIdle (upsert_line_state F m id line_id line)
  unfolding upsert_line_state
  upsert_line_state-IsIdle m id line_id line v =
      elim (Bool-cases (id == "" || line_id == "" || line.target_headway_ms == 0)) [
        | inl bad ↦ rw (bad, upsert_line_state) v
        | inr good ↦
            rw (good, upsert_line_state)
              (record {
                keys = v.keys;
                idle = v.idle;
                named = v.named;
                quiet = v.quiet;
                free = v.free;
                booked = v.booked;
              })
      ]

  register_all-IsIdle :
      (xs : List LineIntersectionMovement) (m : DispatchManager F)
      → IsIdle m
      → IsIdle (register_all F xs m)
  unfolding register_all
  register_all-IsIdle [] m v = v
  register_all-IsIdle (x ∷ xs) m v =
      register_all-IsIdle xs (register_intersection_movement F m x).0 (register-IsIdle x m v)

  upsert_members-IsIdle :
      (headway : Map String ℕ) (id : String) (xs : List (SharedCorridorMember F))
      (m : DispatchManager F)
      → IsIdle m
      → IsIdle (upsert_members F headway id xs m)
  unfolding upsert_members
  upsert_members-IsIdle headway id [] m v = v
  upsert_members-IsIdle headway id (x ∷ xs) m v =
      upsert_members-IsIdle headway id xs _ (upsert_line_state-IsIdle m id x.line_id _ v)

  add_direction-IsIdle :
      (config : DispatchManagerConfig F) (wall : ℕ) (headway : Map String ℕ)
      (c : SharedCorridorDefinition F) (direction : CorridorDirection) (m : DispatchManager F)
      → IsIdle m
      → IsIdle (add_direction F config wall headway c direction m)
  unfolding add_direction new_direction
  add_direction-IsIdle config wall headway c direction m v =
      upsert_members-IsIdle headway (resource_id c.corridor_id direction) c.members _
        (upsert_corridor-IsIdle m (new_direction F config wall c.corridor_id direction) refl v)

  add_corridors-IsIdle :
      (config : DispatchManagerConfig F) (wall : ℕ) (headway : Map String ℕ)
      (cs : List (SharedCorridorDefinition F)) (m : DispatchManager F)
      → IsIdle m
      → IsIdle (add_corridors F config wall headway cs m)
  unfolding add_corridors
  add_corridors-IsIdle config wall headway [] m v = v
  add_corridors-IsIdle config wall headway (c ∷ cs) m v =
      add_corridors-IsIdle config wall headway cs _ (
        add_direction-IsIdle config wall headway c CorridorDirection.reverse _
          (add_direction-IsIdle config wall headway c CorridorDirection.forward m v))

  -- A topology is taken over without a train in it.
  pub rebuild-IsIdle :
      (config : DispatchManagerConfig F) (topology : LineTopologySnapshot F) (wall : ℕ)
      {m : DispatchManager F}
      → rebuild F config topology wall ≡ ok m
      → IsIdle m
  unfolding rebuild built_on
  rebuild-IsIdle config topology wall {m} e = elim (Result-cases (manager F config)) [
    | inr (reason, f) ↦ absurd (ground (arith, f))
    | inl (n, f) ↦
        let built = built_on F config topology wall n in
        let same : built ≡ m = ok-eq (sym (rw (f, rebuild) refl) ∙ e) in
        subst IsIdle same (
          add_corridors-IsIdle config wall (headways F topology.routes [])
            topology.analysis.shared_corridors _
            (register_all-IsIdle topology.analysis.movements n (fresh-IsIdle config f)))
  ]

  pub manager-rebuild :
      (config : DispatchManagerConfig F) (topology : LineTopologySnapshot F) (wall : ℕ)
      {m : DispatchManager F}
      → manager F config ≡ ok m
      → (n : DispatchManager F) × (rebuild F config topology wall ≡ ok n)
  unfolding rebuild built_on
  manager-rebuild config topology wall {m} e =
      (built_on F config topology wall m, rw (e, rebuild) refl)
