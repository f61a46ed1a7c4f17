-- ===== src/Service/Restarts.antt =====
-- A start of server/src/RailwayDispatchService.cpp from what the data layer has.
use multi_agent_route_planni.Base.{
  ℕ, ◌≡◌, refl, ap, ◌∙◌, inl, inr, Option, none, some, List, [], arith, nat_eq, string_eq, Result,
  ok, fail, Result-cases, Bool-cases, lookup,
}
use multi_agent_route_planni.Base.Floats.{Floats}
use multi_agent_route_planni.Analysis.{LineRoute, LineTopologyAnalysis}
use multi_agent_route_planni.Manager.{DispatchManager, manager}
use multi_agent_route_planni.Manager.Safety.{IsSafe}
use multi_agent_route_planni.Manager.Names.{IsNamed}
use multi_agent_route_planni.Service.{
  DispatchPersistence, DispatchRecoveryState, RailwayDispatchService,
}
use multi_agent_route_planni.Service.Uploading.{is_nil}
use multi_agent_route_planni.Service.Idle.{IsIdle-IsSafe, rebuild-IsIdle, manager-rebuild}
use multi_agent_route_planni.Topology as Topology
use multi_agent_route_planni.Service.Recovery.{restore_topology, enable_persistence}
use multi_agent_route_planni.Service.Backing.{IsSound}
use multi_agent_route_planni.Service.Restoring.{Ends, IsStarted, restore_all-Ends}

module _ (F : Floats) where
  -- No command is shown, and the manager is whole.
  abbrev pub IsEmpty : RailwayDispatchService F → Type 0
  IsEmpty s =
      (s.commands_by_train ≡ [])
      × IsSafe F s.dispatch_manager
      × IsNamed F s.dispatch_manager.corridors

  pub IsEmpty-IsSound : (s : RailwayDispatchService F) → IsEmpty s → IsSound F s
  unfolding lookup
  IsEmpty-IsSound s (none_shown, safe, named) = record {
    safe = safe;
    named = named;
    keys = rw none_shown tt;
    backed = rw none_shown (λ t d e. absurd (ground (arith, e)));
  }

  module _ (analyze : List (LineRoute F) → LineTopologyAnalysis F) where
    restore_topology-IsEmpty :
        (r : DispatchRecoveryState F) (wall : ℕ) (s : RailwayDispatchService F)
        {m : DispatchManager F}
        → manager F s.config.dispatch ≡ ok m
        → IsEmpty s
        → (s' : RailwayDispatchService F) × (o : Result (Unit {0})) × (restore_topology F analyze r
              wall s
            ≡ some (s', o))
          × (s'.persistence_enabled ≡ s.persistence_enabled)
          × IsEmpty s'
    unfolding restore_topology
    restore_topology-IsEmpty r wall s e v =
        let t = Topology.restore_routes F analyze s.topology r.routes r.topology_revision in
        elim (Bool-cases (is_nil r.routes)) [
          | inl nothing ↦ (s, ok tt, simp (nothing, restore_topology) refl, refl, v)
          | inr routes ↦ elim (Result-cases t.1) [
            | inr (reason, f) ↦ (
              record s { topology = t.0 },
              fail reason,
              simp (routes, restore_topology, f) refl,
              refl,
              v,
            )
            | inl (_, f) ↦
                let (n, g) = manager-rebuild F s.config.dispatch (Topology.snapshot F t.0) wall e in
                let idle = rebuild-IsIdle F s.config.dispatch (Topology.snapshot F t.0) wall g in
                (
                  record s { topology = t.0; dispatch_manager = n },
                  ok tt,
                  simp (routes, restore_topology, f, g) refl,
                  refl,
                  (v.0, IsIdle-IsSafe F n idle, idle.named),
                )
          ]
        ]

    -- What the data layer answers to the call is what is restored.
    abbrev pub Begins : Option (DispatchPersistence F) → RailwayDispatchService F → Type 0
    Begins p s =
        (q : DispatchPersistence F) × (r : DispatchRecoveryState F) × (p ≡ some q)
        × (q.load_recovery_state ≡ ok r)
        × IsStarted F r s

    -- For a service just configured, restoring what the data layer has returns without an
    -- exception, and each command that is shown afterwards is backed by the manager. Either it
    -- fails, and the data layer stays as it was, on or off; or it succeeds, and the data layer is
    -- on and healthy, the next command's number is not below the one recovered, the manager waits
    -- for the train of every pending command recovered, and the train of every active command
    -- recovered is under way.
    pub enable_persistence_lem :
        (p : Option (DispatchPersistence F)) (s : RailwayDispatchService F) (wall : ℕ)
        {m : DispatchManager F}
        → manager F s.config.dispatch ≡ ok m
        → IsEmpty s
        → Ends F s.persistence_enabled (Begins p) (enable_persistence F analyze p s wall)
    unfolding enable_persistence
    enable_persistence_lem none s wall e v = (
      s,
      fail "persistence_is_null",
      refl,
      IsEmpty-IsSound s v,
      inl ("persistence_is_null", refl, refl),
    )
    enable_persistence_lem (some p) s wall e v = elim (Result-cases p.load_recovery_state) [
      | inr (reason, f) ↦ (
        s,
        fail reason,
        simp (f, enable_persistence) refl,
        IsEmpty-IsSound s v,
        inl (reason, refl, refl),
      )
      | inl (r, f) ↦
          let (s', o, g, off, v') = restore_topology-IsEmpty r wall s e v in
          elim (Result-cases o) [
            | inr (reason, h) ↦
                let g' = g ∙ ap (λ x. some (s', x)) h in
                (
                  s',
                  fail reason,
                  simp (f, enable_persistence, g') refl,
                  IsEmpty-IsSound s' v',
                  inl (reason, refl, off),
                )
            | inl (_, h) ↦
                let g' = g ∙ ap (λ x. some (s', x)) h in
                let (s'', o', k, v'', ends) = restore_all-Ends F r s' (IsEmpty-IsSound s' v') in
                (
                  s'',
                  o',
                  simp (f, enable_persistence, g') k,
                  v'',
                  elim ends [
                    | inl (reason, h', off') ↦ inl (reason, h', off' ∙ off)
                    | inr (done, started) ↦ inr (done, (p, r, refl, f, started))
                  ],
                )
          ]
    ]
