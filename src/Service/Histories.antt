-- ===== src/Service/Histories.antt =====
-- Histories of the calls of server/src/RailwayDispatchService.cpp, each under its lock.
use multi_agent_route_planni.Base.{
  ℕ, String, ◌≡◌, ◌==◌, nat_eq, refl, sym, ◌∙◌, subst, inl, inr, Option, some, some-eq, Bool, List,
  ok, ok-eq, Result, Result-cases, Bool-cases, arith,
}
use multi_agent_route_planni.Base.Floats.{Floats}
use multi_agent_route_planni.Analysis.{LineRoute, LineTopologyAnalysis}
use multi_agent_route_planni.Monitor.{TrainTelemetry, TrainBatchUpdateResult}
use multi_agent_route_planni.Manager.{DispatchManager, manager}
use multi_agent_route_planni.Topology.{CorridorTraversal}
use multi_agent_route_planni.Planner.{planner}
use multi_agent_route_planni.Candidates.{builder}
use multi_agent_route_planni.Service.{
  DispatchPersistence, RailwayDispatchService, RailwayDispatchServiceConfig, RouteUploadResult,
  fresh_service, configure,
}
use multi_agent_route_planni.Service.Cleanup.{run_maintenance}
use multi_agent_route_planni.Service.Cycle.{update_trains}
use multi_agent_route_planni.Service.Uploading.{replace_routes}
use multi_agent_route_planni.Service.Leaving.{mark_cleared}
use multi_agent_route_planni.Service.Answering.{acknowledge}
use multi_agent_route_planni.Service.Recovery.{enable_persistence}
use multi_agent_route_planni.Service.Backing.{IsSound}
use multi_agent_route_planni.Service.Safety.{cleanup_stale-IsSound}
use multi_agent_route_planni.Service.Storing.{update_trains_lem, Outcome-IsSound}
use multi_agent_route_planni.Service.Acks.{acknowledge_lem}
use multi_agent_route_planni.Service.Clears.{mark_cleared-IsSound}
use multi_agent_route_planni.Service.Uploads.{replace_routes_cases, replace_routes-IsSound}
use multi_agent_route_planni.Service.Idle.{IsIdle-IsSafe, fresh-IsIdle}
use multi_agent_route_planni.Service.Restarts.{IsEmpty, IsEmpty-IsSound, enable_persistence_lem}

module _ (F : Floats) (analyze : List (LineRoute F) → LineTopologyAnalysis F)
    (distance : LineRoute F → CorridorTraversal F → TrainTelemetry F → Option F.Double) where
  -- One call, with whatever the data layer answers.
  pub data Step (s : RailwayDispatchService F) : RailwayDispatchService F → Type 0 where
    uploads :
        (p : DispatchPersistence F) (routes : List (LineRoute F)) (wall : ℕ)
        {o : RailwayDispatchService F × Result RouteUploadResult}
        → replace_routes F analyze p s routes wall ≡ some o
        → Step s o.0
    updates :
        (p : DispatchPersistence F) (batch : List (TrainTelemetry F)) (now wall : ℕ)
        {o : RailwayDispatchService F × TrainBatchUpdateResult}
        → update_trains F distance p s batch now wall ≡ some o
        → Step s o.0
    maintains : (wall : ℕ) → Step s (run_maintenance F s wall)
    acknowledges :
        (p : DispatchPersistence F) (id t : String) (accepted : Bool) (now event_wall : ℕ)
        (command_id : String)
        → Step s (acknowledge F p s id t accepted now event_wall command_id).0
    clears :
        (p : DispatchPersistence F) (t id : String) (is : List String) (now event_wall : ℕ)
        → Step s (mark_cleared F p s t id is now event_wall).0

  -- From a configuration on, with the data layer or without it.
  pub data Reach : RailwayDispatchService F → Type 0 where
    configured :
        (old : RailwayDispatchService F) (config : RailwayDispatchServiceConfig F)
        {s : RailwayDispatchService F}
        → configure F old config ≡ ok s
        → Reach s
    started :
        (old : RailwayDispatchService F) (config : RailwayDispatchServiceConfig F)
        (p : Option (DispatchPersistence F)) (wall : ℕ) {s : RailwayDispatchService F}
        {o : RailwayDispatchService F × Result (Unit {0})}
        → configure F old config ≡ ok s
        → enable_persistence F analyze p s wall ≡ some o
        → Reach o.0
    then_ : {s n : RailwayDispatchService F} → Reach s → Step s n → Reach n

  Step-IsSound : {s n : RailwayDispatchService F} → Step s n → IsSound F s → IsSound F n
  unfolding run_maintenance
  Step-IsSound {s} (uploads p routes wall {o} e) v =
      replace_routes-IsSound F analyze s routes o
        (replace_routes_cases F analyze p s routes wall o e) v
  Step-IsSound {s} (updates p batch now wall {o} e) v =
      let (o', f, (c, _, w)) = update_trains_lem F distance p s batch now wall v in
      let same : o' ≡ o = some-eq (sym f ∙ e) in
      subst (λ (x : RailwayDispatchService F × TrainBatchUpdateResult). IsSound F x.0) same
        (Outcome-IsSound F p now wall _ c o' w)
  Step-IsSound {s} (maintains wall) v = cleanup_stale-IsSound F s wall v
  Step-IsSound {s} (acknowledges p id t accepted now event_wall command_id) v =
      (acknowledge_lem F p s id t accepted now event_wall command_id v).0
  Step-IsSound {s} (clears p t id is now event_wall) v =
      mark_cleared-IsSound F p s t id is now event_wall v

  pub configure-IsEmpty :
      (old : RailwayDispatchService F) (config : RailwayDispatchServiceConfig F)
      {s : RailwayDispatchService F}
      → configure F old config ≡ ok s
      → IsEmpty F s × ((m : DispatchManager F) × (manager F s.config.dispatch ≡ ok m))
  unfolding configure
  configure-IsEmpty old config {s} e = elim (Bool-cases (config.train_stale_wall_ms == 0)) [
    | inl bad ↦ absurd (ground (arith, bad, e))
    | inr good ↦ elim (Result-cases (builder F config.candidate_builder)) [
      | inr (why, f) ↦ absurd (ground (arith, good, f, e))
      | inl (_, f) ↦ elim (Result-cases (planner F config.rolling_planner)) [
        | inr (why, g) ↦ absurd (ground (arith, good, f, g, e))
        | inl (_, g) ↦ elim (Result-cases (manager F config.dispatch)) [
          | inr (why, h) ↦ absurd (ground (arith, good, f, g, h, e))
          | inl (m, h) ↦
              let built : configure F old config
                  ≡ ok (fresh_service F config m old.persistence_enabled) =
                simp (configure, good, f, g, h) refl in
              let same : fresh_service F config m old.persistence_enabled ≡ s =
                ok-eq (sym built ∙ e) in
              let idle = fresh-IsIdle F config.dispatch h in
              subst
                (λ (x : RailwayDispatchService F).
                  IsEmpty F x × ((n : DispatchManager F) × (manager F x.config.dispatch ≡ ok n)))
                same ((refl, IsIdle-IsSafe F m idle, idle.named), (m, h))
        ]
      ]
    ]
  ]

  -- Start the service with the data layer or without it, then call it in any order, whatever the
  -- data layer answers and whatever the analysis of routes and the distances to corridors are:
  -- each command that is shown to a train is its own and is the one that the dispatch manager
  -- waits for in that direction, the corridors of the manager are found under their own names, and
  -- the manager keeps its own invariant (`IsSafe`).
  pub Reach-IsSound : {s : RailwayDispatchService F} → Reach s → IsSound F s
  Reach-IsSound (configured old config {s} e) =
      IsEmpty-IsSound F s (configure-IsEmpty old config e).0
  Reach-IsSound (started old config p wall {s} {o} e f) =
      let (empty, (m, g)) = configure-IsEmpty old config e in
      let (s', r, h, v, _) = enable_persistence_lem F analyze p s wall g empty in
      subst (λ (x : RailwayDispatchService F × Result (Unit {0})). IsSound F x.0)
        (some-eq (sym h ∙ f)) v
  Reach-IsSound (then_ r st) = Step-IsSound st (Reach-IsSound r)
