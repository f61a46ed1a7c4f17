-- ===== src/Service/Storing.antt =====
-- `updateTrains` of server/src/RailwayDispatchService.cpp as a whole: what is shown when the cycle
-- is stored, and what when it is not.
use multi_agent_route_planni.Base.{
  ℕ, String, ◌≡◌, refl, sym, subst, ◌⊎◌, inl, inr, true, false, Option, some, List, [], ◌∷◌,
  string_eq, Bool-cases, All-map, length, lookup,
}
use multi_agent_route_planni.Base.Floats.{Floats}
use multi_agent_route_planni.Analysis.{LineRoute}
use multi_agent_route_planni.Dispatch.{DispatchDecision}
use multi_agent_route_planni.Monitor as Monitor
use multi_agent_route_planni.Monitor.{TrainTelemetry, TrainBatchUpdateResult, upsert_batch}
use multi_agent_route_planni.Topology.{CorridorTraversal}
use multi_agent_route_planni.Planner.Planning.{plan}
use multi_agent_route_planni.Candidates.{build}
use multi_agent_route_planni.Service.{
  Answer, stored, refused, DispatchPersistence, RailwayDispatchService, with_health,
}
use multi_agent_route_planni.Service.Cleanup.{cleanup_stale}
use multi_agent_route_planni.Service.Cycle.{
  Cycle, refreshed, refresh, revoke, settle_cycle, store_cycle, update_trains,
}
use multi_agent_route_planni.Service.Backing.{IsSound}
use multi_agent_route_planni.Service.Safety.{cleanup_stale-IsSound, replace_all-Sound}
use multi_agent_route_planni.Service.Exposure.{Commands, IsCycle, decide_all-IsCycle, begin-IsCycle}
use multi_agent_route_planni.Service.Revoking.{
  Revoking, IsWaiting-MayWait, revoke-back, revoke-AreOpen, AreOpen,
}

module _ (F : Floats) where
  -- What the data layer answers to a cycle that has been decided.
  abbrev pub answer_to : DispatchPersistence F → ℕ → ℕ → Cycle F → Answer
  answer_to p now wall (s, issued) =
      p.persist_dispatch_cycle (Monitor.snapshot F s.train_monitor) s.rolling_plan_result issued
        s.topology.revision now wall

  -- The cycle is shown as it was decided.
  pub record IsShown (base : Commands F) (c : Cycle F)
      (o : RailwayDispatchService F × TrainBatchUpdateResult) : Type 0 where
    pub cycle : IsCycle F base (o.0, c.1)
    pub commands : o.0.commands_by_train ≡ c.0.commands_by_train
    pub manager : o.0.dispatch_manager ≡ c.0.dispatch_manager
    pub counted : o.1.issued_commands ≡ length c.1

  -- The cycle is taken back: the commands are those from before it.
  pub record IsWithdrawn (base : Commands F) (issued : List (DispatchDecision F)) (error : String)
      (o : RailwayDispatchService F × TrainBatchUpdateResult) : Type 0 where
    pub told : o.1.persistence_ok ≡ false
    pub told_why : o.1.persistence_error ≡ error
    pub noted : o.0.persistence_healthy ≡ false
    pub none_issued : o.1.issued_commands ≡ 0
    pub back : (t : String) → lookup t o.0.commands_by_train ≡ lookup t base
    pub reopened : AreOpen F issued o.0
    pub sound : IsSound F o.0

  -- What follows a cycle: without a data layer it is shown; with one, its answer decides.
  abbrev pub Outcome :
      DispatchPersistence F
      → ℕ
      → ℕ
      → Commands F
      → Cycle F
      → RailwayDispatchService F × TrainBatchUpdateResult
      → Type 0
  Outcome p now wall base c o =
      ((c.0.persistence_enabled ≡ false) × IsShown base c o)
      ⊎ (((c.0.persistence_enabled ≡ true)
            × ((error : String) × (answer_to p now wall c ≡ stored error)
                × (o.1.persistence_ok ≡ true)
                × (o.0.persistence_healthy ≡ true)
                × IsShown base c o))
          ⊎ ((c.0.persistence_enabled ≡ true)
              × ((error : String) × (answer_to p now wall c ≡ refused error)
                  × IsWithdrawn base c.1 error o)))

  cycle-Revoking :
      (base : Commands F) (s : RailwayDispatchService F) (issued : List (DispatchDecision F))
      (error : String)
      → IsCycle F base (s, issued)
      → Revoking F base issued (with_health F s (refused error))
  cycle-Revoking base s issued error v = record {
    sound = v.sound;
    own =
        All-map issued (λ d w. IsWaiting-MayWait F s.dispatch_manager.pending_decisions d w) v.own;
    fresh = v.fresh;
    shown = v.shown;
    kept = v.kept;
  }

  revoke-healthy :
      (ds : List (DispatchDecision F)) (s : RailwayDispatchService F)
      → (revoke F ds s).persistence_healthy ≡ s.persistence_healthy
  unfolding revoke
  revoke-healthy [] s = refl
  revoke-healthy (d ∷ ds) s = revoke-healthy ds _

  -- What an answer makes of a cycle.
  abbrev Settled :
      Commands F → Cycle F → Answer → RailwayDispatchService F × TrainBatchUpdateResult → Type 0
  Settled base c a o =
      ((error : String) × (a ≡ stored error)
        × (o.1.persistence_ok ≡ true)
        × (o.0.persistence_healthy ≡ true)
        × IsShown base c o)
      ⊎ ((error : String) × (a ≡ refused error) × IsWithdrawn base c.1 error o)

  settle_cycle_lem :
      (a : Answer) (r : TrainBatchUpdateResult) (base : Commands F) (s : RailwayDispatchService F)
      (issued : List (DispatchDecision F))
      → r.issued_commands ≡ length issued
      → IsCycle F base (s, issued)
      → Settled base (s, issued) a (settle_cycle F a r (s, issued))
  unfolding settle_cycle
  settle_cycle_lem (stored error) r base s issued n v = inl (
    error,
    refl,
    refl,
    refl,
    record {
      cycle = record {
        sound = v.sound;
        own = v.own;
        fresh = v.fresh;
        stands = v.stands;
        shown = v.shown;
        kept = v.kept;
      };
      commands = refl;
      manager = refl;
      counted = n;
    },
  )
  settle_cycle_lem (refused error) r base s issued n v =
      let (sound, back) =
        revoke-back F base issued (with_health F s (refused error))
          (cycle-Revoking base s issued error v) in
      inr (
        error,
        refl,
        record {
          told = refl;
          told_why = refl;
          noted = revoke-healthy issued (with_health F s (refused error));
          none_issued = refl;
          back = back;
          reopened =
              revoke-AreOpen F base issued (with_health F s (refused error))
                (cycle-Revoking base s issued error v);
          sound = sound;
        },
      )

  store_cycle_lem :
      (p : DispatchPersistence F) (now wall : ℕ) (r : TrainBatchUpdateResult) (base : Commands F)
      (s : RailwayDispatchService F) (issued : List (DispatchDecision F))
      → IsCycle F base (s, issued)
      → Outcome p now wall base (s, issued) (store_cycle F p now wall r (s, issued))
  unfolding store_cycle
  store_cycle_lem p now wall r base s issued v =
      let answer = answer_to p now wall (s, issued) in
      let counted = record r { issued_commands = length issued } in
      elim (Bool-cases s.persistence_enabled) [
        | inr off ↦
            let same : store_cycle F p now wall r (s, issued) ≡ (s, counted) =
              simp (off, store_cycle) refl in
            subst (Outcome p now wall base (s, issued)) (sym same)
              (inl (off, record { cycle = v; commands = refl; manager = refl; counted = refl }))
        | inl on ↦
            let same : store_cycle F p now wall r (s, issued)
                ≡ settle_cycle F answer counted (s, issued) =
              simp (on, store_cycle) refl in
            subst (Outcome p now wall base (s, issued)) (sym same)
              (elim (settle_cycle_lem answer counted base s issued refl v) [
                | inl good ↦ inr (inl (on, good))
                | inr bad ↦ inr (inr (on, bad))
              ])
      ]

  pub Outcome-IsSound :
      (p : DispatchPersistence F) (now wall : ℕ) (base : Commands F) (c : Cycle F)
      (o : RailwayDispatchService F × TrainBatchUpdateResult)
      → Outcome p now wall base c o
      → IsSound F o.0
  Outcome-IsSound p now wall base c o (inl (off, shown)) = shown.cycle.sound
  Outcome-IsSound p now wall base c o (inr (inl (on, (error, e, ok_, healthy, shown)))) =
      shown.cycle.sound
  Outcome-IsSound p now wall base c o (inr (inr (on, (error, e, back)))) = back.sound

  module _ (distance : LineRoute F → CorridorTraversal F → TrainTelemetry F → Option F.Double) where
    -- The state in which a batch finds the commands: told of the trains, rid of the stale ones.
    abbrev pub before_cycle :
        RailwayDispatchService F → List (TrainTelemetry F) → ℕ → RailwayDispatchService F
    before_cycle s batch wall =
        cleanup_stale F
          (record s {
            last_train_snapshot_wall_ms = wall;
            train_monitor = (upsert_batch F s.train_monitor batch).0;
          })
          wall

    refreshed-IsSound :
        (s : RailwayDispatchService F) (now wall : ℕ)
        → IsSound F s
        → IsSound F (refreshed F distance s now wall)
    unfolding refreshed
    refreshed-IsSound s now wall v =
        let seen = Monitor.snapshot F s.train_monitor in
        let rolling = plan F s.config.rolling_planner now distance seen s.topology in
        let built =
          build F distance s.config.candidate_builder s.waiting seen s.topology (some rolling) in
        replace_all-Sound F built.1 wall s.topology.analysis.shared_corridors s.commands_by_train
          s.dispatch_manager v

    refreshed-commands :
        (s : RailwayDispatchService F) (now wall : ℕ)
        → (refreshed F distance s now wall).commands_by_train ≡ s.commands_by_train
    unfolding refreshed
    refreshed-commands s now wall = refl

    -- From a sound state, a batch of telemetry is answered without an exception, and the cycle
    -- that `refresh` decides, after the stale trains are dropped, is what the answer is about.
    -- Without a data layer, or where the data layer answers to this very cycle that it is stored,
    -- the cycle is shown as it was decided: each of its commands is the command of its train,
    -- which had none before, every command from before stays and no other is shown, and the count
    -- is that of the commands; with the data layer, the result and the health check say that it is
    -- well. Where it answers that it refuses the cycle, no command is counted, every train's
    -- command is what it was before the cycle, each direction that was to be released waits for no
    -- command, the result tells the error, and the health check says that the data layer is not
    -- well. The state is sound in every case.
    pub update_trains_lem :
        (p : DispatchPersistence F) (s : RailwayDispatchService F) (batch : List (TrainTelemetry F))
        (now wall : ℕ)
        → IsSound F s
        → (o : RailwayDispatchService F × TrainBatchUpdateResult) × (update_trains F distance p s
              batch now wall
            ≡ some o)
          × ((c : Cycle F) × (refresh F distance (before_cycle s batch wall) now wall ≡ some c)
              × Outcome p now wall (before_cycle s batch wall).commands_by_train c o)
    unfolding update_trains refresh
    update_trains_lem p s batch now wall v =
        let ready = refreshed F distance (before_cycle s batch wall) now wall in
        let v' =
          refreshed-IsSound (before_cycle s batch wall) now wall
            (cleanup_stale-IsSound F _ wall v) in
        let (c, e, w) =
          decide_all-IsCycle F now wall ready.topology.analysis.shared_corridors
            ready.commands_by_train (ready, []) (begin-IsCycle F ready v') in
        let base = refreshed-commands (before_cycle s batch wall) now wall in
        let w' = subst (λ b. IsCycle F b c) base w in
        (
          store_cycle F p now wall (upsert_batch F s.train_monitor batch).1 c,
          rw (update_trains, refresh, e) refl,
          (
            c,
            rw (refresh, e) refl,
            store_cycle_lem p now wall (upsert_batch F s.train_monitor batch).1
                (before_cycle s batch wall).commands_by_train c.0 c.1 w',
          ),
        )
