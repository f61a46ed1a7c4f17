-- ===== src/Service/Uploads.antt =====
-- An upload of routes, before `replaceRoutes` of server/src/RailwayDispatchService.cpp.
use multi_agent_route_planni.Base.{
  Bool, false, ℕ, String, ◌≡◌, refl, sym, ap, ◌∙◌, subst, ◌⊎◌, inl, inr, true, not, ◌&&◌, ◌||◌,
  none, some, List, [], ◌∷◌, arith, ◌==◌, nat_eq, string_eq, some-eq, Result, ok, fail,
  Result-cases, Bool-cases, lookup,
}
use multi_agent_route_planni.Base.Floats.{Floats}
use multi_agent_route_planni.Analysis.{LineRoute, LineTopologyAnalysis}
use multi_agent_route_planni.Manager.{DispatchManager, manager}
use multi_agent_route_planni.Manager.Matching.{Pending}
use multi_agent_route_planni.Topology as Topology
use multi_agent_route_planni.Topology.{LineTopologyRegistry, LineTopologySnapshot}
use multi_agent_route_planni.Service.{
  Answer, stored, refused, DispatchPersistence, RailwayDispatchService, RouteUploadResult,
  with_health,
}
use multi_agent_route_planni.Service.Same.{same_routes}
use multi_agent_route_planni.Service.Rebuilding.{rebuild}
use multi_agent_route_planni.Service.Uploading.{
  is_nil, counts, store_topology, with_topology, replace_routes,
}
use multi_agent_route_planni.Service.Backing.{IsSound, Backed}
use multi_agent_route_planni.Service.Idle.{IsIdle, IsIdle-IsSafe, rebuild-IsIdle, manager-rebuild}

module _ (F : Floats) (analyze : List (LineRoute F) → LineTopologyAnalysis F) where
  -- Nothing of the state changes.
  abbrev pub IsKept :
      RailwayDispatchService F → RailwayDispatchService F × Result RouteUploadResult → Type 0
  IsKept s o = o.0 ≡ s

  -- The registry has a topology, and the routes are those of it.
  abbrev pub is_known : RailwayDispatchService F → List (LineRoute F) → Bool
  is_known s routes =
      let current = Topology.snapshot F s.topology in
      not (current.revision == 0) && same_routes F current.routes routes

  -- Some command waits, or some train is under way.
  abbrev pub is_busy : RailwayDispatchService F → Bool
  is_busy s = not (is_nil s.commands_by_train) || not (is_nil s.active_by_train)

  -- Why nothing changes: the routes are known, or the service is busy, or the registry refuses them.
  abbrev pub IsLeft :
      RailwayDispatchService F
      → List (LineRoute F)
      → RailwayDispatchService F × Result RouteUploadResult
      → Type 0
  IsLeft s routes o =
      IsKept s o
      × (((is_known s routes ≡ true) × (o.1 ≡ ok (counts F (Topology.snapshot F s.topology))))
          ⊎ (((is_busy s ≡ true) × (o.1 ≡ fail "topology_change_blocked_by_active_commands"))
              ⊎ ((reason : String) × ((Topology.replace_routes F analyze s.topology routes).1
                    ≡ fail reason)
                  × (o.1 ≡ fail reason))))

  -- The new topology is taken: no command waited, no train was under way, and none is after.
  pub record IsReplaced (s : RailwayDispatchService F) (routes : List (LineRoute F))
      (o : RailwayDispatchService F × Result RouteUploadResult) : Type 0 where
    pub new : is_known s routes ≡ false
    pub no_commands : s.commands_by_train ≡ []
    pub no_passages : s.active_by_train ≡ []
    pub topology : o.0.topology ≡ (Topology.replace_routes F analyze s.topology routes).0
    pub accepted : (Topology.replace_routes F analyze s.topology routes).1 ≡ ok tt
    pub commands : o.0.commands_by_train ≡ []
    pub passages : o.0.active_by_train ≡ []
    pub idle : IsIdle F o.0.dispatch_manager
    pub result : (r : RouteUploadResult) × (o.1 ≡ ok r)

  is_nil-true {ℓ} : {A : Type ℓ} (xs : List A) → is_nil xs ≡ true → xs ≡ []
  is_nil-true [] h = refl
  is_nil-true (x ∷ xs) h = absurd (ground arith)

  replace_routes-refused :
      (t : LineTopologyRegistry F) (routes : List (LineRoute F)) (reason : String)
      → (Topology.replace_routes F analyze t routes).1 ≡ fail reason
      → (Topology.replace_routes F analyze t routes).0 ≡ t
  unfolding Topology.replace_routes
  replace_routes-refused t routes reason e =
      elim (Result-cases (Topology.collect_routes F routes [])) [
        | inl (m, f) ↦ absurd (ground (arith, e, f))
        | inr (why, f) ↦ rw (Topology.replace_routes, f) refl
      ]

  -- Storing the topology changes only what is known of the data layer.
  abbrev AreKept : RailwayDispatchService F → RailwayDispatchService F → Type 0
  AreKept s x =
      (x.topology ≡ s.topology)
      × (x.commands_by_train ≡ s.commands_by_train)
      × (x.active_by_train ≡ s.active_by_train)
      × (x.dispatch_manager ≡ s.dispatch_manager)

  with_health-AreKept : (s : RailwayDispatchService F) (a : Answer) → AreKept s (with_health F s a)
  with_health-AreKept s (stored error) = (refl, refl, refl, refl)
  with_health-AreKept s (refused error) = (refl, refl, refl, refl)

  store_topology-AreKept :
      (p : DispatchPersistence F) (wall : ℕ) (s : RailwayDispatchService F)
      → AreKept s (store_topology F p wall s).0
  unfolding store_topology
  store_topology-AreKept p wall s =
      let answer = p.persist_topology (Topology.snapshot F s.topology) wall in
      elim (Bool-cases s.persistence_enabled) [
        | inr off ↦ simp (off, store_topology) (refl, refl, refl, refl)
        | inl on ↦ simp (on, store_topology) (with_health-AreKept s answer)
      ]

  -- Where the service's configuration is one that the dispatch manager accepts, an upload of
  -- routes is answered without an exception. Either nothing of the state changes, and the answer
  -- says why: the routes are those that the registry has, or a command waits or a train is under
  -- way, or the registry refuses them, with its reason. Or the routes are new and the topology
  -- becomes what the registry makes of them: then no command waited and no train was under way,
  -- and afterwards the manager has no command, no occupied direction and no reservation.
  pub replace_routes_answers :
      (p : DispatchPersistence F) (s : RailwayDispatchService F) (routes : List (LineRoute F))
      (wall : ℕ) {m : DispatchManager F}
      → manager F s.config.dispatch ≡ ok m
      → (o : RailwayDispatchService F × Result RouteUploadResult) × (replace_routes F analyze p s
            routes wall
          ≡ some o)
        × (IsLeft s routes o ⊎ IsReplaced s routes o)
  unfolding replace_routes
  replace_routes_answers p s routes wall {m} e =
      let t = Topology.replace_routes F analyze s.topology routes in
      elim (Bool-cases (is_known s routes)) [
        | inl known ↦ (
          (s, ok (counts F (Topology.snapshot F s.topology))),
          simp (replace_routes, known) refl,
          inl (refl, inl (known, refl)),
        )
        | inr new ↦ elim (Bool-cases (is_busy s)) [
          | inl closed ↦ (
            (s, fail "topology_change_blocked_by_active_commands"),
            simp (replace_routes, new, closed) refl,
            inl (refl, inr (inl (closed, refl))),
          )
          | inr open_ ↦ elim (Result-cases t.1) [
            | inr (reason, f) ↦ (
              (record s { topology = t.0 }, fail reason),
              simp (replace_routes, new, open_, f) refl,
              inl (
                ap (λ (x : LineTopologyRegistry F). record s { topology = x })
                    (replace_routes-refused s.topology routes reason f),
                inr (inr (reason, f, refl)),
              ),
            )
            | inl (_, f) ↦
                let (n, g) = manager-rebuild F s.config.dispatch (Topology.snapshot F t.0) wall e in
                let built = record (with_topology F s t.0) { dispatch_manager = n } in
                let out = store_topology F p wall built in
                (
                  (out.0, ok out.1),
                  simp (replace_routes, new, open_, f, g) refl,
                  inr (
                      let (kept_topology, kept_commands, kept_passages, kept_manager) =
                        store_topology-AreKept p wall built in
                      record {
                        new = new;
                        no_commands = is_nil-true s.commands_by_train (ground arith);
                        no_passages = is_nil-true s.active_by_train (ground arith);
                        topology = kept_topology;
                        accepted = f;
                        commands = kept_commands;
                        passages = kept_passages;
                        idle =
                            subst (IsIdle F) (sym kept_manager)
                              (rebuild-IsIdle F s.config.dispatch (Topology.snapshot F t.0) wall g);
                        result = (out.1, refl);
                      }),
                )
          ]
        ]
      ]

  no_commands-Backed : (ps : Pending F) → Backed F [] ps
  unfolding lookup
  no_commands-Backed ps t d e = absurd (ground (arith, e))

  pub replace_routes-IsSound :
      (s : RailwayDispatchService F) (routes : List (LineRoute F))
      (o : RailwayDispatchService F × Result RouteUploadResult)
      → IsKept s o ⊎ IsReplaced s routes o
      → IsSound F s
      → IsSound F o.0
  replace_routes-IsSound s routes o (inl same) v = subst (IsSound F) (sym same) v
  replace_routes-IsSound s routes o (inr r) v = record {
    safe = IsIdle-IsSafe F o.0.dispatch_manager r.idle;
    named = r.idle.named;
    keys = rw r.commands tt;
    backed = rw r.commands (no_commands-Backed o.0.dispatch_manager.pending_decisions);
  }

  first-is :
      (s : RailwayDispatchService F) (o : RailwayDispatchService F × Result RouteUploadResult)
      (r : Result RouteUploadResult)
      → some (s, r) ≡ some o
      → o.0 ≡ s
  first-is s o r e = ap (λ x. x.0) (sym (some-eq e))

  replace_routes-unbuilt :
      (p : DispatchPersistence F) (s : RailwayDispatchService F) (routes : List (LineRoute F))
      (wall : ℕ) (o : RailwayDispatchService F × Result RouteUploadResult) (why : String)
      → manager F s.config.dispatch ≡ fail why
      → replace_routes F analyze p s routes wall ≡ some o
      → IsKept s o
  unfolding replace_routes rebuild
  replace_routes-unbuilt p s routes wall o why e h =
      let current = Topology.snapshot F s.topology in
      let t = Topology.replace_routes F analyze s.topology routes in
      let blocked = not (is_nil s.commands_by_train) || not (is_nil s.active_by_train) in
      elim (Bool-cases (not (current.revision == 0) && same_routes F current.routes routes)) [
        | inl known ↦
            first-is s o (ok (counts F current)) (sym (simp (replace_routes, known) refl) ∙ h)
        | inr new ↦ elim (Bool-cases blocked) [
          | inl closed ↦
              first-is s o (fail "topology_change_blocked_by_active_commands")
                (sym (simp (replace_routes, new, closed) refl) ∙ h)
          | inr open_ ↦ elim (Result-cases t.1) [
            | inr (reason, f) ↦
                first-is (record s { topology = t.0 }) o (fail reason)
                  (sym (simp (replace_routes, new, open_, f) refl) ∙ h)
                ∙ ap (λ (x : LineTopologyRegistry F). record s { topology = x })
                    (replace_routes-refused s.topology routes reason f)
            | inl (_, f) ↦
                let failed : rebuild F s.config.dispatch (Topology.snapshot F t.0) wall ≡ fail why =
                  rw (e, rebuild) refl in
                let bad : none ≡ some o =
                  sym (simp (replace_routes, new, open_, f, failed) refl) ∙ h in
                absurd (ground (arith, bad))
          ]
        ]
      ]

  -- Whatever is uploaded, if an answer comes, it is one of these.
  pub replace_routes_cases :
      (p : DispatchPersistence F) (s : RailwayDispatchService F) (routes : List (LineRoute F))
      (wall : ℕ) (o : RailwayDispatchService F × Result RouteUploadResult)
      → replace_routes F analyze p s routes wall ≡ some o
      → IsKept s o ⊎ IsReplaced s routes o
  replace_routes_cases p s routes wall o h = elim (Result-cases (manager F s.config.dispatch)) [
    | inr (why, e) ↦ inl (replace_routes-unbuilt p s routes wall o why e h)
    | inl (m, e) ↦
        let (o', f, w) = replace_routes_answers p s routes wall e in
        subst (λ x. IsKept s x ⊎ IsReplaced s routes x) (some-eq (sym f ∙ h))
          (elim w [ inl left ↦ inl left.0 | inr new ↦ inr new ])
  ]
