-- ===== src/Candidates/Offers.antt =====
-- Who competes after `build` of server/src/DispatchCandidateBuilder.cpp: each train that stands
-- before a corridor, and no other.
use mathlib.Core.List.Memᴰ
use mathlib.Core.List.{Memᴰ, append-nil}
use multi_agent_route_planni.Base.{
  ℕ, String, ◌≡◌, refl, sym, ap, ◌∙◌, subst, ◌⊎◌, inl, inr, Option, none, some, List, [], ◌∷◌, ◌++◌,
  ◌==◌, string_eq, Bool-cases, lookup, value_or,
}
use multi_agent_route_planni.Base.Floats.{Floats}
use multi_agent_route_planni.Analysis.{LineRoute}
use multi_agent_route_planni.Dispatch.{DispatchCandidate}
use multi_agent_route_planni.Monitor.{TrainTelemetry, MonitoredTrain, TrainDispatchPhase}
use multi_agent_route_planni.Topology.{CorridorTraversal, LineTopologyRegistry}
use multi_agent_route_planni.Topology.Index.{only, value_or-push_back}
use multi_agent_route_planni.Planner.{RollingPlanResult}
use multi_agent_route_planni.Candidates.{
  DispatchCandidateBuilderConfig, Building, Waiting, resource_of, waits_since, candidate, offer,
  visit, visit_all, begin, build,
}
use multi_agent_route_planni.Candidates.Phases.{standing, intersections, put, visit_lem}

module _ (F : Floats)
    (distance : LineRoute F → CorridorTraversal F → TrainTelemetry F → Option F.Double)
    (config : DispatchCandidateBuilderConfig F) (topology : LineTopologyRegistry F)
    (plan : Option (RollingPlanResult F)) where
  abbrev pub rivals : Building F → String → List (DispatchCandidate F)
  rivals b id = value_or [] id b.result.candidates_by_resource

  abbrev pub rival : MonitoredTrain F → CorridorTraversal F → ℕ → DispatchCandidate F
  rival m t arrived =
      candidate F plan (intersections F distance config topology plan m.telemetry) t m.telemetry
        arrived

  abbrev pub all_visited : Waiting → List (MonitoredTrain F) → Building F
  all_visited waiting trains =
      visit_all F distance config plan topology trains (begin F distance config waiting)

  -- The train stands before the corridor, and is the candidate from a time on.
  abbrev pub IsRival :
      MonitoredTrain F → CorridorTraversal F → String → DispatchCandidate F → Type 0
  IsRival m t id c =
      ((standing F distance config topology m).1 ≡ some t)
      × (resource_of F t m.telemetry ≡ id)
      × ((arrived : ℕ) × (c
            ≡ candidate F plan (intersections F distance config topology plan m.telemetry) t
                m.telemetry arrived))

  -- What one train adds to the rivals for a direction.
  abbrev pub offered :
      TrainTelemetry F
      → Option (CorridorTraversal F)
      → Building F
      → String
      → List (DispatchCandidate F)
  offered train none b id = []
  offered train (some t) b id = only (resource_of F t train == id) (
      candidate F plan (intersections F distance config topology plan train) t train
        (waits_since F b.waiting t train).arrived_at_simulation_ms)

  rivals-put :
      (train : TrainTelemetry F) (st : TrainDispatchPhase × Option (CorridorTraversal F))
      (b : Building F) (id : String)
      → rivals (put F distance config topology plan train st b) id
        ≡ rivals b id ++ offered train st.1 b id
  unfolding offer
  rivals-put train (phase, none) b id = sym (append-nil (rivals b id))
  rivals-put train (phase, some t) b id =
      value_or-push_back id (resource_of F t train) _ b.result.candidates_by_resource

  pub rivals-visit :
      (m : MonitoredTrain F) (b : Building F) (id : String)
      → rivals (visit F distance config plan topology m b) id
        ≡ rivals b id ++ offered m.telemetry (standing F distance config topology m).1 b id
  rivals-visit m b id =
      ap (λ x. rivals x id) (visit_lem F distance config topology plan m b)
      ∙ rivals-put m.telemetry (standing F distance config topology m) b id

  -- A rival is an old one, or the train that has just been visited.
  offered-IsRival :
      (m : MonitoredTrain F) (o : Option (CorridorTraversal F)) (b : Building F) (id : String)
      (c : DispatchCandidate F)
      → (standing F distance config topology m).1 ≡ o
      → Memᴰ c (offered m.telemetry o b id)
      → (t : CorridorTraversal F) × IsRival m t id c
  offered-IsRival m none b id c e h = elim h [ ]
  offered-IsRival m (some t) b id c e h = elim (Bool-cases (resource_of F t m.telemetry == id)) [
    | inl here ↦
        let h' : Memᴰ c (
            candidate F plan (intersections F distance config topology plan m.telemetry) t
              m.telemetry (waits_since F b.waiting t m.telemetry).arrived_at_simulation_ms
            ∷ []) =
          rw here at h in
        elim h' [
          | Memᴰ.head same ↦ (
            t,
            (
              e,
              (string_eq.beq_iff (resource_of F t m.telemetry) id).0 here,
              ((waits_since F b.waiting t m.telemetry).arrived_at_simulation_ms, same),
            ),
          )
          | Memᴰ.tail h'' ↦ elim h'' [ ]
        ]
    | inr other ↦ let h' : Memᴰ c [] = rw other at h in elim h' [ ]
  ]

  rivals_sound :
      (ms : List (MonitoredTrain F)) (b : Building F) (id : String) (c : DispatchCandidate F)
      → Memᴰ c (rivals (visit_all F distance config plan topology ms b) id)
      → Memᴰ c (rivals b id)
        ⊎ ((m : MonitoredTrain F) × Memᴰ m ms × (t : CorridorTraversal F) × IsRival m t id c)
  unfolding visit_all
  rivals_sound [] b id c h = inl h
  rivals_sound (n ∷ ms) b id c h =
      elim (rivals_sound ms (visit F distance config plan topology n b) id c h) [
        | inr (m, h', t, r) ↦ inr (m, Memᴰ.tail h', t, r)
        | inl h' ↦
            elim (Memᴰ.append_cases (rivals b id)
              (subst (λ xs. Memᴰ c xs) (rivals-visit n b id) h')) [
                | inl old ↦ inl old
                | inr new ↦
                    let (t, r) = offered-IsRival n _ b id c refl new in
                    inr (n, Memᴰ.head refl, t, r)
              ]
      ]

  rivals-grow :
      (ms : List (MonitoredTrain F)) (b : Building F) (id : String) (c : DispatchCandidate F)
      → Memᴰ c (rivals b id)
      → Memᴰ c (rivals (visit_all F distance config plan topology ms b) id)
  unfolding visit_all
  rivals-grow [] b id c h = h
  rivals-grow (n ∷ ms) b id c h =
      rivals-grow ms (visit F distance config plan topology n b) id c
        (subst (λ xs. Memᴰ c xs) (sym (rivals-visit n b id)) (Memᴰ.append_left _ h))

  rivals_complete :
      (ms : List (MonitoredTrain F)) (b : Building F) (m : MonitoredTrain F)
      (t : CorridorTraversal F)
      → Memᴰ m ms
      → (standing F distance config topology m).1 ≡ some t
      → (arrived : ℕ) × Memᴰ
          (candidate F plan
            (intersections F distance config topology plan m.telemetry)
            t
            m.telemetry
            arrived)
          (rivals (visit_all F distance config plan topology ms b) (resource_of F t m.telemetry))
  unfolding visit_all
  rivals_complete [] b m t h e = elim h [ ]
  rivals_complete (n ∷ ms) b m t h e = elim h [
    | Memᴰ.tail h' ↦ rivals_complete ms (visit F distance config plan topology n b) m t h' e
    | Memᴰ.head same ↦
        let id = resource_of F t m.telemetry in
        let since = (waits_since F b.waiting t m.telemetry).arrived_at_simulation_ms in
        let c =
          candidate F plan (intersections F distance config topology plan m.telemetry) t m.telemetry
            since in
        let new : Memᴰ c (offered m.telemetry (standing F distance config topology m).1 b id) =
          rw (e, (string_eq.beq_iff id id).1 refl) (Memᴰ.head refl) in
        let here : Memᴰ c (rivals (visit F distance config plan topology m b) id) =
          subst (λ xs. Memᴰ c xs) (sym (rivals-visit m b id))
            (Memᴰ.append_right (rivals b id) new) in
        (
          since,
          rivals-grow ms (visit F distance config plan topology n b) id c (
              subst
                (λ (x : MonitoredTrain F).
                  Memᴰ c (rivals (visit F distance config plan topology x b) id))
                same here),
        )
  ]

  -- A candidate competes for a direction only if some train of the batch stands before it, and is
  -- made of that train; and each train of the batch that stands before the direction has a
  -- candidate there. A train stands before a direction if no command or passage binds it and the
  -- nearest entrance ahead of it on its line is within the control distance.
  pub build_iff :
      (waiting : Waiting) (trains : List (MonitoredTrain F)) (id : String)
      → ((c : DispatchCandidate F)
          → Memᴰ c (
              value_or [] id
                (build F distance config waiting trains topology plan).1.candidates_by_resource)
          → (m : MonitoredTrain F) × Memᴰ m trains × (t : CorridorTraversal F) × IsRival m t id c)
        × ((m : MonitoredTrain F) (t : CorridorTraversal F)
            → Memᴰ m trains
            → (standing F distance config topology m).1 ≡ some t
            → resource_of F t m.telemetry ≡ id
            → (c : DispatchCandidate F) × Memᴰ c (
                value_or [] id
                  (build F distance config waiting trains topology plan).1.candidates_by_resource)
              × IsRival m t id c)
  unfolding build lookup value_or
  build_iff waiting trains id = (
    λ c h. elim (rivals_sound trains (begin F distance config waiting) id c h) [
      | inl h' ↦ elim h' [ ]
      | inr r ↦ r
    ],
    λ m t h e same.
        let (since, there) = rivals_complete trains (begin F distance config waiting) m t h e in
        let c = rival m t since in
        (
          c,
          subst (λ j. Memᴰ c (rivals (all_visited waiting trains) j)) same there,
          (e, same, (since, refl)),
        ),
  )
