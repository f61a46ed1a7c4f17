-- ===== src/Candidates/Active.antt =====
-- Which waits server/src/DispatchCandidateBuilder.cpp remembers after a batch.
use mathlib.Core.List.{Memᴰ}
use multi_agent_route_planni.Base.{
  String, ◌≡◌, ◌≢◌, refl, sym, ap, ◌∙◌, subst, ◌⊎◌, inl, inr, true, Option, none, some, List, [],
  ◌∷◌, arith, ◌==◌, nat_eq, string_eq, Bool-cases, some-eq, contains, IsMap, insert-IsMap,
}
use multi_agent_route_planni.Base.Floats.{Floats}
use multi_agent_route_planni.Analysis.{LineRoute}
use multi_agent_route_planni.Monitor.{TrainTelemetry, MonitoredTrain, TrainDispatchPhase}
use multi_agent_route_planni.Topology.{CorridorTraversal, LineTopologyRegistry}
use multi_agent_route_planni.Planner.{RollingPlanResult}
use multi_agent_route_planni.Candidates.{
  DispatchCandidateBuilderConfig, Building, key_of, waits_since, offer, visit, visit_all,
}
use multi_agent_route_planni.Candidates.Phases.{standing, put, visit_lem}

module _ (F : Floats)
    (distance : LineRoute F → CorridorTraversal F → TrainTelemetry F → Option F.Double)
    (config : DispatchCandidateBuilderConfig F) (topology : LineTopologyRegistry F)
    (plan : Option (RollingPlanResult F)) where
  -- Some train of the batch stands before a corridor under the key.
  abbrev pub Waits : String → List (MonitoredTrain F) → Type 0
  Waits key trains =
      (m : MonitoredTrain F) × Memᴰ m trains
      × (t : CorridorTraversal F) × ((standing F distance config topology m).1 ≡ some t)
      × (key_of F t m.telemetry ≡ key)

  put-active :
      (train : TrainTelemetry F) (st : TrainDispatchPhase × Option (CorridorTraversal F))
      (b : Building F) (key : String)
      → ((contains (put F distance config topology plan train st b).active key
            ≡ contains b.active key)
          × ((t : CorridorTraversal F) → st.1 ≡ some t → key_of F t train ≢ key))
        ⊎ ((contains (put F distance config topology plan train st b).active key ≡ true)
            × ((t : CorridorTraversal F) × (st.1 ≡ some t) × (key_of F t train ≡ key)))
  unfolding offer contains
  put-active train (phase, none) b key = inl (refl, λ t e. absurd (ground (arith, e)))
  put-active train (phase, some t) b key = elim (Bool-cases (key_of F t train == key)) [
    | inl here ↦ inr (rw here refl, (t, refl, (string_eq.beq_iff (key_of F t train) key).0 here))
    | inr other ↦ inl (
      rw other refl,
      λ u e same.
          let same' : key_of F t train ≡ key = ap (λ v. key_of F v train) (some-eq e) ∙ same in
          absurd (ground (arith, (string_eq.beq_iff (key_of F t train) key).1 same')),
    )
  ]

  visit-active :
      (m : MonitoredTrain F) (b : Building F) (key : String)
      → ((contains (visit F distance config plan topology m b).active key ≡ contains b.active key)
          × ((t : CorridorTraversal F)
              → (standing F distance config topology m).1 ≡ some t
              → key_of F t m.telemetry ≢ key))
        ⊎ ((contains (visit F distance config plan topology m b).active key ≡ true)
            × ((t : CorridorTraversal F) × ((standing F distance config topology m).1 ≡ some t)
                × (key_of F t m.telemetry ≡ key)))
  visit-active m b key =
      rw (visit_lem F distance config topology plan m b)
        (put-active m.telemetry (standing F distance config topology m) b key)

  active-grows :
      (ms : List (MonitoredTrain F)) (b : Building F) (key : String)
      → contains b.active key ≡ true
      → contains (visit_all F distance config plan topology ms b).active key ≡ true
  unfolding visit_all
  active-grows [] b key h = h
  active-grows (m ∷ ms) b key h =
      active-grows ms (visit F distance config plan topology m b) key
        (elim (visit-active m b key) [ inl (e, _) ↦ e ∙ h | inr (e, _) ↦ e ])

  pub active-Waits :
      (ms : List (MonitoredTrain F)) (b : Building F) (key : String)
      → Waits key ms
      → contains (visit_all F distance config plan topology ms b).active key ≡ true
  unfolding visit_all
  active-Waits [] b key (m, k, t, e, f) = elim k [ ]
  active-Waits (n ∷ ms) b key (m, k, t, e, f) = elim k [
    | Memᴰ.tail k' ↦
        active-Waits ms (visit F distance config plan topology n b) key (m, k', t, e, f)
    | Memᴰ.head same ↦
        active-grows ms (visit F distance config plan topology n b) key
          (elim (visit-active n b key) [
            | inr (g, _) ↦ g
            | inl (_, none_of) ↦ absurd (
                subst
                  (λ (x : MonitoredTrain F).
                    (u : CorridorTraversal F)
                    → (standing F distance config topology x).1 ≡ some u
                    → key_of F u x.telemetry ≢ key)
                  (sym same) none_of t e f)
          ])
  ]

  pub active_sound :
      (ms : List (MonitoredTrain F)) (b : Building F) (key : String)
      → contains (visit_all F distance config plan topology ms b).active key ≡ true
      → (contains b.active key ≡ true) ⊎ Waits key ms
  unfolding visit_all
  active_sound [] b key h = inl h
  active_sound (m ∷ ms) b key h =
      elim (active_sound ms (visit F distance config plan topology m b) key h) [
        | inr (n, k, t, e, f) ↦ inr (n, Memᴰ.tail k, t, e, f)
        | inl h' ↦ elim (visit-active m b key) [
          | inl (e, _) ↦ inl (sym e ∙ h')
          | inr (_, (t, e, f)) ↦ inr (m, Memᴰ.head refl, t, e, f)
        ]
      ]

  put-IsMap :
      (train : TrainTelemetry F) (st : TrainDispatchPhase × Option (CorridorTraversal F))
      (b : Building F)
      → IsMap b.waiting
      → IsMap (put F distance config topology plan train st b).waiting
  unfolding offer
  put-IsMap train (phase, none) b h = h
  put-IsMap train (phase, some t) b h =
      insert-IsMap (key_of F t train) (waits_since F b.waiting t train) b.waiting h

  pub visit_all-IsMap :
      (ms : List (MonitoredTrain F)) (b : Building F)
      → IsMap b.waiting
      → IsMap (visit_all F distance config plan topology ms b).waiting
  unfolding visit_all
  visit_all-IsMap [] b h = h
  visit_all-IsMap (m ∷ ms) b h = visit_all-IsMap ms (visit F distance config plan topology m b) (
      rw (visit_lem F distance config topology plan m b)
        (put-IsMap m.telemetry (standing F distance config topology m) b h))
