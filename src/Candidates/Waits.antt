-- ===== src/Candidates/Waits.antt =====
-- Since when each candidate of server/src/DispatchCandidateBuilder.cpp has waited, and which waits
-- are remembered.
use mathlib.Core.List.Memᴰ
use mathlib.Core.List.{Memᴰ}
use text.Mathlib.TextPositions.{starts_with-append}
use multi_agent_route_planni.Base.{
  ℕ, ◌≤◌, String, concat, ◌≡◌, ◌≢◌, refl, sym, ap, ◌∙◌, subst, inl, inr, false, not, Option, none,
  some, List, [], ◌∷◌, arith, ◌==◌, nat_eq, string_eq, Bool-cases, Option-cases, All, contains,
  lookup, lookup-insert, value_or, starts_with, lookup-erase_if-none, lookup-erase_if-some, IsMap,
}
use multi_agent_route_planni.Base.Floats.{Floats}
use multi_agent_route_planni.Analysis.{LineRoute}
use multi_agent_route_planni.Dispatch.{DispatchCandidate}
use multi_agent_route_planni.Monitor.{TrainTelemetry, MonitoredTrain, TrainDispatchPhase}
use multi_agent_route_planni.Topology.{CorridorTraversal, LineTopologyRegistry}
use multi_agent_route_planni.Approach.{composite_key}
use multi_agent_route_planni.Planner.{RollingPlanResult}
use multi_agent_route_planni.Candidates.{
  DispatchCandidateBuilderConfig, Building, Waiting, WaitingRecord, arrive, resource_of, key_of,
  planned_for, waits_since, candidate, offer, visit, visit_all, begin, build, forget_train,
}
use multi_agent_route_planni.Candidates.Phases.{standing, intersections, put, visit_lem}
use multi_agent_route_planni.Candidates.Offers.{rivals, offered, rivals-visit}
use multi_agent_route_planni.Candidates.Active.{Waits, active-Waits, active_sound, visit_all-IsMap}

-- Whatever comes after it, a wait that has begun goes on, unless the game's time goes back.
arrive-keeps :
    (now wall : ℕ) (w : WaitingRecord)
    → w.arrived_at_simulation_ms ≢ 0
    → w.arrived_at_simulation_ms ≤ now
    → (arrive now wall w).arrived_at_simulation_ms ≡ w.arrived_at_simulation_ms
unfolding arrive
arrive-keeps now wall w n h = ground arith

-- Forgetting a train leaves no wait of it, and every wait whose key does not begin with its name.
pub forget_train_lem :
    (waiting : Waiting) (train_id : String)
    → IsMap waiting
    → ((resource : String)
        → lookup (composite_key train_id resource) (forget_train waiting train_id) ≡ none)
      × ((key : String)
          → starts_with key (concat train_id "\n") ≡ false
          → lookup key (forget_train waiting train_id) ≡ lookup key waiting)
unfolding forget_train
forget_train_lem waiting train_id keys = (
  λ resource. elim (Option-cases (lookup (composite_key train_id resource) waiting)) [
    | inl e ↦ lookup-erase_if-none _ _ waiting e
    | inr (w, e) ↦
        lookup-erase_if-some (λ key w. starts_with key (concat train_id "\n")) _ w waiting keys e
        ∙ rw (starts_with-append (concat train_id "\n") resource) refl
  ],
  λ key other. elim (Option-cases (lookup key waiting)) [
    | inl e ↦ lookup-erase_if-none _ key waiting e ∙ sym e
    | inr (w, e) ↦
        lookup-erase_if-some (λ key w. starts_with key (concat train_id "\n")) key w waiting keys e
        ∙ rw other (sym e)
  ],
)

module _ (F : Floats)
    (distance : LineRoute F → CorridorTraversal F → TrainTelemetry F → Option F.Double)
    (config : DispatchCandidateBuilderConfig F) (topology : LineTopologyRegistry F)
    (plan : Option (RollingPlanResult F)) where
  -- The wait of a key has begun at a time, and the batch says no earlier one.
  abbrev pub HasBegun : String → ℕ → Waiting → Type 0
  HasBegun key since waiting =
      (w : WaitingRecord) × (lookup key waiting ≡ some w) × (w.arrived_at_simulation_ms ≡ since)

  abbrev pub IsLater : ℕ → MonitoredTrain F → Type 0
  IsLater since m = since ≤ m.telemetry.simulation_time_ms

  waits_since-HasBegun :
      (waiting : Waiting) (t : CorridorTraversal F) (train : TrainTelemetry F) (key : String)
      (since : ℕ)
      → since ≢ 0
      → since ≤ train.simulation_time_ms
      → key_of F t train ≡ key
      → HasBegun key since waiting
      → (waits_since F waiting t train).arrived_at_simulation_ms ≡ since
  unfolding value_or
  waits_since-HasBegun waiting t train key since n h same (w, e, f) =
      let e' : lookup (key_of F t train) waiting ≡ some w =
        subst (λ k. lookup k waiting ≡ some w) (sym same) e in
      rw (waits_since, value_or, e')
        (arrive-keeps train.simulation_time_ms train.received_at_wall_ms w (ground arith)
            (omega arith)
          ∙ f)

  put-HasBegun :
      (train : TrainTelemetry F) (st : TrainDispatchPhase × Option (CorridorTraversal F))
      (b : Building F) (key : String) (since : ℕ)
      → since ≢ 0
      → since ≤ train.simulation_time_ms
      → HasBegun key since b.waiting
      → HasBegun key since (put F distance config topology plan train st b).waiting
  unfolding offer
  put-HasBegun train (phase, none) b key since n h begun = begun
  put-HasBegun train (phase, some t) b key since n h begun =
      elim (Bool-cases (key_of F t train == key)) [
        | inl here ↦
            let same = (string_eq.beq_iff (key_of F t train) key).0 here in
            (
              waits_since F b.waiting t train,
              ground (
                arith,
                here,
                lookup-insert (key_of F t train) key (waits_since F b.waiting t train) b.waiting,
              ),
              waits_since-HasBegun b.waiting t train key since n h same begun,
            )
        | inr other ↦
            let (w, e, f) = begun in
            (
              w,
              ground (
                arith,
                e,
                other,
                lookup-insert (key_of F t train) key (waits_since F b.waiting t train) b.waiting,
              ),
              f,
            )
      ]

  visit-HasBegun :
      (m : MonitoredTrain F) (b : Building F) (key : String) (since : ℕ)
      → since ≢ 0
      → IsLater since m
      → HasBegun key since b.waiting
      → HasBegun key since (visit F distance config plan topology m b).waiting
  visit-HasBegun m b key since n h begun =
      subst (λ (x : Building F). HasBegun key since x.waiting)
        (sym (visit_lem F distance config topology plan m b))
        (put-HasBegun m.telemetry (standing F distance config topology m) b key since n h begun)

  -- Every candidate of the key has waited since then.
  abbrev pub AllSince : String → ℕ → Building F → Type 0
  AllSince key since b =
      (id : String) (c : DispatchCandidate F)
      → Memᴰ c (rivals F distance config topology plan b id)
      → composite_key c.train_id c.corridor_resource_id ≡ key
      → c.arrived_at_simulation_ms ≡ since

  candidate-fields :
      (t : CorridorTraversal F) (train : TrainTelemetry F) (arrived : ℕ)
      → (composite_key
            (candidate F plan
              (intersections F distance config topology plan train)
              t
              train
              arrived).train_id
            (candidate F plan
              (intersections F distance config topology plan train)
              t
              train
              arrived).corridor_resource_id
          ≡ key_of F t train)
        × ((candidate F plan
              (intersections F distance config topology plan train)
              t
              train
              arrived).arrived_at_simulation_ms
            ≡ arrived)
  unfolding candidate
  candidate-fields t train arrived =
      elim (Option-cases (planned_for F plan train.train_id (resource_of F t train))) [
        | inl e ↦ rw e (refl, refl)
        | inr (p, e) ↦ rw e (refl, refl)
      ]

  offered-since :
      (m : MonitoredTrain F) (o : Option (CorridorTraversal F)) (b : Building F) (key : String)
      (since : ℕ) (id : String) (c : DispatchCandidate F)
      → since ≢ 0
      → IsLater since m
      → HasBegun key since b.waiting
      → Memᴰ c (offered F distance config topology plan m.telemetry o b id)
      → composite_key c.train_id c.corridor_resource_id ≡ key
      → c.arrived_at_simulation_ms ≡ since
  offered-since m none b key since id c n h begun k same = elim k [ ]
  offered-since m (some t) b key since id c n h begun k same =
      let arrived = (waits_since F b.waiting t m.telemetry).arrived_at_simulation_ms in
      let (f, g) = candidate-fields t m.telemetry arrived in
      elim (Bool-cases (resource_of F t m.telemetry == id)) [
        | inl here ↦
            let k' : Memᴰ c (
                candidate F plan (intersections F distance config topology plan m.telemetry) t
                  m.telemetry arrived
                ∷ []) =
              rw here at k in
            elim k' [
              | Memᴰ.head e ↦
                  ap (λ (x : DispatchCandidate F). x.arrived_at_simulation_ms) e
                  ∙ g
                  ∙ waits_since-HasBegun b.waiting t m.telemetry key since n h
                      (sym f
                        ∙ ap
                            (λ (x : DispatchCandidate F).
                              composite_key x.train_id x.corridor_resource_id)
                            (sym e)
                        ∙ same)
                      begun
              | Memᴰ.tail k'' ↦ elim k'' [ ]
            ]
        | inr other ↦ let k' : Memᴰ c [] = rw other at k in elim k' [ ]
      ]

  visit_all-AllSince :
      (ms : List (MonitoredTrain F)) (b : Building F) (key : String) (since : ℕ)
      → since ≢ 0
      → All (IsLater since) ms
      → HasBegun key since b.waiting
      → AllSince key since b
      → AllSince key since (visit_all F distance config plan topology ms b)
        × HasBegun key since (visit_all F distance config plan topology ms b).waiting
  unfolding visit_all
  visit_all-AllSince [] b key since n h begun old = (old, begun)
  visit_all-AllSince (m ∷ ms) b key since n h begun old =
      visit_all-AllSince ms (visit F distance config plan topology m b) key since n h.1
        (visit-HasBegun m b key since n h.0 begun)
        (λ id c k same.
          elim (Memᴰ.append_cases (rivals F distance config topology plan b id)
            (subst (λ xs. Memᴰ c xs) (rivals-visit F distance config topology plan m b id) k)) [
              | inl before ↦ old id c before same
              | inr new ↦
                  offered-since m (standing F distance config topology m).1 b key since id c n h.0
                    begun new same
            ])

  -- A wait that began at a time other than 0, which no packet of the batch precedes, goes on: the
  -- candidates under its key wait since then; the record is kept if some train of the batch stands
  -- before the corridor under that key, and is dropped if none does. The table holds a key once.
  pub build-Waits :
      (waiting : Waiting) (trains : List (MonitoredTrain F)) (key : String) (since : ℕ)
      → since ≢ 0
      → IsMap waiting
      → HasBegun key since waiting
      → All (IsLater since) trains
      → ((id : String) (c : DispatchCandidate F)
          → Memᴰ c (
              value_or [] id
                ((build F distance config waiting trains topology plan).1.candidates_by_resource))
          → composite_key c.train_id c.corridor_resource_id ≡ key
          → c.arrived_at_simulation_ms ≡ since)
        × (Waits F distance config topology plan key trains
            → HasBegun key since (build F distance config waiting trains topology plan).0)
        × (¬ Waits F distance config topology plan key trains
            → lookup key (build F distance config waiting trains topology plan).0 ≡ none)
  unfolding build lookup value_or contains
  build-Waits waiting trains key since n keys begun later =
      let b = visit_all F distance config plan topology trains (begin F distance config waiting) in
      let (all_since, (w, found, same)) =
        visit_all-AllSince trains (begin F distance config waiting) key since n later begun
          (λ id c k e. elim k [ ]) in
      let left =
        lookup-erase_if-some (λ k v. not (contains b.active k)) key w b.waiting
          (visit_all-IsMap F distance config topology plan trains (begin F distance config waiting)
            keys)
          found in
      (
        all_since,
        λ waits.
            let on =
              active-Waits F distance config topology plan trains (begin F distance config waiting)
                key waits in
            (w, left ∙ rw on refl, same),
        λ gone. elim (Bool-cases (contains b.active key)) [
          | inr off ↦ left ∙ rw off refl
          | inl on ↦
              elim (active_sound F distance config topology plan trains
                (begin F distance config waiting) key on) [
                  | inl h ↦ absurd (ground (arith, h))
                  | inr waits ↦ absurd (gone waits)
                ]
        ],
      )
