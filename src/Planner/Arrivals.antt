-- ===== src/Planner/Arrivals.antt =====
-- `plan` of server/src/AffectedLinePlanner.cpp as a whole: what it predicts, and what the plan of
-- each direction says.
use multi_agent_route_planni.Base.{
  ℕ, ◌≤◌, ◌<◌, String, ◌≡◌, ◌≢◌, refl, sym, ap, subst, ◌⊎◌, inl, inr, true, Option, some, List, map,
  [], ◌∷◌, arith, ◌==◌, string_eq, get_elem?, sort_by, u64_max, Option-cases, Bool-cases, All,
  All-get_elem?, sort_by-All, All-append, Map, lookup, insert, IsMap, lookup-insert, insert-IsMap,
}
use multi_agent_route_planni.Base.Floats.{Floats}
use multi_agent_route_planni.Analysis.{LineRoute}
use multi_agent_route_planni.Monitor.{TrainTelemetry, MonitoredTrain}
use multi_agent_route_planni.Topology.{CorridorTraversal, LineTopologyRegistry, route}
use multi_agent_route_planni.Planner.{
  AffectedLinePlannerConfig, PlannedTrainArrival, CorridorRollingPlan, RollingPlanResult, Plans,
  arrival, push_arrival, arrives_before, distribute, trains_of, travel_ms,
}
use multi_agent_route_planni.Planner.Planning.{
  schedule, scheduled, listed_before, finish, index_arrivals, add_arrivals, predict, plan,
}
use multi_agent_route_planni.Planner.Times.{add_saturated-ge, add_saturated-le_max}
use multi_agent_route_planni.Planner.Spacing.{AreApart, IsTime}
use multi_agent_route_planni.Planner.Schedule.{unplanned, IsPlanned, rank_trains_lem}

module _ (F : Floats) (config : AffectedLinePlannerConfig F) (now : ℕ) where
  abbrev pub Times : List (PlannedTrainArrival F) → Type 0
  Times = All (IsTime F config now)

  distribute-Times :
      (seen : Map String (PlannedTrainArrival F)) (states : List (PlannedTrainArrival F))
      → Times states
      → Times (distribute F seen states)
  unfolding distribute
  distribute-Times seen [] h = tt
  distribute-Times seen (a ∷ rest) h = (h.0, distribute-Times (insert a.line_id a seen) rest h.1)

  -- The trains of one direction, ranked and apart.
  abbrev pub IsSchedule : List (PlannedTrainArrival F) → List (PlannedTrainArrival F) → Type 0
  IsSchedule arrivals states =
      (map (unplanned F config now) states
        ≡ map (unplanned F config now) (distribute F [] (sort_by (arrives_before F) arrivals)))
      × ((i : ℕ) (a : PlannedTrainArrival F)
          → get_elem? states i ≡ some a
          → a.within_planning_horizon ≡ true
          → IsPlanned F config now (distribute F [] (sort_by (arrives_before F) arrivals)) a)
      × ((i j : ℕ) (a b : PlannedTrainArrival F)
          → i ≢ j
          → get_elem? states i ≡ some a
          → get_elem? states j ≡ some b
          → a.within_planning_horizon ≡ true
          → b.within_planning_horizon ≡ true
          → AreApart F config now a b)

  -- What the second loop makes of 64-bit arrivals after the game's time 0.
  pub schedule_lem :
      (arrivals : List (PlannedTrainArrival F))
      → Times arrivals
      → IsSchedule arrivals (schedule F config now arrivals)
  unfolding schedule
  schedule_lem arrivals h =
      let states = distribute F [] (sort_by (arrives_before F) arrivals) in
      let times : Times states =
        distribute-Times [] _ (sort_by-All (IsTime F config now) (arrives_before F) arrivals h) in
      let (same, ranked, apart) =
        rank_trains_lem F config now states
          (λ i a e. All-get_elem? (IsTime F config now) states i times e) in
      (same, ranked, apart)

  -- The plans that the first loop collects.
  abbrev AreTimely : Plans F → Type 0
  AreTimely plans =
      IsMap plans
      × ((id : String) (p : CorridorRollingPlan F) → lookup id plans ≡ some p → Times p.trains)

  arrival-IsTime :
      (line : LineRoute F) (t : CorridorTraversal F) (train : TrainTelemetry F) (d : F.Double)
      → 0 < now
      → now ≤ u64_max
      → IsTime F config now (arrival F config now line t train d)
  unfolding arrival
  arrival-IsTime line t train d p q =
      let later = add_saturated-ge now (travel_ms F config train d) q in
      let fits = add_saturated-le_max now (travel_ms F config train d) q in
      (omega arith, omega arith)

  nothing-AreTimely : AreTimely []
  unfolding lookup
  nothing-AreTimely = (tt, λ id p e. absurd (ground arith))

  insert-AreTimely :
      (id : String) (p : CorridorRollingPlan F) (plans : Plans F)
      → Times p.trains
      → AreTimely plans
      → AreTimely (insert id p plans)
  insert-AreTimely id p plans t (keys, times) = (
    insert-IsMap id p plans keys,
    λ j q e. elim (Bool-cases (id == j)) [
      | inl here ↦
          let same : p ≡ q = ground (arith, lookup-insert id j p plans) in
          subst (λ (x : CorridorRollingPlan F). Times x.trains) same t
      | inr other ↦ times j q (ground (arith, lookup-insert id j p plans))
    ],
  )

  trains_of-Times :
      (id : String) (plans : Plans F) → AreTimely plans → Times (trains_of F (lookup id plans))
  trains_of-Times id plans (keys, times) = elim (Option-cases (lookup id plans)) [
    | inl e ↦ rw e tt
    | inr (p, e) ↦ rw e (times id p e)
  ]

  push_arrival-AreTimely :
      (a : PlannedTrainArrival F) (plans : Plans F)
      → IsTime F config now a
      → AreTimely plans
      → AreTimely (push_arrival F now a plans)
  unfolding push_arrival
  push_arrival-AreTimely a plans t h =
      insert-AreTimely a.corridor_resource_id _ plans
        (All-append (IsTime F config now) (trains_of F (lookup a.corridor_resource_id plans))
          (a ∷ []) (trains_of-Times a.corridor_resource_id plans h) (t, tt))
        h

  finish-plans :
      (plans : Plans F) (r : RollingPlanResult F) (id : String) {x : CorridorRollingPlan F}
      → IsMap plans
      → lookup id (finish F config now plans r).plans_by_resource ≡ some x
      → ((y : CorridorRollingPlan F) × (lookup id plans ≡ some y) × (scheduled F config now y ≡ x))
        ⊎ (lookup id r.plans_by_resource ≡ some x)
  unfolding finish lookup
  finish-plans [] r id h e = inr e
  finish-plans ((j, y) ∷ plans) r id {x} h e =
      elim (finish-plans plans
        (record {
          plans_by_resource = insert j (scheduled F config now y) r.plans_by_resource;
          by_train_resource =
              index_arrivals F config now (schedule F config now y.trains) r.by_train_resource;
        })
        id h.1 e) [
          | inl (z, found, same) ↦ inl (z, ground (arith, h.0, string_eq.beq_iff j id), same)
          | inr kept ↦ elim (Bool-cases (j == id)) [
            | inl here ↦ inl (
              y,
              rw here refl,
              ground (arith, lookup-insert j id (scheduled F config now y) r.plans_by_resource),
            )
            | inr other ↦
                inr (
                  ground (arith, lookup-insert j id (scheduled F config now y) r.plans_by_resource))
          ]
        ]

  module _ (distance : LineRoute F → CorridorTraversal F → TrainTelemetry F → Option F.Double)
      (p : 0 < now) (q : now ≤ u64_max) where
    add_arrivals-AreTimely :
        (line : LineRoute F) (train : TrainTelemetry F) (ts : List (CorridorTraversal F))
        (plans : Plans F)
        → AreTimely plans
        → AreTimely (add_arrivals F config now distance line train ts plans)
    unfolding add_arrivals
    add_arrivals-AreTimely line train [] plans h = h
    add_arrivals-AreTimely line train (t ∷ ts) plans h =
        elim (Option-cases (distance line t train)) [
          | inl e ↦ rw (e, add_arrivals) (add_arrivals-AreTimely line train ts plans h)
          | inr (d, e) ↦
              rw (e, add_arrivals)
                (add_arrivals-AreTimely line train ts _ (
                  push_arrival-AreTimely (arrival F config now line t train d) plans
                    (arrival-IsTime line t train d p q) h))
        ]

    predict-AreTimely :
        (topology : LineTopologyRegistry F) (trains : List (MonitoredTrain F)) (plans : Plans F)
        → AreTimely plans
        → AreTimely (predict F config now distance topology trains plans)
    unfolding predict
    predict-AreTimely topology [] plans h = h
    predict-AreTimely topology (m ∷ ms) plans h =
        elim (Option-cases (route F topology m.telemetry.line_id)) [
          | inl e ↦ rw (e, predict) (predict-AreTimely topology ms plans h)
          | inr (line, e) ↦
              rw (e, predict)
                (predict-AreTimely topology ms _
                  (add_arrivals-AreTimely line m.telemetry _ plans h))
        ]

    -- At a 64-bit time after 0, each plan of the result lists the arrivals predicted for its
    -- direction, which are 64-bit times after 0, as the second loop schedules them: nothing of an
    -- arrival changes but its rank, its entry, its share and its priority; a train within the
    -- horizon is ranked below their number and enters between its arrival and the largest 64-bit
    -- time; no two of them have one rank, and of any two the one ranked later enters no earlier
    -- than the saturating sum of the entry of the other and the planned spacing, which is their
    -- sum or, where that is beyond it, the largest 64-bit time.
    pub plan_lem :
        (trains : List (MonitoredTrain F)) (topology : LineTopologyRegistry F) (id : String)
        (x : CorridorRollingPlan F)
        → lookup id (plan F config now distance trains topology).plans_by_resource ≡ some x
        → (y : CorridorRollingPlan F) × (lookup id
              (predict F config now distance topology trains [])
            ≡ some y)
          × (x.trains ≡ sort_by (listed_before F config now) (schedule F config now y.trains))
          × Times y.trains
          × IsSchedule y.trains (schedule F config now y.trains)
    unfolding plan scheduled lookup
    plan_lem trains topology id x e =
        let (keys, times) = predict-AreTimely topology trains [] nothing-AreTimely in
        elim (finish-plans (predict F config now distance topology trains [])
          (record { plans_by_resource = []; by_train_resource = [] }) id keys e) [
            | inl (y, found, same) ↦ (
              y,
              found,
              ap (λ (z : CorridorRollingPlan F). z.trains) (sym same),
              times id y found,
              schedule_lem y.trains (times id y found),
            )
            | inr none_there ↦ absurd (ground (arith, none_there))
          ]
