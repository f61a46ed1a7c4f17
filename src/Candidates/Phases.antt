-- ===== src/Candidates/Phases.antt =====
-- What one round of `build` in server/src/DispatchCandidateBuilder.cpp makes of a train, and the
-- phases that the whole loop leaves.
use mathlib.Core.List.{Memᴰ}
use multi_agent_route_planni.Base.{
  String, ◌≡◌, ◌≢◌, refl, sym, ap, ◌∙◌, subst, inl, inr, Option, none, some, List, [], ◌∷◌, arith,
  if◌then◌else◌, ◌==◌, string_eq, Bool-cases, Option-cases, All, Map, lookup, lookup-insert,
  insert-insert,
}
use multi_agent_route_planni.Base.Floats.{Floats}
use multi_agent_route_planni.Analysis.{LineRoute}
use multi_agent_route_planni.Monitor.{
  TrainDispatchPhase, monitored, approaching, waiting_permission, TrainTelemetry, MonitoredTrain,
  is_bound,
}
use multi_agent_route_planni.Topology.{
  CorridorTraversal, IntersectionTraversal, LineTopologyRegistry, route, corridors_for_line,
  intersections_for_line,
}
use multi_agent_route_planni.Planner.{RollingPlanResult}
use multi_agent_route_planni.Candidates.{
  DispatchCandidateBuilderConfig, Building, Waiting, set_phase, offer, nearest, approach, consider,
  visit, visit_all, begin, build,
}

module _ (F : Floats)
    (distance : LineRoute F → CorridorTraversal F → TrainTelemetry F → Option F.Double)
    (config : DispatchCandidateBuilderConfig F) (topology : LineTopologyRegistry F) where
  -- What is to become of a train: its phase, and the corridor before which it competes.
  abbrev pub Standing : Type 0
  Standing = TrainDispatchPhase × Option (CorridorTraversal F)

  abbrev pub standing_at : Option (CorridorTraversal F) × F.Double → Standing
  standing_at (none, d) = (monitored, none)
  standing_at (some t, d) =
      if F.ltb config.control_point_distance d
      then (approaching, none)
      else (waiting_permission, some t)

  abbrev pub standing_on : TrainTelemetry F → Option (LineRoute F) → Standing
  standing_on train none = (monitored, none)
  standing_on train (some line) =
      standing_at
        (nearest F distance config line train (corridors_for_line F topology train.line_id))

  abbrev pub standing : MonitoredTrain F → Standing
  standing m =
      if is_bound m.phase
      then (m.phase, none)
      else standing_on m.telemetry (route F topology m.telemetry.line_id)

  module _ (plan : Option (RollingPlanResult F)) where
    abbrev pub intersections : TrainTelemetry F → List IntersectionTraversal
    intersections train = intersections_for_line F topology train.line_id

    abbrev pub put : TrainTelemetry F → Standing → Building F → Building F
    put train (phase, none) b = set_phase F train.train_id phase b
    put train (phase, some t) b = offer F plan (intersections train) t train b

    abbrev phases : Building F → Map String TrainDispatchPhase
    phases b = b.result.phase_by_train

    twice :
        (id : String) (p q : TrainDispatchPhase) (b : Building F)
        → set_phase F id p (set_phase F id q b) ≡ set_phase F id p b
    twice id p q b =
        ap (λ ps. record b { result = record b.result { phase_by_train = ps } })
          (insert-insert id p q b.result.phase_by_train)

    offer_twice :
        (is : List IntersectionTraversal) (t : CorridorTraversal F) (train : TrainTelemetry F)
        (q : TrainDispatchPhase) (b : Building F)
        → offer F plan is t train (set_phase F train.train_id q b) ≡ offer F plan is t train b
    unfolding offer
    offer_twice is t train q b =
        ap
          (λ ps. record (offer F plan is t train b) {
            result = record (offer F plan is t train b).result { phase_by_train = ps };
          })
          (insert-insert train.train_id waiting_permission q b.result.phase_by_train)

    approach_lem :
        (train : TrainTelemetry F) (r : Option (CorridorTraversal F) × F.Double) (b : Building F)
        → approach F distance config plan
            (intersections train)
            train
            r
            (set_phase F train.train_id monitored b)
          ≡ put train (standing_at r) b
    unfolding approach
    approach_lem train (none, d) b = refl
    approach_lem train (some t, d) b = elim (Bool-cases (F.ltb config.control_point_distance d)) [
      | inl far ↦ rw (far, approach) (twice train.train_id approaching monitored b)
      | inr near ↦
          rw (near, approach)
            (ap (offer F plan (intersections train) t train)
                (twice train.train_id approaching monitored b)
              ∙ offer_twice (intersections train) t train approaching b)
    ]

    -- One round of the loop puts the train where it stands.
    pub visit_lem :
        (m : MonitoredTrain F) (b : Building F)
        → visit F distance config plan topology m b ≡ put m.telemetry (standing m) b
    unfolding visit consider
    visit_lem m b = elim (Bool-cases (is_bound m.phase)) [
      | inl bound ↦ rw (bound, visit) (twice m.telemetry.train_id m.phase monitored b)
      | inr free ↦ elim (Option-cases (route F topology m.telemetry.line_id)) [
        | inl e ↦ rw (free, visit, consider, e) refl
        | inr (line, e) ↦ rw (free, visit, consider, e) (approach_lem m.telemetry _ b)
      ]
    ]

    abbrev shown : Standing → TrainDispatchPhase
    shown (phase, none) = phase
    shown (phase, some t) = waiting_permission

    shown-standing_at :
        (r : Option (CorridorTraversal F) × F.Double) → shown (standing_at r) ≡ (standing_at r).0
    shown-standing_at (none, d) = refl
    shown-standing_at (some t, d) = elim (Bool-cases (F.ltb config.control_point_distance d)) [
      | inl far ↦ rw far refl
      | inr near ↦ rw near refl
    ]

    shown-standing : (m : MonitoredTrain F) → shown (standing m) ≡ (standing m).0
    shown-standing m = elim (Bool-cases (is_bound m.phase)) [
      | inl bound ↦ rw bound refl
      | inr free ↦ elim (Option-cases (route F topology m.telemetry.line_id)) [
        | inl e ↦ rw (free, e) refl
        | inr (line, e) ↦ rw (free, e) (shown-standing_at _)
      ]
    ]

    lookup-put :
        (train : TrainTelemetry F) (st : Standing) (b : Building F) (id : String)
        → lookup id (phases (put train st b))
          ≡ (if train.train_id == id then some (shown st) else lookup id (phases b))
    unfolding offer
    lookup-put train (phase, none) b id = lookup-insert train.train_id id phase (phases b)
    lookup-put train (phase, some t) b id =
        lookup-insert train.train_id id waiting_permission (phases b)

    lookup-visit :
        (m : MonitoredTrain F) (b : Building F) (id : String)
        → lookup id (phases (visit F distance config plan topology m b))
          ≡ (if m.telemetry.train_id == id then some (standing m).0 else lookup id (phases b))
    lookup-visit m b id =
        ap (λ x. lookup id (phases x)) (visit_lem m b)
        ∙ lookup-put m.telemetry (standing m) b id
        ∙ ap (λ p. if m.telemetry.train_id == id then some p else lookup id (phases b))
            (shown-standing m)

    visit_all-others :
        (ms : List (MonitoredTrain F)) (b : Building F) (id : String)
        → All (λ (n : MonitoredTrain F). n.telemetry.train_id ≢ id) ms
        → lookup id (phases (visit_all F distance config plan topology ms b)) ≡ lookup id (phases b)
    unfolding visit_all
    visit_all-others [] b id h = refl
    visit_all-others (m ∷ ms) b id h =
        visit_all-others ms (visit F distance config plan topology m b) id h.1
        ∙ ground (arith, lookup-visit m b id, h.0, string_eq.beq_iff m.telemetry.train_id id)

    -- No two entries are of one train.
    abbrev pub AreDistinct : List (MonitoredTrain F) → Type 0
    AreDistinct [] = Unit
    AreDistinct (m ∷ ms) =
        All (λ (n : MonitoredTrain F). n.telemetry.train_id ≢ m.telemetry.train_id) ms
        × AreDistinct ms

    visit_all-phases :
        (ms : List (MonitoredTrain F)) (b : Building F) (m : MonitoredTrain F)
        → AreDistinct ms
        → Memᴰ m ms
        → lookup m.telemetry.train_id (phases (visit_all F distance config plan topology ms b))
          ≡ some (standing m).0
    unfolding visit_all
    visit_all-phases [] b m d h = elim h [ ]
    visit_all-phases (n ∷ ms) b m d h = elim h [
      | Memᴰ.tail h' ↦ visit_all-phases ms (visit F distance config plan topology n b) m d.1 h'
      | Memᴰ.head same ↦
          let id = n.telemetry.train_id in
          subst
            (λ (x : MonitoredTrain F).
              lookup x.telemetry.train_id (
                phases (
                  visit_all F distance config plan topology ms
                    (visit F distance config plan topology n b)))
              ≡ some (standing x).0)
            (sym same)
            (visit_all-others ms (visit F distance config plan topology n b) id d.0
              ∙ lookup-visit n b id
              ∙ rw ((string_eq.beq_iff id id).1 refl) refl)
    ]

    -- Where a batch names each train once, the phase of each is that of its own packet: a train
    -- that a command or a passage binds keeps its phase, and any other is monitored, approaching,
    -- or waiting for permission by the nearest entrance ahead of it.
    pub build_phases :
        (waiting : Waiting) (trains : List (MonitoredTrain F)) (m : MonitoredTrain F)
        → AreDistinct trains
        → Memᴰ m trains
        → lookup m.telemetry.train_id
            (build F distance config waiting trains topology plan).1.phase_by_train
          ≡ some (standing m).0
    unfolding build
    build_phases waiting trains m d h =
        visit_all-phases trains (begin F distance config waiting) m d h
