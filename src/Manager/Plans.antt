-- ===== src/Manager/Plans.antt =====
-- What `planNext` of server/src/DispatchManager.cpp leaves behind, whatever it decides.
use multi_agent_route_planni.Base.{
  ℕ, String, ◌≡◌, ◌≢◌, refl, sym, ap, ◌∙◌, subst, ◌⊎◌, inl, inr, true, false, not, ◌&&◌, some, List,
  arith, ◌==◌, nat_eq, string_eq, ok, fail, Bool-cases, Option-cases, lookup, insert,
}
use multi_agent_route_planni.Base.Floats.{Floats}
use multi_agent_route_planni.Dispatch.{
  DispatchAction, release, SharedCorridorState, DispatchDecision, default_decision,
  DynamicPriorityConfig,
}
use multi_agent_route_planni.Reservation.{ReservationManager, try_reserve_atomically}
use multi_agent_route_planni.Reservation.Atomic.{try_reserve_all_or_none}
use multi_agent_route_planni.Policy.Decision.{decide}
use multi_agent_route_planni.Manager.{DispatchManager, update_fairness_credits}
use multi_agent_route_planni.Manager.Planning.{
  opposing_reason, is_empty, prepare, opposed, last_reason, intersection_hold, context_for,
  reservation_failed, issue, settle, is_release, commit, choose_next, plan_for, plan_next,
}
use multi_agent_route_planni.Manager.Interlock.{IsClear, opposing_reason-IsClear}

-- A reservation never throws, and one that fails changes nothing.
pub try_reserve_cases :
    (s : ReservationManager) (train_id : String) (ids : List String) (now : ℕ)
    → ((reason : String) × (try_reserve_atomically s train_id ids now ≡ some (s, fail reason)))
      ⊎ ((s' : ReservationManager) × (try_reserve_atomically s train_id ids now ≡ some (s', ok tt)))
unfolding try_reserve_atomically
try_reserve_cases s train_id ids now = elim (Bool-cases (train_id == "")) [
  | inl unnamed ↦ inl ("empty_train_id", rw unnamed refl)
  | inr named ↦
      elim (try_reserve_all_or_none s train_id ids now
        (λ e. ground (arith, string_eq.beq_iff train_id ""))) [
          | inl (reason, _, e) ↦ inl (reason, e)
          | inr (s', _, e, _) ↦ inr (s', e)
        ]
]

is_release-false : (a : DispatchAction) → is_release a ≡ false → a ≢ release
is_release-false a h e = ground arith

is_release-true : (a : DispatchAction) → is_release a ≡ true → a ≡ release
is_release-true a h = ground arith

module _ (F : Floats) where
  abbrev Outcome : Type 0
  Outcome = DispatchManager F × DispatchDecision F

  -- What the caller sees of a plan that releases no train.
  pub record Holds (m : DispatchManager F) (o : Outcome) : Type 0 where
    pub action : o.1.action ≢ release
    pub corridors : o.0.corridors ≡ m.corridors
    pub pending : o.0.pending_decisions ≡ m.pending_decisions
    pub reservations : o.0.reservations ≡ m.reservations

  -- And of a plan that releases one: the direction was clear, the policy chose the train among the
  -- candidates that the intersections let through, its movements are reserved, the command waits.
  pub record Issues (m : DispatchManager F) (id : String) (now wall : ℕ) (o : Outcome)
      : Type 0 where
    pub action : o.1.action ≡ release
    pub corridor : SharedCorridorState F
    pub found : lookup id m.corridors ≡ some corridor
    pub clear : IsClear F id corridor.corridor_id m.corridors
    pub chosen :
        o.1 ≡ decide F m.policy_config (context_for F (prepare F m id now) id now wall corridor)
    pub reserved :
        try_reserve_atomically m.reservations o.1.train_id o.1.reserved_intersection_movement_ids
          now
        ≡ some (o.0.reservations, ok tt)
    pub corridors :
        o.0.corridors ≡ insert id (record corridor { command_pending = true }) m.corridors
    pub pending : o.0.pending_decisions ≡ insert id o.1 m.pending_decisions

  abbrev pub Keeps : DispatchManager F → DispatchManager F → Type 0
  Keeps p m =
      (p.corridors ≡ m.corridors)
      × (p.pending_decisions ≡ m.pending_decisions)
      × (p.reservations ≡ m.reservations)
      × (p.policy_config ≡ m.policy_config)

  update_fairness_credits-Keeps :
      (m : DispatchManager F) (id : String) (now : ℕ) → Keeps (update_fairness_credits F m id now) m
  unfolding update_fairness_credits
  update_fairness_credits-Keeps m id now = elim (Option-cases (lookup id m.line_states)) [
    | inl e ↦ rw (e, update_fairness_credits) (refl, refl, refl, refl)
    | inr (lines, e) ↦ rw (e, update_fairness_credits) (refl, refl, refl, refl)
  ]

  pub prepare-Keeps : (m : DispatchManager F) (id : String) (now : ℕ) → Keeps (prepare F m id now) m
  unfolding prepare
  prepare-Keeps m id now = update_fairness_credits-Keeps m id now

  -- `commit` on its own manager.
  pub record Commits (m : DispatchManager F) (id : String) (now : ℕ) (c : SharedCorridorState F)
      (d : DispatchDecision F) (o : Outcome) : Type 0 where
    pub action : d.action ≡ release
    pub decision : o.1 ≡ d
    pub reserved :
        try_reserve_atomically m.reservations d.train_id d.reserved_intersection_movement_ids now
        ≡ some (o.0.reservations, ok tt)
    pub state : o.0 ≡ issue F m id c d o.0.reservations

  commit_cases :
      (m : DispatchManager F) (id : String) (now : ℕ) (c : SharedCorridorState F)
      (d : DispatchDecision F)
      → (o : Outcome) × (commit F m id now c d ≡ some o) × (Holds m o ⊎ Commits m id now c d o)
  unfolding commit settle reservation_failed issue
  commit_cases m id now c d = elim (Bool-cases (is_release d.action)) [
    | inr stay ↦ (
      (m, d),
      rw stay refl,
      inl (record {
        action = is_release-false d.action stay;
        corridors = refl;
        pending = refl;
        reservations = refl;
      }),
    )
    | inl go ↦
        elim (try_reserve_cases m.reservations d.train_id d.reserved_intersection_movement_ids
          now) [
            | inl (reason, e) ↦ (
              (record m { reservations = m.reservations }, reservation_failed F d reason),
              rw (go, e) refl,
              inl (record {
                action = λ q. ground arith;
                corridors = refl;
                pending = refl;
                reservations = refl;
              }),
            )
            | inr (r, e) ↦ (
              (issue F m id c d r, d),
              rw (go, e) refl,
              inr (record {
                action = is_release-true d.action go;
                decision = refl;
                reserved = e;
                state = refl;
              }),
            )
          ]
  ]

  intersection_hold-action :
      (c : SharedCorridorState F) (reason : String)
      → (intersection_hold F c reason).action ≢ release
  unfolding intersection_hold
  intersection_hold-action c reason e = ground arith

  opposed-action :
      (id : String) (c : SharedCorridorState F) (reason : String)
      → (opposed F id c reason).action ≢ release
  unfolding opposed
  opposed-action id c reason e = ground arith

  module _ (m : DispatchManager F) (id : String) (now wall : ℕ) where
    -- What the managers before and after `prepare` have in common is what the plan depends on.
    Holds-prepare : (o : Outcome) → Holds (prepare F m id now) o → Holds m o
    Holds-prepare o h =
        let (c, p, r, _) = prepare-Keeps m id now in
        record {
          action = h.action;
          corridors = h.corridors ∙ c;
          pending = h.pending ∙ p;
          reservations = h.reservations ∙ r;
        }

    hold : (d : DispatchDecision F) → d.action ≢ release → Holds m (prepare F m id now, d)
    hold d h =
        Holds-prepare (prepare F m id now, d)
          (record { action = h; corridors = refl; pending = refl; reservations = refl })

    abbrev Reserves : ReservationManager → DispatchDecision F → ReservationManager → Type 0
    Reserves r d r' =
        try_reserve_atomically r d.train_id d.reserved_intersection_movement_ids now
        ≡ some (r', ok tt)

    Issues-Commits :
        (c : SharedCorridorState F) (o : Outcome)
        → lookup id m.corridors ≡ some c
        → IsClear F id c.corridor_id m.corridors
        → let p = prepare F m id now in
          Commits p id now c (decide F p.policy_config (context_for F p id now wall c)) o
          → Issues m id now wall o
    unfolding issue
    Issues-Commits c o found clear h =
        let p = prepare F m id now in
        let (cs, ps, r, k) = prepare-Keeps m id now in
        record {
          action = ap (λ (d : DispatchDecision F). d.action) h.decision ∙ h.action;
          corridor = c;
          found = found;
          clear = clear;
          chosen =
              subst
                (λ (x : DynamicPriorityConfig F). o.1 ≡ decide F x (context_for F p id now wall c))
                k h.decision;
          reserved =
              subst (λ (x : ReservationManager). Reserves x o.1 o.0.reservations) r
                (subst (λ (x : DispatchDecision F). Reserves p.reservations x o.0.reservations)
                  (sym h.decision) h.reserved);
          corridors = ap (λ (x : DispatchManager F). x.corridors) h.state ∙ ap (insert id _) cs;
          pending =
              ap (λ (x : DispatchManager F). x.pending_decisions) h.state
              ∙ ap (insert id _) ps
              ∙ ap (λ (x : DispatchDecision F). insert id x m.pending_decisions) (sym h.decision);
        }

    choose_next_cases :
        (c : SharedCorridorState F)
        → lookup id m.corridors ≡ some c
        → IsClear F id c.corridor_id m.corridors
        → (o : Outcome) × (choose_next F (prepare F m id now) id now wall c ≡ some o)
          × (Holds m o ⊎ Issues m id now wall o)
    unfolding choose_next
    choose_next_cases c found clear =
        let p = prepare F m id now in
        let context = context_for F p id now wall c in
        elim (Bool-cases
          (not (is_empty F c.candidates) && is_empty F context.corridor.candidates)) [
            | inl blocked ↦
                let d = intersection_hold F c (last_reason F p.reservations now c.candidates "") in
                ((p, d), rw blocked refl, inl (hold d (intersection_hold-action c _)))
            | inr open_ ↦
                let (o, e, w) = commit_cases p id now c (decide F p.policy_config context) in
                (
                  o,
                  rw open_ e,
                  elim w [
                    | inl h ↦ inl (Holds-prepare o h)
                    | inr h ↦ inr (Issues-Commits c o found clear h)
                  ],
                )
          ]

    -- planNext never throws. Either it releases no train, and the directions, the waiting commands
    -- and the reservations are as they were; or it releases the train that the policy chose, no
    -- other direction of the corridor was in use, its movements are reserved, and the direction
    -- waits for the command.
    pub plan_next_cases :
        (o : Outcome) × (plan_next F m id now wall ≡ some o) × (Holds m o ⊎ Issues m id now wall o)
    unfolding plan_next plan_for
    plan_next_cases = elim (Option-cases (lookup id m.corridors)) [
      | inl e ↦ (
        (m, record (default_decision F) { reason = "unknown_shared_corridor_resource" }),
        rw (e, plan_next) refl,
        inl (record {
          action = λ q. unfold default_decision in ground arith;
          corridors = refl;
          pending = refl;
          reservations = refl;
        }),
      )
      | inr (c, e) ↦
          let p = prepare F m id now in
          let cs = (prepare-Keeps m id now).0 in
          elim (Option-cases (opposing_reason F id c.corridor_id p.corridors)) [
            | inr (reason, f) ↦ (
              (p, opposed F id c reason),
              rw (e, plan_next, f, plan_for) refl,
              inl (hold (opposed F id c reason) (opposed-action id c reason)),
            )
            | inl f ↦
                let clear = opposing_reason-IsClear F id c.corridor_id p.corridors f in
                let (o, g, w) = choose_next_cases c e (rw (← cs) clear) in
                (o, rw (e, plan_next, f, plan_for) g, w)
          ]
    ]
