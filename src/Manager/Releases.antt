-- ===== src/Manager/Releases.antt =====
-- When `planNext` of server/src/DispatchManager.cpp releases a train, and what that means.
use multi_agent_route_planni.Base.{
  ℕ, String, ◌≡◌, ◌≢◌, refl, sym, ap, ◌∙◌, subst, inl, inr, true, false, not, ◌&&◌, none, some,
  List, [], ◌∷◌, arith, nat_eq, string_eq, ok, Map, lookup,
}
use multi_agent_route_planni.Base.Floats.{Floats}
use multi_agent_route_planni.Dispatch.{
  release, SharedCorridorState, DispatchDecision, DynamicPriorityConfig,
}
use multi_agent_route_planni.Reservation.{ReservationManager, try_reserve_atomically}
use multi_agent_route_planni.Reservation.Atomic.{try_reserve_all_or_none}
use multi_agent_route_planni.Policy.Decision.{decide}
use multi_agent_route_planni.Manager.{DispatchManager}
use multi_agent_route_planni.Manager.Planning.{
  opposing_reason, is_empty, prepare, context_for, issue, settle, commit, choose_next, plan_for,
  plan_next,
}
use multi_agent_route_planni.Manager.Interlock.{IsClear}
use mathlib.Core.List.{Memᴰ}
use multi_agent_route_planni.Base.{◌↔◌, mem-remove_if, is_ok, some-eq, IsMap}
use multi_agent_route_planni.Dispatch.{DispatchCandidate, DispatchContext, LineDispatchState}
use multi_agent_route_planni.Reservation.{can_reserve}
use multi_agent_route_planni.Policy.Constraints.{is_consistent, feasible_line}
use multi_agent_route_planni.Policy.Release.{IsOpen, IsFeasible}
use multi_agent_route_planni.Policy.Choice.{decide_release_safe, decide_release_iff}
use multi_agent_route_planni.Manager.Planning.{is_blocked}
use multi_agent_route_planni.Manager.Interlock.{IsClear-opposing_reason}
use multi_agent_route_planni.Manager.Plans.{prepare-Keeps, Issues, plan_next_cases}

module _ (F : Floats) where
  -- The candidate that a release is for, as it stood among those of the corridor.
  pub record CandidateFor (m : DispatchManager F) (id : String) (now wall : ℕ)
      (c : SharedCorridorState F) (d : DispatchDecision F) : Type 0 where
    pub candidate : DispatchCandidate F
    pub waiting : Memᴰ candidate c.candidates
    pub train : d.train_id ≡ candidate.train_id
    pub line : d.line_id ≡ candidate.line_id
    pub movements :
        d.reserved_intersection_movement_ids ≡ candidate.required_intersection_movement_ids
    pub named : candidate.train_id ≢ ""
    pub admitted :
        is_ok (can_reserve m.reservations candidate.required_intersection_movement_ids now) ≡ true

  consistent_named :
      (config : DynamicPriorityConfig F) (context : DispatchContext F) (x : DispatchCandidate F)
      {line : LineDispatchState F}
      → feasible_line F config context x ≡ some line
      → x.train_id ≢ ""
  unfolding feasible_line is_consistent
  consistent_named config context x h e = ground (arith, string_eq.beq_iff x.train_id "")

  -- What the policy says of a release, read on the corridor before its candidates were dropped.
  chosen_candidate :
      (m : DispatchManager F) (id : String) (now wall : ℕ) (c : SharedCorridorState F)
      → let context = context_for F m id now wall c in
        (decide F m.policy_config context).action ≡ release
        → IsOpen F m.policy_config context
          × CandidateFor m id now wall c (decide F m.policy_config context)
  unfolding context_for
  chosen_candidate m id now wall c e =
      let context = context_for F m id now wall c in
      let (open_, released) = decide_release_safe F m.policy_config context e in
      let (x, feasible, r) = released in
      let (mem, (line, found)) = feasible in
      let (waiting, free) = mem-remove_if (is_blocked F m.reservations now) c.candidates x mem in
      (
        open_,
        record {
          candidate = x;
          waiting = waiting;
          train = r.train;
          line = r.line;
          movements = r.movements;
          named = consistent_named m.policy_config context x found;
          admitted = ground (arith, free);
        },
      )

  is_empty-false :
      (x : DispatchCandidate F) (cs : List (DispatchCandidate F))
      → Memᴰ x cs
      → is_empty F cs ≡ false
  is_empty-false x [] m = elim m [ ]
  is_empty-false x (c ∷ cs) m = refl

  -- A train that the policy chose gets its movements.
  chosen_reserves :
      (m : DispatchManager F) (id : String) (now wall : ℕ) (c : SharedCorridorState F)
      (d : DispatchDecision F)
      → CandidateFor m id now wall c d
      → (s : ReservationManager) × (try_reserve_atomically m.reservations d.train_id
            d.reserved_intersection_movement_ids now
          ≡ some (s, ok tt))
  chosen_reserves m id now wall c d h =
      let named : d.train_id ≢ "" = subst (λ (t : String). t ≢ "") (sym h.train) h.named in
      let fits : is_ok (can_reserve m.reservations d.reserved_intersection_movement_ids now)
          ≡ true =
        rw h.movements h.admitted in
      elim (try_reserve_all_or_none m.reservations d.train_id d.reserved_intersection_movement_ids
        now named) [
          | inl (reason, e, _) ↦ absurd (ground (arith, fits, e))
          | inr (s, _, e, _) ↦ (s, e)
        ]

  commit_releases :
      (m : DispatchManager F) (id : String) (now : ℕ) (c : SharedCorridorState F)
      (d : DispatchDecision F) (s : ReservationManager)
      → d.action ≡ release
      → try_reserve_atomically m.reservations d.train_id d.reserved_intersection_movement_ids now
        ≡ some (s, ok tt)
      → commit F m id now c d ≡ some (issue F m id c d s, d)
  unfolding commit settle
  commit_releases m id now c d s a e = rw (a, e) refl

  choose_next_releases :
      (m : DispatchManager F) (id : String) (now wall : ℕ) (c : SharedCorridorState F)
      → let context = context_for F m id now wall c in
        IsOpen F m.policy_config context
        → ((x : DispatchCandidate F) × IsFeasible F m.policy_config context x)
        → (o : DispatchManager F × DispatchDecision F) × (choose_next F m id now wall c ≡ some o)
          × (o.1.action ≡ release)
  unfolding choose_next
  choose_next_releases m id now wall c open_ w =
      let context = context_for F m id now wall c in
      let d = decide F m.policy_config context in
      let a : d.action ≡ release = (decide_release_iff F m.policy_config context).1 (open_, w) in
      let (s, e) = chosen_reserves m id now wall c d (chosen_candidate m id now wall c a).1 in
      let some_left = is_empty-false w.0 context.corridor.candidates w.1.0 in
      let go : (not (is_empty F c.candidates) && is_empty F context.corridor.candidates) ≡ false =
        ground (arith, some_left) in
      ((issue F m id c d s, d), rw go (commit_releases m id now c d s a e), a)

  -- The manager and the context that the policy sees, once the credits are up to date.
  module _ (m : DispatchManager F) (id : String) (now wall : ℕ) where
    abbrev pub context_at : SharedCorridorState F → DispatchContext F
    context_at c = context_for F (prepare F m id now) id now wall c

    -- The direction is known, no other of its corridor is in use, the constraints on it hold, and
    -- some candidate that the intersections let through passes every guard.
    pub record CanRelease : Type 0 where
      pub corridor : SharedCorridorState F
      pub found : lookup id m.corridors ≡ some corridor
      pub clear : IsClear F id corridor.corridor_id m.corridors
      pub open_ : IsOpen F m.policy_config (context_at corridor)
      pub candidate : DispatchCandidate F
      pub feasible : IsFeasible F m.policy_config (context_at corridor) candidate

    pub Issues-IsOpen :
        (o : DispatchManager F × DispatchDecision F) (h : Issues F m id now wall o)
        → IsOpen F m.policy_config (context_at h.corridor)
    Issues-IsOpen o h =
        let a : (decide F m.policy_config (context_at h.corridor)).action ≡ release =
          ap (λ (d : DispatchDecision F). d.action) (sym h.chosen) ∙ h.action in
        (decide_release_safe F m.policy_config (context_at h.corridor) a).0

    Issues-CanRelease :
        (o : DispatchManager F × DispatchDecision F) → Issues F m id now wall o → CanRelease
    Issues-CanRelease o h =
        let a : (decide F m.policy_config (context_at h.corridor)).action ≡ release =
          ap (λ (d : DispatchDecision F). d.action) (sym h.chosen) ∙ h.action in
        let (open_, (x, feasible, _)) =
          decide_release_safe F m.policy_config (context_at h.corridor) a in
        record {
          corridor = h.corridor;
          found = h.found;
          clear = h.clear;
          open_ = open_;
          candidate = x;
          feasible = feasible;
        }

    plan_for_releases :
        (c : SharedCorridorState F)
        → opposing_reason F id c.corridor_id (prepare F m id now).corridors ≡ none
        → IsOpen F (prepare F m id now).policy_config (context_at c)
        → ((x : DispatchCandidate F) × IsFeasible F
              (prepare F m id now).policy_config
              (context_at c)
              x)
        → (o : DispatchManager F × DispatchDecision F) × (plan_for F
              (prepare F m id now)
              id
              now
              wall
              c
            ≡ some o)
          × (o.1.action ≡ release)
    unfolding plan_for
    plan_for_releases c clear open_ w =
        let (o, e, a) = choose_next_releases (prepare F m id now) id now wall c open_ w in
        (o, rw (clear, plan_for) e, a)

    CanRelease-plan_next :
        IsMap m.corridors
        → CanRelease
        → (o : DispatchManager F × DispatchDecision F) × (plan_next F m id now wall ≡ some o)
          × (o.1.action ≡ release)
    unfolding plan_next
    CanRelease-plan_next keys h =
        let (cs, _, _, k) = prepare-Keeps F m id now in
        let c = h.corridor in
        let clear = IsClear-opposing_reason F id c.corridor_id m.corridors keys h.clear in
        let (o, e, a) =
          plan_for_releases c
            (ap (λ (x : Map String (SharedCorridorState F)). opposing_reason F id c.corridor_id x)
                cs
              ∙ clear)
            (subst (λ (x : DynamicPriorityConfig F). IsOpen F x (context_at c)) (sym k) h.open_)
            (subst
              (λ (x : DynamicPriorityConfig F).
                (y : DispatchCandidate F) × IsFeasible F x (context_at c) y)
              (sym k) (h.candidate, h.feasible)) in
        (o, rw (h.found, plan_next) e, a)

    -- planNext returns a RELEASE exactly when the direction is known, no other direction of its
    -- corridor is in use, the constraints on it hold, and some candidate whose movements can be
    -- reserved passes every guard; the corridors are held once each.
    pub plan_next_iff :
        IsMap m.corridors
        → ((o : DispatchManager F × DispatchDecision F) × (plan_next F m id now wall ≡ some o)
            × (o.1.action ≡ release))
          ↔ CanRelease
    plan_next_iff keys = (
      λ (o, e, a).
          let (o', f, w) = plan_next_cases F m id now wall in
          let same : o' ≡ o = some-eq (sym f ∙ e) in
          elim w [
            | inr h ↦ Issues-CanRelease o' h
            | inl h ↦ absurd (
                h.action (ap (λ (x : DispatchManager F × DispatchDecision F). x.1.action) same ∙ a))
          ],
      CanRelease-plan_next keys,
    )
