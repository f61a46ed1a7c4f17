-- ===== src/Policy/Choice.antt =====
-- The properties of `decide` in server/src/DynamicPriorityPolicy.cpp: safety, progress, no
-- starvation, the limit on consecutive releases, and the score.
use mathlib.Core.List.{Memᴰ}
use multi_agent_route_planni.Base.{
  ◌≡◌, ◌↔◌, refl, ap, subst, sym, ◌∙◌, inl, inr, true, false, not, none, some, List, [], ◌∷◌, arith,
  ◌==◌, nat_eq, string_eq, any_of_witness, Bool-cases, Option-cases,
}
use multi_agent_route_planni.Base.Floats.{Floats}
use multi_agent_route_planni.Dispatch.{
  release, DispatchCandidate, LineDispatchState, DispatchContext, DispatchDecision,
  DynamicPriorityConfig,
}
use multi_agent_route_planni.Policy.Constraints.{make_decision, feasible_line}
use multi_agent_route_planni.Policy.Scoring.{
  ScoredCandidate, score_candidate, has_alternative_line, eligible,
}
use multi_agent_route_planni.Policy.Decision.{
  waits_longer, scores_higher, select_by, select, release_decision, choose, decide,
}
use multi_agent_route_planni.Policy.Selection.{select_by_from, select_by_finds}
use multi_agent_route_planni.Policy.Release.{
  IsOpen, hard_constraint-IsOpen, IsOpen-hard_constraint, IsFeasible, scored-mem, mem-scored, items,
  alternative, starving, Wins, decide_release,
}

module _ (F : Floats) (config : DynamicPriorityConfig F) (context : DispatchContext F) where
  pub winner_mem :
      (s : ScoredCandidate F)
      → Wins F config context s
      → Memᴰ s (items F config context) × (eligible (alternative F config context) s ≡ true)
  winner_mem s (inl e) =
      elim (select_by_from (starving F config context) (waits_longer F) (items F config context)
        none e) [ inl f ↦ absurd (ground arith) | inr (m, r) ↦ (m, ground arith) ]
  winner_mem s (inr (_, e)) =
      elim (select_by_from (eligible (alternative F config context)) (scores_higher F)
        (items F config context) none e) [ inl f ↦ absurd (ground arith) | inr (m, r) ↦ (m, r) ]

  -- The decision releases this candidate.
  pub record Releases (c : DispatchCandidate F) (d : DispatchDecision F) : Type 0 where
    pub train : d.train_id ≡ c.train_id
    pub line : d.line_id ≡ c.line_id
    pub movements : d.reserved_intersection_movement_ids ≡ c.required_intersection_movement_ids
    pub resource : d.corridor_resource_id ≡ context.corridor.corridor_resource_id
    pub corridor : d.corridor_id ≡ context.corridor.corridor_id
    pub direction : d.direction ≡ context.corridor.direction

  Releases-release_decision :
      (s : ScoredCandidate F) → Releases s.candidate (release_decision F context.corridor s)
  unfolding release_decision make_decision
  Releases-release_decision s = record {
    train = refl;
    line = refl;
    movements = refl;
    resource = refl;
    corridor = refl;
    direction = refl;
  }

  score_candidate-candidate :
      (c : DispatchCandidate F) (line : LineDispatchState F)
      → (score_candidate F config context c line).candidate ≡ c
  unfolding score_candidate
  score_candidate-candidate c line = refl

  -- What a release comes from.
  pub record Winner (c : DispatchCandidate F) (s : ScoredCandidate F) : Type 0 where
    pub feasible : IsFeasible F config context c
    pub scored_as :
        (line : LineDispatchState F) × (feasible_line F config context c ≡ some line)
        × (s ≡ score_candidate F config context c line)
    pub wins : Wins F config context s
    pub released : Releases c (decide F config context)

  pub find-Winner :
      (s : ScoredCandidate F)
      → Wins F config context s
      → decide F config context ≡ release_decision F context.corridor s
      → (c : DispatchCandidate F) × Winner c s
  find-Winner s w d =
      let (c, m, found) =
        scored-mem F config context context.corridor.candidates s (winner_mem s w).0 in
      let (line, f, e) = found in
      let same : s.candidate ≡ c =
        ap (λ (y : ScoredCandidate F). y.candidate) e ∙ score_candidate-candidate c line in
      (
        c,
        record {
          feasible = (m, (line, f));
          scored_as = (line, f, e);
          wins = w;
          released =
              subst (λ y. Releases y (decide F config context)) same
                (subst (Releases s.candidate) (sym d) (Releases-release_decision s));
        },
      )

  -- A release of the policy is safe: the corridor's state is fresh, no command is pending, the way
  -- out is free, there is room, the headway has passed, and the released train is one of the
  -- candidates that passed every guard, with its own line and movements.
  pub decide_release_safe :
      (decide F config context).action ≡ release
      → IsOpen F config context
        × ((c : DispatchCandidate F) × IsFeasible F config context c
            × Releases c (decide F config context))
  decide_release_safe e =
      let (open_, chosen) = decide_release F config context e in
      let (s, w, d) = chosen in
      let (c, win) = find-Winner s w d in
      (hard_constraint-IsOpen F config context open_, (c, win.feasible, win.released))

  limit_of_line :
      (c : DispatchCandidate F) (line : LineDispatchState F)
      → (c.line_id == context.last_released_line_id) ≡ false
      → (score_candidate F config context c line).consecutive_limit_reached ≡ false
  unfolding score_candidate
  limit_of_line c line h = ground arith

  -- Some item in the running is eligible: one of another line, if there is one.
  eligible_exists :
      (x : ScoredCandidate F)
      → Memᴰ x (items F config context)
      → (y : ScoredCandidate F) × Memᴰ y (items F config context)
        × (eligible (alternative F config context) y ≡ true)
  unfolding has_alternative_line
  eligible_exists x m = elim (Bool-cases (alternative F config context)) [
    | inr none_other ↦ (x, m, rw none_other (ground arith))
    | inl other ↦
        let (y, my, q) =
          any_of_witness
            (λ (i : ScoredCandidate F). not (i.candidate.line_id == context.last_released_line_id))
            (items F config context) other in
        let (c, mc, found) = scored-mem F config context context.corridor.candidates y my in
        let (line, f, e) = found in
        let same : y.candidate ≡ c =
          ap (λ (z : ScoredCandidate F). z.candidate) e ∙ score_candidate-candidate c line in
        let free : (score_candidate F config context c line).consecutive_limit_reached ≡ false =
          limit_of_line c line (
            subst
              (λ (z : DispatchCandidate F). (z.line_id == context.last_released_line_id) ≡ false)
              same (ground arith)) in
        let free' : y.consecutive_limit_reached ≡ false =
          ap (λ (z : ScoredCandidate F). z.consecutive_limit_reached) e ∙ free in
        (y, my, rw free' (ground arith))
  ]

  select_finds :
      (x : ScoredCandidate F)
      → Memᴰ x (items F config context)
      → eligible (alternative F config context) x ≡ true
      → (s : ScoredCandidate F) × (select F (alternative F config context) (items F config context)
          ≡ some s)
  unfolding select scores_higher
  select_finds x m q =
      elim (Option-cases
        (select_by (starving F config context) (waits_longer F) (items F config context) none)) [
          | inr (s, f) ↦ (s, rw (f, select) refl)
          | inl f ↦
              let (s, g) =
                select_by_finds (eligible (alternative F config context)) (scores_higher F)
                  (items F config context) x (λ y. refl) m q in
              (s, rw (f, select) g)
        ]

  choose_finds :
      (xs : List (ScoredCandidate F)) (s : ScoredCandidate F)
      → select F (has_alternative_line F config context xs) xs ≡ some s
      → (choose F config context xs).action ≡ release
  unfolding choose select select_by release_decision make_decision
  choose_finds [] s e = absurd (ground arith)
  choose_finds (x ∷ xs) s e = rw (e, choose) refl

  decide_finds :
      (c : DispatchCandidate F)
      → IsOpen F config context
      → IsFeasible F config context c
      → (decide F config context).action ≡ release
  unfolding decide
  decide_finds c open_ (m, (line, f)) =
      let mx = mem-scored F config context context.corridor.candidates c line m f in
      let (y, my, q) = eligible_exists (score_candidate F config context c line) mx in
      let (s, e) = select_finds y my q in
      rw (IsOpen-hard_constraint F config context open_, decide)
        (choose_finds (items F config context) s e)

  -- The policy releases a train exactly when the constraints on the corridor hold and some
  -- candidate passes every guard.
  pub decide_release_iff :
      ((decide F config context).action ≡ release)
      ↔ (IsOpen F config context × ((c : DispatchCandidate F) × IsFeasible F config context c))
  decide_release_iff = (
    λ e.
        let (open_, released) = decide_release_safe e in
        let (c, feasible, _) = released in (open_, (c, feasible)),
    λ (open_, w). decide_finds w.0 open_ w.1,
  )
