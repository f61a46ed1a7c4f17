-- ===== src/Policy/Release.antt =====
-- What a RELEASE of server/src/DynamicPriorityPolicy.cpp means, and when there is one.
use mathlib.Core.Option
use mathlib.Core.List.{Memᴰ}
use multi_agent_route_planni.Base.{
  ◌+◌, ◌≤◌, ◌<◌, ◌≡◌, ◌≢◌, refl, sym, ◌∙◌, ◌⊎◌, inl, inr, some-eq, Bool, true, false, ◌&&◌, Option,
  none, some, List, [], ◌∷◌, arith, nat_eq, string_eq, keep_some_from, mem-keep_some, Option-cases,
}
use multi_agent_route_planni.Base.Floats.{Floats}
use multi_agent_route_planni.Dispatch.{
  release, DispatchCandidate, LineDispatchState, DispatchContext, DispatchDecision,
  DynamicPriorityConfig,
}
use multi_agent_route_planni.Policy.Constraints.{
  elapsed_since, make_decision, minimum_headway, hard_constraint, feasible_line,
}
use multi_agent_route_planni.Policy.Scoring.{
  ScoredCandidate, score_candidate, scored_item, scored, has_alternative_line, eligible,
}
use multi_agent_route_planni.Policy.Decision.{
  waits_longer, scores_higher, select_by, select, release_decision, choose, decide,
}

module _ (F : Floats) (config : DynamicPriorityConfig F) (context : DispatchContext F) where
  -- The constraints on the corridor, as the clocks and counters stand.
  pub record IsOpen : Type 0 where
    pub fresh :
        (0 < context.corridor.received_at_wall_ms)
        × (context.corridor.received_at_wall_ms ≤ context.wall_now_ms)
        × (context.wall_now_ms
            ≤ context.corridor.received_at_wall_ms + config.telemetry_stale_wall_ms)
    pub idle : context.corridor.command_pending ≡ false
    pub downstream : context.corridor.downstream_available ≡ true
    pub room : context.corridor.occupancy < context.corridor.capacity
    pub headway :
        (context.corridor.last_entry_simulation_ms ≡ 0)
        ⊎ (minimum_headway F config context.corridor
            ≤ elapsed_since context.simulation_now_ms context.corridor.last_entry_simulation_ms)

  pub hard_constraint-IsOpen : hard_constraint F config context ≡ none → IsOpen
  unfolding hard_constraint
  hard_constraint-IsOpen h = ground arith

  pub IsOpen-hard_constraint : IsOpen → hard_constraint F config context ≡ none
  unfolding hard_constraint
  IsOpen-hard_constraint h = ground arith

  hard_constraint-ne-release :
      (d : DispatchDecision F) → hard_constraint F config context ≡ some d → d.action ≢ release
  unfolding hard_constraint make_decision
  hard_constraint-ne-release d h e = ground arith

  -- A candidate in the running, with its line.
  abbrev pub IsFeasible : DispatchCandidate F → Type 0
  IsFeasible c =
      Memᴰ c context.corridor.candidates
      × ((line : LineDispatchState F) × (feasible_line F config context c ≡ some line))

  pub map-some :
      {A B : Type 0} (f : A → B) (o : Option A) (b : B)
      → Option.map f o ≡ some b
      → (a : A) × (o ≡ some a) × (b ≡ f a)
  map-some f none b e = absurd (ground arith)
  map-some f (some a) b e = (a, refl, sym (some-eq e))

  pub scored-mem :
      (cs : List (DispatchCandidate F)) (i : ScoredCandidate F)
      → Memᴰ i (scored F config context cs)
      → (c : DispatchCandidate F) × Memᴰ c cs
        × ((line : LineDispatchState F) × (feasible_line F config context c ≡ some line)
            × (i ≡ score_candidate F config context c line))
  unfolding scored
  scored-mem cs i m =
      let (c, m', e) = keep_some_from (scored_item F config context) cs i m in
      (c, m', map-some (score_candidate F config context c) (feasible_line F config context c) i e)

  pub mem-scored :
      (cs : List (DispatchCandidate F)) (c : DispatchCandidate F) (line : LineDispatchState F)
      → Memᴰ c cs
      → feasible_line F config context c ≡ some line
      → Memᴰ (score_candidate F config context c line) (scored F config context cs)
  unfolding scored
  mem-scored cs c line m e =
      mem-keep_some (scored_item F config context) cs c (score_candidate F config context c line) m
        (rw e refl)

  abbrev pub items : List (ScoredCandidate F)
  items = scored F config context context.corridor.candidates

  abbrev pub alternative : Bool
  alternative = has_alternative_line F config context items

  abbrev pub starving : ScoredCandidate F → Bool
  starving i = eligible alternative i && i.maximum_wait_exceeded

  -- How the winner was found: among the starving, or by score where none of them is eligible.
  abbrev pub Wins : ScoredCandidate F → Type 0
  Wins s =
      (select_by starving (waits_longer F) items none ≡ some s)
      ⊎ ((select_by starving (waits_longer F) items none ≡ none)
          × (select_by (eligible alternative) (scores_higher F) items none ≡ some s))

  select-Wins : {s : ScoredCandidate F} → select F alternative items ≡ some s → Wins s
  unfolding select
  select-Wins {s} e = elim (Option-cases (select_by starving (waits_longer F) items none)) [
    | inl f ↦ inr (f, rw (f, select) at e)
    | inr (w, f) ↦ inl (f ∙ rw (f, select) at e)
  ]

  choose_release :
      (xs : List (ScoredCandidate F))
      → (choose F config context xs).action ≡ release
      → (s : ScoredCandidate F) × (select F (has_alternative_line F config context xs) xs ≡ some s)
        × (choose F config context xs ≡ release_decision F context.corridor s)
  unfolding choose make_decision
  choose_release [] e = absurd (ground arith)
  choose_release (x ∷ xs) e =
      elim (Option-cases (select F (has_alternative_line F config context (x ∷ xs)) (x ∷ xs))) [
        | inl f ↦ absurd (ground arith)
        | inr (s, f) ↦ (s, f, rw (f, choose) refl)
      ]

  pub decide_release :
      (decide F config context).action ≡ release
      → (hard_constraint F config context ≡ none)
        × ((s : ScoredCandidate F) × Wins s
            × (decide F config context ≡ release_decision F context.corridor s))
  unfolding decide
  decide_release e = elim (Option-cases (hard_constraint F config context)) [
    | inr (d, f) ↦ absurd (hard_constraint-ne-release d f (rw (f, decide) at e))
    | inl f ↦
        let (s, w, r) = choose_release items (rw (f, decide) at e) in
        (f, (s, select-Wins w, rw (f, decide) r))
  ]
