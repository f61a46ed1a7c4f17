-- ===== src/Policy/Fairness.antt =====
-- Among the feasible trains of `decide` in server/src/DynamicPriorityPolicy.cpp: no starvation, the
-- limit on consecutive releases, and the score.
use mathlib.Core.List.{Memᴰ}
use multi_agent_route_planni.Base.{
  ◌≤◌, ◌<◌, ◌≡◌, ◌≢◌, refl, ap, sym, ◌∙◌, ◌⊎◌, inl, inr, true, false, not, none, some, arith, ◌==◌,
  nat_eq, string_eq, ltb, leb, any_of_mem, Bool-cases,
}
use multi_agent_route_planni.Base.Floats.{Floats}
use multi_agent_route_planni.Dispatch.{
  release, DispatchCandidate, LineDispatchState, DispatchContext, DispatchDecision,
  DynamicPriorityConfig,
}
use multi_agent_route_planni.Policy.Constraints.{feasible_line}
use multi_agent_route_planni.Policy.Scoring.{
  ScoredCandidate, waiting, breakdown_of, score_of, score_candidate, has_alternative_line, eligible,
}
use multi_agent_route_planni.Policy.Decision.{
  waits_longer, scores_higher, select_by, release_decision, decide,
}
use multi_agent_route_planni.Policy.Selection.{select_by_from, select_by_finds, select_by_best_none}
use multi_agent_route_planni.Policy.Release.{
  IsFeasible, mem-scored, items, alternative, starving, decide_release,
}
use multi_agent_route_planni.Policy.Choice.{Releases, Winner, find-Winner, winner_mem}

-- What the policy needs of the order of doubles; IEEE comparisons satisfy it, NaN included.
pub record IsOrdered (F : Floats) : Type 0 where
  pub irreflexive : (a : F.Double) → F.ltb a a ≡ false
  pub transitive : (a b c : F.Double) → F.ltb a b ≡ true → F.ltb b c ≡ true → F.ltb a c ≡ true
  pub eq_ltb : (a b c : F.Double) → F.eqb a b ≡ true → F.ltb a c ≡ true → F.ltb b c ≡ true

module _ (F : Floats) (config : DynamicPriorityConfig F) (context : DispatchContext F) where
  score_candidate-waiting :
      (c : DispatchCandidate F) (line : LineDispatchState F)
      → ((score_candidate F config context c line).waiting_ms ≡ waiting F config context c)
        × ((score_candidate F config context c line).maximum_wait_exceeded
            ≡ leb config.maximum_wait_ms (waiting F config context c))
  unfolding score_candidate
  score_candidate-waiting c line = (refl, refl)

  longest :
      (s x : ScoredCandidate F)
      → select_by (starving F config context) (waits_longer F) (items F config context) none
        ≡ some s
      → Memᴰ x (items F config context)
      → starving F config context x ≡ true
      → x.waiting_ms ≤ s.waiting_ms
  unfolding waits_longer
  longest s x e m r =
      select_by_best_none (starving F config context) (waits_longer F)
        (λ s x. x.waiting_ms ≤ s.waiting_ms) (λ x. omega arith) (λ s x h. ground arith)
        (λ s t x h k. ground arith) (items F config context) s (λ y. refl) e x m r

  -- No starvation: if some feasible train has waited as long as the maximum, the train released is
  -- one that has waited at least as long as it.
  pub decide_longest_wait :
      (c : DispatchCandidate F)
      → (decide F config context).action ≡ release
      → IsFeasible F config context c
      → config.maximum_wait_ms ≤ waiting F config context c
      → (r : DispatchCandidate F) × IsFeasible F config context r
        × Releases F config context r (decide F config context)
        × (waiting F config context c ≤ waiting F config context r)
  decide_longest_wait c e (m, (line, f)) waited =
      let (open_, chosen) = decide_release F config context e in
      let (s, w, d) = chosen in
      let (r, win) = find-Winner F config context s w d in
      let x = score_candidate F config context c line in
      let mx = mem-scored F config context context.corridor.candidates c line m f in
      let (cw, cm) = score_candidate-waiting c line in
      let late : x.maximum_wait_exceeded ≡ true = ground arith in
      let starves : starving F config context x ≡ true = rw late refl in
      let (line', f', e') = win.scored_as in
      let (rw_, rm) = score_candidate-waiting r line' in
      let s_waiting : s.waiting_ms ≡ waiting F config context r =
        ap (λ (z : ScoredCandidate F). z.waiting_ms) e' ∙ rw_ in
      elim win.wins [
        | inl g ↦
            (r, win.feasible, win.released, omega (arith, longest s x g mx starves, cw, s_waiting))
        | inr (none_starves, _) ↦
            let (t, g) =
              select_by_finds (starving F config context) (waits_longer F) (items F config context)
                x (λ y. unfold waits_longer in refl) mx starves in
            absurd (ground arith)
      ]

  -- The limit on consecutive releases does not apply to this candidate.
  abbrev pub IsWithinLimit : DispatchCandidate F → Type 0
  IsWithinLimit c =
      (c.line_id ≢ context.last_released_line_id)
      ⊎ (context.consecutive_release_count < config.max_consecutive_release)
      ⊎ (config.max_consecutive_release ≡ 0)

  score_candidate-limit :
      (c : DispatchCandidate F) (line : LineDispatchState F)
      → IsWithinLimit c
      → (score_candidate F config context c line).consecutive_limit_reached ≡ false
  unfolding score_candidate
  score_candidate-limit c line h =
      ground (arith, string_eq.beq_iff c.line_id context.last_released_line_id)

  limit_reached :
      (c : DispatchCandidate F) (line : LineDispatchState F)
      → c.line_id ≡ context.last_released_line_id
      → 0 < config.max_consecutive_release
      → config.max_consecutive_release ≤ context.consecutive_release_count
      → (score_candidate F config context c line).consecutive_limit_reached ≡ true
  unfolding score_candidate
  limit_reached c line e p h =
      ground (arith, string_eq.beq_iff c.line_id context.last_released_line_id)

  within_limit :
      (r : DispatchCandidate F) (s : ScoredCandidate F) (c : DispatchCandidate F)
      → Winner F config context r s
      → r.line_id ≡ context.last_released_line_id
      → 0 < config.max_consecutive_release
      → config.max_consecutive_release ≤ context.consecutive_release_count
      → waiting F config context r < config.maximum_wait_ms
      → IsFeasible F config context c
      → c.line_id ≡ context.last_released_line_id
  unfolding has_alternative_line
  within_limit r s c win same positive reached early (m, (line, f)) =
      elim (Bool-cases (c.line_id == context.last_released_line_id)) [
        | inl e ↦ (string_eq.beq_iff c.line_id context.last_released_line_id).0 e
        | inr other ↦
            let (line', f', e') = win.scored_as in
            let x = score_candidate F config context c line in
            let mx = mem-scored F config context context.corridor.candidates c line m f in
            let has_other : alternative F config context ≡ true =
              any_of_mem
                (λ (i : ScoredCandidate F).
                  not (i.candidate.line_id == context.last_released_line_id))
                (items F config context) x mx (unfold score_candidate in ground arith) in
            let limited : s.consecutive_limit_reached ≡ true =
              ap (λ (z : ScoredCandidate F). z.consecutive_limit_reached) e'
              ∙ limit_reached r line' same positive reached in
            let (_, rm) = score_candidate-waiting r line' in
            let patient : s.maximum_wait_exceeded ≡ false =
              ap (λ (z : ScoredCandidate F). z.maximum_wait_exceeded) e' ∙ rm ∙ ground arith in
            let ok' = (winner_mem F config context s win.wins).1 in absurd (ground arith)
      ]

  -- A line at its limit of consecutive releases is released again only for a train that has waited
  -- as long as the maximum, or when no feasible train belongs to another line.
  pub decide_within_limit :
      (decide F config context).action ≡ release
      → (decide F config context).line_id ≡ context.last_released_line_id
      → 0 < config.max_consecutive_release
      → config.max_consecutive_release ≤ context.consecutive_release_count
      → ((r : DispatchCandidate F) × IsFeasible F config context r
          × Releases F config context r (decide F config context)
          × (config.maximum_wait_ms ≤ waiting F config context r))
        ⊎ ((c : DispatchCandidate F)
            → IsFeasible F config context c
            → c.line_id ≡ context.last_released_line_id)
  decide_within_limit e same positive reached =
      let (open_, chosen) = decide_release F config context e in
      let (s, w, d) = chosen in
      let (r, win) = find-Winner F config context s w d in
      let same_line = sym win.released.line ∙ same in
      elim (Bool-cases (ltb (waiting F config context r) config.maximum_wait_ms)) [
        | inl early ↦ inr (λ c feasible.
            within_limit r s c win same_line positive reached (ground arith) feasible)
        | inr late ↦ inl (r, win.feasible, win.released, ground arith)
      ]

  best_score :
      (s x : ScoredCandidate F)
      → IsOrdered F
      → select_by
          (eligible (alternative F config context))
          (scores_higher F)
          (items F config context)
          none
        ≡ some s
      → Memᴰ x (items F config context)
      → eligible (alternative F config context) x ≡ true
      → F.ltb s.score x.score ≡ false
  unfolding scores_higher
  best_score s x o e m r =
      select_by_best_none (eligible (alternative F config context)) (scores_higher F)
        (λ s x. F.ltb s.score x.score ≡ false) (λ x. o.irreflexive x.score) (λ s x h. ground arith)
        (λ s t x h k.
          ground (arith, o.transitive s.score t.score x.score, o.eq_ltb t.score s.score x.score))
        (items F config context) s (λ y. refl) e x m r

  -- If no feasible train has waited as long as the maximum, no feasible train within the limit on
  -- consecutive releases scores higher than the one released, where the order of doubles is a
  -- strict weak one.
  pub decide_highest_score :
      (c : DispatchCandidate F) (line : LineDispatchState F)
      → IsOrdered F
      → (decide F config context).action ≡ release
      → ((x : DispatchCandidate F)
          → IsFeasible F config context x
          → waiting F config context x < config.maximum_wait_ms)
      → Memᴰ c context.corridor.candidates
      → feasible_line F config context c ≡ some line
      → IsWithinLimit c
      → F.ltb
          (decide F config context).score
          (score_of F config context (breakdown_of F config context c line))
        ≡ false
  decide_highest_score c line o e patient m f within =
      let (open_, chosen) = decide_release F config context e in
      let (s, w, d) = chosen in
      let (r, win) = find-Winner F config context s w d in
      let x = score_candidate F config context c line in
      let mx = mem-scored F config context context.corridor.candidates c line m f in
      let free = score_candidate-limit c line within in
      let d_score : (decide F config context).score ≡ s.score =
        ap (λ (z : DispatchDecision F). z.score) d ∙ unfold release_decision in refl in
      let (line', f', e') = win.scored_as in
      let (_, rm) = score_candidate-waiting r line' in
      let calm : s.maximum_wait_exceeded ≡ false =
        ap (λ (z : ScoredCandidate F). z.maximum_wait_exceeded) e'
        ∙ rm
        ∙ ground (arith, patient r win.feasible) in
      elim win.wins [
        | inl g ↦
            elim (select_by_from (starving F config context) (waits_longer F)
              (items F config context) none g) [
                | inl h ↦ absurd (ground arith)
                | inr (_, h) ↦ absurd (ground arith)
              ]
        | inr (_, g) ↦
            rw d_score (unfold score_candidate in best_score s x o g mx (rw free (ground arith)))
      ]
