-- ===== src/Manager/Names.antt =====
-- The tables of server/src/DispatchManager.cpp name each direction as its state does, and a plan
-- takes no command's place.
use multi_agent_route_planni.Base.{
  ℕ, String, ◌≡◌, refl, sym, ap, ◌∙◌, subst, inl, inr, true, false, none, some, List, arith, ◌==◌,
  nat_eq, string_eq, erase, some-eq, Bool-cases, Option-cases, lookup, insert, lookup-insert,
}
use multi_agent_route_planni.Base.Floats.{Floats}
use multi_agent_route_planni.Dispatch.{DispatchCandidate, SharedCorridorState, DispatchDecision}
use multi_agent_route_planni.Policy.Choice.{decide_release_safe}
use multi_agent_route_planni.Manager.{DispatchManager, replace_candidates, mark_corridor_exited}
use multi_agent_route_planni.Manager.Planning.{context_for, prepare, plan_next}
use multi_agent_route_planni.Manager.Answers.{
  entered, count_release, confirm, confirm_entry, cancel_pending,
}
use multi_agent_route_planni.Manager.Interlock.{Corridors}
use multi_agent_route_planni.Manager.Safety.{IsSafe}
use multi_agent_route_planni.Manager.Plans.{Issues, plan_next_cases}

module _ (F : Floats) where
  abbrev pub IsNamed : Corridors F → Type 0
  IsNamed cs =
      (id : String) (c : SharedCorridorState F)
      → lookup id cs ≡ some c
      → c.corridor_resource_id ≡ id

  pub insert-IsNamed :
      (id : String) (c : SharedCorridorState F) (cs : Corridors F)
      → c.corridor_resource_id ≡ id
      → IsNamed cs
      → IsNamed (insert id c cs)
  insert-IsNamed id c cs same h j d e = elim (Bool-cases (id == j)) [
    | inl here ↦
        let c=d : c ≡ d = ground (arith, here, e, lookup-insert id j c cs) in
        subst (λ (x : SharedCorridorState F). x.corridor_resource_id ≡ j) c=d
          (same ∙ (string_eq.beq_iff id j).0 here)
    | inr other ↦ h j d (ground (arith, other, e, lookup-insert id j c cs))
  ]

  -- A command that is issued names its direction, for which no other one waited.
  pub Issues-names :
      (m : DispatchManager F) (id : String) (now wall : ℕ)
      (o : DispatchManager F × DispatchDecision F)
      → IsSafe F m
      → IsNamed m.corridors
      → Issues F m id now wall o
      → (o.1.corridor_resource_id ≡ id) × (lookup id m.pending_decisions ≡ none)
  unfolding context_for
  Issues-names m id now wall o v named h =
      let context = context_for F (prepare F m id now) id now wall h.corridor in
      let releases = ap (λ (d : DispatchDecision F). d.action) (sym h.chosen) ∙ h.action in
      let (open_, found) = decide_release_safe F m.policy_config context releases in
      let (c, f, r) = found in
      (
        ap (λ (d : DispatchDecision F). d.corridor_resource_id) h.chosen
            ∙ r.resource
            ∙ named id h.corridor h.found,
        ground (arith, v.matched id, h.found, open_.idle),
      )

  pub plan_next-IsNamed :
      (m : DispatchManager F) (id : String) (now wall : ℕ)
      {o : DispatchManager F × DispatchDecision F}
      → IsNamed m.corridors
      → plan_next F m id now wall ≡ some o
      → IsNamed o.0.corridors
  plan_next-IsNamed m id now wall {o} named e =
      let (o', f, w) = plan_next_cases F m id now wall in
      let same : o' ≡ o = some-eq (sym f ∙ e) in
      subst (λ (x : DispatchManager F × DispatchDecision F). IsNamed x.0.corridors) same
        (elim w [
          | inl h ↦ rw h.corridors named
          | inr h ↦ rw h.corridors (
              insert-IsNamed id (record h.corridor { command_pending = true }) m.corridors
                (named id h.corridor h.found) named)
        ])

  pub replace_candidates-IsNamed :
      (m : DispatchManager F) (id : String) (cs : List (DispatchCandidate F)) (wall : ℕ)
      → IsNamed m.corridors
      → IsNamed (replace_candidates F m id cs wall).0.corridors
  unfolding replace_candidates
  replace_candidates-IsNamed m id cs wall named = elim (Option-cases (lookup id m.corridors)) [
    | inl e ↦ rw (e, replace_candidates) named
    | inr (c, e) ↦ rw (e, replace_candidates) (insert-IsNamed id _ m.corridors (named id c e) named)
  ]

  pub mark_corridor_exited-IsNamed :
      (m : DispatchManager F) (id : String)
      → IsNamed m.corridors
      → IsNamed (mark_corridor_exited F m id).0.corridors
  unfolding mark_corridor_exited
  mark_corridor_exited-IsNamed m id named = elim (Option-cases (lookup id m.corridors)) [
    | inl e ↦ rw (e, mark_corridor_exited) named
    | inr (c, e) ↦ elim (Bool-cases (c.occupancy == 0)) [
      | inl empty ↦ rw (e, mark_corridor_exited, empty) named
      | inr used ↦
          rw (e, mark_corridor_exited, used) (insert-IsNamed id _ m.corridors (named id c e) named)
    ]
  ]

  count_release-corridors :
      (m : DispatchManager F) (id line_id : String)
      → (count_release F m id line_id).corridors ≡ m.corridors
  unfolding count_release
  count_release-corridors m id line_id = ground arith

  -- What an answer to the waiting command does to the tables.
  pub confirm_entry_answers :
      (m : DispatchManager F) (id t : String) (now : ℕ) (d : DispatchDecision F)
      → IsSafe F m
      → lookup id m.pending_decisions ≡ some d
      → d.train_id ≡ t
      → ((confirm_entry F m id t now).1 ≡ true)
        × ((confirm_entry F m id t now).0.pending_decisions ≡ erase id m.pending_decisions)
        × (IsNamed m.corridors → IsNamed (confirm_entry F m id t now).0.corridors)
  unfolding confirm_entry confirm entered
  confirm_entry_answers m id t now d v e same = elim (Option-cases (lookup id m.corridors)) [
    | inl f ↦ absurd (ground (arith, v.matched id, e, f))
    | inr (c, f) ↦
        let same' = (string_eq.beq_iff d.train_id t).1 same in
        rw (e, confirm_entry, f, same')
          (
            refl,
            refl,
            λ named. insert-IsNamed id (entered F t now c) m.corridors (named id c f) named,
          )
  ]

  pub cancel_pending_answers :
      (m : DispatchManager F) (id : String) (d : DispatchDecision F)
      → IsSafe F m
      → lookup id m.pending_decisions ≡ some d
      → ((cancel_pending F m id).1 ≡ true)
        × ((cancel_pending F m id).0.pending_decisions ≡ erase id m.pending_decisions)
        × (IsNamed m.corridors → IsNamed (cancel_pending F m id).0.corridors)
  unfolding cancel_pending
  cancel_pending_answers m id d v e = elim (Option-cases (lookup id m.corridors)) [
    | inl f ↦ absurd (ground (arith, v.matched id, e, f))
    | inr (c, f) ↦
        rw (e, cancel_pending, f)
          (refl, refl, λ named. insert-IsNamed id _ m.corridors (named id c f) named)
  ]

  pub cancel_pending-none :
      (m : DispatchManager F) (id : String)
      → lookup id m.pending_decisions ≡ none
      → cancel_pending F m id ≡ (m, false)
  unfolding cancel_pending
  cancel_pending-none m id e = rw (e, cancel_pending) refl
