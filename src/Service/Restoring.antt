-- ===== src/Service/Restoring.antt =====
-- The commands and the passages that a start of server/src/RailwayDispatchService.cpp restores.
use multi_agent_route_planni.Base.{
  ℕ, ◌≡◌, refl, ap, ◌∙◌, inl, inr, not, none, some, List, [], ◌∷◌, arith, ◌==◌, nat_eq, string_eq,
  Result, ok, fail, Bool-cases, lookup, insert, insert-IsMap, lookup-insert, ◌⊎◌, ◌≤◌, String, Bool,
  true, All, Map,
}
use multi_agent_route_planni.Base.Floats.{Floats}
use multi_agent_route_planni.Dispatch.{DispatchDecision}
use multi_agent_route_planni.Manager.{DispatchManager}
use multi_agent_route_planni.Manager.Answers.{restore_pending}
use multi_agent_route_planni.Manager.Histories.{restore_pending-IsSafe, restore_active-IsSafe}
use multi_agent_route_planni.Manager.Restores.{restore_pending_cases, restore_active_cases}
use multi_agent_route_planni.Manager.Names.{IsNamed}
use multi_agent_route_planni.Service.{DispatchRecoveryState, RailwayDispatchService}
use multi_agent_route_planni.Service.Recovery.{
  Outcome, restore_commands, restore_passages, enabled, restore_all,
}
use multi_agent_route_planni.Service.Backing.{
  Sound, IsSound, IsWaiting, IsWaiting-insert, Backed-insert, Backed-command, step-Sound,
}

module _ (F : Floats) where
  -- An answer over commands that the manager waits for, however far the restoring came: it failed,
  -- and the data layer is as it was, or it succeeded.
  abbrev pub Ends : Bool → (RailwayDispatchService F → Type 0) → Outcome F → Type 0
  Ends on P o =
      (s : RailwayDispatchService F) × (r : Result (Unit {0})) × (o ≡ some (s, r))
      × IsSound F s
      × (((reason : String) × (r ≡ fail reason) × (s.persistence_enabled ≡ on))
          ⊎ ((r ≡ ok tt) × P s))

  restored-Sound :
      (s : RailwayDispatchService F) (d : DispatchDecision F) (n : DispatchManager F)
      → restore_pending F s.dispatch_manager d ≡ some (n, ok tt)
      → lookup d.corridor_resource_id s.dispatch_manager.pending_decisions ≡ none
      → n.pending_decisions ≡ insert d.corridor_resource_id d s.dispatch_manager.pending_decisions
      → (IsNamed F s.dispatch_manager.corridors → IsNamed F n.corridors)
      → IsSound F s
      → Sound F (insert d.train_id d s.commands_by_train) n
  restored-Sound s d n e free pending named v =
      let m = s.dispatch_manager in
      let id = d.corridor_resource_id in
      record {
        safe = restore_pending-IsSafe F m d v.safe e;
        named = named v.named;
        keys = insert-IsMap d.train_id d s.commands_by_train v.keys;
        backed = rw pending (
            Backed-command F d.train_id d s.commands_by_train (insert id d m.pending_decisions) refl
              (
                d,
                ground (arith, lookup-insert id id d m.pending_decisions, string_eq.beq_iff id id),
                refl,
              )
              (Backed-insert F id d s.commands_by_train m.pending_decisions free v.backed));
      }

  abbrev AreWaiting : List (DispatchDecision F) → RailwayDispatchService F → Type 0
  AreWaiting ds s = All (IsWaiting F s.dispatch_manager.pending_decisions) ds

  -- The manager waits for the commands restored, and for those that it waited for before.
  abbrev AreRestored :
      List (DispatchDecision F) → RailwayDispatchService F → RailwayDispatchService F → Type 0
  AreRestored ds s n =
      (n.persistence_enabled ≡ s.persistence_enabled)
      × AreWaiting ds n
      × ((x : DispatchDecision F)
          → IsWaiting F s.dispatch_manager.pending_decisions x
          → IsWaiting F n.dispatch_manager.pending_decisions x)

  AreRestored-step :
      (d : DispatchDecision F) (ds : List (DispatchDecision F))
      (s next n : RailwayDispatchService F)
      → lookup d.corridor_resource_id s.dispatch_manager.pending_decisions ≡ none
      → next.dispatch_manager.pending_decisions
        ≡ insert d.corridor_resource_id d s.dispatch_manager.pending_decisions
      → next.persistence_enabled ≡ s.persistence_enabled
      → AreRestored ds next n
      → AreRestored (d ∷ ds) s n
  AreRestored-step d ds s next n free pending off (on, rest, kept) =
      let id = d.corridor_resource_id in
      let ps = s.dispatch_manager.pending_decisions in
      (
        on ∙ off,
        (
          kept d (
              rw pending
                (d, ground (arith, lookup-insert id id d ps, string_eq.beq_iff id id), refl)),
          rest,
        ),
        λ x w. kept x (rw pending (IsWaiting-insert F id d ps x free w)),
      )

  restore_commands-Ends :
      (revision : ℕ) (ds : List (DispatchDecision F)) (s : RailwayDispatchService F)
      → IsSound F s
      → Ends s.persistence_enabled (AreRestored ds s) (restore_commands F revision ds s)
  unfolding restore_commands
  restore_commands-Ends revision [] s v = (s, ok tt, refl, v, inr (refl, (refl, tt, λ x w. w)))
  restore_commands-Ends revision (d ∷ ds) s v =
      let m = s.dispatch_manager in
      elim (Bool-cases (not (d.topology_revision == revision))) [
        | inl other ↦ (s, fail "", simp (other, restore_commands) refl, v, inl ("", refl, refl))
        | inr same ↦ elim (restore_pending_cases F m d v.safe) [
          | inl (reason, e) ↦ (
            record s { dispatch_manager = m },
            fail reason,
            simp (same, restore_commands, e) refl,
            v,
            inl (reason, refl, refl),
          )
          | inr (n, e, free, pending, named) ↦
              let next = record s {
                dispatch_manager = n;
                commands_by_train = insert d.train_id d s.commands_by_train;
              } in
              let (s', r, f, v', ends) =
                restore_commands-Ends revision ds next
                  (restored-Sound s d n e free pending named v) in
              (
                s',
                r,
                simp (same, restore_commands, e) f,
                v',
                elim ends [
                  | inl failed ↦ inl failed
                  | inr (done, restored) ↦
                      inr (done, AreRestored-step d ds s next s' free pending refl restored)
                ],
              )
        ]
      ]

  -- The train is under way.
  abbrev IsUnderWay : Map String (DispatchDecision F) → DispatchDecision F → Type 0
  IsUnderWay active d = (x : DispatchDecision F) × (lookup d.train_id active ≡ some x)

  abbrev AreUnderWay :
      List (DispatchDecision F) → RailwayDispatchService F → RailwayDispatchService F → Type 0
  AreUnderWay ds s n =
      (n.dispatch_manager.pending_decisions ≡ s.dispatch_manager.pending_decisions)
      × All (IsUnderWay n.active_by_train) ds
      × ((x : DispatchDecision F) → IsUnderWay s.active_by_train x → IsUnderWay n.active_by_train x)

  insert-IsUnderWay :
      (t : String) (d x : DispatchDecision F) (active : Map String (DispatchDecision F))
      → (t ≡ x.train_id) ⊎ IsUnderWay active x
      → IsUnderWay (insert t d active) x
  insert-IsUnderWay t d x active h = elim (Bool-cases (t == x.train_id)) [
    | inl here ↦ (d, ground (arith, here, lookup-insert t x.train_id d active))
    | inr other ↦ elim h [
      | inl same ↦ absurd (ground (arith, other, (string_eq.beq_iff t x.train_id).1 same))
      | inr (y, e) ↦ (y, ground (arith, other, e, lookup-insert t x.train_id d active))
    ]
  ]

  restore_passages-Ends :
      (revision : ℕ) (ds : List (DispatchDecision F)) (s : RailwayDispatchService F)
      → IsSound F s
      → Ends s.persistence_enabled (AreUnderWay ds s) (restore_passages F revision ds s)
  unfolding restore_passages
  restore_passages-Ends revision [] s v = (s, ok tt, refl, v, inr (refl, (refl, tt, λ x w. w)))
  restore_passages-Ends revision (d ∷ ds) s v =
      let m = s.dispatch_manager in
      elim (Bool-cases (not (d.topology_revision == revision))) [
        | inl other ↦ (s, fail "", simp (other, restore_passages) refl, v, inl ("", refl, refl))
        | inr same ↦ elim (restore_active_cases F m d) [
          | inl (reason, e) ↦ (
            record s { dispatch_manager = m },
            fail reason,
            simp (same, restore_passages, e) refl,
            v,
            inl (reason, refl, refl),
          )
          | inr (n, e, pending, named) ↦
              let t = d.train_id in
              let next = record s {
                dispatch_manager = n;
                active_by_train = insert t d s.active_by_train;
              } in
              let sound =
                step-Sound F s.commands_by_train m n (restore_active-IsSafe F m d v.safe e)
                  (named v.named) pending v in
              let (s', r, f, v', ends) = restore_passages-Ends revision ds next sound in
              (
                s',
                r,
                simp (same, restore_passages, e) f,
                v',
                elim ends [
                  | inl failed ↦ inl failed
                  | inr (done, (same_pending, rest, kept)) ↦ inr (
                    done,
                    (
                      same_pending ∙ pending,
                      (kept d (insert-IsUnderWay t d d s.active_by_train (inl refl)), rest),
                      λ x w. kept x (insert-IsUnderWay t d x s.active_by_train (inr w)),
                    ),
                  )
                ],
              )
        ]
      ]

  -- What the data layer had is restored, and the data layer is on; no id is given out twice.
  pub record IsStarted (r : DispatchRecoveryState F) (s : RailwayDispatchService F) : Type 0 where
    pub on : s.persistence_enabled ≡ true
    pub healthy : s.persistence_healthy ≡ true
    pub later_ids : r.next_command_sequence ≤ s.next_command_id
    pub waiting : All (IsWaiting F s.dispatch_manager.pending_decisions) r.pending_commands
    pub under_way :
        All
          (λ (d : DispatchDecision F).
            (x : DispatchDecision F) × (lookup d.train_id s.active_by_train ≡ some x))
          r.active_commands

  -- Whatever the data layer has, the commands that are restored are those that the manager waits for.
  pub restore_all-Ends :
      (r : DispatchRecoveryState F) (s : RailwayDispatchService F)
      → IsSound F s
      → Ends s.persistence_enabled (IsStarted r) (restore_all F r s)
  unfolding restore_all
  restore_all-Ends r s v =
      let (s₁, r₁, e₁, v₁, ends₁) =
        restore_commands-Ends r.topology_revision r.pending_commands s v in
      elim ends₁ [
        | inl (reason, f, off) ↦
            let e = e₁ ∙ ap (λ x. some (s₁, x)) f in
            (s₁, fail reason, simp (e, restore_all) refl, v₁, inl (reason, refl, off))
        | inr (f, (same_on, waiting, _)) ↦
            let e = e₁ ∙ ap (λ x. some (s₁, x)) f in
            let (s₂, r₂, e₂, v₂, ends₂) =
              restore_passages-Ends r.topology_revision r.active_commands s₁ v₁ in
            elim ends₂ [
              | inl (reason, g, off) ↦
                  let e' = e₂ ∙ ap (λ x. some (s₂, x)) g in
                  (
                    s₂,
                    fail reason,
                    simp (e, restore_all, e') refl,
                    v₂,
                    inl (reason, refl, off ∙ same_on),
                  )
              | inr (g, (pending, under_way, _)) ↦
                  let e' = e₂ ∙ ap (λ x. some (s₂, x)) g in
                  (
                    enabled F r.next_command_sequence s₂,
                    ok tt,
                    simp (e, restore_all, e') refl,
                    v₂,
                    inr (
                      refl,
                      record {
                        on = refl;
                        healthy = refl;
                        later_ids = ground arith;
                        waiting = rw pending waiting;
                        under_way = under_way;
                      },
                    ),
                  )
            ]
      ]
