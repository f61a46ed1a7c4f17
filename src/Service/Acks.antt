-- ===== src/Service/Acks.antt =====
-- The game's answer to a command, before `acknowledge` of server/src/RailwayDispatchService.cpp.
use multi_agent_route_planni.Base.{
  ℕ, String, ◌≡◌, refl, sym, ◌∙◌, subst, ◌⊎◌, inl, inr, true, false, Bool, none, some, arith,
  if◌then◌else◌, string_eq, some-eq, Bool-cases, Option-cases, lookup, insert, erase, erase-IsMap,
}
use multi_agent_route_planni.Base.Floats.{Floats}
use multi_agent_route_planni.Dispatch.{DispatchDecision}
use multi_agent_route_planni.Manager.{DispatchManager}
use multi_agent_route_planni.Manager.Answers.{confirm_entry, cancel_pending}
use multi_agent_route_planni.Manager.Commands.{confirm_entry-IsSafe, cancel_pending-IsSafe}
use multi_agent_route_planni.Manager.Names.{IsNamed, confirm_entry_answers, cancel_pending_answers}
use multi_agent_route_planni.Manager.Safety.{IsSafe}
use multi_agent_route_planni.Service.{
  Answer, stored, refused, DispatchPersistence, RailwayDispatchService, with_health,
}
use multi_agent_route_planni.Service.Answering.{
  matches, settle_ack, settle_stored, asked, acknowledge_command, acknowledge,
}
use multi_agent_route_planni.Service.Backing.{IsSound, Backed-erase, own_train}

module _ (F : Floats) where
  -- The answer is taken: the command waits no longer, and a passage begins if it is accepted.
  pub record Taken (s : RailwayDispatchService F) (id t : String) (accepted : Bool)
      (command : DispatchDecision F) (o : RailwayDispatchService F × Bool) : Type 0 where
    pub found : lookup t s.commands_by_train ≡ some command
    pub at : command.corridor_resource_id ≡ id
    pub done : o.1 ≡ true
    pub commands : o.0.commands_by_train ≡ erase t s.commands_by_train
    pub pending :
        o.0.dispatch_manager.pending_decisions ≡ erase id s.dispatch_manager.pending_decisions
    pub active :
        o.0.active_by_train
        ≡ (if accepted then insert t command s.active_by_train else s.active_by_train)

  -- The answer is not taken: nothing changes but what is known of the data layer.
  pub record Left (s : RailwayDispatchService F) (o : RailwayDispatchService F × Bool)
      : Type 0 where
    pub done : o.1 ≡ false
    pub commands : o.0.commands_by_train ≡ s.commands_by_train
    pub manager : o.0.dispatch_manager ≡ s.dispatch_manager
    pub active : o.0.active_by_train ≡ s.active_by_train
    pub trains : o.0.train_monitor ≡ s.train_monitor

  abbrev answered : Bool → DispatchManager F → String → String → ℕ → DispatchManager F × Bool
  answered accepted m id t now =
      if accepted then confirm_entry F m id t now else cancel_pending F m id

  answered_lem :
      (accepted : Bool) (m : DispatchManager F) (id t : String) (now : ℕ) (d : DispatchDecision F)
      → IsSafe F m
      → lookup id m.pending_decisions ≡ some d
      → d.train_id ≡ t
      → ((answered accepted m id t now).1 ≡ true)
        × ((answered accepted m id t now).0.pending_decisions ≡ erase id m.pending_decisions)
        × (IsNamed F m.corridors → IsNamed F (answered accepted m id t now).0.corridors)
        × IsSafe F (answered accepted m id t now).0
  answered_lem true m id t now d v e same =
      let (done, pending, named) = confirm_entry_answers F m id t now d v e same in
      (done, pending, named, confirm_entry-IsSafe F m v id t now)
  answered_lem false m id t now d v e same =
      let (done, pending, named) = cancel_pending_answers F m id d v e in
      (done, pending, named, cancel_pending-IsSafe F m v id)

  settle_ack_lem :
      (s : RailwayDispatchService F) (id t : String) (accepted : Bool) (now : ℕ)
      (d : DispatchDecision F)
      → IsSound F s
      → lookup t s.commands_by_train ≡ some d
      → d.corridor_resource_id ≡ id
      → Taken s id t accepted d (settle_ack F s id t accepted now d)
        × IsSound F (settle_ack F s id t accepted now d).0
  unfolding settle_ack
  settle_ack_lem s id t accepted now d v found at =
      let m = s.dispatch_manager in
      let (same, (e, waiting, train)) = v.backed t d found in
      let waiting' : lookup id m.pending_decisions ≡ some e =
        subst (λ i. lookup i m.pending_decisions ≡ some e) at waiting in
      let (done, pending, named, safe) =
        answered_lem accepted m id t now e v.safe waiting' (train ∙ same) in
      rw (settle_ack, done)
        (
          record {
            found = found;
            at = at;
            done = refl;
            commands = refl;
            pending = pending;
            active = refl;
          },
          record {
            safe = safe;
            named = named v.named;
            keys = erase-IsMap t s.commands_by_train v.keys;
            backed = rw pending (
                Backed-erase F t id s.commands_by_train m.pending_decisions v.keys
                  v.safe.pending_keys
                  (λ x h.
                    own_train F s.commands_by_train m t d v found x
                      (subst (λ i. lookup i m.pending_decisions ≡ some x) (sym at) h))
                  v.backed);
          },
        )

  -- Why an answer is not taken: no command of the train fits it, or the data layer refuses it.
  abbrev pub IsRejected :
      DispatchPersistence F
      → RailwayDispatchService F
      → String
      → String
      → Bool
      → ℕ
      → ℕ
      → String
      → Type 0
  IsRejected p s id t accepted now event_wall command_id =
      ((d : DispatchDecision F)
        → lookup t s.commands_by_train ≡ some d
        → matches F id command_id d ≡ false)
      ⊎ ((d : DispatchDecision F) × (lookup t s.commands_by_train ≡ some d)
          × (s.persistence_enabled ≡ true)
          × ((error : String) × (p.persist_command_ack d accepted now event_wall ≡ refused error)))

  -- The train's command that fits the answer is answered, and a data layer that is on has it.
  abbrev pub IsTaken :
      DispatchPersistence F
      → RailwayDispatchService F
      → String
      → String
      → Bool
      → ℕ
      → ℕ
      → String
      → RailwayDispatchService F × Bool
      → Type 0
  IsTaken p s id t accepted now event_wall command_id o =
      (d : DispatchDecision F) × Taken s id t accepted d o
      × (matches F id command_id d ≡ true)
      × ((s.persistence_enabled ≡ false)
          ⊎ ((error : String) × (p.persist_command_ack d accepted now event_wall ≡ stored error)))

  asked_cases :
      (s : RailwayDispatchService F) (a : Answer)
      → ((asked F s a ≡ none) × (s.persistence_enabled ≡ false))
        ⊎ (((error : String) × (asked F s a ≡ some (stored error)) × (a ≡ stored error))
            ⊎ ((error : String) × (asked F s a ≡ some (refused error))
                × (s.persistence_enabled ≡ true)
                × (a ≡ refused error)))
  asked_cases s (stored error) = elim (Bool-cases s.persistence_enabled) [
    | inl on ↦ inr (inl (error, simp on refl, refl))
    | inr off ↦ inl (simp off refl, off)
  ]
  asked_cases s (refused error) = elim (Bool-cases s.persistence_enabled) [
    | inl on ↦ inr (inr (error, simp on refl, on, refl))
    | inr off ↦ inl (simp off refl, off)
  ]

  module _ (p : DispatchPersistence F) (s : RailwayDispatchService F) (id t : String)
      (accepted : Bool) (now event_wall : ℕ) (command_id : String) (v : IsSound F s) where
    abbrev pub IsAnswered : RailwayDispatchService F × Bool → Type 0
    IsAnswered o =
        IsSound F o.0
        × (IsTaken p s id t accepted now event_wall command_id o
            ⊎ (Left s o × IsRejected p s id t accepted now event_wall command_id))

    unchanged : IsRejected p s id t accepted now event_wall command_id → IsAnswered (s, false)
    unchanged why = (
      v,
      inr (
        record { done = refl; commands = refl; manager = refl; active = refl; trains = refl },
        why,
      ),
    )

    -- The data layer has the answer.
    taken_stored :
        (error : String) (d : DispatchDecision F)
        → lookup t s.commands_by_train ≡ some d
        → d.corridor_resource_id ≡ id
        → matches F id command_id d ≡ true
        → p.persist_command_ack d accepted now event_wall ≡ stored error
        → IsAnswered (settle_ack F (with_health F s (stored error)) id t accepted now d)
    taken_stored error d e at fits has_it =
        let (k, sound) =
          settle_ack_lem (with_health F s (stored error)) id t accepted now d v e at in
        (
          sound,
          inl (
            d,
            record {
              found = k.found;
              at = k.at;
              done = k.done;
              commands = k.commands;
              pending = k.pending;
              active = k.active;
            },
            fits,
            inr (error, has_it),
          ),
        )

    acknowledge_command_lem :
        (d : DispatchDecision F)
        → lookup t s.commands_by_train ≡ some d
        → d.corridor_resource_id ≡ id
        → matches F id command_id d ≡ true
        → IsAnswered (acknowledge_command F p s id t accepted now event_wall d)
    unfolding acknowledge_command settle_stored
    acknowledge_command_lem d e at fits =
        let go = λ (x : RailwayDispatchService F). settle_ack F x id t accepted now d in
        elim (asked_cases s (p.persist_command_ack d accepted now event_wall)) [
          | inl (quiet, off) ↦
              let (k, sound) = settle_ack_lem s id t accepted now d v e at in
              subst (λ a. IsAnswered (settle_stored F a s go)) (sym quiet)
                (sound, inl (d, k, fits, inl off))
          | inr told ↦ elim told [
            | inl (error, has_it, answer) ↦
                subst (λ a. IsAnswered (settle_stored F a s go)) (sym has_it)
                  (taken_stored error d e at fits answer)
            | inr (error, no_, on, why) ↦
                subst (λ a. IsAnswered (settle_stored F a s go)) (sym no_)
                  (
                    v,
                    inr (
                      record {
                        done = refl;
                        commands = refl;
                        manager = refl;
                        active = refl;
                        trains = refl;
                      },
                      inr (d, e, on, (error, why)),
                    ),
                  )
          ]
        ]

    -- From a sound state, the game's answer to a command is taken or left, and the state stays
    -- sound. If it is taken, it fits the train's command, and a data layer that is on has answered
    -- that it is stored; neither the train nor the manager waits for the command any longer; an
    -- answer that accepts puts the train under way with it, and one that rejects leaves the trains
    -- under way as they are. If it is left, then no command of the train fits it, or the data
    -- layer refused to store it, and no command, direction, passage or train has changed.
    pub acknowledge_lem : IsAnswered (acknowledge F p s id t accepted now event_wall command_id)
    unfolding acknowledge
    acknowledge_lem = elim (Option-cases (lookup t s.commands_by_train)) [
      | inl e ↦
          let same : acknowledge F p s id t accepted now event_wall command_id ≡ (s, false) =
            simp (e, acknowledge) refl in
          subst IsAnswered (sym same) (unchanged (inl (λ d f. absurd (ground (arith, e, f)))))
      | inr (d, e) ↦ elim (Bool-cases (matches F id command_id d)) [
        | inr misfit ↦
            let same : acknowledge F p s id t accepted now event_wall command_id ≡ (s, false) =
              simp (e, acknowledge, misfit) refl in
            subst IsAnswered (sym same) (
              unchanged (
                inl (λ x f.
                  subst (λ y. matches F id command_id y ≡ false) (some-eq (sym e ∙ f)) misfit)))
        | inl fits ↦
            let same : acknowledge F p s id t accepted now event_wall command_id
                ≡ acknowledge_command F p s id t accepted now event_wall d =
              simp (e, acknowledge, fits) refl in
            subst IsAnswered (sym same) (
              acknowledge_command_lem d e
                ((string_eq.beq_iff d.corridor_resource_id id).0 (ground (arith, fits))) fits)
      ]
    ]
