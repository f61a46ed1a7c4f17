-- ===== src/Service/Answering.antt =====
-- The game's answer to a command of server/src/RailwayDispatchService.cpp.
use multi_agent_route_planni.Base.{
  ℕ, String, Bool, true, false, not, ◌&&◌, ◌||◌, Option, none, some, if◌then◌else◌, ◌==◌, nat_eq,
  string_eq, lookup, insert, erase,
}
use multi_agent_route_planni.Base.Floats.{Floats}
use multi_agent_route_planni.Dispatch.{DispatchDecision}
use multi_agent_route_planni.Monitor as Monitor
use multi_agent_route_planni.Monitor.{
  TrainDispatchPhase, monitored, inside_resource, MonitoredTrain, Trains,
}
use multi_agent_route_planni.Manager.Answers.{confirm_entry, cancel_pending}
use multi_agent_route_planni.Service.{
  Answer, stored, refused, DispatchPersistence, RailwayDispatchService, with_health,
}

module _ (F : Floats) where
  abbrev pub matches : String → String → DispatchDecision F → Bool
  matches id command_id d =
      d.corridor_resource_id == id && (command_id == "" || d.command_id == command_id)

  -- The answer once the data layer has it.
  unfoldable pub settle_ack :
      RailwayDispatchService F
      → String
      → String
      → Bool
      → ℕ
      → DispatchDecision F
      → RailwayDispatchService F × Bool
  settle_ack s id train_id accepted now d =
      let answered =
        if accepted
        then confirm_entry F s.dispatch_manager id train_id now
        else cancel_pending F s.dispatch_manager id in
      let told = record s { dispatch_manager = answered.0 } in
      if not answered.1 then (told, false) else (
        record told {
          active_by_train =
              if accepted then insert train_id d s.active_by_train else s.active_by_train;
          train_monitor =
              (Monitor.set_phase F s.train_monitor train_id
                (if accepted then inside_resource else monitored) (if accepted then id else "")).0;
          commands_by_train = erase train_id s.commands_by_train;
        },
        true,
      )

  -- What the data layer makes of it; `none`: there is none.
  unfoldable pub settle_stored :
      Option Answer
      → RailwayDispatchService F
      → (RailwayDispatchService F → RailwayDispatchService F × Bool)
      → RailwayDispatchService F × Bool
  settle_stored none s go = go s
  settle_stored (some (stored error)) s go = go (with_health F s (stored error))
  settle_stored (some (refused error)) s go = (with_health F s (refused error), false)

  abbrev pub asked : RailwayDispatchService F → Answer → Option Answer
  asked s answer = if s.persistence_enabled then some answer else none

  -- `event_wall` is the time that `serviceWallNowMs` gives.
  unfoldable pub acknowledge_command :
      DispatchPersistence F
      → RailwayDispatchService F
      → String
      → String
      → Bool
      → ℕ
      → ℕ
      → DispatchDecision F
      → RailwayDispatchService F × Bool
  unfolding settle_ack settle_stored
  acknowledge_command p s id train_id accepted now event_wall d =
      settle_stored (asked s (p.persist_command_ack d accepted now event_wall)) s
        (λ s'. settle_ack s' id train_id accepted now d)

  unfoldable pub acknowledge :
      DispatchPersistence F
      → RailwayDispatchService F
      → String
      → String
      → Bool
      → ℕ
      → ℕ
      → String
      → RailwayDispatchService F × Bool
  unfolding acknowledge_command
  acknowledge p s id train_id accepted now event_wall command_id =
      elim (lookup train_id s.commands_by_train) [
        | none ↦ (s, false)
        | some d ↦
            if matches id command_id d
            then acknowledge_command p s id train_id accepted now event_wall d
            else (s, false)
      ]
