-- ===== src/Monitor.antt =====
-- server/src/TrainMonitor.cpp and its header: the last telemetry of every train, and the phase that
-- the server gives it. The mutex makes each method one step.
pub mod Telemetry
mod Tests
use multi_agent_route_planni.Base.{
  ℕ, ◌+◌, ◌-◌, String, Bool, true, false, not, ◌&&◌, ◌||◌, Option, none, some, List, [], ◌∷◌, map,
  if◌then◌else◌, ◌==◌, nat_eq, string_eq, ltb, length, sort_by, is_lt, compare_text, Map, lookup,
  insert, erase_if,
}
use multi_agent_route_planni.Base.Floats.{Floats}

pub data RouteTravelDirection : Type 0 where
  forward reverse : RouteTravelDirection

pub data TrainDispatchPhase : Type 0 where
  monitored approaching waiting_permission release_pending inside_resource : TrainDispatchPhase

pub record TrainTelemetry (F : Floats) : Type 0 where
  pub train_id : String
  pub line_id : String
  pub x : F.Double
  pub y : F.Double
  pub z : F.Double
  pub speed : F.Double
  pub route_index : ℕ
  pub route_position : F.Double
  pub travel_direction : RouteTravelDirection
  pub simulation_time_ms : ℕ
  pub received_at_wall_ms : ℕ

pub record MonitoredTrain (F : Floats) : Type 0 where
  pub telemetry : TrainTelemetry F
  pub phase : TrainDispatchPhase
  pub controlled_resource_id : String

pub record TrainBatchUpdateResult : Type 0 where
  pub accepted : ℕ
  pub ignored_out_of_order : ℕ
  pub invalid : ℕ
  pub issued_commands : ℕ
  pub persistence_ok : Bool
  pub persistence_error : String

abbrev pub no_update : TrainBatchUpdateResult
no_update = record {
  accepted = 0;
  ignored_out_of_order = 0;
  invalid = 0;
  issued_commands = 0;
  persistence_ok = true;
  persistence_error = "";
}

-- The phases in which a command or a passage binds the train to a resource.
abbrev pub is_bound : TrainDispatchPhase → Bool
is_bound release_pending = true
is_bound inside_resource = true
is_bound _ = false

module _ (F : Floats) where
  open F use {Double, decimal, is_finite}

  abbrev pub Trains : Type 0
  Trains = Map String (MonitoredTrain F)

  unfoldable pub valid_telemetry : TrainTelemetry F → Bool
  valid_telemetry t =
      not (t.train_id == "")
      && not (t.line_id == "")
      && not (t.received_at_wall_ms == 0)
      && is_finite t.x
      && is_finite t.y
      && is_finite t.z
      && is_finite t.speed
      && is_finite t.route_position
      && not (F.ltb t.route_position (decimal 0 0))

  -- A packet that is kept: the phase of a train that is known stays.
  unfoldable pub store : TrainTelemetry F → Option (MonitoredTrain F) → MonitoredTrain F
  store t none = record { telemetry = t; phase = monitored; controlled_resource_id = "" }
  store t (some m) = record m { telemetry = t }

  abbrev pub is_out_of_order : TrainTelemetry F → Option (MonitoredTrain F) → Bool
  is_out_of_order t none = false
  is_out_of_order t (some m) = ltb t.received_at_wall_ms m.telemetry.received_at_wall_ms

  -- One round of the loop of `upsertBatch`.
  unfoldable pub upsert :
      TrainTelemetry F → Trains × TrainBatchUpdateResult → Trains × TrainBatchUpdateResult
  upsert t (trains, r) =
      if not (valid_telemetry t)
      then (trains, record r { invalid = r.invalid + 1 })
      else if is_out_of_order t (lookup t.train_id trains)
      then (trains, record r { ignored_out_of_order = r.ignored_out_of_order + 1 })
      else (
        insert t.train_id (store t (lookup t.train_id trains)) trains,
        record r { accepted = r.accepted + 1 },
      )

  unfoldable pub upsert_from :
      List (TrainTelemetry F) → Trains × TrainBatchUpdateResult → Trains × TrainBatchUpdateResult
  upsert_from [] s = s
  upsert_from (t ∷ ts) s = upsert_from ts (upsert t s)

  unfoldable pub upsert_batch : Trains → List (TrainTelemetry F) → Trains × TrainBatchUpdateResult
  unfolding upsert_from
  upsert_batch trains batch = upsert_from batch (trains, no_update)

  unfoldable pub get : Trains → String → Option (MonitoredTrain F)
  get trains train_id = lookup train_id trains

  unfoldable pub snapshot : Trains → List (MonitoredTrain F)
  snapshot trains =
      sort_by (λ a b. is_lt (compare_text a.telemetry.train_id b.telemetry.train_id))
        (map (λ e. e.1) trains)

  -- The train's entry under a new phase.
  unfoldable pub with_phase : TrainDispatchPhase → String → MonitoredTrain F → MonitoredTrain F
  with_phase phase resource m =
      if not (resource == "") || not (is_bound phase)
      then record m { phase = phase; controlled_resource_id = resource }
      else record m { phase = phase }

  unfoldable pub set_phase : Trains → String → TrainDispatchPhase → String → Trains × Bool
  set_phase trains train_id phase resource = elim (lookup train_id trains) [
    | none ↦ (trains, false)
    | some m ↦ (insert train_id (with_phase phase resource m) trains, true)
  ]

  unfoldable pub is_stale : ℕ → ℕ → MonitoredTrain F → Bool
  is_stale wall_now_ms stale_after_ms m =
      let received = m.telemetry.received_at_wall_ms in
      received == 0 || ltb wall_now_ms received || ltb stale_after_ms (wall_now_ms - received)

  unfoldable pub stale_ids : ℕ → ℕ → Trains → List String
  stale_ids wall_now_ms stale_after_ms [] = []
  stale_ids wall_now_ms stale_after_ms ((id, m) ∷ trains) =
      let rest = stale_ids wall_now_ms stale_after_ms trains in
      if is_stale wall_now_ms stale_after_ms m then id ∷ rest else rest

  unfoldable pub remove_stale : Trains → ℕ → ℕ → Trains × List String
  remove_stale trains wall_now_ms stale_after_ms = (
    erase_if (λ id m. is_stale wall_now_ms stale_after_ms m) trains,
    stale_ids wall_now_ms stale_after_ms trains,
  )

  unfoldable pub size : Trains → ℕ
  size trains = length trains

  unfoldable pub clear : Trains → Trains
  clear trains = []
