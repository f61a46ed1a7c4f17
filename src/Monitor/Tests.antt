-- ===== src/Monitor/Tests.antt =====
-- Two trains and a batch of four packets before server/src/TrainMonitor.cpp, in thousandths.
use multi_agent_route_planni.Base.{
  ℕ, ◌+◌, ◌≤◌, ◌<◌, String, ◌≡◌, refl, ◌⊎◌, true, false, none, some, List, [], ◌∷◌, nat_eq,
  string_eq, contains, lookup,
}
use multi_agent_route_planni.Base.Floats.{thousandths}
use multi_agent_route_planni.Monitor.{
  RouteTravelDirection, TrainDispatchPhase, TrainTelemetry, MonitoredTrain, Trains, upsert_batch,
  remove_stale,
}
use multi_agent_route_planni.Monitor.Telemetry.{
  latest, lookup-upsert_batch, upsert_batch_keeps, remove_stale_lem,
}

abbrev packet : String → ℕ → ℕ → TrainTelemetry thousandths
packet train position received = record {
  train_id = train;
  line_id = "L1";
  x = 0;
  y = 0;
  z = 0;
  speed = 0;
  route_index = 0;
  route_position = position;
  travel_direction = RouteTravelDirection.forward;
  simulation_time_ms = received;
  received_at_wall_ms = received;
}

abbrev inside : MonitoredTrain thousandths
inside = record {
  telemetry = packet "T1" 1000 500;
  phase = TrainDispatchPhase.inside_resource;
  controlled_resource_id = "C1:FORWARD";
}

abbrev trains : Trains thousandths
trains = ("T1", inside) ∷ []

abbrev batch : List (TrainTelemetry thousandths)
batch = packet "T1" 2000 400 ∷ packet "T1" 3000 600 ∷ packet "" 0 600 ∷ packet "T2" 0 600 ∷ []

lookup-upsert_batch_example :
    lookup "T1" (upsert_batch thousandths trains batch).0
    ≡ latest thousandths "T1" batch (some inside)
unfolding lookup
lookup-upsert_batch_example = lookup-upsert_batch thousandths "T1" trains batch

upsert_batch_keeps_example :
    (m' : MonitoredTrain thousandths) × (lookup "T1" (upsert_batch thousandths trains batch).0
      ≡ some m')
    × (m'.phase ≡ TrainDispatchPhase.inside_resource)
    × (m'.controlled_resource_id ≡ "C1:FORWARD")
    × (500 ≤ m'.telemetry.received_at_wall_ms)
unfolding lookup
upsert_batch_keeps_example = upsert_batch_keeps thousandths "T1" trains batch inside refl

remove_stale_lem_example :
    let r = remove_stale thousandths trains 900 300 in
    ((contains r.1 "T1" ≡ true) × (lookup "T1" r.0 ≡ none))
    ⊎ ((contains r.1 "T1" ≡ false)
        × (lookup "T1" r.0 ≡ some inside)
        × (0 < 500)
        × (500 ≤ 900)
        × (900 ≤ 500 + 300))
unfolding lookup
remove_stale_lem_example = remove_stale_lem thousandths trains 900 300 "T1" inside (refl, tt) refl
