-- ===== src/Monitor/Telemetry.antt =====
-- What server/src/TrainMonitor.cpp keeps of the packets that it is sent, train by train.
use mathlib.Core.Option
use multi_agent_route_planni.Base.{
  ℕ, suc, ◌+◌, ◌≤◌, ◌<◌, String, ◌≡◌, refl, ap, ◌∙◌, ◌⊎◌, true, false, not, ◌&&◌, Option, none,
  some, List, [], ◌∷◌, arith, if◌then◌else◌, ◌==◌, nat_eq, string_eq, inl, inr, Bool-cases,
  Option-cases, length, contains, lookup, IsMap, unless, lookup-insert, lookup-erase_if-none,
  lookup-erase_if-some,
}
use multi_agent_route_planni.Base.Floats.{Floats}
use multi_agent_route_planni.Monitor.{
  TrainTelemetry, MonitoredTrain, TrainBatchUpdateResult, TrainDispatchPhase, no_update, Trains,
  valid_telemetry, store, is_out_of_order, upsert, upsert_from, upsert_batch, with_phase, set_phase,
  is_stale, stale_ids, remove_stale,
}

module _ (F : Floats) where
  -- What one packet does to the entry of a train: only its own, if it is valid and not older.
  abbrev pub next_entry :
      String → TrainTelemetry F → Option (MonitoredTrain F) → Option (MonitoredTrain F)
  next_entry id t o =
      if t.train_id == id && (valid_telemetry F t && not (is_out_of_order F t o))
      then some (store F t o)
      else o

  unfoldable pub latest :
      String → List (TrainTelemetry F) → Option (MonitoredTrain F) → Option (MonitoredTrain F)
  latest id [] o = o
  latest id (t ∷ ts) o = latest id ts (next_entry id t o)

  lookup-upsert :
      (id : String) (t : TrainTelemetry F) (s : Trains F × TrainBatchUpdateResult)
      → lookup id (upsert F t s).0 ≡ next_entry id t (lookup id s.0)
  unfolding upsert
  lookup-upsert id t s = ground (
    arith,
    string_eq.beq_iff t.train_id id,
    lookup-insert t.train_id id (store F t (lookup t.train_id s.0)) s.0,
  )

  lookup-upsert_from :
      (id : String) (ts : List (TrainTelemetry F)) (s : Trains F × TrainBatchUpdateResult)
      → lookup id (upsert_from F ts s).0 ≡ latest id ts (lookup id s.0)
  unfolding upsert_from latest
  lookup-upsert_from id [] s = refl
  lookup-upsert_from id (t ∷ ts) s =
      lookup-upsert_from id ts (upsert F t s) ∙ ap (latest id ts) (lookup-upsert id t s)

  -- After a batch each train's entry is what its own packets make of the old one, in order:
  -- invalid packets and packets older than the entry are passed over, packets of other trains play
  -- no part.
  pub lookup-upsert_batch :
      (id : String) (trains : Trains F) (batch : List (TrainTelemetry F))
      → lookup id (upsert_batch F trains batch).0 ≡ latest id batch (lookup id trains)
  unfolding upsert_batch
  lookup-upsert_batch id trains batch = lookup-upsert_from id batch (trains, no_update)

  upsert_counts :
      (t : TrainTelemetry F) (s : Trains F × TrainBatchUpdateResult)
      → let r = (upsert F t s).1 in
        r.accepted + r.ignored_out_of_order + r.invalid
        ≡ suc (s.1.accepted + s.1.ignored_out_of_order + s.1.invalid)
  unfolding upsert
  upsert_counts t s = ground arith

  upsert_from_counts :
      (ts : List (TrainTelemetry F)) (s : Trains F × TrainBatchUpdateResult)
      → let r = (upsert_from F ts s).1 in
        r.accepted + r.ignored_out_of_order + r.invalid
        ≡ length ts + (s.1.accepted + s.1.ignored_out_of_order + s.1.invalid)
  unfolding upsert_from
  upsert_from_counts [] s = omega arith
  upsert_from_counts (t ∷ ts) s =
      omega (arith, upsert_from_counts ts (upsert F t s), upsert_counts t s)

  -- Every packet of a batch is counted once: accepted, out of order, or invalid.
  pub upsert_batch_counts :
      (trains : Trains F) (batch : List (TrainTelemetry F))
      → let r = (upsert_batch F trains batch).1 in
        r.accepted + r.ignored_out_of_order + r.invalid ≡ length batch
  unfolding upsert_batch
  upsert_batch_counts trains batch = omega (arith, upsert_from_counts batch (trains, no_update))

  latest_keeps :
      (id : String) (ts : List (TrainTelemetry F)) (m : MonitoredTrain F)
      → (m' : MonitoredTrain F) × (latest id ts (some m) ≡ some m')
        × (m'.phase ≡ m.phase)
        × (m'.controlled_resource_id ≡ m.controlled_resource_id)
        × (m.telemetry.received_at_wall_ms ≤ m'.telemetry.received_at_wall_ms)
  unfolding latest store
  latest_keeps id [] m = (m, refl, refl, refl, omega arith)
  latest_keeps id (t ∷ ts) m =
      elim (Bool-cases
        (t.train_id == id && (valid_telemetry F t && not (is_out_of_order F t (some m))))) [
          | inl kept ↦
              let (m', e, p, c, w) = latest_keeps id ts (record m { telemetry = t }) in
              (m', ground (arith, e), p, c, ground (arith, w))
          | inr passed ↦
              let (m', e, p, c, w) = latest_keeps id ts m in (m', ground (arith, e), p, c, w)
        ]

  -- Telemetry never takes a train back in time, and never touches the phase and the resource that
  -- the server has given it.
  pub upsert_batch_keeps :
      (id : String) (trains : Trains F) (batch : List (TrainTelemetry F)) (m : MonitoredTrain F)
      → lookup id trains ≡ some m
      → (m' : MonitoredTrain F) × (lookup id (upsert_batch F trains batch).0 ≡ some m')
        × (m'.phase ≡ m.phase)
        × (m'.controlled_resource_id ≡ m.controlled_resource_id)
        × (m.telemetry.received_at_wall_ms ≤ m'.telemetry.received_at_wall_ms)
  upsert_batch_keeps id trains batch m e =
      let (m', f, p, c, w) = latest_keeps id batch m in
      (m', lookup-upsert_batch id trains batch ∙ ap (latest id batch) e ∙ f, p, c, w)

  -- setPhase changes the phase of one train, if it is known, and no other entry; where it answers
  -- true the train is known.
  pub set_phase_lem :
      (trains : Trains F) (id j : String) (phase : TrainDispatchPhase) (resource : String)
      → (lookup j (set_phase F trains id phase resource).0 ≡ (
          if id == j
          then Option.map (with_phase F phase resource) (lookup j trains)
          else lookup j trains))
        × ((set_phase F trains id phase resource).1 ≡ true
            → (m : MonitoredTrain F) × (lookup id trains ≡ some m))
  unfolding set_phase
  set_phase_lem trains id j phase resource = elim (Option-cases (lookup id trains)) [
    | inl e ↦ (ground (arith, string_eq.beq_iff id j), ground arith)
    | inr (m, e) ↦ (
      ground (
        arith,
        string_eq.beq_iff id j,
        lookup-insert id j (with_phase F phase resource m) trains,
      ),
      λ h. (m, e),
    )
  ]

  -- `removeStale` keeps exactly the trains that are fresh, as they are.
  pub lookup-remove_stale :
      (trains : Trains F) (wall stale_after : ℕ) (id : String)
      → IsMap trains
      → lookup id (remove_stale F trains wall stale_after).0 ≡ elim (lookup id trains) [
        | none ↦ none
        | some m ↦ unless (is_stale F wall stale_after m) (some m)
      ]
  unfolding remove_stale
  lookup-remove_stale trains wall stale_after id keys = elim (Option-cases (lookup id trains)) [
    | inl e ↦
        ground (arith, e, lookup-erase_if-none (λ id m. is_stale F wall stale_after m) id trains e)
    | inr (m, e) ↦
        ground (
          arith,
          e,
          lookup-erase_if-some (λ id m. is_stale F wall stale_after m) id m trains keys e,
        )
  ]

  contains-stale_ids :
      (trains : Trains F) (wall stale_after : ℕ) (id : String)
      → IsMap trains
      → contains (stale_ids F wall stale_after trains) id
        ≡ elim (lookup id trains) [ none ↦ false | some m ↦ is_stale F wall stale_after m ]
  unfolding stale_ids contains lookup
  contains-stale_ids [] wall stale_after id keys = refl
  contains-stale_ids ((j, m) ∷ trains) wall stale_after id keys =
      ground (arith, string_eq.beq_iff j id, contains-stale_ids trains wall stale_after id keys.1)

  -- removeStale reports exactly the trains that it drops, and what is left was received within the
  -- window before the given time. The table holds a train once.
  pub remove_stale_lem :
      (trains : Trains F) (wall stale_after : ℕ) (id : String) (m : MonitoredTrain F)
      → IsMap trains
      → lookup id trains ≡ some m
      → let r = remove_stale F trains wall stale_after in
        ((contains r.1 id ≡ true) × (lookup id r.0 ≡ none))
        ⊎ ((contains r.1 id ≡ false)
            × (lookup id r.0 ≡ some m)
            × (0 < m.telemetry.received_at_wall_ms)
            × (m.telemetry.received_at_wall_ms ≤ wall)
            × (wall ≤ m.telemetry.received_at_wall_ms + stale_after))
  remove_stale_lem trains wall stale_after id m keys e =
      let kept = lookup-remove_stale trains wall stale_after id keys in
      let listed = contains-stale_ids trains wall stale_after id keys in
      elim (Bool-cases (is_stale F wall stale_after m)) [
        | inl stale ↦ inl (unfold remove_stale in ground (arith, listed), ground (arith, kept))
        | inr fresh ↦ inr (
          unfold remove_stale in ground (arith, listed),
          ground (arith, kept),
          unfold is_stale in ground arith,
          unfold is_stale in ground arith,
          unfold is_stale in ground arith,
        )
      ]
