-- ===== src/Manager/Safety.antt =====
-- What holds of the tables of server/src/DispatchManager.cpp between any two calls.
use multi_agent_route_planni.Base.{
  ◌≤◌, String, ◌≡◌, true, false, Option, none, some, arith, nat_eq, string_eq, lookup, insert,
  erase, IsMap, insert-IsMap, erase-IsMap,
}
use multi_agent_route_planni.Base.Floats.{Floats}
use multi_agent_route_planni.Dispatch.{SharedCorridorState, DispatchDecision}
use multi_agent_route_planni.Reservation.{ReservationManager}
use multi_agent_route_planni.Reservation.History as History
use multi_agent_route_planni.Reservation.History.{
  IsFresh, Step-Inv, registers, reserves, clears, cancels,
}
use multi_agent_route_planni.Manager.{DispatchManager}
use multi_agent_route_planni.Manager.Interlock.{
  is_busy, Corridors, Interlock, IsClear, Interlock-clear, Interlock-busy, Interlock-less,
}
use multi_agent_route_planni.Manager.Matching.{
  Pending, Matched, Matched-keep, Matched-insert, Matched-erase,
}

module _ (F : Floats) where
  -- The tables that matter for safety.
  pub record Safe (cs : Corridors F) (ps : Pending F) (r : ReservationManager) : Type 0 where
    pub corridor_keys : IsMap cs
    pub pending_keys : IsMap ps
    pub interlock : Interlock F cs
    pub matched : Matched F cs ps
    pub booked : History.Inv r

  abbrev pub IsSafe : DispatchManager F → Type 0
  IsSafe m = Safe m.corridors m.pending_decisions m.reservations

  -- A snapshot from outside moves no train: a new direction is idle, and one that is known stays
  -- in its corridor and holds no more trains than before.
  abbrev pub IsAcceptable : SharedCorridorState F → Option (SharedCorridorState F) → Type 0
  IsAcceptable c none = is_busy F c ≡ false
  IsAcceptable c (some e) = (c.corridor_id ≡ e.corridor_id) × (c.occupancy ≤ e.occupancy)

  -- One direction changes, the command for it stays.
  pub set_corridor-Safe :
      (id : String) (c e : SharedCorridorState F) (cs : Corridors F) (ps : Pending F)
      (r : ReservationManager)
      → lookup id cs ≡ some e
      → c.corridor_id ≡ e.corridor_id
      → c.command_pending ≡ e.command_pending
      → (is_busy F c ≡ true → is_busy F e ≡ true)
      → Safe cs ps r
      → Safe (insert id c cs) ps r
  set_corridor-Safe id c e cs ps r found same pending less v = record {
    corridor_keys = insert-IsMap id c cs v.corridor_keys;
    pending_keys = v.pending_keys;
    interlock = Interlock-less F id c e cs found same less v.interlock;
    matched = Matched-keep F id c cs ps (rw found pending) v.matched;
    booked = v.booked;
  }

  -- A command for a direction that nothing else closes.
  pub command-Safe :
      (id : String) (c : SharedCorridorState F) (d : DispatchDecision F) (cs : Corridors F)
      (ps : Pending F) (r s : ReservationManager)
      → IsClear F id c.corridor_id cs
      → c.command_pending ≡ true
      → History.Inv s
      → Safe cs ps r
      → Safe (insert id c cs) (insert id d ps) s
  command-Safe id c d cs ps r s clear pending booked v = record {
    corridor_keys = insert-IsMap id c cs v.corridor_keys;
    pending_keys = insert-IsMap id d ps v.pending_keys;
    interlock = Interlock-clear F id c cs clear v.interlock;
    matched = Matched-insert F id c cs ps d pending v.matched;
    booked = booked;
  }

  -- A command ends: the direction was in use by it.
  pub answer-Safe :
      (id : String) (c e : SharedCorridorState F) (d : DispatchDecision F) (cs : Corridors F)
      (ps : Pending F) (r s : ReservationManager)
      → lookup id cs ≡ some e
      → lookup id ps ≡ some d
      → c.corridor_id ≡ e.corridor_id
      → c.command_pending ≡ false
      → History.Inv s
      → Safe cs ps r
      → Safe (insert id c cs) (erase id ps) s
  answer-Safe id c e d cs ps r s found waiting same idle booked v = record {
    corridor_keys = insert-IsMap id c cs v.corridor_keys;
    pending_keys = erase-IsMap id ps v.pending_keys;
    interlock = Interlock-busy F id c e cs found same (ground (arith, v.matched id)) v.interlock;
    matched = Matched-erase F id c cs ps v.pending_keys idle v.matched;
    booked = booked;
  }

  pub with_reservations-Safe :
      (cs : Corridors F) (ps : Pending F) (r s : ReservationManager)
      → History.Step r s
      → Safe cs ps r
      → Safe cs ps s
  with_reservations-Safe cs ps r s st v = record {
    corridor_keys = v.corridor_keys;
    pending_keys = v.pending_keys;
    interlock = v.interlock;
    matched = v.matched;
    booked = Step-Inv st v.booked;
  }
