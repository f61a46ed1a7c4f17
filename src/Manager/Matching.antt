-- ===== src/Manager/Matching.antt =====
-- The mark of a waiting command in a corridor and the command itself, which
-- server/src/DispatchManager.cpp keeps in two tables.
use multi_agent_route_planni.Base.{
  ◌≡◌, String, Bool, true, false, Option, none, some, arith, string_eq, Map, lookup, insert, erase,
  IsMap, lookup-insert, lookup-erase,
}
use multi_agent_route_planni.Base.Floats.{Floats}
use multi_agent_route_planni.Dispatch.{SharedCorridorState, DispatchDecision}
use multi_agent_route_planni.Manager.Interlock.{Corridors}

module _ (F : Floats) where
  abbrev pub Pending : Type 0
  Pending = Map String (DispatchDecision F)

  abbrev pub has : Option (DispatchDecision F) → Bool
  has none = false
  has (some d) = true

  abbrev pub waits : Option (SharedCorridorState F) → Bool
  waits none = false
  waits (some c) = c.command_pending

  -- A direction is marked exactly when a command for it is kept.
  abbrev pub Matched : Corridors F → Pending → Type 0
  Matched cs ps = (k : String) → has (lookup k ps) ≡ waits (lookup k cs)

  module _ (id : String) (c : SharedCorridorState F) (cs : Corridors F) (ps : Pending) where
    pub Matched-keep :
        c.command_pending ≡ waits (lookup id cs) → Matched cs ps → Matched (insert id c cs) ps
    Matched-keep h v k = ground (arith, string_eq.beq_iff id k, lookup-insert id k c cs, v k)

    pub Matched-insert :
        (d : DispatchDecision F)
        → c.command_pending ≡ true
        → Matched cs ps
        → Matched (insert id c cs) (insert id d ps)
    Matched-insert d h v k =
        ground
          (arith, string_eq.beq_iff id k, lookup-insert id k c cs, lookup-insert id k d ps, v k)

    pub Matched-erase :
        IsMap ps
        → c.command_pending ≡ false
        → Matched cs ps
        → Matched (insert id c cs) (erase id ps)
    Matched-erase keys h v k =
        ground
          (arith, string_eq.beq_iff id k, lookup-insert id k c cs, lookup-erase id k ps keys, v k)
