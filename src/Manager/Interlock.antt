-- ===== src/Manager/Interlock.antt =====
-- The two directions of one corridor in server/src/DispatchManager.cpp are one track: what keeps
-- them from being in use together.
use multi_agent_route_planni.Base.{
  String, ◌≡◌, ◌≢◌, refl, Bool, true, false, ◌||◌, none, some, [], ◌∷◌, arith, nat_eq, string_eq,
  ltb, Map, lookup, insert, IsMap, lookup-insert, inl, inr, Bool-cases,
}
use multi_agent_route_planni.Base.Floats.{Floats}
use multi_agent_route_planni.Dispatch.{SharedCorridorState}
use multi_agent_route_planni.Manager.Planning.{opposing_reason}

module _ (F : Floats) where
  -- A direction is in use while a train is in it or a command for it waits.
  abbrev pub is_busy : SharedCorridorState F → Bool
  is_busy c = ltb 0 c.occupancy || c.command_pending

  abbrev pub Corridors : Type 0
  Corridors = Map String (SharedCorridorState F)

  -- No two directions of one corridor are in use.
  abbrev pub Interlock : Corridors → Type 0
  Interlock cs =
      (i j : String) (c d : SharedCorridorState F)
      → lookup i cs ≡ some c
      → lookup j cs ≡ some d
      → i ≢ j
      → c.corridor_id ≡ d.corridor_id
      → is_busy c ≡ true
      → is_busy d ≡ false

  -- Nothing else of the corridor is in use.
  abbrev pub IsClear : String → String → Corridors → Type 0
  IsClear id corridor_id cs =
      (j : String) (d : SharedCorridorState F)
      → lookup j cs ≡ some d
      → id ≢ j
      → corridor_id ≡ d.corridor_id
      → is_busy d ≡ false

  pub opposing_reason-IsClear :
      (id corridor_id : String) (cs : Corridors)
      → opposing_reason F id corridor_id cs ≡ none
      → IsClear id corridor_id cs
  unfolding opposing_reason lookup
  opposing_reason-IsClear id corridor_id [] h j d found ne same = absurd (ground arith)
  opposing_reason-IsClear id corridor_id ((i, c) ∷ cs) h j d found ne same = ground (
    arith,
    string_eq.beq_iff i id,
    string_eq.beq_iff i j,
    string_eq.beq_iff c.corridor_id corridor_id,
    λ (q : opposing_reason F id corridor_id cs ≡ none) (f : lookup j cs ≡ some d).
        opposing_reason-IsClear id corridor_id cs q j d f ne same,
  )

  pub IsClear-opposing_reason :
      (id corridor_id : String) (cs : Corridors)
      → IsMap cs
      → IsClear id corridor_id cs
      → opposing_reason F id corridor_id cs ≡ none
  unfolding opposing_reason lookup
  IsClear-opposing_reason id corridor_id [] keys clear = refl
  IsClear-opposing_reason id corridor_id ((i, c) ∷ cs) keys clear = ground (
    arith,
    string_eq.beq_iff i id,
    string_eq.beq_iff i i,
    string_eq.beq_iff c.corridor_id corridor_id,
    clear i c,
    IsClear-opposing_reason id corridor_id cs keys.1
        (λ j d found ne same. ground (arith, clear j d, string_eq.beq_iff i j)),
  )

  -- A direction may change where nothing else of its corridor is in use.
  pub Interlock-clear :
      (id : String) (c : SharedCorridorState F) (cs : Corridors)
      → IsClear id c.corridor_id cs
      → Interlock cs
      → Interlock (insert id c cs)
  Interlock-clear id c cs clear v i j x y fx fy ne same busy = ground (
    arith,
    string_eq.beq_iff id i,
    string_eq.beq_iff id j,
    lookup-insert id i c cs,
    lookup-insert id j c cs,
    clear i x,
    clear j y,
    v i j x y,
  )

  -- A direction may change where it is not in use after.
  pub Interlock-idle :
      (id : String) (c : SharedCorridorState F) (cs : Corridors)
      → is_busy c ≡ false
      → Interlock cs
      → Interlock (insert id c cs)
  Interlock-idle id c cs idle v i j x y fx fy ne same busy = ground (
    arith,
    string_eq.beq_iff id i,
    string_eq.beq_iff id j,
    lookup-insert id i c cs,
    lookup-insert id j c cs,
    v i j x y,
  )

  -- A direction may change where it was in use before.
  pub Interlock-busy :
      (id : String) (c e : SharedCorridorState F) (cs : Corridors)
      → lookup id cs ≡ some e
      → c.corridor_id ≡ e.corridor_id
      → is_busy e ≡ true
      → Interlock cs
      → Interlock (insert id c cs)
  Interlock-busy id c e cs found same busy v =
      Interlock-clear id c cs (λ j d fd ne eq. ground (arith, v id j e d found fd ne)) v

  -- A direction may change where it comes into use by nothing.
  pub Interlock-less :
      (id : String) (c e : SharedCorridorState F) (cs : Corridors)
      → lookup id cs ≡ some e
      → c.corridor_id ≡ e.corridor_id
      → (is_busy c ≡ true → is_busy e ≡ true)
      → Interlock cs
      → Interlock (insert id c cs)
  Interlock-less id c e cs found same less v = elim (Bool-cases (is_busy c)) [
    | inl busy ↦ Interlock-busy id c e cs found same (less busy) v
    | inr idle ↦ Interlock-idle id c cs idle v
  ]
