-- ===== src/Service/Clears.antt =====
-- A train that has left, before `markCleared` of server/src/RailwayDispatchService.cpp.
use multi_agent_route_planni.Base.{
  ℕ, String, ◌≡◌, refl, inl, inr, false, Bool, none, some, List, [], ◌∷◌, if◌then◌else◌, ◌==◌,
  nat_eq, string_eq, Bool-cases, Option-cases, lookup,
}
use multi_agent_route_planni.Base.Floats.{Floats}
use multi_agent_route_planni.Manager.{
  DispatchManager, mark_corridor_exited, mark_intersection_cleared,
}
use multi_agent_route_planni.Manager.Names.{mark_corridor_exited-IsNamed}
use multi_agent_route_planni.Manager.Steps.{
  mark_corridor_exited-IsSafe, mark_intersection_cleared-IsSafe,
}
use multi_agent_route_planni.Service.{
  stored, refused, DispatchPersistence, RailwayDispatchService, with_health,
}
use multi_agent_route_planni.Service.Leaving.{
  clear_intersections, settle_cleared, effective_resource, effective_intersections, cleared_answer,
  mark_cleared,
}
use multi_agent_route_planni.Service.Answering.{settle_stored}
use multi_agent_route_planni.Service.Backing.{Sound, IsSound, step-Sound}
use multi_agent_route_planni.Service.Exposure.{Commands}

module _ (F : Floats) where
  mark_corridor_exited-pending :
      (m : DispatchManager F) (id : String)
      → (mark_corridor_exited F m id).0.pending_decisions ≡ m.pending_decisions
  unfolding mark_corridor_exited
  mark_corridor_exited-pending m id = elim (Option-cases (lookup id m.corridors)) [
    | inl e ↦ rw (e, mark_corridor_exited) refl
    | inr (c, e) ↦ elim (Bool-cases (c.occupancy == 0)) [
      | inl empty ↦ rw (e, mark_corridor_exited, empty) refl
      | inr used ↦ rw (e, mark_corridor_exited, used) refl
    ]
  ]

  exit-Sound :
      (cmds : Commands F) (m : DispatchManager F) (id : String)
      → Sound F cmds m
      → Sound F cmds (mark_corridor_exited F m id).0
  exit-Sound cmds m id v =
      step-Sound F cmds m _ (mark_corridor_exited-IsSafe F m v.safe id)
        (mark_corridor_exited-IsNamed F m id v.named) (mark_corridor_exited-pending m id) v

  cleared-Sound :
      (cmds : Commands F) (m : DispatchManager F) (i t : String) (now : ℕ)
      → Sound F cmds m
      → Sound F cmds (mark_intersection_cleared F m i t now).0
  unfolding mark_intersection_cleared
  cleared-Sound cmds m i t now v =
      step-Sound F cmds m _ (mark_intersection_cleared-IsSafe F m v.safe i t now) v.named refl v

  clear_intersections-Sound :
      (t : String) (now : ℕ) (is : List String) (cmds : Commands F) (r : DispatchManager F × Bool)
      → Sound F cmds r.0
      → Sound F cmds (clear_intersections F t now is r).0
  unfolding clear_intersections
  clear_intersections-Sound t now [] cmds r v = v
  clear_intersections-Sound t now (i ∷ is) cmds (m, changed) v =
      clear_intersections-Sound t now is cmds _ (cleared-Sound cmds m i t now v)

  settle_cleared-IsSound :
      (s : RailwayDispatchService F) (t id : String) (is : List String) (now : ℕ)
      → IsSound F s
      → IsSound F (settle_cleared F s t id is now).0
  unfolding settle_cleared
  settle_cleared-IsSound s t id is now v =
      let m = s.dispatch_manager in
      let exited = if id == "" then (m, false) else mark_corridor_exited F m id in
      let sound : Sound F s.commands_by_train exited.0 = elim (Bool-cases (id == "")) [
        | inl unnamed ↦ rw unnamed v
        | inr named ↦ rw named (exit-Sound s.commands_by_train m id v)
      ] in
      let after = clear_intersections-Sound t now is s.commands_by_train exited sound in
      elim (Bool-cases (clear_intersections F t now is exited).1) [
        | inl changed ↦ rw (settle_cleared, changed) after
        | inr still ↦ rw (settle_cleared, still) after
      ]

  pub mark_cleared-IsSound :
      (p : DispatchPersistence F) (s : RailwayDispatchService F) (t id : String) (is : List String)
      (now event_wall : ℕ)
      → IsSound F s
      → IsSound F (mark_cleared F p s t id is now event_wall).0
  unfolding mark_cleared settle_stored
  mark_cleared-IsSound p s t id is now event_wall v =
      let active = lookup t s.active_by_train in
      let resource = effective_resource F id active in
      let intersections = effective_intersections F s is active in
      elim (cleared_answer F p s active intersections now event_wall)
        as (λ a.
          IsSound F
            (settle_stored F a s (λ x. settle_cleared F x t resource intersections now)).0) [
              | none ↦ settle_cleared-IsSound s t resource intersections now v
              | some a ↦
                  elim a
                    as (λ b.
                      IsSound F
                        (settle_stored F (some b) s
                          (λ x. settle_cleared F x t resource intersections now)).0) [
                            | stored error ↦
                                settle_cleared-IsSound (with_health F s (stored error)) t resource
                                  intersections now v
                            | refused error ↦ v
                          ]
            ]
