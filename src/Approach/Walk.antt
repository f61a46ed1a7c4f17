-- ===== src/Approach/Walk.antt =====
-- The loop of `distanceToEntry` in server/src/DispatchCandidateBuilder.cpp and
-- server/src/AffectedLinePlanner.cpp ends: its first round leads to a whole position, and from there
-- each round takes one off the way to go.
use multi_agent_route_planni.Base.{
  ℕ, zero, suc, ◌+◌, ◌-◌, ◌≤◌, ◌<◌, ◌≡◌, refl, sym, subst, inl, inr, true, false, ◌&&◌, ◌||◌,
  if◌then◌else◌, Option, none, some, arith, ltb, length, Bool-cases, u64_max,
}
use multi_agent_route_planni.Base.Floats.{Floats, double_min, double_max, double_le}
use multi_agent_route_planni.Analysis.{LineRoute}
use multi_agent_route_planni.Monitor.{RouteTravelDirection, TrainTelemetry}
use multi_agent_route_planni.Topology.{CorridorTraversal}
use multi_agent_route_planni.Approach.{
  Walker, is_forward, locate, step_of, wrap, advance, walk, last_position, current_position,
  delta_to, distance_to_entry,
}
use multi_agent_route_planni.Approach.Rounding.{fraction, longest_way, IsPlace, IsPart, Rounding}

module _ (F : Floats) (x : Rounding F) where
  open F use {Double, decimal, of_ℕ, add, sub, floor, ceil, truncate}

  -- A round from here takes one whole step.
  abbrev IsStop : RouteTravelDirection → Double → Type 0
  IsStop RouteTravelDirection.forward p = sub (decimal 1 0) (fraction F p) ≡ decimal 1 0
  IsStop RouteTravelDirection.reverse p = F.ltb (decimal 1 9) (fraction F p) ≡ false

  abbrev IsReady : RouteTravelDirection → Double → Type 0
  IsReady travel p = IsPlace F p × IsStop travel p

  -- How far a round leads, if the way to go is longer.
  abbrev reach : RouteTravelDirection → Double → Double
  reach RouteTravelDirection.forward p = sub (decimal 1 0) (fraction F p)
  reach RouteTravelDirection.reverse p =
      if F.ltb (decimal 1 9) (fraction F p) then fraction F p else decimal 1 0

  step_lem :
      (route : LineRoute F) (travel : RouteTravelDirection) (delta p : Double)
      → step_of F travel delta (locate F route travel p).1 ≡ double_min F delta (reach travel p)
  unfolding step_of locate
  step_lem route RouteTravelDirection.forward delta p = refl
  step_lem route RouteTravelDirection.reverse delta p = ground (arith, x.apart (fraction F p))

  reach-positive :
      (travel : RouteTravelDirection) (p : Double)
      → IsPlace F p
      → F.ltb (decimal 0 0) (reach travel p) ≡ true
  reach-positive RouteTravelDirection.forward p h = x.ahead p h
  reach-positive RouteTravelDirection.reverse p h =
      ground (arith, x.positive (fraction F p), x.one_positive)

  reach-stop :
      (travel : RouteTravelDirection) (p : Double) → IsStop travel p → reach travel p ≡ decimal 1 0
  reach-stop RouteTravelDirection.forward p h = h
  reach-stop RouteTravelDirection.reverse p h = rw h refl

  abbrev moved : RouteTravelDirection → Double → Double → Double
  moved travel p step = if is_forward travel then add p step else sub p step

  zero-IsReady : (travel : RouteTravelDirection) → IsReady travel (decimal 0 0)
  zero-IsReady RouteTravelDirection.forward = (x.zero_place, x.zero_whole)
  zero-IsReady RouteTravelDirection.reverse = (x.zero_place, x.zero_fraction)

  -- A round back that leads not to the end of the line.
  back-IsReady :
      (p : Double)
      → IsPlace F p
      → double_le F (sub p (reach RouteTravelDirection.reverse p)) (decimal 1 9) ≡ false
      → IsReady RouteTravelDirection.reverse (sub p (reach RouteTravelDirection.reverse p))
  back-IsReady p h far = elim (Bool-cases (F.ltb (decimal 1 9) (fraction F p))) [
    | inl more ↦ rw more (x.lands_back p h)
    | inr stop ↦
        let far' : double_le F (sub p (decimal 1 0)) (decimal 1 9) ≡ false =
          subst (λ (b : Double). double_le F (sub p b) (decimal 1 9) ≡ false)
            (reach-stop RouteTravelDirection.reverse p stop) far in
        rw stop (x.back p h stop far')
  ]

  -- The position after `wrap`: the beginning, the end, or where the round leads to.
  wrap_forward :
      (maximum delta q : Double)
      → IsReady RouteTravelDirection.forward q
      → IsReady RouteTravelDirection.forward (wrap F RouteTravelDirection.forward maximum delta q)
  unfolding wrap
  wrap_forward maximum delta q ready =
      elim (Bool-cases (double_le F (sub maximum (decimal 1 9)) q && F.ltb (decimal 1 9) delta)) [
        | inl over ↦
            let e : wrap F RouteTravelDirection.forward maximum delta q ≡ decimal 0 0 =
              ground (arith, over) in
            subst (IsReady RouteTravelDirection.forward) (sym e)
              (zero-IsReady RouteTravelDirection.forward)
        | inr on ↦
            let e : wrap F RouteTravelDirection.forward maximum delta q ≡ q = ground (arith, on) in
            subst (IsReady RouteTravelDirection.forward) (sym e) ready
      ]

  wrap_back :
      (maximum delta q : Double)
      → IsReady RouteTravelDirection.reverse maximum
      → F.ltb (decimal 1 9) delta ≡ true
      → (double_le F q (decimal 1 9) ≡ false → IsReady RouteTravelDirection.reverse q)
      → IsReady RouteTravelDirection.reverse (wrap F RouteTravelDirection.reverse maximum delta q)
  unfolding wrap
  wrap_back maximum delta q end more ready =
      let back = RouteTravelDirection.reverse in
      let result = wrap F back maximum delta q in
      elim (Bool-cases (double_le F (sub maximum (decimal 1 9)) q)) [
        | inl over ↦ elim (Bool-cases (double_le F (decimal 0 0) (decimal 1 9))) [
          | inl near ↦
              let e : result ≡ maximum = ground (arith, over, near, more) in
              subst (IsReady back) (sym e) end
          | inr far ↦
              let e : result ≡ decimal 0 0 = ground (arith, over, far, more) in
              subst (IsReady back) (sym e) (zero-IsReady back)
        ]
        | inr on ↦ elim (Bool-cases (double_le F q (decimal 1 9))) [
          | inl near ↦
              let e : result ≡ maximum = ground (arith, on, near, more) in
              subst (IsReady back) (sym e) end
          | inr far ↦
              let e : result ≡ q = ground (arith, on, far, more) in
              subst (IsReady back) (sym e) (ready far)
        ]
      ]

  -- Wherever a round begins, the next one begins at a stop.
  wrap-IsReady :
      (travel : RouteTravelDirection) (maximum delta p : Double)
      → IsReady RouteTravelDirection.reverse maximum
      → F.ltb (decimal 1 9) delta ≡ true
      → IsPlace F p
      → IsReady travel (wrap F travel maximum delta (moved travel p (reach travel p)))
  wrap-IsReady RouteTravelDirection.forward maximum delta p end more h =
      wrap_forward maximum delta (add p (reach RouteTravelDirection.forward p)) (x.lands p h)
  wrap-IsReady RouteTravelDirection.reverse maximum delta p end more h =
      wrap_back maximum delta (sub p (reach RouteTravelDirection.reverse p)) end more
        (back-IsReady p h)

  -- The rounds that the way to go takes from a stop on.
  abbrev rounds : Double → ℕ
  rounds delta = truncate (ceil delta) + 1

  over-walk :
      (fuel : ℕ) (route : LineRoute F) (travel : RouteTravelDirection) (maximum : Double)
      (w : Walker F)
      → F.ltb (decimal 1 9) w.delta ≡ false
      → (d : Double) × (walk F fuel route travel maximum w ≡ some d)
  unfolding walk
  over-walk zero route travel maximum w there = (w.travelled, rw (there, walk) refl)
  over-walk (suc fuel) route travel maximum w there = (w.travelled, rw (there, walk) refl)

  -- A round whose step is the way to go is the last.
  advance-last :
      (route : LineRoute F) (travel : RouteTravelDirection) (maximum : Double) (w : Walker F)
      → F.ltb (reach travel w.position) w.delta ≡ false
      → F.ltb (decimal 1 9) (advance F route travel maximum w).delta ≡ false
  unfolding advance double_min
  advance-last route travel maximum w short =
      let step = step_lem route travel w.delta w.position in rw (step, short) (x.cancels w.delta)

  -- Any other one takes its reach.
  advance-delta :
      (route : LineRoute F) (travel : RouteTravelDirection) (maximum : Double) (w : Walker F)
      → F.ltb (reach travel w.position) w.delta ≡ true
      → (advance F route travel maximum w).delta ≡ sub w.delta (reach travel w.position)
  unfolding advance double_min
  advance-delta route travel maximum w long =
      let step = step_lem route travel w.delta w.position in rw (step, long) refl

  advance-position :
      (route : LineRoute F) (travel : RouteTravelDirection) (maximum : Double) (w : Walker F)
      → F.ltb (reach travel w.position) w.delta ≡ true
      → (advance F route travel maximum w).position
        ≡ wrap F travel maximum
            (sub w.delta (reach travel w.position))
            (moved travel w.position (reach travel w.position))
  unfolding advance double_min
  advance-position route travel maximum w long =
      let step = step_lem route travel w.delta w.position in rw (step, long) refl

  -- Where the round is not the last, the next one begins at a stop.
  advance-IsReady :
      (route : LineRoute F) (travel : RouteTravelDirection) (maximum : Double) (w : Walker F)
      → IsReady RouteTravelDirection.reverse maximum
      → IsPlace F w.position
      → F.ltb (reach travel w.position) w.delta ≡ true
      → F.ltb (decimal 1 9) (advance F route travel maximum w).delta ≡ true
      → IsReady travel (advance F route travel maximum w).position
  advance-IsReady route travel maximum w end place long more =
      let left =
        subst (λ d. F.ltb (decimal 1 9) d ≡ true) (advance-delta route travel maximum w long)
          more in
      subst (IsReady travel) (sym (advance-position route travel maximum w long))
        (wrap-IsReady travel maximum _ w.position end left place)

  -- One round, and what remains after it.
  walk-round :
      (fuel : ℕ) (route : LineRoute F) (travel : RouteTravelDirection) (maximum : Double)
      (w : Walker F)
      → (F.ltb (reach travel w.position) w.delta ≡ true
          → F.ltb (decimal 1 9) (advance F route travel maximum w).delta ≡ true
          → (d : Double) × (walk F fuel route travel maximum (advance F route travel maximum w)
              ≡ some d))
      → (d : Double) × (walk F (suc fuel) route travel maximum w ≡ some d)
  unfolding walk
  walk-round fuel route travel maximum w next =
      let w' = advance F route travel maximum w in
      elim (Bool-cases (F.ltb (decimal 1 9) w.delta)) [
        | inr there ↦ (w.travelled, rw (there, walk) refl)
        | inl more ↦
            let (d, e) : (d : Double) × (walk F fuel route travel maximum w' ≡ some d) =
              elim (Bool-cases (F.ltb (reach travel w.position) w.delta)) [
                | inr short ↦
                    over-walk fuel route travel maximum w'
                      (advance-last route travel maximum w short)
                | inl long ↦ elim (Bool-cases (F.ltb (decimal 1 9) w'.delta)) [
                  | inr there ↦ over-walk fuel route travel maximum w' there
                  | inl on ↦ next long on
                ]
              ] in
            (d, rw (more, walk) e)
      ]

  abbrev IsShort : Double → Type 0
  IsShort delta = double_le F delta (longest_way F) ≡ true

  advance-IsShort :
      (route : LineRoute F) (travel : RouteTravelDirection) (maximum : Double) (w : Walker F)
      → IsPlace F w.position
      → IsShort w.delta
      → F.ltb (reach travel w.position) w.delta ≡ true
      → IsShort (advance F route travel maximum w).delta
        × (truncate (ceil (advance F route travel maximum w).delta) ≤ truncate (ceil w.delta))
  advance-IsShort route travel maximum w place short long =
      let part : IsPart F (reach travel w.position) w.delta =
        (reach-positive travel w.position place, long, short) in
      rw (advance-delta route travel maximum w long) (
        x.within w.delta (reach travel w.position) part,
        x.shortens w.delta (reach travel w.position) part,
      )

  -- From a stop on, each round but the last takes one off the way to go.
  walk-stop :
      (fuel : ℕ) (route : LineRoute F) (travel : RouteTravelDirection) (maximum : Double)
      (w : Walker F)
      → IsReady RouteTravelDirection.reverse maximum
      → IsReady travel w.position
      → IsShort w.delta
      → rounds w.delta ≤ fuel
      → (d : Double) × (walk F fuel route travel maximum w ≡ some d)
  walk-stop zero route travel maximum w end (place, stop) short enough =
      absurd (omega (arith, enough))
  walk-stop (suc fuel) route travel maximum w end (place, stop) short enough =
      let w' = advance F route travel maximum w in
      walk-round fuel route travel maximum w (λ long more.
        let one = reach-stop travel w.position stop in
        let long' = subst (λ r. F.ltb r w.delta ≡ true) one long in
        let less = x.descends w.delta (x.one_positive, long', short) in
        let delta =
          subst (λ r. w'.delta ≡ sub w.delta r) one (advance-delta route travel maximum w long) in
        let less' : truncate (ceil w'.delta) < truncate (ceil w.delta) =
          subst (λ d. truncate (ceil d) < truncate (ceil w.delta)) (sym delta) less in
        walk-stop fuel route travel maximum w' end
          (advance-IsReady route travel maximum w end place long more)
          (advance-IsShort route travel maximum w place short long).0
          (omega (arith, less', enough)))

  -- From anywhere, one round leads to a stop.
  walk-ends :
      (fuel : ℕ) (route : LineRoute F) (travel : RouteTravelDirection) (maximum : Double)
      (w : Walker F)
      → IsReady RouteTravelDirection.reverse maximum
      → IsPlace F w.position
      → IsShort w.delta
      → rounds w.delta < fuel
      → (d : Double) × (walk F fuel route travel maximum w ≡ some d)
  walk-ends zero route travel maximum w end place short enough = absurd (omega (arith, enough))
  walk-ends (suc fuel) route travel maximum w end place short enough =
      walk-round fuel route travel maximum w (λ long more.
        let (short', less) = advance-IsShort route travel maximum w place short long in
        walk-stop fuel route travel maximum (advance F route travel maximum w) end
          (advance-IsReady route travel maximum w end place long more) short'
          (omega (arith, less, enough)))

  current-IsPlace :
      (route : LineRoute F) (train : TrainTelemetry F)
      → IsPlace F (last_position F route)
      → IsPlace F (current_position F route train)
  unfolding current_position double_min double_max
  current-IsPlace route train end =
      let here = current_position F route train in
      elim (Bool-cases (F.ltb train.route_position (last_position F route))) [
        | inr after ↦ elim (Bool-cases (F.ltb (decimal 0 0) (last_position F route))) [
          | inl inside ↦
              let e : here ≡ last_position F route = simp (after, inside) refl in
              subst (IsPlace F) (sym e) end
          | inr outside ↦
              let e : here ≡ decimal 0 0 = simp (after, outside) refl in
              subst (IsPlace F) (sym e) x.zero_place
        ]
        | inl before ↦ elim (Bool-cases (F.ltb (decimal 0 0) train.route_position)) [
          | inl inside ↦
              let e : here ≡ train.route_position = simp (before, inside) refl in
              subst (IsPlace F) (sym e)
                (x.between_place train.route_position (last_position F route) inside before end)
          | inr outside ↦
              let e : here ≡ decimal 0 0 = simp (before, outside) refl in
              subst (IsPlace F) (sym e) x.zero_place
        ]
      ]

  -- The walk along the line to an entrance ends and answers. With the laws of rounded arithmetic
  -- in `Rounding`, which IEEE 754 doubles have, for a line of at most 2^64 - 1 points and a way to
  -- go of at most 2^52 positions, two rounds more than the way to go, rounded up, are enough: the
  -- first round leads to a whole position, or next to one where the train runs backwards, and each
  -- later one takes one off the way, but for the last.
  pub distance_to_entry-ends :
      (fuel : ℕ) (route : LineRoute F) (traversal : CorridorTraversal F) (train : TrainTelemetry F)
      → length route.points ≤ u64_max
      → double_le F (delta_to F route traversal train) (longest_way F) ≡ true
      → truncate (ceil (delta_to F route traversal train)) + 2 ≤ fuel
      → (o : Option Double) × (distance_to_entry F fuel route traversal train ≡ some o)
  unfolding distance_to_entry
  distance_to_entry-ends fuel route traversal train size short enough =
      let delta = delta_to F route traversal train in
      let n = length route.points - 1 in
      let fits : n ≤ u64_max = omega (arith, size) in
      let end = x.whole_place n fits in
      let (d, e) =
        walk-ends fuel route train.travel_direction (last_position F route)
          (record {
            delta = delta;
            position = current_position F route train;
            travelled = decimal 0 0;
          })
          (end, x.whole_fraction n fits) (current-IsPlace route train end) short
          (omega (arith, enough)) in
      elim (Bool-cases
        (ltb (length route.points) 2 || F.ltb delta (sub (decimal 0 0) (decimal 1 6)))) [
          | inl behind ↦ (none, rw (behind, distance_to_entry) refl)
          | inr ahead ↦ (some d, rw (ahead, distance_to_entry, e) refl)
        ]
