-- ===== src/Approach/Rounding.antt =====
-- The laws of rounded arithmetic that the loop of `distanceToEntry` in
-- server/src/DispatchCandidateBuilder.cpp and server/src/AffectedLinePlanner.cpp rests on. Doubles of
-- IEEE 754 have them, with rounding to the nearest: the comments say why.
use multi_agent_route_planni.Base.{ℕ, ◌≤◌, ◌<◌, ◌≡◌, true, false, u64_max}
use multi_agent_route_planni.Base.Floats.{Floats, double_le}

module _ (F : Floats) where
  open F use {Double, decimal, of_ℕ, add, sub, floor, ceil, truncate, is_finite}

  abbrev pub fraction : Double → Double
  fraction p = sub p (floor p)

  -- 2 ^ 52, up to which a double tells whole numbers from halves.
  abbrev pub longest_way : Double
  longest_way = decimal 4503599627370496 0

  -- A position that a train can have.
  abbrev pub IsPlace : Double → Type 0
  IsPlace p = (double_le F (decimal 0 0) p ≡ true) × (is_finite p ≡ true)

  -- A step that is less than the way to go.
  abbrev pub IsPart : Double → Double → Type 0
  IsPart step way =
      (F.ltb (decimal 0 0) step ≡ true)
      × (F.ltb step way ≡ true)
      × (double_le F way longest_way ≡ true)

  pub record Rounding : Type 0 where
    -- The difference is 0, or no number.
    pub cancels : (a : Double) → F.ltb (decimal 1 9) (sub a a) ≡ false
    pub positive : (a : Double) → F.ltb (decimal 1 9) a ≡ true → F.ltb (decimal 0 0) a ≡ true
    pub apart : (a : Double) → F.ltb (decimal 1 9) a ≡ true → double_le F a (decimal 1 9) ≡ false
    pub one_positive : F.ltb (decimal 0 0) (decimal 1 0) ≡ true
    pub zero_place : IsPlace (decimal 0 0)
    pub zero_whole : sub (decimal 1 0) (fraction (decimal 0 0)) ≡ decimal 1 0
    pub zero_fraction : F.ltb (decimal 1 9) (fraction (decimal 0 0)) ≡ false
    -- A 64-bit number is rounded to a double that is whole.
    pub whole_place : (n : ℕ) → n ≤ u64_max → IsPlace (of_ℕ n)
    pub whole_fraction : (n : ℕ) → n ≤ u64_max → F.ltb (decimal 1 9) (fraction (of_ℕ n)) ≡ false
    pub between_place :
        (a b : Double) → F.ltb (decimal 0 0) a ≡ true → F.ltb a b ≡ true → IsPlace b → IsPlace a
    -- The fraction is exact and less than 1, so that what 1 has more is positive.
    pub ahead :
        (p : Double) → IsPlace p → F.ltb (decimal 0 0) (sub (decimal 1 0) (fraction p)) ≡ true
    -- The next whole number ahead: from 1 on the difference is exact; below 1 its error is at most
    -- 2 ^ -54, which the sum rounds away.
    pub lands :
        (p : Double)
        → IsPlace p
        → IsPlace (add p (sub (decimal 1 0) (fraction p)))
          × (sub (decimal 1 0) (fraction (add p (sub (decimal 1 0) (fraction p)))) ≡ decimal 1 0)
    -- The next whole number behind: both differences are exact.
    pub lands_back :
        (p : Double)
        → IsPlace p
        → IsPlace (sub p (fraction p))
          × (F.ltb (decimal 1 9) (fraction (sub p (fraction p))) ≡ false)
    -- One back from next to a whole number: the difference is exact, and the fraction stays.
    pub back :
        (p : Double)
        → IsPlace p
        → F.ltb (decimal 1 9) (fraction p) ≡ false
        → double_le F (sub p (decimal 1 0)) (decimal 1 9) ≡ false
        → IsPlace (sub p (decimal 1 0))
          × (F.ltb (decimal 1 9) (fraction (sub p (decimal 1 0))) ≡ false)
    -- A rounded difference is no more than what it is taken from.
    pub within :
        (way step : Double) → IsPart step way → double_le F (sub way step) longest_way ≡ true
    pub shortens :
        (way step : Double) → IsPart step way → truncate (ceil (sub way step)) ≤ truncate (ceil way)
    -- Up to 2 ^ 52, one taken off a number above 1 is exact.
    pub descends :
        (way : Double)
        → IsPart (decimal 1 0) way
        → truncate (ceil (sub way (decimal 1 0))) < truncate (ceil way)
