-- ===== src/Planner/Times.antt =====
-- The saturating sum of server/src/AffectedLinePlanner.cpp.
use multi_agent_route_planni.Base.{
  ℕ, ◌+◌, ◌-◌, ◌≤◌, ◌≡◌, ◌⊎◌, inl, inr, refl, ltb, Bool-cases, arith, u64_max, u64, min,
}
use multi_agent_route_planni.Planner.{add_saturated}

-- Two 64-bit times add up to the smaller of their sum and the largest 64-bit time, which is never
-- before either of them; it is what the sum of 64-bit numbers is, or that largest time.
pub add_saturated_lem :
    (a b : ℕ)
    → a ≤ u64_max
    → b ≤ u64_max
    → (add_saturated a b ≡ min (a + b) u64_max)
      × (a ≤ add_saturated a b)
      × (b ≤ add_saturated a b)
      × ((add_saturated a b ≡ u64 (a + b)) ⊎ (add_saturated a b ≡ u64_max))
unfolding add_saturated
add_saturated_lem a b p q = (
  ground arith,
  ground arith,
  ground arith,
  elim (Bool-cases (ltb (u64_max - a) b)) [
    | inl far ↦ inr (simp far refl)
    | inr near ↦ inl (ground (arith, near))
  ],
)

pub add_saturated_mono : (a b c : ℕ) → a ≤ b → add_saturated a c ≤ add_saturated b c
unfolding add_saturated
add_saturated_mono a b c h = ground arith

pub add_saturated-le_max : (a b : ℕ) → a ≤ u64_max → add_saturated a b ≤ u64_max
unfolding add_saturated
add_saturated-le_max a b h = ground arith

pub add_saturated-ge : (a b : ℕ) → a ≤ u64_max → a ≤ add_saturated a b
unfolding add_saturated
add_saturated-ge a b h = ground arith
