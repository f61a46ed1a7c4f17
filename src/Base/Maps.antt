-- ===== src/Base/Maps.antt =====
-- `std::unordered_map` as an association list. A map holds a key once (`IsMap`), and the list's
-- order is the order in which the container is traversed; the model leaves it open.
use mathlib.Core.Path.{◌≡◌, refl, ap}
use mathlib.Core.Logic.{inl, inr}
use mathlib.Core.Bool.{Bool, true, false, ◌||◌}
use mathlib.Core.Option
use mathlib.Core.Option.{Option, none, some}
use mathlib.Core.List.{List, [], ◌∷◌}
use native.Mathlib.Omega.{arith}
use multi_agent_route_planni.Base.Tests.{if◌then◌else◌, Eq, ◌==◌, Bool-cases}

abbrev pub Map {ℓ κ} : Type ℓ → Type κ → Type (ℓ ⊔ κ)
Map K V = List (K × V)

-- What is left of an entry under a test that drops it.
abbrev pub unless {κ} : {V : Type κ} → Bool → Option V → Option V
unless true o = none
unless false o = o

module _ {ℓ κ} {K : Type ℓ} {V : Type κ} ⦃e : Eq K⦄ where
  unfoldable pub lookup : K → Map K V → Option V
  lookup k [] = none
  lookup k ((j, v) ∷ m) = if j == k then some v else lookup k m

  -- `m[k] = v`.
  unfoldable pub insert : K → V → Map K V → Map K V
  insert k v [] = (k, v) ∷ []
  insert k v ((j, w) ∷ m) = if j == k then (k, v) ∷ m else (j, w) ∷ insert k v m

  -- `m[k]` where it is read: a missing key gets the default, and the map an entry for it.
  unfoldable pub value_or : V → K → Map K V → V
  value_or d k m = elim (lookup k m) [ none ↦ d | some v ↦ v ]

  unfoldable pub emplace : K → V → Map K V → Map K V
  emplace k d m = elim (lookup k m) [ none ↦ insert k d m | some v ↦ m ]

  -- The loop that erases while it walks the map.
  unfoldable pub erase_if : (K → V → Bool) → Map K V → Map K V
  erase_if p [] = []
  erase_if p ((k, v) ∷ m) = let rest = erase_if p m in if p k v then rest else (k, v) ∷ rest

  -- `m.erase(k)`.
  unfoldable pub erase : K → Map K V → Map K V
  unfolding erase_if
  erase k m = erase_if (λ j v. j == k) m

  -- Whether some entry passes the test.
  unfoldable pub any_entry : (K → V → Bool) → Map K V → Bool
  any_entry p [] = false
  any_entry p ((k, v) ∷ m) = p k v || any_entry p m

  abbrev pub IsMap : Map K V → Type κ
  IsMap [] = Unit
  IsMap ((k, v) ∷ m) = (lookup k m ≡ none) × IsMap m

  pub lookup-insert :
      (k j : K) (v : V) (m : Map K V)
      → lookup j (insert k v m) ≡ (if k == j then some v else lookup j m)
  unfolding lookup insert
  lookup-insert k j v [] = refl
  lookup-insert k j v ((i, w) ∷ rest) =
      ground (lookup-insert k j v rest, e.beq_iff k j, e.beq_iff i k, e.beq_iff i j, arith)

  pub insert-insert : (k : K) (v w : V) (m : Map K V) → insert k v (insert k w m) ≡ insert k v m
  unfolding insert
  insert-insert k v w [] = rw ((e.beq_iff k k).1 refl) refl
  insert-insert k v w ((j, x) ∷ m) =
      ground (arith, e.beq_iff k k, ap (λ n. (j, x) ∷ n) (insert-insert k v w m))

  pub insert-IsMap : (k : K) (v : V) (m : Map K V) → IsMap m → IsMap (insert k v m)
  unfolding lookup insert
  insert-IsMap k v [] h = (refl, tt)
  insert-IsMap k v ((i, w) ∷ m) h =
      ground (arith, e.beq_iff i k, e.beq_iff k i, lookup-insert k i v m, insert-IsMap k v m h.1)

  pub lookup-erase_if-none :
      (p : K → V → Bool) (j : K) (m : Map K V) → lookup j m ≡ none → lookup j (erase_if p m) ≡ none
  unfolding lookup erase_if
  lookup-erase_if-none p j [] h = refl
  lookup-erase_if-none p j ((k, v) ∷ m) h = ground (arith, lookup-erase_if-none p j m)

  pub lookup-erase_if-some :
      (p : K → V → Bool) (j : K) (v : V) (m : Map K V)
      → IsMap m
      → lookup j m ≡ some v
      → lookup j (erase_if p m) ≡ unless (p j v) (some v)
  unfolding lookup erase_if
  lookup-erase_if-some p j v [] n h = ground arith
  lookup-erase_if-some p j v ((k, w) ∷ m) n h =
      ground (arith, e.beq_iff k j, lookup-erase_if-none p j m, lookup-erase_if-some p j v m n.1)

  pub erase_if-IsMap : (p : K → V → Bool) (m : Map K V) → IsMap m → IsMap (erase_if p m)
  unfolding erase_if
  erase_if-IsMap p [] h = tt
  erase_if-IsMap p ((k, v) ∷ m) h =
      ground (arith, lookup-erase_if-none p k m, erase_if-IsMap p m h.1)

  pub lookup-erase :
      (k j : K) (m : Map K V)
      → IsMap m
      → lookup j (erase k m) ≡ (if k == j then none else lookup j m)
  unfolding erase lookup
  lookup-erase k j [] h = ground arith
  lookup-erase k j ((i, w) ∷ m) h = ground (
    arith,
    e.beq_iff k j,
    e.beq_iff i k,
    e.beq_iff i j,
    lookup-erase_if-none (λ (x : K) (y : V). x == k) j m,
    lookup-erase k j m h.1,
  )

  pub erase-IsMap : (k : K) (m : Map K V) → IsMap m → IsMap (erase k m)
  unfolding erase
  erase-IsMap k m h = erase_if-IsMap (λ j v. j == k) m h

  pub any_entry-false :
      (p : K → V → Bool) (k : K) (v : V) (m : Map K V)
      → any_entry p m ≡ false
      → lookup k m ≡ some v
      → p k v ≡ false
  unfolding lookup any_entry
  any_entry-false p k v [] n h = ground arith
  any_entry-false p k v ((j, w) ∷ m) n h = ground (arith, e.beq_iff j k, any_entry-false p k v m)

  pub any_entry-true :
      (p : K → V → Bool) (k : K) (v : V) (m : Map K V)
      → lookup k m ≡ some v
      → p k v ≡ true
      → any_entry p m ≡ true
  unfolding lookup any_entry
  any_entry-true p k v [] h q = ground arith
  any_entry-true p k v ((j, w) ∷ m) h q = ground (arith, e.beq_iff j k, any_entry-true p k v m)

  pub any_entry_witness :
      (p : K → V → Bool) (m : Map K V)
      → IsMap m
      → any_entry p m ≡ true
      → (k : K) × (v : V) × (lookup k m ≡ some v) × (p k v ≡ true)
  unfolding lookup any_entry
  any_entry_witness p [] h q = ground arith
  any_entry_witness p ((j, w) ∷ m) h q = elim (Bool-cases (p j w)) [
    | inl hit ↦ (j, w, ground (arith, e.beq_iff j j), hit)
    | inr miss ↦
        let (k, v, found, good) = any_entry_witness p m h.1 (ground arith) in
        (k, v, ground (arith, e.beq_iff j k), good)
  ]

  abbrev pub map_values {μ} : {W : Type μ} → (V → W) → Map K V → Map K W
  map_values f [] = []
  map_values f ((k, v) ∷ m) = (k, f v) ∷ map_values f m

  pub lookup-map_values :
      (f : V → V) (k : K) (m : Map K V) → lookup k (map_values f m) ≡ Option.map f (lookup k m)
  unfolding lookup
  lookup-map_values f k [] = refl
  lookup-map_values f k ((j, v) ∷ m) = ground (arith, lookup-map_values f k m)

  pub map_values-IsMap : (f : V → V) (m : Map K V) → IsMap m → IsMap (map_values f m)
  unfolding lookup
  map_values-IsMap f [] h = tt
  map_values-IsMap f ((k, v) ∷ m) h =
      (rw (lookup-map_values f k m, h.0) refl, map_values-IsMap f m h.1)
