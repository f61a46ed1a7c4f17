-- ===== src/Base/Lists.antt =====
-- Lists under Boolean tests, measured by native numbers.
use Prim.Native.Nat.{ℕ, zero, suc, ◌+◌, ◌-◌, ◌≤◌}
use mathlib.Core.Path.{◌≡◌, refl, sym, ap, ◌∙◌, subst}
use mathlib.Core.Logic.{◌≢◌, inl, inr}
use mathlib.Core.Bool.{Bool, true, false, ◌||◌}
use mathlib.Core.Option.{Option, none, some}
use mathlib.Core.List.{List, [], ◌∷◌, ◌++◌, map, Memᴰ}
use native.Mathlib.Omega.{arith}
use multi_agent_route_planni.Base.Tests.{if◌then◌else◌, Eq, ◌==◌, Bool-cases, Option-cases}

-- A predicate of every element, which computes to a tuple.
abbrev pub All {ℓ κ} : {A : Type ℓ} → (A → Type κ) → List A → Type κ
All P [] = Unit
All P (x ∷ xs) = P x × All P xs

module _ {ℓ} {A : Type ℓ} where
  abbrev pub length : List A → ℕ
  length [] = 0
  length (x ∷ xs) = suc (length xs)

  pub length-append : (xs ys : List A) → length (xs ++ ys) ≡ length xs + length ys
  length-append [] ys = omega arith
  length-append (x ∷ xs) ys = omega (arith, length-append xs ys)

  -- `std::any_of`.
  unfoldable pub any_of : (A → Bool) → List A → Bool
  any_of p [] = false
  any_of p (x ∷ xs) = p x || any_of p xs

  -- `erase(remove_if(…))`: the elements that fail the test stay, in order.
  unfoldable pub remove_if : (A → Bool) → List A → List A
  remove_if p [] = []
  remove_if p (x ∷ xs) = let rest = remove_if p xs in if p x then rest else x ∷ rest

  pub length-remove_if-le : (p : A → Bool) (xs : List A) → length (remove_if p xs) ≤ length xs
  unfolding remove_if
  length-remove_if-le p [] = omega arith
  length-remove_if-le p (x ∷ xs) = ground (arith, length-remove_if-le p xs)

  pub All-remove_if : (p : A → Bool) (xs : List A) → All (λ x. p x ≡ false) (remove_if p xs)
  unfolding remove_if
  All-remove_if p [] = tt
  All-remove_if p (x ∷ xs) = ground (arith, All-remove_if p xs)

  pub mem-remove_if :
      (p : A → Bool) (xs : List A) (y : A) → Memᴰ y (remove_if p xs) → Memᴰ y xs × (p y ≡ false)
  unfolding remove_if
  mem-remove_if p [] y m = elim m [ ]
  mem-remove_if p (x ∷ xs) y m = elim (Bool-cases (p x)) [
    | inl out ↦ let (m', h) = mem-remove_if p xs y (rw (out, remove_if) at m) in (Memᴰ.tail m', h)
    | inr kept ↦
        let m₁ : Memᴰ y (x ∷ remove_if p xs) = rw (kept, remove_if) at m in
        elim m₁ [
          | Memᴰ.head same ↦ (Memᴰ.head same, subst (λ w. p w ≡ false) (sym same) kept)
          | Memᴰ.tail m₂ ↦ let (m', h) = mem-remove_if p xs y m₂ in (Memᴰ.tail m', h)
        ]
  ]

  abbrev pub take : ℕ → List A → List A
  take zero xs = []
  take (suc n) [] = []
  take (suc n) (x ∷ xs) = x ∷ take n xs

  abbrev pub drop : ℕ → List A → List A
  drop zero xs = xs
  drop (suc n) [] = []
  drop (suc n) (x ∷ xs) = drop n xs

  pub take-append-drop : (n : ℕ) (xs : List A) → take n xs ++ drop n xs ≡ xs
  take-append-drop zero xs = refl
  take-append-drop (suc n) [] = refl
  take-append-drop (suc n) (x ∷ xs) = ap (λ ys. x ∷ ys) (take-append-drop n xs)

  pub drop-drop : (n k : ℕ) (xs : List A) → drop k (drop n xs) ≡ drop (n + k) xs
  drop-drop zero k xs = let e : k ≡ zero + k = omega arith in ap (λ j. drop j xs) e
  drop-drop (suc n) zero [] = let e : suc n ≡ suc n + zero = omega arith in ap (λ j. drop j []) e
  drop-drop (suc n) (suc k) [] =
      let e : suc (n + suc k) ≡ suc n + suc k = omega arith in ap (λ j. drop j []) e
  drop-drop (suc n) k (x ∷ xs) =
      let e : suc (n + k) ≡ suc n + k = omega arith in
      drop-drop n k xs ∙ ap (λ j. drop j (x ∷ xs)) e

  pub length-drop : (n : ℕ) (xs : List A) → length (drop n xs) ≡ length xs - n
  length-drop zero xs = omega arith
  length-drop (suc n) [] = omega arith
  length-drop (suc n) (x ∷ xs) = omega (arith, length-drop n xs)

  pub length-zero : (xs : List A) → length xs ≡ 0 → xs ≡ []
  length-zero [] h = refl
  length-zero (x ∷ xs) h = absurd (ground arith)

  pub length-take : (n : ℕ) (xs : List A) → n ≤ length xs → length (take n xs) ≡ n
  length-take zero xs h = omega arith
  length-take (suc n) [] h = absurd (omega arith)
  length-take (suc n) (x ∷ xs) h = omega (arith, length-take n xs (omega arith))

  pub take-all : (n : ℕ) (xs : List A) → length xs ≤ n → take n xs ≡ xs
  take-all zero xs h = sym (length-zero xs (omega arith))
  take-all (suc n) [] h = refl
  take-all (suc n) (x ∷ xs) h = ap (λ ys. x ∷ ys) (take-all n xs (omega arith))

  pub drop-all : (n : ℕ) (xs : List A) → length xs ≤ n → drop n xs ≡ []
  drop-all n xs h = length-zero (drop n xs) (omega (arith, length-drop n xs))

module _ {ℓ} {A : Type ℓ} where
  abbrev pub get_elem? : List A → ℕ → Option A
  get_elem? [] i = none
  get_elem? (x ∷ xs) zero = some x
  get_elem? (x ∷ xs) (suc i) = get_elem? xs i

  -- `xs[i] = x`.
  abbrev pub set_elem : ℕ → A → List A → List A
  set_elem i x [] = []
  set_elem zero x (y ∷ ys) = x ∷ ys
  set_elem (suc i) x (y ∷ ys) = y ∷ set_elem i x ys

  pub get_elem?-set_elem_other :
      (xs : List A) (i j : ℕ) (x : A) → i ≢ j → get_elem? (set_elem i x xs) j ≡ get_elem? xs j
  get_elem?-set_elem_other [] i j x ne = refl
  get_elem?-set_elem_other (y ∷ ys) zero zero x ne = absurd (ne refl)
  get_elem?-set_elem_other (y ∷ ys) zero (suc j) x ne = refl
  get_elem?-set_elem_other (y ∷ ys) (suc i) zero x ne = refl
  get_elem?-set_elem_other (y ∷ ys) (suc i) (suc j) x ne =
      get_elem?-set_elem_other ys i j x (λ e. ne (ap suc e))

  pub get_elem?-set_elem_self :
      (xs : List A) (i : ℕ) (x y : A)
      → get_elem? xs i ≡ some y
      → get_elem? (set_elem i x xs) i ≡ some x
  get_elem?-set_elem_self [] i x y h = absurd (ground arith)
  get_elem?-set_elem_self (z ∷ zs) zero x y h = refl
  get_elem?-set_elem_self (z ∷ zs) (suc i) x y h = get_elem?-set_elem_self zs i x y h

  pub get_elem?-drop : (n i : ℕ) (xs : List A) → get_elem? (drop n xs) i ≡ get_elem? xs (n + i)
  get_elem?-drop zero i xs = let e : i ≡ zero + i = omega arith in ap (get_elem? xs) e
  get_elem?-drop (suc n) i [] = refl
  get_elem?-drop (suc n) i (x ∷ xs) =
      let e : suc (n + i) ≡ suc n + i = omega arith in
      get_elem?-drop n i xs ∙ ap (get_elem? (x ∷ xs)) e

pub get_elem?-map {ℓ κ} :
    {A : Type ℓ} {B : Type κ} (f : A → B) (xs : List A) (i : ℕ) {y : B}
    → get_elem? (map f xs) i ≡ some y
    → (x : A) × (get_elem? xs i ≡ some x) × (f x ≡ y)
get_elem?-map f [] i h = absurd (ground arith)
get_elem?-map f (x ∷ xs) zero h = (x, refl, cc)
get_elem?-map f (x ∷ xs) (suc i) h = get_elem?-map f xs i h

pub map-set_elem {ℓ κ} :
    {A : Type ℓ} {B : Type κ} (f : A → B) (xs : List A) (i : ℕ) (x : A) {y : A}
    → get_elem? xs i ≡ some y
    → f x ≡ f y
    → map f (set_elem i x xs) ≡ map f xs
map-set_elem f [] i x h e = refl
map-set_elem f (z ∷ zs) zero x {y} h e =
    let z=y : z ≡ y = cc in ap (λ w. w ∷ map f zs) (e ∙ sym (ap f z=y))
map-set_elem f (z ∷ zs) (suc i) x h e = ap (λ ws. f z ∷ ws) (map-set_elem f zs i x h e)

module _ {ℓ} {A : Type ℓ} ⦃e : Eq A⦄ where
  -- `std::find(…) != end()`.
  unfoldable pub contains : List A → A → Bool
  contains [] a = false
  contains (x ∷ xs) a = x == a || contains xs a

  pub contains-cons_self : (a : A) (xs : List A) → contains (a ∷ xs) a ≡ true
  unfolding contains
  contains-cons_self a xs = ground (arith, e.beq_iff a a)

  pub contains-All {κ} :
      (P : A → Type κ) (xs : List A) (a : A) → All P xs → contains xs a ≡ true → P a
  unfolding contains
  contains-All P [] a h m = absurd (ground arith)
  contains-All P (x ∷ xs) a h m = elim (Bool-cases (x == a)) [
    | inl here ↦ subst P ((e.beq_iff x a).0 here) h.0
    | inr there ↦ contains-All P xs a h.1 (ground arith)
  ]

module _ {ℓ} {A : Type ℓ} where
  pub All-map {κ μ} :
      {P : A → Type κ} {Q : A → Type μ} (xs : List A) → ((x : A) → P x → Q x) → All P xs → All Q xs
  All-map [] f h = tt
  All-map (x ∷ xs) f h = (f x h.0, All-map xs f h.1)

  pub any_of-All-false :
      (p : A → Bool) (xs : List A) → any_of p xs ≡ false → All (λ x. p x ≡ false) xs
  unfolding any_of
  any_of-All-false p [] h = tt
  any_of-All-false p (x ∷ xs) h = (ground arith, any_of-All-false p xs (ground arith))

  pub any_of-false : (p : A → Bool) (xs : List A) → All (λ x. p x ≡ false) xs → any_of p xs ≡ false
  unfolding any_of
  any_of-false p [] h = refl
  any_of-false p (x ∷ xs) h = ground (arith, any_of-false p xs h.1)

  -- A sorted copy: each element goes before the first that it is less than.
  unfoldable pub insert_by : (A → A → Bool) → A → List A → List A
  insert_by less a [] = a ∷ []
  insert_by less a (x ∷ xs) =
      let rest = insert_by less a xs in if less a x then a ∷ x ∷ xs else x ∷ rest

  unfoldable pub sort_by : (A → A → Bool) → List A → List A
  unfolding insert_by
  sort_by less [] = []
  sort_by less (x ∷ xs) = insert_by less x (sort_by less xs)

module _ {ℓ κ} {A : Type ℓ} {B : Type κ} where
  -- A loop that skips an element (`continue`) or pushes what it makes of it.
  unfoldable pub keep_some : (A → Option B) → List A → List B
  keep_some f [] = []
  keep_some f (x ∷ xs) = elim (f x) [ none ↦ keep_some f xs | some y ↦ y ∷ keep_some f xs ]

  pub keep_some_from :
      (f : A → Option B) (xs : List A) (y : B)
      → Memᴰ y (keep_some f xs)
      → (x : A) × Memᴰ x xs × (f x ≡ some y)
  unfolding keep_some
  keep_some_from f [] y m = elim m [ ]
  keep_some_from f (x ∷ xs) y m = elim (Option-cases (f x)) [
    | inl e ↦
        let (x', m', e') = keep_some_from f xs y (rw (e, keep_some) at m) in (x', Memᴰ.tail m', e')
    | inr (z, e) ↦
        let m₁ : Memᴰ y (z ∷ keep_some f xs) = rw (e, keep_some) at m in
        elim m₁ [
          | Memᴰ.head same ↦ (x, Memᴰ.head refl, e ∙ ap some (sym same))
          | Memᴰ.tail m₂ ↦ let (x', m', e') = keep_some_from f xs y m₂ in (x', Memᴰ.tail m', e')
        ]
  ]

  pub mem-keep_some :
      (f : A → Option B) (xs : List A) (x : A) (y : B)
      → Memᴰ x xs
      → f x ≡ some y
      → Memᴰ y (keep_some f xs)
  unfolding keep_some
  mem-keep_some f [] x y m e = elim m [ ]
  mem-keep_some f (z ∷ xs) x y m e = elim m [
    | Memᴰ.head same ↦
        let e' : f z ≡ some y = subst (λ w. f w ≡ some y) same e in
        rw (e', keep_some) (Memᴰ.head refl)
    | Memᴰ.tail m' ↦ elim (Option-cases (f z)) [
      | inl none_z ↦ rw (none_z, keep_some) (mem-keep_some f xs x y m' e)
      | inr (w, e') ↦ rw (e', keep_some) (Memᴰ.tail (mem-keep_some f xs x y m' e))
    ]
  ]

module _ {ℓ} {A : Type ℓ} where
  pub any_of_witness :
      (p : A → Bool) (xs : List A) → any_of p xs ≡ true → (x : A) × Memᴰ x xs × (p x ≡ true)
  unfolding any_of
  any_of_witness p [] h = absurd (ground arith)
  any_of_witness p (x ∷ xs) h = elim (Bool-cases (p x)) [
    | inl hit ↦ (x, Memᴰ.head refl, hit)
    | inr miss ↦ let (y, m, q) = any_of_witness p xs (ground arith) in (y, Memᴰ.tail m, q)
  ]

  pub any_of_mem :
      (p : A → Bool) (xs : List A) (x : A) → Memᴰ x xs → p x ≡ true → any_of p xs ≡ true
  unfolding any_of
  any_of_mem p [] x m h = elim m [ ]
  any_of_mem p (y ∷ ys) x m h = elim m [
    | Memᴰ.head e ↦ let h' : p y ≡ true = subst (λ z. p z ≡ true) e h in ground arith
    | Memᴰ.tail m' ↦ ground (arith, any_of_mem p ys x m' h)
  ]

module _ {ℓ κ} {A : Type ℓ} (P : A → Type κ) where
  pub All-get_elem? : (xs : List A) (i : ℕ) {x : A} → All P xs → get_elem? xs i ≡ some x → P x
  All-get_elem? [] i h e = absurd (ground arith)
  All-get_elem? (x ∷ xs) zero {x = y} h e = let same : x ≡ y = cc in subst P same h.0
  All-get_elem? (x ∷ xs) (suc i) h e = All-get_elem? xs i h.1 e

  insert_by-All :
      (less : A → A → Bool) (x : A) (xs : List A) → P x → All P xs → All P (insert_by less x xs)
  unfolding insert_by
  insert_by-All less x [] p h = (p, tt)
  insert_by-All less x (y ∷ ys) p h = elim (Bool-cases (less x y)) [
    | inl first ↦ rw (first, insert_by) (p, h)
    | inr later ↦ rw (later, insert_by) (h.0, insert_by-All less x ys p h.1)
  ]

  pub sort_by-All : (less : A → A → Bool) (xs : List A) → All P xs → All P (sort_by less xs)
  unfolding sort_by
  sort_by-All less [] h = tt
  sort_by-All less (x ∷ xs) h = insert_by-All less x (sort_by less xs) h.0 (sort_by-All less xs h.1)

  pub All-append : (xs ys : List A) → All P xs → All P ys → All P (xs ++ ys)
  All-append [] ys h g = g
  All-append (x ∷ xs) ys h g = (h.0, All-append xs ys h.1 g)
