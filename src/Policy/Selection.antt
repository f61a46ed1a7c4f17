-- ===== src/Policy/Selection.antt =====
-- The selection loops of server/src/DynamicPriorityPolicy.cpp: they find an item if one passes, and
-- nothing that passes beats what they find.
use mathlib.Core.List.{Memᴰ}
use multi_agent_route_planni.Base.{
  ◌≡◌, refl, subst, sym, ◌⊎◌, inl, inr, some-eq, Bool, true, false, ◌&&◌, Option, none, some, List,
  [], ◌∷◌, arith, nat_eq, Bool-cases,
}
use multi_agent_route_planni.Policy.Decision.{select_by}

module _ {A : Type 0} where
  module _ (runs : A → Bool) (beats : Option A → A → Bool) where
    -- What a loop selects passes its test.
    pub select_by_from :
        (items : List A) (sel : Option A) {s : A}
        → select_by runs beats items sel ≡ some s
        → (sel ≡ some s) ⊎ (Memᴰ s items × (runs s ≡ true))
    unfolding select_by
    select_by_from [] sel e = inl e
    select_by_from (item ∷ items) sel {s} e = elim (Bool-cases (runs item && beats sel item)) [
      | inl taken ↦ elim (select_by_from items (some item) {s = s} (rw taken at e)) [
        | inl f ↦ inr (Memᴰ.head (sym (some-eq f)), ground arith)
        | inr (m, r) ↦ inr (Memᴰ.tail m, r)
      ]
      | inr passed ↦ elim (select_by_from items sel {s = s} (rw passed at e)) [
        | inl f ↦ inl f
        | inr (m, r) ↦ inr (Memᴰ.tail m, r)
      ]
    ]

    select_by-some :
        (items : List A) (s : A) → (r : A) × (select_by runs beats items (some s) ≡ some r)
    unfolding select_by
    select_by-some [] s = (s, refl)
    select_by-some (item ∷ items) s = elim (Bool-cases (runs item && beats (some s) item)) [
      | inl taken ↦ rw taken (select_by-some items item)
      | inr passed ↦ rw passed (select_by-some items s)
    ]

    -- It selects something if an item passes.
    pub select_by_finds :
        (items : List A) (x : A)
        → ((y : A) → beats none y ≡ true)
        → Memᴰ x items
        → runs x ≡ true
        → (r : A) × (select_by runs beats items none ≡ some r)
    unfolding select_by
    select_by_finds [] x open_ m r = elim m [ ]
    select_by_finds (item ∷ items) x open_ m r = elim (Bool-cases (runs item)) [
      | inl taken ↦ rw (taken, open_ item) (select_by-some items item)
      | inr passed ↦ elim m [
        | Memᴰ.head e ↦ absurd (ground arith)
        | Memᴰ.tail m' ↦ rw passed (select_by_finds items x open_ m' r)
      ]
    ]

    module _ (NotBeaten : A → A → Type 0) (self : (x : A) → NotBeaten x x)
        (keeps : (s x : A) → beats (some s) x ≡ false → NotBeaten s x)
        (improves : (s t x : A) → beats (some s) t ≡ true → NotBeaten s x → NotBeaten t x) where
      -- Nothing that passes beats the selection, nor does what was selected before.
      pub select_by_best :
          (items : List A) (s₀ s : A)
          → select_by runs beats items (some s₀) ≡ some s
          → ((x : A) → NotBeaten s₀ x → NotBeaten s x)
            × ((x : A) → Memᴰ x items → runs x ≡ true → NotBeaten s x)
      unfolding select_by
      select_by_best [] s₀ s e =
          (λ x h. subst (λ y. NotBeaten y x) (some-eq e) h, λ x m. elim m [ ])
      select_by_best (item ∷ items) s₀ s e = elim (Bool-cases (runs item && beats (some s₀) item)) [
        | inl taken ↦
            let (old, new) = select_by_best items item s (rw taken at e) in
            (
              λ x h. old x (improves s₀ item x (ground arith) h),
              λ x m r. elim m [
                | Memᴰ.head f ↦ old x (subst (λ y. NotBeaten item y) (sym f) (self item))
                | Memᴰ.tail m' ↦ new x m' r
              ],
            )
        | inr passed ↦
            let (old, new) = select_by_best items s₀ s (rw passed at e) in
            (
              old,
              λ x m r. elim m [
                | Memᴰ.head f ↦
                    let r' : runs item ≡ true = subst (λ y. runs y ≡ true) f r in
                    old x (subst (λ y. NotBeaten s₀ y) (sym f) (keeps s₀ item (ground arith)))
                | Memᴰ.tail m' ↦ new x m' r
              ],
            )
      ]

      pub select_by_best_none :
          (items : List A) (s : A)
          → ((y : A) → beats none y ≡ true)
          → select_by runs beats items none ≡ some s
          → (x : A) → Memᴰ x items
          → runs x ≡ true
          → NotBeaten s x
      unfolding select_by
      select_by_best_none [] s open_ e = λ x m. elim m [ ]
      select_by_best_none (item ∷ items) s open_ e = λ x m r. elim (Bool-cases (runs item)) [
        | inl taken ↦
            let (old, new) = select_by_best items item s (rw (taken, open_ item) at e) in
            elim m [
              | Memᴰ.head f ↦ old x (subst (λ y. NotBeaten item y) (sym f) (self item))
              | Memᴰ.tail m' ↦ new x m' r
            ]
        | inr passed ↦ elim m [
          | Memᴰ.head f ↦ absurd (ground arith)
          | Memᴰ.tail m' ↦ select_by_best_none items s open_ (rw passed at e) x m' r
        ]
      ]
