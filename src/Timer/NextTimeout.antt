-- ===== src/Timer/NextTimeout.antt =====
-- `getNextTimeout` of server/src/TimerManager.cpp against the table of deadlines.
use multi_agent_route_planni.Base.{
  ℕ, ◌-◌, ◌/◌, ◌≤◌, ◌≡◌, refl, sym, ap, subst, ◌∙◌, ◌⊎◌, true, Option, none, some, List, [], ◌∷◌,
  arith, nat_eq, inl, inr, Bool-cases, Map,
}
use multi_agent_route_planni.Timer.{
  TimerNode, TimerManager, is_current, drop_stale, until_expiry, get_next_timeout,
}
use multi_agent_route_planni.Timer.Deadlines.{find_expire, deadline_in, deadline, IsSorted, IsValid}
use multi_agent_route_planni.Timer.Expiry.{
  deadline_in_stale, deadline_in_current, deadline_in_late, IsLoop, drop_stale-IsLoop, to_loop,
}

-- What is on top after the stale nodes have gone.
drop_stale_top :
    (ids : Map ℕ ℕ) (h : List TimerNode)
    → (drop_stale ids h ≡ [])
      ⊎ ((n : TimerNode) × (h' : List TimerNode) × (drop_stale ids h ≡ n ∷ h')
          × (is_current ids n ≡ true))
unfolding drop_stale
drop_stale_top ids [] = inl refl
drop_stale_top ids (n ∷ h) = elim (Bool-cases (is_current ids n)) [
  | inl current ↦ inr (n, h, rw (current, drop_stale) refl, current)
  | inr stale ↦ rw (stale, drop_stale) (drop_stale_top ids h)
]

deadline_in-drop_stale :
    (ids : Map ℕ ℕ) (h : List TimerNode) (g : ℕ)
    → deadline_in ids (drop_stale ids h) g ≡ deadline_in ids h g
unfolding drop_stale
deadline_in-drop_stale ids [] g = refl
deadline_in-drop_stale ids (n ∷ h) g = elim (Bool-cases (is_current ids n)) [
  | inl current ↦ rw (current, drop_stale) refl
  | inr stale ↦
      rw (stale, drop_stale)
        (deadline_in-drop_stale ids h g ∙ sym (deadline_in_stale ids n h g stale))
]

-- The first deadline, as milliseconds from a time on: none if nothing is armed, else that of a
-- descriptor whose deadline no other precedes.
abbrev pub IsNext : ℕ → (ℕ → Option ℕ) → Option ℕ → Type 0
IsNext now due none = (fd : ℕ) → due fd ≡ none
IsNext now due (some t) =
    (fd : ℕ) × (d : ℕ) × (due fd ≡ some d)
    × (t ≡ (d - now) / 1000000)
    × ((g d' : ℕ) → due g ≡ some d' → d ≤ d')

next_none :
    (ids : Map ℕ ℕ) (h : List TimerNode) (fd : ℕ)
    → drop_stale ids h ≡ []
    → deadline_in ids h fd ≡ none
next_none ids h fd e =
    sym (deadline_in-drop_stale ids h fd) ∙ rw e (unfold deadline_in find_expire in ground arith)

next_some :
    (ids : Map ℕ ℕ) (h : List TimerNode) (bound : ℕ) (n : TimerNode) (h' : List TimerNode)
    → IsLoop bound h ids
    → drop_stale ids h ≡ n ∷ h'
    → is_current ids n ≡ true
    → (deadline_in ids h n.fd ≡ some n.expire)
      × ((g d' : ℕ) → deadline_in ids h g ≡ some d' → n.expire ≤ d')
next_some ids h bound n h' v e current =
    let w = drop_stale-IsLoop bound h ids v in
    let sorted : IsSorted (n ∷ h') = subst IsSorted e w.sorted in
    (
      ground (
        arith,
        deadline_in-drop_stale ids h n.fd,
        ap (λ x. deadline_in ids x n.fd) e,
        deadline_in_current ids n h' n.fd current v.keys,
      ),
      λ g d' f.
          deadline_in_late ids n.expire (n ∷ h') g d' (omega arith, sorted.0)
            (ap (λ x. deadline_in ids x g) (sym e) ∙ deadline_in-drop_stale ids h g ∙ f),
    )

-- getNextTimeout keeps every deadline, and answers the time until the first of them: it blocks
-- (-1) only if no descriptor is armed, and never sleeps past a deadline. The heap and the ids are
-- in order.
pub get_next_timeout_lem :
    (s : TimerManager) (now : ℕ)
    → IsValid s
    → ((fd : ℕ) → deadline (get_next_timeout s now).0 fd ≡ deadline s fd)
      × IsNext now (deadline s) (get_next_timeout s now).1
unfolding get_next_timeout deadline
get_next_timeout_lem s now v = (
  λ fd. deadline_in-drop_stale s.id_map s.heap fd,
  elim (drop_stale_top s.id_map s.heap) [
    | inl e ↦ rw (e, until_expiry) (λ fd. next_none s.id_map s.heap fd e)
    | inr (n, h, e, current) ↦
        let (found, first) = next_some s.id_map s.heap s.id_gen n h (to_loop s v) e current in
        rw (e, until_expiry) (n.fd, n.expire, found, refl, first)
  ],
)
