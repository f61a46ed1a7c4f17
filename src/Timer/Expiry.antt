-- ===== src/Timer/Expiry.antt =====
-- `handleExpired` of server/src/TimerManager.cpp against the table of deadlines.
use multi_agent_route_planni.Base.{
  ℕ, ◌≤◌, ◌<◌, ◌≡◌, refl, Bool, true, false, not, Option, none, some, List, [], ◌∷◌, arith,
  if◌then◌else◌, ◌==◌, nat_eq, ltb, inl, inr, Bool-cases, Option-cases, All, contains, Map, lookup,
  erase, IsMap, lookup-erase, erase-IsMap,
}
use multi_agent_route_planni.Timer.{
  TimerNode, TimerManager, is_current, expire_loop, handle_expired, drop_stale, get_next_timeout,
}
use multi_agent_route_planni.Timer.Deadlines.{find_expire, deadline_in, deadline, IsSorted, IsValid}

abbrev pub is_due : ℕ → Option ℕ → Bool
is_due now none = false
is_due now (some d) = not (ltb now d)

-- A deadline that is still ahead.
abbrev pub ahead : ℕ → Option ℕ → Option ℕ
ahead now none = none
ahead now (some d) = if ltb now d then some d else none

-- A stale node plays no part.
pub deadline_in_stale :
    (ids : Map ℕ ℕ) (n : TimerNode) (h : List TimerNode) (g : ℕ)
    → is_current ids n ≡ false
    → deadline_in ids (n ∷ h) g ≡ deadline_in ids h g
unfolding deadline_in find_expire
deadline_in_stale ids n h g stale = ground arith

pub deadline_in_current :
    (ids : Map ℕ ℕ) (n : TimerNode) (h : List TimerNode) (g : ℕ)
    → is_current ids n ≡ true
    → IsMap ids
    → deadline_in ids (n ∷ h) g
      ≡ (if n.fd == g then some n.expire else deadline_in (erase n.fd ids) h g)
unfolding deadline_in find_expire
deadline_in_current ids n h g current keys = ground (arith, lookup-erase n.fd g ids keys)

deadline_in_erased :
    (ids : Map ℕ ℕ) (fd : ℕ) (h : List TimerNode) (g : ℕ)
    → IsMap ids
    → deadline_in (erase fd ids) h g ≡ (if fd == g then none else deadline_in ids h g)
unfolding deadline_in
deadline_in_erased ids fd h g keys = ground (arith, lookup-erase fd g ids keys)

-- The deadlines of a heap whose nodes are all later than a time.
find_expire_late :
    (fd id t : ℕ) (h : List TimerNode) (d : ℕ)
    → All (λ m. t ≤ m.expire) h
    → find_expire fd id h ≡ some d
    → t ≤ d
unfolding find_expire
find_expire_late fd id t [] d a e = ground arith
find_expire_late fd id t (n ∷ h) d a e = ground (arith, find_expire_late fd id t h d a.1)

pub deadline_in_late :
    (ids : Map ℕ ℕ) (t : ℕ) (h : List TimerNode) (g d : ℕ)
    → All (λ m. t ≤ m.expire) h
    → deadline_in ids h g ≡ some d
    → t ≤ d
unfolding deadline_in
deadline_in_late ids t h g d a e = elim (Option-cases (lookup g ids)) [
  | inl f ↦ absurd (ground arith)
  | inr (id, f) ↦ find_expire_late g id t h d a (ground arith)
]

abbrev Expires : ℕ → List TimerNode → Map ℕ ℕ → ℕ → Type 0
Expires now h ids g =
    let r = expire_loop now h ids in
    (deadline_in r.1 r.0 g ≡ ahead now (deadline_in ids h g))
    × (contains r.2 g ≡ is_due now (deadline_in ids h g))

expire_stops :
    (now : ℕ) (n : TimerNode) (h : List TimerNode) (ids : Map ℕ ℕ) (g : ℕ)
    → IsSorted (n ∷ h)
    → now < n.expire
    → (ahead now (deadline_in ids (n ∷ h) g) ≡ deadline_in ids (n ∷ h) g)
      × (is_due now (deadline_in ids (n ∷ h) g) ≡ false)
expire_stops now n h ids g sorted early = elim (Option-cases (deadline_in ids (n ∷ h) g)) [
  | inl e ↦ (rw e refl, rw e refl)
  | inr (d, e) ↦
      let late : n.expire ≤ d =
        deadline_in_late ids n.expire (n ∷ h) g d (omega arith, sorted.0) e in
      (rw e (ground arith), rw e (ground arith))
]

expire_loop-Expires :
    (now : ℕ) (h : List TimerNode) (ids : Map ℕ ℕ) (g : ℕ)
    → IsSorted h
    → IsMap ids
    → Expires now h ids g
unfolding expire_loop contains
expire_loop-Expires now [] ids g sorted keys =
    (unfold deadline_in find_expire in ground arith, unfold deadline_in find_expire in ground arith)
expire_loop-Expires now (n ∷ h) ids g sorted keys = elim (Bool-cases (is_current ids n)) [
  | inr stale ↦
      let (kept, fired) = expire_loop-Expires now h ids g sorted.1 keys in
      let same = deadline_in_stale ids n h g stale in
      (ground (arith, kept, same), ground (arith, fired, same))
  | inl current ↦ elim (Bool-cases (ltb now n.expire)) [
    | inl early ↦
        let (kept, quiet) = expire_stops now n h ids g sorted (ground arith) in
        (ground (arith, kept), ground (arith, quiet))
    | inr due ↦
        let (kept, fired) =
          expire_loop-Expires now h (erase n.fd ids) g sorted.1 (erase-IsMap n.fd ids keys) in
        let top = deadline_in_current ids n h g current keys in
        let gone = deadline_in_erased ids n.fd h g keys in
        (ground (arith, kept, top, gone), ground (arith, fired, top, gone))
  ]
]

-- The invariant of the loop, over the heap that is left.
pub record IsLoop (bound : ℕ) (h : List TimerNode) (ids : Map ℕ ℕ) : Type 0 where
  pub sorted : IsSorted h
  pub keys : IsMap ids
  pub handed_out : All (λ n. n.id ≤ bound) h
  pub armed : (fd id : ℕ) → lookup fd ids ≡ some id → (d : ℕ) × (find_expire fd id h ≡ some d)

skip-IsLoop :
    (bound : ℕ) (n : TimerNode) (h : List TimerNode) (ids : Map ℕ ℕ)
    → is_current ids n ≡ false
    → IsLoop bound (n ∷ h) ids
    → IsLoop bound h ids
unfolding find_expire
skip-IsLoop bound n h ids stale v = record {
  sorted = v.sorted.1;
  keys = v.keys;
  handed_out = v.handed_out.1;
  armed = λ fd id e. let (d, f) = v.armed fd id e in (d, ground (arith, f));
}

fire-IsLoop :
    (bound : ℕ) (n : TimerNode) (h : List TimerNode) (ids : Map ℕ ℕ)
    → IsLoop bound (n ∷ h) ids
    → IsLoop bound h (erase n.fd ids)
unfolding find_expire
fire-IsLoop bound n h ids v = record {
  sorted = v.sorted.1;
  keys = erase-IsMap n.fd ids v.keys;
  handed_out = v.handed_out.1;
  armed = λ fd id e.
      let (d, f) = v.armed fd id (ground (arith, lookup-erase n.fd fd ids v.keys)) in
      (d, ground (arith, f, lookup-erase n.fd fd ids v.keys));
}

expire_loop-IsLoop :
    (now bound : ℕ) (h : List TimerNode) (ids : Map ℕ ℕ)
    → IsLoop bound h ids
    → IsLoop bound (expire_loop now h ids).0 (expire_loop now h ids).1
unfolding expire_loop
expire_loop-IsLoop now bound [] ids v = v
expire_loop-IsLoop now bound (n ∷ h) ids v = elim (Bool-cases (is_current ids n)) [
  | inr stale ↦
      rw (stale, expire_loop)
        (expire_loop-IsLoop now bound h ids (skip-IsLoop bound n h ids stale v))
  | inl current ↦ elim (Bool-cases (ltb now n.expire)) [
    | inl early ↦ rw (current, early, expire_loop) v
    | inr due ↦
        rw (current, due, expire_loop)
          (expire_loop-IsLoop now bound h (erase n.fd ids) (fire-IsLoop bound n h ids v))
  ]
]

pub drop_stale-IsLoop :
    (bound : ℕ) (h : List TimerNode) (ids : Map ℕ ℕ)
    → IsLoop bound h ids
    → IsLoop bound (drop_stale ids h) ids
unfolding drop_stale
drop_stale-IsLoop bound [] ids v = v
drop_stale-IsLoop bound (n ∷ h) ids v = elim (Bool-cases (is_current ids n)) [
  | inl current ↦ rw (current, drop_stale) v
  | inr stale ↦
      rw (stale, drop_stale) (drop_stale-IsLoop bound h ids (skip-IsLoop bound n h ids stale v))
]

pub to_loop : (s : TimerManager) → IsValid s → IsLoop s.id_gen s.heap s.id_map
to_loop s v = record {
  sorted = v.sorted;
  keys = v.keys;
  handed_out = v.handed_out;
  armed = v.armed;
}

module _ (s : TimerManager) (now : ℕ) (v : IsValid s) where
  pub handle_expired-IsValid : IsValid (handle_expired s now).0
  unfolding handle_expired
  handle_expired-IsValid =
      let w = expire_loop-IsLoop now s.id_gen s.heap s.id_map (to_loop s v) in
      record { sorted = w.sorted; keys = w.keys; handed_out = w.handed_out; armed = w.armed }

  pub get_next_timeout-IsValid : IsValid (get_next_timeout s now).0
  unfolding get_next_timeout
  get_next_timeout-IsValid =
      let w = drop_stale-IsLoop s.id_gen s.heap s.id_map (to_loop s v) in
      record { sorted = w.sorted; keys = w.keys; handed_out = w.handed_out; armed = w.armed }

  -- handleExpired calls back exactly the descriptors whose deadline has come, disarms those, and
  -- keeps every deadline that is still ahead. The heap and the ids are in order.
  pub handle_expired_lem :
      (fd : ℕ)
      → (contains (handle_expired s now).1 fd ≡ is_due now (deadline s fd))
        × (deadline (handle_expired s now).0 fd ≡ ahead now (deadline s fd))
  unfolding handle_expired deadline
  handle_expired_lem fd =
      let (kept, fired) = expire_loop-Expires now s.heap s.id_map fd v.sorted v.keys in
      (fired, kept)
