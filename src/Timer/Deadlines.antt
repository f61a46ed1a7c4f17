-- ===== src/Timer/Deadlines.antt =====
-- What server/src/TimerManager.cpp promises: a table of deadlines, one for each descriptor that is
-- armed. The heap with its stale nodes implements it.
use multi_agent_route_planni.Base.{
  ℕ, ◌+◌, ◌^◌, ◌≤◌, ◌<◌, ◌≡◌, false, ◌&&◌, Option, none, some, List, [], ◌∷◌, arith, if◌then◌else◌,
  ◌==◌, nat_eq, ltb, u64, inl, inr, Bool-cases, Option-cases, All, All-map, Map, lookup, IsMap,
  lookup-insert, lookup-erase, insert-IsMap, erase-IsMap,
}
use multi_agent_route_planni.Timer.{TimerNode, TimerManager, ms, push, add, remove}

unfoldable pub find_expire : ℕ → ℕ → List TimerNode → Option ℕ
find_expire fd id [] = none
find_expire fd id (n ∷ h) = if n.fd == fd && n.id == id then some n.expire else find_expire fd id h

unfoldable pub deadline_in : Map ℕ ℕ → List TimerNode → ℕ → Option ℕ
deadline_in ids h fd = elim (lookup fd ids) [ none ↦ none | some id ↦ find_expire fd id h ]

-- When the descriptor times out, if it is armed.
unfoldable pub deadline : TimerManager → ℕ → Option ℕ
unfolding deadline_in
deadline s fd = deadline_in s.id_map s.heap fd

-- The heap's order.
abbrev pub IsSorted : List TimerNode → Type 0
IsSorted [] = Unit {0}
IsSorted (n ∷ h) = All (λ m. n.expire ≤ m.expire) h × IsSorted h

-- Ids are handed out in order, and a descriptor that has one has a node with it.
pub record IsValid (s : TimerManager) : Type 0 where
  pub sorted : IsSorted s.heap
  pub keys : IsMap s.id_map
  pub handed_out : All (λ n. n.id ≤ s.id_gen) s.heap
  pub armed :
      (fd id : ℕ) → lookup fd s.id_map ≡ some id → (d : ℕ) × (find_expire fd id s.heap ≡ some d)

-- `push`.
All-push :
    (P : TimerNode → Type 0) (n : TimerNode) (h : List TimerNode) → P n → All P h → All P (push n h)
unfolding push
All-push P n [] p a = (p, tt)
All-push P n (m ∷ h) p a = elim (Bool-cases (ltb n.expire m.expire)) [
  | inl early ↦ rw (early, push) (p, a)
  | inr late ↦ rw (late, push) (a.0, All-push P n h p a.1)
]

pub push-IsSorted : (n : TimerNode) (h : List TimerNode) → IsSorted h → IsSorted (push n h)
unfolding push
push-IsSorted n [] s = (tt, tt)
push-IsSorted n (m ∷ h) s = elim (Bool-cases (ltb n.expire m.expire)) [
  | inl early ↦ rw (early, push) ((ground arith, All-map h (λ k p. ground arith) s.0), s)
  | inr late ↦
      rw (late, push)
        (All-push (λ k. m.expire ≤ k.expire) n h (ground arith) s.0, push-IsSorted n h s.1)
]

find_expire-push :
    (n : TimerNode) (h : List TimerNode) (fd id : ℕ)
    → (n.fd == fd && n.id == id) ≡ false
    → find_expire fd id (push n h) ≡ find_expire fd id h
unfolding push find_expire
find_expire-push n [] fd id e = ground arith
find_expire-push n (m ∷ h) fd id e = ground (arith, find_expire-push n h fd id e)

find_expire-push_self :
    (n : TimerNode) (h : List TimerNode)
    → All (λ m. m.id < n.id) h
    → find_expire n.fd n.id (push n h) ≡ some n.expire
unfolding push find_expire
find_expire-push_self n [] a = ground arith
find_expire-push_self n (m ∷ h) a = ground (arith, find_expire-push_self n h a.1)

-- Adding a timer.
module _ (s : TimerManager) (fd timeout_ms now : ℕ) (v : IsValid s)
    (no_wrap : s.id_gen + 1 < 2 ^ 64) where
  abbrev new_node : TimerNode
  new_node = record {
    fd = fd;
    id = u64 (s.id_gen + 1);
    expire = now + ms timeout_ms;
    deleted = false;
  }

  older : All (λ m. m.id < new_node.id) s.heap
  older = All-map s.heap (λ m p. omega arith) v.handed_out

  -- add arms the descriptor for its time, whether it was armed before or not, and no other. The
  -- heap and the ids are in order, and the ids have not reached 2^64.
  pub deadline-add :
      (g : ℕ)
      → deadline (add s fd timeout_ms now) g
        ≡ (if fd == g then some (now + ms timeout_ms) else deadline s g)
  unfolding deadline add
  deadline-add g = elim (Option-cases (lookup g s.id_map)) [
    | inl e ↦ ground (
      arith,
      lookup-insert fd g new_node.id s.id_map,
      find_expire-push_self new_node s.heap older,
    )
    | inr (id, e) ↦ ground (
      arith,
      lookup-insert fd g new_node.id s.id_map,
      find_expire-push_self new_node s.heap older,
      find_expire-push new_node s.heap g id,
    )
  ]

  -- It keeps the heap in order, its ids fresh, and every armed descriptor in the heap.
  pub add-IsValid : IsValid (add s fd timeout_ms now)
  unfolding add
  add-IsValid = record {
    sorted = push-IsSorted new_node s.heap v.sorted;
    keys = insert-IsMap fd new_node.id s.id_map v.keys;
    handed_out =
        All-push (λ m. m.id ≤ new_node.id) new_node s.heap (omega arith)
          (All-map s.heap (λ m p. omega arith) v.handed_out);
    armed = λ g id e. elim (Bool-cases (fd == g)) [
      | inl here ↦ (
        new_node.expire,
        ground (
          arith,
          lookup-insert fd g new_node.id s.id_map,
          find_expire-push_self new_node s.heap older,
        ),
      )
      | inr there ↦
          let (d, f) = v.armed g id (ground (arith, lookup-insert fd g new_node.id s.id_map)) in
          (d, ground (arith, find_expire-push new_node s.heap g id))
    ];
  }

module _ (s : TimerManager) (fd : ℕ) (v : IsValid s) where
  -- remove disarms the descriptor and no other. The heap and the ids are in order.
  pub deadline-remove :
      (g : ℕ) → deadline (remove s fd) g ≡ (if fd == g then none else deadline s g)
  unfolding deadline remove
  deadline-remove g = ground (arith, lookup-erase fd g s.id_map v.keys)

  pub remove-IsValid : IsValid (remove s fd)
  unfolding remove
  remove-IsValid = record {
    sorted = v.sorted;
    keys = erase-IsMap fd s.id_map v.keys;
    handed_out = v.handed_out;
    armed = λ g id e. v.armed g id (ground (arith, lookup-erase fd g s.id_map v.keys));
  }
