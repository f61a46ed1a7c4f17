-- ===== src/Threads/Drain.antt =====
-- Histories of the pool of server/src/ThreadPool.cpp: the tasks that were accepted and those that
-- were begun, each in order.
use mathlib.Core.List.{append-nil, append_assoc}
use multi_agent_route_planni.Base.{
  ℕ, ◌<◌, ◌≡◌, refl, sym, ap, ◌∙◌, subst, Bool, true, false, List, [], ◌∷◌, ◌++◌, arith, nat_eq,
  Bool-cases, ◌⊎◌, inl, inr, ok, ok-eq,
}
use multi_agent_route_planni.Threads.{
  idle, exited, running, ThreadPool, thread_pool, enqueue, set_worker, turn, work, shutdown,
  AllExited,
}

-- The task that a worker's turn begins, if any.
abbrev pub begun : List ℕ → List ℕ
begun [] = []
begun (task ∷ tasks) = task ∷ []

-- A pool with the tasks that `enqueue` has accepted and that the workers have begun.
pub record History : Type 0 where
  pub pool : ThreadPool
  pub accepted : List ℕ
  pub started : List ℕ

pub data Step (h : History) : History → Type 0 where
  enqueues :
      (task : ℕ) {p : ThreadPool}
      → enqueue h.pool task ≡ ok p
      → Step h (record { pool = p; accepted = h.accepted ++ task ∷ []; started = h.started })
  works :
      (i : ℕ)
      → h.pool.workers i ≡ idle
      → Step h (record {
        pool = work i h.pool;
        accepted = h.accepted;
        started = h.started ++ begun h.pool.tasks;
      })
  finishes :
      (i task : ℕ)
      → h.pool.workers i ≡ running task
      → Step h
          (record { pool = set_worker i idle h.pool; accepted = h.accepted; started = h.started })
  shuts_down :
      Step h (record { pool = shutdown h.pool; accepted = h.accepted; started = h.started })

pub data Reach (n : ℕ) : History → Type 0 where
  begins : Reach n (record { pool = thread_pool n; accepted = []; started = [] })
  next : {h k : History} → Reach n h → Step h k → Reach n k

-- No task is lost, none is begun twice or out of order, and a worker returns only when the pool has
-- stopped and its queue is empty.
pub record Keeps (n : ℕ) (h : History) : Type 0 where
  pub in_order : h.started ++ h.pool.tasks ≡ h.accepted
  pub drained : (i : ℕ) → h.pool.workers i ≡ exited → (h.pool.stop ≡ true) × (h.pool.tasks ≡ [])
  pub count : h.pool.thread_count ≡ n

Keeps-enqueue :
    (n : ℕ) (h : History) (task : ℕ)
    → h.pool.stop ≡ false
    → Keeps n h
    → Keeps n (record {
      pool = record h.pool { tasks = h.pool.tasks ++ task ∷ [] };
      accepted = h.accepted ++ task ∷ [];
      started = h.started;
    })
Keeps-enqueue n h task open_ v = record {
  in_order =
      sym (append_assoc h.started h.pool.tasks (task ∷ []))
      ∙ ap (λ (xs : List ℕ). xs ++ task ∷ []) v.in_order;
  drained = λ i e. absurd (ground (arith, v.drained i e, open_));
  count = v.count;
}

Keeps-turn :
    (n i : ℕ) (p : ThreadPool) (accepted started : List ℕ) (tasks : List ℕ) (stop : Bool)
    → p.tasks ≡ tasks
    → p.stop ≡ stop
    → Keeps n (record { pool = p; accepted = accepted; started = started })
    → Keeps n (record {
      pool = turn i p tasks stop;
      accepted = accepted;
      started = started ++ begun tasks;
    })
Keeps-turn n i p accepted started [] false e f v = record {
  in_order = ap (λ (xs : List ℕ). xs ++ p.tasks) (append-nil started) ∙ v.in_order;
  drained = v.drained;
  count = v.count;
}
Keeps-turn n i p accepted started [] true e f v = record {
  in_order = ap (λ (xs : List ℕ). xs ++ p.tasks) (append-nil started) ∙ v.in_order;
  drained = λ j g. (f, e);
  count = v.count;
}
Keeps-turn n i p accepted started (task ∷ tasks) stop e f v = record {
  in_order =
      append_assoc started (task ∷ []) tasks
      ∙ ap (λ (xs : List ℕ). started ++ xs) (sym e)
      ∙ v.in_order;
  drained = λ j g. absurd (ground (arith, v.drained j, e, nat_eq.beq_iff i j));
  count = v.count;
}

shutdown_cases : (p : ThreadPool) → (shutdown p ≡ p) ⊎ (shutdown p ≡ record p { stop = true })
unfolding shutdown
shutdown_cases p = elim (Bool-cases p.stop) [
  | inl stopped ↦ inl (ground (arith, stopped))
  | inr open_ ↦ inr (ground (arith, open_))
]

abbrev with_pool : History → ThreadPool → History
with_pool h p = record { pool = p; accepted = h.accepted; started = h.started }

Step-Keeps : (n : ℕ) {h k : History} → Step h k → Keeps n h → Keeps n k
unfolding enqueue work
Step-Keeps n {h} (enqueues task {p} e) v = elim (Bool-cases h.pool.stop) [
  | inl stopped ↦ absurd (ground (arith, stopped))
  | inr open_ ↦
      let same : record h.pool { tasks = h.pool.tasks ++ task ∷ [] } ≡ p =
        ok-eq (sym (rw (open_, enqueue) refl) ∙ e) in
      subst
        (λ (x : ThreadPool).
          Keeps n (record { pool = x; accepted = h.accepted ++ task ∷ []; started = h.started }))
        same (Keeps-enqueue n h task open_ v)
]
Step-Keeps n {h} (works i e) v =
    Keeps-turn n i h.pool h.accepted h.started h.pool.tasks h.pool.stop refl refl v
Step-Keeps n {h} (finishes i task e) v = record {
  in_order = v.in_order;
  drained = λ j g. ground (arith, v.drained j, nat_eq.beq_iff i j);
  count = v.count;
}
Step-Keeps n {h} shuts_down v = elim (shutdown_cases h.pool) [
  | inl e ↦ subst (λ (x : ThreadPool). Keeps n (with_pool h x)) (sym e) v
  | inr e ↦
      subst (λ (x : ThreadPool). Keeps n (with_pool h x)) (sym e)
        (record {
          in_order = v.in_order;
          drained = λ j g. (refl, (v.drained j g).1);
          count = v.count;
        })
]

Reach-Keeps : (n : ℕ) {h : History} → Reach n h → Keeps n h
unfolding thread_pool
Reach-Keeps n begins = record {
  in_order = refl;
  drained = λ i e. absurd (ground arith);
  count = refl;
}
Reach-Keeps n (next r st) = Step-Keeps n st (Reach-Keeps n r)

-- Whatever the order of the calls and of the workers' turns: the tasks begun are, in order, a
-- first part of the tasks accepted, the queue is the rest; and once every worker of a pool that
-- has one has returned, all that was accepted has been begun.
pub Reach-drains :
    (n : ℕ) {h : History}
    → Reach n h
    → (h.started ++ h.pool.tasks ≡ h.accepted) × (0 < n → AllExited h.pool → h.started ≡ h.accepted)
Reach-drains n {h} r =
    let v = Reach-Keeps n r in
    (
      v.in_order,
      λ some_worker all_exited.
          let (_, empty) = v.drained 0 (all_exited 0 (rw v.count some_worker)) in
          sym (append-nil h.started)
          ∙ ap (λ (xs : List ℕ). h.started ++ xs) (sym empty)
          ∙ v.in_order,
    )
