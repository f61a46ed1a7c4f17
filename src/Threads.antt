-- ===== src/Threads.antt =====
-- server/src/ThreadPool.cpp and its header: the queue of tasks, its workers and its shutdown. A task is
-- a number. A worker's turn under the lock is one step, as is a call of `enqueue` or `shutdown`.
pub mod Drain
mod Tests
use multi_agent_route_planni.Base.{
  ℕ, ◌<◌, String, ◌≡◌, Bool, true, false, ◌&&◌, List, [], ◌∷◌, ◌++◌, if◌then◌else◌, ◌==◌, nat_eq,
  Result, ok, fail,
}

pub data Worker : Type 0 where
  idle exited : Worker
  running : ℕ → Worker

pub record ThreadPool : Type 0 where
  pub thread_count : ℕ
  pub workers : ℕ → Worker
  pub tasks : List ℕ
  pub stop : Bool

unfoldable pub thread_pool : ℕ → ThreadPool
thread_pool thread_count = record {
  thread_count = thread_count;
  workers = λ i. idle;
  tasks = [];
  stop = false;
}

-- `enqueue`, which throws once the pool has stopped.
unfoldable pub enqueue : ThreadPool → ℕ → Result ThreadPool
enqueue p task =
    if p.stop
    then fail "enqueue on stopped ThreadPool"
    else ok (record p { tasks = p.tasks ++ task ∷ [] })

abbrev pub set_worker : ℕ → Worker → ThreadPool → ThreadPool
set_worker i w p = record p { workers = λ j. if i == j then w else p.workers j }

-- An idle worker's turn: it waits, it returns, or it takes the first task.
abbrev pub turn : ℕ → ThreadPool → List ℕ → Bool → ThreadPool
turn i p [] false = p
turn i p [] true = set_worker i exited p
turn i p (task ∷ tasks) stop = record (set_worker i (running task) p) { tasks = tasks }

unfoldable pub work : ℕ → ThreadPool → ThreadPool
work i p = turn i p p.tasks p.stop

-- `shutdown` up to the joins, which wait for every worker to return.
unfoldable pub shutdown : ThreadPool → ThreadPool
shutdown p = if p.stop then p else record p { stop = true }

-- What `join` on every worker waits for.
abbrev pub AllExited : ThreadPool → Type 0
AllExited p = (i : ℕ) → i < p.thread_count → p.workers i ≡ exited
