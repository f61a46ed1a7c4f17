-- ===== src/Threads/Tests.antt =====
-- One worker, a task and a shutdown, for server/src/ThreadPool.cpp.
use multi_agent_route_planni.Base.{◌<◌, ◌≡◌, refl, [], ◌∷◌, ◌++◌, nat_eq}
use multi_agent_route_planni.Threads.{
  ThreadPool, idle, thread_pool, enqueue, set_worker, work, shutdown, AllExited,
}
use multi_agent_route_planni.Threads.Drain.{
  History, Reach, begins, next, enqueues, works, finishes, shuts_down, Reach-drains,
}

with_task : ThreadPool
with_task = record (thread_pool 1) { tasks = 7 ∷ [] }

ended : History
ended = record {
  pool = work 0 (set_worker 0 idle (shutdown (work 0 with_task)));
  accepted = 7 ∷ [];
  started = 7 ∷ [];
}

drained : Reach 1 ended
unfolding thread_pool enqueue work shutdown with_task ended
drained =
    next
      (next (next (next (next begins (enqueues 7 {p = with_task} refl)) (works 0 refl)) shuts_down)
        (finishes 0 7 refl))
      (works 0 refl)

Reach-drains_example :
    (ended.started ++ ended.pool.tasks ≡ ended.accepted)
    × (0 < 1 → AllExited ended.pool → ended.started ≡ ended.accepted)
Reach-drains_example = Reach-drains 1 drained
