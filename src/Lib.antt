-- ===== src/Lib.antt =====
-- The dispatch server of the train mod: models of its C++ components and what holds of them.
--
-- The game's mod sends telemetry of its trains to the server (server/src), which decides which
-- train may enter a stretch of track shared by several lines. For each direction of such a
-- corridor the dispatch manager keeps the waiting candidates, drops those whose way through an
-- intersection is taken, lets the policy choose one, and reserves its movements until the mod
-- confirms that the train has passed. The dispatch service holds all of it under one lock: it
-- takes the telemetry, plans the arrivals, makes candidates of the trains before a corridor, lets
-- the manager decide each direction, and shows a command only once the data layer has stored it.
-- The web server that carries the messages closes idle connections by a heap of timers, and writes
-- its replies in parts.
--
-- Reservation (server/src/IntersectionReservationManager.cpp): `ReservationManager` is the class,
--   `register_movement`, `can_reserve`, `try_reserve_atomically`, `mark_cleared`, `cancel_train` and
--   `active_reservations` are its methods. `canReserveLocked` is `collect` (its first loop) and
--   `admit` (the others); the text that a method writes to `reason` stands in `fail`. The children
--   are about looking entries up (Lookup), what a reservation writes (Booking) and what ends one
--   (Clearing), the checks of a request (Requests, Blocking, Admission), the methods as wholes
--   (Atomic), and histories of calls (Exclusion, History).
-- Policy (server/src/DynamicPriorityPolicy.cpp, with the types of server/include/DispatchPolicy.h
--   and server/include/DynamicPriorityPolicy.h in Dispatch): `decide` is the method, its constraints
--   are in Constraints, the scores of the candidates in Scoring, the two passes that choose one in
--   Decision. The children Selection, Release, Choice and Fairness are about what it chooses.
-- Manager (server/src/DispatchManager.cpp): `DispatchManager` is the class; the tables of
--   corridors and lines are in Manager itself, `plan_next` in Manager.Planning, the answers to
--   commands and the restoring of commands in Manager.Answers. It holds a `ReservationManager` and
--   calls `decide`. A method that reserves returns an option, since the reservation's `at` may
--   throw. The other children are about the two directions of a corridor (Interlock), the marks of
--   waiting commands (Matching), the tables together (Safety, Steps, Commands, Histories), and plans
--   (Plans, Releases, Entries, Cancels).
-- Timer (server/src/TimerManager.cpp): `add`, `update`, `remove`, `handle_expired`,
--   `get_next_timeout`. The heap is a list in the order in which it gives its nodes up; the clock is
--   an argument. Each of its loops takes a node off the heap in every round, and is recursion on it.
-- Monitor (server/src/TrainMonitor.cpp): `upsert_batch`, `set_phase`, `remove_stale` and the
--   queries are the methods.
-- Topology (server/src/LineTopologyRegistry.cpp, with the types of
--   server/include/LineRouteAnalyzer.h in Analysis): `replace_routes` and `restore_routes` take the
--   analysis of routes as a parameter, `registry` the text of its tolerances. Its children are about
--   the snapshots accepted (Routes) and the index from a line to what it passes (Index).
-- Approach (the helpers that server/src/DispatchCandidateBuilder.cpp and
--   server/src/AffectedLinePlanner.cpp both have): `resource_id` names a direction, and
--   `distance_to_entry` is `distanceToEntry`, whose loop runs on fuel; Walk has how much is enough.
--   The planner and the builder take any such distance as a parameter, since nothing of them rests
--   on its value. The laws of rounded arithmetic that the loop rests on are in Rounding.
-- Planner (server/src/AffectedLinePlanner.cpp): `plan` is the method (Planning), `predict` its
--   first loop and `finish` its second, of which `schedule` ranks the trains of one direction
--   (Ranks); the loop over ranks runs on the number of trains, and each round ranks one. Times is
--   about the saturating sum, Ranking and Spacing about the loop, Schedule and Arrivals about what
--   `plan` lists.
-- Candidates (server/src/DispatchCandidateBuilder.cpp): `build` is the method, `visit` one round
--   of its loop, the table of waits its state. Nearest is about the search for an entrance, Phases
--   about what becomes of each train, Offers about the candidates, Active and Waits about the times
--   since which they wait.
-- Service (server/src/RailwayDispatchService.cpp): `RailwayDispatchService` is the class with the
--   parts above as its fields; `configure` and the queries are in Service itself, `update_trains`
--   and `refreshCandidatesAndPlanLocked` (`refresh`) in Service.Cycle, `replace_routes` in
--   Service.Uploading, `acknowledge` in Service.Answering, `mark_cleared` in Service.Leaving,
--   `cleanupStaleLocked` and `run_maintenance` in Service.Cleanup, `rebuildDispatchManagerLocked` in
--   Service.Rebuilding, `enable_persistence` in Service.Recovery, the comparison of routes in
--   Service.Same. `DispatchPersistence` is the data layer, as what it answers to each call; a pair
--   of a Boolean and an error text is an `Answer`. A method that may throw returns an option. The
--   other children are about the commands over the manager (Backing, Exposure, Revoking, Safety),
--   the methods (Storing, Acks, Clears, Uploads, Restoring, Restarts, Idle), and histories of calls
--   (Histories).
-- Response (server/src/Response.cpp and `TcpConn::write` of server/src/TcpConn.cpp):
--   `HttpResponse` is the interface with its laws in `IsStream`; Memory, File and Chunked are the
--   three kinds of reply; Writing is the loop over what the kernel answers to each `writev`, one
--   answer for each round, so that a list of answers bounds it; Sending is about what it sends of a
--   file and of chunks.
-- Threads (server/src/ThreadPool.cpp): `enqueue`, `work` (a worker's turn under the lock) and
--   `shutdown`; Threads.Drain has the steps of a pool and what holds after any of them.
-- Connection (server/src/TcpConn.cpp): the state and the descriptor of a connection;
--   Connection.Life is about sequences of calls, each of which ends before the next begins.
-- Base: shared names. Base.Tests has the Boolean tests, Base.Lists list helpers, Base.Maps
--   `std::unordered_map` as an association list that holds a key once (`IsMap`), and Base.Floats the
--   operations on doubles that the code uses, as a record. The models take any such record: nothing
--   is assumed of rounding, and a theorem that needs an order of doubles or laws of rounding says
--   so. The tests use thousandths.
--
-- Numbers are natural numbers. The count of consecutive releases, the revision of the topology and
-- the ids of timers and commands wrap at 2 ^ 64 (`u64`); the counts of a batch do not, since a
-- batch is shorter. A difference of times is written with the test that precedes it in the code.
-- Methods that hold the mutex throughout are single steps. registerIntersectionMovement and
-- markIntersectionCleared of the dispatch manager do not take its mutex; they and the manager's other
-- methods are single steps under the service's lock. Exceptions of `at` are `none`.
--
-- Not modelled: the SQL and the Redis views of the data layer (the service takes its answers as
-- they come), `persistenceStats`, which passes its counters on, the singleton, the analysis of
-- routes, the reading of requests, the table of vehicles, Redis and MySQL access, logging and
-- configuration, and the game's mod (cities-skylines-mod), which is another program.
mod Base
pub mod Reservation
pub mod Timer
pub mod Monitor
pub mod Dispatch
pub mod Policy
pub mod Manager
pub mod Analysis
pub mod Topology
pub mod Approach
pub mod Planner
pub mod Candidates
pub mod Service
pub mod Response
pub mod Threads
pub mod Connection
