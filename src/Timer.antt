-- ===== src/Timer.antt =====
-- server/src/TimerManager.cpp and its header: idle timeouts of connections, with lazy deletion. Times
-- are the nanoseconds of the steady clock, read by the caller and passed in. The heap is the list
-- of its nodes in the order in which `top` would give them; nodes that expire together come out in
-- the order in which they were pushed, a choice that the container leaves open and no theorem uses.
-- The callback closes the connection and does not touch the timer (WebServer.cpp, closeConncl);
-- the descriptors that it is called on are the result.
pub mod Deadlines
pub mod Expiry
pub mod NextTimeout
mod Tests
use multi_agent_route_planni.Base.{
  ℕ, ◌+◌, ◌-◌, ◌*◌, ◌/◌, Bool, true, false, not, Option, none, some, List, [], ◌∷◌, if◌then◌else◌,
  ◌==◌, nat_eq, ltb, u64, Map, lookup, insert, erase,
}

pub record TimerNode : Type 0 where
  pub fd : ℕ
  pub id : ℕ
  pub expire : ℕ
  pub deleted : Bool

pub record TimerManager : Type 0 where
  pub heap : List TimerNode
  pub id_map : Map ℕ ℕ
  pub id_gen : ℕ

unfoldable pub init : TimerManager
init = record { heap = []; id_map = []; id_gen = 0 }

-- Nanoseconds in a millisecond.
abbrev pub ms : ℕ → ℕ
ms n = n * 1000000

-- `heap_.push`.
unfoldable pub push : TimerNode → List TimerNode → List TimerNode
push n [] = n ∷ []
push n (m ∷ h) = let rest = push n h in if ltb n.expire m.expire then n ∷ m ∷ h else m ∷ rest

unfoldable pub add : TimerManager → ℕ → ℕ → ℕ → TimerManager
add s fd timeout_ms now = record {
  heap = push (record { fd = fd; id = id; expire = now + ms timeout_ms; deleted = false }) s.heap;
  id_map = insert fd id s.id_map;
  id_gen = id;
}
  where
    id : ℕ
    id = u64 (s.id_gen + 1)

unfoldable pub update : TimerManager → ℕ → ℕ → ℕ → TimerManager
unfolding add
update s fd timeout_ms now = add s fd timeout_ms now

unfoldable pub remove : TimerManager → ℕ → TimerManager
remove s fd = record s { id_map = erase fd s.id_map }

-- A node that was removed, or overwritten by a later one for its descriptor.
abbrev pub is_current : Map ℕ ℕ → TimerNode → Bool
is_current ids n = elim (lookup n.fd ids) [ none ↦ false | some id ↦ id == n.id ]

-- The loop of `handleExpired`, on the heap: what is left of it and of the ids, and the calls made.
unfoldable pub expire_loop : ℕ → List TimerNode → Map ℕ ℕ → List TimerNode × Map ℕ ℕ × List ℕ
expire_loop now [] ids = ([], ids, [])
expire_loop now (n ∷ h) ids =
    let skipped = expire_loop now h ids in
    let (h', ids', fired) = expire_loop now h (erase n.fd ids) in
    if not (is_current ids n)
    then skipped
    else if ltb now n.expire
    then (n ∷ h, ids, [])
    else (h', ids', n.fd ∷ fired)

unfoldable pub handle_expired : TimerManager → ℕ → TimerManager × List ℕ
handle_expired s now =
    let (h, ids, fired) = expire_loop now s.heap s.id_map in
    (record s { heap = h; id_map = ids }, fired)

-- The loop of `getNextTimeout` drops nodes until a current one is on top.
unfoldable pub drop_stale : Map ℕ ℕ → List TimerNode → List TimerNode
drop_stale ids [] = []
drop_stale ids (n ∷ h) = let rest = drop_stale ids h in if is_current ids n then n ∷ h else rest

-- `duration_cast` to milliseconds drops the rest; a time that has passed gives 0.
abbrev pub until_expiry : ℕ → List TimerNode → Option ℕ
until_expiry now [] = none
until_expiry now (n ∷ h) = some ((n.expire - now) / 1000000)

-- The answer −1, to block, is `none`.
unfoldable pub get_next_timeout : TimerManager → ℕ → TimerManager × Option ℕ
get_next_timeout s now =
    let h = drop_stale s.id_map s.heap in (record s { heap = h }, until_expiry now h)
