-- ===== src/Timer/Tests.antt =====
-- Two connections on the timer of server/src/TimerManager.cpp, one of them renewed.
use multi_agent_route_planni.Base.{
  ℕ, ◌≡◌, refl, some, [], ◌∷◌, arith, nat_eq, lookup, insert, erase, contains,
}
use multi_agent_route_planni.Timer.{
  TimerManager, init, ms, push, add, update, remove, expire_loop, handle_expired, drop_stale,
  get_next_timeout,
}
use multi_agent_route_planni.Timer.Deadlines.{find_expire, deadline, IsValid, add-IsValid}
use multi_agent_route_planni.Timer.Expiry.{is_due, ahead, handle_expired_lem}
use multi_agent_route_planni.Timer.NextTimeout.{IsNext, get_next_timeout_lem}

program : Unit {0}
unfolding init push add update remove expire_loop handle_expired drop_stale get_next_timeout lookup
    insert erase find_expire deadline contains
program = tt

init-IsValid : IsValid init
unfolding program
init-IsValid = record {
  sorted = tt;
  keys = tt;
  handed_out = tt;
  armed = λ fd id e. absurd (ground arith);
}

one : TimerManager
unfolding program
one = add init 7 30 0

two : TimerManager
unfolding program one
two = add one 8 10 0

renewed : TimerManager
unfolding program two
renewed = update two 8 40 (ms 5)

one-IsValid : IsValid one
unfolding one
one-IsValid = add-IsValid init 7 30 0 init-IsValid (unfold init in omega arith)

two-IsValid : IsValid two
unfolding two
two-IsValid = add-IsValid one 8 10 0 one-IsValid (unfold one program in omega arith)

renewed-IsValid : IsValid renewed
unfolding renewed update
renewed-IsValid = add-IsValid two 8 40 (ms 5) two-IsValid (unfold two program in omega arith)

fires : (handle_expired renewed (ms 30)).1 ≡ 7 ∷ []
unfolding program renewed
fires = refl

waits : (get_next_timeout (handle_expired renewed (ms 30)).0 (ms 30)).1 ≡ some 15
unfolding program renewed
waits = refl

handle_expired_lem_example :
    (contains (handle_expired renewed (ms 30)).1 7 ≡ is_due (ms 30) (deadline renewed 7))
    × (deadline (handle_expired renewed (ms 30)).0 7 ≡ ahead (ms 30) (deadline renewed 7))
handle_expired_lem_example = handle_expired_lem renewed (ms 30) renewed-IsValid 7

get_next_timeout_lem_example :
    ((fd : ℕ) → deadline (get_next_timeout renewed (ms 30)).0 fd ≡ deadline renewed fd)
    × IsNext (ms 30) (deadline renewed) (get_next_timeout renewed (ms 30)).1
get_next_timeout_lem_example = get_next_timeout_lem renewed (ms 30) renewed-IsValid
