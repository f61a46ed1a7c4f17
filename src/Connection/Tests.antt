-- ===== src/Connection/Tests.antt =====
-- A connection that is closed, set idle again and closed once more, for server/src/TcpConn.cpp.
use multi_agent_route_planni.Base.{ℕ, ◌≡◌, refl, none, List, [], ◌∷◌}
use multi_agent_route_planni.Connection.{
  TcpConn, idle, processing, closed, tcp_conn, init_conn, close_conn, try_set_state,
}
use multi_agent_route_planni.Connection.Life.{
  Call, closes, sets, closed_by, ClosesOnce, closed_by-once,
}

abbrev calls : List Call
calls = sets idle processing ∷ closes ∷ sets closed idle ∷ closes ∷ []

opened : TcpConn ℕ
opened = init_conn (tcp_conn none 0) 5 1

closed_by-once_example : ClosesOnce opened.fd (closed_by calls opened)
closed_by-once_example = closed_by-once calls opened

closed_again : closed_by calls opened ≡ 5 ∷ []
unfolding closed_by opened init_conn tcp_conn close_conn try_set_state
closed_again = refl
