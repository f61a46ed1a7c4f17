-- ===== src/Connection.antt =====
-- The life of a connection in server/src/TcpConn.cpp, without its buffers: a method returns the
-- connection as it leaves it. `fd` is none where the code has −1; the reply is of any kind.
pub mod Life
mod Tests
use multi_agent_route_planni.Base.{ℕ, Bool, true, false, ◌||◌, Option, none, some, if◌then◌else◌}

pub data ConnState : Type 0 where
  idle reading processing writing closing closed : ConnState

abbrev pub same_state : ConnState → ConnState → Bool
same_state idle idle = true
same_state reading reading = true
same_state processing processing = true
same_state writing writing = true
same_state closing closing = true
same_state closed closed = true
same_state _ _ = false

pub record TcpConn (R : Type 0) : Type 0 where
  pub fd : Option ℕ
  pub conn_id : ℕ
  pub read_idx : ℕ
  pub response : Option R
  pub peer_closed_write : Bool
  pub state : ConnState

module _ {R : Type 0} where
  -- The constructor; the descriptor and the id are whatever the memory holds until `init`.
  unfoldable pub tcp_conn : Option ℕ → ℕ → TcpConn R
  tcp_conn fd conn_id = record {
    fd = fd;
    conn_id = conn_id;
    read_idx = 0;
    response = none;
    peer_closed_write = false;
    state = closed;
  }

  unfoldable pub init_conn : TcpConn R → ℕ → ℕ → TcpConn R
  init_conn c fd id = record c {
    fd = some fd;
    conn_id = id;
    read_idx = 0;
    peer_closed_write = false;
    state = idle;
  }

  unfoldable pub is_closed : TcpConn R → Bool
  is_closed c = same_state c.state closed || same_state c.state closing

  -- The connection, and the descriptor that is closed.
  unfoldable pub close_conn : TcpConn R → TcpConn R × Option ℕ
  close_conn c =
      if same_state c.state closed || same_state c.state closing
      then (record c { state = closing }, none)
      else (record c { fd = none; state = closed }, c.fd)

  unfoldable pub try_set_state : TcpConn R → ConnState → ConnState → TcpConn R × Bool
  try_set_state c expected desired =
      if same_state c.state expected then (record c { state = desired }, true) else (c, false)

  unfoldable pub get_state : TcpConn R → ConnState
  get_state c = c.state

  unfoldable pub has_response : TcpConn R → Bool
  has_response c = elim c.response [ none ↦ false | some r ↦ true ]

  unfoldable pub reset_read_state : TcpConn R → TcpConn R
  reset_read_state c = record c { read_idx = 0 }

  unfoldable pub reset_write_state : TcpConn R → TcpConn R
  reset_write_state c = record c { response = none }

  unfoldable pub reset : TcpConn R → TcpConn R
  unfolding reset_read_state reset_write_state
  reset c = reset_write_state (reset_read_state c)
