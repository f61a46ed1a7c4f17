-- ===== src/Response.antt =====
-- server/src/Response.cpp and the writing half of server/src/TcpConn.cpp: the reply that is still to
-- be sent, and the loop that sends it. Bytes are numbers; a view of memory is the bytes that it
-- shows. A file is the bytes that `mmap` shows, none if it fails.
pub mod Memory
pub mod File
pub mod Chunked
pub mod Writing
pub mod Sending
mod Tests
use multi_agent_route_planni.Base.{
  ℕ, ◌≤◌, ◌<◌, ◌≡◌, Bool, true, Option, none, some, List, [], ◌++◌, length, take,
}

abbrev pub Bytes : Type 0
Bytes = List ℕ

-- What `HttpResponse` asks of a reply.
pub record HttpResponse : Type 1 where
  pub State : Type 0
  pub next_iovec : State → Option Bytes
  pub consume : ℕ → State → State
  pub done : State → Bool

-- What a reply promises to the loop that sends it: there is a text that is still to be sent, a view
-- shows the start of it, and what is consumed of the view is off it. It is done only when nothing is
-- left.
pub record IsStream (R : HttpResponse) : Type 1 where
  pub IsValid : R.State → Type 0
  pub rest : R.State → Bytes
  pub view_none : (s : R.State) → IsValid s → R.next_iovec s ≡ none → rest s ≡ []
  pub view_some :
      (s : R.State) (view : Bytes) → IsValid s → R.next_iovec s ≡ some view → 0 < length view
  pub consume_rest :
      (s : R.State) (view : Bytes) (n : ℕ)
      → IsValid s
      → R.next_iovec s ≡ some view
      → n ≤ length view
      → (take n view ++ rest (R.consume n s) ≡ rest s) × IsValid (R.consume n s)
  pub done_rest : (s : R.State) → IsValid s → R.done s ≡ true → rest s ≡ []
