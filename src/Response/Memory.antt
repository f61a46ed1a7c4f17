-- ===== src/Response/Memory.antt =====
-- `MemoryResponse` of server/src/Response.cpp: header and body as one text.
use multi_agent_route_planni.Base.{
  ℕ, ◌+◌, ◌≤◌, min, ◌≡◌, Bool, Option, none, some, ◌++◌, if◌then◌else◌, leb, length, take, drop,
  take-append-drop, drop-drop, length-drop, drop-all, arith, Bool-cases, inl, inr, string_eq,
  nat_eq,
}
use multi_agent_route_planni.Response.{Bytes, HttpResponse, IsStream}

pub record MemoryResponse : Type 0 where
  pub data_ : Bytes
  pub offset : ℕ

unfoldable pub reply : Bytes → Bytes → MemoryResponse
reply header body = record { data_ = header ++ body; offset = 0 }

unfoldable pub done : MemoryResponse → Bool
done r = leb (length r.data_) r.offset

unfoldable pub next_iovec : MemoryResponse → Option Bytes
next_iovec r = if leb (length r.data_) r.offset then none else some (drop r.offset r.data_)

unfoldable pub consume : ℕ → MemoryResponse → MemoryResponse
consume len r = record r { offset = min (r.offset + len) (length r.data_) }

abbrev pub memory_response : HttpResponse
memory_response = record {
  State = MemoryResponse;
  next_iovec = next_iovec;
  consume = consume;
  done = done;
}

abbrev pub remaining : MemoryResponse → Bytes
remaining r = drop r.offset r.data_

pub consume_remaining :
    (r : MemoryResponse) (view : Bytes) (n : ℕ)
    → next_iovec r ≡ some view
    → n ≤ length view
    → take n view ++ remaining (consume n r) ≡ remaining r
unfolding next_iovec consume
consume_remaining r view n e h = elim (Bool-cases (leb (length r.data_) r.offset)) [
  | inl over ↦ absurd (ground (arith, over))
  | inr left ↦
      let v : drop r.offset r.data_ ≡ view = ground (arith, left) in
      let n_le : n ≤ length (drop r.offset r.data_) = rw v h in
      let o : r.offset + n ≡ min (r.offset + n) (length r.data_) =
        ground (arith, left, length-drop r.offset r.data_) in
      rw (← v, ← o, ← drop-drop r.offset n r.data_) (take-append-drop n (drop r.offset r.data_))
]

unfoldable pub memory_response-IsStream : IsStream memory_response
unfolding next_iovec done
memory_response-IsStream = record {
  IsValid = λ r. Unit;
  rest = remaining;
  view_none = λ r v e. drop-all r.offset r.data_ (ground arith);
  view_some = λ r view v e. ground (arith, length-drop r.offset r.data_);
  consume_rest = λ r view n v e h. (consume_remaining r view n e h, tt);
  done_rest = λ r v e. drop-all r.offset r.data_ (ground arith);
}
