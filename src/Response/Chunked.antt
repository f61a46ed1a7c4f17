-- ===== src/Response/Chunked.antt =====
-- `ChunkedResponse` of server/src/Response.cpp: a queue of chunks in the chunked encoding.
use multi_agent_route_planni.Base.{
  ℕ, zero, suc, ◌+◌, ◌-◌, ◌/◌, ◌%◌, ◌≤◌, ◌<◌, ◌≡◌, refl, sym, ap, ◌∙◌, Bool, true, false, ◌&&◌,
  Option, none, some, List, [], ◌∷◌, ◌++◌, if◌then◌else◌, ltb, leb, length, take, drop,
  take-append-drop, drop-drop, length-drop, length-append, take-all, arith, Bool-cases, All, inl,
  inr, string_eq, nat_eq,
}
use mathlib.Core.List.{append_assoc, append-nil}
use multi_agent_route_planni.Response.{Bytes, HttpResponse, IsStream}

pub record ChunkedResponse : Type 0 where
  pub chunks : List Bytes
  pub offset : ℕ
  pub finished : Bool

unfoldable pub reply : ChunkedResponse
reply = record { chunks = []; offset = 0; finished = false }

-- `std::hex`, on as many digits as the fuel allows; a number has fewer digits than its value and one.
abbrev pub hex_digit : ℕ → ℕ
hex_digit d = if ltb d 10 then 48 + d else 87 + d

unfoldable pub hex_digits : ℕ → ℕ → Bytes
hex_digits zero n = []
hex_digits (suc fuel) n =
    let rest = hex_digits fuel (n / 16) in
    if ltb n 16 then hex_digit n ∷ [] else rest ++ hex_digit (n % 16) ∷ []

abbrev pub crlf : Bytes
crlf = 13 ∷ 10 ∷ []

unfoldable pub framed : Bytes → Bytes
unfolding hex_digits
framed chunk = hex_digits (suc (length chunk)) (length chunk) ++ crlf ++ chunk ++ crlf

unfoldable pub push_chunk : Bytes → ChunkedResponse → ChunkedResponse
unfolding framed
push_chunk chunk r = record r { chunks = r.chunks ++ framed chunk ∷ [] }

abbrev pub next_in : List Bytes → ℕ → Option Bytes
next_in [] offset = none
next_in (front ∷ chunks) offset = some (drop offset front)

unfoldable pub next_iovec : ChunkedResponse → Option Bytes
next_iovec r = next_in r.chunks r.offset

abbrev pub consume_in : List Bytes → ℕ → Bool → ChunkedResponse
consume_in [] offset finished = record { chunks = []; offset = offset; finished = finished }
consume_in (front ∷ chunks) offset finished =
    if leb (length front) offset
    then record { chunks = chunks; offset = 0; finished = finished }
    else record { chunks = front ∷ chunks; offset = offset; finished = finished }

abbrev pub is_empty : List Bytes → Bool
is_empty [] = true
is_empty (front ∷ chunks) = false

unfoldable pub consume : ℕ → ChunkedResponse → ChunkedResponse
consume len r = if is_empty r.chunks then r else consume_in r.chunks (r.offset + len) r.finished

unfoldable pub done : ChunkedResponse → Bool
done r = r.finished && is_empty r.chunks

abbrev pub chunked_response : HttpResponse
chunked_response = record {
  State = ChunkedResponse;
  next_iovec = next_iovec;
  consume = consume;
  done = done;
}

abbrev pub concat_all : List Bytes → Bytes
concat_all [] = []
concat_all (chunk ∷ chunks) = chunk ++ concat_all chunks

abbrev pub left_in : List Bytes → ℕ → Bytes
left_in [] offset = []
left_in (front ∷ chunks) offset = drop offset front ++ concat_all chunks

-- No chunk is empty, and of the first some bytes are left; an empty queue has no offset.
abbrev pub AreLeft : List Bytes → ℕ → Type 0
AreLeft [] offset = offset ≡ 0
AreLeft (front ∷ chunks) offset =
    (offset < length front) × All (λ (chunk : Bytes). 0 < length chunk) chunks

abbrev pub remaining : ChunkedResponse → Bytes
remaining r = left_in r.chunks r.offset

left_in-zero : (chunks : List Bytes) → left_in chunks 0 ≡ concat_all chunks
left_in-zero [] = refl
left_in-zero (chunk ∷ chunks) = refl

AreLeft-zero :
    (chunks : List Bytes) → All (λ (chunk : Bytes). 0 < length chunk) chunks → AreLeft chunks 0
AreLeft-zero [] h = refl
AreLeft-zero (chunk ∷ chunks) h = h

consume_front :
    (front : Bytes) (chunks : List Bytes) (offset n : ℕ) (finished : Bool)
    → AreLeft (front ∷ chunks) offset
    → n ≤ length front - offset
    → let r = consume_in (front ∷ chunks) (offset + n) finished in
      (take n (drop offset front) ++ remaining r ≡ drop offset front ++ concat_all chunks)
      × AreLeft r.chunks r.offset
consume_front front chunks offset n finished v h =
    elim (Bool-cases (leb (length front) (offset + n))) [
      | inl over ↦
          let full : take n (drop offset front) ≡ drop offset front =
            take-all n (drop offset front) (ground (arith, over, length-drop offset front)) in
          (rw (over, full, left_in-zero chunks) refl, rw over (AreLeft-zero chunks v.1))
      | inr part ↦ (
        rw part (
            sym (
              append_assoc (take n (drop offset front)) (drop (offset + n) front)
                (concat_all chunks))
            ∙ ap (λ (xs : Bytes). xs ++ concat_all chunks)
                (rw (← drop-drop offset n front) (take-append-drop n (drop offset front)))),
        rw part (ground (arith, part), v.1),
      )
    ]

pub consume_remaining :
    (chunks : List Bytes) (offset : ℕ) (finished : Bool) (view : Bytes) (n : ℕ)
    → AreLeft chunks offset
    → next_in chunks offset ≡ some view
    → n ≤ length view
    → let r = consume n (record { chunks = chunks; offset = offset; finished = finished }) in
      (take n view ++ remaining r ≡ left_in chunks offset) × AreLeft r.chunks r.offset
unfolding consume
consume_remaining [] offset finished view n v e h = absurd (ground arith)
consume_remaining (front ∷ chunks) offset finished view n v e h =
    let w : drop offset front ≡ view = ground arith in
    let n_le : n ≤ length (drop offset front) = rw w h in
    rw (← w)
      (consume_front front chunks offset n finished v (ground (arith, length-drop offset front)))

pub view-left :
    (chunks : List Bytes) (offset : ℕ) (view : Bytes)
    → AreLeft chunks offset
    → next_in chunks offset ≡ some view
    → 0 < length view
view-left [] offset view v e = absurd (ground arith)
view-left (front ∷ chunks) offset view v e = ground (arith, length-drop offset front)

pub view-none :
    (chunks : List Bytes) (offset : ℕ) → next_in chunks offset ≡ none → left_in chunks offset ≡ []
view-none [] offset e = refl
view-none (front ∷ chunks) offset e = absurd (ground arith)

pub done-left :
    (chunks : List Bytes) (offset : ℕ) → is_empty chunks ≡ true → left_in chunks offset ≡ []
done-left [] offset e = refl
done-left (front ∷ chunks) offset e = absurd (ground arith)

-- The promise of a stream: what is left is the rest of the first chunk and then the others.
unfoldable pub chunked_response-IsStream : IsStream chunked_response
unfolding next_iovec done
chunked_response-IsStream = record {
  IsValid = λ r. AreLeft r.chunks r.offset;
  rest = remaining;
  view_none = λ r v e. view-none r.chunks r.offset e;
  view_some = λ r view v e. view-left r.chunks r.offset view v e;
  consume_rest = λ r view n v e h. consume_remaining r.chunks r.offset r.finished view n v e h;
  done_rest = λ r v e. done-left r.chunks r.offset (ground arith);
}

concat_all-append :
    (xs : List Bytes) (chunk : Bytes) → concat_all (xs ++ chunk ∷ []) ≡ concat_all xs ++ chunk
concat_all-append [] chunk = append-nil chunk
concat_all-append (x ∷ xs) chunk =
    ap (λ (ys : Bytes). x ++ ys) (concat_all-append xs chunk)
    ∙ sym (append_assoc x (concat_all xs) chunk)

framed-length : (chunk : Bytes) → 0 < length (framed chunk)
unfolding framed
framed-length chunk =
    let before = hex_digits (suc (length chunk)) (length chunk) ++ crlf ++ chunk in
    let total : length (framed chunk) ≡ length before + length crlf = length-append before crlf in
    let two : length crlf ≡ 2 = omega arith in omega (arith, total, two)

All-append_one :
    (xs : List Bytes) (chunk : Bytes)
    → All (λ (x : Bytes). 0 < length x) xs
    → 0 < length chunk
    → All (λ (x : Bytes). 0 < length x) (xs ++ chunk ∷ [])
All-append_one [] chunk h k = (k, tt)
All-append_one (x ∷ xs) chunk h k = (h.0, All-append_one xs chunk h.1 k)

append_chunk :
    (chunks : List Bytes) (offset : ℕ) (chunk : Bytes)
    → AreLeft chunks offset
    → 0 < length chunk
    → (left_in (chunks ++ chunk ∷ []) offset ≡ left_in chunks offset ++ chunk)
      × AreLeft (chunks ++ chunk ∷ []) offset
append_chunk [] offset chunk v h = (rw v (append-nil chunk), rw v (h, tt))
append_chunk (front ∷ chunks) offset chunk v h = (
  ap (λ (ys : Bytes). drop offset front ++ ys) (concat_all-append chunks chunk)
      ∙ sym (append_assoc (drop offset front) (concat_all chunks) chunk),
  (v.0, All-append_one chunks chunk v.1 h),
)

-- Pushing a chunk adds its frame (its length in hexadecimal, CRLF, the chunk, CRLF) behind what is
-- left to be sent.
pub push_chunk-remaining :
    (chunk : Bytes) (r : ChunkedResponse)
    → AreLeft r.chunks r.offset
    → (remaining (push_chunk chunk r) ≡ remaining r ++ framed chunk)
      × AreLeft (push_chunk chunk r).chunks (push_chunk chunk r).offset
unfolding push_chunk
push_chunk-remaining chunk r v =
    append_chunk r.chunks r.offset (framed chunk) v (framed-length chunk)
