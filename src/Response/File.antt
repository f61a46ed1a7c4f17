-- ===== src/Response/File.antt =====
-- `FileResponse` of server/src/Response.cpp: a header, then a mapped file.
use multi_agent_route_planni.Base.{
  ℕ, ◌+◌, ◌-◌, ◌≤◌, ◌<◌, min, ◌≡◌, refl, sym, ap, ◌∙◌, Bool, true, false, ◌&&◌, Option, none, some,
  [], ◌++◌, if◌then◌else◌, ltb, leb, length, take, drop, take-append-drop, drop-drop, length-drop,
  drop-all, take-all, arith, Bool-cases, inl, inr, string_eq, nat_eq,
}
use mathlib.Core.List.{append_assoc}
use multi_agent_route_planni.Response.{Bytes, HttpResponse, IsStream}

pub record FileResponse : Type 0 where
  pub header : Bytes
  pub header_offset : ℕ
  pub file : Bytes
  pub file_offset : ℕ
  pub is_valid : Bool

-- The constructor, on what `mmap` gives.
unfoldable pub reply : Bytes → Option Bytes → FileResponse
reply header (some file) = record {
  header = header;
  header_offset = 0;
  file = file;
  file_offset = 0;
  is_valid = true;
}
reply header none = record {
  header = header;
  header_offset = 0;
  file = [];
  file_offset = 0;
  is_valid = false;
}

unfoldable pub next_iovec : FileResponse → Option Bytes
next_iovec r =
    if ltb r.header_offset (length r.header)
    then some (drop r.header_offset r.header)
    else if ltb r.file_offset (length r.file)
    then some (drop r.file_offset r.file)
    else none

abbrev pub consume_file : ℕ → FileResponse → FileResponse
consume_file len r = record r { file_offset = min (r.file_offset + len) (length r.file) }

unfoldable pub consume : ℕ → FileResponse → FileResponse
consume len r =
    if ltb r.header_offset (length r.header)
    then if ltb len (length r.header - r.header_offset)
      then record r { header_offset = min (r.header_offset + len) (length r.header) }
      else consume_file (len - (length r.header - r.header_offset))
          (record r { header_offset = length r.header })
    else consume_file len r

unfoldable pub done : FileResponse → Bool
done r = leb (length r.header) r.header_offset && leb (length r.file) r.file_offset

abbrev pub file_response : HttpResponse
file_response = record {
  State = FileResponse;
  next_iovec = next_iovec;
  consume = consume;
  done = done;
}

abbrev pub file_left : FileResponse → Bytes
file_left r = drop r.file_offset r.file

abbrev pub remaining : FileResponse → Bytes
remaining r = drop r.header_offset r.header ++ file_left r

abbrev pub IsInFile : FileResponse → Type 0
IsInFile r = r.file_offset ≤ length r.file

-- Consuming a part of a text that begins at an offset.
take-consume :
    (o n : ℕ) (xs : Bytes)
    → n ≤ length xs - o
    → o ≤ length xs
    → take n (drop o xs) ++ drop (min (o + n) (length xs)) xs ≡ drop o xs
take-consume o n xs h k =
    let e : o + n ≡ min (o + n) (length xs) = ground arith in
    rw (← e, ← drop-drop o n xs) (take-append-drop n (drop o xs))

consume_header :
    (r : FileResponse) (n : ℕ)
    → r.header_offset < length r.header
    → n ≤ length r.header - r.header_offset
    → IsInFile r
    → (take n (drop r.header_offset r.header) ++ remaining (consume n r) ≡ remaining r)
      × IsInFile (consume n r)
unfolding consume
consume_header r n left h v = elim (Bool-cases (ltb n (length r.header - r.header_offset))) [
  | inl part ↦
      let open_ : ltb r.header_offset (length r.header) ≡ true = ground arith in
      (
        rw (open_, consume, part)
            (sym (
                append_assoc (take n (drop r.header_offset r.header))
                  (drop (min (r.header_offset + n) (length r.header)) r.header) (file_left r))
              ∙ ap (λ (xs : Bytes). xs ++ file_left r)
                  (take-consume r.header_offset n r.header h (omega arith))),
        rw (open_, consume, part) v,
      )
  | inr whole ↦
      let open_ : ltb r.header_offset (length r.header) ≡ true = ground arith in
      let full : take n (drop r.header_offset r.header) ≡ drop r.header_offset r.header =
        take-all n (drop r.header_offset r.header)
          (ground (arith, length-drop r.header_offset r.header)) in
      let same : min (r.file_offset + (n - (length r.header - r.header_offset))) (length r.file)
          ≡ r.file_offset =
        ground arith in
      let gone : drop (length r.header) r.header ≡ [] =
        drop-all (length r.header) r.header (omega arith) in
      (
        rw (open_, consume, whole, same, gone) (ap (λ (xs : Bytes). xs ++ file_left r) full),
        rw (open_, consume, whole, same) v,
      )
]

consume_body :
    (r : FileResponse) (n : ℕ)
    → length r.header ≤ r.header_offset
    → n ≤ length r.file - r.file_offset
    → IsInFile r
    → (take n (file_left r) ++ remaining (consume n r) ≡ remaining r) × IsInFile (consume n r)
unfolding consume
consume_body r n past h v =
    let shut : ltb r.header_offset (length r.header) ≡ false = ground arith in
    let gone : drop r.header_offset r.header ≡ [] = drop-all r.header_offset r.header past in
    (
      rw (shut, consume, gone) (take-consume r.file_offset n r.file h v),
      rw (shut, consume) (ground arith),
    )

pub consume_remaining :
    (r : FileResponse) (view : Bytes) (n : ℕ)
    → IsInFile r
    → next_iovec r ≡ some view
    → n ≤ length view
    → (take n view ++ remaining (consume n r) ≡ remaining r) × IsInFile (consume n r)
unfolding next_iovec
consume_remaining r view n v e h = elim (Bool-cases (ltb r.header_offset (length r.header))) [
  | inl head ↦
      let w : drop r.header_offset r.header ≡ view = ground (arith, head) in
      let n_le : n ≤ length (drop r.header_offset r.header) = rw w h in
      rw (← w)
        (consume_header r n (ground arith) (ground (arith, length-drop r.header_offset r.header)) v)
  | inr body ↦
      let w : file_left r ≡ view = ground (arith, body) in
      let n_le : n ≤ length (file_left r) = rw w h in
      rw (← w)
        (consume_body r n (ground arith) (ground (arith, length-drop r.file_offset r.file)) v)
]

-- The promise of a stream: what is left is the rest of the header and then the rest of the file.
unfoldable pub file_response-IsStream : IsStream file_response
unfolding next_iovec done
file_response-IsStream = record {
  IsValid = IsInFile;
  rest = remaining;
  view_none = λ r v e.
      rw
        (
          drop-all r.header_offset r.header (ground arith),
          drop-all r.file_offset r.file (ground arith),
        )
        refl;
  view_some = λ r view v e.
      ground (arith, length-drop r.header_offset r.header, length-drop r.file_offset r.file);
  consume_rest = consume_remaining;
  done_rest = λ r v e.
      rw
        (
          drop-all r.header_offset r.header (ground arith),
          drop-all r.file_offset r.file (ground arith),
        )
        refl;
}
