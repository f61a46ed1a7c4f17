-- ===== src/Response/Sending.antt =====
-- What `TcpConn::write` of server/src/TcpConn.cpp sends of a reply from a file and of a chunked reply
-- of server/src/Response.cpp.
use mathlib.Core.List.{append_assoc, append-nil}
use multi_agent_route_planni.Base.{
  ◌+◌, ◌≤◌, ◌≡◌, ◌≢◌, refl, sym, ap, ◌∙◌, Option, none, some, List, [], ◌∷◌, ◌++◌, length,
  length-append, arith, All,
}
use multi_agent_route_planni.Response.{Bytes, HttpResponse, IsStream}
use multi_agent_route_planni.Response.Writing.{
  WriteStatus, complete, interrupted, Answer, Kernel, Written, write, IsHonest, write_lem,
  write_total,
}
use multi_agent_route_planni.Response.File as File
use multi_agent_route_planni.Response.File.{
  FileResponse, file_response, file_response-IsStream, IsInFile,
}
use multi_agent_route_planni.Response.Chunked as Chunked
use multi_agent_route_planni.Response.Chunked.{
  ChunkedResponse, push_chunk, framed, chunked_response, chunked_response-IsStream, AreLeft,
  push_chunk-remaining,
}

-- No answer of the kernel is an interruption.
abbrev pub IsCalm : Kernel → Type 0
IsCalm = All (λ (k : Bytes → Answer). (view : Bytes) → k view ≢ interrupted)

module _ (R : HttpResponse) (stream : IsStream R) where
  -- A call of the loop on a text: it returns, what was taken and what is left are the text, and
  -- COMPLETE is the whole of it.
  abbrev pub Sends : Bytes → Kernel → R.State → Type 0
  Sends text ks s =
      (o : Written R) × (write R ks s ≡ some o)
      × (o.1 ++ stream.rest o.0 ≡ text)
      × stream.IsValid o.0
      × (o.2 ≡ complete → o.1 ≡ text)

  pub write-Sends :
      (text : Bytes) (ks : Kernel) (s : R.State)
      → stream.rest s ≡ text
      → stream.IsValid s
      → IsHonest R ks
      → IsCalm ks
      → length text ≤ length ks
      → Sends text ks s
  write-Sends text ks s same v honest calm enough =
      let (o, e) = write_total R stream ks s v honest calm (rw same enough) in
      let w = write_lem R stream ks s o v honest e in
      (
        o,
        e,
        w.in_order ∙ same,
        w.valid,
        λ whole.
            sym (append-nil o.1)
            ∙ ap (λ (xs : Bytes). o.1 ++ xs) (sym (w.all_sent whole))
            ∙ w.in_order
            ∙ same,
      )

-- The bytes of a file that may not be there.
abbrev pub file_bytes : Option Bytes → Bytes
file_bytes none = []
file_bytes (some file) = file

fresh_file :
    (header : Bytes) (file : Option Bytes)
    → (File.remaining (File.reply header file) ≡ header ++ file_bytes file)
      × IsInFile (File.reply header file)
unfolding File.reply
fresh_file header none = (refl, omega arith)
fresh_file header (some file) = (refl, omega arith)

-- A call of TcpConn::write on a fresh reply from a file, where the kernel never takes more than it
-- is given, is not interrupted and answers at least once for each byte, returns: what the kernel
-- took and what is left of the header and the file are the header and then the file (no file, if
-- it could not be mapped), in order, and COMPLETE is reported only when the kernel took the whole
-- of it. What is left lies within the file.
pub write-file_response :
    (header : Bytes) (file : Option Bytes) (ks : Kernel)
    → IsHonest file_response ks
    → IsCalm ks
    → length header + length (file_bytes file) ≤ length ks
    → (o : FileResponse × Bytes × WriteStatus) × (write file_response ks (File.reply header file)
        ≡ some o)
      × (o.1 ++ File.remaining o.0 ≡ header ++ file_bytes file)
      × IsInFile o.0
      × (o.2 ≡ complete → o.1 ≡ header ++ file_bytes file)
unfolding file_response-IsStream
write-file_response header file ks honest calm enough =
    let (text, valid) = fresh_file header file in
    let size = length-append header (file_bytes file) in
    write-Sends file_response file_response-IsStream (header ++ file_bytes file) ks
      (File.reply header file) text valid honest calm (omega (arith, size, enough))

-- The chunks pushed one after another, and the frames that they make.
unfoldable pub push_all : List Bytes → ChunkedResponse → ChunkedResponse
push_all [] r = r
push_all (chunk ∷ chunks) r = push_all chunks (push_chunk chunk r)

unfoldable pub frames : List Bytes → Bytes
frames [] = []
frames (chunk ∷ chunks) = framed chunk ++ frames chunks

push_all-remaining :
    (chunks : List Bytes) (r : ChunkedResponse)
    → AreLeft r.chunks r.offset
    → (Chunked.remaining (push_all chunks r) ≡ Chunked.remaining r ++ frames chunks)
      × AreLeft (push_all chunks r).chunks (push_all chunks r).offset
unfolding push_all frames
push_all-remaining [] r v = (sym (append-nil (Chunked.remaining r)), v)
push_all-remaining (chunk ∷ chunks) r v =
    let (step, v') = push_chunk-remaining chunk r v in
    let (rest, v'') = push_all-remaining chunks (push_chunk chunk r) v' in
    (
      rest
          ∙ ap (λ (xs : Bytes). xs ++ frames chunks) step
          ∙ append_assoc (Chunked.remaining r) (framed chunk) (frames chunks),
      v'',
    )

fresh_chunked : AreLeft Chunked.reply.chunks Chunked.reply.offset
unfolding Chunked.reply
fresh_chunked = refl

fresh-remaining : Chunked.remaining Chunked.reply ≡ []
unfolding Chunked.reply
fresh-remaining = refl

-- A call of TcpConn::write on a chunked reply into which chunks have been pushed, where the kernel
-- never takes more than it is given, is not interrupted and answers at least once for each byte of
-- the frames, returns: what the kernel took and what is left are the frames of the chunks in the
-- order in which they were pushed, a frame being what pushChunk makes of a chunk (its length in
-- hexadecimal, CRLF, the chunk, CRLF), and COMPLETE is reported only when the kernel took all of
-- them. No chunk that is left is empty.
pub write-chunked_response :
    (chunks : List Bytes) (ks : Kernel)
    → IsHonest chunked_response ks
    → IsCalm ks
    → length (frames chunks) ≤ length ks
    → (o : ChunkedResponse × Bytes × WriteStatus) × (write chunked_response ks
          (push_all chunks Chunked.reply)
        ≡ some o)
      × (o.1 ++ Chunked.remaining o.0 ≡ frames chunks)
      × AreLeft o.0.chunks o.0.offset
      × (o.2 ≡ complete → o.1 ≡ frames chunks)
unfolding chunked_response-IsStream
write-chunked_response chunks ks honest calm enough =
    let (text, valid) = push_all-remaining chunks Chunked.reply fresh_chunked in
    let same : Chunked.remaining (push_all chunks Chunked.reply) ≡ frames chunks =
      text ∙ ap (λ (xs : Bytes). xs ++ frames chunks) fresh-remaining in
    write-Sends chunked_response chunked_response-IsStream (frames chunks) ks
      (push_all chunks Chunked.reply) same valid honest calm enough
