-- ===== src/Response/Tests.antt =====
-- Short replies before a kernel that takes two bytes at a time, for server/src/Response.cpp and
-- server/src/TcpConn.cpp.
use multi_agent_route_planni.Base.{
  zero, suc, List, ◌++◌, ℕ, ◌≤◌, min, ◌≡◌, ◌≢◌, refl, some, [], ◌∷◌, length, arith,
}
use multi_agent_route_planni.Response.{Bytes, HttpResponse}
use multi_agent_route_planni.Response.Memory as Memory
use multi_agent_route_planni.Response.Memory.{
  MemoryResponse, memory_response, memory_response-IsStream,
}
use multi_agent_route_planni.Response.Writing.{
  WriteStatus, complete, Answer, wrote, interrupted, Kernel, Writes, after, write, IsHonest,
  write_lem, write_total,
}
use multi_agent_route_planni.Response.File as File
use multi_agent_route_planni.Response.File.{FileResponse, file_response, IsInFile}
use multi_agent_route_planni.Response.Chunked as Chunked
use multi_agent_route_planni.Response.Chunked.{
  ChunkedResponse, chunked_response, AreLeft, framed, hex_digits,
}
use multi_agent_route_planni.Response.Sending.{
  IsCalm, write-file_response, push_all, frames, write-chunked_response,
}

abbrev two_bytes : Bytes → Answer
two_bytes view = wrote (min 2 (length view))

abbrev kernel : Kernel
kernel = two_bytes ∷ two_bytes ∷ two_bytes ∷ []

hello : MemoryResponse
hello = Memory.reply (72 ∷ 73 ∷ []) (33 ∷ [])

sent_all : MemoryResponse
sent_all = record { data_ = 72 ∷ 73 ∷ 33 ∷ []; offset = 3 }

writes_ : write memory_response kernel hello ≡ some (sent_all, 72 ∷ 73 ∷ 33 ∷ [], complete)
unfolding hello sent_all write after Memory.reply Memory.next_iovec Memory.consume Memory.done
writes_ = refl

honest : (view : Bytes) (n : ℕ) → two_bytes view ≡ wrote n → n ≤ length view
honest view n e = ground (arith, e)

kernel-IsHonest : IsHonest memory_response kernel
kernel-IsHonest = (honest, (honest, (honest, tt)))

uninterrupted : (view : Bytes) → two_bytes view ≢ interrupted
uninterrupted view e = ground arith

write_lem_example :
    Writes memory_response memory_response-IsStream hello (sent_all, 72 ∷ 73 ∷ 33 ∷ [], complete)
unfolding memory_response-IsStream
write_lem_example =
    write_lem memory_response memory_response-IsStream kernel hello
      (sent_all, 72 ∷ 73 ∷ 33 ∷ [], complete) tt kernel-IsHonest writes_

enough : length (memory_response-IsStream.rest hello) ≤ length kernel
unfolding hello Memory.reply memory_response-IsStream
enough = omega arith

write_total_example :
    (o : MemoryResponse × Bytes × WriteStatus) × (write memory_response kernel hello ≡ some o)
unfolding memory_response-IsStream
write_total_example =
    write_total memory_response memory_response-IsStream kernel hello tt kernel-IsHonest
      (uninterrupted, (uninterrupted, (uninterrupted, tt))) enough

-- The kernel that takes two bytes, as often as one likes.
unfoldable patient : ℕ → Kernel
patient zero = []
patient (suc n) = two_bytes ∷ patient n

patient-IsHonest : (R : HttpResponse) (n : ℕ) → IsHonest R (patient n)
unfolding patient
patient-IsHonest R zero = tt
patient-IsHonest R (suc n) = (honest, patient-IsHonest R n)

patient-IsCalm : (n : ℕ) → IsCalm (patient n)
unfolding patient
patient-IsCalm zero = tt
patient-IsCalm (suc n) = (uninterrupted, patient-IsCalm n)

write-file_response_example :
    (o : FileResponse × Bytes × WriteStatus) × (write file_response
        (patient 4)
        (File.reply (72 ∷ 73 ∷ []) (some (33 ∷ 34 ∷ [])))
      ≡ some o)
    × (o.1 ++ File.remaining o.0 ≡ 72 ∷ 73 ∷ 33 ∷ 34 ∷ [])
    × IsInFile o.0
    × (o.2 ≡ complete → o.1 ≡ 72 ∷ 73 ∷ 33 ∷ 34 ∷ [])
unfolding patient
write-file_response_example =
    write-file_response (72 ∷ 73 ∷ []) (some (33 ∷ 34 ∷ [])) (patient 4)
      (patient-IsHonest file_response 4) (patient-IsCalm 4) (omega arith)

-- A chunk, and the empty one that ends a reply: `1`, CRLF, `A`, CRLF, `0`, CRLF, CRLF.
abbrev chunks : List Bytes
chunks = (65 ∷ []) ∷ [] ∷ []

framed_text : frames chunks ≡ 49 ∷ 13 ∷ 10 ∷ 65 ∷ 13 ∷ 10 ∷ 48 ∷ 13 ∷ 10 ∷ 13 ∷ 10 ∷ []
unfolding frames framed hex_digits
framed_text = refl

write-chunked_response_example :
    (o : ChunkedResponse × Bytes × WriteStatus) × (write chunked_response
        (patient 11)
        (push_all chunks Chunked.reply)
      ≡ some o)
    × (o.1 ++ Chunked.remaining o.0 ≡ frames chunks)
    × AreLeft o.0.chunks o.0.offset
    × (o.2 ≡ complete → o.1 ≡ frames chunks)
unfolding patient
write-chunked_response_example =
    write-chunked_response chunks (patient 11) (patient-IsHonest chunked_response 11)
      (patient-IsCalm 11) (rw framed_text (omega arith))
