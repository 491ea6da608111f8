-- ===== src/Container/Input/Serial.antt =====
-- Input::Serialize and Input::Deserialize.
use vfuzz.Prelude.{
  ℕ, zero, suc, ◌+◌, ◌≡◌, refl, List, [], ◌∷◌, ◌++◌, length, is_empty, if◌then◌else◌, Result, ok,
  ◌>>=◌, arith, append-nil, append_assoc, length-append,
}
use vfuzz.Codec.Words.{Chunk, u64, length-le_bytes}
use vfuzz.Codec.Cursor.{Cursor, start, read_u64, read_bytes}
use vfuzz.Codec.Buffer.{Writer, sized, filled, write, write-filled}
use vfuzz.Container.Input.{Input, set_chunk}

-- The sum that sizes the vector, past the first word.
unfoldable pub chunks_size : List Chunk → ℕ
chunks_size [] = 0
chunks_size (c ∷ cs) = 8 + length c + chunks_size cs

unfoldable pub write_chunks : List Chunk → Writer → Result Writer
write_chunks [] w = ok w
write_chunks (c ∷ cs) w = do
  w ← write (u64 (length c)) w
  w ← if is_empty c then ok w else write c w
  write_chunks cs w

-- Serialize
unfoldable pub serialize : Input → Result Chunk
unfolding chunks_size write_chunks
serialize i = do
  w ← write (u64 (length i.chunks)) (sized (8 + chunks_size i.chunks))
  w ← write_chunks i.chunks w
  ok w.buffer

-- The loop of Deserialize, over the chunks that `total_chunks` still promises.
unfoldable pub read_chunks : Chunk → ℕ → ℕ → Cursor → Input → Result Input
read_chunks s zero index c i = ok i
read_chunks s (suc left) index c i = do
  (n, c) ← read_u64 s c
  (bytes, c) ← read_bytes s n c
  read_chunks s left (index + 1) c (set_chunk index bytes i)

-- Deserialize. Where it throws, the chunks read so far stay in the object; the callers drop it.
unfoldable pub deserialize : Chunk → Input → Result Input
unfolding read_chunks
deserialize s i = do (total, c) ← read_u64 s (start s); read_chunks s total 0 c i

-- The bytes of an input: the number of chunks, then each chunk behind its length.
unfoldable pub chunks_layout : List Chunk → Chunk
chunks_layout [] = []
chunks_layout (c ∷ cs) = u64 (length c) ++ (c ++ chunks_layout cs)

unfoldable pub layout : Input → Chunk
unfolding chunks_layout
layout i = u64 (length i.chunks) ++ chunks_layout i.chunks

length-chunks_layout : (cs : List Chunk) → length (chunks_layout cs) ≡ chunks_size cs
unfolding chunks_layout chunks_size
length-chunks_layout [] = refl
length-chunks_layout (c ∷ cs) = omega (
  arith,
  length-append (u64 (length c)) (c ++ chunks_layout cs),
  length-append c (chunks_layout cs),
  length-le_bytes 8 (length c),
  length-chunks_layout cs,
)

write_chunk-filled :
    (c done : Chunk) (room : ℕ)
    → (if is_empty c
        then ok (filled done (length c + room))
        else write c (filled done (length c + room)))
      ≡ ok (filled (done ++ c) room)
write_chunk-filled [] done room = let e : 0 + room ≡ room = omega arith in rw (e, append-nil)
write_chunk-filled (b ∷ c) done room = write-filled (b ∷ c) done room

write_chunks-filled :
    (cs : List Chunk) (done : Chunk) (room : ℕ)
    → write_chunks cs (filled done (chunks_size cs + room))
      ≡ ok (filled (done ++ chunks_layout cs) room)
unfolding write_chunks chunks_size chunks_layout
write_chunks-filled [] done room = let e : 0 + room ≡ room = omega arith in rw (e, append-nil)
write_chunks-filled (c ∷ cs) done room =
    let word = u64 (length c) in
    let rest = chunks_size cs + room in
    let e : 8 + length c + chunks_size cs + room ≡ length word + (length c + rest) =
      omega (arith, length-le_bytes 8 (length c)) in
    rw
      (
        e,
        write-filled word done (length c + rest),
        write_chunk-filled c (done ++ word) rest,
        write_chunks-filled cs ((done ++ word) ++ c) room,
      )
      (simp append_assoc)

-- Serialize never writes past the vector that it sized, and fills it with the layout.
pub serialize-layout : (i : Input) → serialize i ≡ ok (layout i)
unfolding serialize layout
serialize-layout i =
    let word = u64 (length i.chunks) in
    let size = chunks_size i.chunks in
    let e : 8 + size ≡ length word + (size + 0) =
      omega (arith, length-le_bytes 8 (length i.chunks)) in
    rw (e, write-filled word [] (size + 0), write_chunks-filled i.chunks word 0) (simp append-nil)
