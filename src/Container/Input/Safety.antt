-- ===== src/Container/Input/Safety.antt =====
-- Input::Deserialize on any bytes: no read leaves the vector, and what it accepts begins with the
-- layout of the input that it gives.
use vfuzz.Prelude.{
  ℕ, zero, suc, ◌+◌, ◌≡◌, refl, sym, ap, ◌∙◌, List, [], ◌∷◌, ◌++◌, length, All, ok, IsSafe,
  >>=-IsSafe, >>=-eq-ok, arith, append_assoc, append-nil, length-append, drop, All-drop, le→leb,
}
use vfuzz.Codec.Words.{Chunk, IsByte, u64}
use vfuzz.Codec.Cursor.{
  Cursor, start, IsInside, read_u64, read_bytes, read_u64-IsSafe, read_bytes-IsSafe,
  read_u64-IsInside, read_bytes-IsInside, IsAt, start-IsAt, read_u64-Takes, read_bytes-Takes,
}
use vfuzz.Container.Input.{Input, fresh, set_chunk}
use vfuzz.Container.Input.Serial.{read_chunks, deserialize, chunks_layout, layout}

read_chunks-IsSafe :
    (s : Chunk) (left index : ℕ) (c : Cursor) (i : Input)
    → IsInside s c
    → IsSafe (read_chunks s left index c i)
unfolding read_chunks
read_chunks-IsSafe s zero index c i h = tt
read_chunks-IsSafe s (suc left) index c i h =
    >>=-IsSafe (read_u64 s c) _ (read_u64-IsSafe s c h) λ (n, d) word.
      let inside = read_u64-IsInside s c word h in
      >>=-IsSafe (read_bytes s n d) _ (read_bytes-IsSafe s n d inside) λ (bytes, e) got.
        read_chunks-IsSafe s left (index + 1) e (set_chunk index bytes i)
          (read_bytes-IsInside s n d got inside)

-- On every vector of bytes Deserialize returns or throws DeserializationException: no memcpy reads
-- outside the vector.
pub input_deserialize-IsSafe : (s : Chunk) (i : Input) → IsSafe (deserialize s i)
unfolding deserialize
input_deserialize-IsSafe s i =
    >>=-IsSafe (read_u64 s (start s)) _ (read_u64-IsSafe s (start s) (start-IsAt s).inside)
      λ (total, c) word.
        read_chunks-IsSafe s total 0 c i (read_u64-IsInside s (start s) word (start-IsAt s).inside)

-- The object `j` is `i` with `left` chunks more, whose layout begins the bytes `ahead`.
abbrev Extends : Input → ℕ → Chunk → Input → Type 0
Extends i left ahead j =
    (cs : List Chunk) × (rest : Chunk) × (j ≡ record i { chunks = i.chunks ++ cs })
    × (length cs ≡ left)
    × (ahead ≡ chunks_layout cs ++ rest)

set_chunk_end :
    (index : ℕ) (c : Chunk) (i : Input)
    → index ≡ length i.chunks
    → set_chunk index c i ≡ record i { chunks = i.chunks ++ (c ∷ []) }
unfolding set_chunk
set_chunk_end index c i e = rw (le→leb (length i.chunks) index (omega arith))

Extends-step :
    (i j : Input) (left n : ℕ) (ahead after bytes rest : Chunk)
    → ahead ≡ u64 n ++ after
    → after ≡ bytes ++ rest
    → length bytes ≡ n
    → Extends (record i { chunks = i.chunks ++ (bytes ∷ []) }) left rest j
    → Extends i (suc left) ahead j
unfolding chunks_layout
Extends-step i j left n ahead after bytes rest e f len (cs, back, built, size, split) = (
  bytes ∷ cs,
  back,
  built ∙ ap (λ cs. record i { chunks = cs }) (append_assoc i.chunks (bytes ∷ []) cs),
  ap suc size,
  rw (e, f, split, len) (simp append_assoc),
)

read_chunks-Extends :
    (s : Chunk) (left index : ℕ) (c : Cursor) (i j : Input) (ahead : Chunk)
    → All IsByte ahead
    → IsAt s c ahead
    → index ≡ length i.chunks
    → read_chunks s left index c i ≡ ok j
    → Extends i left ahead j
unfolding read_chunks chunks_layout
read_chunks-Extends s zero index c i j ahead h a e r = ([], ahead, rw append-nil (cc), refl, refl)
read_chunks-Extends s (suc left) index c i j ahead h a e r =
    let ((n, d), word, r1) = >>=-eq-ok (read_u64 s c) _ r in
    let ((bytes, f), got, r2) = >>=-eq-ok (read_bytes s n d) _ r1 in
    let (split1, a1) = read_u64-Takes s c ahead n d h a word in
    let (len, split2, a2) = read_bytes-Takes s n d (drop 8 ahead) bytes f a1 got in
    let i' : Input = record i { chunks = i.chunks ++ (bytes ∷ []) } in
    let r3 : read_chunks s left (index + 1) f i' ≡ ok j =
      sym (ap (read_chunks s left (index + 1) f) (set_chunk_end index bytes i e)) ∙ r2 in
    let index' : index + 1 ≡ length i'.chunks =
      omega (arith, length-append i.chunks (bytes ∷ [])) in
    Extends-step i j left n ahead (drop 8 ahead) bytes (drop n (drop 8 ahead)) split1 split2 len (
      read_chunks-Extends s left (index + 1) f i' j _
        (All-drop IsByte n _ (All-drop IsByte 8 ahead h)) a2 index' r3)

-- A vector of bytes that Deserialize accepts into a fresh object begins with exactly the layout
-- of the object that it gives.
pub deserialize-Accepts :
    (s : Chunk) (i : Input)
    → All IsByte s
    → deserialize s fresh ≡ ok i
    → (rest : Chunk) × (s ≡ layout i ++ rest)
unfolding deserialize layout
deserialize-Accepts s i h r =
    let ((total, c), word, r1) = >>=-eq-ok (read_u64 s (start s)) _ r in
    let (split, a) = read_u64-Takes s (start s) s total c h (start-IsAt s) word in
    let (cs, rest, built, size, ahead) =
      read_chunks-Extends s total 0 c fresh i (drop 8 s) (All-drop IsByte 8 s h) a refl r1 in
    (rest, rw (split, ahead, built, ← size) (simp append_assoc))
