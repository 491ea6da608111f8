-- ===== src/Container/Input/RoundTrip.antt =====
-- Input::Deserialize against the layout that Input::Serialize writes.
use vfuzz.Prelude.{
  ℕ, suc, ◌+◌, ◌≡◌, refl, ap, ◌∙◌, List, [], ◌∷◌, ◌++◌, length, drop, All, ok, ◌>>=◌, arith,
  append_assoc, append-nil, length-append, drop-drop,
}
use vfuzz.Codec.Words.{Chunk, IsU64, u64}
use vfuzz.Codec.Cursor.{Cursor, start, advance, IsAt, start-IsAt_eq, read_u64-IsAt, read_bytes-IsAt}
use vfuzz.Container.Input.{Input, put, set_chunk}
use vfuzz.Container.Input.Serial.{
  read_chunks, deserialize, chunks_layout, layout, serialize, serialize-layout,
}

-- Sizes that a size_t holds.
abbrev pub IsSized : Input → Type 0
IsSized i = IsU64 (length i.chunks) × All (λ c. IsU64 (length c)) i.chunks

-- Chunks that are written over the first chunks of `old`.
abbrev pub overlay : List Chunk → List Chunk → List Chunk
overlay cs old = cs ++ drop (length cs) old

put-append :
    (done old : List Chunk) (c : Chunk)
    → put (done ++ old) (length done) c ≡ done ++ (c ∷ drop 1 old)
unfolding put
put-append [] [] c = refl
put-append [] (o ∷ old) c = ground arith
put-append (d ∷ done) old c = ground (arith, put-append done old c)

overlay_step :
    (done cs old : List Chunk) (c : Chunk)
    → (done ++ (c ∷ [])) ++ overlay cs (drop 1 old) ≡ done ++ overlay (c ∷ cs) old
overlay_step done cs old c =
    let e : 1 + length cs ≡ suc (length cs) = omega arith in
    rw (append_assoc, drop-drop 1 (length cs) old, e)

read_chunks-layout :
    (cs : List Chunk) (s : Chunk) (index : ℕ) (c : Cursor) (rest : Chunk) (i : Input)
    (done old : List Chunk)
    → All (λ c. IsU64 (length c)) cs
    → IsAt s c (chunks_layout cs ++ rest)
    → index ≡ length done
    → i.chunks ≡ done ++ old
    → read_chunks s (length cs) index c i ≡ ok (record i { chunks = done ++ overlay cs old })
unfolding read_chunks chunks_layout set_chunk
read_chunks-layout [] s index c rest i done old h a e f = rw (← f)
read_chunks-layout (x ∷ cs) s index c rest i done old h a e f =
    let (word, a1) = read_u64-IsAt s c (length x) _ h.0 (rw append_assoc at a) in
    let (bytes, a2) = read_bytes-IsAt s (advance c 8) x _ (rw append_assoc at a1) in
    let i' = set_chunk index x i in
    let index' : index + 1 ≡ length (done ++ (x ∷ [])) =
      omega (arith, length-append done (x ∷ [])) in
    let chunks' : i'.chunks ≡ (done ++ (x ∷ [])) ++ drop 1 old =
      rw (f, e, put-append done old x) (simp append_assoc) in
    rw (word, bytes)
      (read_chunks-layout cs s (index + 1) _ rest i' (done ++ (x ∷ [])) (drop 1 old) h.1 a2 index'
          chunks'
        ∙ ap (λ cs. ok (record i { chunks = cs })) (overlay_step done cs old x))

-- What Serialize writes, Deserialize reads back, whatever bytes follow it: into an object that
-- holds chunks already it writes over the first of them.
pub deserialize-layout :
    (i j : Input) (rest : Chunk)
    → IsSized i
    → deserialize (layout i ++ rest) j ≡ ok (record j { chunks = overlay i.chunks j.chunks })
unfolding deserialize layout
deserialize-layout i j rest h =
    let s = layout i ++ rest in
    let (word, a) =
      read_u64-IsAt s (start s) (length i.chunks) _ h.0
        (start-IsAt_eq s _ (append_assoc (u64 (length i.chunks)) (chunks_layout i.chunks) rest)) in
    rw word
      (read_chunks-layout i.chunks s 0 (advance (start s) 8) rest j [] j.chunks h.1 a refl refl)

-- A serialized input, whose number of chunks and sizes fit in 64 bits, is read back into an
-- object: its chunks replace the first ones there.
pub input_round_trip :
    (i j : Input)
    → IsSized i
    → (serialize i >>= λ s. deserialize s j) ≡ ok (record j { chunks = overlay i.chunks j.chunks })
input_round_trip i j h = rw (serialize-layout i) (rw append-nil at (deserialize-layout i j [] h))
