-- ===== src/Container/InputCluster/RoundTrip.antt =====
-- InputCluster::Deserialize against the layout that InputCluster::Serialize writes.
use vfuzz.Prelude.{
  ℕ, suc, ◌≡◌, ap, ◌∙◌, false, [], ◌∷◌, ◌++◌, length, drop-nil, ok, ◌>>=◌, append_assoc, append-nil,
}
use vfuzz.OrdMap.{OrdMap, insert, contains}
use vfuzz.OrdMap.Laws.{IsSorted, IsSortedFrom, insert_end, contains_end}
use vfuzz.Codec.Words.{Chunk, IsU64, u64}
use vfuzz.Codec.Cursor.{Cursor, start, advance, IsAt, start-IsAt_eq, read_u64-IsAt, read_bytes-IsAt}
use vfuzz.Container.Input.{Input, fresh}
use vfuzz.Container.Input.Serial
use vfuzz.Container.Input.RoundTrip.{IsSized}
use vfuzz.Container.Input.RoundTrip
use vfuzz.Container.InputCluster.{InputCluster, empty}
use vfuzz.Container.InputCluster.Serial.{
  read_inputs, deserialize, inputs_layout, layout, serialize, serialize-layout,
}

-- What of an input is serialized: its chunks.
abbrev pub bare : Input → Input
bare i = record fresh { chunks = i.chunks }

abbrev pub bare_inputs : OrdMap Input → OrdMap Input
bare_inputs [] = []
bare_inputs ((gid, i) ∷ m) = (gid, bare i) ∷ bare_inputs m

-- Numbers and sizes that a uint64_t holds.
abbrev pub AreSized : OrdMap Input → Type 0
AreSized [] = Unit {0}
AreSized ((gid, i) ∷ m) = (IsU64 gid × IsSized i × IsU64 (length (Serial.layout i))) × AreSized m

deserialize-bare :
    (i : Input) → IsSized i → Serial.deserialize (Serial.layout i) fresh ≡ ok (bare i)
deserialize-bare i h =
    let e : RoundTrip.overlay i.chunks [] ≡ i.chunks = rw (drop-nil, append-nil) in
    rw append-nil at (RoundTrip.deserialize-layout i fresh [] h)
    ∙ ap (λ cs. ok (record fresh { chunks = cs })) e

IsSortedFrom-replace :
    (b k : ℕ) (v x : Input) (done m : OrdMap Input)
    → IsSortedFrom b (done ++ ((k, v) ∷ m))
    → IsSortedFrom b ((done ++ ((k, x) ∷ [])) ++ m)
IsSortedFrom-replace b k v x [] m s = s
IsSortedFrom-replace b k v x ((j, w) ∷ done) m s =
    (s.0, IsSortedFrom-replace (suc j) k v x done m s.1)

read_inputs-layout :
    (m : OrdMap Input) (s : Chunk) (c : Cursor) (rest : Chunk) (ic : InputCluster)
    → AreSized m
    → IsSorted (ic.cluster ++ m)
    → IsAt s c (inputs_layout m ++ rest)
    → read_inputs s (length m) c ic ≡ ok (record ic { cluster = ic.cluster ++ bare_inputs m })
unfolding read_inputs inputs_layout
read_inputs-layout [] s c rest ic h sorted a = rw append-nil
read_inputs-layout ((gid, i) ∷ m) s c rest ic h sorted a =
    let body = Serial.layout i in
    let (word1, a1) = read_u64-IsAt s c gid _ h.0.0 (rw append_assoc at a) in
    let (word2, a2) = read_u64-IsAt s (advance c 8) (length body) _ h.0.2 (rw append_assoc at a1) in
    let (bytes, a3) = read_bytes-IsAt s _ body _ (rw append_assoc at a2) in
    let ic' = record ic { cluster = ic.cluster ++ ((gid, bare i) ∷ []) } in
    let free : contains gid ic.cluster ≡ false = contains_end 0 gid i ic.cluster m sorted in
    let added : insert gid (bare i) ic.cluster ≡ ic'.cluster =
      insert_end 0 gid i (bare i) ic.cluster m sorted in
    rw (word1, free, word2, bytes, deserialize-bare i h.0.1, added)
      (read_inputs-layout m s _ rest ic' h.1
          (IsSortedFrom-replace 0 gid i (bare i) ic.cluster m sorted) a3
        ∙ rw append_assoc)

-- A serialized cluster is read back into an empty one, whatever bytes follow it: its inputs have
-- their generators and their chunks again, and no record of mutators and insertions.
pub deserialize-layout :
    (c : InputCluster) (max_chunks max_chunk_len : ℕ) (rest : Chunk)
    → IsU64 (length c.cluster)
    → AreSized c.cluster
    → IsSorted c.cluster
    → deserialize (layout c ++ rest) (empty max_chunks max_chunk_len)
      ≡ ok (record (empty max_chunks max_chunk_len) { cluster = bare_inputs c.cluster })
unfolding deserialize layout
deserialize-layout c max_chunks max_chunk_len rest h sized sorted =
    let s = layout c ++ rest in
    let (word, a) =
      read_u64-IsAt s (start s) (length c.cluster) _ h (
        start-IsAt_eq s _ (append_assoc (u64 (length c.cluster)) (inputs_layout c.cluster) rest)) in
    rw word (
      read_inputs-layout c.cluster s (advance (start s) 8) rest (empty max_chunks max_chunk_len)
        sized sorted a)

-- A serialized cluster whose sizes fit in 64 bits and whose map is in order is read back into an
-- empty cluster: its inputs have their generators and their chunks again.
pub cluster_round_trip :
    (c : InputCluster) (max_chunks max_chunk_len : ℕ)
    → IsU64 (length c.cluster)
    → AreSized c.cluster
    → IsSorted c.cluster
    → (serialize c >>= λ s. deserialize s (empty max_chunks max_chunk_len))
      ≡ ok (record (empty max_chunks max_chunk_len) { cluster = bare_inputs c.cluster })
cluster_round_trip c max_chunks max_chunk_len h sized sorted =
    rw (serialize-layout c)
      (rw append-nil at (deserialize-layout c max_chunks max_chunk_len [] h sized sorted))
