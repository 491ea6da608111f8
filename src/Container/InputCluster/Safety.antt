-- ===== src/Container/InputCluster/Safety.antt =====
-- InputCluster::Deserialize on any bytes.
use vfuzz.Prelude.{
  ℕ, zero, suc, ◌≡◌, Bool, true, false, inl, inr, Bool-cases, if◌then◌else◌, Result, ok, err,
  deserialization, IsSafe, >>=-IsSafe, >>=-eq-ok, arith,
}
use vfuzz.OrdMap.{contains}
use vfuzz.OrdMap.Laws.{IsSorted, insert-IsSortedFrom}
use vfuzz.Codec.Words.{Chunk}
use vfuzz.Codec.Cursor.{
  Cursor, start, IsInside, read_u64, read_bytes, read_u64-IsSafe, read_bytes-IsSafe,
  read_u64-IsInside, read_bytes-IsInside, start-IsAt,
}
use vfuzz.Container.Input.{fresh}
use vfuzz.Container.Input.Serial
use vfuzz.Container.Input.Safety
use vfuzz.Container.InputCluster.{InputCluster, have_gid, set_input}
use vfuzz.Container.InputCluster.Serial.{read_inputs, deserialize}

read_inputs-IsSafe :
    (s : Chunk) (left : ℕ) (c : Cursor) (ic : InputCluster)
    → IsInside s c
    → IsSafe (read_inputs s left c ic)
unfolding read_inputs
read_inputs-IsSafe s zero c ic h = tt
read_inputs-IsSafe s (suc left) c ic h =
    >>=-IsSafe (read_u64 s c) _ (read_u64-IsSafe s c h) λ (gid, d) word.
      elim (Bool-cases (contains gid ic.cluster)) [
        | inl known ↦ rw known tt
        | inr free ↦
            let inside = read_u64-IsInside s c word h in
            rw free (
              >>=-IsSafe (read_u64 s d) _ (read_u64-IsSafe s d inside) λ (n, e) word2.
                let inside2 = read_u64-IsInside s d word2 inside in
                >>=-IsSafe (read_bytes s n e) _ (read_bytes-IsSafe s n e inside2) λ (body, f) got.
                  >>=-IsSafe (Serial.deserialize body fresh) _
                    (Safety.input_deserialize-IsSafe body fresh)
                    λ i _.
                      read_inputs-IsSafe s left f (set_input gid i ic)
                        (read_bytes-IsInside s n e got inside2))
      ]

-- On every vector of bytes Deserialize returns or throws DeserializationException: no memcpy of it, nor of the
-- inputs' own Deserialize, reads outside its vector.
pub cluster_deserialize-IsSafe : (s : Chunk) (ic : InputCluster) → IsSafe (deserialize s ic)
unfolding deserialize
cluster_deserialize-IsSafe s ic =
    >>=-IsSafe (read_u64 s (start s)) _ (read_u64-IsSafe s (start s) (start-IsAt s).inside)
      λ (total, c) word.
        read_inputs-IsSafe s total c ic (read_u64-IsInside s (start s) word (start-IsAt s).inside)

not_refused {ℓ} :
    {A : Type ℓ} (known : Bool) (m : Result A) {a : A}
    → (if known then err deserialization else m) ≡ ok a
    → m ≡ ok a
not_refused true m h = cc
not_refused false m h = h

read_inputs-IsSorted :
    (s : Chunk) (left : ℕ) (c : Cursor) (ic jc : InputCluster)
    → IsSorted ic.cluster
    → read_inputs s left c ic ≡ ok jc
    → IsSorted jc.cluster
unfolding read_inputs set_input
read_inputs-IsSorted s zero c ic jc h r = ground (arith, h)
read_inputs-IsSorted s (suc left) c ic jc h r =
    let ((gid, d), word, r1) = >>=-eq-ok (read_u64 s c) _ r in
    let ((n, e), word2, r2) = >>=-eq-ok (read_u64 s d) _ (not_refused (have_gid gid ic) _ r1) in
    let ((body, f), got, r3) = >>=-eq-ok (read_bytes s n e) _ r2 in
    let (i, made, r4) = >>=-eq-ok (Serial.deserialize body fresh) _ r3 in
    read_inputs-IsSorted s left f (set_input gid i ic) jc
      (insert-IsSortedFrom 0 gid i ic.cluster (omega arith) h) r4

-- Where Deserialize returns for a cluster whose map is in order, the map is in order after it.
cluster_deserialize-IsSorted :
    (s : Chunk) (ic jc : InputCluster)
    → IsSorted ic.cluster
    → deserialize s ic ≡ ok jc
    → IsSorted jc.cluster
unfolding deserialize
cluster_deserialize-IsSorted s ic jc h r =
    let ((total, c), word, r1) = >>=-eq-ok (read_u64 s (start s)) _ r in
    read_inputs-IsSorted s total c ic jc h r1
