-- ===== src/Codec/Buffer.antt =====
-- Writing: the vector that the Serialize functions size beforehand, the position that they keep,
-- and memcpy into it, which is a fault if it leaves the vector.
use vfuzz.Prelude.{
  ℕ, zero, suc, ◌+◌, ◌≡◌, sym, ap, ◌∙◌, ◌++◌, length, take, drop, replicate, leb, if◌then◌else◌,
  le→leb, true, Result, ok, err, fault, ◌>>=◌, arith, length-append, length-replicate, take-append,
  drop-append, drop-drop, append_assoc,
}
use vfuzz.Codec.Words.{Chunk}

pub record Writer : Type 0 where
  pub buffer : Chunk
  pub pos : ℕ

-- `ret.resize(n)` on the empty vector, and `pos = 0`
abbrev pub sized : ℕ → Writer
sized n = record { buffer = replicate n 0; pos = 0 }

unfoldable pub memcpy_to : Chunk → ℕ → Chunk → Result Chunk
memcpy_to buffer pos bytes =
    if leb (pos + length bytes) (length buffer)
    then ok (take pos buffer ++ (bytes ++ drop (pos + length bytes) buffer))
    else err fault

-- `memcpy(&(ret[pos]), ...); pos += ...`
unfoldable pub write : Chunk → Writer → Result Writer
unfolding memcpy_to
write bytes w = do
  buffer ← memcpy_to w.buffer w.pos bytes
  ok (record { buffer = buffer; pos = w.pos + length bytes })

-- `done` is written, and `room` bytes are left.
abbrev pub filled : Chunk → ℕ → Writer
filled done room = record { buffer = done ++ replicate room 0; pos = length done }

drop-replicate : (n m : ℕ) → drop n (replicate (n + m) 0) ≡ replicate {A = ℕ} m 0
drop-replicate zero m = ap (λ k. replicate {A = ℕ} k 0) (omega arith)
drop-replicate (suc n) m =
    let e : suc n + m ≡ suc (n + m) = omega arith in rw e (drop-replicate n m)

-- A write into a vector with room for it appends.
pub write-filled :
    (bytes done : Chunk) (room : ℕ)
    → write bytes (filled done (length bytes + room)) ≡ ok (filled (done ++ bytes) room)
unfolding write memcpy_to
write-filled bytes done room =
    let n = length bytes in
    let zeros : Chunk = replicate (n + room) 0 in
    let fits : leb (length done + n) (length (done ++ zeros)) ≡ true =
      le→leb _ _ (omega (arith, length-append done zeros, length-replicate {A = ℕ} (n + room) 0)) in
    let tail : drop (length done + n) (done ++ zeros) ≡ replicate room 0 =
      sym (drop-drop (length done) n (done ++ zeros))
      ∙ rw (drop-append done zeros) (drop-replicate n room) in
    rw (fits, take-append done zeros, tail, append_assoc, length-append)
