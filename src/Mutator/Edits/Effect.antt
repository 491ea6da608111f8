-- ===== src/Mutator/Edits/Effect.antt =====
-- What the mutators leave, byte by byte: the range that EraseBytes keeps, the order in which
-- InsertDictionary inserts, and the bytes that ShuffleBytes holds.
use Prim.Native.String.{String}
use mathlib.Core.List.{Permᴰ}
use mathlib.Core.List.Permᴰ
use mathlib.Core.List.{reverse-cons}
use mathlib.Core.Path.{subst}
use vfuzz.Prelude.{
  ℕ, suc, ◌+◌, ◌-◌, ◌%◌, ◌^◌, ◌≤◌, ◌<◌, ◌≡◌, refl, sym, ap, ◌∙◌, false, [], ◌∷◌, ◌++◌, length, take,
  drop, reverse, is_empty, ltb, ◌==◌, ok, arith, length-append, length-take, append_assoc,
  take-append_eq, drop-append_eq, take-append-drop,
}
use vfuzz.Codec.Words.{Chunk, IsU64}
use vfuzz.Util.Rand.{Rand, below, below_le}
use vfuzz.Util.Text.{codes, byte_to_hex_string, to_hex_string}
use vfuzz.Util.World.{World, M, ◌>>=◌, run}
use vfuzz.Mutator.Base.{random_range, Host}
use vfuzz.Mutator.Base.Parts.{
  segment, segment_parts, overwrite, memcpy_from-segment, memcpy_to-overwrite, length-segment,
  random_range-Returns,
}
use vfuzz.Mutator.Edits.{
  insert_at, erase_bytes_impl, insert_all, dictionary_name, insert_dictionary_impl,
  shuffle_bytes_impl,
}
use vfuzz.Mutator.Edits.Limit.{add_history-Returns}

-- EraseBytes returns the range of its input that RandomRange draws, which lies inside it, and drops
-- every byte outside the range; what counts as inserted stays.
pub erase_bytes_keeps_range :
    (host : Host) (gid : ℕ) (input insert : Chunk) (max : ℕ) (w : World)
    → (first count : ℕ) × (w1 w' : World) × (random_range (length input) w
        ≡ ok ((first, count), w1))
      × (first + count ≤ length input)
      × (erase_bytes_impl host gid input insert max w
          ≡ ok ((segment first count input, insert), w'))
unfolding erase_bytes_impl
erase_bytes_keeps_range host gid input insert max w =
    let (first, count, w1, drawn, range) = random_range-Returns (length input) w in
    let (w2, noted) =
      add_history-Returns gid (codes "EraseBytes") (byte_to_hex_string host.hex 0) w1 in
    (
      first,
      count,
      w1,
      w2,
      drawn,
      range,
      rw (drawn, ◌>>=◌)
          (rw (memcpy_from-segment input first count range, run, ◌>>=◌) (rw (noted, ◌>>=◌))),
    )

-- Inserting one byte after another at one position turns them round.
pub insert_all-reverse :
    (pos : ℕ) (bytes c : Chunk)
    → pos ≤ length c
    → insert_all pos bytes c ≡ take pos c ++ (reverse bytes ++ drop pos c)
unfolding insert_all insert_at
insert_all-reverse pos [] c h = sym (take-append-drop pos c)
insert_all-reverse pos (b ∷ bytes) c h =
    let front = take pos c in
    let size : pos ≡ length front = omega (arith, length-take pos c) in
    let grown = front ++ (b ∷ drop pos c) in
    let room : pos ≤ length grown = omega (arith, length-append front (b ∷ drop pos c)) in
    insert_all-reverse pos bytes grown room
    ∙ rw (
      take-append_eq pos front (b ∷ drop pos c) size,
      drop-append_eq pos front (b ∷ drop pos c) size,
      reverse-cons,
      append_assoc,
    )

-- Where the length limit is a 64-bit number and the dictionary gives a chunk that is not empty
-- and fits in what the limit leaves, InsertDictionary puts its bytes at some position in reverse
-- order, and notes them as inserted in their own order.
pub insert_dictionary_reverses :
    (host : Host) (name : String) (conduit : ℕ → M Chunk) (gid : ℕ) (input insert found : Chunk)
    (max : ℕ) (w w1 : World)
    → conduit gid w ≡ ok (found, w1)
    → IsU64 max
    → 0 < length found
    → length input + length found ≤ max
    → (pos : ℕ) × (w2 : World) × (pos ≤ length input)
      × (insert_dictionary_impl host name conduit gid input insert max w
          ≡ ok ((take pos input ++ (reverse found ++ drop pos input), found), w2))
unfolding insert_dictionary_impl
insert_dictionary_reverses host name conduit gid input insert found max w w1 fetched u some_bytes
      fits =
    let room = (max + 2 ^ 64 - length input) % 2 ^ 64 in
    let exact : room ≡ max - length input = omega arith in
    let spare : (room == 0) ≡ false = ground arith in
    let small : ltb room (length found) ≡ false = ground arith in
    let filled : is_empty found ≡ false = not_empty found some_bytes in
    let pos = (below (length input) w1.rand).0 in
    let pos_le = below_le (length input) w1.rand in
    let (w2, noted) =
      add_history-Returns gid (dictionary_name name) (to_hex_string host.hex found)
        (record w1 { rand = (below (length input) w1.rand).1 }) in
    (
      pos,
      w2,
      pos_le,
      rw (spare, fetched, ◌>>=◌)
          (rw (small, filled) (rw (noted, ◌>>=◌) (rw (insert_all-reverse pos found input pos_le)))),
    )
  where
    not_empty : (c : Chunk) → 0 < length c → is_empty c ≡ false
    not_empty [] h = absurd (omega arith)
    not_empty (b ∷ c) h = refl

pub length-Perm : {c d : Chunk} → Permᴰ c d → length c ≡ length d
length-Perm Permᴰ.nil = refl
length-Perm (Permᴰ.cons e p) = ap suc (length-Perm p)
length-Perm (Permᴰ.swap e f) = refl
length-Perm (Permᴰ.trans p q) = length-Perm p ∙ length-Perm q

overwrite-Perm :
    (first count : ℕ) (c part : Chunk)
    → first + count ≤ length c
    → Permᴰ part (segment first count c)
    → Permᴰ (overwrite first part c) c
overwrite-Perm first count c part h p =
    let size : length part ≡ count = length-Perm p ∙ length-segment first count c h in
    subst (Permᴰ (overwrite first part c))
      (ap (λ k. take first c ++ (segment first count c ++ drop (first + k) c)) size
        ∙ segment_parts first count c)
      (Permᴰ.append_left (take first c) (Permᴰ.append_right (drop (first + length part) c) p))

-- Where std::shuffle permutes what it is given, ShuffleBytes returns a permutation of its input and
-- leaves what counts as inserted.
shuffle_bytes_permutes :
    (host : Host) (gid : ℕ) (input insert : Chunk) (max : ℕ) (w : World)
    → ((c : Chunk) (r : Rand) → Permᴰ (host.shuffle c r).0 c)
    → (out : Chunk) × (w' : World) × (shuffle_bytes_impl host gid input insert max w
        ≡ ok ((out, insert), w'))
      × Permᴰ out input
unfolding shuffle_bytes_impl
shuffle_bytes_permutes host gid [] insert max w permutes = ([], w, refl, Permᴰ.nil)
shuffle_bytes_permutes host gid (b ∷ bytes) insert max w permutes =
    let input : Chunk = b ∷ bytes in
    let (first, count, w1, drawn, range) = random_range-Returns (length input) w in
    let part = segment first count input in
    let part' = (host.shuffle part w1.rand).0 in
    let p = permutes part w1.rand in
    let size : length part' ≡ count = length-Perm p ∙ length-segment first count input range in
    let w2 = record w1 { rand = (host.shuffle part w1.rand).1 } in
    let (w3, noted) =
      add_history-Returns gid (codes "ShuffleBytes") (byte_to_hex_string host.hex 0) w2 in
    (
      overwrite first part' input,
      w3,
      rw (drawn, ◌>>=◌)
          (rw (memcpy_from-segment input first count range, run, ◌>>=◌)
            (rw (memcpy_to-overwrite input part' first (omega arith), run, ◌>>=◌)
              (rw (noted, ◌>>=◌)))),
      overwrite-Perm first count input part' range p,
    )
