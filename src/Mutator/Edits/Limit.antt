-- ===== src/Mutator/Edits/Limit.antt =====
-- The mutators that insert bytes, and CrossOver, return and keep a chunk within the length limit that
-- they are given.
use Prim.Native.String.{String}
use vfuzz.Prelude.{
  ℕ, zero, suc, ◌+◌, ◌-◌, ◌%◌, ◌^◌, ◌≤◌, ◌<◌, ◌≡◌, refl, ap, Bool, true, false, inl, inr, [], ◌∷◌,
  ◌++◌, length, take, drop, replicate, is_empty, leb, ltb, ◌==◌, if◌then◌else◌, ok, arith,
  length-append, length-take, length-drop, length-replicate, Bool-cases, leb→lt, ltb→le, Option,
  none, some,
}
use vfuzz.Codec.Words.{Chunk, IsU64}
use vfuzz.Util.Rand.{below, below_wrapped, below_lt, below_le, rand_bool}
use vfuzz.Util.History.{Text}
use vfuzz.Util.World.{World, M, ◌>>=◌, run, add_history}
use vfuzz.Mutator.Base.{Host, copy_part_of, insert_part_of}
use vfuzz.Mutator.Base.Parts.{
  segment, overwrite, memcpy_from-segment, memcpy_to-overwrite, length-segment, length-overwrite,
  random_range-Returns, copy_part_of-Returns,
}
use vfuzz.Mutator.Base.Inserting.{split-IsRoom, insert_part_of-Returns}
use vfuzz.Mutator.Edits.{
  insert_at, random_bytes, copy_part_impl, cross_over_impl, erase_bytes_impl, insert_byte_impl,
  insert_all, insert_dictionary_impl, insert_repeated_bytes_impl, random_impl,
}

-- The call returns, and with a chunk within the limit.
abbrev pub Returns : ℕ → M (Chunk × Chunk) → World → Type 0
Returns max m w =
    (out inserted : Chunk) × (w' : World) × (m w ≡ ok ((out, inserted), w')) × (length out ≤ max)

-- The conduit gives a chunk, whatever the state.
abbrev pub Fetches : (ℕ → M Chunk) → Type 0
Fetches conduit = (gid : ℕ) (w : World) → (c : Chunk) × (w' : World) × (conduit gid w ≡ ok (c, w'))

pub add_history-Returns :
    (gid : ℕ) (name desc : Text) (w : World)
    → (w' : World) × (add_history gid name desc w ≡ ok (tt, w'))
unfolding add_history
add_history-Returns gid name desc w = go w.history
  where
    go :
        (h : Option vfuzz.Util.History.History)
        → (w' : World) × (add_history gid name desc (record w { history = h }) ≡ ok (tt, w'))
    go none = (_, refl)
    go (some h) = (_, refl)

-- A mutator may log before it returns.
pub logged :
    (max gid : ℕ) (name desc : Text) (out inserted : Chunk) (w : World)
    → length out ≤ max
    → Returns max (add_history gid name desc >>= λ _ w. ok ((out, inserted), w)) w
logged max gid name desc out inserted w h =
    let (w', e) = add_history-Returns gid name desc w in (out, inserted, w', rw (e, ◌>>=◌), h)

-- On every chunk within the length limit EraseBytes returns, and gives a chunk within the limit.
erase_bytes-Returns :
    (host : Host) (gid : ℕ) (input insert : Chunk) (max : ℕ) (w : World)
    → length input ≤ max
    → Returns max (erase_bytes_impl host gid input insert max) w
unfolding erase_bytes_impl
erase_bytes-Returns host gid input insert max w h =
    let (first, count, w', drawn, range) = random_range-Returns (length input) w in
    let size = length-segment first count input range in
    rw (drawn, ◌>>=◌)
      (rw (memcpy_from-segment input first count range, run, ◌>>=◌)
        (logged max gid _ _ (segment first count input) insert w' (omega arith)))

-- On every chunk within the length limit InsertByte returns, and gives a chunk within the limit.
insert_byte-Returns :
    (host : Host) (gid : ℕ) (input insert : Chunk) (max : ℕ) (w : World)
    → length input ≤ max
    → Returns max (insert_byte_impl host gid input insert max) w
unfolding insert_byte_impl insert_at
insert_byte-Returns host gid input insert max w h = elim (Bool-cases (length input == max)) [
  | inl full ↦ rw full (input, insert, w, refl, h)
  | inr room ↦ rw room (
      let b = (below 256 w.rand).0 in
      let w' = record w { rand = (below (length input) (below 256 w.rand).1).1 } in
      let pos = (below (length input) (below 256 w.rand).1).0 in
      let spare : length input < max = ground arith in
      logged max gid _ _ (insert_at input pos b) (insert ++ (b ∷ [])) w' (
        omega (
          arith,
          length-append (take pos input) (b ∷ drop pos input),
          length-take pos input,
          length-drop pos input,
          below_le (length input) (below 256 w.rand).1,
        )))
]

length-insert_at :
    (c : Chunk) (pos b : ℕ) → pos ≤ length c → length (insert_at c pos b) ≡ suc (length c)
unfolding insert_at
length-insert_at c pos b h =
    omega (arith, length-append (take pos c) (b ∷ drop pos c), length-take pos c, length-drop pos c)

pub length-insert_all :
    (pos : ℕ) (bytes c : Chunk)
    → pos ≤ length c
    → length (insert_all pos bytes c) ≡ length c + length bytes
unfolding insert_all
length-insert_all pos [] c h = omega arith
length-insert_all pos (b ∷ bytes) c h =
    let grown = length-insert_at c pos b h in
    omega (arith, length-insert_all pos bytes (insert_at c pos b) (omega arith))

pub random_bytes-Returns :
    (n : ℕ) (w : World)
    → (bytes : Chunk) × (w' : World) × (random_bytes n w ≡ ok (bytes, w')) × (length bytes ≡ n)
unfolding random_bytes
random_bytes-Returns zero w = ([], w, refl, refl)
random_bytes-Returns (suc n) w =
    let (bytes, w', e, len) = random_bytes-Returns n (record w { rand = (below 256 w.rand).1 }) in
    ((below 256 w.rand).0 ∷ bytes, w', rw (e, ◌>>=◌), ap suc len)

-- On every chunk within the length limit Random returns, and gives a chunk within the limit.
random-Returns :
    (host : Host) (gid : ℕ) (input insert : Chunk) (max : ℕ) (w : World)
    → length input ≤ max
    → Returns max (random_impl host gid input insert max) w
unfolding random_impl
random-Returns host gid input insert max w h =
    let drawn = (below ((max + 1) % 2 ^ 64) w.rand).0 in
    let size = if drawn == 0 then 1 else drawn in
    let (bytes, w', e, len) =
      random_bytes-Returns size (record w { rand = (below ((max + 1) % 2 ^ 64) w.rand).1 }) in
    elim (Bool-cases (ltb max size)) [
      | inl large ↦ rw large (input, insert, _, refl, h)
      | inr fits ↦
          rw fits (
            rw (e, ◌>>=◌) (logged max gid _ _ bytes bytes w' (omega (arith, ltb→le max size fits))))
    ]

-- On every chunk within the length limit InsertRepeatedBytes returns, and gives a chunk within the limit.
pub insert_repeated_bytes-Returns :
    (host : Host) (gid : ℕ) (input insert : Chunk) (max : ℕ) (w : World)
    → length input ≤ max
    → Returns max (insert_repeated_bytes_impl host gid input insert max) w
unfolding insert_repeated_bytes_impl
insert_repeated_bytes-Returns host gid input insert max w h =
    elim (Bool-cases (leb max (length input))) [
      | inl full ↦ rw full (input, insert, w, refl, h)
      | inr spare ↦
          let less = leb→lt max (length input) spare in
          let r = (below (length input + 1) w.rand).1 in
          let pos = (below (length input + 1) w.rand).0 in
          let pos_lt = below_lt (length input + 1) w.rand (omega arith) in
          let count = (below ((max - length input + 1) % 2 ^ 64) r).0 in
          let count_lt = below_wrapped (max - length input) r in
          let r' = (below ((max - length input + 1) % 2 ^ 64) r).1 in
          let b = (below 256 r').0 in
          let (room, parted, is_room) = split-IsRoom input pos count (omega arith) in
          let room_size : length room ≡ length input + count = is_room.size in
          let bytes : Chunk = replicate count b in
          let bytes_size : length bytes ≡ count = length-replicate count b in
          let fits : pos + length bytes ≤ length room = omega arith in
          rw spare (
            rw (parted, run, ◌>>=◌)
              (rw (memcpy_to-overwrite room bytes pos fits, run, ◌>>=◌)
                (logged max gid _ _ (overwrite pos bytes room) bytes
                  (record w { rand = (below 256 r').1 })
                  (omega (arith, length-overwrite pos bytes room fits)))))
    ]

insert_part_of_full :
    (aliased : Bool) (dest src : Chunk) (max : ℕ) (insert : Chunk) (w : World)
    → leb max (length dest) ≡ true
    → insert_part_of aliased dest src max insert w ≡ ok ((dest, insert), w)
unfolding insert_part_of
insert_part_of_full aliased dest src max insert w full = rw full refl

part_of-Keeps :
    (aliased over : Bool) (input src insert : Chunk) (max : ℕ) (w : World)
    → length input ≤ max
    → (aliased ≡ true → src ≡ input)
    → Returns max
        (if over
          then copy_part_of aliased input src
          else insert_part_of aliased input src max insert)
        w
part_of-Keeps aliased true input src insert max w h same =
    let (result, inserted, w', e, size, _) = copy_part_of-Returns aliased input src w same in
    (result, inserted, w', e, omega arith)
part_of-Keeps aliased false input src insert max w h same =
    elim (Bool-cases (leb max (length input))) [
      | inl full ↦ (input, insert, w, insert_part_of_full aliased input src max insert w full, h)
      | inr spare ↦
          let (result, inserted, w', e, _, size, _) =
            insert_part_of-Returns aliased input src max insert w (leb→lt max (length input) spare)
              same in
          (result, inserted, w', e, size)
    ]

-- On every chunk within the length limit CopyPart returns, and gives a chunk within the limit.
copy_part-Returns :
    (host : Host) (gid : ℕ) (input insert : Chunk) (max : ℕ) (w : World)
    → length input ≤ max
    → Returns max (copy_part_impl host gid input insert max) w
unfolding copy_part_impl
copy_part-Returns host gid [] insert max w h = ([], insert, w, refl, h)
copy_part-Returns host gid (b ∷ input) insert max w h =
    let c : Chunk = b ∷ input in
    let w1 = record w { rand = (rand_bool w.rand).1 } in
    let (result, inserted, w', e, size) =
      part_of-Keeps true (rand_bool w.rand).0 c c insert max w1 h (λ _. refl) in
    rw (e, ◌>>=◌) (logged max gid _ _ result inserted w' size)

-- Where its conduit gives a chunk, CrossOver returns on every chunk within the length limit, and
-- gives a chunk within it.
cross_over-Returns :
    (host : Host) (conduit : ℕ → M Chunk)
    → Fetches conduit
    → (gid : ℕ) (input insert : Chunk) (max : ℕ) (w : World) → length input ≤ max
    → Returns max (cross_over_impl host conduit gid input insert max) w
unfolding cross_over_impl
cross_over-Returns host conduit f gid [] insert max w h = ([], insert, w, refl, h)
cross_over-Returns host conduit f gid (b ∷ input) insert max w h =
    let c : Chunk = b ∷ input in
    let (other, w', fetched) = f gid w in
    rw (fetched, ◌>>=◌)
      (elim (Bool-cases (is_empty other)) [
        | inl nothing ↦ rw (nothing, ◌>>=◌) (logged max gid _ _ c insert w' h)
        | inr some_bytes ↦
            let w1 = record w' { rand = (rand_bool w'.rand).1 } in
            let (result, inserted, w2, e, size) =
              part_of-Keeps false (rand_bool w'.rand).0 c other insert max w1 h (λ h. absurd cc) in
            rw (some_bytes, ◌>>=◌) (rw (e, ◌>>=◌) (logged max gid _ _ result inserted w2 size))
      ])

-- Where its conduit gives a chunk and the length limit is a 64-bit number, InsertDictionary returns on
-- every chunk within the limit, and gives a chunk within it.
insert_dictionary-Returns :
    (host : Host) (name : String) (conduit : ℕ → M Chunk)
    → Fetches conduit
    → (gid : ℕ) (input insert : Chunk) (max : ℕ) (w : World) → IsU64 max
    → length input ≤ max
    → Returns max (insert_dictionary_impl host name conduit gid input insert max) w
unfolding insert_dictionary_impl
insert_dictionary-Returns host name conduit f gid input insert max w u h =
    let room = (max + 2 ^ 64 - length input) % 2 ^ 64 in
    let exact : room ≡ max - length input = omega arith in
    let (found, w', fetched) = f gid w in
    elim (Bool-cases (room == 0)) [
      | inl full ↦ rw full (input, insert, w, refl, h)
      | inr spare ↦ rw spare (
          rw (fetched, ◌>>=◌)
            (elim (Bool-cases (ltb room (length found))) [
              | inl large ↦ rw large (input, insert, w', refl, h)
              | inr fits ↦ rw fits (elim (Bool-cases (is_empty found)) [
                | inl nothing ↦ rw nothing (input, insert, w', refl, h)
                | inr some_bytes ↦ rw some_bytes (
                    let pos = (below (length input) w'.rand).0 in
                    let pos_le = below_le (length input) w'.rand in
                    let w'' = record w' { rand = (below (length input) w'.rand).1 } in
                    let le = ltb→le room (length found) fits in
                    let size = length-insert_all pos found input (omega arith) in
                    logged max gid _ _ (insert_all pos found input) found w'' (omega arith))
              ])
            ]))
    ]
