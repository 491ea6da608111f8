-- ===== src/Container/Input/Edit.antt =====
-- The operations of Input that read and change chunks.
use vfuzz.Prelude.{
  ℕ, zero, suc, ◌+◌, ◌-◌, ◌≤◌, ◌<◌, ◌≡◌, ◌≢◌, inl, inr, refl, sym, ap, ◌∙◌, false, List, [], ◌∷◌,
  ◌++◌, length, get_or, set, take, leb, ltb, if◌then◌else◌, min, ok, arith, length-append,
  length-take, Bool-cases, append_assoc, append-nil, leb→lt, ltb→le, tests,
}
use vfuzz.Codec.Words.{Chunk}
use vfuzz.Util.Rand.{below, below_lt}
use vfuzz.Util.World.{World, ◌>>=◌}
use vfuzz.Container.Input.{
  Input, get_chunk, get_random, put, set_chunk, size, push_random, expand_chunk, crop_chunk,
}

get_or-end : (cs : List Chunk) (c : Chunk) → get_or (cs ++ (c ∷ [])) (length cs) [] ≡ c
get_or-end [] c = refl
get_or-end (x ∷ cs) c = get_or-end cs c

get_or-before :
    (cs : List Chunk) (c : Chunk) (j : ℕ)
    → j < length cs
    → get_or (cs ++ (c ∷ [])) j [] ≡ get_or cs j []
get_or-before [] c j h = elim h [ ]
get_or-before (x ∷ cs) c zero h = refl
get_or-before (x ∷ cs) c (suc j) h = get_or-before cs c j (omega arith)

get_or-set_self :
    (cs : List Chunk) (c : Chunk) (k : ℕ) → k < length cs → get_or (set cs k c) k [] ≡ c
get_or-set_self [] c k h = elim h [ ]
get_or-set_self (x ∷ cs) c zero h = refl
get_or-set_self (x ∷ cs) c (suc k) h = get_or-set_self cs c k (omega arith)

get_or-set_ne :
    (cs : List Chunk) (c : Chunk) (k j : ℕ) → k ≢ j → get_or (set cs k c) j [] ≡ get_or cs j []
get_or-set_ne [] c k j h = refl
get_or-set_ne (x ∷ cs) c zero zero h = absurd (h refl)
get_or-set_ne (x ∷ cs) c zero (suc j) h = refl
get_or-set_ne (x ∷ cs) c (suc k) zero h = refl
get_or-set_ne (x ∷ cs) c (suc k) (suc j) h = get_or-set_ne cs c k j (omega arith)

length-set_chunks : (cs : List Chunk) (k : ℕ) (c : Chunk) → length (set cs k c) ≡ length cs
length-set_chunks [] k c = refl
length-set_chunks (x ∷ cs) zero c = refl
length-set_chunks (x ∷ cs) (suc k) c = ap suc (length-set_chunks cs k c)

get_or_past : (cs : List Chunk) (j : ℕ) → length cs ≤ j → get_or cs j [] ≡ []
get_or_past [] j h = refl
get_or_past (x ∷ cs) zero h = absurd (omega arith)
get_or_past (x ∷ cs) (suc j) h = get_or_past cs j (omega arith)

get_chunk-get_or : (i : Input) (j : ℕ) → get_chunk i j ≡ get_or i.chunks j []
unfolding get_chunk
get_chunk-get_or i j = ground (arith, get_or_past i.chunks j)

get_or-end_ne :
    (cs : List Chunk) (c : Chunk) (j : ℕ)
    → j ≢ length cs
    → get_or (cs ++ (c ∷ [])) j [] ≡ get_or cs j []
get_or-end_ne [] c zero h = absurd (h refl)
get_or-end_ne [] c (suc j) h = refl
get_or-end_ne (x ∷ cs) c zero h = refl
get_or-end_ne (x ∷ cs) c (suc j) h = get_or-end_ne cs c j (λ e. h (ap suc e))

-- The slot that Set writes: the index, or the end if the index lies past it.
abbrev pub slot : ℕ → Input → ℕ
slot index i = min index (size i)

pub put-get_or :
    (cs : List Chunk) (index j : ℕ) (c : Chunk)
    → (get_or (put cs index c) (min index (length cs)) [] ≡ c)
      × (j ≢ min index (length cs) → get_or (put cs index c) j [] ≡ get_or cs j [])
      × (length (put cs index c) ≡ (if leb (length cs) index then length cs + 1 else length cs))
unfolding put
put-get_or cs index j c = elim (Bool-cases (leb (length cs) index)) [
  | inl past ↦
      let e : min index (length cs) ≡ length cs = omega (tests, past) in
      rw (past, e) (get_or-end cs c, get_or-end_ne cs c j, length-append cs (c ∷ []))
  | inr before ↦
      let e : min index (length cs) ≡ index = omega (tests, before) in
      rw (before, e)
        (
          get_or-set_self cs c index (leb→lt _ _ before),
          λ h. get_or-set_ne cs c index j (λ k. h (sym k)),
          length-set_chunks cs index c,
        )
]

-- Set puts the chunk into its slot, leaves the other chunks as they were, and adds a chunk only
-- past the end.
pub get_chunk-set_chunk :
    (index j : ℕ) (c : Chunk) (i : Input)
    → (get_chunk (set_chunk index c i) (slot index i) ≡ c)
      × (j ≢ slot index i → get_chunk (set_chunk index c i) j ≡ get_chunk i j)
      × (size (set_chunk index c i) ≡ (if leb (size i) index then size i + 1 else size i))
unfolding set_chunk
get_chunk-set_chunk index j c i =
    let (own, other, count) = put-get_or i.chunks index j c in
    (
      get_chunk-get_or _ _ ∙ own,
      λ h. get_chunk-get_or _ _ ∙ other h ∙ sym (get_chunk-get_or i j),
      count,
    )

pub push_random-Returns :
    (n : ℕ) (c : Chunk) (w : World)
    → (tail : Chunk) × (w' : World) × (push_random n c w ≡ ok (c ++ tail, w')) × (length tail ≡ n)
unfolding push_random
push_random-Returns zero c w = ([], w, rw append-nil, refl)
push_random-Returns (suc n) c w =
    let (byte, r) = below 256 w.rand in
    let (tail, w', e, len) = push_random-Returns n (c ++ (byte ∷ [])) (record w { rand = r }) in
    (byte ∷ tail, w', e ∙ rw append_assoc, ap suc len)

-- Where the index has a slot, ExpandChunk returns, keeps the bytes of the chunk and adds as many
-- as it lacks to the length asked for.
pub expand_chunk-Returns :
    (index min : ℕ) (i : Input) (w : World)
    → index ≤ size i
    → (tail : Chunk) × (j : Input) × (w' : World) × (expand_chunk index min i w ≡ ok (j, w'))
      × (get_chunk j index ≡ get_chunk i index ++ tail)
      × (length tail ≡ min - length (get_chunk i index))
unfolding expand_chunk
expand_chunk-Returns index min i w h = elim (Bool-cases (ltb (length (get_chunk i index)) min)) [
  | inl short ↦
      let c = get_chunk i index in
      let (tail, w', e, len) = push_random-Returns (min - length c) c w in
      let j = set_chunk index (c ++ tail) i in
      let here : slot index i ≡ index = omega arith in
      let own : get_chunk j index ≡ c ++ tail =
        rw here at (get_chunk-set_chunk index index (c ++ tail) i).0 in
      (tail, j, w', rw short (rw (e, ◌>>=◌)), own, len)
  | inr long ↦ ([], i, w, rw long, rw append-nil, omega (tests, long))
]

take_all : (n : ℕ) (c : Chunk) → length c ≤ n → take n c ≡ c
take_all zero [] h = refl
take_all zero (b ∷ c) h = absurd (omega arith)
take_all (suc n) [] h = refl
take_all (suc n) (b ∷ c) h = ap (◌∷◌ b) (take_all n c (omega arith))

pub chunk_inside : (i : Input) (index : ℕ) → 0 < length (get_chunk i index) → index < size i
unfolding get_chunk
chunk_inside i index h = ground arith

-- Cropping keeps the first `max` bytes of the chunk, and touches no other chunk.
pub crop_chunk-take :
    (index max j : ℕ) (i : Input)
    → (get_chunk (crop_chunk index max i) index ≡ take max (get_chunk i index))
      × (j ≢ index → get_chunk (crop_chunk index max i) j ≡ get_chunk i j)
      × (size (crop_chunk index max i) ≡ size i)
unfolding crop_chunk
crop_chunk-take index max j i = elim (Bool-cases (ltb max (length (get_chunk i index)))) [
  | inl long ↦
      let c = take max (get_chunk i index) in
      let inside = chunk_inside i index (omega (tests, long)) in
      let here : slot index i ≡ index = omega arith in
      let (own, other, count) = get_chunk-set_chunk index j c i in
      let fits : leb (size i) index ≡ false = ground arith in
      rw long (rw here at own, rw here at other, count ∙ rw fits)
  | inr short ↦ rw short (sym (take_all max _ (ltb→le _ _ short)), λ _. refl, refl)
]

-- Where the index has a slot and `min` is not above `max`, expanding to `min` and then cropping
-- to `max` gives a chunk whose length lies between them.
expand_crop_bounds :
    (index min max : ℕ) (i : Input) (w : World)
    → index ≤ size i
    → min ≤ max
    → (j : Input) × (w' : World) × (expand_chunk index min i w ≡ ok (j, w'))
      × (min ≤ length (get_chunk (crop_chunk index max j) index))
      × (length (get_chunk (crop_chunk index max j) index) ≤ max)
expand_crop_bounds index min max i w h k =
    let (tail, j, w', e, own, len) = expand_chunk-Returns index min i w h in
    let whole : length (get_chunk j index) ≡ length (get_chunk i index) + length tail =
      ap length own ∙ length-append (get_chunk i index) tail in
    let cropped =
      ap length ((crop_chunk-take index max index j).0) ∙ length-take max (get_chunk j index) in
    (j, w', e, omega arith, omega arith)

get_random_first :
    (first : Chunk) (more : List Chunk) (c : Chunk) (i : Input) (w : World)
    → let r = below (length (first ∷ more)) w.rand in
      get_random (record i { chunks = (first ∷ more) ++ (c ∷ []) }) w
      ≡ ok (get_or (first ∷ more) r.0 [], record w { rand = r.1 })
unfolding get_random
get_random_first first more c i w =
    let r = below (length (first ∷ more)) w.rand in
    let e : suc (length (more ++ (c ∷ []))) - 1 ≡ suc (length more) =
      omega (arith, length-append more (c ∷ [])) in
    let i' = record i { chunks = (first ∷ more) ++ (c ∷ []) } in
    rw e (
      ap (λ x. ok (x, record w { rand = r.1 }))
        (get_chunk-get_or i' r.0
          ∙ get_or-before (first ∷ more) c r.0 (below_lt _ w.rand (omega arith))))

-- Of two chunks or more, what GetRandom returns does not depend on the last.
get_random_ignores_last :
    (first : Chunk) (more : List Chunk) (c d : Chunk) (i : Input) (w : World)
    → get_random (record i { chunks = (first ∷ more) ++ (c ∷ []) }) w
      ≡ get_random (record i { chunks = (first ∷ more) ++ (d ∷ []) }) w
get_random_ignores_last first more c d i w =
    get_random_first first more c i w ∙ sym (get_random_first first more d i w)
