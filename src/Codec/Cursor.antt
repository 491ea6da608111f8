-- ===== src/Codec/Cursor.antt =====
-- Reading: the variables `pos` and `size_left` of the Deserialize functions, their check before
-- each memcpy, and the memcpy, which is a fault if it leaves the vector.
use vfuzz.Prelude.{
  ℕ, zero, suc, ◌+◌, ◌-◌, ◌≤◌, ◌≡◌, refl, sym, ap, ◌∙◌, false, [], ◌∷◌, ◌++◌, length, take, drop,
  All, ltb, leb, if◌then◌else◌, le→leb, le→ltb, lt→ltb, Result, ok, err, deserialization, fault,
  ◌>>=◌, IsSafe, arith, length-append, length-take, length-drop, take-append, drop-append,
  drop-drop, All-take, take-append-drop,
}
use vfuzz.Codec.Words.{Chunk, IsByte, IsU64, of_le, u64, length-le_bytes, of_le-u64, u64-of_le}

pub record Cursor : Type 0 where
  pub pos : ℕ
  pub size_left : ℕ

abbrev pub start : Chunk → Cursor
start s = record { pos = 0; size_left = length s }

-- `pos += n; size_left -= n`
abbrev pub advance : Cursor → ℕ → Cursor
advance c n = record { pos = c.pos + n; size_left = c.size_left - n }

unfoldable pub memcpy_from : Chunk → ℕ → ℕ → Result Chunk
memcpy_from s pos n = if leb (pos + n) (length s) then ok (take n (drop pos s)) else err fault

unfoldable pub read_u64 : Chunk → Cursor → Result (ℕ × Cursor)
unfolding memcpy_from
read_u64 s c =
    if ltb c.size_left 8
    then err deserialization
    else do bytes ← memcpy_from s c.pos 8; ok (of_le bytes, advance c 8)

unfoldable pub read_bytes : Chunk → ℕ → Cursor → Result (Chunk × Cursor)
unfolding memcpy_from
read_bytes s n c =
    if ltb c.size_left n
    then err deserialization
    else if ltb 0 n
    then (do bytes ← memcpy_from s c.pos n; ok (bytes, advance c n))
    else ok ([], c)

-- The cursor stands inside the vector.
abbrev pub IsInside : Chunk → Cursor → Type 0
IsInside s c = c.pos + c.size_left ≡ length s

-- `rest` is what is still to be read.
pub record IsAt (s : Chunk) (c : Cursor) (rest : Chunk) : Type 0 where
  pub inside : IsInside s c
  pub ahead : drop c.pos s ≡ rest

pub start-IsAt : (s : Chunk) → IsAt s (start s) s
start-IsAt s = record { inside = omega arith; ahead = refl }

pub start-IsAt_eq : (s rest : Chunk) → s ≡ rest → IsAt s (start s) rest
start-IsAt_eq s rest e = record { inside = omega arith; ahead = e }

length-ahead : (s : Chunk) (c : Cursor) (rest : Chunk) → IsAt s c rest → length rest ≡ c.size_left
length-ahead s c rest a = omega (arith, length-drop c.pos s, ap length a.ahead, a.inside)

advance-IsAt :
    (s : Chunk) (c : Cursor) (bs rest : Chunk)
    → IsAt s c (bs ++ rest)
    → IsAt s (advance c (length bs)) rest
advance-IsAt s c bs rest a = record {
  inside = omega (arith, length-ahead s c _ a, length-append bs rest, a.inside);
  ahead = sym (drop-drop c.pos (length bs) s) ∙ rw a.ahead (drop-append bs rest);
}

memcpy_from-IsAt :
    (s : Chunk) (c : Cursor) (bs rest : Chunk)
    → IsAt s c (bs ++ rest)
    → memcpy_from s c.pos (length bs) ≡ ok bs
unfolding memcpy_from
memcpy_from-IsAt s c bs rest a = rw (
  le→leb (c.pos + length bs) (length s)
      (omega (arith, length-ahead s c _ a, length-append bs rest, a.inside)),
  a.ahead,
  take-append bs rest,
)

-- At the bytes of a word, `read_u64` gives the word and goes past it.
pub read_u64-IsAt :
    (s : Chunk) (c : Cursor) (v : ℕ) (rest : Chunk)
    → IsU64 v
    → IsAt s c (u64 v ++ rest)
    → (read_u64 s c ≡ ok (v, advance c 8)) × IsAt s (advance c 8) rest
unfolding read_u64
read_u64-IsAt s c v rest h a =
    let eight : length (u64 v) ≡ 8 = length-le_bytes 8 v in
    let copied : memcpy_from s c.pos 8 ≡ ok (u64 v) =
      rw eight at (memcpy_from-IsAt s c (u64 v) rest a) in
    let enough : ltb c.size_left 8 ≡ false =
      le→ltb _ _ (omega (arith, length-ahead s c _ a, length-append (u64 v) rest, eight)) in
    (rw (enough, copied, of_le-u64 v h), rw eight at (advance-IsAt s c (u64 v) rest a))

-- At some bytes, `read_bytes` gives as many of them as it is asked for.
pub read_bytes-IsAt :
    (s : Chunk) (c : Cursor) (bs rest : Chunk)
    → IsAt s c (bs ++ rest)
    → (read_bytes s (length bs) c ≡ ok (bs, advance c (length bs)))
      × IsAt s (advance c (length bs)) rest
unfolding read_bytes
read_bytes-IsAt s c [] rest a =
    (rw (le→ltb c.size_left 0 (omega arith)) (ground arith), advance-IsAt s c [] rest a)
read_bytes-IsAt s c (b ∷ bs) rest a = (
  rw (
    le→ltb c.size_left (length (b ∷ bs))
        (omega (arith, length-ahead s c _ a, length-append (b ∷ bs) rest)),
    memcpy_from-IsAt s c (b ∷ bs) rest a,
    lt→ltb 0 (length (b ∷ bs)) (omega arith),
  ),
  advance-IsAt s c (b ∷ bs) rest a,
)

-- Inside the vector a read throws or succeeds, and stays inside.
pub read_u64-IsSafe : (s : Chunk) (c : Cursor) → IsInside s c → IsSafe (read_u64 s c)
unfolding read_u64
read_u64-IsSafe s c h = ground arith

pub read_bytes-IsSafe : (s : Chunk) (n : ℕ) (c : Cursor) → IsInside s c → IsSafe (read_bytes s n c)
unfolding read_bytes
read_bytes-IsSafe s n c h = ground arith

pub read_u64-IsInside :
    (s : Chunk) (c : Cursor) {v : ℕ} {d : Cursor}
    → read_u64 s c ≡ ok (v, d)
    → IsInside s c
    → IsInside s d
unfolding read_u64
read_u64-IsInside s c e h = ground arith

pub read_bytes-IsInside :
    (s : Chunk) (n : ℕ) (c : Cursor) {bs : Chunk} {d : Cursor}
    → read_bytes s n c ≡ ok (bs, d)
    → IsInside s c
    → IsInside s d
unfolding read_bytes
read_bytes-IsInside s n c e h = ground arith

read_u64-eq-ok :
    (s : Chunk) (c : Cursor) (v : ℕ) (d : Cursor)
    → read_u64 s c ≡ ok (v, d)
    → (8 ≤ c.size_left) × (v ≡ of_le (take 8 (drop c.pos s))) × (d ≡ advance c 8)
unfolding read_u64
read_u64-eq-ok s c v d r = ground arith

read_bytes-eq-ok :
    (s : Chunk) (n : ℕ) (c : Cursor) (bs : Chunk) (d : Cursor)
    → read_bytes s n c ≡ ok (bs, d)
    → (n ≤ c.size_left) × (bs ≡ take n (drop c.pos s)) × (d ≡ advance c n)
unfolding read_bytes
read_bytes-eq-ok s zero c bs d r = ground arith
read_bytes-eq-ok s (suc n) c bs d r = ground arith

-- What stands at the cursor, split after as many bytes as are left at least.
split_ahead :
    (s : Chunk) (c : Cursor) (ahead : Chunk) (n : ℕ)
    → IsAt s c ahead
    → n ≤ c.size_left
    → (length (take n ahead) ≡ n) × IsAt s (advance c n) (drop n ahead)
split_ahead s c ahead n a h =
    let len : length (take n ahead) ≡ n =
      omega (arith, length-take n ahead, length-ahead s c ahead a) in
    let whole : IsAt s c (take n ahead ++ drop n ahead) = rw (take-append-drop n ahead) a in
    (len, rw len at (advance-IsAt s c (take n ahead) (drop n ahead) whole))

-- What a successful read took stood at the cursor.
pub read_u64-Takes :
    (s : Chunk) (c : Cursor) (ahead : Chunk) (v : ℕ) (d : Cursor)
    → All IsByte ahead
    → IsAt s c ahead
    → read_u64 s c ≡ ok (v, d)
    → (ahead ≡ u64 v ++ drop 8 ahead) × IsAt s d (drop 8 ahead)
read_u64-Takes s c ahead v d h a r =
    let (enough, value, moved) = read_u64-eq-ok s c v d r in
    let (eight, after) = split_ahead s c ahead 8 a enough in
    let word : u64 (of_le (take 8 ahead)) ≡ take 8 ahead =
      u64-of_le (take 8 ahead) eight (All-take IsByte 8 ahead h) in
    (rw (value, a.ahead, word) (sym (take-append-drop 8 ahead)), rw moved after)

pub read_bytes-Takes :
    (s : Chunk) (n : ℕ) (c : Cursor) (ahead bs : Chunk) (d : Cursor)
    → IsAt s c ahead
    → read_bytes s n c ≡ ok (bs, d)
    → (length bs ≡ n) × (ahead ≡ bs ++ drop n ahead) × IsAt s d (drop n ahead)
read_bytes-Takes s n c ahead bs d a r =
    let (enough, value, moved) = read_bytes-eq-ok s n c bs d r in
    let (len, after) = split_ahead s c ahead n a enough in
    let front : bs ≡ take n ahead = rw (← a.ahead) value in
    (rw front len, rw front (sym (take-append-drop n ahead)), rw moved after)
