-- ===== src/Mutator/Base/Parts.antt =====
-- CopyPartOf, Split and InsertPartOf: they stay inside their vectors, and what they leave.
use vfuzz.Prelude.{
  ℕ, ◌+◌, ◌-◌, ◌≤◌, ◌≡◌, refl, sym, ap, ◌∙◌, Bool, true, false, ◌++◌, length, take, drop, min,
  le→leb, if◌then◌else◌, ok, arith, length-append, length-take, length-drop, drop-drop,
  take-append-drop,
}
use vfuzz.Codec.Words.{Chunk}
use vfuzz.Codec.Cursor.{memcpy_from}
use vfuzz.Codec.Buffer.{memcpy_to}
use vfuzz.Util.Rand.{below, below_lt}
use vfuzz.Util.World.{World, ◌>>=◌, run}
use vfuzz.Mutator.Base.{random_range, copy_part_of}

-- A segment of a chunk, and a chunk with a segment written over.
abbrev pub segment : ℕ → ℕ → Chunk → Chunk
segment first count c = take count (drop first c)

abbrev pub overwrite : ℕ → Chunk → Chunk → Chunk
overwrite pos bytes c = take pos c ++ (bytes ++ drop (pos + length bytes) c)

pub memcpy_from-segment :
    (c : Chunk) (first count : ℕ)
    → first + count ≤ length c
    → memcpy_from c first count ≡ ok (segment first count c)
unfolding memcpy_from
memcpy_from-segment c first count h = rw (le→leb (first + count) (length c) h)

pub memcpy_to-overwrite :
    (c bytes : Chunk) (pos : ℕ)
    → pos + length bytes ≤ length c
    → memcpy_to c pos bytes ≡ ok (overwrite pos bytes c)
unfolding memcpy_to
memcpy_to-overwrite c bytes pos h = rw (le→leb (pos + length bytes) (length c) h)

pub length-segment :
    (first count : ℕ) (c : Chunk)
    → first + count ≤ length c
    → length (segment first count c) ≡ count
length-segment first count c h =
    omega (arith, length-take count (drop first c), length-drop first c)

pub segment_parts :
    (first count : ℕ) (c : Chunk)
    → take first c ++ (segment first count c ++ drop (first + count) c) ≡ c
segment_parts first count c =
    ap (λ r. take first c ++ (segment first count c ++ r)) (sym (drop-drop first count c))
    ∙ ap (λ r. take first c ++ r) (take-append-drop count (drop first c))
    ∙ take-append-drop first c

pub length-overwrite :
    (pos : ℕ) (bytes c : Chunk)
    → pos + length bytes ≤ length c
    → length (overwrite pos bytes c) ≡ length c
length-overwrite pos bytes c h = omega (
  arith,
  length-append (take pos c) (bytes ++ drop (pos + length bytes) c),
  length-append bytes (drop (pos + length bytes) c),
  length-take pos c,
  length-drop (pos + length bytes) c,
)

-- A random range lies within the size.
pub random_range-Returns :
    (size : ℕ) (w : World)
    → (first count : ℕ) × (w' : World) × (random_range size w ≡ ok ((first, count), w'))
      × (first + count ≤ size)
unfolding random_range
random_range-Returns size w =
    let (first, r) = below (size + 1) w.rand in
    let (count, r') = below (size - first + 1) r in
    let h1 = below_lt (size + 1) w.rand (omega arith) in
    let h2 = below_lt (size - first + 1) r (omega arith) in
    (first, count, record w { rand = r' }, refl, omega arith)

-- What CopyPartOf leaves: as many bytes as before. Where the chunks are two, a segment of the
-- source stands at some position of the chunk, and is what is noted as inserted.
pub record IsCopied (aliased : Bool) (dest src result inserted : Chunk) : Type 0 where
  pub pos : ℕ
  pub first : ℕ
  pub count : ℕ
  pub bytes : Chunk
  pub inside : pos + count ≤ length dest
  pub within : first + count ≤ length src
  pub written : result ≡ overwrite pos bytes dest
  pub copied : bytes ≡ segment first count src
  pub noted : aliased ≡ false → inserted ≡ bytes

pub source_fits :
    {n : ℕ} (aliased : Bool) (dest src result : Chunk)
    → n ≤ length src
    → length dest ≤ length result
    → (aliased ≡ true → src ≡ dest)
    → n ≤ length (if aliased then result else src)
source_fits true dest src result h k same = let e = ap length (same refl) in omega arith
source_fits false dest src result h k same = h

pub copy_part_of-Returns :
    (aliased : Bool) (dest src : Chunk) (w : World)
    → (aliased ≡ true → src ≡ dest)
    → (result inserted : Chunk) × (w' : World) × (copy_part_of aliased dest src w
        ≡ ok ((result, inserted), w'))
      × (length result ≡ length dest)
      × IsCopied aliased dest src result inserted
unfolding copy_part_of
copy_part_of-Returns aliased dest src w same =
    let (pos, r) = below (length dest + 1) w.rand in
    let pos_le = below_lt (length dest + 1) w.rand (omega arith) in
    let (first, count, w', drawn, range) =
      random_range-Returns (min (length src) (length dest - pos)) (record w { rand = r }) in
    let bytes = segment first count src in
    let len = length-segment first count src (omega arith) in
    let result = overwrite pos bytes dest in
    let size = length-overwrite pos bytes dest (omega arith) in
    let source = if aliased then result else src in
    let again =
      memcpy_from-segment source first count
        (source_fits aliased dest src result (omega arith) (omega (arith, size)) same) in
    (
      result,
      segment first count source,
      w',
      rw (drawn, ◌>>=◌)
          (rw (memcpy_from-segment src first count (omega arith), run, ◌>>=◌)
            (rw (memcpy_to-overwrite dest bytes pos (omega arith), run, ◌>>=◌)
              (rw (again, run, ◌>>=◌)))),
      size,
      record {
        pos = pos;
        first = first;
        count = count;
        bytes = bytes;
        inside = omega arith;
        within = omega arith;
        written = refl;
        copied = refl;
        noted = λ e. rw e;
      },
    )
