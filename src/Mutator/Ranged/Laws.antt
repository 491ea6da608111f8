-- ===== src/Mutator/Ranged/Laws.antt =====
-- The byte-wise mutators on a chunk: the drawn range, and the bytes that the loop leaves.
use vfuzz.Prelude.{
  ℕ, ◌+◌, ◌-◌, ◌≤◌, ◌<◌, ◌≡◌, refl, ◌∙◌, Bool, true, false, inl, inr, [], ◌∷◌, ◌++◌, length, take,
  drop, map, append_assoc, length-append, length-take, get_elem?-append_end, set-append_end, ltb,
  ◌==◌, if◌then◌else◌, ok, arith, Bool-cases, ltb→lt, ltb→le,
}
use vfuzz.Codec.Words.{Chunk}
use vfuzz.Util.Rand.{below, below_lt, below_le}
use vfuzz.Util.Text.{codes, to_string}
use vfuzz.Util.World.{World, ◌>>=◌, pure, run}
use vfuzz.Mutator.Base.{Host, rand_ch}
use vfuzz.Mutator.Base.Parts.{segment, segment_parts, length-segment}
use vfuzz.Mutator.Edits.Limit.{add_history-Returns}
use vfuzz.Mutator.Ranged.{
  Operation, process, have_modifier, range_between, get_range, process_range, desc, full_name,
  ranged_impl,
}

-- A drawn range: where it starts and how many bytes it has, inside the size.
pub range_between-Returns :
    (from to size : ℕ) (w : World)
    → from < size
    → to < size
    → (first count : ℕ) × (w' : World) × (range_between from to w ≡ ok ((first, count), w'))
      × (first + count ≤ size)
unfolding range_between
range_between-Returns from to size w h k = elim (Bool-cases (from == to)) [
  | inl same ↦ rw same (from, 1, w, refl, omega arith)
  | inr apart ↦ rw apart (elim (Bool-cases (ltb to from)) [
    | inl above ↦ rw above (
        let count_le = below_le (from - to) w.rand in
        (to, (below (from - to) w.rand).0, _, refl, omega (arith, ltb→lt to from above)))
    | inr under ↦ rw under (
        let count_le = below_le (to - from) w.rand in
        (from, (below (to - from) w.rand).0, _, refl, omega (arith, ltb→le to from under)))
  ])
]

pub get_range-Returns :
    (ranged : Bool) (size : ℕ) (w : World)
    → 0 < size
    → (first count : ℕ) × (w' : World) × (get_range ranged size w ≡ ok ((first, count), w'))
      × (first + count ≤ size)
      × (ranged ≡ false → count ≡ 1)
unfolding get_range
get_range-Returns false size w h =
    let lt = below_lt size w.rand h in ((below size w.rand).0, 1, _, refl, omega arith, λ e. refl)
get_range-Returns true size w h =
    let (from, r) = below size w.rand in
    let (to, r') = below size r in
    let (first, count, w', drawn, inside) =
      range_between-Returns from to size (record w { rand = r' }) (below_lt size w.rand h)
        (below_lt size r h) in
    (first, count, w', drawn, inside, λ e. absurd cc)

process_range_parts :
    (op : Operation) (modifier : ℕ) (done bytes rest : Chunk)
    → process_range op modifier (length done) (length bytes) (done ++ (bytes ++ rest))
      ≡ ok (done ++ (map (λ b. process op b modifier) bytes ++ rest))
unfolding process_range
process_range_parts op m done [] rest = refl
process_range_parts op m done (b ∷ bytes) rest =
    let f = λ (b : ℕ). process op b m in
    let found = get_elem?-append_end done b (bytes ++ rest) in
    let written = set-append_end done b (f b) (bytes ++ rest) in
    let next : length done + 1 ≡ length (done ++ (f b ∷ [])) =
      omega (arith, length-append done (f b ∷ [])) in
    rw (process_range, found)
      (rw (written, next)
        (process_range_parts op m (done ++ (f b ∷ [])) bytes rest ∙ simp append_assoc))

-- The bytes of a chunk with those of one range processed.
abbrev pub processed : Operation → ℕ → ℕ → ℕ → Chunk → Chunk
processed op modifier first count c =
    take first c
    ++ (map (λ b. process op b modifier) (segment first count c) ++ drop (first + count) c)

pub process_range-processed :
    (op : Operation) (modifier first count : ℕ) (c : Chunk)
    → first + count ≤ length c
    → process_range op modifier first count c ≡ ok (processed op modifier first count c)
process_range-processed op m first count c h =
    let at : length (take first c) ≡ first = omega (arith, length-take first c) in
    let many = length-segment first count c h in
    rw (at, many, segment_parts first count c) at
      (process_range_parts op m (take first c) (segment first count c) (drop (first + count) c))

modifier_of :
    (op : Operation) (w : World)
    → (modifier : ℕ) × (w' : World) × ((if have_modifier op then rand_ch else pure 0) w
        ≡ ok (modifier, w'))
modifier_of op w = elim (Bool-cases (have_modifier op)) [
  | inl drawn ↦ rw drawn (_, _, refl)
  | inr none_drawn ↦ rw none_drawn (0, w, refl)
]

-- On a chunk that is not empty, a byte-wise mutator returns the chunk with each byte of the range that
-- it draws processed by the operation with the modifier that it draws, where it has one, and every
-- other byte as it was. The range lies inside the chunk, and is one byte where the mutator is not the
-- ranged one; what counts as inserted stays.
pub ranged_impl-processed :
    (host : Host) (ranged : Bool) (op : Operation) (gid : ℕ) (input insert : Chunk) (max : ℕ)
    (w : World)
    → 0 < length input
    → (modifier first count : ℕ) × (w1 w2 w' : World) × ((if have_modifier op
            then rand_ch
            else pure 0)
          w
        ≡ ok (modifier, w1))
      × (get_range ranged (length input) w1 ≡ ok ((first, count), w2))
      × (first + count ≤ length input)
      × (ranged ≡ false → count ≡ 1)
      × (ranged_impl host ranged op gid input insert max w
          ≡ ok ((processed op modifier first count input, insert), w'))
unfolding ranged_impl
ranged_impl-processed host ranged op gid [] insert max w h = absurd (omega arith)
ranged_impl-processed host ranged op gid (b ∷ bytes) insert max w h =
    let input : Chunk = b ∷ bytes in
    let (modifier, w1, drawn) = modifier_of op w in
    let (first, count, w2, range, inside, single) = get_range-Returns ranged (length input) w1 h in
    let done = process_range-processed op modifier first count input inside in
    let (w3, noted) =
      add_history-Returns gid (full_name ranged op)
        (desc host op modifier ++ (if ranged then codes "-" ++ to_string count else [])) w2 in
    (
      modifier,
      first,
      count,
      w1,
      w2,
      w3,
      drawn,
      range,
      inside,
      single,
      rw (drawn, ◌>>=◌) (rw (range, ◌>>=◌) (rw (done, run, ◌>>=◌) (rw (noted, ◌>>=◌)))),
    )
