-- ===== src/Exec/Executor/Gaps.antt =====
-- GetNextChunk for a chunk with others missing before it.
use vfuzz.Prelude.{
  ℕ, ◌+◌, ◌-◌, ◌≤◌, ◌<◌, ◌≡◌, refl, ap, ◌∙◌, length, false, [], some, ok, err, fault, arith, lt→ltb,
  le→ltb, le→leb,
}
use vfuzz.Util.World.{World, ◌>>=◌}
use vfuzz.Container.Input.{Input, size, get_chunk, set_chunk, expand_chunk, crop_chunk}
use vfuzz.Container.Input.Edit.{slot, get_chunk-set_chunk, push_random-Returns}
use vfuzz.Container.InputCluster.{InputCluster, get}
use vfuzz.Exec.Executor.{
  Executor, limits, index_of, adjust, hand_out, mutate_input, serve, get_next_chunk,
}
use vfuzz.Exec.Executor.Chunks.{get_next_chunk-serve, limits-min}

get_chunk_past : (i : Input) (index : ℕ) → size i ≤ index → get_chunk i index ≡ []
unfolding get_chunk
get_chunk_past i index h = rw (le→leb (size i) index h) refl

expand_chunk_past :
    (index lo : ℕ) (i : Input) (w : World)
    → size i < index
    → 0 < lo
    → (j : Input) × (w' : World) × (expand_chunk index lo i w ≡ ok (j, w'))
      × (length (get_chunk j (size i)) ≡ lo)
      × (get_chunk j index ≡ [])
unfolding expand_chunk
expand_chunk_past index lo i w h positive =
    let empty = get_chunk_past i index (omega arith) in
    let (tail, w', e, len) = push_random-Returns (lo - 0) [] w in
    let j = set_chunk index tail i in
    let first : slot index i ≡ size i = omega arith in
    let own : get_chunk j (size i) ≡ tail =
      rw first at (get_chunk-set_chunk index index tail i).0 in
    let longer : size j ≡ size i + 1 = ground (arith, (get_chunk-set_chunk index index tail i).2) in
    (
      j,
      w',
      rw empty (rw (lt→ltb 0 lo positive) (rw (e, ◌>>=◌))),
      omega (arith, ap length own, len),
      get_chunk_past j index (omega arith),
    )

hand_out_short :
    {D : Type 0} (gid index lo hi : ℕ) (i : Input) (c : InputCluster) (e : Executor D) (w : World)
    → get_chunk i index ≡ []
    → 0 < lo
    → hand_out gid index lo hi i c e w ≡ err fault
unfolding hand_out
hand_out_short gid index lo hi i c e w empty positive = rw (empty, lt→ltb 0 lo positive) refl

crop_chunk_empty : (index hi : ℕ) (i : Input) → get_chunk i index ≡ [] → crop_chunk index hi i ≡ i
unfolding crop_chunk
crop_chunk_empty index hi i empty = rw (empty, le→ltb hi 0 (omega arith)) refl

-- In static mode, with a limit on the length that is not 0: where a generator that asks for a chunk
-- with a minimum that is not 0 has two chunks or more missing up to it, ExpandChunk puts its bytes,
-- as many as the minimum within the limits, at the first missing place. The chunk itself stays empty,
-- which is less than that minimum, and GetNextChunk gives a fault.
pub get_next_chunk_aborts :
    {D : Type 0} (gid lo hi : ℕ) (c : InputCluster) (e : Executor D) (w : World)
    → e.current ≡ some c
    → e.dynamic ≡ false
    → 0 < e.max_chunk_len
    → 0 < lo
    → size (get gid c).0 < index_of gid e.indexes
    → let (lo', hi') = limits e.max_chunk_len lo hi in
      let index = index_of gid e.indexes in
      let i = (get gid c).0 in
      (0 < lo')
      × ((j : Input) × (w' : World) × (adjust e gid index lo' hi' i w ≡ ok ((j, e.corpus), w'))
          × (length (get_chunk j (size i)) ≡ lo')
          × (get_chunk j index ≡ []))
      × (get_next_chunk gid lo hi e w ≡ err fault)
unfolding serve adjust mutate_input
get_next_chunk_aborts gid lo hi c e w loaded static positive asked gap =
    let (lo', hi') = limits e.max_chunk_len lo hi in
    let index = index_of gid e.indexes in
    let (_, some_max, _, some_min, _) = limits-min e.max_chunk_len lo hi positive in
    let (i, c') = get gid c in
    let (j, w', expanded, first, empty) = expand_chunk_past index lo' i w gap (some_min asked) in
    let adjusted : adjust e gid index lo' hi' i w ≡ ok ((j, e.corpus), w') =
      rw (static, ◌>>=◌)
        (rw (lt→ltb 0 lo' (some_min asked), expanded, ◌>>=◌)
          (rw (lt→ltb 0 hi' some_max, crop_chunk_empty index hi' j empty) refl)) in
    (
      some_min asked,
      (j, w', adjusted, first, empty),
      ap (λ f. f w) (get_next_chunk-serve gid lo hi c e loaded)
          ∙ rw (adjusted, ◌>>=◌)
              (hand_out_short gid index lo' hi' j c' e w' empty (some_min asked)),
    )
