-- ===== src/Exec/Executor/Chunks.antt =====
-- GetNextChunk returns, and the chunk that it hands out keeps to the limits.
use vfuzz.Prelude.{
  ℕ, ◌≤◌, ◌<◌, ◌≡◌, refl, ap, ◌∙◌, inl, inr, length, none, some, ◌==◌, ok, fault, arith, Bool-cases,
  ◌⊎◌, lt→ltb, le→ltb,
}
use vfuzz.Util.World.{World, ◌>>=◌, throw}
use vfuzz.Container.Input.{Input, get_chunk, size}
use vfuzz.Container.InputCluster.{InputCluster, get, update}
use vfuzz.Exec.Executor.{Executor, limits, index_of, hand_out, advance, serve, get_next_chunk}
use vfuzz.Container.Corpus.{Corpus}
use vfuzz.Exec.Executor.Adjusting.{IsReady, IsVisited, adjust-Returns}

pub limits-min :
    (max_chunk_len lo hi : ℕ)
    → 0 < max_chunk_len
    → let (lo', hi') = limits max_chunk_len lo hi in
      (lo' ≤ hi') × (0 < hi') × (hi' ≤ max_chunk_len) × (0 < lo → 0 < lo') × (lo ≡ 0 → lo' ≡ 0)
unfolding limits
limits-min max_chunk_len lo hi h = elim (Bool-cases (hi == 0)) [
  | inl e ↦ rw e (omega arith, omega arith, omega arith, λ k. omega arith, λ k. omega arith)
  | inr e ↦
      let positive : 0 < hi = ground (arith, e) in
      rw e (omega arith, omega arith, omega arith, λ k. omega arith, λ k. omega arith)
]

hand_out-ok :
    {D : Type 0} (gid index lo hi : ℕ) (i : Input) (c : InputCluster) (e : Executor D) (w : World)
    → lo ≤ length (get_chunk i index)
    → length (get_chunk i index) ≤ hi
    → index < e.max_chunks
    → hand_out gid index lo hi i c e w
      ≡ ok ((get_chunk i index, advance gid (get_chunk i index) (update gid i c) e), w)
unfolding hand_out
hand_out-ok gid index lo hi i c e w long short few =
    rw
      (
        le→ltb (length (get_chunk i index)) lo long,
        le→ltb hi (length (get_chunk i index)) short,
        lt→ltb index e.max_chunks few,
      )
      refl

pub get_next_chunk-serve :
    {D : Type 0} (gid lo hi : ℕ) (c : InputCluster) (e : Executor D)
    → e.current ≡ some c
    → get_next_chunk gid lo hi e ≡ serve gid lo hi e c
unfolding get_next_chunk
get_next_chunk-serve gid lo hi c e loaded =
    ap (λ o. elim o [ none ↦ throw fault | some d ↦ serve gid lo hi e d ]) loaded

-- While a cluster is loaded, the limit on a chunk's length is not 0, there are mutators to draw
-- from, which all return, and the generator has fewer chunks than the limit: GetNextChunk returns
-- if it asks for no minimum or no chunk before its own is missing. The chunk that it hands out,
-- the generator's next one, lies within the limits, and is the one that the cluster now holds. The
-- corpus is as before but for the fresh inputs that the conduits give it in dynamic mode.
pub get_next_chunk-Returns :
    {D : Type 0} (gid lo hi : ℕ) (c : InputCluster) (e : Executor D) (w : World)
    → e.current ≡ some c
    → 0 < e.max_chunk_len
    → IsReady (e.mutators e.corpus)
    → index_of gid e.indexes < e.max_chunks
    → (lo ≡ 0) ⊎ (index_of gid e.indexes ≤ size (get gid c).0)
    → let (lo', hi') = limits e.max_chunk_len lo hi in
      let index = index_of gid e.indexes in
      (i : Input) × (d : Corpus) × (w' : World) × (get_next_chunk gid lo hi e w
        ≡ ok (
          (
            get_chunk i index,
            advance gid (get_chunk i index) (update gid i (get gid c).1) (record e { corpus = d }),
          ),
          w',
        ))
      × (lo' ≤ length (get_chunk i index))
      × (length (get_chunk i index) ≤ hi')
      × IsVisited e.dynamic e.corpus d
unfolding serve
get_next_chunk-Returns gid lo hi c e w loaded positive ready few near =
    let (lo', hi') = limits e.max_chunk_len lo hi in
    let index = index_of gid e.indexes in
    let (order, some_max, _, _, free) = limits-min e.max_chunk_len lo hi positive in
    let near' : (lo' ≡ 0) ⊎ (index ≤ size (get gid c).0) = elim near [
      | inl none_asked ↦ inl (free none_asked)
      | inr k ↦ inr k
    ] in
    let (j, d, w', adjusted, long, short, visited) =
      adjust-Returns e gid index lo' hi' (get gid c).0 w ready near' order some_max in
    (
      j,
      d,
      w',
      ap (λ f. f w) (get_next_chunk-serve gid lo hi c e loaded)
          ∙ rw (adjusted, ◌>>=◌)
              (hand_out-ok gid index lo' hi' j (get gid c).1 (record e { corpus = d }) w' long short
                few),
      long,
      short,
      visited,
    )
