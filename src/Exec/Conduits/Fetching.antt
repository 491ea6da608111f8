-- ===== src/Exec/Conduits/Fetching.antt =====
-- The conduit over the corpus gives a chunk.
use vfuzz.Prelude.{
  ◌<◌, ◌≡◌, refl, [], is_empty, length, ◌-◌, ◌∷◌, ◌++◌, get_elem?_inside, inl, inr, ok, arith,
  Bool-cases,
}
use vfuzz.Codec.Words.{Chunk}
use vfuzz.Util.Rand.{below, below_lt}
use vfuzz.Util.World.{World}
use vfuzz.Container.Input.{Input, get_chunk, get_random}
use vfuzz.Container.InputCluster as InputCluster
use vfuzz.Container.Corpus.{Corpus, size}
use vfuzz.Mutator.Edits.Limit.{Fetches}
use vfuzz.Exec.Conduits.{corpus_conduit}

get_random-Returns :
    (i : Input) (w : World) → (c : Chunk) × (w' : World) × (get_random i w ≡ ok (c, w'))
unfolding get_random
get_random-Returns i w = elim (Bool-cases (is_empty i.chunks)) [
  | inl none_yet ↦ ([], w, rw none_yet refl)
  | inr some_chunk ↦
      let (index, r) = below (length i.chunks - 1) w.rand in
      (get_chunk i index, record w { rand = r }, rw some_chunk refl)
]

-- On a corpus with a cluster, the conduit returns.
corpus_conduit-Fetches : (c : Corpus) → 0 < size c → Fetches (corpus_conduit c)
unfolding corpus_conduit
corpus_conduit-Fetches c h gid w =
    let (index, r) = below (size c) w.rand in
    let (ic, found) = get_elem?_inside c.corpus index (below_lt (size c) w.rand h) in
    let (chunk, w', e) =
      get_random-Returns (InputCluster.get gid ic).0
        (record w { rand = r; visited = w.visited ++ ((index, gid) ∷ []) }) in
    (chunk, w', ground (arith, found, e))
