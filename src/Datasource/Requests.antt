-- ===== src/Datasource/Requests.antt =====
-- What a data source gives to a target that asks it for bytes.
use vfuzz.Prelude.{
  Bool, true, ◌&&◌, ltb, All-get_elem?, ℕ, ◌≤◌, ◌<◌, ◌≡◌, refl, ◌∙◌, ap, some, [], length, ok,
  arith, length-append, ==_refl, if◌then◌else◌, ◌+◌, Bool-cases, inl, inr, ◌==◌, tests,
}
use vfuzz.Prelude
use vfuzz.OrdMap.{lookup, assign}
use vfuzz.OrdMap.Laws.{lookup-assign}
use vfuzz.Codec.Words.{Chunk}
use vfuzz.Util.Rand.{below, rand_bool}
use vfuzz.Util.World.{World, ◌>>=◌, pure}
use vfuzz.Container.Input.{
  Mutator, Input, size, get_chunk, expand_chunk, add_chunk, wants_chunk, mutate_random,
}
use vfuzz.Container.Input.Edit.{expand_chunk-Returns}
use vfuzz.Container.InputCluster.{InputCluster, update}
use vfuzz.Container.InputCluster as InputCluster
use vfuzz.Mutator.Container.{Container}
use vfuzz.Mutator.Container.Choice.{get_random_mutator-Returns}
use vfuzz.Exec.Executor.Adjusting.{IsTotal, IsReady, mutate_chunk-Returns}
use vfuzz.Datasource

wants_chunk-Returns :
    (max_chunks : ℕ) (i : Input) (w : World)
    → (add : Bool) × (w' : World) × (wants_chunk max_chunks i w ≡ ok (add, w'))
unfolding wants_chunk
wants_chunk-Returns max_chunks i w = elim (Bool-cases (size i == 0)) [
  | inl none_yet ↦ (true, w, rw none_yet refl)
  | inr some_chunk ↦
      let (heads, r) = rand_bool w.rand in
      (heads && ltb (size i) max_chunks, record w { rand = r }, rw some_chunk refl)
]

-- With a mutator that returns, MutateRandom returns.
mutate_random-Returns :
    (gid : ℕ) (m : Mutator) (max_chunks max_len : ℕ) (i : Input) (w : World)
    → IsTotal m
    → (j : Input) × (w' : World) × (mutate_random gid m max_chunks max_len i w ≡ ok (j, w'))
unfolding mutate_random
mutate_random-Returns gid m max_chunks max_len i w total =
    let (add, w1, wanted) = wants_chunk-Returns max_chunks i w in
    let i' = if add then add_chunk [] i else i in
    let (index, r) = below (size i') w1.rand in
    let (j, w', e, _) =
      mutate_chunk-Returns gid index m max_len i' (record w1 { rand = r }) total in
    (j, w', rw (wanted, ◌>>=◌) e)

updated_get :
    (id : ℕ) (i : Input) (c : InputCluster)
    → InputCluster.get id (update id i c) ≡ (i, update id i c)
unfolding InputCluster.get update
updated_get id i c =
    let own : lookup id (assign id i c.cluster) ≡ some i =
      lookup-assign id id i c.cluster ∙ rw (==_refl id) refl in
    rw (InputCluster.get, own) refl

-- The answer to a request, once MutateRandom has given the input.
answer-Returns :
    (min id : ℕ) (i : Input) (c : InputCluster) (w : World)
    → (bytes : Chunk) × (j : Input) × (w' : World) × (◌>>=◌ {B = Chunk × InputCluster}
          (expand_chunk 0 min i)
          (λ expanded. pure (get_chunk expanded 0, update id expanded c))
          w
        ≡ ok ((bytes, update id j c), w'))
      × (min ≤ length bytes)
      × (lookup id (update id j c).cluster ≡ some j)
      × (get_chunk j 0 ≡ bytes)
unfolding update
answer-Returns min id i c w =
    let (tail, j, w', e, own, len) = expand_chunk-Returns 0 min i w (omega arith) in
    let whole : length (get_chunk j 0) ≡ length (get_chunk i 0) + length tail =
      ap length own ∙ length-append (get_chunk i 0) tail in
    (
      get_chunk j 0,
      j,
      w',
      rw (e, ◌>>=◌) refl,
      omega arith,
      lookup-assign id id j c.cluster ∙ rw (==_refl id) refl,
      refl,
    )

-- With mutators to draw from that return, a request returns; its bytes are as many as the minimum at
-- least, and the first chunk of the generator's input in the cluster.
pub get-Returns :
    (mutators : Container) (min max id : ℕ) (ic : InputCluster) (w : World)
    → IsReady mutators
    → (bytes : Chunk) × (jc : InputCluster) × (w' : World) × (Datasource.get mutators min max id ic
          w
        ≡ ok ((bytes, jc), w'))
      × (min ≤ length bytes)
      × ((i : Input) × (lookup id jc.cluster ≡ some i) × (get_chunk i 0 ≡ bytes))
unfolding Datasource.get InputCluster.mutate_random update
get-Returns mutators min max id ic w ready =
    let (k, m, w1, found, drawn) = get_random_mutator-Returns mutators w ready.0 in
    let total = All-get_elem? IsTotal mutators k m ready.1 found in
    let (i, there) = InputCluster.get id ic in
    let (i', w2, mutated) =
      mutate_random-Returns id m (Prelude.min 0 there.max_chunks) there.max_chunk_len i w1 total in
    let (bytes, j, w', e, enough, held, own) = answer-Returns min id i' (update id i' there) w2 in
    (
      bytes,
      update id j (update id i' there),
      w',
      rw (drawn, ◌>>=◌) (rw (mutated, ◌>>=◌) (rw (updated_get id i' there) e)),
      enough,
      (j, held, own),
    )
