-- ===== src/Tests/Containers.antt =====
-- Containers with two chunks, one input and one cluster, and bytes that read back.
use vfuzz.Prelude.{
  ℕ, ◌+◌, ◌≤◌, ◌<◌, ◌≡◌, ◌≢◌, refl, Bool, true, false, not, ◌&&◌, List, [], ◌∷◌, ◌++◌, map, length,
  Option, none, some, min, if◌then◌else◌, leb, get_elem?, Result, ok, err, exception, IsSafe, All,
  ◌-◌, ◌==◌, arith,
}
use vfuzz.Prelude as P
use vfuzz.OrdMap.{lookup, insert, assign}
use vfuzz.Codec.Words.{Chunk, IsU64, IsByte, of_le, le_bytes}
use vfuzz.Codec.Cursor.{memcpy_from, read_u64, read_bytes}
use vfuzz.Util.Rand.{draw, below, rand_bool}
use vfuzz.Util.World.{World}
use vfuzz.Container.Input.{
  Mutator, Input, fresh, get_chunk, get_random, set_chunk, size, put, add_chunk, accept_mutation,
  expand_chunk, crop_chunk, mutate_chunk, wants_chunk, largest_chunk_size,
}
use vfuzz.Container.Input as Inputs
use vfuzz.Container.Input.Edit.{slot}
use vfuzz.Container.Input.Mutation.{accept_mutation-slot, mutate_random-size}
use vfuzz.Container.Input.Serial as InputSerial
use vfuzz.Container.Input.RoundTrip.{IsSized, overlay, input_round_trip}
use vfuzz.Container.Input.Safety.{deserialize-Accepts}
use vfuzz.Container.InputCluster.{
  InputCluster, empty, copy, get, get_unsafe, have_gid, set_input, update,
}
use vfuzz.Container.InputCluster as Clusters
use vfuzz.Container.InputCluster.Serial as ClusterSerial
use vfuzz.Container.InputCluster.RoundTrip.{bare_inputs, cluster_round_trip}
use vfuzz.Container.InputCluster.Edit.{mutate_random-lookup}
use vfuzz.Container.Corpus.{Corpus}
use vfuzz.Container.Corpus.Serial as CorpusSerial
use vfuzz.Container.Corpus.RoundTrip.{
  bare_cluster, added, corpus_round_trip, corpus_deserialize-IsSafe,
}

abbrev world : World
world = record { rand = record { tape = λ n. n; at = 5 }; history = some []; visited = [] }

abbrev two_chunks : Input
two_chunks = record { chunks = (1 ∷ 2 ∷ []) ∷ (3 ∷ []) ∷ []; insertions = []; mutators = [] }

abbrev one_input : InputCluster
one_input = record { cluster = (4, two_chunks) ∷ []; max_chunks = 3; max_chunk_len = 8 }

abbrev one_cluster : Corpus
one_cluster = record { corpus = one_input ∷ []; has_on_new = true; notified = [] }

abbrev no_cluster : Corpus
no_cluster = record { corpus = []; has_on_new = true; notified = [] }

-- A mutator that puts a 7 before the chunk.
abbrev seven : Mutator
seven = record { address = 100; mutate = λ gid c insert max_len w. ok ((7 ∷ c, 7 ∷ []), w) }

two_chunks-IsSized : IsSized two_chunks
two_chunks-IsSized = (omega arith, (omega arith, (omega arith, tt)))

layout_fits : IsU64 (length (InputSerial.layout two_chunks))
unfolding InputSerial.layout InputSerial.chunks_layout le_bytes
layout_fits = omega arith

cluster_layout_fits : IsU64 (length (ClusterSerial.layout one_input))
unfolding ClusterSerial.layout ClusterSerial.inputs_layout InputSerial.layout
    InputSerial.chunks_layout le_bytes
cluster_layout_fits = omega arith

input_round_trip_example :
    P.◌>>=◌ (InputSerial.serialize two_chunks) (λ s. InputSerial.deserialize s fresh)
    ≡ ok (record fresh { chunks = overlay two_chunks.chunks [] })
input_round_trip_example = input_round_trip two_chunks fresh two_chunks-IsSized

cluster_round_trip_example :
    P.◌>>=◌ (ClusterSerial.serialize one_input) (λ s. ClusterSerial.deserialize s (empty 3 8))
    ≡ ok (record (empty 3 8) { cluster = bare_inputs one_input.cluster })
cluster_round_trip_example =
    cluster_round_trip one_input 3 8 (omega arith)
      ((omega arith, two_chunks-IsSized, layout_fits), tt) (omega arith, tt)

corpus_round_trip_example :
    P.◌>>=◌ (CorpusSerial.serialize one_cluster) (λ s. CorpusSerial.deserialize s no_cluster)
    ≡ ok (added (map bare_cluster one_cluster.corpus) no_cluster)
corpus_round_trip_example = corpus_round_trip one_cluster no_cluster (omega arith) (
  (
    omega arith,
    ((omega arith, two_chunks-IsSized, layout_fits), tt),
    (omega arith, tt),
    cluster_layout_fits,
  ),
  tt,
)

corpus_deserialize-IsSafe_example : IsSafe (CorpusSerial.deserialize (1 ∷ 2 ∷ []) no_cluster)
corpus_deserialize-IsSafe_example = corpus_deserialize-IsSafe (1 ∷ 2 ∷ []) no_cluster

-- One chunk of one byte, and a byte more.
abbrev read_bytes_1 : Chunk
read_bytes_1 = 1 ∷ 0 ∷ 0 ∷ 0 ∷ 0 ∷ 0 ∷ 0 ∷ 0 ∷ 1 ∷ 0 ∷ 0 ∷ 0 ∷ 0 ∷ 0 ∷ 0 ∷ 0 ∷ 9 ∷ 5 ∷ []

abbrev nine : Input
nine = record { chunks = (9 ∷ []) ∷ []; insertions = []; mutators = [] }

nine_read : InputSerial.deserialize read_bytes_1 fresh ≡ ok nine
unfolding InputSerial.deserialize InputSerial.read_chunks read_u64 read_bytes memcpy_from of_le
    set_chunk put
nine_read = refl

nine_read-IsByte : All IsByte read_bytes_1
nine_read-IsByte = (
  omega arith,
  (
    omega arith,
    (
      omega arith,
      (
        omega arith,
        (
          omega arith,
          (
            omega arith,
            (
              omega arith,
              (
                omega arith,
                (
                  omega arith,
                  (
                    omega arith,
                    (
                      omega arith,
                      (
                        omega arith,
                        (
                          omega arith,
                          (
                            omega arith,
                            (omega arith, (omega arith, (omega arith, (omega arith, tt)))),
                          ),
                        ),
                      ),
                    ),
                  ),
                ),
              ),
            ),
          ),
        ),
      ),
    ),
  ),
)

deserialize-Accepts_example : (rest : Chunk) × (read_bytes_1 ≡ InputSerial.layout nine ++ rest)
deserialize-Accepts_example = deserialize-Accepts read_bytes_1 nine nine_read-IsByte nine_read

accept_mutation-slot_example :
    let k = accept_mutation 100 0 8 (get_chunk two_chunks 0) (7 ∷ 1 ∷ []) (7 ∷ []) two_chunks in
    let kept = leb 2 8 in
    (get_chunk k (slot 0 two_chunks) ≡ (if kept then 7 ∷ 1 ∷ [] else get_chunk two_chunks 0))
    × (get_chunk k 1 ≡ get_chunk two_chunks 1)
    × (k.mutators ≡ (if kept then insert 100 tt [] else []))
    × (k.insertions ≡ (if kept && not false then (7 ∷ []) ∷ [] else []))
accept_mutation-slot_example =
    accept_mutation-slot 100 0 8 1 (7 ∷ 1 ∷ []) (7 ∷ []) two_chunks (λ e. absurd (omega arith))

abbrev mutated_chunks : Input
mutated_chunks = record {
  chunks = (7 ∷ 1 ∷ 2 ∷ []) ∷ (3 ∷ []) ∷ [] ∷ [];
  insertions = (7 ∷ []) ∷ [];
  mutators = (100, tt) ∷ [];
}

abbrev later : World
later = record { rand = record { tape = λ n. n; at = 7 }; history = some []; visited = [] }

mutated : Inputs.mutate_random 4 seven 3 8 two_chunks world ≡ ok (mutated_chunks, later)
unfolding Inputs.mutate_random wants_chunk mutate_chunk accept_mutation get_chunk set_chunk put
    add_chunk rand_bool draw below insert
mutated = refl

mutate_random-size_example :
    (size two_chunks ≤ size mutated_chunks) × (0 < size mutated_chunks) × (size mutated_chunks ≤ 3)
mutate_random-size_example =
    mutate_random-size 4 seven 3 8 two_chunks mutated_chunks world later (omega arith) (omega arith)
      mutated

abbrev mutated_input : InputCluster
mutated_input = record one_input { cluster = (4, mutated_chunks) ∷ [] }

mutated_within : Clusters.mutate_random 4 seven 9 one_input world ≡ ok (mutated_input, later)
unfolding Clusters.mutate_random Inputs.mutate_random wants_chunk mutate_chunk accept_mutation
    get_chunk set_chunk put add_chunk rand_bool draw below insert assign lookup get update
mutated_within = refl

few_chunks : size (get 4 one_input).0 ≤ min 9 3
unfolding get lookup
few_chunks = omega arith

mutate_random-lookup_example :
    ((i : Input) × (lookup 4 mutated_input.cluster ≡ some i) × (0 < size i) × (size i ≤ min 9 3))
    × (lookup 5 mutated_input.cluster ≡ lookup 5 one_input.cluster)
mutate_random-lookup_example =
    mutate_random-lookup 4 5 seven 9 one_input mutated_input world later (λ e. absurd (omega arith))
      (omega arith) (omega arith) few_chunks mutated_within
