-- ===== src/Container/Corpus/Serial.antt =====
-- Corpus::Serialize and Corpus::Deserialize.
use vfuzz.Prelude.{
  ℕ, zero, suc, ◌+◌, ◌≡◌, refl, List, [], ◌∷◌, ◌++◌, length, Result, ok, ◌>>=◌, arith, append_assoc,
  append-nil,
}
use vfuzz.Codec.Words.{Chunk, u64, length-le_bytes}
use vfuzz.Codec.Cursor.{Cursor, start, read_u64, read_bytes}
use vfuzz.Codec.Buffer.{Writer, sized, filled, write, write-filled}
use vfuzz.Container.InputCluster.{InputCluster, empty}
use vfuzz.Container.InputCluster.Serial as ClusterSerial
use vfuzz.Container.Corpus.{Corpus, add_input_cluster}

-- The sum that sizes the vector, past the first word.
unfoldable pub clusters_size : List InputCluster → Result ℕ
clusters_size [] = ok 0
clusters_size (c ∷ cs) = do
  body ← ClusterSerial.serialize c
  rest ← clusters_size cs
  ok (8 + length body + rest)

unfoldable pub write_clusters : List InputCluster → Writer → Result Writer
write_clusters [] w = ok w
write_clusters (c ∷ cs) w = do
  body ← ClusterSerial.serialize c
  w ← write (u64 (length body)) w
  w ← write body w
  write_clusters cs w

-- Serialize
unfoldable pub serialize : Corpus → Result Chunk
unfolding clusters_size write_clusters
serialize c = do
  size ← clusters_size c.corpus
  w ← write (u64 (length c.corpus)) (sized (8 + size))
  w ← write_clusters c.corpus w
  ok w.buffer

-- The loop of Deserialize, over the clusters that `numInputClusters` still promises.
unfoldable pub read_clusters : Chunk → ℕ → Cursor → Corpus → Result Corpus
unfolding add_input_cluster
read_clusters s zero c corpus = ok corpus
read_clusters s (suc left) c corpus = do
  (n, c) ← read_u64 s c
  (body, c) ← read_bytes s n c
  ic ← ClusterSerial.deserialize body (empty 4096 4096)
  read_clusters s left c (add_input_cluster ic corpus)

-- Deserialize
unfoldable pub deserialize : Chunk → Corpus → Result Corpus
unfolding read_clusters
deserialize s corpus = do (total, c) ← read_u64 s (start s); read_clusters s total c corpus

-- The bytes of a corpus: the number of clusters, then each layout behind its size.
unfoldable pub clusters_layout : List InputCluster → Chunk
clusters_layout [] = []
clusters_layout (c ∷ cs) =
    let body = ClusterSerial.layout c in u64 (length body) ++ (body ++ clusters_layout cs)

unfoldable pub layout : Corpus → Chunk
unfolding clusters_layout
layout c = u64 (length c.corpus) ++ clusters_layout c.corpus

abbrev layouts_size : List InputCluster → ℕ
layouts_size [] = 0
layouts_size (c ∷ cs) = 8 + length (ClusterSerial.layout c) + layouts_size cs

clusters_size-layouts : (cs : List InputCluster) → clusters_size cs ≡ ok (layouts_size cs)
unfolding clusters_size
clusters_size-layouts [] = refl
clusters_size-layouts (c ∷ cs) = rw (ClusterSerial.serialize-layout c, clusters_size-layouts cs)

write_clusters-filled :
    (cs : List InputCluster) (done : Chunk) (room : ℕ)
    → write_clusters cs (filled done (layouts_size cs + room))
      ≡ ok (filled (done ++ clusters_layout cs) room)
unfolding write_clusters clusters_layout
write_clusters-filled [] done room = let e : 0 + room ≡ room = omega arith in rw (e, append-nil)
write_clusters-filled (c ∷ cs) done room =
    let body = ClusterSerial.layout c in
    let word = u64 (length body) in
    let rest = layouts_size cs + room in
    let e : 8 + length body + layouts_size cs + room ≡ length word + (length body + rest) =
      omega (arith, length-le_bytes 8 (length body)) in
    rw
      (
        e,
        ClusterSerial.serialize-layout c,
        write-filled word done (length body + rest),
        write-filled body (done ++ word) rest,
        write_clusters-filled cs ((done ++ word) ++ body) room,
      )
      (simp append_assoc)

-- Serialize never writes past the vector that it sized, and fills it with the layout.
pub serialize-layout : (c : Corpus) → serialize c ≡ ok (layout c)
unfolding serialize layout
serialize-layout c =
    let word = u64 (length c.corpus) in
    let size = layouts_size c.corpus in
    let e : 8 + size ≡ length word + (size + 0) =
      omega (arith, length-le_bytes 8 (length c.corpus)) in
    rw
      (
        clusters_size-layouts c.corpus,
        e,
        write-filled word [] (size + 0),
        write_clusters-filled c.corpus word 0,
      )
      (simp append-nil)
