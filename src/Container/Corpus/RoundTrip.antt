-- ===== src/Container/Corpus/RoundTrip.antt =====
-- Corpus::Deserialize against the layout that Corpus::Serialize writes, and on any bytes.
use vfuzz.Prelude.{
  ℕ, zero, suc, ◌≡◌, refl, ap, ◌∙◌, List, [], ◌∷◌, ◌++◌, length, map, ok, ◌>>=◌, >>=-IsSafe, IsSafe,
  append_assoc, append-nil, if◌then◌else◌, true, false, Bool,
}
use vfuzz.OrdMap.Laws.{IsSorted}
use vfuzz.Codec.Words.{Chunk, IsU64, u64}
use vfuzz.Codec.Cursor.{
  Cursor, start, advance, IsAt, IsInside, start-IsAt, read_u64, read_bytes, read_u64-IsAt,
  read_bytes-IsAt, read_u64-IsSafe, read_bytes-IsSafe, read_u64-IsInside, read_bytes-IsInside,
}
use vfuzz.Container.InputCluster.{InputCluster, empty}
use vfuzz.Container.InputCluster.Serial as ClusterSerial
use vfuzz.Container.InputCluster.RoundTrip as ClusterRoundTrip
use vfuzz.Container.InputCluster.RoundTrip.{AreSized, bare_inputs}
use vfuzz.Container.InputCluster.Safety as ClusterSafety
use vfuzz.Container.Corpus.{Corpus, add_input_cluster}
use vfuzz.Container.Corpus.Serial.{
  read_clusters, deserialize, clusters_layout, layout, serialize, serialize-layout,
}

-- What of a cluster is serialized: the chunks by generator, and no limits.
abbrev pub bare_cluster : InputCluster → InputCluster
bare_cluster c = record (empty 4096 4096) { cluster = bare_inputs c.cluster }

abbrev pub AreSizedClusters : List InputCluster → Type 0
AreSizedClusters [] = Unit {0}
AreSizedClusters (c ∷ cs) =
    (IsU64 (length c.cluster)
      × AreSized c.cluster
      × IsSorted c.cluster
      × IsU64 (length (ClusterSerial.layout c)))
    × AreSizedClusters cs

-- All of the clusters added in turn.
abbrev pub added : List InputCluster → Corpus → Corpus
added ics c = record c {
  corpus = c.corpus ++ ics;
  notified = if c.has_on_new then c.notified ++ ics else c.notified;
}

notified-cons :
    (b : Bool) (old : List InputCluster) (ic : InputCluster) (ics : List InputCluster)
    → (if b
        then (if b then old ++ (ic ∷ []) else old) ++ ics
        else (if b then old ++ (ic ∷ []) else old))
      ≡ (if b then old ++ (ic ∷ ics) else old)
notified-cons true old ic ics = append_assoc old (ic ∷ []) ics
notified-cons false old ic ics = refl

notified-nil : (b : Bool) (old : List InputCluster) → (if b then old ++ [] else old) ≡ old
notified-nil true old = append-nil old
notified-nil false old = refl

added-cons :
    (ic : InputCluster) (ics : List InputCluster) (c : Corpus)
    → added ics (add_input_cluster ic c) ≡ added (ic ∷ ics) c
unfolding add_input_cluster
added-cons ic ics c =
    rw (append_assoc c.corpus (ic ∷ []) ics, notified-cons c.has_on_new c.notified ic ics)

read_clusters-layout :
    (cs : List InputCluster) (s : Chunk) (c : Cursor) (rest : Chunk) (corpus : Corpus)
    → AreSizedClusters cs
    → IsAt s c (clusters_layout cs ++ rest)
    → read_clusters s (length cs) c corpus ≡ ok (added (map bare_cluster cs) corpus)
unfolding read_clusters clusters_layout
read_clusters-layout [] s c rest corpus h a =
    rw (append-nil corpus.corpus, notified-nil corpus.has_on_new corpus.notified)
read_clusters-layout (x ∷ cs) s c rest corpus h a =
    let body = ClusterSerial.layout x in
    let (word, a1) = read_u64-IsAt s c (length body) _ h.0.3 (rw append_assoc at a) in
    let (bytes, a2) = read_bytes-IsAt s _ body _ (rw append_assoc at a1) in
    let read : ClusterSerial.deserialize body (empty 4096 4096) ≡ ok (bare_cluster x) =
      rw append-nil at (ClusterRoundTrip.deserialize-layout x 4096 4096 [] h.0.0 h.0.1 h.0.2) in
    rw (word, bytes, read)
      (read_clusters-layout cs s _ rest (add_input_cluster (bare_cluster x) corpus) h.1 a2
        ∙ ap ok (added-cons (bare_cluster x) (map bare_cluster cs) corpus))

-- A serialized corpus, whose numbers and sizes fit in 64 bits and whose maps are in order, is
-- read back behind the clusters that a corpus has: each cluster with its generators and chunks,
-- but with 4096 for both of its limits; and the callback, where one is set, is called with each,
-- in order.
pub corpus_round_trip :
    (c d : Corpus)
    → IsU64 (length c.corpus)
    → AreSizedClusters c.corpus
    → (serialize c >>= λ s. deserialize s d) ≡ ok (added (map bare_cluster c.corpus) d)
unfolding deserialize layout
corpus_round_trip c d h sized =
    let s = u64 (length c.corpus) ++ clusters_layout c.corpus in
    let (word, a) = read_u64-IsAt s (start s) (length c.corpus) _ h (start-IsAt s) in
    rw (serialize-layout c, word)
      (read_clusters-layout c.corpus s (advance (start s) 8) [] d sized (rw append-nil a))

read_clusters-IsSafe :
    (s : Chunk) (left : ℕ) (c : Cursor) (corpus : Corpus)
    → IsInside s c
    → IsSafe (read_clusters s left c corpus)
unfolding read_clusters
read_clusters-IsSafe s zero c corpus h = tt
read_clusters-IsSafe s (suc left) c corpus h =
    >>=-IsSafe (read_u64 s c) _ (read_u64-IsSafe s c h) λ (n, d) word.
      let inside = read_u64-IsInside s c word h in
      >>=-IsSafe (read_bytes s n d) _ (read_bytes-IsSafe s n d inside) λ (body, e) got.
        >>=-IsSafe (ClusterSerial.deserialize body (empty 4096 4096)) _
          (ClusterSafety.cluster_deserialize-IsSafe body (empty 4096 4096))
          λ ic _.
            read_clusters-IsSafe s left e (add_input_cluster ic corpus)
              (read_bytes-IsInside s n d got inside)

-- On every vector of bytes Deserialize returns or throws DeserializationException, also in the clusters and
-- inputs that it reads in turn.
pub corpus_deserialize-IsSafe : (s : Chunk) (corpus : Corpus) → IsSafe (deserialize s corpus)
unfolding deserialize
corpus_deserialize-IsSafe s corpus =
    >>=-IsSafe (read_u64 s (start s)) _ (read_u64-IsSafe s (start s) (start-IsAt s).inside)
      λ (total, c) word.
        read_clusters-IsSafe s total c corpus
          (read_u64-IsInside s (start s) word (start-IsAt s).inside)
