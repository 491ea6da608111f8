-- ===== src/Exec/Loading/Files.antt =====
-- What Process loads, described file by file.
use vfuzz.Prelude.{
  ℕ, ◌≡◌, refl, sym, ap, ◌∙◌, Bool, false, ◌||◌, ◌&&◌, not, List, [], ◌∷◌, ◌++◌, Option, none, some,
  is_empty, Result, ok, err, ◌>>=◌, IsSafe, deserialization, exception, runtime_error, construction,
  length_error, fault, if◌then◌else◌,
}
use vfuzz.Codec.Words.{Chunk}
use vfuzz.Util.History.{Text}
use vfuzz.Util.Io.{System, is_directory, files_in_directory, file_to_vector}
use vfuzz.Container.InputCluster.{InputCluster, empty}
use vfuzz.Container.InputCluster.Serial as ClusterSerial
use vfuzz.Container.InputCluster.Safety.{cluster_deserialize-IsSafe}
use vfuzz.Container.Corpus.{Corpus, add_input_cluster}
use vfuzz.Exec.Loading.{Manager, accept_cluster, load_input_cluster, load_all}

abbrev pub accepted : Result InputCluster → List InputCluster
accepted (ok ic) = ic ∷ []
accepted (err e) = []

abbrev pub add_all : List InputCluster → Corpus → Corpus
add_all [] c = c
add_all (ic ∷ ics) c = add_all ics (add_input_cluster ic c)

pub add_all-append :
    (xs ys : List InputCluster) (c : Corpus) → add_all (xs ++ ys) c ≡ add_all ys (add_all xs c)
add_all-append [] ys c = refl
add_all-append (x ∷ xs) ys c = add_all-append xs ys (add_input_cluster x c)

module _ (max_chunks max_chunk_len : ℕ) where
  -- The cluster that the bytes of a file are, if they are one.
  abbrev pub cluster_of : Option Chunk → List InputCluster
  cluster_of none = []
  cluster_of (some bytes) =
      accepted (ClusterSerial.deserialize bytes (empty max_chunks max_chunk_len))

module _ (os : System) (max_chunks max_chunk_len : ℕ) where
  -- The cluster that a file holds, if it can be opened and is one.
  abbrev pub cluster_in : Text → Result (List InputCluster)
  cluster_in fn = do found ← file_to_vector os fn 0; ok (cluster_of max_chunks max_chunk_len found)

  abbrev pub clusters_in : List Text → Result (List InputCluster)
  clusters_in [] = ok []
  clusters_in (fn ∷ more) = do here ← cluster_in fn; rest ← clusters_in more; ok (here ++ rest)

  -- The clusters of a name: of the file, or of the files of the directory.
  abbrev pub clusters_of : Bool → Text → Result (List InputCluster)
  clusters_of add_to_corpus fn =
      if is_directory os fn
      then (do fns ← files_in_directory os fn; if add_to_corpus then clusters_in fns else ok [])
      else if add_to_corpus
      then cluster_in fn
      else ok []

  abbrev pub clusters_at : Bool → List Text → Result (List InputCluster)
  clusters_at add_to_corpus [] = ok []
  clusters_at add_to_corpus (fn ∷ more) = do
    here ← clusters_of add_to_corpus fn
    rest ← clusters_at add_to_corpus more
    ok (here ++ rest)

module _ (os : System) where
  abbrev pub any_directory : List Text → Bool
  any_directory [] = false
  any_directory (fn ∷ more) = is_directory os fn || any_directory more

  abbrev pub any_file : List Text → Bool
  any_file [] = false
  any_file (fn ∷ more) = not (is_directory os fn) || any_file more

  -- The directory that is there, or the first one named.
  abbrev pub first_directory : Text → List Text → Text
  first_directory found [] = found
  first_directory found (fn ∷ more) =
      first_directory (if is_directory os fn && is_empty found then fn else found) more

-- The manager with the clusters that were read added.
abbrev pub loaded : Result (List InputCluster) → Manager → Result Manager
loaded r m = do ics ← r; ok (record m { corpus = add_all ics m.corpus })

loaded-append :
    (xs : List InputCluster) (s : Result (List InputCluster)) (m : Manager)
    → loaded s (record m { corpus = add_all xs m.corpus }) ≡ loaded (do ys ← s; ok (xs ++ ys)) m
loaded-append xs (ok ys) m =
    ap (λ c. ok (record m { corpus = c })) (sym (add_all-append xs ys m.corpus))
loaded-append xs (err e) m = refl

accept-accepted :
    (r : Result InputCluster) (m : Manager)
    → IsSafe r
    → accept_cluster r m ≡ ok (record m { corpus = add_all (accepted r) m.corpus })
unfolding accept_cluster
accept-accepted (ok ic) m h = refl
accept-accepted (err deserialization) m h = refl
accept-accepted (err exception) m h = absurd h
accept-accepted (err runtime_error) m h = absurd h
accept-accepted (err construction) m h = absurd h
accept-accepted (err length_error) m h = absurd h
accept-accepted (err fault) m h = absurd h

load_option :
    (o : Result (Option Chunk)) (m : Manager)
    → (do
      found ← o
      elim found [
        | none ↦ ok m
        | some bytes ↦
            accept_cluster (ClusterSerial.deserialize bytes (empty m.max_chunks m.max_chunk_len)) m
      ])
      ≡ loaded (do found ← o; ok (cluster_of m.max_chunks m.max_chunk_len found)) m
load_option (err e) m = refl
load_option (ok none) m = refl
load_option (ok (some bytes)) m =
    let fresh = empty m.max_chunks m.max_chunk_len in
    accept-accepted (ClusterSerial.deserialize bytes fresh) m
      (cluster_deserialize-IsSafe bytes fresh)

module _ (os : System) where
  pub load-cluster_in :
      (fn : Text) (m : Manager)
      → load_input_cluster os fn m ≡ loaded (cluster_in os m.max_chunks m.max_chunk_len fn) m
  unfolding load_input_cluster
  load-cluster_in fn m = load_option (file_to_vector os fn 0) m

  -- One step of a load, and the rest.
  load_step :
      (r s : Result (List InputCluster)) (m : Manager) (f : Manager → Result Manager)
      → ((xs : List InputCluster)
          → f (record m { corpus = add_all xs m.corpus })
            ≡ loaded s (record m { corpus = add_all xs m.corpus }))
      → (loaded r m >>= f) ≡ loaded (do xs ← r; ys ← s; ok (xs ++ ys)) m
  load_step (err e) s m f h = refl
  load_step (ok xs) s m f h = h xs ∙ loaded-append xs s m

  pub load_all-clusters_in :
      (fns : List Text) (m : Manager)
      → load_all os fns m ≡ loaded (clusters_in os m.max_chunks m.max_chunk_len fns) m
  unfolding load_all
  load_all-clusters_in [] m = refl
  load_all-clusters_in (fn ∷ more) m =
      ap (λ r. r >>= load_all os more) (load-cluster_in fn m)
      ∙ load_step (cluster_in os m.max_chunks m.max_chunk_len fn)
          (clusters_in os m.max_chunks m.max_chunk_len more) m (load_all os more)
          (λ xs. load_all-clusters_in more (record m { corpus = add_all xs m.corpus }))
