-- ===== src/Exec/Loading.antt =====
-- corpus::Manager of libvfuzz-runtime/src/container/corpus/manager.h and manager.cpp, which loads
-- clusters from files, which it reads by util/io.cpp.
pub mod Files
pub mod Processing
use vfuzz.Prelude.{
  ℕ, Bool, true, false, not, List, [], ◌∷◌, ◌++◌, Option, none, some, is_empty, Result, ok, err,
  ◌>>=◌, deserialization, fault, if◌then◌else◌,
}
use vfuzz.Codec.Words.{Chunk}
use vfuzz.Util.History.{Text}
use vfuzz.Util.Io.{System, is_directory, files_in_directory, file_to_vector}
use vfuzz.Container.InputCluster.{InputCluster, empty}
use vfuzz.Container.InputCluster.Serial as ClusterSerial
use vfuzz.Container.Corpus as Corpus
use vfuzz.Container.Corpus.{Corpus, add_input_cluster}

-- The logger and `msgShown`, which only it reads, are left out.
pub record Manager : Type 0 where
  pub max_chunks : ℕ
  pub max_chunk_len : ℕ
  pub corpus : Corpus
  pub files : List Text
  pub directory_specified : Bool
  pub files_specified : Bool
  pub working_directory : Text
  pub is_processed : Bool

-- Manager(Rand, maxChunks, maxChunkLen, files, loggerChain)
unfoldable pub new : ℕ → ℕ → List Text → Manager
new max_chunks max_chunk_len files = record {
  max_chunks = max_chunks;
  max_chunk_len = max_chunk_len;
  corpus = Corpus.new (empty max_chunks max_chunk_len);
  files = files;
  directory_specified = false;
  files_specified = false;
  working_directory = [];
  is_processed = false;
}

-- What loadInputCluster does with the outcome of Deserialize, of which it catches
-- DeserializationException.
unfoldable pub accept_cluster : Result InputCluster → Manager → Result Manager
accept_cluster (ok ic) m = ok (record m { corpus = add_input_cluster ic m.corpus })
accept_cluster (err deserialization) m = ok m
accept_cluster (err e) m = err e

module _ (os : System) where
  -- loadInputCluster
  unfoldable pub load_input_cluster : Text → Manager → Result Manager
  unfolding accept_cluster
  load_input_cluster filename m = do
    filedata ← file_to_vector os filename 0
    elim filedata [
      | none ↦ ok m
      | some bytes ↦
          accept_cluster (ClusterSerial.deserialize bytes (empty m.max_chunks m.max_chunk_len)) m
    ]

  -- The loop over the files of a directory.
  unfoldable pub load_all : List Text → Manager → Result Manager
  unfolding load_input_cluster
  load_all [] m = ok m
  load_all (filename ∷ more) m = do m ← load_input_cluster filename m; load_all more m

  -- The body of the loop of Process.
  unfoldable pub process_file : Bool → Text → Manager → Result Manager
  unfolding load_all
  process_file add_to_corpus fn m =
      if is_directory os fn
      then (do
        files ← files_in_directory os fn
        m ← if add_to_corpus then load_all files m else ok m
        ok (record m {
          working_directory = if is_empty m.working_directory then fn else m.working_directory;
          directory_specified = true;
        }))
      else (do
        m ← if add_to_corpus then load_input_cluster fn m else ok m
        ok (record m { files_specified = true }))

  -- The loop of Process.
  unfoldable pub process_files : Bool → List Text → Manager → Result Manager
  unfolding process_file
  process_files add_to_corpus [] m = ok m
  process_files add_to_corpus (fn ∷ more) m = do
    m ← process_file add_to_corpus fn m
    process_files add_to_corpus more m

  -- Process
  unfoldable pub process : Bool → Manager → Result Manager
  unfolding process_files
  process add_to_corpus m = do
    m ← process_files add_to_corpus m.files m
    ok (record m { is_processed = true })

-- GetWorkingDirectory
unfoldable pub get_working_directory : Manager → Result Text
get_working_directory m = if not m.is_processed then err fault else ok m.working_directory
