-- ===== src/Tests/Loads.antt =====
-- A file system with one folder of two files, both of which hold a cluster without inputs.
use vfuzz.Prelude.{
  ◌≡◌, true, false, ◌||◌, [], ◌∷◌, length, none, some, ok, ◌>>=◌, ◌==◌, is_empty, if◌then◌else◌,
}
use vfuzz.Codec.Words.{u64}
use vfuzz.Util.Io.{System}
use vfuzz.Exec.Loading.{Manager, new, process}
use vfuzz.Exec.Loading.Files.{add_all, clusters_at, any_directory, any_file, first_directory}
use vfuzz.Exec.Loading.Processing.{process-additions}

-- The folder is `a`, and its files are `a/b` and `a/c`; the entry `.` is no file.
abbrev disk : System
disk = record {
  stat = λ fn. if is_empty fn then none else some (length fn == 1);
  open_directory = λ fn. some (
      record { name = 46 ∷ []; is_listed = false }
      ∷ record { name = 98 ∷ []; is_listed = true }
      ∷ record { name = 99 ∷ []; is_listed = true }
      ∷ []);
  open_file = λ fn. if is_empty fn then none else some (8, u64 0);
  max_size = 4096;
}

abbrev manager : Manager
manager = new 4 8 ((97 ∷ []) ∷ (97 ∷ 98 ∷ []) ∷ [])

process-additions_example : process disk true manager ≡ (do
  ics ← clusters_at disk 4 8 true manager.files
  ok (record manager {
    corpus = add_all ics manager.corpus;
    directory_specified = false || any_directory disk manager.files;
    files_specified = false || any_file disk manager.files;
    working_directory = first_directory disk [] manager.files;
    is_processed = true;
  }))
unfolding new
process-additions_example = process-additions disk true manager
