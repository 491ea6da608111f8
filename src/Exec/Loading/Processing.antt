-- ===== src/Exec/Loading/Processing.antt =====
-- Process against the description of what it loads.
use vfuzz.Prelude.{
  ◌≡◌, refl, sym, ap, ◌∙◌, Bool, true, false, ◌||◌, ◌&&◌, not, List, [], ◌∷◌, ◌++◌, is_empty,
  Result, ok, err, ◌>>=◌, if◌then◌else◌, Bool-cases, inl, inr,
}
use vfuzz.Util.History.{Text}
use vfuzz.Util.Io.{System, is_directory, files_in_directory}
use vfuzz.Container.InputCluster.{InputCluster}
use vfuzz.Container.Corpus.{Corpus}
use vfuzz.Exec.Loading.{Manager, load_input_cluster, load_all, process_file, process_files, process}
use vfuzz.Exec.Loading.Files.{
  loaded, clusters_of, add_all, add_all-append, cluster_in, clusters_in, clusters_at, any_directory,
  any_file, first_directory, load-cluster_in, load_all-clusters_in,
}

-- A manager with what Process changes.
abbrev changed : Manager → Corpus → Bool → Bool → Text → Manager
changed m corpus directory file working = record m {
  corpus = corpus;
  directory_specified = directory;
  files_specified = file;
  working_directory = working;
}

changed-path :
    (m : Manager) {c c' : Corpus} {d d' f f' : Bool} {t t' : Text}
    → c ≡ c'
    → d ≡ d'
    → f ≡ f'
    → t ≡ t'
    → ok (changed m c d f t) ≡ ok (changed m c' d' f' t')
changed-path m {c' = c'} {d = d} {d' = d'} {f = f} {f' = f'} {t = t} p q r s =
    ap (λ x. ok (changed m x d f t)) p
    ∙ ap (λ x. ok (changed m c' x f t)) q
    ∙ ap (λ x. ok (changed m c' d' x t)) r
    ∙ ap (λ x. ok (changed m c' d' f' x)) s

or_true : (b : Bool) → (b || true) ≡ true
or_true true = refl
or_true false = refl

or_false : (b : Bool) → (b || false) ≡ b
or_false true = refl
or_false false = refl

or_assoc : (a b c : Bool) → ((a || b) || c) ≡ (a || (b || c))
or_assoc true b c = refl
or_assoc false b c = refl

-- A load under the guard of `addToCorpus`.
guarded :
    (b : Bool) (r : Result Manager) (ics : Result (List InputCluster)) (m : Manager)
    → r ≡ loaded ics m
    → (if b then r else ok m) ≡ loaded (if b then ics else ok []) m
guarded true r ics m e = e
guarded false r ics m e = refl

-- The step sets the flags and the working directory, whatever the corpus is.
abbrev Sets : (Manager → Result Manager) → Bool → Bool → Text → Manager → Type 0
Sets k d f t m = (c : Corpus) → k (record m { corpus = c }) ≡ ok (changed m c d f t)

-- What a load and the flags leave.
abbrev finished : Result (List InputCluster) → Bool → Bool → Text → Manager → Result Manager
finished r d f t m = do ics ← r; ok (changed m (add_all ics m.corpus) d f t)

loaded-finished :
    (r : Result (List InputCluster)) (d f : Bool) (t : Text) (m : Manager)
    (k : Manager → Result Manager)
    → Sets k d f t m
    → (loaded r m >>= k) ≡ finished r d f t m
loaded-finished (ok ics) d f t m k h = h (add_all ics m.corpus)
loaded-finished (err e) d f t m k h = refl

finished-path :
    (r : Result (List InputCluster)) (m : Manager) (t : Text) {d d' f f' : Bool}
    → d ≡ d'
    → f ≡ f'
    → finished r d f t m ≡ finished r d' f' t m
finished-path r m t {d' = d'} {f = f} p q =
    ap (λ x. finished r x f t m) p ∙ ap (λ x. finished r d' x t m) q

finished-processed :
    (r : Result (List InputCluster)) (d f : Bool) (t : Text) (m : Manager)
    → (finished r d f t m >>= λ n. ok (record n { is_processed = true })) ≡ (do
      ics ← r
      ok (record m {
        corpus = add_all ics m.corpus;
        directory_specified = d;
        files_specified = f;
        working_directory = t;
        is_processed = true;
      }))
finished-processed (ok ics) d f t m = refl
finished-processed (err e) d f t m = refl

-- One name, and the others.
finished_step :
    (r s : Result (List InputCluster)) (d f d' f' : Bool) (t t' : Text) (m : Manager)
    (g : Manager → Result Manager)
    → ((xs : List InputCluster)
        → g (changed m (add_all xs m.corpus) d f t)
          ≡ finished s d' f' t' (changed m (add_all xs m.corpus) d f t))
    → (finished r d f t m >>= g) ≡ finished (do xs ← r; ys ← s; ok (xs ++ ys)) d' f' t' m
finished_step (err e) s d f d' f' t t' m g h = refl
finished_step (ok xs) (ok ys) d f d' f' t t' m g h =
    h xs ∙ ap (λ c. ok (changed m c d' f' t')) (sym (add_all-append xs ys m.corpus))
finished_step (ok xs) (err e) d f d' f' t t' m g h = h xs

module _ (os : System) where
  -- The files of a directory, once they were listed.
  listed-finished :
      (b : Bool) (listed : Result (List Text)) (d f : Bool) (t : Text) (m : Manager)
      (k : Manager → Result Manager)
      → Sets k d f t m
      → (listed >>= λ fns. (if b then load_all os fns m else ok m) >>= k)
        ≡ finished
            (do fns ← listed; if b then clusters_in os m.max_chunks m.max_chunk_len fns else ok [])
            d
            f
            t
            m
  listed-finished b (err e) d f t m k h = refl
  listed-finished b (ok fns) d f t m k h =
      let ics = clusters_in os m.max_chunks m.max_chunk_len fns in
      ap (λ r. r >>= k) (guarded b (load_all os fns m) ics m (load_all-clusters_in os fns m))
      ∙ loaded-finished (if b then ics else ok []) d f t m k h

  process_file-finished :
      (b : Bool) (fn : Text) (m : Manager)
      → process_file os b fn m
        ≡ finished
            (clusters_of os m.max_chunks m.max_chunk_len b fn)
            (m.directory_specified || is_directory os fn)
            (m.files_specified || not (is_directory os fn))
            (if is_directory os fn && is_empty m.working_directory then fn else m.working_directory)
            m
  unfolding process_file
  process_file-finished b fn m = elim (Bool-cases (is_directory os fn)) [
    | inl folder ↦
        let t = if is_empty m.working_directory then fn else m.working_directory in
        let ics : Result (List InputCluster) =
          (files_in_directory os fn >>= λ fns.
          if b then clusters_in os m.max_chunks m.max_chunk_len fns else ok []) in
        rw folder (
          listed-finished b (files_in_directory os fn) true m.files_specified t m
            (λ n. ok (record n {
              working_directory = if is_empty n.working_directory then fn else n.working_directory;
              directory_specified = true;
            }))
            (λ c. refl)
          ∙ finished-path ics m t (sym (or_true m.directory_specified))
              (sym (or_false m.files_specified)))
    | inr file ↦
        let ics = cluster_in os m.max_chunks m.max_chunk_len fn in
        rw file (
          ap (λ r. r >>= λ (n : Manager). ok (record n { files_specified = true }))
            (guarded b (load_input_cluster os fn m) ics m (load-cluster_in os fn m))
          ∙ loaded-finished (if b then ics else ok []) m.directory_specified true
              m.working_directory m (λ n. ok (record n { files_specified = true })) (λ c. refl)
          ∙ finished-path (if b then ics else ok []) m m.working_directory
              (sym (or_false m.directory_specified)) (sym (or_true m.files_specified)))
  ]

  process_files-finished :
      (b : Bool) (fns : List Text) (m : Manager)
      → process_files os b fns m
        ≡ finished
            (clusters_at os m.max_chunks m.max_chunk_len b fns)
            (m.directory_specified || any_directory os fns)
            (m.files_specified || any_file os fns)
            (first_directory os m.working_directory fns)
            m
  unfolding process_files
  process_files-finished b [] m =
      finished-path (ok []) m m.working_directory (sym (or_false m.directory_specified))
        (sym (or_false m.files_specified))
  process_files-finished b (fn ∷ more) m =
      let here = clusters_of os m.max_chunks m.max_chunk_len b fn in
      let rest = clusters_at os m.max_chunks m.max_chunk_len b more in
      let d = m.directory_specified || is_directory os fn in
      let f = m.files_specified || not (is_directory os fn) in
      let t =
        if is_directory os fn && is_empty m.working_directory then fn else m.working_directory in
      let t' = first_directory os t more in
      ap (λ r. r >>= process_files os b more) (process_file-finished b fn m)
      ∙ finished_step here rest d f (d || any_directory os more) (f || any_file os more) t t' m
          (process_files os b more)
          (λ xs. process_files-finished b more (changed m (add_all xs m.corpus) d f t))
      ∙ finished-path (here >>= λ xs. rest >>= λ ys. ok (xs ++ ys)) m t'
          (or_assoc m.directory_specified (is_directory os fn) (any_directory os more))
          (or_assoc m.files_specified (not (is_directory os fn)) (any_file os more))

  -- Process, against a description of what it reads: in the order of the names, the clusters of the
  -- files named and of those in the directories named where it is to add to the corpus, and the mere
  -- lists of the directories where it is not. Where all this can be read, Process returns, with those
  -- clusters added that Deserialize does not refuse; files that cannot be opened are passed over. The
  -- working directory is the first directory named, unless there is one already, the two flags tell
  -- whether a directory and whether a file was named, and the rest is as before. Where a read throws
  -- or faults, Process ends as the first such read does.
  pub process-additions :
      (b : Bool) (m : Manager)
      → process os b m ≡ (do
        ics ← clusters_at os m.max_chunks m.max_chunk_len b m.files
        ok (record m {
          corpus = add_all ics m.corpus;
          directory_specified = m.directory_specified || any_directory os m.files;
          files_specified = m.files_specified || any_file os m.files;
          working_directory = first_directory os m.working_directory m.files;
          is_processed = true;
        }))
  unfolding process
  process-additions b m =
      let found = clusters_at os m.max_chunks m.max_chunk_len b m.files in
      ap (λ r. r >>= λ (n : Manager). ok (record n { is_processed = true }))
        (process_files-finished b m.files m)
      ∙ finished-processed found (m.directory_specified || any_directory os m.files)
          (m.files_specified || any_file os m.files)
          (first_directory os m.working_directory m.files) m
