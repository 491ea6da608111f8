-- ===== src/Util/Io.antt =====
-- What libvfuzz-core/src/util/io.cpp reads of files. The operating system is a parameter.
use vfuzz.Prelude.{
  ℕ, Bool, false, not, List, [], ◌∷◌, ◌++◌, reverse, take, replicate, min, ltb, ◌==◌, Option, none,
  some, if◌then◌else◌, Result, ok, err, exception, length_error, fault,
}
use vfuzz.Codec.Words.{Chunk}
use vfuzz.Util.History.{Text}

-- An entry of a directory by its name, and whether its d_type is DT_REG or DT_LNK.
pub record Entry : Type 0 where
  pub name : Text
  pub is_listed : Bool

-- stat with S_ISDIR; opendir, with what readdir then gives; an ifstream, with what tellg gives at its end
-- and the bytes that can be read; and the largest size of a vector.
pub record System : Type 0 where
  pub stat : Text → Option Bool
  pub open_directory : Text → Option (List Entry)
  pub open_file : Text → Option (ℕ × Chunk)
  pub max_size : ℕ

-- trim_right_copy_if with is_any_of("/"), on the text turned round
unfoldable pub drop_slashes : Text → Text
drop_slashes [] = []
drop_slashes (c ∷ cs) = if c == 47 then drop_slashes cs else c ∷ cs

-- DirPlusFile
unfoldable pub dir_plus_file : Text → Text → Text
unfolding drop_slashes
dir_plus_file dirpath filename = reverse (drop_slashes (reverse dirpath)) ++ (47 ∷ filename)

-- The loop of FilesInDirectory.
unfoldable pub listed : Text → List Entry → List Text
unfolding dir_plus_file
listed path [] = []
listed path (e ∷ more) =
    let rest = listed path more in if e.is_listed then dir_plus_file path e.name ∷ rest else rest

module _ (os : System) where
  -- IsDirectory
  unfoldable pub is_directory : Text → Bool
  is_directory path = elim (os.stat path) [ none ↦ false | some folder ↦ folder ]

  -- FilesInDirectory. It reads from what opendir gave also where that is null.
  unfoldable pub files_in_directory : Text → Result (List Text)
  unfolding listed
  files_in_directory path =
      if not (is_directory path) then err exception else elim (os.open_directory path) [
        | none ↦ err fault
        | some entries ↦ ok (listed path entries)
      ]

  -- FileToVector. The vector keeps its zeros where there are fewer bytes to read than tellg said.
  unfoldable pub file_to_vector : Text → ℕ → Result (Option Chunk)
  file_to_vector path maxsize = elim (os.open_file path) [
    | none ↦ ok none
    | some (told, bytes) ↦
        let filesize = if maxsize == 0 then told else min told maxsize in
        if ltb os.max_size filesize
        then err length_error
        else ok (some (take filesize (bytes ++ replicate filesize 0)))
  ]
