-- ===== src/Util/History.antt =====
-- mutator::History of libvfuzz-core/src/mutator/history.h and history.cpp.
use vfuzz.Prelude.{ℕ, none, some, List, [], ◌∷◌, ◌++◌}
use vfuzz.OrdMap.{OrdMap, lookup, assign}

-- std::string, as the codes of its characters
abbrev pub Text : Type 0
Text = List ℕ

pub record Entry : Type 0 where
  pub name : Text
  pub desc : Text

abbrev pub History : Type 0
History = OrdMap (List Entry)

-- `history[gid]`, which is empty where there was none
abbrev pub entries : ℕ → History → List Entry
entries gid h = elim (lookup gid h) [ none ↦ [] | some es ↦ es ]

-- Add
unfoldable pub add : ℕ → Text → Text → History → History
add gid name desc h = assign gid (entries gid h ++ (record { name = name; desc = desc } ∷ [])) h

-- Clear
abbrev pub clear : History → History
clear h = []
