-- ===== src/Dictionary.antt =====
-- dictionary::Dictionary of libvfuzz-core/src/dictionary/dictionary.h and dictionary.cpp: sets of
-- chunks by number, and a random choice from them.
pub mod Chunks
pub mod Choice
use vfuzz.Prelude.{
  nth, ℕ, Bool, true, false, Option, none, some, List, [], ◌∷◌, length, get_elem?, is_empty, ltb,
  if◌then◌else◌, Result, ok, err, fault,
}
use vfuzz.OrdMap.{OrdMap, lookup, assign}
use vfuzz.Codec.Words.{Chunk}
use vfuzz.Util.World.{World, M, ◌>>=◌, pure, run, get}

-- `<` on std::vector<uint8_t>
unfoldable pub chunk_less : Chunk → Chunk → Bool
chunk_less c [] = false
chunk_less [] (y ∷ d) = true
chunk_less (x ∷ c) (y ∷ d) =
    let rest = chunk_less c d in if ltb x y then true else if ltb y x then false else rest

-- std::set<Chunk>::insert, on the elements in order
unfoldable pub insert_chunk : Chunk → List Chunk → List Chunk
insert_chunk c [] = c ∷ []
insert_chunk c (d ∷ s) =
    let rest = insert_chunk c s in
    if chunk_less c d then c ∷ d ∷ s else if chunk_less d c then d ∷ rest else d ∷ s

abbrev pub Dictionary : Type 0
Dictionary = OrdMap (List Chunk)

-- `dictionary[ID]`, an empty set where there was none
abbrev pub set_of : ℕ → Dictionary → List Chunk
set_of id d = elim (lookup id d) [ none ↦ [] | some s ↦ s ]

-- Add
unfoldable pub add : ℕ → Chunk → Dictionary → Dictionary
add id c d = assign id (insert_chunk c (set_of id d)) d

-- Add of a pair
unfoldable pub add_pair : ℕ → Chunk × Chunk → Dictionary → Dictionary
unfolding add
add_pair id (c, c') d = add id c' (add id c d)

-- ClearSet
unfoldable pub clear_set : ℕ → Dictionary → Dictionary
clear_set id d = elim (lookup id d) [ none ↦ d | some s ↦ assign id [] d ]

-- GetRandomFromSet
unfoldable pub get_random_from_set : ℕ → Dictionary → M Chunk
get_random_from_set id d =
    if is_empty (set_of id d)
    then pure []
    else (do index ← get (length (set_of id d)); run (nth (set_of id d) index))

-- GetRandom
unfoldable pub get_random : Dictionary → M Chunk
get_random d =
    if is_empty d
    then pure []
    else (do index ← get (length d); (id, s) ← run (nth d index); get_random_from_set id d)
