-- ===== src/Tests/Mutators.antt =====
-- The mutators on a chunk of two bytes.
use vfuzz.Prelude.{
  ℕ, ◌+◌, ◌≤◌, ◌≡◌, refl, true, false, if◌then◌else◌, [], ◌∷◌, ◌++◌, take, drop, reverse, some, ok,
  arith,
}
use vfuzz.Codec.Words.{Chunk}
use vfuzz.Util.World.{World, M, pure}
use vfuzz.Mutator.Base.{Host, rand_ch, random_range}
use vfuzz.Mutator.Base.Parts.{segment}
use vfuzz.Mutator.Edits.{erase_bytes_impl, insert_dictionary_impl, insert_repeated_bytes_impl}
use vfuzz.Mutator.Edits.Limit.{Returns, insert_repeated_bytes-Returns}
use vfuzz.Mutator.Edits.Effect.{erase_bytes_keeps_range, insert_dictionary_reverses}
use vfuzz.Mutator.Ranged.{rol_byte, ror_byte, process, have_modifier, get_range, ranged_impl}
use vfuzz.Mutator.Ranged.Laws.{processed, ranged_impl-processed}
use vfuzz.Mutator.Ranged.Bytes.{process-undo}

abbrev world : World
world = record { rand = record { tape = λ n. n; at = 5 }; history = some []; visited = [] }

-- A host whose shuffle turns the chunk round.
abbrev host : Host
host = record { hex = λ c. c; shuffle = λ c r. (reverse c, r) }

abbrev pair : Chunk
pair = 1 ∷ 2 ∷ []

-- A conduit that gives three bytes.
abbrev three : ℕ → M Chunk
three gid = pure (7 ∷ 8 ∷ 9 ∷ [])

insert_repeated_bytes-Returns_example :
    Returns 8 (insert_repeated_bytes_impl host 4 pair [] 8) world
insert_repeated_bytes-Returns_example =
    insert_repeated_bytes-Returns host 4 pair [] 8 world (omega arith)

erase_bytes_keeps_range_example :
    (first count : ℕ) × (w1 w' : World) × (random_range 2 world ≡ ok ((first, count), w1))
    × (first + count ≤ 2)
    × (erase_bytes_impl host 4 pair [] 8 world ≡ ok ((segment first count pair, []), w'))
erase_bytes_keeps_range_example = erase_bytes_keeps_range host 4 pair [] 8 world

insert_dictionary_reverses_example :
    (pos : ℕ) × (w' : World) × (pos ≤ 2)
    × (insert_dictionary_impl host "words" three 4 pair [] 8 world
        ≡ ok ((take pos pair ++ (reverse (7 ∷ 8 ∷ 9 ∷ []) ++ drop pos pair), 7 ∷ 8 ∷ 9 ∷ []), w'))
insert_dictionary_reverses_example =
    insert_dictionary_reverses host "words" three 4 pair [] (7 ∷ 8 ∷ 9 ∷ []) 8 world world refl
      (omega arith) (omega arith) (omega arith)

ranged_impl-processed_example :
    (modifier first count : ℕ) × (w1 w2 w' : World) × ((if have_modifier rol_byte
          then rand_ch
          else pure 0)
        world
      ≡ ok (modifier, w1))
    × (get_range true 2 w1 ≡ ok ((first, count), w2))
    × (first + count ≤ 2)
    × (true ≡ false → count ≡ 1)
    × (ranged_impl host true rol_byte 4 pair [] 8 world
        ≡ ok ((processed rol_byte modifier first count pair, []), w'))
ranged_impl-processed_example =
    ranged_impl-processed host true rol_byte 4 pair [] 8 world (omega arith)

process-undo_example : process ror_byte (process rol_byte 200 3) 3 ≡ 200
process-undo_example = process-undo rol_byte ror_byte 200 3 refl (omega arith) (omega arith)
