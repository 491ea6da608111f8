-- ===== src/Tests/Dictionaries.antt =====
-- A dictionary with one set of two chunks, and the tables of an automatic one.
use vfuzz.Prelude.{◌%◌, ℕ, ◌≡◌, ◌⊎◌, refl, [], ◌∷◌, ok, some}
use vfuzz.OrdMap.{lookup}
use vfuzz.Codec.Words.{Chunk}
use vfuzz.Util.World.{World}
use vfuzz.Dictionary.{Dictionary, set_of, get_random}
use vfuzz.Dictionary.Chunks.{IsIn}
use vfuzz.Dictionary.Choice.{dictionary_get_random-Returns}
use vfuzz.AutoDict.{insert_torc}
use vfuzz.AutoDict as AutoDict
use vfuzz.AutoDict.Compares.{IsSized, IsHeld, autodict_get_random-IsHeld}

abbrev world : World
world = record { rand = record { tape = λ n. n; at = 5 }; history = some []; visited = [] }

abbrev words : Dictionary
words = (2, (1 ∷ []) ∷ (1 ∷ 2 ∷ []) ∷ []) ∷ []

held : IsIn (1 ∷ 2 ∷ []) (set_of 2 words)
unfolding lookup
held = (1, refl)

dictionary_get_random-Returns_example :
    (c : Chunk) × (w' : World) × (get_random words world ≡ ok (c, w'))
    × ((c ≡ []) ⊎ ((id : ℕ) × IsIn c (set_of id words)))
dictionary_get_random-Returns_example = dictionary_get_random-Returns words world

tables : IsSized AutoDict.new
tables = (refl, refl)

autodict_get_random-IsHeld_example :
    IsSized (insert_torc 5 9 4 AutoDict.new)
    × ((value : ℕ) × (w' : World) × (AutoDict.get_random (insert_torc 5 9 4 AutoDict.new) world
          ≡ ok (value % 256 ∷ [], w'))
        × (IsHeld value (insert_torc 5 9 4 AutoDict.new).torc4
            ⊎ IsHeld value (insert_torc 5 9 4 AutoDict.new).torc8))
autodict_get_random-IsHeld_example = autodict_get_random-IsHeld 5 9 4 AutoDict.new world tables
