-- ===== src/Dictionary/Choice.antt =====
-- The random choice from a dictionary.
use vfuzz.Prelude.{
  nth_inside, get_elem?_inside, ℕ, ◌≡◌, ◌⊎◌, inl, inr, refl, List, [], ◌∷◌, length, ok, arith,
}
use vfuzz.Codec.Words.{Chunk}
use vfuzz.Util.Rand.{below, below_lt}
use vfuzz.Util.World.{World, ◌>>=◌, run}
use vfuzz.Dictionary.{Dictionary, set_of, get_random_from_set, get_random}
use vfuzz.Dictionary.Chunks.{IsIn}

from_set :
    (id : ℕ) (s : List Chunk) (d : Dictionary) (w : World)
    → set_of id d ≡ s
    → (c : Chunk) × (w' : World) × (get_random_from_set id d w ≡ ok (c, w'))
      × ((c ≡ []) ⊎ IsIn c (set_of id d))
unfolding get_random_from_set
from_set id [] d w e = rw e ([], w, refl, inl refl)
from_set id (x ∷ s) d w e =
    let index = (below (length (x ∷ s)) w.rand).0 in
    let (c, found) =
      get_elem?_inside (x ∷ s) index (below_lt (length (x ∷ s)) w.rand (omega arith)) in
    rw e (
      c,
      record w { rand = (below (length (x ∷ s)) w.rand).1 },
      rw (nth_inside (x ∷ s) index c found, run) refl,
      inr (index, found),
    )

-- GetRandom returns on every dictionary, and gives the empty chunk or an element of one of the
-- sets: no iterator is advanced past the end.
pub dictionary_get_random-Returns :
    (d : Dictionary) (w : World)
    → (c : Chunk) × (w' : World) × (get_random d w ≡ ok (c, w'))
      × ((c ≡ []) ⊎ ((id : ℕ) × IsIn c (set_of id d)))
unfolding get_random
dictionary_get_random-Returns [] w = ([], w, refl, inl refl)
dictionary_get_random-Returns (x ∷ m) w =
    let d : Dictionary = x ∷ m in
    let r = below (length d) w.rand in
    let ((id, s), found) = get_elem?_inside d r.0 (below_lt (length d) w.rand (omega arith)) in
    let (c, w', e, held) = from_set id (set_of id d) d (record w { rand = r.1 }) refl in
    (
      c,
      w',
      rw (nth_inside d r.0 (id, s) found, run, ◌>>=◌) e,
      elim held [ inl nothing ↦ inl nothing | inr inside ↦ inr (id, inside) ],
    )
