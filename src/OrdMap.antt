-- ===== src/OrdMap.antt =====
-- std::map with unsigned keys, as the program uses it: the list of its entries in the order of
-- iteration, which is that of the keys.
pub mod Laws
use vfuzz.Prelude.{
  ℕ, ◌<◌, Bool, true, false, Option, none, some, List, [], ◌∷◌, map, ltb, ◌==◌, if◌then◌else◌,
  length,
}

abbrev pub OrdMap {ℓ} : Type ℓ → Type ℓ
OrdMap V = List (ℕ × V)

module _ {ℓ} {V : Type ℓ} where
  -- `find(k)`, with `none` for `end()`
  unfoldable pub lookup : ℕ → OrdMap V → Option V
  lookup k [] = none
  lookup k ((j, w) ∷ m) = if k == j then some w else lookup k m

  -- `count(k) > 0`
  unfoldable pub contains : ℕ → OrdMap V → Bool
  contains k [] = false
  contains k ((j, w) ∷ m) = if k == j then true else contains k m

  -- `insert({k, v})`, which keeps an entry that is there
  unfoldable pub insert : ℕ → V → OrdMap V → OrdMap V
  insert k v [] = (k, v) ∷ []
  insert k v ((j, w) ∷ m) =
      if ltb k j then (k, v) ∷ (j, w) ∷ m else if k == j then (j, w) ∷ m else (j, w) ∷ insert k v m

  -- `m[k] = v`, which overwrites
  unfoldable pub assign : ℕ → V → OrdMap V → OrdMap V
  assign k v [] = (k, v) ∷ []
  assign k v ((j, w) ∷ m) =
      if ltb k j then (k, v) ∷ (j, w) ∷ m else if k == j then (j, v) ∷ m else (j, w) ∷ assign k v m

  -- `erase(k)`
  unfoldable pub erase : ℕ → OrdMap V → OrdMap V
  erase k [] = []
  erase k ((j, w) ∷ m) = if k == j then m else (j, w) ∷ erase k m

  abbrev pub keys : OrdMap V → List ℕ
  keys [] = []
  keys ((j, w) ∷ m) = j ∷ keys m
