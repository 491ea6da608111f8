-- ===== src/AutoDict/Compares.antt =====
-- The tables keep their size, and what is drawn from them is one byte.
use vfuzz.Prelude.{
  ℕ, ◌%◌, ◌^◌, ◌≡◌, ◌⊎◌, inl, inr, refl, Bool, true, false, [], ◌∷◌, length, length-set, get_elem?,
  get_elem?_inside, nth_inside, some, ok, Bool-cases, if◌then◌else◌, arith,
}
use vfuzz.Util.Rand.{draw, rand_bool}
use vfuzz.Util.World.{World, run}
use vfuzz.AutoDict.{AutoDict, Table, insert, insert_torc, xor, chunk_of, get_from, get_random}

abbrev pub IsSized : AutoDict → Type 0
IsSized d = (length d.torc4 ≡ 32) × (length d.torc8 ≡ 32)

-- The number is one of a pair of the table.
abbrev pub IsHeld : ℕ → Table → Type 0
IsHeld value t =
    (i : ℕ) × (pair : ℕ × ℕ) × (get_elem? t i ≡ some pair) × ((value ≡ pair.0) ⊎ (value ≡ pair.1))

insert_torc-IsSized : (a b len : ℕ) (d : AutoDict) → IsSized d → IsSized (insert_torc a b len d)
unfolding insert_torc insert
insert_torc-IsSized a b len d h =
    let index = xor 64 a b % 32 in
    ground (
      arith,
      length-set d.torc4 index (a % 2 ^ 32, b % 2 ^ 32),
      length-set d.torc8 index (a % 2 ^ 64, b % 2 ^ 64),
    )

get_from-IsHeld :
    (t : Table) (w : World)
    → length t ≡ 32
    → (value : ℕ) × (w' : World) × (get_from t w ≡ ok (chunk_of value, w')) × IsHeld value t
unfolding get_from
get_from-IsHeld t w sized =
    let (n, r) = draw w.rand in
    let (first, r') = rand_bool r in
    let (pair, found) = get_elem?_inside t (n % 32) (omega (arith, sized)) in
    (
      if first then pair.0 else pair.1,
      record w { rand = r' },
      rw (nth_inside t (n % 32) pair found, run) refl,
      (n % 32, pair, found, chosen first pair),
    )
  where
    chosen :
        (b : Bool) (p : ℕ × ℕ) → ((if b then p.0 else p.1) ≡ p.0) ⊎ ((if b then p.0 else p.1) ≡ p.1)
    chosen true p = inl refl
    chosen false p = inr refl

-- On tables of 32 pairs each, InsertTorc leaves tables of that size, and GetRandom returns a
-- chunk of exactly one byte, the lowest of a number in one of the tables.
pub autodict_get_random-IsHeld :
    (a b len : ℕ) (d : AutoDict) (w : World)
    → IsSized d
    → IsSized (insert_torc a b len d)
      × ((value : ℕ) × (w' : World) × (get_random (insert_torc a b len d) w
            ≡ ok (value % 256 ∷ [], w'))
          × (IsHeld value (insert_torc a b len d).torc4
              ⊎ IsHeld value (insert_torc a b len d).torc8))
unfolding get_random
autodict_get_random-IsHeld a b len d w sized =
    let d' = insert_torc a b len d in
    let kept = insert_torc-IsSized a b len d sized in
    let w1 : World = record w { rand = (rand_bool w.rand).1 } in
    (
      kept,
      elim (Bool-cases (rand_bool w.rand).0) [
        | inl four ↦
            let (value, w', e, held) = get_from-IsHeld d'.torc4 w1 kept.0 in
            (value, w', rw four e, inl held)
        | inr eight ↦
            let (value, w', e, held) = get_from-IsHeld d'.torc8 w1 kept.1 in
            (value, w', rw eight e, inr held)
      ],
    )
