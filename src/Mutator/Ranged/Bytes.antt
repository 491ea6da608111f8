-- ===== src/Mutator/Ranged/Bytes.antt =====
-- The operations on a byte: they give bytes, and which undo one another.
use vfuzz.Prelude.{
  ℕ, zero, suc, ◌<◌, ◌≡◌, Bool, true, ◌&&◌, ◌==◌, ltb, ==_iff, ltb→lt, Option, none, some, refl,
  arith,
}
use vfuzz.Codec.Words.{IsByte}
use vfuzz.Mutator.Ranged.{
  Operation, and, or, xor, not, shift_left, shift_right, change_bit, change_byte, reverse_byte,
  ror_byte, rol_byte, process,
}

-- A test of every pair of bytes, by evaluation.
unfoldable all_below : ℕ → (ℕ → Bool) → Bool
all_below zero p = true
all_below (suc n) p = p n && all_below n p

all_below_lem : (n : ℕ) (p : ℕ → Bool) (i : ℕ) → all_below n p ≡ true → i < n → p i ≡ true
unfolding all_below
all_below_lem zero p i h lt = absurd (omega arith)
all_below_lem (suc n) p i h lt = ground (arith, all_below_lem n p i)

unfoldable all_bytes : (ℕ → ℕ → Bool) → Bool
all_bytes p = all_below 256 (λ b. all_below 256 (p b))

all_bytes_lem :
    (p : ℕ → ℕ → Bool) (b m : ℕ) → all_bytes p ≡ true → IsByte b → IsByte m → p b m ≡ true
unfolding all_bytes
all_bytes_lem p b m h hb hm =
    all_below_lem 256 (p b) m (all_below_lem 256 (λ b. all_below 256 (p b)) b h hb) hm

fits_table : (op : Operation) → all_bytes (λ b m. ltb (process op b m) 256) ≡ true
unfolding all_bytes all_below process
fits_table and = refl
fits_table or = refl
fits_table xor = refl
fits_table not = refl
fits_table shift_left = refl
fits_table shift_right = refl
fits_table change_bit = refl
fits_table change_byte = refl
fits_table reverse_byte = refl
fits_table ror_byte = refl
fits_table rol_byte = refl

-- Every operation takes a byte and a modifier that is a byte to a byte.
process-IsByte :
    (op : Operation) (b modifier : ℕ) → IsByte b → IsByte modifier → IsByte (process op b modifier)
process-IsByte op b m hb hm =
    ltb→lt _ 256 (all_bytes_lem (λ b m. ltb (process op b m) 256) b m (fits_table op) hb hm)

-- The operation that undoes one, where there is one.
abbrev pub undo : Operation → Option Operation
undo xor = some xor
undo not = some not
undo change_bit = some change_bit
undo reverse_byte = some reverse_byte
undo ror_byte = some rol_byte
undo rol_byte = some ror_byte
undo _ = none

undo_table :
    (op back : Operation)
    → undo op ≡ some back
    → all_bytes (λ b m. process back (process op b m) m == b) ≡ true
unfolding all_bytes all_below process
undo_table and back h = absurd cc
undo_table or back h = absurd cc
undo_table shift_left back h = absurd cc
undo_table shift_right back h = absurd cc
undo_table change_byte back h = absurd cc
undo_table xor xor h = refl
undo_table not not h = refl
undo_table change_bit change_bit h = refl
undo_table reverse_byte reverse_byte h = refl
undo_table ror_byte rol_byte h = refl
undo_table rol_byte ror_byte h = refl
undo_table xor _ h = absurd cc
undo_table not _ h = absurd cc
undo_table change_bit _ h = absurd cc
undo_table reverse_byte _ h = absurd cc
undo_table ror_byte _ h = absurd cc
undo_table rol_byte _ h = absurd cc

-- Xor, Not, ChangeBit and ReverseByte undo themselves, RORByte and ROLByte one another, on every
-- byte with every modifier.
pub process-undo :
    (op back : Operation) (b modifier : ℕ)
    → undo op ≡ some back
    → IsByte b
    → IsByte modifier
    → process back (process op b modifier) modifier ≡ b
process-undo op back b m h hb hm =
    (==_iff _ b).0
      (all_bytes_lem (λ b m. process back (process op b m) m == b) b m (undo_table op back h) hb hm)
