-- ===== src/Mutator/Ranged.antt =====
-- The byte-wise mutators: Ranged and DefaultRanged of libvfuzz-core/src/mutator/ranged.h, and the
-- classes of range_based.h and range_based.cpp as one type of operations.
pub mod Laws
pub mod Bytes
use Prim.Native.Nat.{bit_and, bit_or, bit_xor}
use vfuzz.Prelude.{
  ℕ, zero, suc, ◌+◌, ◌-◌, ◌*◌, ◌/◌, ◌%◌, ◌^◌, Bool, true, false, List, [], ◌∷◌, ◌++◌, length, set,
  get_elem?, is_empty, Option, none, some, ltb, ◌==◌, if◌then◌else◌, Result, ok, err, fault,
}
use vfuzz.Prelude as P
use vfuzz.Codec.Words.{Chunk}
use vfuzz.Util.History.{Text}
use vfuzz.Util.Text.{codes, to_string, to_bin_string, byte_to_hex_string}
use vfuzz.Util.World.{World, M, ◌>>=◌, ◌>>◌, pure, run, get}
use vfuzz.Mutator.Base.{Host, MutateImpl, rand_ch, log_text}

pub data Operation : Type 0 where
  and or xor not shift_left shift_right change_bit change_byte : Operation
  reverse_byte ror_byte rol_byte : Operation

-- adjustModifier of ShiftLeft and ShiftRight
unfoldable pub adjust_shift : ℕ → ℕ
adjust_shift modifier = if bit_and modifier 7 == 0 then 1 else bit_and modifier 7

-- adjustModifier of ChangeBit
unfoldable pub adjust_bit : ℕ → ℕ
adjust_bit modifier = 2 ^ bit_and modifier 7 % 256

-- __builtin_bitreverse8, __builtin_rotateleft8 and __builtin_rotateright8
unfoldable pub reverse_bits : ℕ → ℕ → ℕ
reverse_bits zero b = 0
reverse_bits (suc k) b = b % 2 * 2 ^ k + reverse_bits k (b / 2)

unfoldable pub rotate_left : ℕ → ℕ → ℕ
rotate_left b k = b * 2 ^ (k % 8) % 256 + b / 2 ^ (8 - k % 8)

unfoldable pub rotate_right : ℕ → ℕ → ℕ
rotate_right b k = b / 2 ^ (k % 8) + b * 2 ^ (8 - k % 8) % 256

-- process
unfoldable pub process : Operation → ℕ → ℕ → ℕ
unfolding adjust_shift adjust_bit reverse_bits rotate_left rotate_right
process and b m = bit_and b m
process or b m = bit_or b m
process xor b m = bit_xor b m
process not b m = 255 - b
process shift_left b m = b * 2 ^ adjust_shift m % 256
process shift_right b m = b / 2 ^ adjust_shift m
process change_bit b m = bit_xor b (adjust_bit m)
process change_byte b m = m
process reverse_byte b m = reverse_bits 8 b
process ror_byte b m = rotate_right b m
process rol_byte b m = rotate_left b m

-- The template argument haveModifier.
abbrev pub have_modifier : Operation → Bool
have_modifier not = false
have_modifier reverse_byte = false
have_modifier _ = true

-- desc
unfoldable pub desc : Host → Operation → ℕ → Text
unfolding adjust_shift adjust_bit
desc host shift_left m = to_string (adjust_shift m)
desc host shift_right m = to_string (adjust_shift m)
desc host change_bit m = to_bin_string (adjust_bit m)
desc host reverse_byte m = []
desc host ror_byte m = []
desc host rol_byte m = []
desc host _ m = byte_to_hex_string host.hex m

-- The name that the constructor passes on.
unfoldable pub base_name : Operation → Text
base_name and = codes "And"
base_name or = codes "Or"
base_name xor = codes "Xor"
base_name not = codes "Not"
base_name shift_left = codes "ShiftLeft"
base_name shift_right = codes "ShiftRight"
base_name change_bit = codes "ChangeBit"
base_name change_byte = codes "ChangeByte"
base_name reverse_byte = codes "ReverseByte"
base_name ror_byte = codes "RORByte"
base_name rol_byte = codes "ROLByte"

unfoldable pub full_name : Bool → Operation → Text
unfolding base_name
full_name ranged op = base_name op ++ (if ranged then codes "Ranged" else [])

-- GetRange of two drawn ends: the first and how many.
unfoldable pub range_between : ℕ → ℕ → M (ℕ × ℕ)
range_between from to =
    if from == to
    then pure (from, 1)
    else if ltb to from
    then (do count ← get (from - to); pure (to, count))
    else (do count ← get (to - from); pure (from, count))

-- GetRange
unfoldable pub get_range : Bool → ℕ → M (ℕ × ℕ)
get_range false size = do from ← get size; pure (from, 1)
get_range true size = do from ← get size; to ← get size; range_between from to

-- The loop over the range, for `count` rounds from `i` on; a fault where it leaves the vector.
unfoldable pub process_range : Operation → ℕ → ℕ → ℕ → Chunk → Result Chunk
process_range op m i zero c = ok c
process_range op m i (suc count) c = elim (get_elem? c i) [
  | none ↦ err fault
  | some b ↦ process_range op m (i + 1) count (set c i (process op b m))
]

-- MutateImpl of DefaultRanged
unfoldable pub ranged_impl : Host → Bool → Operation → MutateImpl
ranged_impl host ranged op gid input insert max =
    if is_empty input then pure (input, insert) else (do
      modifier ← if have_modifier op then rand_ch else pure 0
      (first, count) ← get_range ranged (length input)
      ret ← run (process_range op modifier first count input)
      log_text (full_name ranged op) gid
          (desc host op modifier ++ (if ranged then codes "-" ++ to_string count else []))
      pure (ret, insert))
