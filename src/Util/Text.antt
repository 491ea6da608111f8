-- ===== src/Util/Text.antt =====
-- libvfuzz-core/src/util/string/string.cpp, as far as the mutators and the add rules use it, and
-- the conversions of the standard library that they call. Texts are lists of character codes.
use Prim.Native.Char.{code}
use Prim.Native.String.{String}
use vfuzz.Prelude.{
  ℕ, zero, suc, ◌+◌, ◌/◌, ◌%◌, [], ◌∷◌, ◌++◌, length, take, ltb, ◌==◌, leb, ◌&&◌, ◌||◌, Bool,
  if◌then◌else◌,
}
use vfuzz.Codec.Words.{Chunk}
use vfuzz.Util.History.{Text}

-- The text of a literal.
abbrev pub codes : String → Text
codes String.[] = []
codes (String.◌∷◌ c s) = code c ∷ codes s

-- The decimal digits of a number below 10 to the power of the first argument.
unfoldable pub decimal : ℕ → ℕ → Text
decimal zero n = []
decimal (suc k) n =
    let more = decimal k (n / 10) ++ ((48 + n % 10) ∷ []) in
    if ltb n 10 then (48 + n) ∷ [] else more

-- std::to_string of a size_t, which has at most twenty digits
abbrev pub to_string : ℕ → Text
to_string n = decimal 20 n

-- The lowest bits of a number, highest first.
unfoldable pub binary : ℕ → ℕ → Text
binary zero n = []
binary (suc k) n = binary k (n / 2) ++ ((48 + n % 2) ∷ [])

-- ToBinString
abbrev pub to_bin_string : ℕ → Text
to_bin_string c = binary 8 c

-- ToHexString(chunk, 8) over boost's hex
unfoldable pub to_hex_string : (Chunk → Text) → Chunk → Text
to_hex_string hex chunk =
    if ltb 8 (length chunk) then hex (take 8 chunk) ++ codes ".." else hex chunk

-- ToHexString(uint8_t)
abbrev pub byte_to_hex_string : (Chunk → Text) → ℕ → Text
byte_to_hex_string hex c = hex (c ∷ [])

-- isspace and tolower in the C locale
unfoldable pub is_space : ℕ → Bool
is_space c = c == 32 || (leb 9 c && leb c 13)

unfoldable pub to_lower : ℕ → ℕ
to_lower c = if leb 65 c && leb c 90 then c + 32 else c

-- RemoveWhitespace
unfoldable pub remove_whitespace : Text → Text
unfolding is_space
remove_whitespace [] = []
remove_whitespace (c ∷ s) = if is_space c then remove_whitespace s else c ∷ remove_whitespace s

-- ToLowercase
unfoldable pub to_lowercase : Text → Text
unfolding to_lower
to_lowercase [] = []
to_lowercase (c ∷ s) = to_lower c ∷ to_lowercase s
