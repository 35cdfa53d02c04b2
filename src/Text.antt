-- ===== src/Text.antt =====
-- Texts of C as lists of character codes without the terminating zero, and what
-- spa/plugins/fits/source.c uses of the standard library on them: `strtoumax`, `sscanf` and `snprintf`
-- for unsigned decimal numbers.
pub mod Decimal
use Prim.Native.Char.{code}
use Prim.Native.String.{String}
use pipewireao_spa_plugin_fi.Base.{
  ℕ, zero, suc, ◌+◌, ◌-◌, ◌*◌, ◌/◌, ◌%◌, Bool, true, false, ◌&&◌, ◌||◌, Option, none, some, List,
  [], ◌∷◌, ltb, leb, ◌==◌, if◌then◌else◌, u64_max, u32_max,
}

-- The character codes of an ASCII text.
abbrev pub codes : String → List ℕ
codes String.[] = []
codes (String.◌∷◌ c s) = code c ∷ codes s

-- `spa_streq` and `strcmp` on texts that are there.
abbrev pub same_text : List ℕ → List ℕ → Bool
same_text [] [] = true
same_text [] (b ∷ t) = false
same_text (a ∷ s) [] = false
same_text (a ∷ s) (b ∷ t) = (a == b) && same_text s t

abbrev pub is_digit : ℕ → Bool
is_digit c = leb b'0' c && leb c b'9'

-- `isspace` in the C locale.
abbrev pub is_space : ℕ → Bool
is_space c = (c == b' ') || (leb 9 c && leb c 13)

unfoldable pub all_digits : List ℕ → Bool
all_digits [] = true
all_digits (c ∷ s) = is_digit c && all_digits s

-- The value of the digits at the start of a text, after those read into `n`, and what follows them.
unfoldable pub scan_digits : ℕ → List ℕ → ℕ × List ℕ
scan_digits n [] = (n, [])
scan_digits n (c ∷ s) =
    let rest = scan_digits (n * 10 + (c - b'0')) s in if is_digit c then rest else (n, c ∷ s)

-- The digits at the start of a text, of which there is one at least.
unfoldable pub scan_number : List ℕ → Option (ℕ × List ℕ)
scan_number [] = none
scan_number (c ∷ s) = if is_digit c then some (scan_digits 0 (c ∷ s)) else none

unfoldable pub skip_space : List ℕ → List ℕ
skip_space [] = []
skip_space (c ∷ s) = let rest = skip_space s in if is_space c then rest else c ∷ s

-- An optional sign: whether it is a minus, and what follows it.
unfoldable pub scan_sign : List ℕ → Bool × List ℕ
scan_sign [] = (false, [])
scan_sign (c ∷ s) =
    if c == b'-' then (true, s) else if c == b'+' then (false, s) else (false, c ∷ s)

-- The number that `%u` stores for a sign and digits. C leaves it open what is stored for a number that an
-- `unsigned int` does not have: `unrepresentable` stands for that.
unfoldable pub stored : (Bool → ℕ → ℕ) → Bool → ℕ → ℕ
stored unrepresentable minus n =
    if (minus && ltb 0 n) || ltb u32_max n then unrepresentable minus n % (u32_max + 1) else n

-- The conversion `%u` of `sscanf`: the number and what follows it, `none` if the text does not match.
unfoldable pub scan_unsigned : (Bool → ℕ → ℕ) → List ℕ → Option (ℕ × List ℕ)
scan_unsigned unrepresentable text =
    let (minus, rest) = scan_sign (skip_space text) in
    elim (scan_number rest) [
      | none ↦ none
      | some (n, rest') ↦ some (stored unrepresentable minus n, rest')
    ]

-- A digit as its character.
abbrev pub digit : ℕ → ℕ
digit n = b'0' + n

-- The decimal digits of `n` in front of `text`, `k` of them at most.
unfoldable pub print_from : ℕ → ℕ → List ℕ → List ℕ
print_from zero n text = text
print_from (suc k) n text =
    let more = print_from k (n / 10) (digit (n % 10) ∷ text) in
    if n / 10 == 0 then digit (n % 10) ∷ text else more

-- `%u` and `PRIu64` of `snprintf`: 20 digits are enough for 64 bits.
unfoldable pub print : ℕ → List ℕ
print n = print_from 20 n []
