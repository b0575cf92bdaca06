-- ===== src/BuildScript/CInteger/Grammar.antt =====
-- Integer literals of C headers, by their parts.
use clickhouse_c_rs.Base.{
  ℕ, ◌+◌, ◌-◌, ◌*◌, ◌^◌, ◌≡◌, ◌≢◌, ◌⊎◌, Bool, true, false, ◌&&◌, Option, none, some, List, [], ◌∷◌,
  ◌++◌, map, ltb, leb, if◌then◌else◌, zero, suc,
}
use clickhouse_c_rs.Base.Int.{ℤ, pos, negsuc}
use clickhouse_c_rs.BuildScript.Text.{Text}

-- A literal is decimal, with or without a sign, or hexadecimal, behind `0x` or `0X`.
pub data Form : Type 0 where
  unsigned : Form
  plus : Form
  minus : Form
  hex : Bool → Form

abbrev pub prefix : Form → Text
prefix unsigned = []
prefix plus = b'+' ∷ []
prefix minus = b'-' ∷ []
prefix (hex false) = b'0' ∷ b'x' ∷ []
prefix (hex true) = b'0' ∷ b'X' ∷ []

abbrev pub radix : Form → ℕ
radix (hex upper) = 16
radix _ = 10

-- The digit's character, a letter in one of the two cases from 10 on.
abbrev pub digit_char : Bool → ℕ → ℕ
digit_char upper d =
    if ltb d 10 then b'0' + d else if upper then b'A' + (d - 10) else b'a' + (d - 10)

abbrev pub below : ℕ → List ℕ → Bool
below r [] = true
below r (d ∷ ds) = ltb d r && below r ds

-- The number that digits spell behind `n`.
abbrev pub spelled : ℕ → ℕ → List ℕ → ℕ
spelled r n [] = n
spelled r n (d ∷ ds) = spelled r (n * r + d) ds

-- The integer -n.
abbrev pub minus_ℤ : ℕ → ℤ
minus_ℤ zero = pos 0
minus_ℤ (suc n) = negsuc n

-- The value of a form's magnitude, where an `i64` has it: up to 2^63 - 1, or down to -2^63.
abbrev pub value : Form → ℕ → Option ℤ
value minus n = if leb n (2 ^ 63) then some (minus_ℤ n) else none
value _ n = if leb n (2 ^ 63 - 1) then some (pos n) else none

-- The letters of C's integer suffixes.
pub data SuffixLetter : Type 0 where
  lower_u upper_u lower_l upper_l : SuffixLetter

abbrev pub letter : SuffixLetter → ℕ
letter lower_u = b'u'
letter upper_u = b'U'
letter lower_l = b'l'
letter upper_l = b'L'

-- A decimal literal that begins with 0 is octal in C, unless it is 0.
abbrev pub NotOctal : Form → ℕ → List ℕ → Type 0
NotOctal (hex upper) d ds = Unit {0}
NotOctal _ d ds = (d ≢ 0) ⊎ (ds ≡ [])

-- The text is a decimal or hexadecimal integer of C with this value: a sign or a hexadecimal mark,
-- digits, and a suffix.
abbrev pub IsLiteral : Text → ℤ → Type 0
IsLiteral t v =
    (f : Form) × (upper : Bool) × (d : ℕ) × (ds : List ℕ) × (suffix : List SuffixLetter) × (below
        (radix f) (d ∷ ds)
      ≡ true)
    × NotOctal f d ds
    × (t ≡ prefix f ++ (map (digit_char upper) (d ∷ ds) ++ map letter suffix))
    × (value f (spelled (radix f) 0 (d ∷ ds)) ≡ some v)
