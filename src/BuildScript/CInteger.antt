-- ===== src/BuildScript/CInteger.antt =====
-- C integer literals as build.rs reads them: `parse_c_integer` (build.rs), with the parsing of
-- signed 64-bit numbers of Rust's standard library that it calls.
pub mod Grammar
pub mod Literal
use clickhouse_c_rs.Base.{
  ℕ, zero, suc, ◌+◌, ◌-◌, ◌*◌, ◌^◌, Bool, true, false, ◌&&◌, ◌||◌, Option, none, some, [], ◌∷◌, leb,
  ltb, ◌==◌, if◌then◌else◌,
}
use clickhouse_c_rs.Base.Int.{ℤ, pos, negsuc}
use clickhouse_c_rs.BuildScript.Text.{Text, between, trim, trim_end_matches, strip_prefix}

-- `char::to_digit`.
unfoldable pub to_digit : ℕ → ℕ → Option ℕ
to_digit radix c =
    let value : ℕ =
      if between b'0' b'9' c
      then c - b'0'
      else if between b'a' b'z' c
      then c - b'a' + 10
      else if between b'A' b'Z' c
      then c - b'A' + 10
      else 36 in
    if ltb value radix then some value else none

-- The number that digits spell behind `n`.
unfoldable pub read_digits : ℕ → ℕ → Text → Option ℕ
read_digits radix n [] = some n
read_digits radix n (c ∷ cs) = elim (to_digit radix c) [
  | none ↦ none
  | some d ↦ read_digits radix (n * radix + d) cs
]

-- The integer -n.
abbrev pub negative : ℕ → ℤ
negative zero = pos 0
negative (suc n) = negsuc n

-- An `i64` with this sign and magnitude, where there is one.
unfoldable pub to_i64 : Bool → ℕ → Option ℤ
to_i64 false n = if ltb n (2 ^ 63) then some (pos n) else none
to_i64 true n = if leb n (2 ^ 63) then some (negative n) else none

abbrev pub magnitude : ℕ → Bool → Text → Option ℤ
magnitude radix minus [] = none
magnitude radix minus (c ∷ cs) = elim (read_digits radix 0 (c ∷ cs)) [
  | none ↦ none
  | some n ↦ to_i64 minus n
]

-- `i64::from_str_radix`, which is `str::parse` at radix 10: an optional sign and at least one digit.
unfoldable pub from_str_radix : ℕ → Text → Option ℤ
from_str_radix radix [] = none
from_str_radix radix (c ∷ cs) =
    if c == b'+'
    then magnitude radix false cs
    else if c == b'-'
    then magnitude radix true cs
    else magnitude radix false (c ∷ cs)

-- The letters of C's integer suffixes.
unfoldable pub is_suffix : ℕ → Bool
is_suffix c = c == b'u' || c == b'U' || c == b'l' || c == b'L'

abbrev pub or_upper : Text → Option Text → Option Text
or_upper s (some hex) = some hex
or_upper s none = strip_prefix (b'0' ∷ b'X' ∷ []) s

unfoldable pub strip_hex : Text → Option Text
strip_hex s = or_upper s (strip_prefix (b'0' ∷ b'x' ∷ []) s)

abbrev pub in_radix : Text → Option Text → Option ℤ
in_radix s (some hex) = from_str_radix 16 hex
in_radix s none = from_str_radix 10 s

unfoldable pub parse_c_integer : Text → Option ℤ
parse_c_integer s =
    let digits = trim_end_matches is_suffix (trim s) in in_radix digits (strip_hex digits)
