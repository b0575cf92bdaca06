-- ===== src/BuildScript/Text.antt =====
-- Text as build.rs reads it: a list of characters, each by its code point, with the methods of
-- `str`, `char` and `u8` that the script calls.
pub mod Trim
pub mod Split
pub mod Suffix
use Prim.Native.Char.{code}
use clickhouse_c_rs.Base.{
  ℕ, ◌+◌, ◌*◌, ◌/◌, ◌%◌, ◌<◌, ◌≡◌, String, Bool, true, false, not, ◌&&◌, ◌||◌, Option, none, some,
  List, [], ◌∷◌, ◌++◌, ltb, leb, ◌==◌, if◌then◌else◌, Bytes,
}

-- The code points of a string slice.
abbrev pub Text : Type 0
Text = List ℕ

abbrev pub codes : String → Text
codes String.[] = []
codes (String.◌∷◌ c s) = code c ∷ codes s

-- `str::as_bytes`: the UTF-8 of each character.
abbrev pub encode : ℕ → Bytes
encode c =
    if ltb c 0x80
    then c ∷ []
    else if ltb c 0x800
    then (0xc0 + c / 0x40) ∷ (0x80 + c % 0x40) ∷ []
    else if ltb c 0x10000
    then (0xe0 + c / 0x1000) ∷ (0x80 + c / 0x40 % 0x40) ∷ (0x80 + c % 0x40) ∷ []
    else (0xf0 + c / 0x40000)
      ∷ (0x80 + c / 0x1000 % 0x40)
      ∷ (0x80 + c / 0x40 % 0x40)
      ∷ (0x80 + c % 0x40)
      ∷ []

unfoldable pub as_bytes : Text → Bytes
as_bytes [] = []
as_bytes (c ∷ cs) = encode c ++ as_bytes cs

abbrev pub between : ℕ → ℕ → ℕ → Bool
between lo hi c = leb lo c && leb c hi

-- `char::is_whitespace`.
unfoldable pub is_whitespace : ℕ → Bool
is_whitespace c =
    between 9 13 c
    || c == 32
    || c == 0x85
    || c == 0xa0
    || c == 0x1680
    || between 0x2000 0x200a c
    || c == 0x2028
    || c == 0x2029
    || c == 0x202f
    || c == 0x205f
    || c == 0x3000

-- `u8::is_ascii_whitespace`, which leaves out the vertical tab.
unfoldable pub is_ascii_whitespace : ℕ → Bool
is_ascii_whitespace c = c == 9 || c == 10 || c == 12 || c == 13 || c == 32

unfoldable pub is_ascii_alphabetic : ℕ → Bool
is_ascii_alphabetic c = between b'a' b'z' c || between b'A' b'Z' c

-- Of a byte of the source text: `is_ident_byte`, and the same test on a character.
unfoldable pub is_ident_byte : ℕ → Bool
unfolding is_ascii_alphabetic
is_ident_byte c = (is_ascii_alphabetic c || between b'0' b'9' c) || c == b'_'

-- Every character passes the test; no character does.
abbrev pub all : (ℕ → Bool) → Text → Bool
all p [] = true
all p (c ∷ cs) = p c && all p cs

abbrev pub no_char : (ℕ → Bool) → Text → Bool
no_char p [] = true
no_char p (c ∷ cs) = not (p c) && no_char p cs

-- `str::trim_start_matches` and `str::trim_end_matches` with a test.
unfoldable pub trim_start_matches : (ℕ → Bool) → Text → Text
trim_start_matches p [] = []
trim_start_matches p (c ∷ cs) = let rest = trim_start_matches p cs in if p c then rest else c ∷ cs

-- A character that the test accepts goes only if nothing is kept behind it.
abbrev pub keep_before : Bool → ℕ → Text → Text
keep_before true c [] = []
keep_before _ c kept = c ∷ kept

unfoldable pub trim_end_matches : (ℕ → Bool) → Text → Text
trim_end_matches p [] = []
trim_end_matches p (c ∷ cs) = keep_before (p c) c (trim_end_matches p cs)

unfoldable pub trim_start : Text → Text
trim_start s = trim_start_matches is_whitespace s

unfoldable pub trim : Text → Text
trim s = trim_end_matches is_whitespace (trim_start_matches is_whitespace s)

-- `str::strip_prefix`.
unfoldable pub strip_prefix : Text → Text → Option Text
strip_prefix [] s = some s
strip_prefix (c ∷ cs) [] = none
strip_prefix (c ∷ cs) (d ∷ s) = let rest = strip_prefix cs s in if c == d then rest else none

unfoldable pub starts_with : Text → Text → Bool
starts_with [] s = true
starts_with (c ∷ cs) [] = false
starts_with (c ∷ cs) (d ∷ s) = c == d && starts_with cs s

-- The longest prefix whose characters pass the test, and what follows it.
unfoldable pub span : (ℕ → Bool) → Text → Text × Text
span p [] = ([], [])
span p (c ∷ cs) = let (taken, rest) = span p cs in if p c then (c ∷ taken, rest) else ([], c ∷ cs)

-- `str::split` at a character.
abbrev pub push_front : ℕ → List Text → List Text
push_front c [] = (c ∷ []) ∷ []
push_front c (t ∷ ts) = (c ∷ t) ∷ ts

unfoldable pub split : ℕ → Text → List Text
split sep [] = [] ∷ []
split sep (c ∷ cs) = if c == sep then [] ∷ split sep cs else push_front c (split sep cs)

-- The two sides of the first `sep`, where there is one.
unfoldable pub split_once : ℕ → Text → Option (Text × Text)
split_once sep [] = none
split_once sep (c ∷ cs) =
    let later = split_once sep cs in
    if c == sep
    then some ([], cs)
    else elim later [ none ↦ none | some (before, after) ↦ some (c ∷ before, after) ]

-- The comparison of two texts.
unfoldable pub text_eq : Text → Text → Bool
text_eq [] [] = true
text_eq [] (d ∷ t) = false
text_eq (c ∷ s) [] = false
text_eq (c ∷ s) (d ∷ t) = c == d && text_eq s t

-- `str::ends_with`.
unfoldable pub ends_with : Text → Text → Bool
ends_with suffix [] = text_eq suffix []
ends_with suffix (c ∷ cs) = text_eq suffix (c ∷ cs) || ends_with suffix cs
