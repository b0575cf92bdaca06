-- ===== src/Base/Utf8.antt =====
-- `String::from_utf8_lossy` of Rust's standard library: bytes are kept where they are UTF-8, and
-- each maximal prefix of a sequence that cannot be one becomes U+FFFD.
use clickhouse_c_rs.Base.{
  ℕ, zero, suc, ◌-◌, ◌<◌, ◌≡◌, refl, Bool, true, false, ◌&&◌, [], ◌∷◌, ◌++◌, arith, ltb, leb, ◌==◌,
  if◌then◌else◌, Bytes,
}

-- U+FFFD, the replacement character.
abbrev replaced : Bytes
replaced = 0xef ∷ 0xbf ∷ 0xbd ∷ []

abbrev between : ℕ → ℕ → ℕ → Bool
between lo hi b = leb lo b && leb b hi

-- The number of bytes that a sequence with this first byte has; 0 where none starts so.
abbrev width : ℕ → ℕ
width b =
    if ltb b 0x80
    then 1
    else if between 0xc2 0xdf b
    then 2
    else if between 0xe0 0xef b
    then 3
    else if between 0xf0 0xf4 b
    then 4
    else 0

-- Whether `c` may stand second behind the first byte `b`.
abbrev second : ℕ → ℕ → Bool
second b c =
    if b == 0xe0
    then between 0xa0 0xbf c
    else if b == 0xed
    then between 0x80 0x9f c
    else if b == 0xf0
    then between 0x90 0xbf c
    else if b == 0xf4
    then between 0x80 0x8f c
    else between 0x80 0xbf c

-- Between two sequences, or inside one: the bytes seen of it, its first byte, whether the next byte
-- is its second, and how many bytes follow the next one.
pub data Decoder : Type 0 where
  clean : Decoder
  inside : Bytes → ℕ → Bool → ℕ → Decoder

abbrev start : ℕ → Bytes × Decoder
start b =
    if width b == 0
    then (replaced, clean)
    else if width b == 1
    then (b ∷ [], clean)
    else ([], inside (b ∷ []) b true (width b - 2))

abbrev continues : ℕ → Bool → ℕ → Bool
continues b is_second c = if is_second then second b c else between 0x80 0xbf c

-- What one byte adds to the output.
decode_byte : Decoder → ℕ → Bytes × Decoder
decode_byte clean c = start c
decode_byte (inside seen b is_second zero) c =
    if continues b is_second c
    then (seen ++ c ∷ [], clean)
    else (replaced ++ (start c).0, (start c).1)
decode_byte (inside seen b is_second (suc more)) c =
    if continues b is_second c
    then ([], inside (seen ++ c ∷ []) b false more)
    else (replaced ++ (start c).0, (start c).1)

decode : Decoder → Bytes → Bytes
unfolding decode_byte
decode clean [] = []
decode (inside seen b is_second more) [] = replaced
decode d (c ∷ cs) = (decode_byte d c).0 ++ decode (decode_byte d c).1 cs

unfoldable pub from_utf8_lossy : Bytes → Bytes
unfolding decode
from_utf8_lossy = decode clean

-- Every byte is ASCII.
abbrev pub IsAscii : Bytes → Type 0
IsAscii [] = Unit {0}
IsAscii (c ∷ cs) = (c < 0x80) × IsAscii cs

decode-IsAscii : (s : Bytes) → IsAscii s → decode clean s ≡ s
unfolding decode decode_byte
decode-IsAscii [] h = refl
decode-IsAscii (c ∷ cs) h = ground (arith, decode-IsAscii cs h.1)

-- ASCII text is kept.
pub from_utf8_lossy-IsAscii : (s : Bytes) → IsAscii s → from_utf8_lossy s ≡ s
unfolding from_utf8_lossy
from_utf8_lossy-IsAscii s h = decode-IsAscii s h

kept_two : from_utf8_lossy (0xc3 ∷ 0xa9 ∷ b'x' ∷ []) ≡ 0xc3 ∷ 0xa9 ∷ b'x' ∷ []
unfolding from_utf8_lossy
kept_two = refl

-- A truncated sequence is one replacement; the byte behind it is read afresh.
cut_three : from_utf8_lossy (0xe2 ∷ 0x82 ∷ b'x' ∷ 0xff ∷ []) ≡ replaced ++ b'x' ∷ replaced
unfolding from_utf8_lossy
cut_three = refl
