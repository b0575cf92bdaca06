-- ===== src/Error/Message.antt =====
-- Messages that Rust callbacks leave in a C message array: the copy that `set_err` (src/tls.rs) and
-- `slice_write` (src/io.rs) make, and how `cstr_array_to_string` reads it back.
use clickhouse_c_rs.Base.{
  ℕ, zero, suc, ◌-◌, ◌<◌, ◌≡◌, ◌≢◌, refl, [], ◌∷◌, some, arith, Bytes, position, take, length, set,
  min, length-take, length-set, ==_iff, ap,
}
use mathlib.Core.Path.{subst}
use clickhouse_c_rs.Base.Utf8.{from_utf8_lossy}
use clickhouse_c_rs.Error.{cstr_array_to_string}

-- `for (slot, b) in slots.iter_mut().zip(bytes) { *slot = b }`.
pub zip_copy : Bytes → Bytes → Bytes
zip_copy [] bs = []
zip_copy (s ∷ slots) [] = s ∷ slots
zip_copy (s ∷ slots) (b ∷ bs) = b ∷ zip_copy slots bs

-- The message array after the copy.
unfoldable pub copy_message : Bytes → Bytes → Bytes
unfolding zip_copy
copy_message slots msg =
    let n = min (length msg) (length slots - 1) in set (zip_copy slots (take n msg)) n 0

-- No byte is NUL.
abbrev pub NoNul : Bytes → Type 0
NoNul [] = Unit {0}
NoNul (c ∷ cs) = (c ≢ 0) × NoNul cs

length-zip_copy : (slots bs : Bytes) → length (zip_copy slots bs) ≡ length slots
unfolding zip_copy
length-zip_copy [] bs = refl
length-zip_copy (s ∷ slots) [] = refl
length-zip_copy (s ∷ slots) (b ∷ bs) = ap suc (length-zip_copy slots bs)

-- The array keeps its length, so no write is out of bounds.
length-copy_message : (slots msg : Bytes) → length (copy_message slots msg) ≡ length slots
unfolding copy_message
length-copy_message slots msg = omega (
  arith,
  length-set (zip_copy slots (take (min (length msg) (length slots - 1)) msg))
      (min (length msg) (length slots - 1)) 0,
  length-zip_copy slots (take (min (length msg) (length slots - 1)) msg),
)

position_end :
    (slots bs : Bytes)
    → NoNul bs
    → length bs < length slots
    → position 0 (set (zip_copy slots bs) (length bs) 0) ≡ some (length bs)
unfolding zip_copy
position_end [] bs h lt = absurd (omega arith)
position_end (s ∷ slots) [] h lt = refl
position_end (s ∷ slots) (b ∷ bs) h lt = ground (arith, position_end slots bs h.1, ==_iff b 0)

take_copied :
    (slots bs : Bytes)
    → length bs < length slots
    → take (length bs) (set (zip_copy slots bs) (length bs) 0) ≡ bs
unfolding zip_copy
take_copied [] bs lt = absurd (omega arith)
take_copied (s ∷ slots) [] lt = refl
take_copied (s ∷ slots) (b ∷ bs) lt = ap (◌∷◌ b) (take_copied slots bs (omega arith))

NoNul-take : (n : ℕ) (bs : Bytes) → NoNul bs → NoNul (take n bs)
NoNul-take zero bs h = tt
NoNul-take (suc n) [] h = tt
NoNul-take (suc n) (b ∷ bs) h = (h.0, NoNul-take n bs h.1)

copied :
    (slots bs : Bytes)
    → NoNul bs
    → length bs < length slots
    → cstr_array_to_string (set (zip_copy slots bs) (length bs) 0) ≡ from_utf8_lossy bs
unfolding cstr_array_to_string
copied slots bs h lt = rw (position_end slots bs h lt) (rw (take_copied slots bs lt))

-- A message without NUL reads back as its longest prefix that leaves room for the final NUL, with
-- what is not UTF-8 replaced, whatever the array held before; the array keeps its length.
pub cstr_array_to_string-copy_message :
    (slots msg : Bytes)
    → 0 < length slots
    → NoNul msg
    → (cstr_array_to_string (copy_message slots msg)
        ≡ from_utf8_lossy (take (min (length msg) (length slots - 1)) msg))
      × (length (copy_message slots msg) ≡ length slots)
unfolding copy_message
cstr_array_to_string-copy_message slots msg room h =
    let n : ℕ = min (length msg) (length slots - 1) in
    let fits : length (take n msg) ≡ n = omega (arith, length-take n msg) in
    (
      subst
          (λ k.
            cstr_array_to_string (set (zip_copy slots (take n msg)) k 0)
            ≡ from_utf8_lossy (take n msg))
          fits (copied slots (take n msg) (NoNul-take n msg h) (omega arith)),
      length-copy_message slots msg,
    )
