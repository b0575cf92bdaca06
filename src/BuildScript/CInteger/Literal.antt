-- ===== src/BuildScript/CInteger/Literal.antt =====
-- What `parse_c_integer` (build.rs) reads in an integer literal.
use clickhouse_c_rs.Base.{
  ℕ, ◌+◌, ◌-◌, ◌*◌, ◌^◌, ◌≤◌, ◌<◌, ◌≡◌, ◌≢◌, refl, ap, ◌∙◌, sym, Bool, true, false, none, some,
  List, [], ◌∷◌, ◌++◌, map, ◌⊎◌, inl, inr, arith, leb, if◌then◌else◌, append_assoc, append-nil,
  zero, suc,
}
use clickhouse_c_rs.Base.Int.{ℤ, pos}
use clickhouse_c_rs.BuildScript.Text.{
  Text, all, no_char, is_whitespace, trim, trim_end_matches, strip_prefix,
}
use clickhouse_c_rs.BuildScript.Text.Trim.{
  trim-padded, trim_end_matches-append, trim_end_matches-before,
}
use clickhouse_c_rs.BuildScript.Text.Split.{no_char-append}
use clickhouse_c_rs.BuildScript.CInteger.Grammar.{
  Form, unsigned, plus, minus, hex, prefix, radix, digit_char, below, spelled, minus_ℤ, value,
  SuffixLetter, lower_u, upper_u, lower_l, upper_l, letter, IsLiteral,
}
use clickhouse_c_rs.BuildScript.CInteger.{
  to_digit, read_digits, negative, to_i64, magnitude, from_str_radix, is_suffix, in_radix,
  strip_hex, parse_c_integer,
}

letters-is_suffix : (suffix : List SuffixLetter) → all is_suffix (map letter suffix) ≡ true
unfolding is_suffix
letters-is_suffix [] = refl
letters-is_suffix (lower_u ∷ suffix) = letters-is_suffix suffix
letters-is_suffix (upper_u ∷ suffix) = letters-is_suffix suffix
letters-is_suffix (lower_l ∷ suffix) = letters-is_suffix suffix
letters-is_suffix (upper_l ∷ suffix) = letters-is_suffix suffix

to_digit-digit_char :
    (r d : ℕ) (upper : Bool) → r ≤ 16 → d < r → to_digit r (digit_char upper d) ≡ some d
unfolding to_digit
to_digit-digit_char r d true small lt = ground arith
to_digit-digit_char r d false small lt = ground arith

read_digits-spelled :
    (r n : ℕ) (ds : List ℕ) (upper : Bool)
    → r ≤ 16
    → below r ds ≡ true
    → read_digits r n (map (digit_char upper) ds) ≡ some (spelled r n ds)
unfolding read_digits
read_digits-spelled r n [] upper small h = refl
read_digits-spelled r n (d ∷ ds) upper small h =
    ground (arith, to_digit-digit_char r d upper, read_digits-spelled r (n * r + d) ds upper)

module _ (upper : Bool) (d : ℕ) (lt : d < 16) where
  digit-is_whitespace : is_whitespace (digit_char upper d) ≡ false
  unfolding is_whitespace
  digit-is_whitespace = ground arith

  digit-is_suffix : is_suffix (digit_char upper d) ≡ false
  unfolding is_suffix
  digit-is_suffix = ground arith

no_char-digits :
    (upper : Bool) (ds : List ℕ)
    → below 16 ds ≡ true
    → (no_char is_whitespace (map (digit_char upper) ds) ≡ true)
      × (no_char is_suffix (map (digit_char upper) ds) ≡ true)
no_char-digits upper [] h = (refl, refl)
no_char-digits upper (d ∷ ds) h =
    ground (arith, digit-is_whitespace upper d, digit-is_suffix upper d, no_char-digits upper ds)

below-le : (r s : ℕ) (ds : List ℕ) → r ≤ s → below r ds ≡ true → below s ds ≡ true
below-le r s [] le h = refl
below-le r s (d ∷ ds) le h = ground (arith, below-le r s ds)

radix-le : (f : Form) → radix f ≤ 16
radix-le unsigned = omega arith
radix-le plus = omega arith
radix-le minus = omega arith
radix-le (hex x) = omega arith

-- The suffix has no white space.
is_suffix_cases : (c : ℕ) → is_suffix c ≡ true → (c ≡ b'u') ⊎ (c ≡ b'U') ⊎ (c ≡ b'l') ⊎ (c ≡ b'L')
unfolding is_suffix
is_suffix_cases c h = ground arith

suffix-is_whitespace : (c : ℕ) → is_suffix c ≡ true → is_whitespace c ≡ false
unfolding is_whitespace
suffix-is_whitespace c h = elim (is_suffix_cases c h) [
  | inl e ↦ rw e refl
  | inr (inl e) ↦ rw e refl
  | inr (inr (inl e)) ↦ rw e refl
  | inr (inr (inr e)) ↦ rw e refl
]

no_char-suffix : (s : Text) → all is_suffix s ≡ true → no_char is_whitespace s ≡ true
no_char-suffix [] h = refl
no_char-suffix (c ∷ s) h = ground (arith, suffix-is_whitespace c, no_char-suffix s)

no_char-prefix : (f : Form) → no_char is_whitespace (prefix f) ≡ true
unfolding is_whitespace
no_char-prefix unsigned = refl
no_char-prefix plus = refl
no_char-prefix minus = refl
no_char-prefix (hex false) = refl
no_char-prefix (hex true) = refl

magnitude-digits :
    (r : ℕ) (m upper : Bool) (d : ℕ) (ds : List ℕ)
    → r ≤ 16
    → below r (d ∷ ds) ≡ true
    → magnitude r m (map (digit_char upper) (d ∷ ds)) ≡ to_i64 m (spelled r 0 (d ∷ ds))
magnitude-digits r m upper d ds small h =
    rw (read_digits-spelled r 0 (d ∷ ds) upper small h, magnitude) refl

-- A digit is no sign.
unsigned-digits :
    (r : ℕ) (upper : Bool) (d : ℕ) (ds : List ℕ)
    → d < 16
    → from_str_radix r (map (digit_char upper) (d ∷ ds))
      ≡ magnitude r false (map (digit_char upper) (d ∷ ds))
unfolding from_str_radix
unsigned-digits r true d ds lt = ground arith
unsigned-digits r false d ds lt = ground arith

strip_hex-digits :
    (upper : Bool) (ds : List ℕ) → below 10 ds ≡ true → strip_hex (map (digit_char upper) ds) ≡ none
unfolding strip_hex strip_prefix
strip_hex-digits upper [] h = refl
strip_hex-digits upper (d ∷ []) h = ground arith
strip_hex-digits upper (d ∷ e ∷ ds) h = ground arith

to_i64_lem : (n : ℕ) → to_i64 false n ≡ (if leb n (2 ^ 63 - 1) then some (pos n) else none)
unfolding to_i64
to_i64_lem n = ground arith

positive :
    (r : ℕ) (upper : Bool) (d : ℕ) (ds : List ℕ)
    → r ≤ 16
    → below r (d ∷ ds) ≡ true
    → from_str_radix r (map (digit_char upper) (d ∷ ds)) ≡ (
        if leb (spelled r 0 (d ∷ ds)) (2 ^ 63 - 1) then some (pos (spelled r 0 (d ∷ ds))) else none)
positive r upper d ds small h =
    unsigned-digits r upper d ds (ground arith)
    ∙ magnitude-digits r false upper d ds small h
    ∙ to_i64_lem (spelled r 0 (d ∷ ds))

negative-minus_ℤ : (n : ℕ) → negative n ≡ minus_ℤ n
negative-minus_ℤ zero = refl
negative-minus_ℤ (suc n) = refl

minus_lem : (n : ℕ) → to_i64 true n ≡ (if leb n (2 ^ 63) then some (minus_ℤ n) else none)
unfolding to_i64
minus_lem n = rw (negative-minus_ℤ n) refl

module _ (upper : Bool) (d : ℕ) (ds : List ℕ) (h : below 10 (d ∷ ds) ≡ true) where
  signed-plus :
      from_str_radix 10 (b'+' ∷ map (digit_char upper) (d ∷ ds))
      ≡ to_i64 false (spelled 10 0 (d ∷ ds))
  unfolding from_str_radix
  signed-plus = magnitude-digits 10 false upper d ds (omega arith) h

  signed-minus :
      from_str_radix 10 (b'-' ∷ map (digit_char upper) (d ∷ ds))
      ≡ to_i64 true (spelled 10 0 (d ∷ ds))
  unfolding from_str_radix
  signed-minus = magnitude-digits 10 true upper d ds (omega arith) h

-- What is left of a literal without its padding and its suffix.
in_radix-form :
    (f : Form) (upper : Bool) (d : ℕ) (ds : List ℕ)
    → below (radix f) (d ∷ ds) ≡ true
    → in_radix
        (prefix f ++ map (digit_char upper) (d ∷ ds))
        (strip_hex (prefix f ++ map (digit_char upper) (d ∷ ds)))
      ≡ value f (spelled (radix f) 0 (d ∷ ds))
unfolding strip_hex strip_prefix
in_radix-form unsigned upper d ds h =
    ap (in_radix (map (digit_char upper) (d ∷ ds))) (strip_hex-digits upper (d ∷ ds) h)
    ∙ positive 10 upper d ds (omega arith) h
in_radix-form plus upper d ds h = signed-plus upper d ds h ∙ to_i64_lem (spelled 10 0 (d ∷ ds))
in_radix-form minus upper d ds h = signed-minus upper d ds h ∙ minus_lem (spelled 10 0 (d ∷ ds))
in_radix-form (hex false) upper d ds h = positive 16 upper d ds (omega arith) h
in_radix-form (hex true) upper d ds h = positive 16 upper d ds (omega arith) h

-- A literal is a sign or a hexadecimal mark, at least one digit of its radix, any of the suffix letters
-- `u`, `U`, `l` and `L`, and any white space on both sides. It is read as the number that its digits
-- spell, in decimal also behind a leading zero, if this is an `i64`, and refused otherwise.
pub parse_c_integer-literal :
    (f : Form) (upper : Bool) (d : ℕ) (ds : List ℕ) (suffix : List SuffixLetter)
    (before after : Text)
    → below (radix f) (d ∷ ds) ≡ true
    → all is_whitespace before ≡ true
    → all is_whitespace after ≡ true
    → parse_c_integer
        (before ++ ((prefix f ++ (map (digit_char upper) (d ∷ ds) ++ map letter suffix)) ++ after))
      ≡ value f (spelled (radix f) 0 (d ∷ ds))
unfolding parse_c_integer
parse_c_integer-literal f upper d ds letters before after h hb ha =
    let suffix : Text = map letter letters in
    let hs : all is_suffix suffix ≡ true = letters-is_suffix letters in
    let digits : Text = map (digit_char upper) (d ∷ ds) in
    let clean = no_char-digits upper (d ∷ ds) (below-le (radix f) 16 (d ∷ ds) (radix-le f) h) in
    let trimmed : trim_end_matches is_suffix
          (trim (before ++ ((prefix f ++ (digits ++ suffix)) ++ after)))
        ≡ prefix f ++ digits =
      ap (trim_end_matches is_suffix) (
        trim-padded before (prefix f ++ (digits ++ suffix)) after hb
          (no_char-append is_whitespace (prefix f) (digits ++ suffix) (no_char-prefix f)
            (no_char-append is_whitespace digits suffix clean.0 (no_char-suffix suffix hs)))
          ha
        ∙ sym (append_assoc (prefix f) digits suffix))
      ∙ trim_end_matches-append is_suffix (prefix f ++ digits) suffix hs
      ∙ trim_end_matches-before is_suffix (prefix f) digits clean.1 (λ e. cc e) in
    ap (λ t. in_radix t (strip_hex t)) trimmed ∙ in_radix-form f upper d ds h

literal_ne : (f : Form) (c : ℕ) (t : Text) → prefix f ++ c ∷ t ≢ []
literal_ne unsigned c t e = cc e
literal_ne plus c t e = cc e
literal_ne minus c t e = cc e
literal_ne (hex false) c t e = cc e
literal_ne (hex true) c t e = cc e

pub parse_c_integer-IsLiteral : (t : Text) (v : ℤ) → IsLiteral t v → parse_c_integer t ≡ some v
parse_c_integer-IsLiteral t v (f, upper, d, ds, suffix, digits, decimal, is, has_value) =
    ap parse_c_integer
      (is ∙ sym (append-nil (prefix f ++ (map (digit_char upper) (d ∷ ds) ++ map letter suffix))))
    ∙ parse_c_integer-literal f upper d ds suffix [] [] digits refl refl
    ∙ has_value

pub IsLiteral-solid :
    (t : Text) (v : ℤ) → IsLiteral t v → (no_char is_whitespace t ≡ true) × (t ≢ [])
IsLiteral-solid t v (f, upper, d, ds, suffix, digits, decimal, is, has_value) =
    let text : Text = map (digit_char upper) (d ∷ ds) in
    let clean =
      no_char-digits upper (d ∷ ds) (below-le (radix f) 16 (d ∷ ds) (radix-le f) digits) in
    (
      ap (no_char is_whitespace) is
          ∙ no_char-append is_whitespace (prefix f) (text ++ map letter suffix) (no_char-prefix f) (
              no_char-append is_whitespace text (map letter suffix) clean.0
                (no_char-suffix (map letter suffix) (letters-is_suffix suffix))),
      λ e.
          literal_ne f (digit_char upper d) (map (digit_char upper) ds ++ map letter suffix)
            (sym is ∙ e),
    )
