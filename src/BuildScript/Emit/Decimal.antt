-- ===== src/BuildScript/Emit/Decimal.antt =====
-- The decimal digits that build.rs writes of a value, read again.
use clickhouse_c_rs.Base.{
  ℕ, zero, suc, ◌+◌, ◌*◌, ◌/◌, ◌%◌, ◌≤◌, ◌<◌, ◌≡◌, ◌≢◌, inl, inr, refl, ap, ◌∙◌, Bool, true, false,
  Option, none, some, [], ◌∷◌, ◌==◌, ◌||◌, ltb, arith, Bool-cases, if◌then◌else◌,
}
use mathlib.Core.Option
use clickhouse_c_rs.Base.Int.{ℤ, pos, negsuc}
use clickhouse_c_rs.BuildScript.Text.{Text, all, between}
use clickhouse_c_rs.BuildScript.CInteger.{to_digit, read_digits, negative}
use clickhouse_c_rs.BuildScript.Emit.{decimal, display}

-- An integer of any size, a minus sign in front of a negative one.
abbrev pub read_nat : Text → Option ℕ
read_nat [] = none
read_nat (c ∷ cs) = read_digits 10 0 (c ∷ cs)

abbrev pub read_int : Text → Option ℤ
read_int [] = none
read_int (c ∷ cs) =
    if c == b'-' then Option.map negative (read_nat cs) else Option.map pos (read_nat (c ∷ cs))

abbrev pub is_digit : ℕ → Bool
is_digit c = between b'0' b'9' c

to_digit-decimal : (n : ℕ) → to_digit 10 (b'0' + n % 10) ≡ some (n % 10)
unfolding to_digit
to_digit-decimal n = ground arith

read_digits-digit :
    (m n : ℕ) (acc : Text)
    → read_digits 10 m ((b'0' + n % 10) ∷ acc) ≡ read_digits 10 (m * 10 + n % 10) acc
unfolding read_digits
read_digits-digit m n acc = rw (to_digit-decimal n, read_digits) refl

read_digits-decimal :
    (fuel n : ℕ) (acc : Text)
    → n < fuel
    → read_digits 10 0 (decimal fuel n acc) ≡ read_digits 10 n acc
unfolding decimal
read_digits-decimal zero n acc lt = absurd (omega arith)
read_digits-decimal (suc fuel) n acc lt = elim (Bool-cases (ltb n 10)) [
  | inl small ↦
      let whole : 0 * 10 + n % 10 ≡ n = ground arith in
      rw small (read_digits-digit 0 n acc ∙ ap (λ m. read_digits 10 m acc) whole)
  | inr large ↦
      let fewer : n / 10 < fuel = ground arith in
      let whole : n / 10 * 10 + n % 10 ≡ n = omega arith in
      rw large (
        read_digits-decimal fuel (n / 10) ((b'0' + n % 10) ∷ acc) fewer
        ∙ read_digits-digit (n / 10) n acc
        ∙ ap (λ m. read_digits 10 m acc) whole)
]

decimal-digits :
    (fuel n : ℕ) (acc : Text) → all is_digit acc ≡ true → all is_digit (decimal fuel n acc) ≡ true
unfolding decimal
decimal-digits zero n acc h = h
decimal-digits (suc fuel) n acc h =
    ground (arith, decimal-digits fuel (n / 10) ((b'0' + n % 10) ∷ acc))

decimal-ne : (fuel n x : ℕ) (acc : Text) → decimal fuel n (x ∷ acc) ≢ []
unfolding decimal
decimal-ne zero n x acc = λ e. cc e
decimal-ne (suc fuel) n x acc = elim (Bool-cases (ltb n 10)) [
  | inl small ↦ rw small (λ e. cc e)
  | inr large ↦ rw large (decimal-ne fuel (n / 10) (b'0' + n % 10) (x ∷ acc))
]

decimal-some_digit : (fuel n : ℕ) → decimal (suc fuel) n [] ≢ []
unfolding decimal
decimal-some_digit fuel n = elim (Bool-cases (ltb n 10)) [
  | inl small ↦ rw small (λ e. cc e)
  | inr large ↦ rw large (decimal-ne fuel (n / 10) (b'0' + n % 10) [])
]

read_nat-ne : (t : Text) → t ≢ [] → read_nat t ≡ read_digits 10 0 t
read_nat-ne [] ne = absurd (ne refl)
read_nat-ne (c ∷ t) ne = refl

read_nat-decimal : (fuel n : ℕ) → n ≤ fuel → read_nat (decimal (suc fuel) n []) ≡ some n
unfolding read_digits
read_nat-decimal fuel n le =
    read_nat-ne (decimal (suc fuel) n []) (decimal-some_digit fuel n)
    ∙ read_digits-decimal (suc fuel) n [] (omega arith)

read_int-digits : (t : Text) → all is_digit t ≡ true → read_int t ≡ Option.map pos (read_nat t)
read_int-digits [] h = refl
read_int-digits (c ∷ t) h = let no_sign : (c == b'-') ≡ false = ground arith in rw no_sign refl

pub read_int-display : (v : ℤ) → read_int (display v) ≡ some v
unfolding display
read_int-display (pos n) =
    read_int-digits (decimal (suc n) n []) (decimal-digits (suc n) n [] refl)
    ∙ ap (Option.map pos) (read_nat-decimal n n (omega arith))
read_int-display (negsuc n) =
    ap (Option.map negative) (read_nat-decimal (suc n) (suc n) (omega arith))

-- A digit or a minus sign.
abbrev pub is_shown : ℕ → Bool
is_shown c = is_digit c || c == b'-'

digits-shown : (t : Text) → all is_digit t ≡ true → all is_shown t ≡ true
digits-shown [] h = refl
digits-shown (c ∷ t) h = ground (arith, digits-shown t)

pub display-shown : (v : ℤ) → all is_shown (display v) ≡ true
unfolding display
display-shown (pos n) = digits-shown (decimal (suc n) n []) (decimal-digits (suc n) n [] refl)
display-shown (negsuc n) =
    digits-shown (decimal (suc (suc n)) (suc n) []) (decimal-digits (suc (suc n)) (suc n) [] refl)
