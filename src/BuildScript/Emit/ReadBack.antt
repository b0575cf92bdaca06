-- ===== src/BuildScript/Emit/ReadBack.antt =====
-- The constants that build.rs writes (`sys_constants.rs`), read again from the text.
use clickhouse_c_rs.Base.{
  ℕ, ◌≡◌, ◌⊎◌, inl, inr, refl, ap, ◌∙◌, true, false, Option, none, some, List, [], ◌∷◌, ◌++◌, ◌==◌,
  arith, Bool-cases, append_assoc, if◌then◌else◌,
}
use clickhouse_c_rs.Base.Int.{ℤ}
use clickhouse_c_rs.BuildScript.Text.{
  Text, codes, all, no_char, is_ident_byte, strip_prefix, split, split_once,
}
use clickhouse_c_rs.BuildScript.Text.Split.{
  split-append, split_once-append, no_char-imp, no_char-append,
}
use clickhouse_c_rs.BuildScript.Enums.{Variant}
use clickhouse_c_rs.BuildScript.Emit.{◌>>=◌, display, is_sentinel, emit_enum}
use clickhouse_c_rs.BuildScript.Emit.Decimal.{read_int, read_int-display, is_shown, display-shown}

-- A constant of the text: its name, its type and its value.
abbrev pub Constant : Type 0
Constant = Text × (Text × ℤ)

abbrev pub valued : Text → Text → Option ℤ → Option Constant
valued name rust_type none = none
valued name rust_type (some value) = some (name, (rust_type, value))

-- The line `pub const NAME: TYPE = VALUE;`.
abbrev pub read_constant : Text → Option Constant
read_constant line = do
  declared ← strip_prefix (codes "pub const ") line
  (name, behind_name) ← split_once b':' declared
  typed ← strip_prefix (codes " ") behind_name
  (rust_type, behind_type) ← split_once b' ' typed
  literal ← strip_prefix (codes "= ") behind_type
  (value, rest) ← split_once b';' literal
  valued name rust_type (read_int value)

abbrev pub gather : List Text → List Constant
gather [] = []
gather (line ∷ lines) = elim (read_constant line) [
  | none ↦ gather lines
  | some c ↦ c ∷ gather lines
]

-- The constants that the lines of a text declare.
abbrev pub constants_of : Text → List Constant
constants_of t = gather (split b'\n' t)

-- The constants of an enum, which leave out the sentinels.
abbrev pub constants : List Variant → Text → List Constant
constants [] rust_type = []
constants ((name, value) ∷ variants) rust_type =
    let later = constants variants rust_type in
    if is_sentinel name then later else (name, (rust_type, value)) ∷ later

-- An identifier.
abbrev pub IsName : Text → Type 0
IsName t = all is_ident_byte t ≡ true

abbrev pub AllNamed : List Variant → Type 0
AllNamed [] = Unit {0}
AllNamed ((name, value) ∷ variants) = IsName name × AllNamed variants

gather-none : (l : Text) (ls : List Text) → read_constant l ≡ none → gather (l ∷ ls) ≡ gather ls
gather-none l ls e = rw (e, gather) refl

gather-some :
    (l : Text) (ls : List Text) (c : Constant)
    → read_constant l ≡ some c
    → gather (l ∷ ls) ≡ c ∷ gather ls
gather-some l ls c e = rw (e, gather) refl

-- A line that declares nothing, and one that declares a constant.
pub constants_of-skip :
    (l t : Text)
    → no_char (λ c. c == b'\n') l ≡ true
    → read_constant l ≡ none
    → constants_of (l ++ b'\n' ∷ t) ≡ constants_of t
constants_of-skip l t h e = ap gather (split-append b'\n' l t h) ∙ gather-none l (split b'\n' t) e

constants_of-line :
    (l t : Text) (c : Constant)
    → no_char (λ c. c == b'\n') l ≡ true
    → read_constant l ≡ some c
    → constants_of (l ++ b'\n' ∷ t) ≡ c ∷ constants_of t
constants_of-line l t c h e =
    ap gather (split-append b'\n' l t h) ∙ gather-some l (split b'\n' t) c e

shown-mark : (k c : ℕ) → (k ≡ b'\n') ⊎ (k ≡ b';') → is_shown c ≡ true → (c == k) ≡ false
shown-mark k c (inl e) h = ground arith
shown-mark k c (inr e) h = ground arith

name-mark : (k c : ℕ) → (k ≡ b'\n') ⊎ (k ≡ b':') → is_ident_byte c ≡ true → (c == k) ≡ false
unfolding is_ident_byte
name-mark k c (inl e) h = ground arith
name-mark k c (inr e) h = ground arith

no_mark : (k : ℕ) (v : ℤ) → (k ≡ b'\n') ⊎ (k ≡ b';') → no_char (λ c. c == k) (display v) ≡ true
no_mark k v which =
    no_char-imp is_shown (λ c. c == k) (λ c. shown-mark k c which) (display v) (display-shown v)

-- The line that the script writes of a constant, without its end.
abbrev line_of : Text → Text → ℤ → Text
line_of name rust_type value =
    codes "pub const "
    ++ (name ++ (codes ": " ++ (rust_type ++ (codes " = " ++ (display value ++ codes ";")))))

module _ (rust_type : Text) (one_line : no_char (λ c. c == b'\n') rust_type ≡ true)
    (one_word : no_char (λ c. c == b' ') rust_type ≡ true) where
  read_constant-line_of :
      (name : Text) (value : ℤ)
      → IsName name
      → read_constant (line_of name rust_type value) ≡ some (name, (rust_type, value))
  unfolding strip_prefix
  read_constant-line_of name value named =
      let no_colon : no_char (λ c. c == b':') name ≡ true =
        no_char-imp is_ident_byte (λ c. c == b':') (λ c. name-mark b':' c (inr refl)) name named in
      rw
        (split_once-append b':' name
          (codes " " ++ (rust_type ++ (codes " = " ++ (display value ++ codes ";")))) no_colon)
        (rw (split_once-append b' ' rust_type (codes "= " ++ (display value ++ codes ";")) one_word)
          (rw (split_once-append b';' (display value) [] (no_mark b';' value (inr refl)))
            (rw (read_int-display value) refl)))

  line_of-one_line :
      (name : Text) (value : ℤ)
      → IsName name
      → no_char (λ c. c == b'\n') (line_of name rust_type value) ≡ true
  line_of-one_line name value named =
      no_char-append _ name _
        (no_char-imp is_ident_byte (λ c. c == b'\n') (λ c. name-mark b'\n' c (inl refl)) name named)
        (no_char-append _ rust_type _ one_line
          (no_char-append _ (display value) (codes ";") (no_mark b'\n' value (inl refl)) refl))

  -- The same with its end, as the script puts it together.
  abbrev pub emit_line : Text → ℤ → Text
  emit_line name value =
      codes "pub const "
      ++ (name ++ (codes ": " ++ (rust_type ++ (codes " = " ++ (display value ++ codes ";\n")))))

  written :
      (name : Text) (value : ℤ) (t : Text)
      → emit_line name value ++ t ≡ line_of name rust_type value ++ b'\n' ∷ t
  written name value t = simp append_assoc

  pub constants_of-emit_line :
      (name : Text) (value : ℤ) (t : Text)
      → IsName name
      → constants_of (emit_line name value ++ t) ≡ (name, (rust_type, value)) ∷ constants_of t
  constants_of-emit_line name value t named =
      ap constants_of (written name value t)
      ∙ constants_of-line (line_of name rust_type value) t (name, (rust_type, value))
          (line_of-one_line name value named) (read_constant-line_of name value named)

  pub constants_of-emit_enum :
      (vs : List Variant) (t : Text)
      → AllNamed vs
      → constants_of (emit_enum vs rust_type ++ t) ≡ constants vs rust_type ++ constants_of t
  unfolding emit_enum
  constants_of-emit_enum [] t named = refl
  constants_of-emit_enum ((name, value) ∷ vs) t (is_name, named) =
      elim (Bool-cases (is_sentinel name)) [
        | inl sentinel ↦ rw sentinel (constants_of-emit_enum vs t named)
        | inr real ↦ rw real (
            ap constants_of (append_assoc (emit_line name value) (emit_enum vs rust_type) t)
            ∙ constants_of-emit_line name value (emit_enum vs rust_type ++ t) is_name
            ∙ ap (◌∷◌ (name, (rust_type, value))) (constants_of-emit_enum vs t named))
      ]
