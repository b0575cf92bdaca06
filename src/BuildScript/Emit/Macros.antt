-- ===== src/BuildScript/Emit/Macros.antt =====
-- The macros of a header, as `extract_define` (build.rs) reads them.
use clickhouse_c_rs.Base.{
  ℕ, ◌≡◌, ◌≢◌, refl, ap, sym, ◌∙◌, inl, inr, Bool, true, false, Option, none, some, List, [], ◌∷◌,
  ◌++◌, arith, Bool-cases, Option-cases, append_assoc, if◌then◌else◌, append-nil,
}
use clickhouse_c_rs.Base.Int.{ℤ}
use clickhouse_c_rs.BuildScript.Text.{
  Text, codes, all, no_char, is_whitespace, is_ident_byte, strip_prefix, span, text_eq, trim,
  trim_start, trim_start_matches,
}
use clickhouse_c_rs.BuildScript.Text.Trim.{
  trim-ends, trim_start_matches-append, trim_start_matches-no_char,
}
use clickhouse_c_rs.BuildScript.Text.Split.{span-append, no_char-imp}
use clickhouse_c_rs.BuildScript.Text.Suffix.{text_eq-eq, text_eq_refl}
use clickhouse_c_rs.BuildScript.CInteger.{parse_c_integer}
use clickhouse_c_rs.BuildScript.CInteger.Grammar.{IsLiteral}
use clickhouse_c_rs.BuildScript.CInteger.Literal.{parse_c_integer-IsLiteral, IsLiteral-solid}
use clickhouse_c_rs.BuildScript.Declarations.{lines, behind_name, define_line, first_define}
use clickhouse_c_rs.BuildScript.Enums.Entries.{is_space, ident-space}

-- The macro's name stands behind `#define` in the line.
abbrev pub Mentions : Text → Text → Type 0
Mentions name l =
    (gap : Text) × (rest : Text) × (is_space gap ≡ true)
    × (trim l ≡ codes "#define" ++ (gap ++ (name ++ rest)))

abbrev pub NoneMentions : Text → List Text → Type 0
NoneMentions name [] = Unit {0}
NoneMentions name (l ∷ ls) = (Mentions name l → ⊥) × NoneMentions name ls

-- A line that defines the macro as an integer literal, with white space around its parts.
abbrev pub Defines : Text → ℤ → Text → Type 0
Defines name v l =
    (before : Text) × (gap : Text) × (x : ℕ) × (gap' : Text) × (value : Text) × (after : Text)
    × (is_space before ≡ true)
    × (is_space gap ≡ true)
    × (is_whitespace x ≡ true)
    × (is_space gap' ≡ true)
    × IsLiteral value v
    × (is_space after ≡ true)
    × (l ≡ before ++ (codes "#define" ++ ((gap ++ (name ++ x ∷ gap')) ++ (value ++ after))))

-- The first line of the text that mentions the macro defines it so.
abbrev pub DefinedAs : Text → ℤ → Text → Type 0
DefinedAs name v text =
    (before : List Text) × (l : Text) × (after : List Text) × (lines text ≡ before ++ l ∷ after)
    × NoneMentions name before
    × Defines name v l

strip_prefix-eq : (p t rest : Text) → strip_prefix p t ≡ some rest → t ≡ p ++ rest
unfolding strip_prefix
strip_prefix-eq [] t rest e = ground arith
strip_prefix-eq (c ∷ p) [] rest e = cc
strip_prefix-eq (c ∷ p) (d ∷ t) rest e = ground (arith, strip_prefix-eq p t rest)

trim_start_matches-eq :
    (p : ℕ → Bool) (t : Text)
    → (gap : Text) × (all p gap ≡ true) × (t ≡ gap ++ trim_start_matches p t)
unfolding trim_start_matches
trim_start_matches-eq p [] = ([], refl, refl)
trim_start_matches-eq p (c ∷ t) = elim (Bool-cases (p c)) [
  | inl white ↦
      let (gap, are, is) = trim_start_matches-eq p t in
      (c ∷ gap, rw white are, rw white (ap (◌∷◌ c) is))
  | inr solid ↦ ([], refl, rw solid refl)
]

span-eq : (p : ℕ → Bool) (t : Text) → t ≡ (span p t).0 ++ (span p t).1
unfolding span
span-eq p [] = refl
span-eq p (c ∷ t) = elim (Bool-cases (p c)) [
  | inl taken ↦ rw taken (ap (◌∷◌ c) (span-eq p t))
  | inr left ↦ rw left refl
]

abbrev some_if : Text → Bool → Option Text
some_if value b = if b then some value else none

behind_name-Mentions :
    (name l rest value : Text)
    → trim l ≡ codes "#define" ++ rest
    → behind_name name (some rest) ≡ some value
    → Mentions name l
unfolding trim_start
behind_name-Mentions name l rest value is found =
    let (gap, white, parts) = trim_start_matches-eq is_whitespace rest in
    let found_name = span is_ident_byte (trim_start_matches is_whitespace rest) in
    elim (Bool-cases (text_eq found_name.0 name)) [
      | inl same ↦
          let named : found_name.0 ≡ name = text_eq-eq found_name.0 name same in
          (
            gap,
            found_name.1,
            white,
            is
                ∙ ap (λ t. codes "#define" ++ t)
                    (parts
                      ∙ ap (λ t. gap ++ t)
                          (span-eq is_ident_byte (trim_start_matches is_whitespace rest)
                            ∙ ap (λ n. n ++ found_name.1) named)),
          )
      | inr other ↦ cc (sym (ap (some_if found_name.1) other) ∙ found)
    ]

define_line-none : (name l : Text) → (Mentions name l → ⊥) → define_line name l ≡ none
unfolding define_line
define_line-none name l quiet = elim (Option-cases (strip_prefix (codes "#define") (trim l))) [
  | inl absent ↦ rw absent refl
  | inr (rest, is) ↦ elim (Option-cases (behind_name name (some rest))) [
    | inl other ↦ ap (behind_name name) is ∙ other
    | inr (value, found) ↦
        elim (quiet (
          behind_name-Mentions name l rest value
            (strip_prefix-eq (codes "#define") (trim l) rest is) found)) [ ]
  ]
]

regroup :
    (gap name : Text) (x : ℕ) (gap' value : Text)
    → (gap ++ (name ++ x ∷ gap')) ++ value ≡ gap ++ (name ++ x ∷ (gap' ++ value))
regroup gap name x gap' value = simp append_assoc

define_text : no_char is_whitespace (codes "#define") ≡ true
unfolding is_whitespace
define_text = refl

strip_prefix-define : (t : Text) → strip_prefix (codes "#define") (codes "#define" ++ t) ≡ some t
unfolding strip_prefix
strip_prefix-define t = refl

not_ident : (x : ℕ) → is_whitespace x ≡ true → is_ident_byte x ≡ false
not_ident x white = elim (Bool-cases (is_ident_byte x)) [
  | inl ident ↦ cc (sym white ∙ ident-space x ident)
  | inr other ↦ other
]

trim_start-solid :
    (gap t b : Text)
    → is_space gap ≡ true
    → no_char is_whitespace t ≡ true
    → t ≢ []
    → trim_start (gap ++ (t ++ b)) ≡ t ++ b
unfolding trim_start
trim_start-solid gap t b white solid ne =
    trim_start_matches-append is_whitespace gap (t ++ b) white
    ∙ trim_start_matches-no_char is_whitespace t b solid ne

module _ (name : Text) (ident : all is_ident_byte name ≡ true) (ne : name ≢ []) where
  behind_name-some :
      (gap : Text) (x : ℕ) (t : Text)
      → is_space gap ≡ true
      → is_whitespace x ≡ true
      → behind_name name (some (gap ++ (name ++ x ∷ t))) ≡ some (x ∷ t)
  behind_name-some gap x t white space =
      let solid : no_char is_whitespace name ≡ true =
        no_char-imp is_ident_byte is_whitespace ident-space name ident in
      let spanned : span is_ident_byte (trim_start (gap ++ (name ++ x ∷ t))) ≡ (name, x ∷ t) =
        ap (span is_ident_byte) (trim_start-solid gap name (x ∷ t) white solid ne)
        ∙ span-append is_ident_byte name x t ident (not_ident x space) in
      ap (λ s. some_if s.1 (text_eq s.0 name)) spanned ∙ ap (some_if (x ∷ t)) (text_eq_refl name)

  define_line-Defines :
      (v : ℤ) (l : Text)
      → Defines name v l
      → (value : Text) × (define_line name l ≡ some value)
        × (parse_c_integer (trim_start value) ≡ some v)
  unfolding define_line
  define_line-Defines v l (before, gap, x, gap', value, after, wb, wg, wx, wg', literal, wa, is) =
      let (solid, some_value) = IsLiteral-solid value v literal in
      let trimmed : trim l ≡ codes "#define" ++ (gap ++ (name ++ x ∷ (gap' ++ value))) =
        ap trim is
        ∙ trim-ends before (codes "#define") (gap ++ (name ++ x ∷ gap')) value after wb define_text
            (λ e. cc e) solid some_value wa
        ∙ ap (λ t. codes "#define" ++ t) (regroup gap name x gap' value) in
      let spaced : is_space (x ∷ gap') ≡ true = rw (wx, wg') refl in
      (
        x ∷ (gap' ++ value),
        ap (λ t. behind_name name (strip_prefix (codes "#define") t)) trimmed
            ∙ ap (behind_name name) (strip_prefix-define (gap ++ (name ++ x ∷ (gap' ++ value))))
            ∙ behind_name-some gap x (gap' ++ value) wg wx,
        ap (λ t. parse_c_integer (trim_start ((x ∷ gap') ++ t))) (sym (append-nil value))
            ∙ ap parse_c_integer
                (trim_start-solid (x ∷ gap') value [] spaced solid some_value ∙ append-nil value)
            ∙ parse_c_integer-IsLiteral value v literal,
      )

  first_define-Defines :
      (v : ℤ) (before : List Text) (l : Text) (after : List Text)
      → NoneMentions name before
      → Defines name v l
      → first_define name (before ++ l ∷ after) ≡ some v
  unfolding first_define
  first_define-Defines v [] l after quiet defines =
      let (value, is, reads) = define_line-Defines v l defines in rw (is, first_define) reads
  first_define-Defines v (m ∷ before) l after (quiet, others) defines =
      rw (define_line-none name m quiet, first_define)
        (first_define-Defines v before l after others defines)

  -- The macro that a text defines has the value that the script reads.
  pub first_define-DefinedAs :
      (v : ℤ) (text : Text) → DefinedAs name v text → first_define name (lines text) ≡ some v
  first_define-DefinedAs v text (before, l, after, is, quiet, defines) =
      ap (first_define name) is ∙ first_define-Defines v before l after quiet defines
