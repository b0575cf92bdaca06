-- ===== src/BuildScript/Enums.antt =====
-- The C enums that build.rs reads from a header: `extract_enums` and `parse_enum_body` (build.rs).
pub mod Entries
pub mod Values
pub mod Items
pub mod Tags
pub mod Found
use clickhouse_c_rs.Base.{
  ℕ, zero, suc, ◌+◌, ◌-◌, ◌^◌, Bool, true, false, ◌&&◌, ◌||◌, not, Option, none, some, List, [],
  ◌∷◌, length, ◌==◌, if◌then◌else◌,
}
use mathlib.Core.Option
use clickhouse_c_rs.Base.Int.{ℤ, pos, negsuc}
use clickhouse_c_rs.BuildScript.Text.{
  Text, codes, as_bytes, is_ascii_whitespace, is_ascii_alphabetic, is_ident_byte, trim,
  strip_prefix, span, split, split_once,
}
use clickhouse_c_rs.BuildScript.Comments.{strip_comments}
use clickhouse_c_rs.BuildScript.CInteger.{parse_c_integer}

-- An enumerator with its value, and an enum with its tag.
abbrev pub Variant : Type 0
Variant = Text × ℤ

abbrev pub EnumBlock : Type 0
EnumBlock = Option Text × List Variant

-- `value + 1` of an `i64`, which panics with overflow checks and wraps around without.
unfoldable pub add_one : Bool → ℤ → Option ℤ
add_one checks (negsuc zero) = some (pos 0)
add_one checks (negsuc (suc n)) = some (negsuc n)
add_one checks (pos n) =
    if suc n == 2 ^ 63
    then (if checks then none else some (negsuc (2 ^ 63 - 1)))
    else some (pos (suc n))

-- One round of the loop of `parse_enum_body`, on the trimmed text between two commas: the
-- enumerator that it pushes.
unfoldable pub read_variant : ℤ → Text → Option Variant
read_variant next [] = none
read_variant next (c ∷ cs) = elim (split_once b'=' (c ∷ cs)) [
  | none ↦ some (c ∷ cs, next)
  | some (name, value) ↦ Option.map (λ v. (trim name, v)) (parse_c_integer (trim value))
]

-- `none` is a panic.
unfoldable pub read_variants : Bool → ℤ → List Text → Option (List Variant)
read_variants checks next [] = some []
read_variants checks next (raw ∷ raws) = elim (read_variant next (trim raw)) [
  | none ↦ read_variants checks next raws
  | some (name, value) ↦ elim (add_one checks value) [
    | none ↦ none
    | some after ↦ Option.map (λ later. (name, value) ∷ later) (read_variants checks after raws)
  ]
]

unfoldable pub parse_enum_body : Bool → Text → Option (List Variant)
parse_enum_body checks body = read_variants checks (pos 0) (split b',' body)

-- The text up to the brace that closes the body, and what follows it.
unfoldable pub body_of : ℕ → Text → Option (Text × Text)
body_of depth [] = none
body_of depth (c ∷ cs) =
    let later =
      body_of (if c == b'{' then suc depth else if c == b'}' then depth - 1 else depth) cs in
    if c == b'}' && depth == 1
    then some ([], cs)
    else elim later [ none ↦ none | some (body, rest) ↦ some (c ∷ body, rest) ]

-- The optional tag, and what follows it and its white space.
abbrev pub named_tag : Text × Text → Option Text × Text
named_tag (tag, rest) = (some tag, (span is_ascii_whitespace rest).1)

unfoldable pub tag_of : Text → Option Text × Text
tag_of [] = (none, [])
tag_of (c ∷ cs) =
    if is_ascii_alphabetic c || c == b'_'
    then named_tag (span is_ident_byte (c ∷ cs))
    else (none, c ∷ cs)

-- The enum at the head of the text, if one stands there: its tag, its body, and what follows it.
abbrev pub opened : Option Text → Text → Option (Option Text × Text × Text)
opened tag [] = none
opened tag (c ∷ cs) =
    if c == b'{'
    then elim (body_of 1 cs) [ none ↦ none | some (body, rest) ↦ some (tag, body, rest) ]
    else none

abbrev pub starts_ident : Text → Bool
starts_ident [] = false
starts_ident (c ∷ cs) = is_ident_byte c

abbrev pub after_keyword : Option Text → Option (Option Text × Text × Text)
after_keyword none = none
after_keyword (some cs) =
    if starts_ident cs
    then none
    else let (tag, rest) = tag_of (span is_ascii_whitespace cs).1 in opened tag rest

-- `behind_ident` tells whether the byte before is one of an identifier.
unfoldable pub enum_at : Bool → Text → Option (Option Text × Text × Text)
enum_at behind_ident cs =
    if behind_ident then none else after_keyword (strip_prefix (codes "enum") cs)

-- `results.push`, where the body has enumerators.
abbrev pub push_block : Option Text → List Variant → List EnumBlock → List EnumBlock
push_block tag [] later = later
push_block tag (v ∷ vs) later = (tag, v ∷ vs) ∷ later

-- The scan of `extract_enums`; `skip` counts the bytes up to the position `i` of the source.
unfoldable pub scan : Bool → Bool → ℕ → Text → Option (List EnumBlock)
scan checks behind skip [] = some []
scan checks behind (suc n) (c ∷ cs) = scan checks (is_ident_byte c) n cs
scan checks behind zero (c ∷ cs) = elim (enum_at behind (c ∷ cs)) [
  | none ↦ scan checks (is_ident_byte c) 0 cs
  | some (tag, body, rest) ↦ elim (parse_enum_body checks body) [
    | none ↦ none
    | some variants ↦
        Option.map (push_block tag variants)
          (scan checks (is_ident_byte c) (length cs - length rest) cs)
  ]
]

unfoldable pub extract_enums : Bool → Text → Option (List EnumBlock)
extract_enums checks src = scan checks false 0 (strip_comments (as_bytes src))
