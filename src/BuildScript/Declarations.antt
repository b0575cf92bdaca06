-- ===== src/BuildScript/Declarations.antt =====
-- What build.rs reads from the headers and from src/sys.rs besides enums (build.rs): `extract_define`,
-- `declarations_of`, `scan_declared_functions`, `scan_rust_items` and the revision in `UPSTREAM`.
use clickhouse_c_rs.Base.{
  ℕ, zero, suc, ◌-◌, Bool, false, ◌&&◌, not, Option, none, some, List, [], ◌∷◌, length, leb, ◌==◌,
  if◌then◌else◌, drop,
}
use mathlib.Core.Option
use clickhouse_c_rs.Base.Int.{ℤ}
use clickhouse_c_rs.BuildScript.Text.{
  Text, codes, as_bytes, is_ascii_whitespace, is_ident_byte, trim, trim_start, strip_prefix,
  starts_with, span, split, split_once, text_eq,
}
use clickhouse_c_rs.BuildScript.Comments.{strip_comments}
use clickhouse_c_rs.BuildScript.CInteger.{parse_c_integer}

-- `str::lines`: a line break and a carriage return before it are dropped, and there is no line
-- behind the last line break.
abbrev pub drop_return : Text → Text
drop_return [] = []
drop_return (c ∷ []) = if c == b'\r' then [] else c ∷ []
drop_return (c ∷ d ∷ cs) = c ∷ drop_return (d ∷ cs)

abbrev pub end_lines : List Text → List Text
end_lines [] = []
end_lines ([] ∷ []) = []
end_lines ((c ∷ cs) ∷ []) = (c ∷ cs) ∷ []
end_lines (l ∷ m ∷ ls) = drop_return l ∷ end_lines (m ∷ ls)

unfoldable pub lines : Text → List Text
lines t = end_lines (split b'\n' t)

-- One line of `extract_define`: the text behind the macro's name, if the line defines this macro.
abbrev pub behind_name : Text → Option Text → Option Text
behind_name name none = none
behind_name name (some rest) =
    let (found, value) = span is_ident_byte (trim_start rest) in
    if text_eq found name then some value else none

unfoldable pub define_line : Text → Text → Option Text
define_line name line = behind_name name (strip_prefix (codes "#define") (trim line))

-- The first line that defines the macro decides, also where its value is no integer.
unfoldable pub first_define : Text → List Text → Option ℤ
first_define name [] = none
first_define name (l ∷ ls) =
    let later = first_define name ls in
    elim (define_line name l) [ none ↦ later | some value ↦ parse_c_integer (trim_start value) ]

unfoldable pub extract_define : Text → Text → Option ℤ
extract_define src name = first_define name (lines (strip_comments (as_bytes src)))

-- `src[..at]` for the first place where the pattern stands.
unfoldable pub before_first : Text → Text → Option Text
before_first pat [] = if starts_with pat [] then some [] else none
before_first pat (c ∷ cs) =
    let later = Option.map (◌∷◌ c) (before_first pat cs) in
    if starts_with pat (c ∷ cs) then some [] else later

abbrev pub or_all : Text → Option Text → Text
or_all src (some head) = head
or_all src none = src

unfoldable pub declarations_of : Text → Text
declarations_of src =
    let stripped = strip_comments (as_bytes src) in
    or_all stripped (before_first (codes "#ifdef CHC_IMPLEMENTATION") stripped)

abbrev pub opens_call : Text → Bool
opens_call [] = false
opens_call (c ∷ cs) = c == b'('

-- A name is one of a public function if a parenthesis follows it.
abbrev pub push_function : Text → Text → List Text → List Text
push_function name rest later =
    if opens_call (span is_ascii_whitespace rest).1 && not (starts_with (codes "chc__") name)
    then name ∷ later
    else later

-- The scan of `scan_declared_functions`; `skip` counts the bytes up to the position `i`. Slicing
-- inside of a character that is not ASCII panics (`none`).
unfoldable pub scan_functions : Bool → ℕ → Text → Option (List Text)
scan_functions behind skip [] = some []
scan_functions behind (suc n) (c ∷ cs) = scan_functions (is_ident_byte c) n cs
scan_functions behind zero (c ∷ cs) =
    let (name, rest) = span is_ident_byte (c ∷ cs) in
    let named =
      Option.map (push_function name rest)
        (scan_functions (is_ident_byte c) (length name - 1) cs) in
    let on = scan_functions (is_ident_byte c) 0 cs in
    if leb 128 c
    then none
    else if starts_with (codes "chc_") (c ∷ cs) && not behind
    then named
    else on

unfoldable pub scan_declared_functions : Text → Option (List Text)
scan_declared_functions decls = scan_functions false 0 decls

-- `scan_rust_items`: the matches of the keyword do not overlap.
unfoldable pub scan_items : Text → Text → ℕ → Text → List Text
scan_items keyword prefix skip [] = []
scan_items keyword prefix (suc n) (c ∷ cs) = scan_items keyword prefix n cs
scan_items keyword prefix zero (c ∷ cs) =
    let rest = drop (length keyword) (c ∷ cs) in
    let matched = scan_items keyword prefix (length keyword - 1) cs in
    let on = scan_items keyword prefix 0 cs in
    if starts_with keyword (c ∷ cs)
    then (if starts_with prefix rest then (span is_ident_byte rest).0 ∷ matched else matched)
    else on

unfoldable pub scan_rust_items : Text → Text → Text → List Text
scan_rust_items src keyword prefix = scan_items keyword prefix 0 src

-- The value behind `revision=` in `UPSTREAM`, which may be missing (`emit_upstream_revision`).
abbrev pub revision_value : Option (Text × Text) → Option Text
revision_value none = none
revision_value (some (k, v)) = if text_eq (trim k) (codes "revision") then some (trim v) else none

unfoldable pub find_revision : List Text → Option Text
find_revision [] = none
find_revision (l ∷ ls) =
    let later = find_revision ls in
    elim (revision_value (split_once b'=' l)) [ none ↦ later | some v ↦ some v ]

abbrev pub or_unknown : Option Text → Text
or_unknown (some v) = v
or_unknown none = codes "unknown"

unfoldable pub upstream_revision : Option Text → Text
upstream_revision file = or_unknown (Option.bind file (λ s. find_revision (lines s)))
