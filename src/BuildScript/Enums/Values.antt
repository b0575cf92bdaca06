-- ===== src/BuildScript/Enums/Values.antt =====
-- The values that `parse_enum_body` (build.rs) gives to enumerators.
use clickhouse_c_rs.Base.{
  ◌≡◌, ◌≢◌, refl, ap, ◌∙◌, sym, Bool, true, Option, none, some, List, [], ◌∷◌, ◌++◌, map, arith,
  ◌==◌, append-nil,
}
use mathlib.Core.Option
use clickhouse_c_rs.Base.Int.{ℤ, pos}
use clickhouse_c_rs.BuildScript.Text.{
  Text, no_char, is_whitespace, split, split_once, trim, trim_end_matches, trim_start_matches,
  strip_prefix,
}
use clickhouse_c_rs.BuildScript.Text.Trim.{trim-padded, trim-ends}
use clickhouse_c_rs.BuildScript.Text.Split.{
  split-append, split-no_char, split_once-append, split_once-no_char, no_char-imp, no_char-append,
}
use clickhouse_c_rs.BuildScript.Text.Split.{both}
use clickhouse_c_rs.BuildScript.CInteger.{parse_c_integer, from_str_radix, strip_hex}
use clickhouse_c_rs.BuildScript.CInteger.Literal.{parse_c_integer-IsLiteral}
use clickhouse_c_rs.BuildScript.Enums.{Variant, read_variant, read_variants, parse_enum_body}
use clickhouse_c_rs.BuildScript.Enums.Entries.{
  Entry, blank, implicit, explicit, entry_text, is_space, is_name, ends_value, IsEntry, AllEntries,
  body_text, next_ℤ, assigned, has_next, have_next, add_one-next_ℤ, ident-space, ident-equals,
  space-equals, name_ne, regroup, name-no_char, no_char-entry,
}

-- The enumerator that an entry stands for, behind which `next` would be the value.
abbrev entry_variant : ℤ → Entry → Option Variant
entry_variant next (blank space) = none
entry_variant next (implicit before name after) = some (name, next)
entry_variant next (explicit before name gap gap' value after v) = some (name, v)

read_variant-name : (next : ℤ) (t : Text) → is_name t ≡ true → read_variant next t ≡ some (t, next)
unfolding read_variant
read_variant-name next [] h = cc
read_variant-name next (c ∷ cs) h =
    rw
      (
        split_once-no_char b'=' (c ∷ cs) (name-no_char (λ d. d == b'=') ident-equals (c ∷ cs) h),
        read_variant,
      )
      refl

read_variant-nil : (next : ℤ) → read_variant next [] ≡ none
unfolding read_variant
read_variant-nil next = refl

split_once-nil : split_once b'=' [] ≡ none
unfolding split_once
split_once-nil = refl

read_variant-split :
    (next : ℤ) (t name value : Text)
    → split_once b'=' t ≡ some (name, value)
    → read_variant next t ≡ Option.map (λ v. (trim name, v)) (parse_c_integer (trim value))
unfolding read_variant
read_variant-split next [] name value h = cc (sym h ∙ split_once-nil)
read_variant-split next (c ∷ cs) name value h = rw (h, read_variant) refl

trim-after : (t b : Text) → no_char is_whitespace t ≡ true → is_space b ≡ true → trim (t ++ b) ≡ t
trim-after t b ht hb = trim-padded [] t b refl ht hb

trim-before : (a t : Text) → is_space a ≡ true → no_char is_whitespace t ≡ true → trim (a ++ t) ≡ t
trim-before a t ha ht = ap (λ u. trim (a ++ u)) (sym (append-nil t)) ∙ trim-padded a t [] ha ht refl

parse_c_integer-nil : parse_c_integer [] ≡ none
unfolding parse_c_integer trim_end_matches trim_start_matches trim from_str_radix strip_hex
    strip_prefix
parse_c_integer-nil = refl

value_ne : (t : Text) {v : ℤ} → parse_c_integer t ≡ some v → t ≢ []
value_ne [] p = cc (sym p ∙ parse_c_integer-nil)
value_ne (c ∷ cs) p = λ e. cc e

read_variant-entry :
    (next : ℤ) (e : Entry)
    → IsEntry e
    → read_variant next (trim (entry_text e)) ≡ entry_variant next e
read_variant-entry next (blank space) h =
    ap (λ t. read_variant next (trim t)) (sym (append-nil space))
    ∙ ap (read_variant next) (trim-before space [] h refl)
    ∙ read_variant-nil next
read_variant-entry next (implicit before name after) (hb, hn, ha) =
    ap (read_variant next)
      (trim-padded before name after hb (name-no_char is_whitespace ident-space name hn) ha)
    ∙ read_variant-name next name hn
read_variant-entry next (explicit before name gap gap' value after v)
      (hb, hn, hg, hg', hv, he, ha, is_value) =
    let p = parse_c_integer-IsLiteral value v is_value in
    let solid = name-no_char is_whitespace ident-space name hn in
    ap (read_variant next) (
      trim-ends before name (gap ++ b'=' ∷ gap') value after hb solid (name_ne name hn) hv
        (value_ne value p) ha
      ∙ regroup name gap gap' value)
    ∙ read_variant-split next ((name ++ gap) ++ b'=' ∷ (gap' ++ value)) (name ++ gap)
        (gap' ++ value)
        (split_once-append b'=' (name ++ gap) (gap' ++ value) (
          no_char-append (λ d. d == b'=') name gap
            (name-no_char (λ d. d == b'=') ident-equals name hn)
            (no_char-imp is_whitespace (λ d. d == b'=') space-equals gap hg)))
    ∙ rw (trim-after name gap solid hg, trim-before gap' value hg' hv, p) refl

read_variants-nil : (checks : Bool) (next : ℤ) → read_variants checks next [] ≡ some []
unfolding read_variants
read_variants-nil checks next = refl

-- One round of the loop.
abbrev pushed : Option Variant → Option (List Variant) → Option (List Variant)
pushed none later = later
pushed (some v) later = Option.map (◌∷◌ v) later

abbrev after_entry : ℤ → Option Variant → ℤ
after_entry next none = next
after_entry next (some (name, v)) = next_ℤ v

abbrev may_follow : Option Variant → Bool
may_follow none = true
may_follow (some (name, v)) = has_next v

read_variants-cons :
    (checks : Bool) (next : ℤ) (raw : Text) (raws : List Text) (o : Option Variant)
    → read_variant next (trim raw) ≡ o
    → may_follow o ≡ true
    → read_variants checks next (raw ∷ raws)
      ≡ pushed o (read_variants checks (after_entry next o) raws)
unfolding read_variants
read_variants-cons checks next raw raws none e h = rw (e, read_variants) refl
read_variants-cons checks next raw raws (some (name, v)) e h =
    rw (e, read_variants) (rw (add_one-next_ℤ checks v h) refl)

read_variants-entries :
    (checks : Bool) (next : ℤ) (es : List Entry)
    → AllEntries es
    → have_next (assigned next es) ≡ true
    → read_variants checks next (map entry_text es) ≡ some (assigned next es)
read_variants-entries checks next [] h fits = read_variants-nil checks next
read_variants-entries checks next (blank space ∷ es) (h, hs) fits =
    read_variants-cons checks next space (map entry_text es) none
      (read_variant-entry next (blank space) h) refl
    ∙ read_variants-entries checks next es hs fits
read_variants-entries checks next (implicit before name after ∷ es) (h, hs) fits =
    let (here, later) = both (has_next next) (have_next (assigned (next_ℤ next) es)) fits in
    read_variants-cons checks next (before ++ (name ++ after)) (map entry_text es)
      (some (name, next)) (read_variant-entry next (implicit before name after) h) here
    ∙ ap (Option.map (◌∷◌ (name, next))) (read_variants-entries checks (next_ℤ next) es hs later)
read_variants-entries checks next (explicit before name gap gap' value after v ∷ es) (h, hs) fits =
    let (here, later) = both (has_next v) (have_next (assigned (next_ℤ v) es)) fits in
    read_variants-cons checks next (before ++ (name ++ ((gap ++ b'=' ∷ gap') ++ (value ++ after))))
      (map entry_text es) (some (name, v))
      (read_variant-entry next (explicit before name gap gap' value after v) h) here
    ∙ ap (Option.map (◌∷◌ (name, v))) (read_variants-entries checks (next_ℤ v) es hs later)

no_comma : (t : Text) → no_char ends_value t ≡ true → no_char (λ c. c == b',') t ≡ true
no_comma [] h = refl
no_comma (c ∷ t) h = ground (arith, no_comma t)

split-body :
    (e : Entry) (es : List Entry)
    → AllEntries (e ∷ es)
    → split b',' (body_text e es) ≡ map entry_text (e ∷ es)
split-body e [] (h, hs) =
    split-no_char b',' (entry_text e) (no_comma (entry_text e) (no_char-entry e h))
split-body e (f ∷ es) (h, hs) =
    split-append b',' (entry_text e) (body_text f es) (no_comma (entry_text e) (no_char-entry e h))
    ∙ ap (◌∷◌ (entry_text e)) (split-body f es hs)

-- Between the braces of an enum, the enumerators are read with the values that C gives them, as long
-- as an `i64` holds each value and the next one.
pub parse_enum_body-entries :
    (checks : Bool) (e : Entry) (es : List Entry)
    → AllEntries (e ∷ es)
    → have_next (assigned (pos 0) (e ∷ es)) ≡ true
    → parse_enum_body checks (body_text e es) ≡ some (assigned (pos 0) (e ∷ es))
unfolding parse_enum_body
parse_enum_body-entries checks e es h fits =
    ap (read_variants checks (pos 0)) (split-body e es h)
    ∙ read_variants-entries checks (pos 0) (e ∷ es) h fits
