-- ===== src/BuildScript/Enums/Found.antt =====
-- The scan of `extract_enums` (build.rs) over a header.
use clickhouse_c_rs.Base.{
  ℕ, ◌-◌, ◌≡◌, refl, ap, ◌∙◌, sym, Bool, true, false, not, Option, none, some, List, [], ◌∷◌, ◌++◌,
  arith, append_assoc, length, length-append,
}
use mathlib.Core.Option
use clickhouse_c_rs.Base.Int.{pos}
use clickhouse_c_rs.BuildScript.Text.{
  Text, all, codes, as_bytes, is_ident_byte, is_ascii_alphabetic, strip_prefix,
}
use clickhouse_c_rs.BuildScript.Comments.{strip_comments}
use clickhouse_c_rs.BuildScript.Comments.Pieces
use clickhouse_c_rs.BuildScript.Comments.Pieces.{Piece, strip_comments-render}
use clickhouse_c_rs.BuildScript.Enums.{
  Variant, after_keyword, enum_at, parse_enum_body, push_block, scan, extract_enums,
}
use clickhouse_c_rs.BuildScript.Enums.Entries.{Entry, AllEntries, body_text, assigned, have_next}
use clickhouse_c_rs.BuildScript.Enums.Values.{parse_enum_body-entries}
use clickhouse_c_rs.BuildScript.Enums.Items.{
  Item, other, anonymous, tagged, header_text, mentions_enum, ends_open, AllItems, enums_of, after,
}
use clickhouse_c_rs.BuildScript.Enums.Tags.{
  no_brace-body, strip_prefix-open, after_keyword-anonymous, after_keyword-tagged,
}

scan-skip :
    (checks behind : Bool) (x rest : Text)
    → scan checks behind (length x) (x ++ rest) ≡ scan checks (after behind x) 0 rest
unfolding scan
scan-skip checks behind [] rest = refl
scan-skip checks behind (c ∷ x) rest = scan-skip checks (is_ident_byte c) x rest

after-end : (behind : Bool) (x : Text) → after behind (x ++ b'}' ∷ []) ≡ false
unfolding is_ident_byte is_ascii_alphabetic
after-end behind [] = refl
after-end behind (c ∷ x) = after-end (is_ident_byte c) x

keyword : (cs : Text) → enum_at false (codes "enum" ++ cs) ≡ after_keyword (some cs)
unfolding enum_at strip_prefix
keyword cs = refl

module _ (checks p : Bool) (c : ℕ) (cs : Text) where
  scan-hit :
      (tag : Option Text) (body rest : Text) (variants : List Variant)
      → enum_at p (c ∷ cs) ≡ some (tag, body, rest)
      → parse_enum_body checks body ≡ some variants
      → scan checks p 0 (c ∷ cs)
        ≡ Option.map
            (push_block tag variants)
            (scan checks (is_ident_byte c) (length cs - length rest) cs)
  unfolding scan
  scan-hit tag body rest variants found parsed = rw (found, scan) (rw parsed refl)

  scan-miss :
      enum_at p (c ∷ cs) ≡ none → scan checks p 0 (c ∷ cs) ≡ scan checks (is_ident_byte c) 0 cs
  unfolding scan
  scan-miss missing = rw (missing, scan) refl

-- Behind an enum the scan goes on behind its brace.
scan-past :
    (checks p : Bool) (y rest : Text)
    → scan checks p (length ((y ++ b'}' ∷ []) ++ rest) - length rest) ((y ++ b'}' ∷ []) ++ rest)
      ≡ scan checks false 0 rest
scan-past checks p y rest =
    let y' : Text = y ++ b'}' ∷ [] in
    ap (λ n. scan checks p n (y' ++ rest)) {x = length (y' ++ rest) - length rest} {y = length y'}
      (omega (arith, length-append y' rest))
    ∙ scan-skip checks p y' rest
    ∙ ap (λ q. scan checks q 0 rest) (after-end p y)

scan-keyword :
    (checks : Bool) (tag : Option Text) (body rest x : Text) (variants : List Variant)
    → after_keyword (some (x ++ b'}' ∷ rest)) ≡ some (tag, body, rest)
    → parse_enum_body checks body ≡ some variants
    → scan checks false 0 (codes "enum" ++ (x ++ b'}' ∷ rest))
      ≡ Option.map (push_block tag variants) (scan checks false 0 rest)
scan-keyword checks tag body rest x variants found parsed =
    let cs : Text = codes "num" ++ (x ++ b'}' ∷ rest) in
    let joined : cs ≡ ((codes "num" ++ x) ++ b'}' ∷ []) ++ rest = simp append_assoc in
    scan-hit checks false b'e' cs tag body rest variants (keyword (x ++ b'}' ∷ rest) ∙ found) parsed
    ∙ ap (Option.map (push_block tag variants)) (
        ap (λ s. scan checks (is_ident_byte b'e') (length s - length rest) s) joined
        ∙ scan-past checks (is_ident_byte b'e') (codes "num" ++ x) rest)

enum_at-other : (p : Bool) (t : Text) → strip_prefix (codes "enum") t ≡ none → enum_at p t ≡ none
unfolding enum_at
enum_at-other true t e = refl
enum_at-other false t e = rw e refl

enum-ident : all is_ident_byte (codes "enum") ≡ true
unfolding is_ident_byte is_ascii_alphabetic
enum-ident = refl

negated : (b : Bool) → not b ≡ true → b ≡ false
negated false h = refl
negated true h = cc

quiet_here :
    (c : ℕ) (t : Text) → mentions_enum (c ∷ t) ≡ false → strip_prefix (codes "enum") (c ∷ t) ≡ none
quiet_here c t h = ground arith

quiet_later : (c : ℕ) (t : Text) → mentions_enum (c ∷ t) ≡ false → mentions_enum t ≡ false
quiet_later c t h = ground arith

scan-other :
    (checks p : Bool) (c : ℕ) (t rest : Text)
    → mentions_enum (c ∷ t) ≡ false
    → ends_open (c ∷ t) ≡ true
    → scan checks p 0 ((c ∷ t) ++ rest) ≡ scan checks false 0 rest
scan-other checks p c [] rest quiet open_end =
    scan-miss checks p c rest (
      enum_at-other p (c ∷ rest)
        (strip_prefix-open (codes "enum") c [] rest enum-ident open_end (quiet_here c [] quiet)))
    ∙ ap (λ q. scan checks q 0 rest) (negated (is_ident_byte c) open_end)
scan-other checks p c (d ∷ t) rest quiet open_end =
    scan-miss checks p c (d ∷ (t ++ rest)) (
      enum_at-other p (c ∷ d ∷ (t ++ rest)) (
        strip_prefix-open (codes "enum") c (d ∷ t) rest enum-ident open_end
          (quiet_here c (d ∷ t) quiet)))
    ∙ scan-other checks (is_ident_byte c) d t rest (quiet_later c (d ∷ t) quiet) open_end

scan-nil : (checks : Bool) → scan checks false 0 [] ≡ some []
unfolding scan
scan-nil checks = refl

-- An enum at the head of the text, whose tag stands in `head`.
scan-enum :
    (checks : Bool) (tag : Option Text) (head : Text) (e : Entry) (es : List Entry) (rest : Text)
    → AllEntries (e ∷ es)
    → have_next (assigned (pos 0) (e ∷ es)) ≡ true
    → after_keyword (some (head ++ b'{' ∷ (body_text e es ++ b'}' ∷ rest)))
      ≡ some (tag, body_text e es, rest)
    → scan checks false 0 (codes "enum" ++ (head ++ b'{' ∷ (body_text e es ++ b'}' ∷ rest)))
      ≡ Option.map (push_block tag (assigned (pos 0) (e ∷ es))) (scan checks false 0 rest)
scan-enum checks tag head e es rest he fits found =
    let joined : head ++ b'{' ∷ (body_text e es ++ b'}' ∷ rest)
        ≡ (head ++ b'{' ∷ body_text e es) ++ b'}' ∷ rest =
      sym (append_assoc head (b'{' ∷ body_text e es) (b'}' ∷ rest)) in
    ap (λ s. scan checks false 0 (codes "enum" ++ s)) joined
    ∙ scan-keyword checks tag (body_text e es) rest (head ++ b'{' ∷ body_text e es)
        (assigned (pos 0) (e ∷ es)) (ap (λ s. after_keyword (some s)) (sym joined) ∙ found)
        (parse_enum_body-entries checks e es he fits)

scan-items :
    (checks : Bool) (is : List Item)
    → AllItems is
    → scan checks false 0 (header_text is) ≡ some (enums_of is)
scan-items checks [] h = scan-nil checks
scan-items checks (other [] ∷ is) (h, hs) = scan-items checks is hs
scan-items checks (other (c ∷ t) ∷ is) ((quiet, open_end), hs) =
    scan-other checks false c t (header_text is) quiet open_end ∙ scan-items checks is hs
scan-items checks (anonymous gap e es ∷ is) ((hg, he, fits), hs) =
    let rest = header_text is in
    scan-enum checks none gap e es rest he fits
      (after_keyword-anonymous (body_text e es) rest (no_brace-body e es he) gap hg)
    ∙ ap (Option.map (push_block none (assigned (pos 0) (e ∷ es)))) (scan-items checks is hs)
scan-items checks (tagged gap tag gap' e es ∷ is) ((hg, ne, ht, hg', he, fits), hs) =
    let rest = header_text is in
    let tail : Text = b'{' ∷ (body_text e es ++ b'}' ∷ rest) in
    let joined : gap ++ (tag ++ (gap' ++ tail)) ≡ (gap ++ (tag ++ gap')) ++ tail =
      simp append_assoc in
    ap (λ s. scan checks false 0 (codes "enum" ++ s)) joined
    ∙ scan-enum checks (some tag) (gap ++ (tag ++ gap')) e es rest he fits (
        ap (λ s. after_keyword (some s)) (sym joined)
        ∙ after_keyword-tagged (body_text e es) rest (no_brace-body e es he) gap tag gap' hg ne ht
            hg')
    ∙ ap (Option.map (push_block (some tag) (assigned (pos 0) (e ∷ es)))) (scan-items checks is hs)

pub extract_enums-header :
    (checks : Bool) (src : Text) (ps : List Piece) (is : List Item)
    → as_bytes src ≡ Pieces.render ps []
    → Pieces.well_formed ps ≡ true
    → Pieces.kept ps ≡ header_text is
    → AllItems is
    → extract_enums checks src ≡ some (enums_of is)
unfolding extract_enums
extract_enums-header checks src ps is made formed rest h =
    ap (λ s. scan checks false 0 (strip_comments s)) made
    ∙ ap (scan checks false 0) (strip_comments-render ps formed ∙ rest)
    ∙ scan-items checks is h
