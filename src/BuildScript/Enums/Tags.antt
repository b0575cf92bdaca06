-- ===== src/BuildScript/Enums/Tags.antt =====
-- An enum at the head of the text, as `extract_enums` (build.rs) takes it apart.
use clickhouse_c_rs.Base.{
  ℕ, ◌≤◌, ◌≡◌, ◌≢◌, refl, ap, ◌∙◌, Bool, true, false, ◌||◌, Option, none, some, ==_iff, List, [],
  ◌∷◌, ◌++◌, arith, ◌==◌,
}
use clickhouse_c_rs.BuildScript.Text.{
  Text, all, no_char, is_ident_byte, is_ascii_alphabetic, is_ascii_whitespace, span, strip_prefix,
}
use clickhouse_c_rs.BuildScript.Text.Split.{span-append, no_char-append}
use clickhouse_c_rs.BuildScript.Text.Split.{both}
use clickhouse_c_rs.BuildScript.Enums.{body_of, tag_of, named_tag, after_keyword, starts_ident}
use clickhouse_c_rs.BuildScript.Enums.Entries.{
  Entry, entry_text, AllEntries, body_text, ends_value, no_char-entry,
}
use clickhouse_c_rs.BuildScript.Enums.Items.{ends_open, is_tag}

abbrev is_brace : ℕ → Bool
is_brace c = c == b'{' || c == b'}'

no_brace : (t : Text) → no_char ends_value t ≡ true → no_char is_brace t ≡ true
no_brace [] h = refl
no_brace (c ∷ t) h = ground (arith, no_brace t)

pub no_brace-body :
    (e : Entry) (es : List Entry) → AllEntries (e ∷ es) → no_char is_brace (body_text e es) ≡ true
no_brace-body e [] (h, hs) = no_brace (entry_text e) (no_char-entry e h)
no_brace-body e (f ∷ es) (h, hs) =
    no_char-append is_brace (entry_text e) (b',' ∷ body_text f es)
      (no_brace (entry_text e) (no_char-entry e h)) (no_brace-body f es hs)

body_of-append :
    (b rest : Text) → no_char is_brace b ≡ true → body_of 1 (b ++ b'}' ∷ rest) ≡ some (b, rest)
unfolding body_of
body_of-append [] rest h = refl
body_of-append (c ∷ b) rest h = ground (arith, body_of-append b rest)

pub strip_prefix-open :
    (w : Text) (d : ℕ) (s rest : Text)
    → all is_ident_byte w ≡ true
    → ends_open (d ∷ s) ≡ true
    → strip_prefix w (d ∷ s) ≡ none
    → strip_prefix w ((d ∷ s) ++ rest) ≡ none
unfolding strip_prefix
strip_prefix-open [] d s rest hw ho e = cc
strip_prefix-open (c ∷ w) d [] rest hw ho e =
    ground (arith, ==_iff c d, ap is_ident_byte {x = c} {y = d})
strip_prefix-open (c ∷ w) d (x ∷ s) rest hw ho e = ground (arith, strip_prefix-open w x s rest)

space_bound : (c : ℕ) → is_ascii_whitespace c ≡ true → c ≤ 32
unfolding is_ascii_whitespace
space_bound c h = ground arith

low-ident : (c : ℕ) → c ≤ 32 → is_ident_byte c ≡ false
unfolding is_ident_byte is_ascii_alphabetic
low-ident c h = ground arith

space-ident : (c : ℕ) → is_ascii_whitespace c ≡ true → is_ident_byte c ≡ false
space-ident c h = low-ident c (space_bound c h)

ident-space : (c : ℕ) → is_ident_byte c ≡ true → is_ascii_whitespace c ≡ false
ident-space c h = ground (arith, space-ident c)

first-ident : (c : ℕ) → (is_ascii_alphabetic c || c == b'_') ≡ true → is_ident_byte c ≡ true
unfolding is_ident_byte
first-ident c h = ground arith

starts_ident-space :
    (gap r : Text)
    → all is_ascii_whitespace gap ≡ true
    → starts_ident r ≡ false
    → starts_ident (gap ++ r) ≡ false
starts_ident-space [] r h e = e
starts_ident-space (c ∷ gap) r h e = space-ident c (ground arith)

span-ident :
    (a r : Text)
    → all is_ident_byte a ≡ true
    → starts_ident r ≡ false
    → span is_ident_byte (a ++ r) ≡ (a, r)
unfolding span
span-ident [] [] h e = refl
span-ident [] (x ∷ r) h e = rw e refl
span-ident (c ∷ a) r h e = ground (arith, span-ident a r)

brace_closed : starts_ident (b'{' ∷ []) ≡ false
unfolding is_ident_byte is_ascii_alphabetic
brace_closed = refl

brace-space : is_ascii_whitespace b'{' ≡ false
unfolding is_ascii_whitespace
brace-space = refl

module _ (body rest : Text) (plain : no_char is_brace body ≡ true) where
  after_keyword-opened :
      (cs : Text) (tag : Option Text)
      → starts_ident cs ≡ false
      → tag_of (span is_ascii_whitespace cs).1 ≡ (tag, b'{' ∷ (body ++ b'}' ∷ rest))
      → after_keyword (some cs) ≡ some (tag, body, rest)
  after_keyword-opened cs tag closed at =
      rw closed (rw at (rw (body_of-append body rest plain) refl))

  pub after_keyword-anonymous :
      (gap : Text)
      → all is_ascii_whitespace gap ≡ true
      → after_keyword (some (gap ++ b'{' ∷ (body ++ b'}' ∷ rest))) ≡ some (none, body, rest)
  unfolding tag_of is_ascii_alphabetic
  after_keyword-anonymous gap h =
      after_keyword-opened (gap ++ b'{' ∷ (body ++ b'}' ∷ rest)) none
        (starts_ident-space gap (b'{' ∷ (body ++ b'}' ∷ rest)) h brace_closed)
        (ap (λ s. tag_of s.1)
          (span-append is_ascii_whitespace gap b'{' (body ++ b'}' ∷ rest) h brace-space))

  tag_of-tag :
      (tag gap' : Text)
      → is_tag tag ≡ true
      → all is_ascii_whitespace gap' ≡ true
      → tag_of (tag ++ (gap' ++ b'{' ∷ (body ++ b'}' ∷ rest)))
        ≡ (some tag, b'{' ∷ (body ++ b'}' ∷ rest))
  unfolding tag_of
  tag_of-tag [] gap' ht h = cc
  tag_of-tag (c ∷ t) gap' ht h =
      let tail : Text = gap' ++ b'{' ∷ (body ++ b'}' ∷ rest) in
      let (first, others) = both (is_ascii_alphabetic c || c == b'_') (all is_ident_byte t) ht in
      let name : all is_ident_byte (c ∷ t) ≡ true = ground (arith, first-ident c) in
      let taken : span is_ident_byte ((c ∷ t) ++ tail) ≡ (c ∷ t, tail) =
        span-ident (c ∷ t) tail name
          (starts_ident-space gap' (b'{' ∷ (body ++ b'}' ∷ rest)) h brace_closed) in
      rw first (
        ap named_tag taken
        ∙ ap (λ (s : Text × Text). (some (c ∷ t), s.1))
            (span-append is_ascii_whitespace gap' b'{' (body ++ b'}' ∷ rest) h brace-space))

  pub after_keyword-tagged :
      (gap tag gap' : Text)
      → all is_ascii_whitespace gap ≡ true
      → gap ≢ []
      → is_tag tag ≡ true
      → all is_ascii_whitespace gap' ≡ true
      → after_keyword (some (gap ++ (tag ++ (gap' ++ b'{' ∷ (body ++ b'}' ∷ rest)))))
        ≡ some (some tag, body, rest)
  after_keyword-tagged [] tag gap' h ne ht h' = absurd (ne refl)
  after_keyword-tagged (g ∷ gap) [] gap' h ne ht h' = cc
  after_keyword-tagged (g ∷ gap) (c ∷ t) gap' h ne ht h' =
      let tail : Text = t ++ (gap' ++ b'{' ∷ (body ++ b'}' ∷ rest)) in
      let (first, others) = both (is_ascii_alphabetic c || c == b'_') (all is_ident_byte t) ht in
      after_keyword-opened ((g ∷ gap) ++ c ∷ tail) (some (c ∷ t))
        (space-ident g (both (is_ascii_whitespace g) (all is_ascii_whitespace gap) h).0)
        (ap (λ s. tag_of s.1)
            (span-append is_ascii_whitespace (g ∷ gap) c tail h
              (ident-space c (first-ident c first)))
          ∙ tag_of-tag (c ∷ t) gap' ht h')
