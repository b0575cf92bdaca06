-- ===== src/BuildScript/Text/Trim.antt =====
-- What trimming leaves of a padded text.
use clickhouse_c_rs.Base.{
  ℕ, ◌≡◌, ◌≢◌, refl, ap, ◌∙◌, Bool, true, false, [], ◌∷◌, ◌++◌, arith, append_assoc,
}
use clickhouse_c_rs.BuildScript.Text.{
  Text, all, no_char, is_whitespace, keep_before, trim, trim_start_matches, trim_end_matches,
}

append-ne : (a t : Text) → t ≢ [] → a ++ t ≢ []
append-ne [] t ne = ne
append-ne (x ∷ a) t ne = λ e. cc e

keep_before-ne : (b : Bool) (x : ℕ) (t : Text) → t ≢ [] → keep_before b x t ≡ x ∷ t
keep_before-ne true x [] ne = absurd (ne refl)
keep_before-ne true x (y ∷ t) ne = refl
keep_before-ne false x t ne = refl

module _ (p : ℕ → Bool) where
  pub trim_start_matches-append :
      (a t : Text) → all p a ≡ true → trim_start_matches p (a ++ t) ≡ trim_start_matches p t
  unfolding trim_start_matches
  trim_start_matches-append [] t e = refl
  trim_start_matches-append (x ∷ a) t e = ground (arith, trim_start_matches-append a t)

  pub trim_start_matches-all : (a : Text) → all p a ≡ true → trim_start_matches p a ≡ []
  unfolding trim_start_matches
  trim_start_matches-all [] e = refl
  trim_start_matches-all (x ∷ a) e = ground (arith, trim_start_matches-all a)

  pub trim_start_matches-no_char :
      (t b : Text) → no_char p t ≡ true → t ≢ [] → trim_start_matches p (t ++ b) ≡ t ++ b
  unfolding trim_start_matches
  trim_start_matches-no_char [] b e ne = absurd (ne refl)
  trim_start_matches-no_char (x ∷ t) b e ne = ground arith

  pub trim_end_matches-all : (b : Text) → all p b ≡ true → trim_end_matches p b ≡ []
  unfolding trim_end_matches
  trim_end_matches-all [] e = refl
  trim_end_matches-all (x ∷ b) e = ground (arith, trim_end_matches-all b)

  pub trim_end_matches-append :
      (t b : Text) → all p b ≡ true → trim_end_matches p (t ++ b) ≡ trim_end_matches p t
  unfolding trim_end_matches
  trim_end_matches-append [] b e = trim_end_matches-all b e
  trim_end_matches-append (x ∷ t) b e = ap (keep_before (p x) x) (trim_end_matches-append t b e)

  pub trim_end_matches-no_char : (t : Text) → no_char p t ≡ true → trim_end_matches p t ≡ t
  unfolding trim_end_matches
  trim_end_matches-no_char [] e = refl
  trim_end_matches-no_char (x ∷ t) e = ground (arith, trim_end_matches-no_char t)

  -- What is kept at the end keeps all before it.
  pub trim_end_matches-before :
      (a t : Text) → no_char p t ≡ true → t ≢ [] → trim_end_matches p (a ++ t) ≡ a ++ t
  unfolding trim_end_matches
  trim_end_matches-before [] t e ne = trim_end_matches-no_char t e
  trim_end_matches-before (x ∷ a) t e ne =
      ap (keep_before (p x) x) (trim_end_matches-before a t e ne)
      ∙ keep_before-ne (p x) x (a ++ t) (append-ne a t ne)

regroup : (t m u b : Text) → t ++ (m ++ (u ++ b)) ≡ ((t ++ m) ++ u) ++ b
regroup t m u b = simp append_assoc

-- A text without white space, padded on both sides, is trimmed to itself.
pub trim-padded :
    (a t b : Text)
    → all is_whitespace a ≡ true
    → no_char is_whitespace t ≡ true
    → all is_whitespace b ≡ true
    → trim (a ++ (t ++ b)) ≡ t
unfolding trim trim_end_matches
trim-padded a [] b ea et eb =
    ap (trim_end_matches is_whitespace)
      (trim_start_matches-append is_whitespace a b ea ∙ trim_start_matches-all is_whitespace b eb)
trim-padded a (x ∷ t) b ea et eb =
    ap (trim_end_matches is_whitespace) (
      trim_start_matches-append is_whitespace a ((x ∷ t) ++ b) ea
      ∙ trim_start_matches-no_char is_whitespace (x ∷ t) b et (λ e. cc e))
    ∙ trim_end_matches-append is_whitespace (x ∷ t) b eb
    ∙ trim_end_matches-no_char is_whitespace (x ∷ t) et

-- So is a text whose two ends have none.
pub trim-ends :
    (a t m u b : Text)
    → all is_whitespace a ≡ true
    → no_char is_whitespace t ≡ true
    → t ≢ []
    → no_char is_whitespace u ≡ true
    → u ≢ []
    → all is_whitespace b ≡ true
    → trim (a ++ (t ++ (m ++ (u ++ b)))) ≡ t ++ (m ++ u)
unfolding trim
trim-ends a t m u b ea et nt eu nu eb =
    ap (trim_end_matches is_whitespace) (
      trim_start_matches-append is_whitespace a (t ++ (m ++ (u ++ b))) ea
      ∙ trim_start_matches-no_char is_whitespace t (m ++ (u ++ b)) et nt
      ∙ regroup t m u b)
    ∙ trim_end_matches-append is_whitespace ((t ++ m) ++ u) b eb
    ∙ trim_end_matches-before is_whitespace (t ++ m) u eu nu
    ∙ append_assoc t m u
