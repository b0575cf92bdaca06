-- ===== src/BuildScript/Text/Split.antt =====
-- Texts taken apart at a separator and behind a prefix of like characters.
use clickhouse_c_rs.Base.{
  ℕ, ◌≡◌, refl, ap, ◌∙◌, Bool, true, false, ◌&&◌, some, none, [], ◌∷◌, ◌++◌, arith, ◌==◌,
  Bool-cases, ==_iff, inl, inr, sym,
}
use clickhouse_c_rs.BuildScript.Text.{Text, all, no_char, span, split, split_once}

pub split-append :
    (sep : ℕ) (t u : Text)
    → no_char (λ c. c == sep) t ≡ true
    → split sep (t ++ sep ∷ u) ≡ t ∷ split sep u
unfolding split
split-append sep [] u h = ground arith
split-append sep (c ∷ t) u h = ground (arith, split-append sep t u)

pub split-no_char : (sep : ℕ) (t : Text) → no_char (λ c. c == sep) t ≡ true → split sep t ≡ t ∷ []
unfolding split
split-no_char sep [] h = refl
split-no_char sep (c ∷ t) h = ground (arith, split-no_char sep t)

pub split_once-append :
    (sep : ℕ) (t u : Text)
    → no_char (λ c. c == sep) t ≡ true
    → split_once sep (t ++ sep ∷ u) ≡ some (t, u)
unfolding split_once
split_once-append sep [] u h = ground arith
split_once-append sep (c ∷ t) u h = ground (arith, split_once-append sep t u)

pub split_once-no_char :
    (sep : ℕ) (t : Text) → no_char (λ c. c == sep) t ≡ true → split_once sep t ≡ none
unfolding split_once
split_once-no_char sep [] h = refl
split_once-no_char sep (c ∷ t) h = ground (arith, split_once-no_char sep t)

pub span-append :
    (p : ℕ → Bool) (a : Text) (x : ℕ) (t : Text)
    → all p a ≡ true
    → p x ≡ false
    → span p (a ++ x ∷ t) ≡ (a, x ∷ t)
unfolding span
span-append p [] x t h e = rw e refl
span-append p (c ∷ a) x t h e = ground (arith, span-append p a x t)

-- A test that a stricter one implies.
pub no_char-imp :
    (p q : ℕ → Bool)
    → ((c : ℕ) → p c ≡ true → q c ≡ false)
    → (t : Text) → all p t ≡ true
    → no_char q t ≡ true
no_char-imp p q imp [] h = refl
no_char-imp p q imp (c ∷ t) h = ground (arith, imp c, no_char-imp p q imp t)

pub no_char-append :
    (p : ℕ → Bool) (a b : Text)
    → no_char p a ≡ true
    → no_char p b ≡ true
    → no_char p (a ++ b) ≡ true
no_char-append p [] b ha hb = hb
no_char-append p (x ∷ a) b ha hb = ground (arith, no_char-append p a b)

-- A character that the test refuses is none that it accepts.
pub eq-false : (p : ℕ → Bool) (k : ℕ) → p k ≡ false → (c : ℕ) → p c ≡ true → (c == k) ≡ false
eq-false p k h c e = elim (Bool-cases (c == k)) [
  | inl same ↦ cc (sym e ∙ ap p ((==_iff c k).0 same) ∙ h)
  | inr other ↦ other
]

pub both : (a b : Bool) → (a && b) ≡ true → (a ≡ true) × (b ≡ true)
both true b h = (refl, h)
both false b h = cc
