-- ===== src/BuildScript/Enums/Entries.antt =====
-- What `parse_enum_body` (build.rs) reads between the braces of a C enum.
use clickhouse_c_rs.Base.{
  ℕ, zero, suc, ◌-◌, ◌^◌, ◌≤◌, ◌≡◌, ◌≢◌, refl, Bool, true, false, ◌&&◌, ◌||◌, some, List, [], ◌∷◌,
  ◌++◌, arith, ltb, ◌==◌, append_assoc,
}
use clickhouse_c_rs.Base.Int.{ℤ, pos, negsuc}
use clickhouse_c_rs.BuildScript.Text.{
  Text, all, no_char, is_ident_byte, is_ascii_alphabetic, is_whitespace,
}
use clickhouse_c_rs.BuildScript.Text.Split.{no_char-imp, no_char-append, eq-false}
use clickhouse_c_rs.BuildScript.CInteger.Grammar.{IsLiteral}
use clickhouse_c_rs.BuildScript.Enums.{Variant, add_one}

-- What stands between two commas: nothing, a name, or a name with a value. White space may stand
-- around the names and the values. A value is a decimal or hexadecimal literal.
pub data Entry : Type 0 where
  blank : Text → Entry
  implicit : Text → Text → Text → Entry
  explicit : Text → Text → Text → Text → Text → Text → ℤ → Entry

abbrev pub entry_text : Entry → Text
entry_text (blank space) = space
entry_text (implicit before name after) = before ++ (name ++ after)
entry_text (explicit before name gap gap' value after v) =
    before ++ (name ++ ((gap ++ b'=' ∷ gap') ++ (value ++ after)))

abbrev pub is_space : Text → Bool
is_space = all is_whitespace

abbrev pub is_name : Text → Bool
is_name [] = false
is_name (c ∷ cs) = all is_ident_byte (c ∷ cs)

-- The characters that end a value.
abbrev pub ends_value : ℕ → Bool
ends_value c = c == b',' || c == b'{' || c == b'}'

abbrev pub IsEntry : Entry → Type 0
IsEntry (blank space) = is_space space ≡ true
IsEntry (implicit before name after) =
    (is_space before ≡ true) × (is_name name ≡ true) × (is_space after ≡ true)
IsEntry (explicit before name gap gap' value after v) =
    (is_space before ≡ true)
    × (is_name name ≡ true)
    × (is_space gap ≡ true)
    × (is_space gap' ≡ true)
    × (no_char is_whitespace value ≡ true)
    × (no_char ends_value value ≡ true)
    × (is_space after ≡ true)
    × IsLiteral value v

abbrev pub AllEntries : List Entry → Type 0
AllEntries [] = Unit {0}
AllEntries (e ∷ es) = IsEntry e × AllEntries es

-- The entries with commas between them.
abbrev pub body_text : Entry → List Entry → Text
body_text e [] = entry_text e
body_text e (f ∷ es) = entry_text e ++ b',' ∷ body_text f es

abbrev pub next_ℤ : ℤ → ℤ
next_ℤ (pos n) = pos (suc n)
next_ℤ (negsuc zero) = pos 0
next_ℤ (negsuc (suc n)) = negsuc n

-- The values that C gives: the stated one, or one more than that of the enumerator before.
abbrev pub assigned : ℤ → List Entry → List Variant
assigned next [] = []
assigned next (blank space ∷ es) = assigned next es
assigned next (implicit before name after ∷ es) = (name, next) ∷ assigned (next_ℤ next) es
assigned next (explicit before name gap gap' value after v ∷ es) =
    (name, v) ∷ assigned (next_ℤ v) es

-- An `i64` holds the value after each one.
abbrev pub has_next : ℤ → Bool
has_next (pos n) = ltb n (2 ^ 63 - 1)
has_next (negsuc n) = true

abbrev pub have_next : List Variant → Bool
have_next [] = true
have_next ((name, v) ∷ vs) = has_next v && have_next vs

pub add_one-next_ℤ :
    (checks : Bool) (v : ℤ) → has_next v ≡ true → add_one checks v ≡ some (next_ℤ v)
unfolding add_one
add_one-next_ℤ checks (pos n) h = ground arith
add_one-next_ℤ checks (negsuc zero) h = refl
add_one-next_ℤ checks (negsuc (suc n)) h = refl

ident_bounds : (c : ℕ) → is_ident_byte c ≡ true → (48 ≤ c) × (c ≤ 122)
unfolding is_ident_byte is_ascii_alphabetic
ident_bounds c h = ground arith

no_space : (c : ℕ) → 48 ≤ c → c ≤ 122 → is_whitespace c ≡ false
unfolding is_whitespace
no_space c lo hi = ground arith

pub ident-space : (c : ℕ) → is_ident_byte c ≡ true → is_whitespace c ≡ false
ident-space c h = let (lo, hi) = ident_bounds c h in no_space c lo hi

pub ident-equals : (c : ℕ) → is_ident_byte c ≡ true → (c == b'=') ≡ false
unfolding is_ident_byte is_ascii_alphabetic
ident-equals = eq-false is_ident_byte b'=' refl

ident-ends_value : (c : ℕ) → is_ident_byte c ≡ true → ends_value c ≡ false
unfolding is_ident_byte is_ascii_alphabetic
ident-ends_value c h =
    rw
      (
        eq-false is_ident_byte b',' refl c h,
        eq-false is_ident_byte b'{' refl c h,
        eq-false is_ident_byte b'}' refl c h,
      )
      refl

pub space-equals : (c : ℕ) → is_whitespace c ≡ true → (c == b'=') ≡ false
unfolding is_whitespace
space-equals = eq-false is_whitespace b'=' refl

space-ends_value : (c : ℕ) → is_whitespace c ≡ true → ends_value c ≡ false
unfolding is_whitespace
space-ends_value c h =
    rw
      (
        eq-false is_whitespace b',' refl c h,
        eq-false is_whitespace b'{' refl c h,
        eq-false is_whitespace b'}' refl c h,
      )
      refl

pub name_ident : (t : Text) → is_name t ≡ true → all is_ident_byte t ≡ true
name_ident [] h = refl
name_ident (c ∷ cs) h = h

pub name_ne : (t : Text) → is_name t ≡ true → t ≢ []
name_ne [] h = cc
name_ne (c ∷ cs) h = λ e. cc e

pub regroup :
    (name gap gap' value : Text)
    → name ++ ((gap ++ b'=' ∷ gap') ++ value) ≡ (name ++ gap) ++ b'=' ∷ (gap' ++ value)
regroup name gap gap' value = simp append_assoc

space-no_char : (t : Text) → is_space t ≡ true → no_char ends_value t ≡ true
space-no_char t h = no_char-imp is_whitespace ends_value space-ends_value t h

pub name-no_char :
    (q : ℕ → Bool)
    → ((c : ℕ) → is_ident_byte c ≡ true → q c ≡ false)
    → (t : Text) → is_name t ≡ true
    → no_char q t ≡ true
name-no_char q imp t h = no_char-imp is_ident_byte q imp t (name_ident t h)

-- No comma and no brace stands in an entry.
pub no_char-entry : (e : Entry) → IsEntry e → no_char ends_value (entry_text e) ≡ true
no_char-entry (blank space) h = space-no_char space h
no_char-entry (implicit before name after) (hb, hn, ha) =
    no_char-append ends_value before (name ++ after) (space-no_char before hb) (
      no_char-append ends_value name after (name-no_char ends_value ident-ends_value name hn)
        (space-no_char after ha))
no_char-entry (explicit before name gap gap' value after v) (hb, hn, hg, hg', hv, he, ha, p) =
    no_char-append ends_value before (name ++ ((gap ++ b'=' ∷ gap') ++ (value ++ after)))
      (space-no_char before hb)
      (no_char-append ends_value name ((gap ++ b'=' ∷ gap') ++ (value ++ after))
        (name-no_char ends_value ident-ends_value name hn)
        (no_char-append ends_value (gap ++ b'=' ∷ gap') (value ++ after)
          (no_char-append ends_value gap (b'=' ∷ gap') (space-no_char gap hg)
            (space-no_char gap' hg'))
          (no_char-append ends_value value after he (space-no_char after ha))))
