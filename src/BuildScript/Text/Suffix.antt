-- ===== src/BuildScript/Text/Suffix.antt =====
-- How a text ends, and the sentinels among enumerators.
use clickhouse_c_rs.Base.{
  ◌≡◌, ◌↔◌, ◌⊎◌, inl, inr, refl, ap, sym, true, ◌||◌, [], ◌∷◌, ◌++◌, arith, Bool-cases,
}
use clickhouse_c_rs.BuildScript.Text.{Text, codes, text_eq, ends_with}

pub text_eq-eq : (s t : Text) → text_eq s t ≡ true → s ≡ t
unfolding text_eq
text_eq-eq [] [] e = refl
text_eq-eq [] (d ∷ t) e = cc
text_eq-eq (c ∷ s) [] e = cc
text_eq-eq (c ∷ s) (d ∷ t) e = ground (arith, text_eq-eq s t)

pub text_eq_refl : (s : Text) → text_eq s s ≡ true
unfolding text_eq
text_eq_refl [] = refl
text_eq_refl (c ∷ s) = ground (arith, text_eq_refl s)

abbrev pub Ends : Text → Text → Type 0
Ends suffix t = (stem : Text) × (t ≡ stem ++ suffix)

ends_with-Ends : (suffix t : Text) → ends_with suffix t ≡ true → Ends suffix t
unfolding ends_with
ends_with-Ends suffix [] e = ([], sym (text_eq-eq suffix [] e))
ends_with-Ends suffix (c ∷ t) e = elim (Bool-cases (text_eq suffix (c ∷ t))) [
  | inl whole ↦ ([], sym (text_eq-eq suffix (c ∷ t) whole))
  | inr part ↦ let (stem, is) = ends_with-Ends suffix t (ground arith) in (c ∷ stem, ap (◌∷◌ c) is)
]

ends_with-append : (stem suffix : Text) → ends_with suffix (stem ++ suffix) ≡ true
unfolding ends_with
ends_with-append [] [] = text_eq_refl []
ends_with-append [] (c ∷ suffix) = rw (text_eq_refl (c ∷ suffix)) refl
ends_with-append (c ∷ stem) suffix = ground (arith, ends_with-append stem suffix)

-- A count of the enumerators, or a name for the last of them.
abbrev pub IsSentinel : Text → Type 0
IsSentinel name = Ends (codes "_COUNT") name ⊎ Ends (codes "_LAST") name

pub ends_with-IsSentinel :
    (name : Text)
    → ((ends_with (codes "_COUNT") name || ends_with (codes "_LAST") name) ≡ true) ↔ IsSentinel name
ends_with-IsSentinel name = (
  λ e. elim (Bool-cases (ends_with (codes "_COUNT") name)) [
    | inl counts ↦ inl (ends_with-Ends (codes "_COUNT") name counts)
    | inr other ↦ inr (ends_with-Ends (codes "_LAST") name (ground arith))
  ],
  λ is. elim is [
    | inl (stem, same) ↦ rw (same, ends_with-append stem (codes "_COUNT")) refl
    | inr (stem, same) ↦
        let last : ends_with (codes "_LAST") name ≡ true =
          rw same (ends_with-append stem (codes "_LAST")) in
        ground arith
  ],
)
