-- ===== src/Builder/Keys.antt =====
-- LowCardinality keys are accepted exactly where every row's key lies in the dictionary.
use clickhouse_c_rs.Base.{
  ℕ, zero, suc, ◌+◌, ◌*◌, ◌/◌, ◌≤◌, ◌<◌, ◌≡◌, ◌↔◌, refl, ap, sym, ◌∙◌, ◌⊎◌, inl, inr, List, [], ◌∷◌,
  length, take, drop, drop-drop, Bytes, some, arith, leb, Bool-cases, Option-cases,
}
use clickhouse_c_rs.Base.Int.{ℤ, pos}
use clickhouse_c_rs.Error.{>>=-eq-ok, Message, str, ok}
use clickhouse_c_rs.Builder.{
  Target, checked_len, require_len, from_ne_bytes, key_width, chunks, chunks_exact, keys_from,
  keys_of_width, validate_low_cardinality_keys,
}
use clickhouse_c_rs.Builder.Offsets.{require_len_iff}

-- The key of row `i`, as the C code reads it: `width` bytes from `i * width` on.
abbrev pub key_at : Target → ℕ → Bytes → ℕ → ℕ
key_at t width keys i = from_ne_bytes t (take width (drop (i * width) keys))

abbrev AllKeys : Target → ℕ → List Bytes → Type 0
AllKeys t dict_n [] = Unit {0}
AllKeys t dict_n (key ∷ keys) = (from_ne_bytes t key < dict_n) × AllKeys t dict_n keys

keys_from-AllKeys :
    (t : Target) (row dict_n : ℕ) (keys : List Bytes)
    → (keys_from t row dict_n keys ≡ ok tt) ↔ AllKeys t dict_n keys
unfolding keys_from
keys_from-AllKeys t row dict_n [] = (λ e. tt, λ e. refl)
keys_from-AllKeys t row dict_n (key ∷ keys) =
    let later = keys_from-AllKeys t (row + 1) dict_n keys in
    elim (Bool-cases (leb dict_n (from_ne_bytes t key))) [
      | inl out ↦ rw out (λ e. cc, λ all. ground arith)
      | inr within ↦ rw within (λ e. (ground arith, later.0 e), λ all. later.1 all.1)
    ]

key_at-zero :
    (t : Target) (width : ℕ) (keys : Bytes)
    → key_at t width keys 0 ≡ from_ne_bytes t (take width keys)
key_at-zero t width keys =
    ap (λ k. from_ne_bytes t (take width (drop k keys))) {x = 0 * width} {y = 0} (omega arith)

key_at-suc :
    (t : Target) (width : ℕ) (keys : Bytes) (i : ℕ)
    → key_at t width keys (suc i) ≡ key_at t width (drop width keys) i
key_at-suc t width keys i =
    ap (λ k. from_ne_bytes t (take width (drop k keys))) {x = suc i * width} {y = width + i * width}
      (omega arith)
    ∙ ap (λ ks. from_ne_bytes t (take width ks)) (sym (drop-drop width (i * width) keys))

-- The chunks are the rows' keys.
key_at-chunks :
    (t : Target) (dict_n width n : ℕ) (keys : Bytes)
    → AllKeys t dict_n (chunks n width keys)
    → (i : ℕ) → i < n
    → key_at t width keys i < dict_n
key_at-chunks t dict_n width zero keys all i lt = elim lt [ ]
key_at-chunks t dict_n width (suc n) keys all zero lt = rw (key_at-zero t width keys) all.0
key_at-chunks t dict_n width (suc n) keys all (suc i) lt =
    rw (key_at-suc t width keys i)
      (key_at-chunks t dict_n width n (drop width keys) all.1 i (omega arith))

chunks-key_at :
    (t : Target) (dict_n width n : ℕ) (keys : Bytes)
    → ((i : ℕ) → i < n → key_at t width keys i < dict_n)
    → AllKeys t dict_n (chunks n width keys)
chunks-key_at t dict_n width zero keys all = tt
chunks-key_at t dict_n width (suc n) keys all = (
  rw (key_at-zero t width keys) at (all 0 (omega arith)),
  chunks-key_at t dict_n width n (drop width keys)
      (λ i lt. rw (key_at-suc t width keys i) at (all (suc i) (omega arith))),
)

pub checked_len_iff :
    (t : Target) (count width : ℕ) (label : Message) (n : ℕ)
    → (checked_len t count width label ≡ ok n)
      ↔ ((count * width ≤ t.usize_max) × (n ≡ count * width))
unfolding checked_len
checked_len_iff t count width label n = (λ e. (ground arith, ground arith), λ h. ground arith)

-- The key sizes of the wire format, in bytes.
abbrev pub WireWidth : ℤ → ℕ → Type 0
WireWidth key_size w = (key_size ≡ pos w) × ((w ≡ 1) ⊎ (w ≡ 2) ⊎ (w ≡ 4) ⊎ (w ≡ 8))

key_width-WireWidth : (key_size : ℤ) (w : ℕ) → key_width key_size ≡ some w → WireWidth key_size w
key_width-WireWidth key_size w e = ground arith

WireWidth-key_width : (key_size : ℤ) (w : ℕ) → WireWidth key_size w → key_width key_size ≡ some w
WireWidth-key_width key_size w (is, inl one) = rw (is, one) refl
WireWidth-key_width key_size w (is, inr (inl two)) = rw (is, two) refl
WireWidth-key_width key_size w (is, inr (inr (inl four))) = rw (is, four) refl
WireWidth-key_width key_size w (is, inr (inr (inr eight))) = rw (is, eight) refl

rows_of_width : (key_size : ℤ) (w rows : ℕ) → key_width key_size ≡ some w → rows * w / w ≡ rows
rows_of_width key_size w rows e = elim (key_width-WireWidth key_size w e).1 [
  | inl one ↦ rw one (omega arith)
  | inr (inl two) ↦ rw two (omega arith)
  | inr (inr (inl four)) ↦ rw four (omega arith)
  | inr (inr (inr eight)) ↦ rw eight (omega arith)
]

module _ (t : Target) (keys : Bytes) (key_size : ℤ) (rows dict_n : ℕ)
    (small : length keys ≤ t.usize_max) where
  -- Behind the `match`, at the width that it took.
  keys_of_width_iff :
      (w : ℕ)
      → key_width key_size ≡ some w
      → (keys_of_width t keys key_size rows dict_n (some w) ≡ ok tt)
        ↔ ((length keys ≡ rows * w) × ((i : ℕ) → i < rows → key_at t w keys i < dict_n))
  keys_of_width_iff w e = (accepted, accepts)
    where
      named : Message
      named = str "LowCardinality keys" ∷ []

      counted : length keys ≡ rows * w → chunks_exact w keys ≡ chunks rows w keys
      counted fits =
          ap (λ n. chunks n w keys) (ap (λ n. n / w) fits ∙ rows_of_width key_size w rows e)

      accepted :
          keys_of_width t keys key_size rows dict_n (some w) ≡ ok tt
          → (length keys ≡ rows * w) × ((i : ℕ) → i < rows → key_at t w keys i < dict_n)
      accepted h =
          let (expected, sized, more) = >>=-eq-ok (checked_len t rows w named) _ h in
          let (u, same, looped) = >>=-eq-ok (require_len named (length keys) expected) _ more in
          let fits : length keys ≡ rows * w =
            (require_len_iff named (length keys) expected).0 same
            ∙ ((checked_len_iff t rows w named expected).0 sized).1 in
          (
            fits,
            key_at-chunks t dict_n w rows keys (
                rw (counted fits) at
                  ((keys_from-AllKeys t 0 dict_n (chunks_exact w keys)).0 looped)),
          )

      accepts :
          (length keys ≡ rows * w) × ((i : ℕ) → i < rows → key_at t w keys i < dict_n)
          → keys_of_width t keys key_size rows dict_n (some w) ≡ ok tt
      accepts (fits, all) = rw ((checked_len_iff t rows w named (rows * w)).1 (omega arith, refl)) (
          rw ((require_len_iff named (length keys) (rows * w)).1 fits) (
            (keys_from-AllKeys t 0 dict_n (chunks_exact w keys)).1
              (rw (counted fits) (chunks-key_at t dict_n w rows keys all))))

-- With keys no longer than `usize` can count, they are accepted exactly when the key size is 1, 2, 4
-- or 8, there is one key of that width for each row, and every row's key, read in the
-- target's byte order, is a place in the dictionary.
pub validate_low_cardinality_keys_iff :
    (t : Target) (keys : Bytes) (key_size : ℤ) (rows dict_n : ℕ)
    → length keys ≤ t.usize_max
    → (validate_low_cardinality_keys t keys key_size rows dict_n ≡ ok tt) ↔ (
        (w : ℕ) × WireWidth key_size w
        × (length keys ≡ rows * w)
        × ((i : ℕ) → i < rows → key_at t w keys i < dict_n))
unfolding validate_low_cardinality_keys
validate_low_cardinality_keys_iff t keys key_size rows dict_n small = (accepted, accepts)
  where
    accepted :
        validate_low_cardinality_keys t keys key_size rows dict_n ≡ ok tt
        → (w : ℕ) × WireWidth key_size w
          × (length keys ≡ rows * w)
          × ((i : ℕ) → i < rows → key_at t w keys i < dict_n)
    accepted h = elim (Option-cases (key_width key_size)) [
      | inl bad ↦ cc (ap (keys_of_width t keys key_size rows dict_n) bad)
      | inr (w, e) ↦
          let (fits, all) =
            (keys_of_width_iff t keys key_size rows dict_n small w e).0
              (sym (ap (keys_of_width t keys key_size rows dict_n) e) ∙ h) in
          (w, key_width-WireWidth key_size w e, fits, all)
    ]

    accepts :
        ((w : ℕ) × WireWidth key_size w
          × (length keys ≡ rows * w)
          × ((i : ℕ) → i < rows → key_at t w keys i < dict_n))
        → validate_low_cardinality_keys t keys key_size rows dict_n ≡ ok tt
    accepts (w, wide, fits, all) =
        let e = WireWidth-key_width key_size w wide in
        ap (keys_of_width t keys key_size rows dict_n) e
        ∙ (keys_of_width_iff t keys key_size rows dict_n small w e).1 (fits, all)
