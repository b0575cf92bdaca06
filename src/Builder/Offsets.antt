-- ===== src/Builder/Offsets.antt =====
-- Offsets are accepted exactly where they rise, and the first fall is reported.
use clickhouse_c_rs.Base.{
  ℕ, suc, ◌+◌, ◌≤◌, ◌<◌, ◌≡◌, ◌↔◌, refl, ap, sym, List, [], ◌∷◌, ◌++◌, length, arith, ltb, lt→ltb,
  false,
}
use native.Mathlib.Nat.{add-zero, zero-add}
use clickhouse_c_rs.Error.{>>=-eq-ok, Message, str, num, ok}
use clickhouse_c_rs.Builder.{
  Target, usage_error, require_len, require_covers, offsets_from, to_usize, validate_offsets,
  validate_string,
}

-- Each offset is no less than the one before it; `previous` stands before the first.
abbrev pub Rising : ℕ → List ℕ → Type 0
Rising previous [] = Unit {0}
Rising previous (end ∷ offsets) = (previous ≤ end) × Rising end offsets

-- The last offset, or `previous` where there is none.
abbrev pub last_or : ℕ → List ℕ → ℕ
last_or previous [] = previous
last_or previous (end ∷ offsets) = last_or end offsets

offsets_from-Rising :
    (label : Message) (row previous : ℕ) (offsets : List ℕ)
    → Rising previous offsets
    → offsets_from label row previous offsets ≡ ok (last_or previous offsets)
unfolding offsets_from
offsets_from-Rising label row previous [] up = refl
offsets_from-Rising label row previous (end ∷ offsets) up =
    ground (arith, offsets_from-Rising label (row + 1) end offsets up.1)

Rising-offsets_from :
    (label : Message) (row previous : ℕ) (offsets : List ℕ) (r : ℕ)
    → offsets_from label row previous offsets ≡ ok r
    → Rising previous offsets
unfolding offsets_from
Rising-offsets_from label row previous [] r e = tt
Rising-offsets_from label row previous (end ∷ offsets) r e =
    ground (arith, Rising-offsets_from label (row + 1) end offsets r)

pub require_len_iff :
    (label : Message) (actual expected : ℕ)
    → (require_len label actual expected ≡ ok tt) ↔ (actual ≡ expected)
unfolding require_len
require_len_iff label actual expected = (λ e. ground arith, λ e. ground arith)

pub require_covers_iff :
    (label : Message) (actual needed : ℕ)
    → (require_covers label actual needed ≡ ok tt) ↔ (needed ≤ actual)
unfolding require_covers
require_covers_iff label actual needed = (λ e. ground arith, λ e. ground arith)

-- Offsets are accepted exactly when there is one for each row and they never fall; what comes back is
-- the last of them, or zero for no rows, cut to what `usize` holds.
pub validate_offsets_iff :
    (t : Target) (offsets : List ℕ) (rows : ℕ) (label : Message) (n : ℕ)
    → (validate_offsets t offsets rows label ≡ ok n)
      ↔ ((length offsets ≡ rows) × Rising 0 offsets × (n ≡ to_usize t (last_or 0 offsets)))
unfolding validate_offsets
validate_offsets_iff t offsets rows label n = (accepted, accepts)
  where
    named : Message
    named = label ++ str " offsets" ∷ []

    accepted :
        validate_offsets t offsets rows label ≡ ok n
        → (length offsets ≡ rows) × Rising 0 offsets × (n ≡ to_usize t (last_or 0 offsets))
    accepted e =
        let (u, fits, more) = >>=-eq-ok (require_len named (length offsets) rows) _ e in
        let (last, looped, done) = >>=-eq-ok (offsets_from label 0 0 offsets) _ more in
        let up = Rising-offsets_from label 0 0 offsets last looped in
        (
          (require_len_iff named (length offsets) rows).0 fits,
          up,
          let same : last ≡ last_or 0 offsets =
                cc (looped, offsets_from-Rising label 0 0 offsets up) in
              rw (← same) (cc done),
        )

    accepts :
        (length offsets ≡ rows) × Rising 0 offsets × (n ≡ to_usize t (last_or 0 offsets))
        → validate_offsets t offsets rows label ≡ ok n
    accepts (fits, up, same) =
        rw ((require_len_iff named (length offsets) rows).1 fits)
          (rw (offsets_from-Rising label 0 0 offsets up) (ap ok (sym same)))

offsets_from_fall :
    (label : Message) (row previous : ℕ) (before : List ℕ) (end : ℕ) (after : List ℕ)
    → Rising previous before
    → end < last_or previous before
    → offsets_from label row previous (before ++ end ∷ after)
      ≡ usage_error (
          label
          ++ str " offsets not monotonic at row "
            ∷ num (row + length before)
            ∷ str ": "
            ∷ num end
            ∷ str " < "
            ∷ num (last_or previous before)
            ∷ [])
unfolding offsets_from
offsets_from_fall label row previous [] end after up falls = rw (lt→ltb _ _ falls) (rw add-zero)
offsets_from_fall label row previous (b ∷ before) end after up falls =
    let keeps : ltb b previous ≡ false = ground arith in
    rw keeps (
      rw (offsets_from_fall label (row + 1) b before end after up.1 falls) (
        ap
          (λ k. usage_error (
            label
            ++ str " offsets not monotonic at row "
              ∷ num k
              ∷ str ": "
              ∷ num end
              ∷ str " < "
              ∷ num (last_or b before)
              ∷ []))
          {x = row + 1 + length before} {y = row + suc (length before)} (omega arith)))

-- Where offsets first fall, behind a rising part, the error names that row, the offset and the one
-- before it.
pub validate_offsets_fall :
    (t : Target) (label : Message) (before : List ℕ) (end : ℕ) (after : List ℕ)
    → Rising 0 before
    → end < last_or 0 before
    → validate_offsets t (before ++ end ∷ after) (length (before ++ end ∷ after)) label
      ≡ usage_error (
          label
          ++ str " offsets not monotonic at row "
            ∷ num (length before)
            ∷ str ": "
            ∷ num end
            ∷ str " < "
            ∷ num (last_or 0 before)
            ∷ [])
unfolding validate_offsets
validate_offsets_fall t label before end after up falls =
    rw ((require_len_iff (label ++ str " offsets" ∷ []) (length (before ++ end ∷ after)) _).1 refl)
      (rw (offsets_from_fall label 0 0 before end after up falls) (rw zero-add))

-- With data shorter than `usize` can count, string columns are accepted exactly when there is an
-- offset for each row, the offsets never fall, and the last one lies within the data.
pub validate_string_iff :
    (t : Target) (offsets : List ℕ) (data_len rows : ℕ) (label : Message)
    → data_len < t.usize_max
    → (validate_string t offsets data_len rows label ≡ ok tt)
      ↔ ((length offsets ≡ rows) × Rising 0 offsets × (last_or 0 offsets ≤ data_len))
unfolding validate_string
validate_string_iff t offsets data_len rows label small = (accepted, accepts)
  where
    last : ℕ
    last = last_or 0 offsets

    covers :
        (needed : ℕ)
        → (require_covers (label ++ str " data" ∷ []) data_len needed ≡ ok tt) ↔ (needed ≤ data_len)
    covers = require_covers_iff (label ++ str " data" ∷ []) data_len

    accepted :
        validate_string t offsets data_len rows label ≡ ok tt
        → (length offsets ≡ rows) × Rising 0 offsets × (last ≤ data_len)
    accepted e =
        let (n, valid, covered) = >>=-eq-ok (validate_offsets t offsets rows label) _ e in
        let (fits, up, same) = (validate_offsets_iff t offsets rows label n).0 valid in
        let enough = (covers n).0 covered in (fits, up, ground arith)

    accepts :
        (length offsets ≡ rows) × Rising 0 offsets × (last ≤ data_len)
        → validate_string t offsets data_len rows label ≡ ok tt
    accepts (fits, up, enough) =
        rw ((validate_offsets_iff t offsets rows label (to_usize t last)).1 (fits, up, refl))
          ((covers (to_usize t last)).1 (ground arith))
