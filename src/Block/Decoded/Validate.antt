-- ===== src/Block/Decoded/Validate.antt =====
-- What it takes for a block to be valid.
use clickhouse_c_rs.Base.{ℕ, zero, suc, ◌+◌, ◌<◌, ◌≡◌, ◌↔◌, refl, Option, none, some, arith}
use mathlib.Core.Path.{subst}
use clickhouse_c_rs.Sys
use clickhouse_c_rs.Error.{ok, >>=-eq-ok}
use clickhouse_c_rs.Error.Codes.{check_iff}
use clickhouse_c_rs.Block.Column
use clickhouse_c_rs.Block.Column.{RawColumn}
use clickhouse_c_rs.Block.Decoded.{RawBlock, column, validate_one, validate_from, validate}
use clickhouse_c_rs.Builder.{Target}

-- C finds a column valid, or there is none.
abbrev pub Passes : {P : Type 0} → Sys.Header → Option (RawColumn P) → Type 0
Passes h none = Unit {0}
Passes h (some col) = col.validate.0 ≡ h.code Sys.chc_ok

validate_one-Passes :
    {P : Type 0} (h : Sys.Header) (t : Target) (c : Option (RawColumn P))
    → (validate_one h t c ≡ ok tt) ↔ Passes h c
unfolding Column.validate
validate_one-Passes h t none = ((λ e. tt), (λ p. refl))
validate_one-Passes h t (some col) = (check_iff h col.validate.0 col.validate.1).0

module _ (h : Sys.Header) (t : Target) {P Ty : Type 0} where
  AllPass : RawBlock P Ty → ℕ → ℕ → Type 0
  AllPass b n i = (j : ℕ) → j < n → Passes h (column b (i + j))

  Passes-shift :
      (b : RawBlock P Ty) (i n : ℕ)
      → Passes h (column b i)
      → AllPass b n (i + 1)
      → AllPass b (suc n) i
  unfolding AllPass
  Passes-shift b i n first rest zero small =
      subst (λ m. Passes h (column b m)) {x = i} {y = i + 0} (omega arith) first
  Passes-shift b i n first rest (suc j) small =
      subst (λ m. Passes h (column b m)) {x = i + 1 + j} {y = i + suc j} (omega arith)
        (rest j (omega arith))

  Passes-tail : (b : RawBlock P Ty) (i n : ℕ) → AllPass b (suc n) i → AllPass b n (i + 1)
  unfolding AllPass
  Passes-tail b i n all j small =
      subst (λ m. Passes h (column b m)) {x = i + suc j} {y = i + 1 + j} (omega arith)
        (all (suc j) (omega arith))

  Passes-head : (b : RawBlock P Ty) (i n : ℕ) → AllPass b (suc n) i → Passes h (column b i)
  unfolding AllPass
  Passes-head b i n all =
      subst (λ m. Passes h (column b m)) {x = i + 0} {y = i} (omega arith) (all 0 (omega arith))

  validate_from_iff :
      (b : RawBlock P Ty) (n i : ℕ) → (validate_from h t b n i ≡ ok tt) ↔ AllPass b n i
  unfolding validate_from AllPass
  validate_from_iff b zero i = ((λ e j small. absurd (omega arith)), (λ all. refl))
  validate_from_iff b (suc n) i = (
    (λ e.
        let (u, first, rest) =
          >>=-eq-ok (validate_one h t (column b i)) (λ u. validate_from h t b n (i + 1)) e in
        Passes-shift b i n ((validate_one-Passes h t (column b i)).0 first)
          ((validate_from_iff b n (i + 1)).0 rest)),
    (λ all.
        let first = (validate_one-Passes h t (column b i)).1 (Passes-head b i n all) in
        rw first ((validate_from_iff b n (i + 1)).1 (Passes-tail b i n all))),
  )

  -- `Block::validate` succeeds exactly if C finds every column valid that the block has.
  pub validate_iff :
      (b : RawBlock P Ty)
      → (validate h t b ≡ ok tt) ↔ ((j : ℕ) → j < b.n_columns → Passes h (column b j))
  unfolding validate AllPass
  validate_iff b = (
    (λ e j small.
        subst (λ m. Passes h (column b m)) {x = 0 + j} {y = j} (omega arith)
          ((validate_from_iff b b.n_columns 0).0 e j small)),
    (λ all. (validate_from_iff b b.n_columns 0).1 (λ j small.
        subst (λ m. Passes h (column b m)) {x = j} {y = 0 + j} (omega arith) (all j small))),
  )
