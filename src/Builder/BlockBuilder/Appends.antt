-- ===== src/Builder/BlockBuilder/Appends.antt =====
-- The invariant of `BlockBuilder`, and what a sequence of appends leaves in it.
use mathlib.Core.Path.{subst}
use clickhouse_c_rs.Base.{
  ℕ, suc, ◌≡◌, ◌≢◌, ◌↔◌, refl, ap, sym, ◌∙◌, inl, inr, List, [], ◌∷◌, ◌++◌, Bytes, none, some,
  length, true, false, arith, Bool-cases, Option-cases, append_assoc, append-nil,
}
use clickhouse_c_rs.Error.{str, num, Result, ok, err}
use clickhouse_c_rs.Builder.Tuple.{AllRows, SameRows}
use clickhouse_c_rs.Builder.{Column, n_rows, usage_error}
use clickhouse_c_rs.Builder.BlockBuilder.{
  BlockCol, BlockBuilder, empty, mismatch, rows_or_zero, push, append,
}

module _ {T : Type 0} where
  abbrev pub AllCols : ℕ → List (BlockCol T) → Type 0
  AllCols n [] = Unit {0}
  AllCols n (c ∷ cs) = (n_rows c.col ≡ n) × (c.name_len ≡ length c.name) × AllCols n cs

  -- What the C writer is handed mirrors the vector, and every column has the block's row count.
  pub record IsValid (b : BlockBuilder T) : Type 0 where
    pub cols_mirror : b.raw.cols ≡ b.cols
    pub count_mirrors : b.raw.n_cols ≡ length b.cols
    pub rows_mirror : b.raw.n_rows ≡ rows_or_zero b.rows
    pub unset : b.rows ≡ none → b.cols ≡ []
    pub same_rows : AllCols b.raw.n_rows b.cols

  AllCols-append :
      (n : ℕ) (cs : List (BlockCol T)) (c : BlockCol T)
      → AllCols n cs
      → n_rows c.col ≡ n
      → c.name_len ≡ length c.name
      → AllCols n (cs ++ c ∷ [])
  AllCols-append n [] c all rows named = (rows, named, tt)
  AllCols-append n (x ∷ cs) c all rows named =
      (all.0, all.1, AllCols-append n cs c all.2 rows named)

  pub empty-IsValid : IsValid (empty {T = T})
  empty-IsValid = record {
    cols_mirror = refl;
    count_mirrors = refl;
    rows_mirror = refl;
    unset = λ e. refl;
    same_rows = tt;
  }

  -- The old columns have the new column's row count, wherever the guard lets it in.
  old_rows : (b : BlockBuilder T) (n : ℕ) → IsValid b → mismatch b.rows n ≡ false → AllCols n b.cols
  old_rows b n v fits = elim (Option-cases b.rows) [
    | inl e ↦ rw (v.unset e) tt
    | inr (prev, e) ↦
        let same : prev ≡ n = ground arith in
        let rows : b.raw.n_rows ≡ n = v.rows_mirror ∙ rw e same in rw rows at v.same_rows
  ]

  -- An append keeps the builder valid whether it succeeds or fails.
  pub append-IsValid :
      (b : BlockBuilder T) (name : Bytes) (ty : T) (col : Column)
      → IsValid b
      → IsValid (append b name ty col).0
  unfolding append push
  append-IsValid b name ty col v = elim (Bool-cases (mismatch b.rows (n_rows col))) [
    | inl differs ↦ rw differs v
    | inr fits ↦ rw fits (record {
      cols_mirror = refl;
      count_mirrors = refl;
      rows_mirror = refl;
      unset = λ e. cc;
      same_rows = AllCols-append (n_rows col) b.cols _ (old_rows b (n_rows col) v fits) refl refl;
    })
  ]

  abbrev pub block_col : Bytes → T → Column → BlockCol T
  block_col name ty col = record { name = name; name_len = length name; ty = ty; col = col }

  -- The builder with one more column.
  abbrev pub added : BlockBuilder T → Bytes → T → Column → BlockBuilder T
  added b name ty col =
      let cols = b.cols ++ block_col name ty col ∷ [] in
      record {
        cols = cols;
        raw = record { cols = cols; n_cols = length cols; n_rows = n_rows col };
        rows = some (n_rows col);
      }

  append_accepts :
      (b : BlockBuilder T) (name : Bytes) (ty : T) (col : Column)
      → mismatch b.rows (n_rows col) ≡ false
      → append b name ty col ≡ (added b name ty col, ok tt)
  unfolding append push
  append_accepts b name ty col fits = rw fits

  append_refuses :
      (b : BlockBuilder T) (name : Bytes) (ty : T) (col : Column)
      → mismatch b.rows (n_rows col) ≡ true
      → append b name ty col ≡ (
        b,
        usage_error (
            str "block_builder: row count mismatch ("
            ∷ num (rows_or_zero b.rows)
            ∷ str " vs "
            ∷ num (n_rows col)
            ∷ str ")"
            ∷ []),
      )
  unfolding append push
  append_refuses b name ty col differs = rw differs

  -- A column whose row count differs from that of the columns before it is refused: the builder stays
  -- as it was, and the error names both counts.
  pub append_other_rows :
      (b : BlockBuilder T) (name : Bytes) (ty : T) (col : Column) (prev : ℕ)
      → b.rows ≡ some prev
      → prev ≢ n_rows col
      → append b name ty col ≡ (
        b,
        usage_error (
            str "block_builder: row count mismatch ("
            ∷ num prev
            ∷ str " vs "
            ∷ num (n_rows col)
            ∷ str ")"
            ∷ []),
      )
  append_other_rows b name ty col prev set ne =
      let differs : mismatch b.rows (n_rows col) ≡ true = ground arith in
      append_refuses b name ty col differs
      ∙ ap
          (λ k. (
            b,
            usage_error (
                str "block_builder: row count mismatch ("
                ∷ num (rows_or_zero k)
                ∷ str " vs "
                ∷ num (n_rows col)
                ∷ str ")"
                ∷ []),
          ))
          set

  -- A caller that appends columns one after another, and stops at the first error.
  abbrev or_stop :
      BlockBuilder T × Result (Unit {0})
      → BlockBuilder T × Result (Unit {0})
      → BlockBuilder T × Result (Unit {0})
  or_stop (b, ok u) rest = rest
  or_stop (b, err e) rest = (b, err e)

  pub append_all : BlockBuilder T → List (Bytes × T × Column) → BlockBuilder T × Result (Unit {0})
  append_all b [] = (b, ok tt)
  append_all b ((name, ty, col) ∷ items) =
      or_stop (append b name ty col) (append_all (append b name ty col).0 items)

  abbrev pub columns : List (Bytes × T × Column) → List Column
  columns [] = []
  columns ((name, ty, col) ∷ items) = col ∷ columns items

  abbrev pub block_cols : List (Bytes × T × Column) → List (BlockCol T)
  block_cols [] = []
  block_cols ((name, ty, col) ∷ items) = block_col name ty col ∷ block_cols items

  append_all-accepts :
      (b : BlockBuilder T) (name : Bytes) (ty : T) (col : Column)
      (items : List (Bytes × T × Column))
      → mismatch b.rows (n_rows col) ≡ false
      → append_all b ((name, ty, col) ∷ items) ≡ append_all (added b name ty col) items
  unfolding append_all
  append_all-accepts b name ty col items fits =
      ap (λ r. or_stop r (append_all r.0 items)) (append_accepts b name ty col fits)

  append_all-refuses :
      (b : BlockBuilder T) (name : Bytes) (ty : T) (col : Column)
      (items : List (Bytes × T × Column))
      → mismatch b.rows (n_rows col) ≡ true
      → (append_all b ((name, ty, col) ∷ items)).1 ≢ ok tt
  unfolding append_all
  append_all-refuses b name ty col items differs e =
      cc (ap (λ r. (or_stop r (append_all r.0 items)).1) (append_refuses b name ty col differs))

  append_all-AllRows :
      (items : List (Bytes × T × Column)) (b : BlockBuilder T) (n : ℕ)
      → b.rows ≡ some n
      → ((append_all b items).1 ≡ ok tt) ↔ AllRows n (columns items)
  append_all-AllRows [] b n set = unfold append_all in ((λ e. tt), (λ e. refl))
  append_all-AllRows ((name, ty, col) ∷ items) b n set =
      let later = append_all-AllRows items (added b name ty col) (n_rows col) refl in
      elim (Bool-cases (mismatch b.rows (n_rows col))) [
        | inl differs ↦ (
          (λ e. absurd (append_all-refuses b name ty col items differs e)),
          (λ h. absurd (agree_not n set differs h.0)),
        )
        | inr fits ↦
            let same : n_rows col ≡ n = ground arith in
            rw (append_all-accepts b name ty col items fits) (
              (λ e. (same, subst (λ k. AllRows k (columns items)) same (later.0 e))),
              (λ h. later.1 (subst (λ k. AllRows k (columns items)) (sym same) h.1)),
            )
      ]
    where
      agree_not : (k : ℕ) → b.rows ≡ some k → mismatch b.rows (n_rows col) ≡ true → n_rows col ≢ k
      agree_not k is differs same = ground arith

  append_all-cols :
      (items : List (Bytes × T × Column)) (b : BlockBuilder T)
      → (append_all b items).1 ≡ ok tt
      → (append_all b items).0.cols ≡ b.cols ++ block_cols items
  append_all-cols [] b e = unfold append_all in sym (append-nil b.cols)
  append_all-cols ((name, ty, col) ∷ items) b e = elim (Bool-cases (mismatch b.rows (n_rows col))) [
    | inl differs ↦ absurd (append_all-refuses b name ty col items differs e)
    | inr fits ↦
        let step = append_all-accepts b name ty col items fits in
        rw step (
          append_all-cols items (added b name ty col) (rw step at e)
          ∙ append_assoc b.cols (block_col name ty col ∷ []) (block_cols items))
  ]

  append_all_stops :
      (b : BlockBuilder T) (name : Bytes) (ty : T) (col : Column)
      (items : List (Bytes × T × Column))
      → mismatch b.rows (n_rows col) ≡ true
      → (append_all b ((name, ty, col) ∷ items)).0 ≡ b
  unfolding append_all
  append_all_stops b name ty col items differs =
      ap (λ r. (or_stop r (append_all r.0 items)).0) (append_refuses b name ty col differs)

  append_all-IsValid :
      (items : List (Bytes × T × Column)) (b : BlockBuilder T)
      → IsValid b
      → IsValid (append_all b items).0
  append_all-IsValid [] b v = unfold append_all in v
  append_all-IsValid ((name, ty, col) ∷ items) b v =
      elim (Bool-cases (mismatch b.rows (n_rows col))) [
        | inl differs ↦ rw (append_all_stops b name ty col items differs) v
        | inr fits ↦ rw (append_all-accepts b name ty col items fits) (
            append_all-IsValid items (added b name ty col) (
              subst (λ r. IsValid r.0) (append_accepts b name ty col fits)
                (append-IsValid b name ty col v)))
      ]

  append_all-SameRows :
      (items : List (Bytes × T × Column))
      → ((append_all (empty {T = T}) items).1 ≡ ok tt) ↔ SameRows (columns items)
  append_all-SameRows [] = unfold append_all in ((λ e. tt), (λ h. refl))
  append_all-SameRows ((name, ty, col) ∷ items) =
      rw (append_all-accepts empty name ty col items refl)
        (append_all-AllRows items (added empty name ty col) (n_rows col) refl)

  length-block_cols : (items : List (Bytes × T × Column)) → length (block_cols items) ≡ length items
  length-block_cols [] = refl
  length-block_cols ((name, ty, col) ∷ items) = ap suc (length-block_cols items)

  -- From an empty block, appending columns one after another succeeds exactly where they all have the
  -- row count of the first, and exactly then does the C writer get all of them, in order, and their
  -- number, behind a success.
  pub append_all_iff :
      (items : List (Bytes × T × Column))
      → let r = append_all (empty {T = T}) items in
        (SameRows (columns items))
        ↔ ((r.1 ≡ ok tt) × (r.0.raw.cols ≡ block_cols items) × (r.0.raw.n_cols ≡ length items))
  append_all_iff items = (
    (λ same.
        let e = (append_all-SameRows items).1 same in
        let v = append_all-IsValid items empty empty-IsValid in
        let cols = append_all-cols items empty e in
        (e, v.cols_mirror ∙ cols, v.count_mirrors ∙ ap length cols ∙ length-block_cols items)),
    (λ built. (append_all-SameRows items).0 built.0),
  )
