-- ===== src/Builder/Fixed.antt =====
-- Fixed, nullable and array columns are accepted exactly where the data covers the rows.
use clickhouse_c_rs.Base.{
  ℕ, ◌*◌, ◌≤◌, ◌<◌, ◌≡◌, ◌↔◌, refl, ap, sym, inl, inr, List, [], ◌∷◌, length, Bytes, arith, ◌==◌,
  Bool-cases, false,
}
use clickhouse_c_rs.Error.{>>=-eq-ok, Message, str, ok}
use clickhouse_c_rs.Builder.{
  Target, Column, n_rows, Nodes, checked_len, require_covers, require_len, to_usize,
  validate_offsets, validate_string,
}
use clickhouse_c_rs.Builder.Build.{fixed, string, nullable, array}
use clickhouse_c_rs.Builder.Keys.{checked_len_iff}
use clickhouse_c_rs.Builder.Offsets.{
  Rising, last_or, require_covers_iff, require_len_iff, validate_offsets_iff, validate_string_iff,
}

module _ (t : Target) (c : Nodes) where
  -- With data no longer than `usize` can count, a fixed column is built exactly where elements are not
  -- empty and the data covers all rows; a row count whose length overflows is never accepted.
  pub fixed_iff :
      (data_bytes : Bytes) (elem_size rows : ℕ) (col : Column)
      → length data_bytes ≤ t.usize_max
      → (fixed t c data_bytes elem_size rows ≡ ok col) ↔ (
          (0 < elem_size)
          × (rows * elem_size ≤ length data_bytes)
          × (col ≡ c.chc_build_fixed data_bytes elem_size rows))
  unfolding fixed
  fixed_iff data_bytes elem_size rows col small = (built, builds)
    where
      named : Message
      named = str "fixed data" ∷ []

      built :
          fixed t c data_bytes elem_size rows ≡ ok col
          → (0 < elem_size)
            × (rows * elem_size ≤ length data_bytes)
            × (col ≡ c.chc_build_fixed data_bytes elem_size rows)
      built e = elim (Bool-cases (elem_size == 0)) [
        | inl empty ↦ cc (rw empty at e)
        | inr wide ↦
            let (needed, sized, more) =
              >>=-eq-ok (checked_len t rows elem_size named) _ (rw wide at e) in
            let (u, covered, done) =
              >>=-eq-ok (require_covers named (length data_bytes) needed) _ more in
            let is = ((checked_len_iff t rows elem_size named needed).0 sized).1 in
            let enough = (require_covers_iff named (length data_bytes) needed).0 covered in
            (ground arith, rw (← is) enough, cc done)
      ]

      builds :
          (0 < elem_size)
            × (rows * elem_size ≤ length data_bytes)
            × (col ≡ c.chc_build_fixed data_bytes elem_size rows)
          → fixed t c data_bytes elem_size rows ≡ ok col
      builds (wide, enough, is) =
          let nonzero : (elem_size == 0) ≡ false = ground arith in
          rw nonzero (
            rw ((checked_len_iff t rows elem_size named (rows * elem_size)).1 (omega arith, refl)) (
              rw ((require_covers_iff named (length data_bytes) (rows * elem_size)).1 enough)
                (ap ok (sym is))))

  -- With element columns shorter than `usize` can count, an array is built exactly where there is an
  -- offset for each row, the offsets never fall, and the last is the element column's row count.
  pub array_iff :
      (values : Column) (offsets : List ℕ) (rows : ℕ) (col : Column)
      → n_rows values < t.usize_max
      → (array t c values offsets rows ≡ ok col) ↔ (
          (length offsets ≡ rows)
          × Rising 0 offsets
          × (last_or 0 offsets ≡ n_rows values)
          × (col ≡ c.chc_build_array offsets rows values))
  unfolding array
  array_iff values offsets rows col small = (built, builds)
    where
      named : Message
      named = str "array values" ∷ []

      label : Message
      label = str "array" ∷ []

      built :
          array t c values offsets rows ≡ ok col
          → (length offsets ≡ rows)
            × Rising 0 offsets
            × (last_or 0 offsets ≡ n_rows values)
            × (col ≡ c.chc_build_array offsets rows values)
      built e =
          let (n, valid, more) = >>=-eq-ok (validate_offsets t offsets rows label) _ e in
          let (u, same, done) = >>=-eq-ok (require_len named (n_rows values) n) _ more in
          let (fits, up, cut) = (validate_offsets_iff t offsets rows label n).0 valid in
          let is = (require_len_iff named (n_rows values) n).0 same in
          (fits, up, ground arith, cc done)

      builds :
          (length offsets ≡ rows)
            × Rising 0 offsets
            × (last_or 0 offsets ≡ n_rows values)
            × (col ≡ c.chc_build_array offsets rows values)
          → array t c values offsets rows ≡ ok col
      builds (fits, up, last, is) =
          rw
            ((validate_offsets_iff t offsets rows label (to_usize t (last_or 0 offsets))).1
              (fits, up, refl))
            (rw
              ((require_len_iff named (n_rows values) (to_usize t (last_or 0 offsets))).1
                (ground arith))
              (ap ok (sym is)))

  -- What the other two constructors accept.
  pub string-valid :
      (offsets : List ℕ) (data_bytes : Bytes) (rows : ℕ) (col : Column)
      → length data_bytes < t.usize_max
      → string t c offsets data_bytes rows ≡ ok col
      → (length offsets ≡ rows)
        × Rising 0 offsets
        × (last_or 0 offsets ≤ length data_bytes)
        × (col ≡ c.chc_build_string offsets data_bytes rows)
  unfolding string
  string-valid offsets data_bytes rows col small e =
      let label : Message = str "string" ∷ [] in
      let (u, valid, done) =
        >>=-eq-ok (validate_string t offsets (length data_bytes) rows label) _ e in
      let (fits, up, covered) =
        (validate_string_iff t offsets (length data_bytes) rows label small).0 valid in
      (fits, up, covered, cc done)

  pub nullable-valid :
      (inner : Column) (null_map : Bytes) (col : Column)
      → nullable t c inner null_map ≡ ok col
      → (length null_map ≡ n_rows inner) × (col ≡ c.chc_build_nullable null_map inner)
  unfolding nullable
  nullable-valid inner null_map col e =
      let named : Message = str "nullable null map" ∷ [] in
      let (u, same, done) = >>=-eq-ok (require_len named (length null_map) (n_rows inner)) _ e in
      ((require_len_iff named (length null_map) (n_rows inner)).0 same, cc done)
