-- ===== src/Builder/Build.antt =====
-- src/builder.rs: the constructors of `ColumnBuilder`.
use clickhouse_c_rs.Base.{
  ℕ, ◌+◌, List, [], ◌∷◌, Bytes, Option, some, length, set, ◌==◌, if◌then◌else◌,
}
use clickhouse_c_rs.Base.Int.{ℤ}
use clickhouse_c_rs.Error.{str, num, Result, ok, ◌>>=◌, ◌>>◌}
use clickhouse_c_rs.Builder.{
  Target, Column, n_rows, Nodes, usage_error, checked_len, require_len, require_covers,
  validate_offsets, validate_string, validate_low_cardinality_keys,
}

module _ (t : Target) (c : Nodes) where
  unfoldable pub fixed : Bytes → ℕ → ℕ → Result Column
  fixed data_bytes elem_size rows =
      if elem_size == 0
      then usage_error (str "fixed column: elem_size must be nonzero" ∷ [])
      else do
        needed ← checked_len t rows elem_size (str "fixed data" ∷ [])
        require_covers (str "fixed data" ∷ []) (length data_bytes) needed
        ok (c.chc_build_fixed data_bytes elem_size rows)

  unfoldable pub string : List ℕ → Bytes → ℕ → Result Column
  string offsets data_bytes rows = do
    validate_string t offsets (length data_bytes) rows (str "string" ∷ [])
    ok (c.chc_build_string offsets data_bytes rows)

  unfoldable pub nullable : Column → Bytes → Result Column
  nullable inner null_map = do
    require_len (str "nullable null map" ∷ []) (length null_map) (n_rows inner)
    ok (c.chc_build_nullable null_map inner)

  unfoldable pub array : Column → List ℕ → ℕ → Result Column
  array values offsets rows = do
    inner_n ← validate_offsets t offsets rows (str "array" ∷ [])
    require_len (str "array values" ∷ []) (n_rows values) inner_n
    ok (c.chc_build_array offsets rows values)

  unfoldable pub low_cardinality : Column → ℤ → Bytes → ℕ → Result Column
  low_cardinality dict key_size keys rows = do
    validate_low_cardinality_keys t keys key_size rows (n_rows dict)
    ok (c.chc_build_lc key_size keys rows dict)

  -- The loop over the children from place `i` on: each has `rows` rows, and its pointer is stored.
  unfoldable pub tuple_from :
      ℕ → ℕ → List Column → List (Option Column) → Result (List (Option Column))
  tuple_from i rows [] ptrs = ok ptrs
  tuple_from i rows (child ∷ children) ptrs =
      let rest = tuple_from (i + 1) rows children (set ptrs i (some child)) in
      if n_rows child == rows
      then rest
      else usage_error (
          str "tuple child "
          ∷ num i
          ∷ str " row count mismatch: "
          ∷ num (n_rows child)
          ∷ str " vs "
          ∷ num rows
          ∷ [])

  -- `ptrs` is the caller's scratch array of pointers.
  unfoldable pub tuple : List Column → List (Option Column) → Result Column
  tuple [] ptrs = usage_error (str "tuple column: needs at least one child" ∷ [])
  tuple (first ∷ others) ptrs =
      if length ptrs == length (first ∷ others)
      then (do
        filled ← tuple_from 0 (n_rows first) (first ∷ others) ptrs
        ok (c.chc_build_tuple filled))
      else usage_error (
          str "tuple ptr scratch length mismatch: "
          ∷ num (length ptrs)
          ∷ str " vs "
          ∷ num (length (first ∷ others))
          ∷ str " children"
          ∷ [])
