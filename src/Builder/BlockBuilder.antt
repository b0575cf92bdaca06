-- ===== src/Builder/BlockBuilder.antt =====
-- src/builder.rs: `BlockBuilder`.
pub mod Appends
use clickhouse_c_rs.Base.{
  ℕ, zero, suc, ◌+◌, List, [], ◌∷◌, ◌++◌, Bytes, Option, none, some, length, ◌==◌, not, Bool, true,
  false, if◌then◌else◌,
}
use clickhouse_c_rs.Sys
use clickhouse_c_rs.Error.{Error, str, num, Result, ok, err, new, usage, check}
use clickhouse_c_rs.Block.Decoded.{BlockOpts}
use clickhouse_c_rs.Ioless.{Returned}
use clickhouse_c_rs.Builder.{Column, n_rows, usage_error}

-- `sys::chc_block_col`: the name with its length, and pointers to the type and the column.
pub record BlockCol (Type_ : Type 0) : Type 0 where
  pub name : Bytes
  pub name_len : ℕ
  pub ty : Type_
  pub col : Column

-- The fields of `sys::chc_block_builder`; `cols` is the pointer into the vector, the vector's value here.
pub record RawBlock (Type_ : Type 0) : Type 0 where
  pub cols : List (BlockCol Type_)
  pub n_cols : ℕ
  pub n_rows : ℕ

pub record BlockBuilder (Type_ : Type 0) : Type 0 where
  pub cols : List (BlockCol Type_)
  pub raw : RawBlock Type_
  pub rows : Option ℕ

-- The guard of the `match`: whether rows are set, and set to another number.
abbrev pub mismatch : Option ℕ → ℕ → Bool
mismatch none n = false
mismatch (some prev) n = not (prev == n)

abbrev pub rows_or_zero : Option ℕ → ℕ
rows_or_zero none = 0
rows_or_zero (some prev) = prev

module _ {T : Type 0} where
  abbrev pub empty : BlockBuilder T
  empty = record { cols = []; raw = record { cols = []; n_cols = 0; n_rows = 0 }; rows = none }

  -- The state after `push`, and its result.
  unfoldable pub push : BlockBuilder T → Bytes → T → Column → ℕ → BlockBuilder T × Result (Unit {0})
  push b name ty col n =
      if mismatch b.rows n
      then (
        b,
        usage_error (
            str "block_builder: row count mismatch ("
            ∷ num (rows_or_zero b.rows)
            ∷ str " vs "
            ∷ num n
            ∷ str ")"
            ∷ []),
      )
      else (let cols =
            b.cols ++ record { name = name; name_len = length name; ty = ty; col = col } ∷ [] in
          (
            record {
              cols = cols;
              raw = record { cols = cols; n_cols = length cols; n_rows = n };
              rows = some n;
            },
            ok tt,
          ))

  -- A builder's column.
  unfoldable pub append : BlockBuilder T → Bytes → T → Column → BlockBuilder T × Result (Unit {0})
  append b name ty col = push b name ty col (n_rows col)

  -- A decoded column's raw pointer is a column of the same C type.
  unfoldable pub append_column :
      BlockBuilder T → Bytes → T → Column → BlockBuilder T × Result (Unit {0})
  append_column b name ty col = push b name ty col (n_rows col)

  -- `write`, over `chc_block_write` on a transport's state: its return code and message array.
  unfoldable pub write :
      {S : Type 0}
      → Sys.Header
      → (S → RawBlock T → BlockOpts → Returned S)
      → BlockBuilder T
      → S
      → BlockOpts
      → S × Result (Unit {0})
  write h chc_block_write b io opts =
      let r = chc_block_write io b.raw opts in (r.state, check h r.rc r.msg)
