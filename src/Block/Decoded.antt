-- ===== src/Block/Decoded.antt =====
-- src/block.rs: `BlockOpts`, `Block` and `BlockReader::read`.
pub mod Validate
use clickhouse_c_rs.Base.{ℕ, zero, suc, ◌+◌, Bool, Bytes, Option, none, some, take}
use clickhouse_c_rs.Base.Int.{ℤ}
use clickhouse_c_rs.Sys
use clickhouse_c_rs.Error.{Result, ok, err, ◌>>=◌, ◌>>◌, check}
use clickhouse_c_rs.Block.Column
use clickhouse_c_rs.Block.Column.{RawColumn, slice_or_none}
use clickhouse_c_rs.Builder.{Target}

-- `BlockOpts` and `sys::chc_block_opts` have the same fields.
pub record BlockOpts : Type 0 where
  pub has_block_info : Bool
  pub has_custom_serialization : Bool
  pub read_buffer_bytes : ℕ

-- What the C accessors return for a block, over the pointers to types and to other columns. A name is
-- a pointer, null or to memory, and a length.
pub record RawBlock (P Ty : Type 0) : Type 0 where
  pub n_rows : ℕ
  pub n_columns : ℕ
  pub column_name : ℕ → Option Bytes × ℕ
  pub column_type : ℕ → Option Ty
  pub column : ℕ → Option (RawColumn P)
  pub is_overflows : Bool
  pub bucket_num : ℤ

-- `if let Some(col) = self.column(i) { col.validate()?; }`.
abbrev pub validate_one :
    {P : Type 0} → Sys.Header → Target → Option (RawColumn P) → Result (Unit {0})
validate_one h t none = ok tt
validate_one h t (some col) = Column.validate h t col

module _ {P Ty : Type 0} where
  unfoldable pub column_name : RawBlock P Ty → ℕ → Option Bytes
  column_name b i = let (p, len) = b.column_name i in slice_or_none p len

  abbrev pub column_type : RawBlock P Ty → ℕ → Option Ty
  column_type b i = b.column_type i

  abbrev pub column : RawBlock P Ty → ℕ → Option (RawColumn P)
  column b i = b.column i

  module _ (h : Sys.Header) (t : Target) where
    -- The loop of `validate` over `n` columns from place `i` on.
    unfoldable pub validate_from : RawBlock P Ty → ℕ → ℕ → Result (Unit {0})
    validate_from b zero i = ok tt
    validate_from b (suc n) i = do validate_one h t (column b i); validate_from b n (i + 1)

    unfoldable pub validate : RawBlock P Ty → Result (Unit {0})
    validate b = validate_from b b.n_columns 0

-- The C reader: its state, and the block that `chc_block_read` leaves, null at the end of input.
pub record Reader (S B : Type 0) : Type 0 where
  pub state : S
  pub out : Option B
  pub rc : ℤ
  pub msg : Bytes

-- `BlockReader::read` behind `chc_block_read`.
unfoldable pub read : {S B : Type 0} → Sys.Header → Reader S B → S × Result (Option B)
read h r = (r.state, check h r.rc r.msg >> ok r.out)

-- The end of `BlockReader::new`; without a result, it panicked.
abbrev pub opened : {R : Type 0} → Result (Unit {0}) → Option R → Option (Result R)
opened (err e) out = some (err e)
opened (ok u) (some r) = some (ok r)
opened (ok u) none = none

-- `BlockReader::new` over `chc_rs_in_new` on a transport's state.
unfoldable pub new :
    {S R : Type 0} → Sys.Header → (S → ℕ → Reader S R) → S → BlockOpts → S × Option (Result R)
new h chc_rs_in_new io opts =
    let r = chc_rs_in_new io opts.read_buffer_bytes in (r.state, opened (check h r.rc r.msg) r.out)

-- Drop of `BlockReader`, over the C heap.
unfoldable drop_reader : {W R : Type 0} → (W → R → W) → W → R → W
drop_reader chc_rs_in_destroy w raw = chc_rs_in_destroy w raw
