-- ===== src/Block/Column.antt =====
-- src/block.rs: the views of a `Column`, in a build without debug assertions. A slice that C published
-- is null or memory, of which a view borrows the front.
pub mod Views
use clickhouse_c_rs.Base.{
  ℕ, zero, suc, ◌*◌, ◌%◌, ◌+◌, List, [], ◌∷◌, Bytes, Option, none, some, take, min, leb, ◌==◌,
  if◌then◌else◌,
}
use clickhouse_c_rs.Base.Int.{ℤ, pos, negsuc}
use clickhouse_c_rs.Sys
use clickhouse_c_rs.Error.{Result, check}
use clickhouse_c_rs.Block.ColumnLayout
use clickhouse_c_rs.Block.ColumnLayout.{ColumnLayout}
use clickhouse_c_rs.Builder.{Target}
use clickhouse_c_rs.Builder.Offsets.{last_or}

-- What the C accessors return for a column, over the pointers to other columns, and the `bytes` that
-- the string payload records. Only the accessors of the column's own layout mean something.
pub record RawColumn (P : Type 0) : Type 0 where
  pub layout : ℤ
  pub n_rows : ℕ
  pub elem_size : ℕ
  pub fixed_data : Option Bytes
  pub string_offsets : Option (List ℕ)
  pub string_data : Option Bytes
  pub str_bytes : ℕ
  pub null_map : Option Bytes
  pub nullable_inner : Option P
  pub array_offsets : Option (List ℕ)
  pub array_values : Option P
  pub tuple_arity : ℕ
  pub tuple_child : ℕ → Option P
  pub lc_key_size : ℤ
  pub lc_keys : Option Bytes
  pub lc_dict : Option P
  pub validate : ℤ × Bytes

-- `LowCardinalityView`.
pub record LowCardinalityView (P : Type 0) : Type 0 where
  pub key_size : ℕ
  pub keys : Bytes
  pub dict : P

abbrev pub slice_or_none : {A : Type 0} → Option (List A) → ℕ → Option (List A)
slice_or_none none len = none
slice_or_none (some memory) len = some (take len memory)

-- The operator `?` on an Option.
abbrev pub try_some : {A C : Type 0} → Option A → (A → Option C) → Option C
try_some none f = none
try_some (some a) f = f a

abbrev pub checked_mul : Target → ℕ → ℕ → Option ℕ
checked_mul t a b = if leb (a * b) t.usize_max then some (a * b) else none

-- `as usize`.
abbrev pub wrapped : Target → ℕ → ℕ
wrapped t n = n % (t.usize_max + 1)

-- `usize::try_from(key_size).ok().filter(|&k| k > 0)`.
abbrev pub positive : ℤ → Option ℕ
positive (pos zero) = none
positive (pos (suc n)) = some (suc n)
positive (negsuc n) = none

-- `let Some(ColumnLayout::…) = self.layout() else { return None; }`, for each layout.
module _ {A : Type 0} where
  abbrev pub if_fixed : Option ColumnLayout → Option A → Option A
  if_fixed (some ColumnLayout.fixed) view = view
  if_fixed _ view = none

  abbrev pub if_string : Option ColumnLayout → Option A → Option A
  if_string (some ColumnLayout.string) view = view
  if_string _ view = none

  abbrev pub if_nullable : Option ColumnLayout → Option A → Option A
  if_nullable (some ColumnLayout.nullable) view = view
  if_nullable _ view = none

  abbrev pub if_array : Option ColumnLayout → Option A → Option A
  if_array (some ColumnLayout.array) view = view
  if_array _ view = none

  abbrev pub if_low_cardinality : Option ColumnLayout → Option A → Option A
  if_low_cardinality (some ColumnLayout.low_cardinality) view = view
  if_low_cardinality _ view = none

-- Rows of empty strings leave no memory to borrow.
abbrev pub data_of : Option Bytes → ℕ → Option Bytes
data_of p data_len = if data_len == 0 then some [] else slice_or_none p data_len

module _ (h : Sys.Header) (t : Target) {P : Type 0} where
  abbrev pub layout : RawColumn P → Option ColumnLayout
  layout c = ColumnLayout.from_raw h c.layout

  unfoldable pub validate : RawColumn P → Result (Unit {0})
  validate c = let (rc, msg) = c.validate in check h rc msg

  unfoldable pub fixed : RawColumn P → Option (ℕ × Bytes)
  fixed c = if_fixed (layout c) (
      try_some (checked_mul t c.n_rows c.elem_size)
        (λ n. try_some (slice_or_none c.fixed_data n) (λ bytes. some (c.elem_size, bytes))))

  unfoldable pub string : RawColumn P → Option (List ℕ × Bytes)
  string c = if_string (layout c) (
      try_some (slice_or_none c.string_offsets c.n_rows) (λ offsets.
        try_some (data_of c.string_data (min (wrapped t (last_or 0 offsets)) c.str_bytes))
          (λ data_bytes. some (offsets, data_bytes))))

  unfoldable pub null_map : RawColumn P → Option Bytes
  null_map c = if_nullable (layout c) (slice_or_none c.null_map c.n_rows)

  unfoldable pub array_offsets : RawColumn P → Option (List ℕ)
  array_offsets c = if_array (layout c) (slice_or_none c.array_offsets c.n_rows)

  abbrev pub nullable_inner : RawColumn P → Option P
  nullable_inner c = c.nullable_inner

  abbrev pub array_values : RawColumn P → Option P
  array_values c = c.array_values

  abbrev pub tuple_child : RawColumn P → ℕ → Option P
  tuple_child c i = c.tuple_child i

  unfoldable pub low_cardinality : RawColumn P → Option (LowCardinalityView P)
  low_cardinality c = if_low_cardinality (layout c) (
      try_some (positive c.lc_key_size) (λ key_size. try_some c.lc_dict (λ dict.
        try_some (checked_mul t c.n_rows key_size) (λ keys_len.
          try_some (slice_or_none c.lc_keys keys_len)
            (λ keys. some (record { key_size = key_size; keys = keys; dict = dict }))))))
