-- ===== src/Builder.antt =====
-- src/builder.rs: column descriptors over borrowed data, and the checks that guard them.
pub mod Build
pub mod Keys
pub mod Offsets
pub mod Fixed
pub mod Tuple
pub mod WellFormed
pub mod BlockBuilder
use clickhouse_c_rs.Base.{
  ℕ, zero, suc, ◌+◌, ◌-◌, ◌*◌, ◌/◌, ◌≤◌, ◌<◌, Bool, true, false, not, List, [], ◌∷◌, ◌++◌, Bytes,
  Option, none, some, length, take, drop, set, get_elem?, ltb, leb, ◌==◌, if◌then◌else◌,
}
use clickhouse_c_rs.Base.Int.{ℤ, pos, ◌==ℤ◌}
use clickhouse_c_rs.Error.{Error, Message, str, num, int, Result, ok, err, ◌>>=◌, ◌>>◌, new, usage}

-- The target: the largest `usize`, and the byte order of `from_ne_bytes`.
pub record Target : Type 0 where
  pub usize_max : ℕ
  pub little_endian : Bool

-- `sys::chc_column`, with the nodes that it points to. The layout selects the payload.
mutual
  pub data Column : Type 0 where
    fixed : (n_rows elem_size : ℕ) → Bytes → Column
    string : (n_rows : ℕ) → List ℕ → Bytes → Column
    nullable : (n_rows : ℕ) → Bytes → Column → Column
    array : (n_rows : ℕ) → List ℕ → Column → Column
    tuple : (n_rows : ℕ) → Columns → Column
    low_cardinality : (n_rows : ℕ) → ℤ → Bytes → Column → Column

  pub data Columns : Type 0 where
    nil : Columns
    cons : Column → Columns → Columns

abbrev pub n_rows : Column → ℕ
n_rows (Column.fixed n e d) = n
n_rows (Column.string n o d) = n
n_rows (Column.nullable n m c) = n
n_rows (Column.array n o c) = n
n_rows (Column.tuple n cs) = n
n_rows (Column.low_cardinality n k ks d) = n

abbrev pub of_list : List Column → Columns
of_list [] = nil
of_list (c ∷ cs) = cons c (of_list cs)

-- The C functions that fill a node; a tuple's children are read through an array of pointers.
pub record Nodes : Type 0 where
  pub chc_build_fixed : Bytes → ℕ → ℕ → Column
  pub chc_build_string : List ℕ → Bytes → ℕ → Column
  pub chc_build_nullable : Bytes → Column → Column
  pub chc_build_array : List ℕ → ℕ → Column → Column
  pub chc_build_tuple : List (Option Column) → Column
  pub chc_build_lc : ℤ → Bytes → ℕ → Column → Column

abbrev pub usage_error {ℓ} : {A : Type ℓ} → Message → Result A
usage_error message = err (new usage message)

-- `count.checked_mul(width)`, with its error.
unfoldable pub checked_len : Target → ℕ → ℕ → Message → Result ℕ
checked_len t count width label =
    if leb (count * width) t.usize_max
    then ok (count * width)
    else usage_error (label ++ str " length overflow: " ∷ num count ∷ str " * " ∷ num width ∷ [])

unfoldable pub require_len : Message → ℕ → ℕ → Result (Unit {0})
require_len label actual expected =
    if actual == expected
    then ok tt
    else usage_error
        (label ++ str " length mismatch: got " ∷ num actual ∷ str ", expected " ∷ num expected ∷ [])

unfoldable pub require_covers : Message → ℕ → ℕ → Result (Unit {0})
require_covers label actual needed =
    if leb needed actual
    then ok tt
    else usage_error
        (label ++ str " too short: got " ∷ num actual ∷ str ", need at least " ∷ num needed ∷ [])

-- The loop of `validate_offsets` from row `row` on, behind the offset `previous`.
unfoldable pub offsets_from : Message → ℕ → ℕ → List ℕ → Result ℕ
offsets_from label row previous [] = ok previous
offsets_from label row previous (end ∷ offsets) =
    let rest = offsets_from label (row + 1) end offsets in
    if ltb end previous
    then usage_error (
        label
        ++ str " offsets not monotonic at row "
          ∷ num row
          ∷ str ": "
          ∷ num end
          ∷ str " < "
          ∷ num previous
          ∷ [])
    else rest

-- `usize::try_from(previous).unwrap_or(usize::MAX)`.
abbrev pub to_usize : Target → ℕ → ℕ
to_usize t n = if leb n t.usize_max then n else t.usize_max

unfoldable pub validate_offsets : Target → List ℕ → ℕ → Message → Result ℕ
validate_offsets t offsets rows label = do
  require_len (label ++ str " offsets" ∷ []) (length offsets) rows
  previous ← offsets_from label 0 0 offsets
  ok (to_usize t previous)

unfoldable pub validate_string : Target → List ℕ → ℕ → ℕ → Message → Result (Unit {0})
validate_string t offsets data_len rows label = do
  final_offset ← validate_offsets t offsets rows label
  require_covers (label ++ str " data" ∷ []) data_len final_offset

-- `from_ne_bytes`: the number that the bytes of a key stand for.
abbrev pub from_le_bytes : Bytes → ℕ
from_le_bytes [] = 0
from_le_bytes (b ∷ bs) = b + 256 * from_le_bytes bs

abbrev pub from_be_onto : ℕ → Bytes → ℕ
from_be_onto acc [] = acc
from_be_onto acc (b ∷ bs) = from_be_onto (acc * 256 + b) bs

abbrev pub from_ne_bytes : Target → Bytes → ℕ
from_ne_bytes t bs = if t.little_endian then from_le_bytes bs else from_be_onto 0 bs

-- The widths that `match key_size` takes.
abbrev pub key_width : ℤ → Option ℕ
key_width key_size =
    if key_size ==ℤ pos 1
    then some 1
    else if key_size ==ℤ pos 2
    then some 2
    else if key_size ==ℤ pos 4
    then some 4
    else if key_size ==ℤ pos 8
    then some 8
    else none

-- `chunks_exact`.
abbrev pub chunks : ℕ → ℕ → Bytes → List Bytes
chunks zero size bs = []
chunks (suc n) size bs = take size bs ∷ chunks n size (drop size bs)

abbrev pub chunks_exact : ℕ → Bytes → List Bytes
chunks_exact size bs = chunks (length bs / size) size bs

unfoldable pub keys_from : Target → ℕ → ℕ → List Bytes → Result (Unit {0})
keys_from t row dict_n [] = ok tt
keys_from t row dict_n (key ∷ keys) =
    let rest = keys_from t (row + 1) dict_n keys in
    let value = from_ne_bytes t key in
    if leb dict_n value
    then usage_error (
        str "LowCardinality key out of range at row "
        ∷ num row
        ∷ str ": "
        ∷ num value
        ∷ str " >= "
        ∷ num dict_n
        ∷ [])
    else rest

-- The checks behind the `match`, at a width that it took.
abbrev pub keys_of_width : Target → Bytes → ℤ → ℕ → ℕ → Option ℕ → Result (Unit {0})
keys_of_width t keys key_size rows dict_n none =
    usage_error (str "LowCardinality key size must be 1, 2, 4, or 8, got " ∷ int key_size ∷ [])
keys_of_width t keys key_size rows dict_n (some width) = do
  expected ← checked_len t rows width (str "LowCardinality keys" ∷ [])
  require_len (str "LowCardinality keys" ∷ []) (length keys) expected
  keys_from t 0 dict_n (chunks_exact width keys)

unfoldable pub validate_low_cardinality_keys : Target → Bytes → ℤ → ℕ → ℕ → Result (Unit {0})
validate_low_cardinality_keys t keys key_size rows dict_n =
    keys_of_width t keys key_size rows dict_n (key_width key_size)
