-- ===== src/Tests/Builder.antt =====
-- Column and block builders at concrete inputs.
use clickhouse_c_rs.Base.{
  ℕ, ◌*◌, ◌≤◌, ◌<◌, ◌≡◌, ◌≢◌, ◌↔◌, refl, List, [], ◌∷◌, Bytes, Option, none, some, length, arith,
  map,
}
use clickhouse_c_rs.Base.Int.{pos}
use clickhouse_c_rs.Error.{Message, str, ok}
use clickhouse_c_rs.Builder.{Column, n_rows, validate_string, validate_low_cardinality_keys}
use clickhouse_c_rs.Builder.Build
use clickhouse_c_rs.Builder.Offsets.{Rising, last_or, validate_string_iff}
use clickhouse_c_rs.Builder.Keys.{key_at, WireWidth, validate_low_cardinality_keys_iff}
use clickhouse_c_rs.Builder.Fixed.{fixed_iff, array_iff}
use clickhouse_c_rs.Builder.Tuple.{SameRows, tuple_iff}
use clickhouse_c_rs.Builder.WellFormed.{IsColumn, Built, by_fixed, by_array, Built-IsColumn}
use clickhouse_c_rs.Builder.BlockBuilder.{empty, append}
use clickhouse_c_rs.Builder.BlockBuilder.Appends.{
  IsValid, empty-IsValid, append-IsValid, append_all, columns, block_cols, append_all_iff,
}
use clickhouse_c_rs.Tests.Fixtures.{target, nodes, nodes-IsNodes}

abbrev pub label : Message
label = str "array" ∷ []

abbrev pub ends : List ℕ
ends = 1 ∷ 3 ∷ []

abbrev keys : Bytes
keys = 1 ∷ 0 ∷ 0 ∷ 0 ∷ []

abbrev pub data_bytes : Bytes
data_bytes = 1 ∷ 2 ∷ 3 ∷ 4 ∷ 5 ∷ 6 ∷ []

validate_string_example :
    (validate_string target ends 5 2 label ≡ ok tt)
    ↔ ((length ends ≡ 2) × Rising 0 ends × (last_or 0 ends ≤ 5))
validate_string_example = validate_string_iff target ends 5 2 label (omega arith)

validate_keys_example : (validate_low_cardinality_keys target keys (pos 2) 2 2 ≡ ok tt) ↔ (
    (w : ℕ) × WireWidth (pos 2) w
    × (length keys ≡ 2 * w)
    × ((i : ℕ) → i < 2 → key_at target w keys i < 2))
validate_keys_example = validate_low_cardinality_keys_iff target keys (pos 2) 2 2 (omega arith)

abbrev pair : Column
pair = Column.fixed 3 2 data_bytes

fixed_example :
    (Build.fixed target nodes data_bytes 2 3 ≡ ok pair)
    ↔ ((0 < 2) × (3 * 2 ≤ length data_bytes) × (pair ≡ pair))
fixed_example = fixed_iff target nodes data_bytes 2 3 pair (omega arith)

array_example : (Build.array target nodes pair ends 2 ≡ ok (Column.array 2 ends pair)) ↔ (
    (length ends ≡ 2)
    × Rising 0 ends
    × (last_or 0 ends ≡ n_rows pair)
    × (Column.array 2 ends pair ≡ Column.array 2 ends pair))
array_example = array_iff target nodes pair ends 2 (Column.array 2 ends pair) (omega arith)

tuple_example : (Build.tuple target nodes (pair ∷ []) (none ∷ []) ≡ ok pair) ↔ (
    ((pair ∷ []) ≢ [])
    × (length {A = Option Column} (none ∷ []) ≡ length (pair ∷ []))
    × SameRows (pair ∷ [])
    × (pair ≡ nodes.chc_build_tuple (map some (pair ∷ []))))
tuple_example = tuple_iff target nodes (pair ∷ []) (none ∷ []) pair

pair-Built : Built target nodes pair
pair-Built =
    by_fixed data_bytes 2 3 pair (omega arith) (fixed_example.1 (omega arith, omega arith, refl))

rows-Built : Built target nodes (Column.array 2 ends pair)
rows-Built =
    by_array pair ends 2 (Column.array 2 ends pair) pair-Built (omega arith)
      (array_example.1 (refl, (omega arith, (omega arith, tt)), refl, refl))

Built_example : IsColumn target (Column.array 2 ends pair)
Built_example = Built-IsColumn target nodes nodes-IsNodes (Column.array 2 ends pair) rows-Built

append_example : IsValid (append (empty {T = ℕ}) (97 ∷ []) 1 pair).0
append_example = append-IsValid empty (97 ∷ []) 1 pair empty-IsValid

abbrev items : List (Bytes × ℕ × Column)
items = (97 ∷ [], 1, pair) ∷ (98 ∷ [], 2, pair) ∷ []

append_all_example : (SameRows (columns items)) ↔ (
    ((append_all (empty {T = ℕ}) items).1 ≡ ok tt)
    × ((append_all (empty {T = ℕ}) items).0.raw.cols ≡ block_cols items)
    × ((append_all (empty {T = ℕ}) items).0.raw.n_cols ≡ length items))
append_all_example = append_all_iff items
