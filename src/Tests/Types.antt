-- ===== src/Tests/Types.antt =====
-- The views of a type (src/types.rs) over a C library with one type.
use clickhouse_c_rs.Base.{
  ◌≡◌, refl, none, some, [], ◌∷◌, ◌++◌, Bytes, length, drop, ltb, if◌then◌else◌, arith, lt→ltb,
}
use clickhouse_c_rs.Base.Int.{pos}
use clickhouse_c_rs.Base.Utf8.{from_utf8_lossy}
use mathlib.Core.Equiv.{IsEquiv}
use clickhouse_c_rs.Types.Kind
use clickhouse_c_rs.Types.IntervalUnit
use clickhouse_c_rs.Block.ColumnLayout
use clickhouse_c_rs.Client.PacketKind
use clickhouse_c_rs.Types.Variants.{as_raw, as_raw-IsEquiv_all}
use clickhouse_c_rs.Tests.Fixtures.{header, header-IsHeader}
use clickhouse_c_rs.Types.View
use clickhouse_c_rs.Types.View.{TypeCalls, IsFormat, format_lem}

-- "Int8".
abbrev int8 : Bytes
int8 = 73 ∷ 110 ∷ 116 ∷ 56 ∷ []

abbrev calls : TypeCalls
calls = record {
  T = Unit {0};
  chc_type_parse = λ s. record { rc = pos 0; out = some tt; msg = [] };
  chc_type_kind = λ t. pos 1;
  chc_type_n_children = λ t. 0;
  chc_type_child = λ t i. none;
  chc_type_fixed_size = λ t. pos 0;
  chc_type_elem_size = λ t. 1;
  chc_type_decimal_precision = λ t. pos 0;
  chc_type_decimal_scale = λ t. pos 0;
  chc_type_datetime64_scale = λ t. pos 0;
  chc_type_interval_unit = λ t. pos 0;
  chc_type_qbit_dimension = λ t. 0;
  chc_type_qbit_element_size = λ t. 0;
  chc_type_timezone = λ t. none;
  chc_type_name = λ t. some int8;
  chc_type_enum_count = λ t. 0;
  chc_type_enum_at = λ t i. (none, pos 0);
  chc_type_tuple_field_name = λ t i. none;
  chc_type_agg_function = λ t. none;
  chc_type_format = λ t buf. (4, if ltb 4 (length buf) then int8 ++ 0 ∷ drop 5 buf else buf);
}

calls-IsFormat : IsFormat calls (λ t. int8)
calls-IsFormat = record {
  needs = λ t buf. refl;
  fills = λ t buf room. rw (lt→ltb 4 (length buf) room) refl;
}

format_example : View.format calls tt ≡ from_utf8_lossy int8
format_example = format_lem calls (λ t. int8) calls-IsFormat tt (omega arith)

as_raw-IsEquiv_example :
    IsEquiv (
      as_raw
        (λ v. header.kind (Kind.discriminant v))
        (Kind.from_raw header)
        (Kind.kind-discriminant header header-IsHeader))
    × IsEquiv (
        as_raw
          (λ v. header.interval_unit (IntervalUnit.discriminant v))
          (IntervalUnit.from_raw header)
          (IntervalUnit.interval_unit-discriminant header header-IsHeader))
    × IsEquiv (
        as_raw
          (λ v. header.col_kind (ColumnLayout.discriminant v))
          (ColumnLayout.from_raw header)
          (ColumnLayout.col_kind-discriminant header header-IsHeader))
    × IsEquiv (
        as_raw
          (λ v. header.packet_kind (PacketKind.discriminant v))
          (PacketKind.from_raw header)
          (PacketKind.packet_kind-discriminant header header-IsHeader))
as_raw-IsEquiv_example = as_raw-IsEquiv_all header header-IsHeader
