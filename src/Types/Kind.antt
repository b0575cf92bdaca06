-- ===== src/Types/Kind.antt =====
-- src/types.rs: `Kind` and its conversion from a C discriminant.
use clickhouse_c_rs.Base.{◌≡◌, refl, ◌↔◌, Option, some, List, [], ◌∷◌}
use clickhouse_c_rs.Base.Arms.{match_arms, match_names, match_arms_iff}
use clickhouse_c_rs.Base.Int.{ℤ}
use clickhouse_c_rs.Sys
use clickhouse_c_rs.Sys.Ranks.{kind_rank, kind_rank-Injective}

pub data Kind : Type 0 where
  void int8 int16 int32 int64 int128 int256 uint8 uint16 uint32 uint64 uint128 uint256 : Kind
  float32 float64 bfloat16 bool date date32 datetime datetime64 time time64 string : Kind
  fixed_string decimal32 decimal64 decimal128 decimal256 uuid ipv4 ipv6 enum8 enum16 : Kind
  nullable array tuple map nested low_cardinality interval point ring line_string polygon : Kind
  multi_polygon multi_line_string variant dynamic json object aggregate_function : Kind
  simple_aggregate_function nothing qbit : Kind

-- The constant that a variant is defined by; `as i32` gives its value.
abbrev pub discriminant : Kind → Sys.ChcKind
discriminant void = Sys.chc_void
discriminant int8 = Sys.chc_int8
discriminant int16 = Sys.chc_int16
discriminant int32 = Sys.chc_int32
discriminant int64 = Sys.chc_int64
discriminant int128 = Sys.chc_int128
discriminant int256 = Sys.chc_int256
discriminant uint8 = Sys.chc_uint8
discriminant uint16 = Sys.chc_uint16
discriminant uint32 = Sys.chc_uint32
discriminant uint64 = Sys.chc_uint64
discriminant uint128 = Sys.chc_uint128
discriminant uint256 = Sys.chc_uint256
discriminant float32 = Sys.chc_float32
discriminant float64 = Sys.chc_float64
discriminant bfloat16 = Sys.chc_bfloat16
discriminant bool = Sys.chc_bool
discriminant date = Sys.chc_date
discriminant date32 = Sys.chc_date32
discriminant datetime = Sys.chc_datetime
discriminant datetime64 = Sys.chc_datetime64
discriminant time = Sys.chc_time
discriminant time64 = Sys.chc_time64
discriminant string = Sys.chc_string
discriminant fixed_string = Sys.chc_fixed_string
discriminant decimal32 = Sys.chc_decimal32
discriminant decimal64 = Sys.chc_decimal64
discriminant decimal128 = Sys.chc_decimal128
discriminant decimal256 = Sys.chc_decimal256
discriminant uuid = Sys.chc_uuid
discriminant ipv4 = Sys.chc_ipv4
discriminant ipv6 = Sys.chc_ipv6
discriminant enum8 = Sys.chc_enum8
discriminant enum16 = Sys.chc_enum16
discriminant nullable = Sys.chc_nullable
discriminant array = Sys.chc_array
discriminant tuple = Sys.chc_tuple
discriminant map = Sys.chc_map
discriminant nested = Sys.chc_nested
discriminant low_cardinality = Sys.chc_low_cardinality
discriminant interval = Sys.chc_interval
discriminant point = Sys.chc_point
discriminant ring = Sys.chc_ring
discriminant line_string = Sys.chc_line_string
discriminant polygon = Sys.chc_polygon
discriminant multi_polygon = Sys.chc_multi_polygon
discriminant multi_line_string = Sys.chc_multi_line_string
discriminant variant = Sys.chc_variant
discriminant dynamic = Sys.chc_dynamic
discriminant json = Sys.chc_json
discriminant object = Sys.chc_object
discriminant aggregate_function = Sys.chc_aggregate_function
discriminant simple_aggregate_function = Sys.chc_simple_aggregate_function
discriminant nothing = Sys.chc_nothing
discriminant qbit = Sys.chc_qbit

-- The arms of the `match` in `from_raw`.
abbrev pub arms : List (Sys.ChcKind × Kind)
arms =
    (Sys.chc_void, void)
    ∷ (Sys.chc_int8, int8)
    ∷ (Sys.chc_int16, int16)
    ∷ (Sys.chc_int32, int32)
    ∷ (Sys.chc_int64, int64)
    ∷ (Sys.chc_int128, int128)
    ∷ (Sys.chc_int256, int256)
    ∷ (Sys.chc_uint8, uint8)
    ∷ (Sys.chc_uint16, uint16)
    ∷ (Sys.chc_uint32, uint32)
    ∷ (Sys.chc_uint64, uint64)
    ∷ (Sys.chc_uint128, uint128)
    ∷ (Sys.chc_uint256, uint256)
    ∷ (Sys.chc_float32, float32)
    ∷ (Sys.chc_float64, float64)
    ∷ (Sys.chc_bfloat16, bfloat16)
    ∷ (Sys.chc_bool, bool)
    ∷ (Sys.chc_date, date)
    ∷ (Sys.chc_date32, date32)
    ∷ (Sys.chc_datetime, datetime)
    ∷ (Sys.chc_datetime64, datetime64)
    ∷ (Sys.chc_time, time)
    ∷ (Sys.chc_time64, time64)
    ∷ (Sys.chc_string, string)
    ∷ (Sys.chc_fixed_string, fixed_string)
    ∷ (Sys.chc_decimal32, decimal32)
    ∷ (Sys.chc_decimal64, decimal64)
    ∷ (Sys.chc_decimal128, decimal128)
    ∷ (Sys.chc_decimal256, decimal256)
    ∷ (Sys.chc_uuid, uuid)
    ∷ (Sys.chc_ipv4, ipv4)
    ∷ (Sys.chc_ipv6, ipv6)
    ∷ (Sys.chc_enum8, enum8)
    ∷ (Sys.chc_enum16, enum16)
    ∷ (Sys.chc_nullable, nullable)
    ∷ (Sys.chc_array, array)
    ∷ (Sys.chc_tuple, tuple)
    ∷ (Sys.chc_map, map)
    ∷ (Sys.chc_nested, nested)
    ∷ (Sys.chc_low_cardinality, low_cardinality)
    ∷ (Sys.chc_interval, interval)
    ∷ (Sys.chc_point, point)
    ∷ (Sys.chc_ring, ring)
    ∷ (Sys.chc_line_string, line_string)
    ∷ (Sys.chc_polygon, polygon)
    ∷ (Sys.chc_multi_polygon, multi_polygon)
    ∷ (Sys.chc_multi_line_string, multi_line_string)
    ∷ (Sys.chc_variant, variant)
    ∷ (Sys.chc_dynamic, dynamic)
    ∷ (Sys.chc_json, json)
    ∷ (Sys.chc_object, object)
    ∷ (Sys.chc_aggregate_function, aggregate_function)
    ∷ (Sys.chc_simple_aggregate_function, simple_aggregate_function)
    ∷ (Sys.chc_nothing, nothing)
    ∷ (Sys.chc_qbit, qbit)
    ∷ []

unfoldable pub from_raw : Sys.Header → ℤ → Option Kind
from_raw h k = match_arms h.kind arms k

arms_cover : (v : Kind) → match_names kind_rank arms (discriminant v) ≡ some v
arms_cover void = refl
arms_cover _ = refl

-- With the header's constants distinct, a type kind converts to a variant exactly when its value is that of the constant that the variant is defined by.
pub kind-discriminant :
    (h : Sys.Header)
    → Sys.IsHeader h
    → (k : ℤ) (v : Kind) → (from_raw h k ≡ some v) ↔ (h.kind (discriminant v) ≡ k)
unfolding from_raw
kind-discriminant h valid k v =
    match_arms_iff h.kind kind_rank discriminant arms valid.kind-Injective kind_rank-Injective refl
      arms_cover k v
