-- ===== src/Sys/Ranks.antt =====
-- A numbering of each family of constants, which tells them apart by name.
use clickhouse_c_rs.Base.{ℕ, ◌≡◌, refl, ap, sym, ◌∙◌, Option, some, [], ◌∷◌, get_elem?}
use mathlib.Core.Option.{some-injective}
use clickhouse_c_rs.Base.Arms.{Injective}
use clickhouse_c_rs.Sys.{
  ErrorCode, chc_ok, chc_err_io, chc_err_eof, chc_err_protocol, chc_err_type, chc_err_oom,
  chc_err_cancelled, chc_err_server, chc_err_usage, chc_would_block, ChcKind, chc_void, chc_int8,
  chc_int16, chc_int32, chc_int64, chc_int128, chc_int256, chc_uint8, chc_uint16, chc_uint32,
  chc_uint64, chc_uint128, chc_uint256, chc_float32, chc_float64, chc_bfloat16, chc_bool, chc_date,
  chc_date32, chc_datetime, chc_datetime64, chc_time, chc_time64, chc_string, chc_fixed_string,
  chc_decimal32, chc_decimal64, chc_decimal128, chc_decimal256, chc_uuid, chc_ipv4, chc_ipv6,
  chc_enum8, chc_enum16, chc_nullable, chc_array, chc_tuple, chc_map, chc_nested,
  chc_low_cardinality, chc_interval, chc_point, chc_ring, chc_line_string, chc_polygon,
  chc_multi_polygon, chc_multi_line_string, chc_variant, chc_dynamic, chc_json, chc_object,
  chc_aggregate_function, chc_simple_aggregate_function, chc_nothing, chc_qbit, ChcIntervalUnit,
  chc_interval_none, chc_interval_nanosecond, chc_interval_microsecond, chc_interval_millisecond,
  chc_interval_second, chc_interval_minute, chc_interval_hour, chc_interval_day, chc_interval_week,
  chc_interval_month, chc_interval_quarter, chc_interval_year, ChcColKind, chc_col_fixed,
  chc_col_string, chc_col_nullable, chc_col_array, chc_col_tuple, chc_col_low_cardinality,
  chc_col_nothing, ChcCompression, chc_comp_none, chc_comp_lz4, chc_comp_zstd, ChcPacketKind,
  chc_pkt_hello, chc_pkt_data, chc_pkt_exception, chc_pkt_progress, chc_pkt_pong,
  chc_pkt_end_of_stream, chc_pkt_profile_info, chc_pkt_totals, chc_pkt_extremes, chc_pkt_log,
  chc_pkt_table_columns, chc_pkt_profile_events, chc_pkt_timezone_update,
}

-- A numbering that can be read back tells all apart.
rank-Injective :
    {A : Type 0} (rank : A → ℕ) (name : ℕ → Option A)
    → ((a : A) → name (rank a) ≡ some a)
    → Injective rank
rank-Injective rank name back a b e = some-injective a b (sym (back a) ∙ ap name e ∙ back b)

abbrev pub code_rank : ErrorCode → ℕ
code_rank chc_ok = 0
code_rank chc_err_io = 1
code_rank chc_err_eof = 2
code_rank chc_err_protocol = 3
code_rank chc_err_type = 4
code_rank chc_err_oom = 5
code_rank chc_err_cancelled = 6
code_rank chc_err_server = 7
code_rank chc_err_usage = 8
code_rank chc_would_block = 9

code_name : ℕ → Option ErrorCode
code_name i =
    get_elem?
      (chc_ok ∷ chc_err_io ∷ chc_err_eof ∷ chc_err_protocol ∷ chc_err_type ∷ chc_err_oom
        ∷ chc_err_cancelled ∷ chc_err_server ∷ chc_err_usage ∷ chc_would_block ∷ [])
      i

code_name-rank : (c : ErrorCode) → code_name (code_rank c) ≡ some c
unfolding code_name
code_name-rank chc_ok = refl
code_name-rank _ = refl

pub code_rank-Injective : Injective code_rank
code_rank-Injective = rank-Injective code_rank code_name code_name-rank

abbrev pub kind_rank : ChcKind → ℕ
kind_rank chc_void = 0
kind_rank chc_int8 = 1
kind_rank chc_int16 = 2
kind_rank chc_int32 = 3
kind_rank chc_int64 = 4
kind_rank chc_int128 = 5
kind_rank chc_int256 = 6
kind_rank chc_uint8 = 7
kind_rank chc_uint16 = 8
kind_rank chc_uint32 = 9
kind_rank chc_uint64 = 10
kind_rank chc_uint128 = 11
kind_rank chc_uint256 = 12
kind_rank chc_float32 = 13
kind_rank chc_float64 = 14
kind_rank chc_bfloat16 = 15
kind_rank chc_bool = 16
kind_rank chc_date = 17
kind_rank chc_date32 = 18
kind_rank chc_datetime = 19
kind_rank chc_datetime64 = 20
kind_rank chc_time = 21
kind_rank chc_time64 = 22
kind_rank chc_string = 23
kind_rank chc_fixed_string = 24
kind_rank chc_decimal32 = 25
kind_rank chc_decimal64 = 26
kind_rank chc_decimal128 = 27
kind_rank chc_decimal256 = 28
kind_rank chc_uuid = 29
kind_rank chc_ipv4 = 30
kind_rank chc_ipv6 = 31
kind_rank chc_enum8 = 32
kind_rank chc_enum16 = 33
kind_rank chc_nullable = 34
kind_rank chc_array = 35
kind_rank chc_tuple = 36
kind_rank chc_map = 37
kind_rank chc_nested = 38
kind_rank chc_low_cardinality = 39
kind_rank chc_interval = 40
kind_rank chc_point = 41
kind_rank chc_ring = 42
kind_rank chc_line_string = 43
kind_rank chc_polygon = 44
kind_rank chc_multi_polygon = 45
kind_rank chc_multi_line_string = 46
kind_rank chc_variant = 47
kind_rank chc_dynamic = 48
kind_rank chc_json = 49
kind_rank chc_object = 50
kind_rank chc_aggregate_function = 51
kind_rank chc_simple_aggregate_function = 52
kind_rank chc_nothing = 53
kind_rank chc_qbit = 54

kind_name : ℕ → Option ChcKind
kind_name i =
    get_elem?
      (chc_void ∷ chc_int8 ∷ chc_int16 ∷ chc_int32 ∷ chc_int64 ∷ chc_int128 ∷ chc_int256 ∷ chc_uint8
        ∷ chc_uint16 ∷ chc_uint32 ∷ chc_uint64 ∷ chc_uint128 ∷ chc_uint256 ∷ chc_float32
        ∷ chc_float64 ∷ chc_bfloat16 ∷ chc_bool ∷ chc_date ∷ chc_date32 ∷ chc_datetime
        ∷ chc_datetime64 ∷ chc_time ∷ chc_time64 ∷ chc_string ∷ chc_fixed_string ∷ chc_decimal32
        ∷ chc_decimal64 ∷ chc_decimal128 ∷ chc_decimal256 ∷ chc_uuid ∷ chc_ipv4 ∷ chc_ipv6
        ∷ chc_enum8 ∷ chc_enum16 ∷ chc_nullable ∷ chc_array ∷ chc_tuple ∷ chc_map ∷ chc_nested
        ∷ chc_low_cardinality ∷ chc_interval ∷ chc_point ∷ chc_ring ∷ chc_line_string ∷ chc_polygon
        ∷ chc_multi_polygon ∷ chc_multi_line_string ∷ chc_variant ∷ chc_dynamic ∷ chc_json
        ∷ chc_object ∷ chc_aggregate_function ∷ chc_simple_aggregate_function ∷ chc_nothing
        ∷ chc_qbit ∷ [])
      i

kind_name-rank : (c : ChcKind) → kind_name (kind_rank c) ≡ some c
unfolding kind_name
kind_name-rank chc_void = refl
kind_name-rank _ = refl

pub kind_rank-Injective : Injective kind_rank
kind_rank-Injective = rank-Injective kind_rank kind_name kind_name-rank

abbrev pub interval_unit_rank : ChcIntervalUnit → ℕ
interval_unit_rank chc_interval_none = 0
interval_unit_rank chc_interval_nanosecond = 1
interval_unit_rank chc_interval_microsecond = 2
interval_unit_rank chc_interval_millisecond = 3
interval_unit_rank chc_interval_second = 4
interval_unit_rank chc_interval_minute = 5
interval_unit_rank chc_interval_hour = 6
interval_unit_rank chc_interval_day = 7
interval_unit_rank chc_interval_week = 8
interval_unit_rank chc_interval_month = 9
interval_unit_rank chc_interval_quarter = 10
interval_unit_rank chc_interval_year = 11

interval_unit_name : ℕ → Option ChcIntervalUnit
interval_unit_name i =
    get_elem?
      (chc_interval_none ∷ chc_interval_nanosecond ∷ chc_interval_microsecond
        ∷ chc_interval_millisecond ∷ chc_interval_second ∷ chc_interval_minute ∷ chc_interval_hour
        ∷ chc_interval_day ∷ chc_interval_week ∷ chc_interval_month ∷ chc_interval_quarter
        ∷ chc_interval_year ∷ [])
      i

interval_unit_name-rank : (c : ChcIntervalUnit) → interval_unit_name (interval_unit_rank c) ≡ some c
unfolding interval_unit_name
interval_unit_name-rank chc_interval_none = refl
interval_unit_name-rank _ = refl

pub interval_unit_rank-Injective : Injective interval_unit_rank
interval_unit_rank-Injective =
    rank-Injective interval_unit_rank interval_unit_name interval_unit_name-rank

abbrev pub col_kind_rank : ChcColKind → ℕ
col_kind_rank chc_col_fixed = 0
col_kind_rank chc_col_string = 1
col_kind_rank chc_col_nullable = 2
col_kind_rank chc_col_array = 3
col_kind_rank chc_col_tuple = 4
col_kind_rank chc_col_low_cardinality = 5
col_kind_rank chc_col_nothing = 6

col_kind_name : ℕ → Option ChcColKind
col_kind_name i =
    get_elem?
      (chc_col_fixed ∷ chc_col_string ∷ chc_col_nullable ∷ chc_col_array ∷ chc_col_tuple
        ∷ chc_col_low_cardinality ∷ chc_col_nothing ∷ [])
      i

col_kind_name-rank : (c : ChcColKind) → col_kind_name (col_kind_rank c) ≡ some c
unfolding col_kind_name
col_kind_name-rank chc_col_fixed = refl
col_kind_name-rank _ = refl

pub col_kind_rank-Injective : Injective col_kind_rank
col_kind_rank-Injective = rank-Injective col_kind_rank col_kind_name col_kind_name-rank

abbrev pub compression_rank : ChcCompression → ℕ
compression_rank chc_comp_none = 0
compression_rank chc_comp_lz4 = 1
compression_rank chc_comp_zstd = 2

compression_name : ℕ → Option ChcCompression
compression_name i = get_elem? (chc_comp_none ∷ chc_comp_lz4 ∷ chc_comp_zstd ∷ []) i

compression_name-rank : (c : ChcCompression) → compression_name (compression_rank c) ≡ some c
unfolding compression_name
compression_name-rank chc_comp_none = refl
compression_name-rank _ = refl

pub compression_rank-Injective : Injective compression_rank
compression_rank-Injective = rank-Injective compression_rank compression_name compression_name-rank

abbrev pub packet_kind_rank : ChcPacketKind → ℕ
packet_kind_rank chc_pkt_hello = 0
packet_kind_rank chc_pkt_data = 1
packet_kind_rank chc_pkt_exception = 2
packet_kind_rank chc_pkt_progress = 3
packet_kind_rank chc_pkt_pong = 4
packet_kind_rank chc_pkt_end_of_stream = 5
packet_kind_rank chc_pkt_profile_info = 6
packet_kind_rank chc_pkt_totals = 7
packet_kind_rank chc_pkt_extremes = 8
packet_kind_rank chc_pkt_log = 9
packet_kind_rank chc_pkt_table_columns = 10
packet_kind_rank chc_pkt_profile_events = 11
packet_kind_rank chc_pkt_timezone_update = 12

packet_kind_name : ℕ → Option ChcPacketKind
packet_kind_name i =
    get_elem?
      (chc_pkt_hello ∷ chc_pkt_data ∷ chc_pkt_exception ∷ chc_pkt_progress ∷ chc_pkt_pong
        ∷ chc_pkt_end_of_stream ∷ chc_pkt_profile_info ∷ chc_pkt_totals ∷ chc_pkt_extremes
        ∷ chc_pkt_log ∷ chc_pkt_table_columns ∷ chc_pkt_profile_events ∷ chc_pkt_timezone_update
        ∷ [])
      i

packet_kind_name-rank : (c : ChcPacketKind) → packet_kind_name (packet_kind_rank c) ≡ some c
unfolding packet_kind_name
packet_kind_name-rank chc_pkt_hello = refl
packet_kind_name-rank _ = refl

pub packet_kind_rank-Injective : Injective packet_kind_rank
packet_kind_rank-Injective = rank-Injective packet_kind_rank packet_kind_name packet_kind_name-rank
