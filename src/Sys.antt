-- ===== src/Sys.antt =====
-- The constants that `build.rs` reads from the C headers, which are not in this repository: their
-- names stand here, and their values are fields of a record.
pub mod Ranks
use clickhouse_c_rs.Base.{ℕ, zero, suc, ◌≡◌, refl, ap, sym, ◌∙◌, ◌<◌, Option, none, some}
use clickhouse_c_rs.Base.Arms.{Injective}
use clickhouse_c_rs.Base.Int.{ℤ}

-- The error codes, an anonymous enum.
pub data ErrorCode : Type 0 where
  chc_ok chc_err_io chc_err_eof chc_err_protocol chc_err_type chc_err_oom : ErrorCode
  chc_err_cancelled chc_err_server chc_err_usage chc_would_block : ErrorCode

-- `chc_kind`.
pub data ChcKind : Type 0 where
  chc_void chc_int8 chc_int16 chc_int32 chc_int64 chc_int128 chc_int256 chc_uint8 : ChcKind
  chc_uint16 chc_uint32 chc_uint64 chc_uint128 chc_uint256 chc_float32 chc_float64 : ChcKind
  chc_bfloat16 chc_bool chc_date chc_date32 chc_datetime chc_datetime64 chc_time : ChcKind
  chc_time64 chc_string chc_fixed_string chc_decimal32 chc_decimal64 chc_decimal128 : ChcKind
  chc_decimal256 chc_uuid chc_ipv4 chc_ipv6 chc_enum8 chc_enum16 chc_nullable chc_array : ChcKind
  chc_tuple chc_map chc_nested chc_low_cardinality chc_interval chc_point chc_ring : ChcKind
  chc_line_string chc_polygon chc_multi_polygon chc_multi_line_string chc_variant : ChcKind
  chc_dynamic chc_json chc_object chc_aggregate_function chc_simple_aggregate_function : ChcKind
  chc_nothing chc_qbit : ChcKind

-- `chc_interval_unit`.
pub data ChcIntervalUnit : Type 0 where
  chc_interval_none chc_interval_nanosecond chc_interval_microsecond : ChcIntervalUnit
  chc_interval_millisecond chc_interval_second chc_interval_minute chc_interval_hour :
      ChcIntervalUnit
  chc_interval_day chc_interval_week chc_interval_month chc_interval_quarter : ChcIntervalUnit
  chc_interval_year : ChcIntervalUnit

-- `chc_col_kind`.
pub data ChcColKind : Type 0 where
  chc_col_fixed chc_col_string chc_col_nullable chc_col_array chc_col_tuple : ChcColKind
  chc_col_low_cardinality chc_col_nothing : ChcColKind

-- `chc_compression`.
pub data ChcCompression : Type 0 where
  chc_comp_none chc_comp_lz4 chc_comp_zstd : ChcCompression

-- `chc_packet_kind`.
pub data ChcPacketKind : Type 0 where
  chc_pkt_hello chc_pkt_data chc_pkt_exception chc_pkt_progress chc_pkt_pong : ChcPacketKind
  chc_pkt_end_of_stream chc_pkt_profile_info chc_pkt_totals chc_pkt_extremes chc_pkt_log :
      ChcPacketKind
  chc_pkt_table_columns chc_pkt_profile_events chc_pkt_timezone_update : ChcPacketKind

-- The values of the constants.
pub record Header : Type 0 where
  pub code : ErrorCode → ℤ
  pub kind : ChcKind → ℤ
  pub interval_unit : ChcIntervalUnit → ℤ
  pub col_kind : ChcColKind → ℤ
  pub compression : ChcCompression → ℤ
  pub packet_kind : ChcPacketKind → ℤ
  pub err_msg_len : ℕ

-- What the C compiler and `rustc` make sure of: the enumerators of one enum differ, and the message
-- array is not empty.
pub record IsHeader (h : Header) : Type 0 where
  pub code-Injective : Injective h.code
  pub kind-Injective : Injective h.kind
  pub interval_unit-Injective : Injective h.interval_unit
  pub col_kind-Injective : Injective h.col_kind
  pub compression-Injective : Injective h.compression
  pub packet_kind-Injective : Injective h.packet_kind
  pub err_msg_len_pos : 0 < h.err_msg_len
