-- ===== src/Codec.antt =====
-- src/codec.rs: compression algorithms and the callback table of a codec.
use clickhouse_c_rs.Base.{Bool, true, ◌&&◌, Option, is_some, String}
use clickhouse_c_rs.Sys

pub data Compression : Type 0 where
  none lz4 zstd : Compression

abbrev pub discriminant : Compression → Sys.ChcCompression
discriminant Compression.none = Sys.chc_comp_none
discriminant Compression.lz4 = Sys.chc_comp_lz4
discriminant Compression.zstd = Sys.chc_comp_zstd

-- `{:?}`.
abbrev pub debug : Compression → String
debug Compression.none = "None"
debug Compression.lz4 = "Lz4"
debug Compression.zstd = "Zstd"

-- `sys::chc_codec`, over the function pointers, which the crate only tests for null.
pub record Codec (F : Type 0) : Type 0 where
  pub lz4_compress : Option F
  pub lz4_decompress : Option F
  pub zstd_compress : Option F
  pub zstd_decompress : Option F
  pub lz4_bound : Option F
  pub zstd_bound : Option F

module _ {F : Type 0} where
  abbrev pub empty : Codec F
  empty = record {
    lz4_compress = Option.none;
    lz4_decompress = Option.none;
    zstd_compress = Option.none;
    zstd_decompress = Option.none;
    lz4_bound = Option.none;
    zstd_bound = Option.none;
  }

  -- The C functions that fill a table in: `chc_lz4_codec_init` and `chc_zstd_codec_init`.
  unfoldable lz4_codec : (Codec F → Codec F) → Codec F
  lz4_codec chc_lz4_codec_init = chc_lz4_codec_init empty

  unfoldable zstd_codec : (Codec F → Codec F) → Codec F
  zstd_codec chc_zstd_codec_init = chc_zstd_codec_init empty

  abbrev pub supports : Codec F → Compression → Bool
  supports codec Compression.none = true
  supports codec Compression.lz4 =
      is_some codec.lz4_compress && is_some codec.lz4_decompress && is_some codec.lz4_bound
  supports codec Compression.zstd =
      is_some codec.zstd_compress && is_some codec.zstd_decompress && is_some codec.zstd_bound
