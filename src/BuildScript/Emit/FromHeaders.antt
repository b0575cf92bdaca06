-- ===== src/BuildScript/Emit/FromHeaders.antt =====
-- The constants file that build.rs writes of three headers.
use clickhouse_c_rs.Base.{◌≡◌, none, some, List, [], ◌∷◌, ◌++◌}
use mathlib.Core.Option
use clickhouse_c_rs.Base.Int.{ℤ}
use clickhouse_c_rs.BuildScript.Text.{Text, codes}
use clickhouse_c_rs.BuildScript.Enums.{Variant}
use clickhouse_c_rs.BuildScript.Enums.Items.{Item, header_text, enums_of}
use clickhouse_c_rs.BuildScript.Emit.ReadBack.{Constant}
use clickhouse_c_rs.BuildScript.Emit.Macros.{DefinedAs}
use clickhouse_c_rs.BuildScript.Emit.Stated.{Declares, First}

-- What the core, compression and client headers state: six enums and three macros.
pub record States (core_items comp_items client_items : List Item) : Type 0 where
  pub errors : List Variant
  pub kind : List Variant
  pub col_kind : List Variant
  pub interval_unit : List Variant
  pub compression : List Variant
  pub packet_kind : List Variant
  pub msg_len : ℤ
  pub server : ℤ
  pub client : ℤ
  pub is_errors : First none (enums_of core_items) errors
  pub is_kind : First (some (codes "chc_kind")) (enums_of core_items) kind
  pub is_col_kind : First (some (codes "chc_col_kind")) (enums_of core_items) col_kind
  pub is_interval_unit :
      First (some (codes "chc_interval_unit")) (enums_of core_items) interval_unit
  pub is_compression : First (some (codes "chc_compression")) (enums_of comp_items) compression
  pub is_packet_kind : First (some (codes "chc_packet_kind")) (enums_of client_items) packet_kind
  pub is_msg_len : DefinedAs (codes "CHC_ERR_MSG_LEN") msg_len (header_text core_items)
  pub is_server : DefinedAs (codes "CHC_SERVER_MIN_REVISION") server (header_text client_items)
  pub is_client : DefinedAs (codes "CHC_CLIENT_REVISION") client (header_text client_items)

module _ {core_items comp_items client_items : List Item}
    (s : States core_items comp_items client_items) where
  -- The constants of the enums and then of the macros, with their Rust types.
  abbrev pub AllDeclared : List Constant → Type 0
  AllDeclared cs =
      (errors : List Constant) × (kind : List Constant) × (col_kind : List Constant)
      × (interval_unit : List Constant) × (compression : List Constant) × (packet_kind : List
          Constant)
      × Declares (codes "core::ffi::c_int") s.errors errors
      × Declares (codes "chc_kind") s.kind kind
      × Declares (codes "chc_col_kind") s.col_kind col_kind
      × Declares (codes "chc_interval_unit") s.interval_unit interval_unit
      × Declares (codes "chc_compression") s.compression compression
      × Declares (codes "chc_packet_kind") s.packet_kind packet_kind
      × (cs
          ≡ errors
            ++ (kind
                ++ (col_kind
                    ++ (interval_unit
                        ++ (compression
                            ++ (packet_kind
                                ++ ((codes "CHC_ERR_MSG_LEN", (codes "usize", s.msg_len))
                                    ∷ (codes "CHC_SERVER_MIN_REVISION", (codes "u64", s.server))
                                    ∷ (codes "CHC_CLIENT_REVISION", (codes "u64", s.client))
                                    ∷ [])))))))
