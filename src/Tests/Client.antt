-- ===== src/Tests/Client.antt =====
-- The blocking client, its options and the views of columns at concrete inputs.
use clickhouse_c_rs.Base.{
  ℕ, ◌+◌, ◌-◌, ◌≡◌, ◌↔◌, refl, [], ◌∷◌, none, some, arith, Option, false, zero, suc, ◌<◌,
}
use clickhouse_c_rs.Base.Int.{pos}
use clickhouse_c_rs.Sys
use clickhouse_c_rs.Sys.Ranks.{col_kind_rank}
use clickhouse_c_rs.Error.{ok}
use clickhouse_c_rs.Block.Column
use clickhouse_c_rs.Block.Column.{RawColumn}
use clickhouse_c_rs.Block.Column.Views.{
  Published, FixedView, StringView, HasLength, KeysView, column_views,
}
use clickhouse_c_rs.Block.Decoded
use clickhouse_c_rs.Block.Decoded.{RawBlock}
use clickhouse_c_rs.Block.Decoded.Validate.{Passes, validate_iff}
use clickhouse_c_rs.Client.Calls.{Connection, init}
use clickhouse_c_rs.Client.Calls.Handshake.{Opens, gained, init-live}
use clickhouse_c_rs.Client.Calls.Receive.{FreesPackets}
use clickhouse_c_rs.Client.Event.Ownership.{packet_handles}
use clickhouse_c_rs.Client.PacketKind
use clickhouse_c_rs.Client.Opts.{ClientOpts, RawClientOpts, to_raw}
use clickhouse_c_rs.Client.Opts.Strings.{TextAt, to_raw-reads_back}
use clickhouse_c_rs.Codec.{Compression, Codec, empty}
use clickhouse_c_rs.Ioless.Handles.{weigh}
use clickhouse_c_rs.Tests.Fixtures.{header, target, one, packet_of, no_raw_exception}

abbrev opts : ClientOpts
opts = record {
  client_name = some (97 ∷ []);
  database = none;
  user = some (98 ∷ 99 ∷ []);
  password = none;
  client_version_major = 1;
  client_version_minor = 2;
  client_version_patch = 3;
  compression = Compression.lz4;
  read_buffer_bytes = 0;
}

abbrev lz4_only : Codec ℕ
lz4_only = record empty { lz4_compress = some 1; lz4_decompress = some 2; lz4_bound = some 3 }

to_raw_example :
    (r : RawClientOpts ℕ) × (to_raw header opts (some lz4_only) ≡ ok r)
    × TextAt r.owned r.client_name (some (97 ∷ []))
    × TextAt r.owned r.database none
    × TextAt r.owned r.user (some (98 ∷ 99 ∷ []))
    × TextAt r.owned r.password none
    × (r.client_version_major ≡ 1)
    × (r.client_version_minor ≡ 2)
    × (r.client_version_patch ≡ 3)
    × (r.compression ≡ header.compression Sys.chc_comp_lz4)
    × (r.codec ≡ some lz4_only)
    × (r.read_buffer_bytes ≡ 0)
to_raw_example = to_raw-reads_back header opts (some lz4_only) refl tt refl tt

-- A string column whose last offset is past its data.
abbrev torn : RawColumn ℕ
torn = record {
  layout = pos (col_kind_rank Sys.chc_col_string);
  n_rows = 2;
  elem_size = 0;
  fixed_data = none;
  string_offsets = some (1 ∷ 9 ∷ []);
  string_data = some (5 ∷ 6 ∷ 7 ∷ []);
  str_bytes = 3;
  null_map = none;
  nullable_inner = none;
  array_offsets = none;
  array_values = none;
  tuple_arity = 0;
  tuple_child = λ i. none;
  lc_key_size = pos 0;
  lc_keys = none;
  lc_dict = none;
  validate = (pos 3, []);
}

torn-Published : Published torn
torn-Published = record {
  fixed_holds = tt;
  offsets_hold = omega arith;
  data_holds = omega arith;
  map_holds = tt;
  array_holds = tt;
  keys_hold = tt;
}

column_views_example :
    FixedView 2 0 (Column.fixed header target torn)
    × StringView target.usize_max 2 3 (Column.string header target torn)
    × HasLength 2 (Column.null_map header target torn)
    × HasLength 2 (Column.array_offsets header target torn)
    × KeysView 2 (pos 0) (Column.low_cardinality header target torn)
column_views_example = column_views header target torn torn-Published

-- A server that rejects the handshake with exception 3, and else sends block 7 again and again. The
-- heap and a connection count their live allocations.
abbrev pub rejecting : Connection
rejecting = record {
  W = ℕ;
  S = ℕ;
  B = ℕ;
  X = ℕ;
  D = ℕ;
  F = ℕ;
  chc_client_init =
      λ w raw. record { heap = 1 + w; out = none; exc = some 3; rc = pos 7; msg = [] };
  chc_exception_free = λ w x. w - 1;
  exception_at = λ w x. no_raw_exception;
  chc_client_server_info = λ s. none;
  chc_client_send_query = λ s sql id len. record { state = s; rc = pos 0; msg = [] };
  chc_client_send_query_ex = λ s sql raw. record { state = s; rc = pos 0; msg = [] };
  chc_client_send_data = λ s d. record { state = s; rc = pos 0; msg = [] };
  chc_client_send_cancel = λ s. record { state = s; rc = pos 0; msg = [] };
  chc_client_send_ping = λ s. record { state = s; rc = pos 0; msg = [] };
  chc_client_recv_packet =
      λ s. (packet_of (pos 1) (some 7), record { state = 1 + s; rc = pos 0; msg = [] });
  chc_packet_clear = λ s p. s - weigh one (packet_handles header p);
}

rejecting-Opens : Opens header rejecting (λ x. 1) (λ s. 1) (λ w. w)
rejecting-Opens = record {
  init_allocates = λ w raw. omega arith;
  no_connection_on_error = λ w raw ne. refl;
  no_connection_on_exception = λ w raw x e. refl;
  free_frees = λ w x. refl;
}

init_example :
    (init header rejecting 4 opts (some lz4_only)).0
    ≡ gained header rejecting (λ x. 1) (λ s. 1) (init header rejecting 4 opts (some lz4_only)).1 + 4
init_example =
    init-live header rejecting (λ x. 1) (λ s. 1) (λ w. w) rejecting-Opens 4 opts (some lz4_only)

pub rejecting-FreesPackets : FreesPackets header rejecting one (λ s. s)
unfolding PacketKind.from_raw
rejecting-FreesPackets = record { packet_is_new = λ s. refl; packet_frees = λ s p. refl }

-- A block with the torn column, no second column, and no third.
abbrev torn_at : ℕ → Option (RawColumn ℕ)
torn_at zero = some torn
torn_at (suc i) = none

abbrev block : RawBlock ℕ ℕ
block = record {
  n_rows = 2;
  n_columns = 2;
  column_name = λ i. (none, 0);
  column_type = λ i. none;
  column = torn_at;
  is_overflows = false;
  bucket_num = pos 0;
}

validate_example :
    (Decoded.validate header target block ≡ ok tt) ↔ ((j : ℕ) → j < 2 → Passes header (torn_at j))
validate_example = validate_iff header target block
