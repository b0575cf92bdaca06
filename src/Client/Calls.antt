-- ===== src/Client/Calls.antt =====
-- src/client.rs: the operations of the blocking `Client`, over the C connection that it drives.
pub mod Handshake
pub mod Receive
pub mod Session
use clickhouse_c_rs.Base.{ℕ, Bytes, Option, none, some, length}
use clickhouse_c_rs.Base.Int.{ℤ}
use clickhouse_c_rs.Sys
use clickhouse_c_rs.Error.{Result, ok, err, ◌>>=◌, ◌>>◌, check, cstr_array_to_string}
use clickhouse_c_rs.Codec.{Codec}
use clickhouse_c_rs.Query.{QueryOpts, RawQueryOpts, raw_query_opts, id_len}
use clickhouse_c_rs.Client.Event.{Packet, Event, RawException, error_of_exception, from_raw}
use clickhouse_c_rs.Client.Opts.{ClientOpts, RawClientOpts, to_raw, validate_codec}
use clickhouse_c_rs.Ioless.{Returned}

-- `sys::chc_server_info`, whose texts are arrays, and `ServerInfo`.
pub record Info : Type 0 where
  pub name : Bytes
  pub timezone : Bytes
  pub display_name : Bytes
  pub version_major : ℕ
  pub version_minor : ℕ
  pub version_patch : ℕ
  pub revision : ℕ

-- What `chc_client_init` leaves: the C heap, the connection, the server's exception, its return code
-- and the message array.
pub record Initialised (W S X : Type 0) : Type 0 where
  pub heap : W
  pub out : Option S
  pub exc : Option X
  pub rc : ℤ
  pub msg : Bytes

-- The C functions of the blocking client, over the C heap, the state of a connection, the handles of
-- blocks and exceptions, the blocks that are sent, and function pointers.
pub record Connection : Type 1 where
  pub W : Type 0
  pub S : Type 0
  pub B : Type 0
  pub X : Type 0
  pub D : Type 0
  pub F : Type 0
  pub chc_client_init : W → RawClientOpts F → Initialised W S X
  pub chc_exception_free : W → X → W
  pub exception_at : W → X → RawException
  pub chc_client_server_info : S → Option Info
  pub chc_client_send_query : S → Bytes → Option Bytes → ℕ → Returned S
  pub chc_client_send_query_ex : S → Bytes → RawQueryOpts → Returned S
  pub chc_client_send_data : S → Option D → Returned S
  pub chc_client_send_cancel : S → Returned S
  pub chc_client_send_ping : S → Returned S
  pub chc_client_recv_packet : S → Packet B X × Returned S
  pub chc_packet_clear : S → Packet B X → S

-- `ServerInfo::from_raw`.
unfoldable pub server_info_of : Info → Info
server_info_of raw = record raw {
  name = cstr_array_to_string raw.name;
  timezone = cstr_array_to_string raw.timezone;
  display_name = cstr_array_to_string raw.display_name;
}

module _ (h : Sys.Header) (k : Connection) where
  -- The end of `init`; without a result, it panicked.
  abbrev pub connected : Option k.S → Result (Unit {0}) → Option (Result k.S)
  connected out (err e) = some (err e)
  connected (some s) (ok u) = some (ok s)
  connected none (ok u) = none

  -- `init` behind `chc_client_init`.
  abbrev pub greeted : Initialised k.W k.S k.X → Option k.X → k.W × Option (Result k.S)
  greeted r (some exc) =
      (k.chc_exception_free r.heap exc, some (err (error_of_exception (k.exception_at r.heap exc))))
  greeted r none = (r.heap, connected r.out (check h r.rc r.msg))

  abbrev pub opened : k.W → Result (RawClientOpts k.F) → k.W × Option (Result k.S)
  opened w (err e) = (w, some (err e))
  opened w (ok raw) = let r = k.chc_client_init w raw in greeted r r.exc

  unfoldable pub init : k.W → ClientOpts → Option (Codec k.F) → k.W × Option (Result k.S)
  init w opts codec = opened w (validate_codec opts codec >> to_raw h opts codec)

  abbrev map_info : Option Info → Option Info
  map_info none = none
  map_info (some raw) = some (server_info_of raw)

  unfoldable pub server_info : k.S → Option Info
  server_info s = map_info (k.chc_client_server_info s)

  abbrev pub checked : Returned k.S → k.S × Result (Unit {0})
  checked r = (r.state, check h r.rc r.msg)

  unfoldable pub send_query : k.S → Bytes → Option Bytes → k.S × Result (Unit {0})
  send_query s sql query_id = checked (k.chc_client_send_query s sql query_id (id_len query_id))

  -- `send_query_with` behind `RawQueryOpts::new`.
  abbrev pub sent_with : k.S → Bytes → Result RawQueryOpts → k.S × Result (Unit {0})
  sent_with s sql (err e) = (s, err e)
  sent_with s sql (ok raw) = checked (k.chc_client_send_query_ex s sql raw)

  unfoldable pub send_query_with : k.S → Bytes → QueryOpts → k.S × Result (Unit {0})
  send_query_with s sql opts = sent_with s sql (raw_query_opts opts)

  unfoldable pub send_data : k.S → Option k.D → k.S × Result (Unit {0})
  send_data s builder = checked (k.chc_client_send_data s builder)

  unfoldable pub send_cancel : k.S → k.S × Result (Unit {0})
  send_cancel s = checked (k.chc_client_send_cancel s)

  unfoldable pub send_ping : k.S → k.S × Result (Unit {0})
  send_ping s = checked (k.chc_client_send_ping s)

  -- `recv_event` behind its receive.
  abbrev pub received : Packet k.B k.X → k.S → Result (Unit {0}) → k.S × Result (Event k.B k.X)
  received raw s (err e) = (k.chc_packet_clear s raw, err e)
  received raw s (ok u) = let (raw', event) = from_raw h raw in (k.chc_packet_clear s raw', event)

  unfoldable pub recv_event : k.S → k.S × Result (Event k.B k.X)
  recv_event s =
      let (raw, r) = k.chc_client_recv_packet s in received raw r.state (check h r.rc r.msg)
