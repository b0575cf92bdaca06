-- ===== src/Client/Event.antt =====
-- src/client.rs: packets, events and exceptions. Blocks and exceptions that C allocates are handles.
pub mod Ownership
use clickhouse_c_rs.Base.{
  ℕ, Bool, true, false, not, List, [], ◌∷◌, ◌++◌, Bytes, Option, none, some, take, ◌==◌,
  if◌then◌else◌,
}
use clickhouse_c_rs.Base.Int.{ℤ}
use clickhouse_c_rs.Base.Utf8.{from_utf8_lossy}
use clickhouse_c_rs.Sys
use clickhouse_c_rs.Error.{Error, str, int, bytes, Result, ok, err, ◌>>=◌, new, protocol, server}
use clickhouse_c_rs.Client.PacketKind.{
  PacketKind, data_packet, exception, progress, pong, end_of_stream, profile_info, totals, extremes,
  log, table_columns, profile_events, timezone_update,
}
use clickhouse_c_rs.Client.PacketKind

-- `sys::chc_packet_progress` and `Progress` have the same fields, and so have the two below.
pub record Progress : Type 0 where
  pub rows : ℕ
  pub bytes : ℕ
  pub total_rows : ℕ
  pub total_bytes : ℕ
  pub written_rows : ℕ
  pub written_bytes : ℕ
  pub elapsed_ns : ℕ

pub record RawProfile : Type 0 where
  pub rows : ℕ
  pub blocks : ℕ
  pub bytes : ℕ
  pub rows_before_limit : ℕ
  pub applied_limit : ℕ
  pub calculated_rows_before_limit : ℕ

pub record ProfileInfo : Type 0 where
  pub rows : ℕ
  pub blocks : ℕ
  pub bytes : ℕ
  pub rows_before_limit : ℕ
  pub applied_limit : Bool
  pub calculated_rows_before_limit : Bool

-- `ProfileInfo::from_raw`: the flags are bytes in C.
unfoldable pub profile_from_raw : RawProfile → ProfileInfo
profile_from_raw raw = record {
  rows = raw.rows;
  blocks = raw.blocks;
  bytes = raw.bytes;
  rows_before_limit = raw.rows_before_limit;
  applied_limit = not (raw.applied_limit == 0);
  calculated_rows_before_limit = not (raw.calculated_rows_before_limit == 0);
}

-- `sys::chc_exception`: each text is a pointer, null or to memory, and a length.
pub record RawException : Type 0 where
  pub code : ℤ
  pub name : Option Bytes
  pub name_len : ℕ
  pub display_text : Option Bytes
  pub display_text_len : ℕ
  pub stack_trace : Option Bytes
  pub stack_trace_len : ℕ

unfoldable pub cstr_bytes : Option Bytes → ℕ → Bytes
cstr_bytes none len = []
cstr_bytes (some memory) len = if len == 0 then [] else take len memory

-- `From<Exception> for Error`.
unfoldable pub error_of_exception : RawException → Error
error_of_exception exc = record {
  kind = server;
  server_code = exc.code;
  message = bytes (from_utf8_lossy (cstr_bytes exc.display_text exc.display_text_len)) ∷ [];
  server_name = from_utf8_lossy (cstr_bytes exc.name exc.name_len);
}

module _ (B X : Type 0) where
  -- `sys::chc_packet`: the kind selects the member of the payload union that is read.
  pub record Packet : Type 0 where
    pub kind : ℤ
    pub block : Option B
    pub exception : Option X
    pub progress : Progress
    pub profile : RawProfile

  pub data Event : Type 0 where
    data_event : B → Event
    totals_event : B → Event
    extremes_event : B → Event
    log_event : B → Event
    profile_events_event : B → Event
    exception_event : X → Event
    progress_event : Progress → Event
    profile_info_event : ProfileInfo → Event
    pong_event : Event
    end_of_stream_event : Event
    table_columns_event : Event
    timezone_update_event : Event

-- `ok_or_else`.
abbrev pub or_missing : {A : Type 0} → Option A → Error → Result A
or_missing none e = err e
or_missing (some a) e = ok a

module _ {B X : Type 0} where
  -- `take_block`: the packet's pointer is nulled, and the handle goes out.
  unfoldable pub take_block : Packet B X → Packet B X × Result B
  take_block raw = (
    record raw { block = none },
    or_missing raw.block (new protocol (str "block packet missing block" ∷ [])),
  )

  -- The early return on a null pointer leaves the packet, whose pointer is null already.
  abbrev taken_exception : Packet B X → Option X → Packet B X × Result X
  taken_exception raw none =
      (raw, err (new protocol (str "exception packet missing exception" ∷ [])))
  taken_exception raw (some p) = (record raw { exception = none }, ok p)

  unfoldable pub take_exception : Packet B X → Packet B X × Result X
  take_exception raw = taken_exception raw raw.exception

  -- `take(…)?` under a constructor of `Event`.
  abbrev pub wrap :
      {A : Type 0} → (A → Event B X) → Packet B X × Result A → Packet B X × Result (Event B X)
  wrap f (raw, ok a) = (raw, ok (f a))
  wrap f (raw, err e) = (raw, err e)

  abbrev pub event_of_kind : PacketKind → Packet B X → Packet B X × Result (Event B X)
  event_of_kind data_packet raw = wrap data_event (take_block raw)
  event_of_kind totals raw = wrap totals_event (take_block raw)
  event_of_kind extremes raw = wrap extremes_event (take_block raw)
  event_of_kind log raw = wrap log_event (take_block raw)
  event_of_kind profile_events raw = wrap profile_events_event (take_block raw)
  event_of_kind exception raw = wrap exception_event (take_exception raw)
  event_of_kind progress raw = (raw, ok (progress_event raw.progress))
  event_of_kind profile_info raw = (raw, ok (profile_info_event (profile_from_raw raw.profile)))
  event_of_kind pong raw = (raw, ok pong_event)
  event_of_kind end_of_stream raw = (raw, ok end_of_stream_event)
  event_of_kind table_columns raw = (raw, ok table_columns_event)
  event_of_kind timezone_update raw = (raw, ok timezone_update_event)

  abbrev pub event_of : Option PacketKind → Packet B X → Packet B X × Result (Event B X)
  event_of none raw = (raw, err (new protocol (str "unknown server packet " ∷ int raw.kind ∷ [])))
  event_of (some kind) raw = event_of_kind kind raw

  -- `Event::from_raw`: the packet afterwards, and the event.
  unfoldable pub from_raw : Sys.Header → Packet B X → Packet B X × Result (Event B X)
  unfolding take_block take_exception
  from_raw h raw = event_of (PacketKind.from_raw h raw.kind) raw
