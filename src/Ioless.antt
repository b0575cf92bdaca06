-- ===== src/Ioless.antt =====
-- src/ioless.rs: the protocol client without transport, over the C core that it drives.
pub mod Handles
pub mod Create
pub mod Returns
pub mod Session
use clickhouse_c_rs.Base.{
  ℕ, Bool, true, false, List, [], ◌∷◌, ◌++◌, Bytes, Option, none, some, length, take, ◌==◌,
  if◌then◌else◌,
}
use clickhouse_c_rs.Base.Int.{ℤ, ◌==ℤ◌}
use clickhouse_c_rs.Sys
use clickhouse_c_rs.Error.{Error, Result, ok, err, check}
use clickhouse_c_rs.Client.Event.{Packet, Event, RawException, error_of_exception, from_raw}

pub data Step (A : Type 0) : Type 0 where
  ready : A → Step A
  needs_input : Step A

unfoldable pub is_ready : {A : Type 0} → Step A → Bool
is_ready (ready a) = true
is_ready needs_input = false

unfoldable pub map_ready : {A C : Type 0} → (A → C) → Step A → Step C
map_ready f (ready a) = ready (f a)
map_ready f needs_input = needs_input

-- What a C call leaves: the client's state, its return code, and the message array.
pub record Returned (S : Type 0) : Type 0 where
  pub state : S
  pub rc : ℤ
  pub msg : Bytes

-- The C functions of the I/O-independent client, over a state, the handles of blocks and of
-- exceptions, and the blocks that are sent. A text is a pointer, null or to bytes, and a length.
pub record Core : Type 1 where
  pub S : Type 0
  pub B : Type 0
  pub X : Type 0
  pub D : Type 0
  pub chc_async_submit : S → Bytes → Returned S
  pub chc_async_pending_out : S → Option Bytes × ℕ
  pub chc_async_consume_out : S → ℕ → S
  pub chc_async_handshake : S → Option X × Returned S
  pub chc_async_send_query : S → Bytes → Option Bytes → ℕ → Returned S
  pub chc_async_send_data : S → Option D → Returned S
  pub chc_async_send_data_end : S → Returned S
  pub chc_async_recv_packet : S → Packet B X × Returned S
  pub chc_async_packet_clear : S → Packet B X → S
  pub chc_exception_free : S → X → S
  -- The memory behind an exception handle.
  pub exception_at : S → X → RawException

-- `check(rc, msg)?; Ok(Step::Ready(()))`.
abbrev pub stepped : Result (Unit {0}) → Result (Step (Unit {0}))
stepped (ok u) = ok (ready u)
stepped (err e) = err e

module _ (h : Sys.Header) where
  -- The function `step`.
  unfoldable pub step : ℤ → Bytes → Result (Step (Unit {0}))
  step rc msg =
      if rc ==ℤ h.code Sys.chc_would_block then ok needs_input else stepped (check h rc msg)

  module _ (k : Core) where
    abbrev checked : Returned k.S → k.S × Result (Unit {0})
    checked r = (r.state, check h r.rc r.msg)

    unfoldable pub submit : k.S → Bytes → k.S × Result (Unit {0})
    submit s input = checked (k.chc_async_submit s input)

    abbrev pub slice_of : Option Bytes × ℕ → Bytes
    slice_of (none, len) = []
    slice_of (some memory, len) = if len == 0 then [] else take len memory

    unfoldable pub pending_out : k.S → Bytes
    pending_out s = slice_of (k.chc_async_pending_out s)

    unfoldable pub consume_out : k.S → ℕ → k.S
    consume_out s n = k.chc_async_consume_out s n

    -- `take_handshake_exception`, after which the exception is dropped, and the rest of `handshake`.
    abbrev pub shaken : Option k.X → Returned k.S → k.S × Result (Step (Unit {0}))
    shaken (some exc) r =
        (k.chc_exception_free r.state exc, err (error_of_exception (k.exception_at r.state exc)))
    shaken none r = (r.state, step r.rc r.msg)

    unfoldable pub handshake : k.S → k.S × Result (Step (Unit {0}))
    handshake s = let (exc, r) = k.chc_async_handshake s in shaken exc r

    abbrev id_len : Option Bytes → ℕ
    id_len none = 0
    id_len (some id) = length id

    unfoldable pub send_query : k.S → Bytes → Option Bytes → k.S × Result (Unit {0})
    send_query s sql query_id = checked (k.chc_async_send_query s sql query_id (id_len query_id))

    unfoldable pub send_data : k.S → Option k.D → k.S × Result (Unit {0})
    send_data s builder = checked (k.chc_async_send_data s builder)

    unfoldable pub send_data_end : k.S → k.S × Result (Unit {0})
    send_data_end s = checked (k.chc_async_send_data_end s)

    -- `event.map(Step::Ready)`, once the packet is cleared.
    abbrev pub ready_event : Result (Event k.B k.X) → Result (Step (Event k.B k.X))
    ready_event (ok e) = ok (ready e)
    ready_event (err e) = err e

    -- `recv_event` behind its test for `CHC_WOULD_BLOCK`.
    abbrev pub received :
        Packet k.B k.X → k.S → Result (Unit {0}) → k.S × Result (Step (Event k.B k.X))
    received raw s (err e) = (k.chc_async_packet_clear s raw, err e)
    received raw s (ok u) =
        let (raw', event) = from_raw h raw in (k.chc_async_packet_clear s raw', ready_event event)

    unfoldable pub recv_event : k.S → k.S × Result (Step (Event k.B k.X))
    recv_event s =
        let (raw, r) = k.chc_async_recv_packet s in
        if r.rc ==ℤ h.code Sys.chc_would_block
        then (r.state, ok needs_input)
        else received raw r.state (check h r.rc r.msg)
