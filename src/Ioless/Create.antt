-- ===== src/Ioless/Create.antt =====
-- src/ioless.rs: how an `IolessClient` comes to be, and what it says of its server.
use clickhouse_c_rs.Base.{Bytes, Option, none, some}
use mathlib.Core.Option
use clickhouse_c_rs.Base.Int.{ℤ}
use clickhouse_c_rs.Sys
use clickhouse_c_rs.Error.{Result, ok, err, check, ◌>>◌}
use clickhouse_c_rs.Codec.{Codec}
use clickhouse_c_rs.Client.Calls.{Info, server_info_of}
use clickhouse_c_rs.Client.Opts.{ClientOpts, RawClientOpts, to_raw, validate_codec}
use clickhouse_c_rs.Ioless.{Step, ready, needs_input}

-- `Step::ready`.
unfoldable pub ready_value : {A : Type 0} → Step A → Option A
ready_value (ready a) = some a
ready_value needs_input = none

-- What `chc_async_client_init` leaves: the C heap, the client, its return code and the message array.
pub record Created (W S : Type 0) : Type 0 where
  pub heap : W
  pub out : Option S
  pub rc : ℤ
  pub msg : Bytes

-- The C functions that make, ask and free a client, over the C heap.
pub record Clients : Type 1 where
  pub W : Type 0
  pub S : Type 0
  pub F : Type 0
  pub chc_async_client_init : W → RawClientOpts F → Created W S
  pub chc_async_server_info : S → Option Info
  pub chc_async_client_free : W → S → W

module _ (h : Sys.Header) (k : Clients) where
  -- Without a result, `new` panicked.
  abbrev pub created : Result (Unit {0}) → Option k.S → Option (Result k.S)
  created (err e) out = some (err e)
  created (ok u) (some s) = some (ok s)
  created (ok u) none = none

  abbrev pub initialised : k.W → Result (RawClientOpts k.F) → k.W × Option (Result k.S)
  initialised w (err e) = (w, some (err e))
  initialised w (ok raw) =
      let c = k.chc_async_client_init w raw in (c.heap, created (check h c.rc c.msg) c.out)

  unfoldable pub new : k.W → ClientOpts → Option (Codec k.F) → k.W × Option (Result k.S)
  new w opts codec = initialised w (validate_codec opts codec >> to_raw h opts codec)

  unfoldable pub server_info : k.S → Option Info
  server_info s = Option.map server_info_of (k.chc_async_server_info s)

  unfoldable pub drop : k.W → k.S → k.W
  drop w s = k.chc_async_client_free w s
