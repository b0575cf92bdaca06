-- ===== src/AsyncClient.antt =====
-- src/async_client.rs: the client over an asynchronous transport. Each await runs to its end; the
-- loops run on fuel.
pub mod Connect
pub mod Connected
pub mod Drain
pub mod Fuel
pub mod Progress
pub mod Pump
pub mod Sends
use clickhouse_c_rs.Base.{
  ℕ, zero, suc, Bool, true, false, List, [], ◌∷◌, Bytes, Option, none, some, length, take, ◌==◌,
  if◌then◌else◌, replicate, ltb,
}
use clickhouse_c_rs.Sys
use clickhouse_c_rs.Error.{Error, str, Result, ok, err, new, io, eof}
use clickhouse_c_rs.Client.Event.{Event}
use clickhouse_c_rs.Ioless
use clickhouse_c_rs.Ioless.{Core, Step, ready, needs_input}

-- An `AsyncTransport`, its errors converted to the crate's. `read` also leaves the read buffer.
pub record Transport : Type 1 where
  pub T : Type 0
  pub write : T → Bytes → T × Result ℕ
  pub flush : T → T × Result (Unit {0})
  pub read : T → Bytes → (T × Bytes) × Result ℕ

-- How a run of asynchronous code ends.
pub data Run (A : Type 0) : Type 0 where
  done : Result A → Run A
  panicked : Run A
  out_of_fuel : Run A

abbrev default_read_buf_bytes : ℕ
default_read_buf_bytes = 8192

abbrev pub zero_write : Error
zero_write = new io (str "transport write returned zero" ∷ [])

abbrev pub transport_closed : Error
transport_closed = new eof (str "transport closed" ∷ [])

abbrev pub is_empty : Bytes → Bool
is_empty [] = true
is_empty (b ∷ bs) = false

module _ (h : Sys.Header) (k : Core) (t : Transport) where
  pub record AsyncClient : Type 0 where
    pub core : k.S
    pub stream : t.T
    pub read_buf : Bytes

  abbrev pub Out : Type 0 → Type 0
  Out A = AsyncClient × Run A

  -- The operator `?` after an await, and what follows it.
  abbrev pub and_then : {A C : Type 0} → Out A → (AsyncClient → A → Out C) → Out C
  and_then (c, done (ok a)) f = f c a
  and_then (c, done (err e)) f = (c, done (err e))
  and_then (c, panicked) f = (c, panicked)
  and_then (c, out_of_fuel) f = (c, out_of_fuel)

  abbrev pub on_core : {A : Type 0} → AsyncClient → k.S × Result A → Out A
  on_core c (s, r) = (record c { core = s }, done r)

  -- `drain_out` after its loop.
  abbrev pub flush_if : Bool → AsyncClient → Out (Unit {0})
  flush_if false c = (c, done (ok tt))
  flush_if true c = let (s, r) = t.flush c.stream in (record c { stream = s }, done r)

  -- An iteration of `drain_out` after its write, with what the loop goes on to do.
  abbrev pub after_write : (AsyncClient → Out (Unit {0})) → AsyncClient → Result ℕ → Out (Unit {0})
  after_write again c (err e) = (c, done (err e))
  after_write again c (ok n) =
      if n == 0
      then (c, done (err zero_write))
      else again (record c { core = Ioless.consume_out h k c.core n })

  abbrev pub write_some : (AsyncClient → Out (Unit {0})) → AsyncClient → Bytes → Out (Unit {0})
  write_some again c buf =
      let (s, r) = t.write c.stream buf in after_write again (record c { stream = s }) r

  unfoldable pub drain_loop : ℕ → Bool → AsyncClient → Out (Unit {0})
  drain_loop zero wrote c = (c, out_of_fuel)
  drain_loop (suc fuel) wrote c =
      let buf = Ioless.pending_out h k c.core in
      if is_empty buf then flush_if wrote c else write_some (drain_loop fuel true) c buf

  -- One iteration more than there are bytes to write.
  unfoldable pub drain_out : AsyncClient → Out (Unit {0})
  drain_out c = drain_loop (suc (length (Ioless.pending_out h k c.core))) false c

  -- `read_more` after its read.
  abbrev pub after_read : AsyncClient → Result ℕ → Out (Unit {0})
  after_read c (err e) = (c, done (err e))
  after_read c (ok n) =
      if n == 0
      then (c, done (err transport_closed))
      else if ltb (length c.read_buf) n
      then (c, panicked)
      else on_core c (Ioless.submit h k c.core (take n c.read_buf))

  unfoldable pub read_more : AsyncClient → Out (Unit {0})
  read_more c =
      let ((s, buf), r) = t.read c.stream c.read_buf in
      after_read (record c { stream = s; read_buf = buf }) r

  -- A step of `pump_until_ready`, a closure over a variable of type `A`.
  abbrev pub Closure : Type 0 → Type 0
  Closure A = A → k.S → (A × k.S) × Result (Step (Unit {0}))

  module _ {A : Type 0} where
    -- An iteration of `pump_until_ready` after its step.
    abbrev pub after_step :
        (A → AsyncClient → Out A) → A → AsyncClient → Result (Step (Unit {0})) → Out A
    after_step again a c (err e) = (c, done (err e))
    after_step again a c (ok (ready u)) = and_then (drain_out c) (λ c u. (c, done (ok a)))
    after_step again a c (ok needs_input) =
        and_then (drain_out c) (λ c u. and_then (read_more c) (λ c u. again a c))

    abbrev pub take_step : (A → AsyncClient → Out A) → Closure A → A → AsyncClient → Out A
    take_step again step a c =
        let ((a', s), r) = step a c.core in after_step again a' (record c { core = s }) r

    -- A success gives the closure's variable.
    unfoldable pub pump_until_ready : ℕ → Closure A → A → AsyncClient → Out A
    pump_until_ready zero step a c = (c, out_of_fuel)
    pump_until_ready (suc fuel) step a c =
        and_then (drain_out c) (λ c u. take_step (pump_until_ready fuel step) step a c)

  abbrev pub handshake_step : Closure (Unit {0})
  handshake_step u s = let (s, r) = Ioless.handshake h k s in ((u, s), r)

  abbrev read_buf_bytes : ℕ → ℕ
  read_buf_bytes n = if n == 0 then default_read_buf_bytes else n

  -- From the result of `IolessClient::new`; `read_buffer_bytes` is the field of the options.
  unfoldable pub handshake_on : ℕ → t.T → ℕ → k.S → Out (Unit {0})
  handshake_on fuel stream read_buffer_bytes core =
      pump_until_ready fuel handshake_step tt (record {
        core = core;
        stream = stream;
        read_buf = replicate (read_buf_bytes read_buffer_bytes) 0;
      })

  -- The shape of the three send methods.
  abbrev pub drained : (k.S → k.S × Result (Unit {0})) → AsyncClient → Out (Unit {0})
  drained send c =
      and_then (drain_out c) (λ c u. and_then (on_core c (send c.core)) (λ c u. drain_out c))

  unfoldable pub send_query : AsyncClient → Bytes → Option Bytes → Out (Unit {0})
  send_query c sql query_id = drained (λ s. Ioless.send_query h k s sql query_id) c

  unfoldable pub send_data : AsyncClient → Option k.D → Out (Unit {0})
  send_data c builder = drained (λ s. Ioless.send_data h k s builder) c

  unfoldable pub send_data_end : AsyncClient → Out (Unit {0})
  send_data_end c = drained (λ s. Ioless.send_data_end h k s) c

  -- The closure of `recv_event`, over its variable `event`.
  abbrev pub store :
      Option (Event k.B k.X)
      → k.S × Result (Step (Event k.B k.X))
      → (Option (Event k.B k.X) × k.S) × Result (Step (Unit {0}))
  store event (s, ok (ready e)) = ((some e, s), ok (ready tt))
  store event (s, ok needs_input) = ((event, s), ok needs_input)
  store event (s, err e) = ((event, s), err e)

  abbrev pub recv_step : Closure (Option (Event k.B k.X))
  recv_step event s = store event (Ioless.recv_event h k s)

  -- `event.expect(…)`.
  abbrev pub expect : {A : Type 0} → AsyncClient → Option A → Out A
  expect c (some a) = (c, done (ok a))
  expect c none = (c, panicked)

  unfoldable pub recv_event : ℕ → AsyncClient → Out (Event k.B k.X)
  recv_event fuel c = and_then (pump_until_ready fuel recv_step none c) expect
