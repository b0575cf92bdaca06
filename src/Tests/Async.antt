-- ===== src/Tests/Async.antt =====
-- The clients, with and without a transport, at concrete inputs.
use clickhouse_c_rs.Base.{
  ℕ, zero, suc, ◌+◌, ◌≤◌, ◌<◌, ◌≡◌, refl, [], ◌∷◌, Bytes, min, length, none, some, arith,
}
use clickhouse_c_rs.Error.{check, Result, ok}
use clickhouse_c_rs.Ioless
use clickhouse_c_rs.Ioless.{Step, ready, needs_input}
use clickhouse_c_rs.Ioless.Handles.{weigh, step_handles, recv_event-live}
use clickhouse_c_rs.AsyncClient
use clickhouse_c_rs.AsyncClient.{AsyncClient, Closure, drain_out, pump_until_ready}
use clickhouse_c_rs.AsyncClient.Drain.{stream_bytes, Drained, drain_out-Drained}
use clickhouse_c_rs.AsyncClient.Sends.{Sent, send-Sent}
use clickhouse_c_rs.AsyncClient.Pump.{Settled, Stores, pump_until_ready-Settled, recv_event-Settled}
use clickhouse_c_rs.AsyncClient.Progress.{
  MakesProgress, Accepts, Succeeds, pump_until_ready-Succeeds,
}
use clickhouse_c_rs.AsyncClient.Fuel.{Needs, Ended, pump_until_ready-Ended}
use clickhouse_c_rs.Tests.Fixtures.{
  header, toy, Toy, one, toy-Frees, toy-IsQueue, wire, taken, passed_on, wire-IsTransport,
}

abbrev start : Toy
start = record { queued = 5 ∷ 6 ∷ 7 ∷ []; needed = 2; live = 4 }

-- Three bytes are queued, one was passed on, and a block needs two bytes of input.
abbrev client : AsyncClient header toy wire
client = record { core = start; stream = (1 ∷ [], 1 ∷ []); read_buf = 0 ∷ 0 ∷ 0 ∷ 0 ∷ [] }

abbrev all : Bytes
all = stream_bytes header toy wire taken passed_on client

drain_out_example : Drained header toy wire taken passed_on all (drain_out header toy wire client)
drain_out_example =
    drain_out-Drained header toy wire taken passed_on toy-IsQueue wire-IsTransport client refl

send_example :
    Sent header toy wire taken passed_on
      (λ s. Ioless.send_query header toy s (8 ∷ 9 ∷ []) (some (3 ∷ [])))
      all
      (AsyncClient.send_query header toy wire client (8 ∷ 9 ∷ []) (some (3 ∷ [])))
    × Sent header toy wire taken passed_on
        (λ s. Ioless.send_data header toy s none)
        all
        (AsyncClient.send_data header toy wire client none)
    × Sent header toy wire taken passed_on
        (λ s. Ioless.send_data_end header toy s)
        all
        (AsyncClient.send_data_end header toy wire client)
send_example =
    send-Sent header toy wire taken passed_on toy-IsQueue wire-IsTransport client (8 ∷ 9 ∷ [])
      (some (3 ∷ [])) none refl

-- A closure that counts its calls, and is ready once no input is needed.
abbrev count_at : ℕ → ℕ → Toy → (ℕ × Toy) × Result (Step (Unit {0}))
count_at zero calls s = ((1 + calls, s), ok (ready tt))
count_at (suc n) calls s = ((1 + calls, s), ok needs_input)

abbrev count : Closure header toy wire ℕ
count calls s = count_at s.needed calls s

count_at_counts :
    (n calls : ℕ) (s : Toy) → (count_at n calls s).1 ≡ ok (ready tt) → 0 < (count_at n calls s).0.0
count_at_counts zero calls s e = omega arith
count_at_counts (suc n) calls s e = omega arith

count_counts : Stores header toy wire taken passed_on (λ n. 0 < n) count
count_counts calls s e = count_at_counts s.needed calls s e

pump_example :
    Settled header toy wire taken passed_on
      (λ n. 0 < n)
      (pump_until_ready header toy wire 5 count 0 client)
pump_example =
    pump_until_ready-Settled header toy wire taken passed_on toy-IsQueue wire-IsTransport
      (λ n. 0 < n) count count_counts 5 0 client refl

recv_event_example :
    Settled header toy wire taken passed_on
      (λ e. Unit {0})
      (AsyncClient.recv_event header toy wire 5 client)
recv_event_example =
    recv_event-Settled header toy wire taken passed_on toy-IsQueue wire-IsTransport 5 client refl

count_at_waits :
    (n calls : ℕ) (s : Toy)
    → n ≡ s.needed
    → (count_at n calls s).1 ≡ ok needs_input
    → (0 < (count_at n calls s).0.1.needed) × ((count_at n calls s).0.1.needed ≤ s.needed)
count_at_waits zero calls s at e = cc
count_at_waits (suc n) calls s at e = (omega arith, omega arith)

count-Needs : Needs header toy wire count (λ s. s.needed)
unfolding Ioless.consume_out Ioless.submit
count-Needs = record {
  consume_same = λ s n. refl;
  submit_lowers = λ s bytes. omega arith;
  step_waits = λ calls s e. count_at_waits s.needed calls s refl e;
}

enough_fuel_example : Ended header toy wire (pump_until_ready header toy wire 3 count 0 client)
enough_fuel_example =
    pump_until_ready-Ended header toy wire taken passed_on toy-IsQueue wire-IsTransport count
      (λ s. s.needed) count-Needs 3 0 client refl (omega arith)

wire-MakesProgress : MakesProgress wire
wire-MakesProgress = record {
  writes = λ s b bs. (min 2 (suc (length bs)), refl, omega arith);
  flushes = λ s. refl;
  reads = λ s buf space. (min 1 (length buf), refl, omega arith, omega arith, refl);
}

count_at_steps : (n calls : ℕ) (s : Toy) → (x : Step (Unit {0})) × ((count_at n calls s).1 ≡ ok x)
count_at_steps zero calls s = (ready tt, refl)
count_at_steps (suc n) calls s = (needs_input, refl)

count-Accepts : Accepts header toy wire count
unfolding Ioless.submit check
count-Accepts = record {
  submits = λ s bytes. refl;
  steps = λ calls s. count_at_steps s.needed calls s;
}

pump-Succeeds_example :
    Succeeds header toy wire taken passed_on
      (λ n. 0 < n)
      (pump_until_ready header toy wire 3 count 0 client)
pump-Succeeds_example =
    pump_until_ready-Succeeds header toy wire wire-MakesProgress count count-Accepts taken passed_on
      toy-IsQueue wire-IsTransport (λ s. s.needed) count-Needs (λ n. 0 < n) count_counts 3 0 client
      (omega arith) refl (omega arith)

abbrev fed : Toy
fed = record { queued = []; needed = 0; live = 4 }

recv_event_live_example :
    (Ioless.recv_event header toy fed).0.live
    ≡ weigh one (step_handles (Ioless.recv_event header toy fed).1) + 4
recv_event_live_example = recv_event-live header toy one (λ s. s.live) toy-Frees fed
