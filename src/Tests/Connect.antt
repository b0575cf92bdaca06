-- ===== src/Tests/Connect.antt =====
-- The constructors of the asynchronous client at a core that a handshake makes ready.
use clickhouse_c_rs.Base.{
  ℕ, zero, suc, ◌≤◌, ◌<◌, ◌≡◌, refl, [], ◌∷◌, ap, Bytes, none, some, inr, arith,
}
use clickhouse_c_rs.Base.Int.{pos}
use clickhouse_c_rs.Error.{check, ok}
use clickhouse_c_rs.Ioless
use clickhouse_c_rs.Ioless.{Core, Returned, Step, needs_input, stepped}
use clickhouse_c_rs.AsyncClient.{handshake_step}
use clickhouse_c_rs.AsyncClient.Drain.{IsQueue}
use clickhouse_c_rs.AsyncClient.Fuel.{Needs}
use clickhouse_c_rs.AsyncClient.Connect.{Sockets, Connector, connect, connect_tls}
use clickhouse_c_rs.AsyncClient.Connected.{Connected, connect-Connected}
use clickhouse_c_rs.Tests.Fixtures.{
  header, toy, Toy, toy-IsQueue, Wire, wire, taken, passed_on, wire-IsTransport,
}

-- The handshake is complete once no input is needed.
abbrev shake_rc : ℕ → ℕ
shake_rc zero = 0
shake_rc (suc n) = 9

abbrev greeter : Core
greeter = record toy {
  chc_async_handshake = λ s. (none, record { state = s; rc = pos (shake_rc s.needed); msg = [] });
}

greeter-IsQueue : IsQueue header greeter
unfolding Ioless.pending_out Ioless.consume_out
greeter-IsQueue = toy-IsQueue

shake_waits :
    (n : ℕ) (s : Toy)
    → n ≡ s.needed
    → Ioless.step header (pos (shake_rc n)) [] ≡ ok needs_input
    → (0 < s.needed) × (s.needed ≤ s.needed)
unfolding check Ioless.step
shake_waits zero s at e = cc
shake_waits (suc n) s at e = (omega arith, omega arith)

greeter-Needs : Needs header greeter wire (handshake_step header greeter wire) (λ s. s.needed)
unfolding Ioless.consume_out Ioless.submit Ioless.handshake
greeter-Needs = record {
  consume_same = λ s n. refl;
  submit_lowers = λ s bytes. omega arith;
  step_waits = λ u s e. shake_waits s.needed s refl e;
}

abbrev new_client : Toy
new_client = record { queued = 5 ∷ 6 ∷ 7 ∷ []; needed = 2; live = 0 }

abbrev sockets : Sockets Wire
sockets = record {
  Address = Bytes;
  connect = λ addr. ok ([], []);
  set_nodelay = λ sock. (sock, ok tt);
}

abbrev connector : Connector Wire Wire
connector = record {
  Config = Unit {0};
  ServerName = Bytes;
  server_name = λ domain. some domain;
  connect = λ config name sock. inr ([], []);
}

connect-Connected_example :
    Connected header greeter wire taken passed_on
      (connect header greeter wire sockets 3 [] 0 (some (ok new_client)))
    × Connected header greeter wire taken passed_on (
        connect_tls header greeter wire sockets connector 3 []
          (104 ∷ [])
          0
          (some (ok new_client))
          tt)
connect-Connected_example =
    connect-Connected header greeter wire taken passed_on greeter-IsQueue wire-IsTransport
      (λ s. s.needed) greeter-Needs 3 0 (some (ok new_client)) (omega arith) sockets []
      (λ sock made. let is : sock ≡ ([], []) = cc made in (ap taken is, ap passed_on is)) sockets
      connector [] (104 ∷ []) tt
      (λ name sock stream done.
        let is : stream ≡ ([], []) = cc done in (ap taken is, ap passed_on is))
