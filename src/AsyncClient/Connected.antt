-- ===== src/AsyncClient/Connected.antt =====
-- The clients that the constructors of `AsyncClient` give.
use clickhouse_c_rs.Base.{
  ℕ, ◌<◌, ◌≡◌, refl, ◌∙◌, sym, [], Bytes, Option, none, some, inl, inr, replicate,
}
use clickhouse_c_rs.Sys
use clickhouse_c_rs.Error.{Result, ok, err}
use clickhouse_c_rs.Ioless.{Core, pending_out}
use clickhouse_c_rs.Tls.{IoResult}
use clickhouse_c_rs.AsyncClient.{
  Transport, AsyncClient, Run, done, panicked, out_of_fuel, Out, handshake_step, handshake_on,
  read_buf_bytes,
}
use clickhouse_c_rs.AsyncClient.Drain.{IsTransport, IsQueue, Flushed}
use clickhouse_c_rs.AsyncClient.Pump.{Settled, pump_until_ready-Settled}
use clickhouse_c_rs.AsyncClient.Fuel.{Needs, Ended, pump_until_ready-Ended}
use clickhouse_c_rs.AsyncClient.Connect.{
  Sockets, Connector, or_fail, greeted, handshake_with, connect, server_name, handshaken,
  connect_tls,
}

module _ (h : Sys.Header) (k : Core) (t : Transport) (taken passed_on : t.T → Bytes) where
  -- A constructor ends without a panic, and a client it gives has written and flushed all.
  abbrev pub Connected : Run (AsyncClient h k t) → Type 0
  Connected (done (ok c)) = (pending_out h k c.core ≡ []) × Flushed h k t taken passed_on c
  Connected (done (err e)) = Unit {0}
  Connected panicked = ⊥
  Connected out_of_fuel = ⊥

  -- A new transport, which has taken no bytes.
  abbrev pub IsFresh : t.T → Type 0
  IsFresh s = (taken s ≡ []) × (passed_on s ≡ [])

  -- `IolessClient::new` does not panic, and `fuel` is more than its client needs.
  abbrev pub HasFuel : (k.S → ℕ) → ℕ → Option (Result k.S) → Type 0
  HasFuel wanted fuel (some (ok s)) = wanted s < fuel
  HasFuel wanted fuel (some (err e)) = Unit {0}
  HasFuel wanted fuel none = ⊥

  greeted-Connected :
      (out : Out h k t (Unit {0}))
      → Settled h k t taken passed_on (λ u. Unit {0}) out
      → Ended h k t out
      → Connected (greeted h k t out)
  greeted-Connected (c, done (ok u)) settled ended = settled.1
  greeted-Connected (c, done (err e)) settled ended = tt
  greeted-Connected (c, panicked) settled ended = settled
  greeted-Connected (c, out_of_fuel) settled ended = ended

  or_fail-Connected :
      {A : Type 0} (r : Result A) (f : A → Run (AsyncClient h k t))
      → ((a : A) → r ≡ ok a → Connected (f a))
      → Connected (or_fail r f)
  or_fail-Connected (ok a) f fine = fine a refl
  or_fail-Connected (err e) f fine = tt

  module _ (queue : IsQueue h k) (transport : IsTransport t taken passed_on) (wanted : k.S → ℕ)
      (needs : Needs h k t (handshake_step h k t) wanted) where
    handshake_with-Connected :
        (fuel : ℕ) (stream : t.T) (n : ℕ) (created : Option (Result k.S))
        → IsFresh stream
        → HasFuel wanted fuel created
        → Connected (handshake_with h k t fuel stream n created)
    unfolding handshake_on
    handshake_with-Connected fuel stream n none fresh enough = enough
    handshake_with-Connected fuel stream n (some (err e)) fresh enough = tt
    handshake_with-Connected fuel stream n (some (ok s)) fresh enough =
        let c : AsyncClient h k t = record {
          core = s;
          stream = stream;
          read_buf = replicate (read_buf_bytes h k t n) 0;
        } in
        let flushed : Flushed h k t taken passed_on c = fresh.1 ∙ sym fresh.0 in
        greeted-Connected (handshake_on h k t fuel stream n s)
          (pump_until_ready-Settled h k t taken passed_on queue transport (λ u. Unit {0})
            (handshake_step h k t) (λ a s fine. tt) fuel tt c flushed)
          (pump_until_ready-Ended h k t taken passed_on queue transport (handshake_step h k t)
            wanted needs fuel tt c flushed enough)

    handshaken-inr :
        {Tcp : Type 0} (s : Sockets Tcp) (tls : Connector Tcp t.T) (r : IoResult t.T) (stream : t.T)
        → handshaken h k t s tls r ≡ ok stream
        → r ≡ inr stream
    handshaken-inr s tls (inr a) stream e = cc
    handshaken-inr s tls (inl failure) stream e = cc

    secured-Connected :
        (fuel n : ℕ) (created : Option (Result k.S))
        → HasFuel wanted fuel created
        → {Tcp : Type 0} (s : Sockets Tcp) (tls : Connector Tcp t.T) (r : IoResult t.T)
        → ((stream : t.T) → r ≡ inr stream → IsFresh stream)
        → Connected (
            or_fail
              (handshaken h k t s tls r)
              (λ stream. handshake_with h k t fuel stream n created))
    secured-Connected fuel n created enough s tls r fresh =
        or_fail-Connected (handshaken h k t s tls r)
          (λ stream. handshake_with h k t fuel stream n created)
          (λ stream done.
            handshake_with-Connected fuel stream n created
              (fresh stream (handshaken-inr s tls r stream done)) enough)

    -- If the core's queue and the transport behave as documented, `IolessClient::new` does not panic,
    -- and a new client needs less input than there is fuel, then `connect` and `connect_tls` end
    -- without a panic where tokio's new sockets and TLS streams have taken no bytes, and a client they
    -- give has no byte left to write or flush.
    pub connect-Connected :
        (fuel n : ℕ) (created : Option (Result k.S))
        → HasFuel wanted fuel created
        → (s : Sockets t.T) (addr : s.Address)
        → ((sock : t.T) → s.connect addr ≡ ok sock → IsFresh (s.set_nodelay sock).0)
        → {Tcp : Type 0} (s' : Sockets Tcp) (tls : Connector Tcp t.T) (addr' : s'.Address)
          (domain : Bytes) (config : tls.Config)
        → ((name : tls.ServerName) (sock : Tcp) (stream : t.T)
            → tls.connect config name sock ≡ inr stream
            → IsFresh stream)
        → Connected (connect h k t s fuel addr n created)
          × Connected (connect_tls h k t s' tls fuel addr' domain n created config)
    unfolding connect connect_tls
    connect-Connected fuel n created enough s addr fresh s' tls addr' domain config fresh' = (
      or_fail-Connected (s.connect addr)
          (λ sock. handshake_with h k t fuel (s.set_nodelay sock).0 n created)
          (λ sock made.
            handshake_with-Connected fuel (s.set_nodelay sock).0 n created (fresh sock made)
              enough),
      or_fail-Connected (s'.connect addr')
          (λ sock. or_fail (server_name h k t s' tls domain (tls.server_name domain)) (λ name.
            or_fail (handshaken h k t s' tls (tls.connect config name (s'.set_nodelay sock).0))
              (λ stream. handshake_with h k t fuel stream n created)))
          (λ sock made.
            or_fail-Connected (server_name h k t s' tls domain (tls.server_name domain))
              (λ name.
                or_fail (handshaken h k t s' tls (tls.connect config name (s'.set_nodelay sock).0))
                  (λ stream. handshake_with h k t fuel stream n created))
              (λ name is_name.
                secured-Connected fuel n created enough s' tls
                  (tls.connect config name (s'.set_nodelay sock).0)
                  (λ stream done. fresh' name (s'.set_nodelay sock).0 stream done))),
    )
