-- ===== src/AsyncClient/Connect.antt =====
-- src/async_client.rs: the constructors of `AsyncClient`, over the sockets of tokio and the TLS streams
-- of tokio_rustls, and what it says of its server.
use clickhouse_c_rs.Base.{ℕ, Bytes, Option, none, some, inl, inr, [], ◌∷◌}
use clickhouse_c_rs.Sys
use clickhouse_c_rs.Error.{Result, ok, err, new, str, bytes, io, usage}
use clickhouse_c_rs.Client.Calls.{Info}
use clickhouse_c_rs.Ioless.{Core}
use clickhouse_c_rs.Tls.{IoResult}
use clickhouse_c_rs.AsyncClient.{
  Transport, AsyncClient, Run, done, panicked, out_of_fuel, Out, handshake_on,
}

-- tokio's sockets, whose errors are converted to the crate's.
pub record Sockets (Tcp : Type 0) : Type 1 where
  pub Address : Type 0
  pub connect : Address → Result Tcp
  pub set_nodelay : Tcp → Tcp × Result (Unit {0})

-- tokio_rustls, over sockets.
pub record Connector (Tcp Stream : Type 0) : Type 1 where
  pub Config : Type 0
  pub ServerName : Type 0
  pub server_name : Bytes → Option ServerName
  pub connect : Config → ServerName → Tcp → IoResult Stream

-- The operator `?` in a constructor.
abbrev pub or_fail : {A C : Type 0} → Result A → (A → Run C) → Run C
or_fail (ok a) f = f a
or_fail (err e) f = done (err e)

module _ (h : Sys.Header) (k : Core) (t : Transport) where
  -- The client of a handshake that succeeded.
  abbrev pub greeted : Out h k t (Unit {0}) → Run (AsyncClient h k t)
  greeted (c, done (ok u)) = done (ok c)
  greeted (c, done (err e)) = done (err e)
  greeted (c, panicked) = panicked
  greeted (c, out_of_fuel) = out_of_fuel

  -- `created` is how `IolessClient::new` ends.
  abbrev pub handshake_with : ℕ → t.T → ℕ → Option (Result k.S) → Run (AsyncClient h k t)
  handshake_with fuel stream read_buffer_bytes none = panicked
  handshake_with fuel stream read_buffer_bytes (some created) =
      or_fail created (λ core. greeted (handshake_on h k t fuel stream read_buffer_bytes core))

  unfoldable pub connect :
      (s : Sockets t.T) → ℕ → s.Address → ℕ → Option (Result k.S) → Run (AsyncClient h k t)
  connect s fuel addr read_buffer_bytes created =
      or_fail (s.connect addr)
        (λ sock. handshake_with fuel (s.set_nodelay sock).0 read_buffer_bytes created)

  module _ {Tcp : Type 0} (s : Sockets Tcp) (tls : Connector Tcp t.T) where
    abbrev pub server_name : Bytes → Option tls.ServerName → Result tls.ServerName
    server_name domain (some n) = ok n
    server_name domain none = err (new usage (str "invalid TLS server name: " ∷ bytes domain ∷ []))

    abbrev pub handshaken : IoResult t.T → Result t.T
    handshaken (inr stream) = ok stream
    handshaken (inl e) = err (new io (str "TLS handshake: " ∷ bytes e ∷ []))

    unfoldable pub connect_tls :
        ℕ → s.Address → Bytes → ℕ → Option (Result k.S) → tls.Config → Run (AsyncClient h k t)
    connect_tls fuel addr domain read_buffer_bytes created config =
        or_fail (s.connect addr) (λ sock.
          or_fail (server_name domain (tls.server_name domain)) (λ n.
            or_fail (handshaken (tls.connect config n (s.set_nodelay sock).0))
              (λ stream. handshake_with fuel stream read_buffer_bytes created)))

  -- `ask` is `IolessClient::server_info`.
  unfoldable pub server_info : (k.S → Option Info) → AsyncClient h k t → Option Info
  server_info ask c = ask c.core

  unfoldable pub core : AsyncClient h k t → k.S
  core c = c.core
