-- ===== src/Tls.antt =====
-- src/tls.rs: the TLS transport and its callbacks. rustls and the socket are a parameter; an I/O error
-- is its displayed text.
pub mod Callbacks
use clickhouse_c_rs.Base.{
  ℕ, ◌⊎◌, inl, inr, Option, none, some, String, List, [], ◌∷◌, ◌++◌, Bytes, ◌==◌, if◌then◌else◌,
}
use mathlib.Core.Option
use clickhouse_c_rs.Base.Int.{ℤ}
use clickhouse_c_rs.BuildScript.Text.{codes}
use clickhouse_c_rs.Sys
use clickhouse_c_rs.Error.{Result, ok, err, new, str, bytes, io, usage, ◌>>=◌}
use clickhouse_c_rs.Error.Message.{copy_message}

abbrev pub IoResult : Type 0 → Type 0
IoResult A = Bytes ⊎ A

-- rustls with its stream over a socket. `read` fills the buffer that it is given.
pub record Rustls : Type 1 where
  pub Config : Type 0
  pub ServerName : Type 0
  pub Conn : Type 0
  pub Tcp : Type 0
  pub Stream : Type 0
  pub server_name : Bytes → Option ServerName
  pub new_connection : Config → ServerName → IoResult Conn
  pub stream : Conn → Tcp → Stream
  pub complete_io : Stream → Stream × IoResult (Unit {0})
  pub read : Stream → Bytes → (Stream × Bytes) × IoResult ℕ
  pub write_all : Stream → Bytes → Stream × IoResult (Unit {0})
  pub flush : Stream → Stream × IoResult (Unit {0})
  pub set_read_timeout : Stream → Option ℕ → Stream × IoResult (Unit {0})

-- The configurations, over a builder of rustls: it fails where the provider does not support the
-- default protocol versions, and then the code panics.
module _ {Provider Roots Config : Type 0} (aws_lc_rs : Provider)
    (build : Provider → Roots → Option Config) where
  unfoldable config_with_roots : Roots → Option Config
  config_with_roots roots = build aws_lc_rs roots

  unfoldable default_config :
      {Anchor : Type 0} → Roots → (Roots → List Anchor → Roots) → List Anchor → Option Config
  unfolding config_with_roots
  default_config empty extend tls_server_roots = config_with_roots (extend empty tls_server_roots)

-- `set_err`, on a C error that may be null: its message array, and the code.
unfoldable pub set_err : Option Bytes → ℤ → Bytes → ℤ × Option Bytes
set_err e code msg = (code, Option.map (λ slots. copy_message slots msg) e)

module _ (h : Sys.Header) (r : Rustls) where
  abbrev pub named : Bytes → Option r.ServerName → Result r.ServerName
  named server_name (some n) = ok n
  named server_name none =
      err (new usage (str "invalid TLS server name: " ∷ bytes server_name ∷ []))

  -- `map_err` to an I/O error behind some text.
  abbrev pub or_io : {A : Type 0} → String → IoResult A → Result A
  or_io before (inr a) = ok a
  or_io before (inl e) = err (new io (str before ∷ bytes e ∷ []))

  -- The handshake is complete when a stream is returned.
  abbrev pub handshaken : r.Stream × IoResult (Unit {0}) → Result r.Stream
  handshaken (s, done) = do u ← or_io "TLS handshake: " done; ok s

  unfoldable pub connect : r.Tcp → Bytes → r.Config → Result r.Stream
  connect tcp server_name config = do
    n ← named server_name (r.server_name server_name)
    conn ← or_io "rustls client: " (r.new_connection config n)
    handshaken (r.complete_io (r.stream conn tcp))

  unfoldable pub set_read_timeout : r.Stream → Option ℕ → r.Stream × Result (Unit {0})
  set_read_timeout s timeout =
      let (s', done) = r.set_read_timeout s timeout in
      (s', elim done [ inr u ↦ ok tt | inl e ↦ err (new io (bytes e ∷ [])) ])

  -- What `tls_read` leaves: the stream, the caller's buffer, count and message array, and the code.
  pub record ReadOutcome : Type 0 where
    pub stream : r.Stream
    pub buf : Bytes
    pub out_n : ℕ
    pub err : Option Bytes
    pub rc : ℤ

  abbrev pub after_read : ℕ → Option Bytes → (r.Stream × Bytes) × IoResult ℕ → ReadOutcome
  after_read out_n e ((s, buf), inr n) = record {
    stream = s;
    buf = buf;
    out_n = n;
    err = e;
    rc = h.code Sys.chc_ok;
  }
  after_read out_n e ((s, buf), inl failure) =
      let (rc, e') = set_err e (h.code Sys.chc_err_io) (codes "tls read: " ++ failure) in
      record { stream = s; buf = buf; out_n = out_n; err = e'; rc = rc }

  -- `buf` is the slice of `len` bytes, and `out_n` the count before the call.
  unfoldable pub tls_read : r.Stream → Bytes → ℕ → ℕ → Option Bytes → ReadOutcome
  unfolding set_err
  tls_read s buf len out_n e =
      if len == 0
      then record { stream = s; buf = buf; out_n = 0; err = e; rc = h.code Sys.chc_ok }
      else after_read out_n e (r.read s buf)

  abbrev pub then_flush : r.Stream × IoResult (Unit {0}) → r.Stream × IoResult (Unit {0})
  then_flush (s, inr u) = r.flush s
  then_flush (s, inl e) = (s, inl e)

  abbrev pub after_write :
      Option Bytes → r.Stream × IoResult (Unit {0}) → r.Stream × ℤ × Option Bytes
  after_write e (s, inr u) = (s, h.code Sys.chc_ok, e)
  after_write e (s, inl failure) =
      let (rc, e') = set_err e (h.code Sys.chc_err_io) (codes "tls write: " ++ failure) in
      (s, rc, e')

  unfoldable pub tls_write : r.Stream → Bytes → Option Bytes → r.Stream × ℤ × Option Bytes
  unfolding set_err
  tls_write s src e = after_write e (then_flush (r.write_all s src))
