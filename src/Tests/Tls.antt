-- ===== src/Tests/Tls.antt =====
-- The TLS callbacks over a stand-in for rustls.
use clickhouse_c_rs.Base.{ℕ, inl, inr, [], ◌∷◌, ◌++◌, Bytes, some, length, min}
use clickhouse_c_rs.BuildScript.Text.{codes}
use clickhouse_c_rs.Tls.{Rustls, IoResult}

-- A read fails until something was written.
abbrev answer : Bytes → Bytes → IoResult ℕ
answer [] buf = inl (codes "reset")
answer (b ∷ bs) buf = inr (min 1 (length buf))

abbrev toy : Rustls
toy = record {
  Config = Unit {0};
  ServerName = Bytes;
  Conn = Unit {0};
  Tcp = Unit {0};
  Stream = Bytes × Bytes;
  server_name = λ name. some name;
  new_connection = λ config name. inr tt;
  stream = λ conn tcp. ([], []);
  complete_io = λ s. (s, inr tt);
  read = λ s buf. ((s, buf), answer s.0 buf);
  write_all = λ s src. ((s.0 ++ src, s.1), inr tt);
  flush = λ s. ((s.0, s.0), inr tt);
  set_read_timeout = λ s timeout. (s, inr tt);
}

abbrev slots : Bytes
slots = 0 ∷ 0 ∷ 0 ∷ 0 ∷ []
