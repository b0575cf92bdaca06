-- ===== src/Client/Opts/Setters.antt =====
-- src/client.rs: `ClientOpts::new` and its builder methods.
use clickhouse_c_rs.Base.{ℕ, Bytes, none, some}
use clickhouse_c_rs.Codec.{Compression}
use clickhouse_c_rs.Client.Opts.{ClientOpts}

-- The derived `Default`; that of `Compression` is `None`.
unfoldable pub new : ClientOpts
new = record {
  client_name = none;
  database = none;
  user = none;
  password = none;
  client_version_major = 0;
  client_version_minor = 0;
  client_version_patch = 0;
  compression = Compression.none;
  read_buffer_bytes = 0;
}

unfoldable pub client_name : ClientOpts → Bytes → ClientOpts
client_name opts s = record opts { client_name = some s }

unfoldable pub database : ClientOpts → Bytes → ClientOpts
database opts s = record opts { database = some s }

unfoldable pub user : ClientOpts → Bytes → ClientOpts
user opts s = record opts { user = some s }

unfoldable pub password : ClientOpts → Bytes → ClientOpts
password opts s = record opts { password = some s }

unfoldable pub client_version : ClientOpts → ℕ → ℕ → ℕ → ClientOpts
client_version opts major minor patch = record opts {
  client_version_major = major;
  client_version_minor = minor;
  client_version_patch = patch;
}

unfoldable pub compression : ClientOpts → Compression → ClientOpts
compression opts c = record opts { compression = c }
