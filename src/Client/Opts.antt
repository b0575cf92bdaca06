-- ===== src/Client/Opts.antt =====
-- src/client.rs: `ClientOpts`. A pointer into an owned `CString` is the CString's place.
pub mod Strings
pub mod Codecs
pub mod Setters
use clickhouse_c_rs.Base.{
  ℕ, List, [], ◌∷◌, ◌++◌, Bytes, Option, none, some, length, String, if◌then◌else◌,
}
use clickhouse_c_rs.Base.Int.{ℤ}
use clickhouse_c_rs.Sys
use clickhouse_c_rs.Error.{Message, str, Result, ok, err, ◌>>=◌, new, usage}
use clickhouse_c_rs.Codec.{Compression, Codec, discriminant, debug, supports}
use clickhouse_c_rs.Query.{cstring}

pub record ClientOpts : Type 0 where
  pub client_name : Option Bytes
  pub database : Option Bytes
  pub user : Option Bytes
  pub password : Option Bytes
  pub client_version_major : ℕ
  pub client_version_minor : ℕ
  pub client_version_patch : ℕ
  pub compression : Compression
  pub read_buffer_bytes : ℕ

-- `RawClientOpts`: `sys::chc_client_opts` and what its pointers reach.
pub record RawClientOpts (F : Type 0) : Type 0 where
  pub owned : List Bytes
  pub client_name : Option ℕ
  pub client_version_major : ℕ
  pub client_version_minor : ℕ
  pub client_version_patch : ℕ
  pub database : Option ℕ
  pub user : Option ℕ
  pub password : Option ℕ
  pub compression : ℤ
  pub codec : Option (Codec F)
  pub read_buffer_bytes : ℕ

-- The closure `field`, with the vector that it pushes to.
unfoldable pub field : List Bytes → Message → Option Bytes → Result (List Bytes × Option ℕ)
field owned label none = ok (owned, none)
field owned label (some value) = do
  text ← cstring label value
  ok (owned ++ text ∷ [], some (length owned))

module _ {F : Type 0} where
  unfoldable pub to_raw : Sys.Header → ClientOpts → Option (Codec F) → Result (RawClientOpts F)
  to_raw h opts codec = do
    client_name ← field [] (str "client name" ∷ []) opts.client_name
    database ← field client_name.0 (str "database" ∷ []) opts.database
    user ← field database.0 (str "user" ∷ []) opts.user
    password ← field user.0 (str "password" ∷ []) opts.password
    ok (record {
      owned = password.0;
      client_name = client_name.1;
      client_version_major = opts.client_version_major;
      client_version_minor = opts.client_version_minor;
      client_version_patch = opts.client_version_patch;
      database = database.1;
      user = user.1;
      password = password.1;
      compression = h.compression (discriminant opts.compression);
      codec = codec;
      read_buffer_bytes = opts.read_buffer_bytes;
    })

  -- `validate_codec` behind its early return.
  abbrev pub support : Compression → Option (Codec F) → Result (Unit {0})
  support c none = err (new usage (str (debug c) ∷ str " compression requires a codec" ∷ []))
  support c (some codec) =
      if supports codec c
      then ok tt
      else err (new usage (str "codec does not support " ∷ str (debug c) ∷ str " compression" ∷ []))

  abbrev pub validate : Compression → Option (Codec F) → Result (Unit {0})
  validate Compression.none codec = ok tt
  validate c codec = support c codec

  unfoldable pub validate_codec : ClientOpts → Option (Codec F) → Result (Unit {0})
  validate_codec opts codec = validate opts.compression codec
