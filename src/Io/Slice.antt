-- ===== src/Io/Slice.antt =====
-- src/io.rs: `SliceIo` and its callbacks.
pub mod Reads
use clickhouse_c_rs.Base.{
  ℕ, ◌+◌, ◌-◌, ◌<◌, List, [], ◌∷◌, ◌++◌, Bytes, take, drop, length, min, ltb, if◌then◌else◌, Option,
  none, some, map,
}
use mathlib.Core.Option
use clickhouse_c_rs.Base.Int.{ℤ}
use clickhouse_c_rs.Error.Message.{copy_message}
use clickhouse_c_rs.Sys

pub record SliceIo : Type 0 where
  pub bytes : Bytes
  pub read_at : ℕ

abbrev pub new : Bytes → SliceIo
new bytes = record { bytes = bytes; read_at = 0 }

unfoldable pub remaining : SliceIo → ℕ
remaining io = length io.bytes - io.read_at

-- `copy_nonoverlapping`: the first `n` bytes of the source over the first `n` of the target.
abbrev pub copy_bytes : Bytes → Bytes → ℕ → Bytes
copy_bytes src dst n = take n src ++ drop n dst

-- What a callback leaves behind: the transport, the caller's buffer and count, and the return code.
pub record Outcome : Type 0 where
  pub io : SliceIo
  pub buf : Bytes
  pub out_n : ℕ
  pub rc : ℤ

unfoldable pub slice_read : Sys.Header → SliceIo → Bytes → ℕ → Outcome
slice_read h this buf len =
    let n = min len (length this.bytes - this.read_at) in
    if ltb 0 n
    then record {
      io = record this { read_at = this.read_at + n };
      buf = copy_bytes (drop this.read_at this.bytes) buf n;
      out_n = n;
      rc = h.code Sys.chc_ok;
    }
    else record { io = this; buf = buf; out_n = n; rc = h.code Sys.chc_ok }

-- "slice transport is read-only".
abbrev read_only : Bytes
read_only =
    b's' ∷ b'l' ∷ b'i' ∷ b'c' ∷ b'e' ∷ b' ' ∷ b't' ∷ b'r' ∷ b'a' ∷ b'n' ∷ b's' ∷ b'p' ∷ b'o' ∷ b'r'
    ∷ b't' ∷ b' ' ∷ b'i' ∷ b's' ∷ b' ' ∷ b'r' ∷ b'e' ∷ b'a' ∷ b'd' ∷ b'-' ∷ b'o' ∷ b'n' ∷ b'l'
    ∷ b'y' ∷ []

-- The error slot may be absent; the code is the same.
unfoldable pub slice_write : Sys.Header → Option Bytes → ℤ × Option Bytes
slice_write h err = (h.code Sys.chc_err_io, Option.map (λ msg. copy_message msg read_only) err)
