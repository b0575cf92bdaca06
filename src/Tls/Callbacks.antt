-- ===== src/Tls/Callbacks.antt =====
-- What the TLS callbacks promise the C client, and what the crate makes of their failures.
use clickhouse_c_rs.Base.{
  ℕ, ◌-◌, ◌≤◌, ◌≡◌, ◌⊎◌, inl, inr, [], ◌∷◌, ◌++◌, Bytes, Option, some, length, take, min,
}
use clickhouse_c_rs.Base.Int.{ℤ}
use clickhouse_c_rs.Base.Utf8.{from_utf8_lossy}
use clickhouse_c_rs.BuildScript.Text.{codes}
use clickhouse_c_rs.Sys
use clickhouse_c_rs.Error.{err, new, bytes, io, check}
use clickhouse_c_rs.Error.Message.{NoNul}
use clickhouse_c_rs.Tls.{Rustls, ReadOutcome}

-- What rustls documents: `taken` is what the stream took to encrypt, and `passed_on` what of it has
-- gone out to the socket. A text of an error has no NUL.
pub record IsRustls (r : Rustls) (taken passed_on : r.Stream → Bytes) : Type 0 where
  pub read_fits : (s : r.Stream) (buf : Bytes) (n : ℕ) → (r.read s buf).1 ≡ inr n → n ≤ length buf
  pub read_text : (s : r.Stream) (buf e : Bytes) → (r.read s buf).1 ≡ inl e → NoNul e
  pub write_takes :
      (s : r.Stream) (src : Bytes)
      → (r.write_all s src).1 ≡ inr tt
      → taken (r.write_all s src).0 ≡ taken s ++ src
  pub write_text : (s : r.Stream) (src e : Bytes) → (r.write_all s src).1 ≡ inl e → NoNul e
  pub flush_passes_on :
      (s : r.Stream)
      → (r.flush s).1 ≡ inr tt
      → (taken (r.flush s).0 ≡ taken s) × (passed_on (r.flush s).0 ≡ taken s)
  pub flush_text : (s : r.Stream) (e : Bytes) → (r.flush s).1 ≡ inl e → NoNul e

module _ (h : Sys.Header) where
  -- A callback failed with the text of an I/O error: of the code and the message array that it
  -- leaves, `check` makes an error with as much of the text, behind `before`, as the array has room
  -- for, and what is not UTF-8 replaced.
  abbrev pub Reports : Bytes → Bytes → ℤ → Bytes → Bytes → Type 0
  Reports before text rc slots msg =
      (rc ≡ h.code Sys.chc_err_io)
      × (length msg ≡ length slots)
      × (check h rc msg
          ≡ err (
              new io (
                bytes (
                  from_utf8_lossy
                    (take (min (length (before ++ text)) (length slots - 1)) (before ++ text)))
                ∷ [])))

module _ (h : Sys.Header) (r : Rustls) (taken passed_on : r.Stream → Bytes) where
  abbrev pub ReadDone : r.Stream → Bytes → ℕ → ℕ → Bytes → ReadOutcome h r → Type 0
  ReadDone s buf len out_n slots out =
      ((out.rc ≡ h.code Sys.chc_ok)
        × (out.err ≡ some slots)
        × (out.out_n ≤ len)
        × (((len ≡ 0) × (out.stream ≡ s) × (out.buf ≡ buf))
            ⊎ (r.read s buf ≡ ((out.stream, out.buf), inr out.out_n))))
      ⊎ ((text : Bytes) × (msg : Bytes) × ((r.read s buf).1 ≡ inl text)
          × (out.err ≡ some msg)
          × (out.out_n ≡ out_n)
          × Reports h (codes "tls read: ") text out.rc slots msg)

  -- Writing fails, or it takes all bytes and flushing then fails.
  abbrev pub WriteFails : r.Stream → Bytes → Bytes → Type 0
  WriteFails s src text =
      ((r.write_all s src).1 ≡ inl text)
      ⊎ (((r.write_all s src).1 ≡ inr tt) × ((r.flush (r.write_all s src).0).1 ≡ inl text))

  abbrev pub WriteDone : r.Stream → Bytes → Bytes → r.Stream × ℤ × Option Bytes → Type 0
  WriteDone s src slots (s', rc, e) =
      ((rc ≡ h.code Sys.chc_ok)
        × (e ≡ some slots)
        × (taken s' ≡ taken s ++ src)
        × (passed_on s' ≡ taken s ++ src))
      ⊎ ((text : Bytes) × (msg : Bytes) × WriteFails s src text
          × (e ≡ some msg)
          × Reports h (codes "tls write: ") text rc slots msg)
