-- ===== src/Error.antt =====
-- src/error.rs: error kinds, errors and the return-code check.
pub mod Message
pub mod Codes
use clickhouse_c_rs.Base.{
  ℕ, zero, suc, ◌+◌, ◌-◌, ◌≡◌, refl, ◌⊎◌, inl, inr, Bool, true, false, List, [], ◌∷◌, ◌++◌, Option,
  none, some, String, Bytes, if◌then◌else◌, position, take, length, set, min,
}
use clickhouse_c_rs.Base.Arms.{match_arms}
use clickhouse_c_rs.Base.Int.{ℤ, pos, ◌==ℤ◌}
use clickhouse_c_rs.Base.Utf8.{from_utf8_lossy}
use clickhouse_c_rs.Sys

pub data ErrorKind : Type 0 where
  io eof protocol type oom cancelled server usage would_block : ErrorKind
  other : ℤ → ErrorKind

-- A formatted message, piece by piece: literal text, a number, and text that comes from elsewhere.
pub data Piece : Type 0 where
  str : String → Piece
  num : ℕ → Piece
  int : ℤ → Piece
  bytes : Bytes → Piece

abbrev pub Message : Type 0
Message = List Piece

pub record Error : Type 0 where
  pub kind : ErrorKind
  pub server_code : ℤ
  pub message : Message
  pub server_name : Bytes

pub data Result {ℓ} (A : Type ℓ) : Type ℓ where
  ok : A → Result A
  err : Error → Result A

-- The operator `?`: `do` blocks bind with it.
abbrev pub ◌>>=◌ {ℓ κ} : {A : Type ℓ} {B : Type κ} → Result A → (A → Result B) → Result B
◌>>=◌ (ok value) rest = rest value
◌>>=◌ (err failure) rest = err failure

infixl 5 ◌>>=◌
abbrev pub ◌>>◌ {κ} : {B : Type κ} → Result (Unit {0}) → Result B → Result B
◌>>◌ first rest = first >>= λ _. rest

infixl 5 ◌>>◌
-- `Error::new`.
abbrev pub new : ErrorKind → Message → Error
new kind message = record { kind = kind; server_code = pos 0; message = message; server_name = [] }

-- The text before the first NUL, or the whole array.
unfoldable pub cstr_array_to_string : Bytes → Bytes
cstr_array_to_string buf =
    from_utf8_lossy (take (elim (position 0 buf) [ some n ↦ n | none ↦ length buf ]) buf)

abbrev pub code_arms : List (Sys.ErrorCode × ErrorKind)
code_arms =
    (Sys.chc_err_io, io)
    ∷ (Sys.chc_err_eof, eof)
    ∷ (Sys.chc_err_protocol, protocol)
    ∷ (Sys.chc_err_type, type)
    ∷ (Sys.chc_err_oom, oom)
    ∷ (Sys.chc_err_cancelled, cancelled)
    ∷ (Sys.chc_err_server, server)
    ∷ (Sys.chc_err_usage, usage)
    ∷ (Sys.chc_would_block, would_block)
    ∷ []

module _ (h : Sys.Header) where
  unfoldable pub from_code : ℤ → ErrorKind
  from_code code = elim (match_arms h.code code_arms code) [ some k ↦ k | none ↦ other code ]

  -- `Error::from_raw`, over the message array that C filled.
  abbrev pub from_raw : ℤ → Bytes → Error
  from_raw code msg = new (from_code code) (bytes (cstr_array_to_string msg) ∷ [])

  unfoldable pub check : ℤ → Bytes → Result (Unit {0})
  check rc msg = if rc ==ℤ h.code Sys.chc_ok then ok tt else err (from_raw rc msg)

-- Binds regroup.
pub >>=-assoc {ℓ κ μ} :
    {A : Type ℓ} {B : Type κ} {C : Type μ} (m : Result A) (f : A → Result B) (g : B → Result C)
    → (m >>= λ a. f a >>= g) ≡ ((m >>= f) >>= g)
>>=-assoc (ok a) f g = refl
>>=-assoc (err e) f g = refl

pub Result-cases {ℓ} :
    {A : Type ℓ} (r : Result A) → ((a : A) × (r ≡ ok a)) ⊎ ((e : Error) × (r ≡ err e))
Result-cases (ok a) = inl (a, refl)
Result-cases (err e) = inr (e, refl)

-- Where a bind succeeds, so did its first part, and the rest on that part's value.
pub >>=-eq-ok {ℓ κ} :
    {A : Type ℓ} {B : Type κ} (first : Result A) (rest : A → Result B) {b : B}
    → (first >>= rest) ≡ ok b
    → (value : A) × (first ≡ ok value) × (rest value ≡ ok b)
>>=-eq-ok (ok value) rest made = (value, refl, made)
>>=-eq-ok (err failure) rest made = cc
