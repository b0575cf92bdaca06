-- ===== src/Error/Codes.antt =====
-- Return codes and error kinds.
use clickhouse_c_rs.Base.{
  ◌≡◌, refl, ◌≢◌, ◌↔◌, Option, none, some, arith, [], ◌∷◌, Bytes, Option-cases, Bool-cases, inl,
  inr, sym, ap, ◌∙◌, ◌⊎◌,
}
use mathlib.Core.Path.{subst}
use clickhouse_c_rs.Base.Arms.{
  match_arms, match_names, match_arms-names, AllArms, match_arms_sound, match_arms-none,
}
use clickhouse_c_rs.Base.Int.{ℤ, pos, ◌==ℤ◌, ==ℤ_iff}
use clickhouse_c_rs.Sys
use clickhouse_c_rs.Sys.Ranks.{code_rank, code_rank-Injective}
use clickhouse_c_rs.Error.{
  ErrorKind, io, eof, protocol, type, oom, cancelled, server, usage, would_block, other, code_arms,
  from_code, from_raw, check, ok, err, Error, bytes, cstr_array_to_string, Result-cases,
}

-- The constant that a kind corresponds to; `other` has none.
abbrev pub code_of : ErrorKind → Option Sys.ErrorCode
code_of io = some Sys.chc_err_io
code_of eof = some Sys.chc_err_eof
code_of protocol = some Sys.chc_err_protocol
code_of type = some Sys.chc_err_type
code_of oom = some Sys.chc_err_oom
code_of cancelled = some Sys.chc_err_cancelled
code_of server = some Sys.chc_err_server
code_of usage = some Sys.chc_err_usage
code_of would_block = some Sys.chc_would_block
code_of (other n) = none

named_arms : AllArms (λ c k. code_of k ≡ some c) code_arms
named_arms = (refl, (refl, (refl, (refl, (refl, (refl, (refl, (refl, (refl, tt)))))))))

arms_cover :
    (k : ErrorKind) (c : Sys.ErrorCode)
    → code_of k ≡ some c
    → match_names code_rank code_arms c ≡ some k
arms_cover k Sys.chc_ok e = ground arith
arms_cover k _ e = ground arith

code_of-ne-chc_ok : (k : ErrorKind) → code_of k ≢ some Sys.chc_ok
code_of-ne-chc_ok io e = cc
code_of-ne-chc_ok _ e = cc

-- What a kind says about the code it was made from.
abbrev pub Describes : Sys.Header → ErrorKind → ℤ → Type 0
Describes h (other n) code = (n ≡ code) × ((c : Sys.ErrorCode) → c ≢ Sys.chc_ok → h.code c ≢ code)
Describes h k code = (c : Sys.ErrorCode) × (code_of k ≡ some c) × (h.code c ≡ code)

Describes-named :
    (h : Sys.Header) (k : ErrorKind) (c : Sys.ErrorCode) (code : ℤ)
    → code_of k ≡ some c
    → h.code c ≡ code
    → Describes h k code
Describes-named h io c code e at = (c, e, at)
Describes-named h (other n) c code e at = cc
Describes-named h _ c code e at = (c, e, at)

unmatched :
    (h : Sys.Header) (code : ℤ)
    → AllArms (λ c k. h.code c ≢ code) code_arms
    → (c : Sys.ErrorCode) → c ≢ Sys.chc_ok
    → h.code c ≢ code
unmatched h code all Sys.chc_ok ne = absurd (ne refl)
unmatched h code all Sys.chc_err_io ne = all.0
unmatched h code all Sys.chc_err_eof ne = all.1.0
unmatched h code all Sys.chc_err_protocol ne = all.1.1.0
unmatched h code all Sys.chc_err_type ne = all.1.1.1.0
unmatched h code all Sys.chc_err_oom ne = all.1.1.1.1.0
unmatched h code all Sys.chc_err_cancelled ne = all.1.1.1.1.1.0
unmatched h code all Sys.chc_err_server ne = all.1.1.1.1.1.1.0
unmatched h code all Sys.chc_err_usage ne = all.1.1.1.1.1.1.1.0
unmatched h code all Sys.chc_would_block ne = all.1.1.1.1.1.1.1.1.0

abbrev kind_or_other : ℤ → Option ErrorKind → ErrorKind
kind_or_other code o = elim o [ some k ↦ k | none ↦ other code ]

-- The kind that a code gets describes it.
pub from_code-Describes : (h : Sys.Header) (code : ℤ) → Describes h (from_code h code) code
unfolding from_code
from_code-Describes h code = elim (Option-cases (match_arms h.code code_arms code)) [
  | inl e ↦
      subst (λ o. Describes h (kind_or_other code o) code) (sym e)
        (refl, unmatched h code (match_arms-none h.code code_arms code e))
  | inr (k, e) ↦
      let (c, at, names) =
        match_arms_sound (λ c k. code_of k ≡ some c) h.code code_arms code k named_arms e in
      subst (λ o. Describes h (kind_or_other code o) code) (sym e)
        (Describes-named h k c code names at)
]

module _ (h : Sys.Header) (valid : Sys.IsHeader h) where
  from_code-named :
      (k : ErrorKind) (c : Sys.ErrorCode) → code_of k ≡ some c → from_code h (h.code c) ≡ k
  unfolding from_code
  from_code-named k c e = ap (kind_or_other (h.code c)) (
      match_arms-names h.code code_rank valid.code-Injective code_rank-Injective code_arms c
      ∙ arms_cover k c e)

  from_code-other :
      (code : ℤ)
      → ((c : Sys.ErrorCode) → c ≢ Sys.chc_ok → h.code c ≢ code)
      → from_code h code ≡ other code
  unfolding from_code
  from_code-other code ne = elim (Option-cases (match_arms h.code code_arms code)) [
    | inl e ↦ ap (kind_or_other code) e
    | inr (k, e) ↦
        let (c, at, names) =
          match_arms_sound (λ c k. code_of k ≡ some c) h.code code_arms code k named_arms e in
        absurd (ne c (λ is_ok. code_of-ne-chc_ok k (names ∙ ap some is_ok)) at)
  ]

  from_code-one : (code : ℤ) (k : ErrorKind) → Describes h k code → from_code h code ≡ k
  from_code-one code io (c, e, at) = rw (← at) (from_code-named io c e)
  from_code-one code (other n) (same, ne) = from_code-other code ne ∙ ap other (sym same)
  from_code-one code eof (c, e, at) = rw (← at) (from_code-named eof c e)
  from_code-one code protocol (c, e, at) = rw (← at) (from_code-named protocol c e)
  from_code-one code type (c, e, at) = rw (← at) (from_code-named type c e)
  from_code-one code oom (c, e, at) = rw (← at) (from_code-named oom c e)
  from_code-one code cancelled (c, e, at) = rw (← at) (from_code-named cancelled c e)
  from_code-one code server (c, e, at) = rw (← at) (from_code-named server c e)
  from_code-one code usage (c, e, at) = rw (← at) (from_code-named usage c e)
  from_code-one code would_block (c, e, at) = rw (← at) (from_code-named would_block c e)

  -- With the header's codes distinct, a code gets exactly the kind that describes it: the kind of
  -- its constant, or `Other` with the number kept when it is the value of no error constant.
  pub from_code_iff : (code : ℤ) (k : ErrorKind) → (from_code h code ≡ k) ↔ Describes h k code
  from_code_iff code k =
      ((λ e. subst (λ k. Describes h k code) e (from_code-Describes h code)), from_code-one code k)

pub check_iff :
    (h : Sys.Header) (rc : ℤ) (msg : Bytes)
    → ((check h rc msg ≡ ok tt) ↔ (rc ≡ h.code Sys.chc_ok))
      × ((e : Error)
          → check h rc msg ≡ err e
          → Describes h e.kind rc
            × (e.server_code ≡ pos 0)
            × (e.server_name ≡ [])
            × (e.message ≡ bytes (cstr_array_to_string msg) ∷ []))
unfolding check
check_iff h rc msg = (
  (
    (λ e. ground (arith, ==ℤ_iff rc (h.code Sys.chc_ok))),
    (λ e. ground (arith, ==ℤ_iff rc (h.code Sys.chc_ok))),
  ),
  (λ e failed. elim (Bool-cases (rc ==ℤ h.code Sys.chc_ok)) [
    | inl fine ↦ cc (rw fine at failed)
    | inr bad ↦
        let made : from_raw h rc msg ≡ e = ground arith in
        rw (← made) (from_code-Describes h rc, refl, refl, refl)
  ]),
)

-- `check` either succeeds, on CHC_OK whatever the message array holds, or fails, on any other return
-- code, with an error whose kind describes the code, with the array's text for its message, server
-- code zero and no server name.
pub check_cases :
    (h : Sys.Header) (rc : ℤ) (msg : Bytes)
    → ((check h rc msg ≡ ok tt) × (rc ≡ h.code Sys.chc_ok))
      ⊎ ((e : Error) × (check h rc msg ≡ err e)
          × (rc ≢ h.code Sys.chc_ok)
          × Describes h e.kind rc
          × (e.server_code ≡ pos 0)
          × (e.server_name ≡ [])
          × (e.message ≡ bytes (cstr_array_to_string msg) ∷ []))
check_cases h rc msg = elim (Result-cases (check h rc msg)) [
  | inl (u, fine) ↦ inl (fine, (check_iff h rc msg).0.0 fine)
  | inr (e, failed) ↦
      let (d, code, name, text) = (check_iff h rc msg).1 e failed in
      inr
        (e, failed, (λ same. cc (sym failed ∙ (check_iff h rc msg).0.1 same)), d, code, name, text)
]
