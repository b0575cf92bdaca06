-- ===== src/Ioless/Returns.antt =====
-- Return codes of the I/O-independent client.
use clickhouse_c_rs.Base.{
  ◌≡◌, ◌≢◌, ◌↔◌, ◌⊎◌, refl, ap, sym, ◌∙◌, inl, inr, Bool-cases, Bytes, arith,
}
use clickhouse_c_rs.Base.Int.{ℤ, ◌==ℤ◌, ==ℤ_iff}
use clickhouse_c_rs.Sys
use clickhouse_c_rs.Error.{Error, ok, err, check, would_block, Result-cases, ErrorKind}
use clickhouse_c_rs.Error.Codes.{check_iff, Describes}
use clickhouse_c_rs.Ioless.{ready, needs_input, step, stepped}

module _ (h : Sys.Header) (valid : Sys.IsHeader h) where
  kind-ne-would_block :
      (k : ErrorKind) (rc : ℤ)
      → Describes h k rc
      → rc ≢ h.code Sys.chc_would_block
      → k ≢ would_block
  kind-ne-would_block would_block rc (c, e, at) ne same =
      let named : c ≡ Sys.chc_would_block = ground arith in ne (sym at ∙ ap h.code named)
  kind-ne-would_block _ rc d ne same = cc

  stepped_iff :
      (rc : ℤ) (msg : Bytes)
      → rc ≢ h.code Sys.chc_would_block
      → ((stepped (check h rc msg) ≡ ok (ready tt)) ↔ (rc ≡ h.code Sys.chc_ok))
        × ((stepped (check h rc msg) ≢ ok needs_input)
            × ((e : Error) → stepped (check h rc msg) ≡ err e → check h rc msg ≡ err e))
  stepped_iff rc msg ne = elim (Result-cases (check h rc msg)) [
    | inl (u, fine) ↦
        let is_ok = (check_iff h rc msg).0.0 fine in
        rw fine (((λ e. is_ok), (λ e. refl)), ((λ e. cc), (λ e failed. cc)))
    | inr (e, bad) ↦ rw bad (
      ((λ eq. cc), (λ eq. cc (sym bad ∙ (check_iff h rc msg).0.1 eq))),
      ((λ eq. cc), (λ e' same. cc)),
    )
  ]

  step_iff :
      (rc : ℤ) (msg : Bytes)
      → ((step h rc msg ≡ ok needs_input) ↔ (rc ≡ h.code Sys.chc_would_block))
        × (((step h rc msg ≡ ok (ready tt)) ↔ (rc ≡ h.code Sys.chc_ok))
            × ((e : Error)
                → step h rc msg ≡ err e
                → Describes h e.kind rc × (e.kind ≢ would_block)))
  unfolding step
  step_iff rc msg = elim (Bool-cases (rc ==ℤ h.code Sys.chc_would_block)) [
    | inl blocks ↦
        let at = (==ℤ_iff rc (h.code Sys.chc_would_block)).0 blocks in
        rw blocks (
          ((λ e. at), (λ e. refl)),
          (((λ e. cc), (λ e. cc (valid.code-Injective _ _ (sym at ∙ e)))), (λ e failed. cc)),
        )
    | inr goes_on ↦
        let ne : rc ≢ h.code Sys.chc_would_block =
          λ e. cc (sym goes_on ∙ (==ℤ_iff rc (h.code Sys.chc_would_block)).1 e) in
        let (done, (no_input, failure)) = stepped_iff rc msg ne in
        rw goes_on (
          ((λ e. absurd (no_input e)), (λ e. absurd (ne e))),
          (
            done,
            (λ e failed.
                let d = ((check_iff h rc msg).1 e (failure e failed)).0 in
                (d, kind-ne-would_block e.kind rc d ne)),
          ),
        )
  ]

  -- A call of the client asks for input on CHC_WOULD_BLOCK, is done on CHC_OK, and fails on any other
  -- return code, with an error whose kind describes the code and is never `WouldBlock`.
  pub step_cases :
      (rc : ℤ) (msg : Bytes)
      → ((step h rc msg ≡ ok needs_input) × (rc ≡ h.code Sys.chc_would_block))
        ⊎ ((step h rc msg ≡ ok (ready tt)) × (rc ≡ h.code Sys.chc_ok))
        ⊎ ((e : Error) × (step h rc msg ≡ err e)
            × (rc ≢ h.code Sys.chc_would_block)
            × (rc ≢ h.code Sys.chc_ok)
            × Describes h e.kind rc
            × (e.kind ≢ would_block))
  step_cases rc msg =
      let (waits, (done, fails)) = step_iff rc msg in
      elim (Result-cases (step h rc msg)) [
        | inl (needs_input, e) ↦ inl (e, waits.0 e)
        | inl (ready u, e) ↦ inr (inl (e, done.0 e))
        | inr (e, failed) ↦
            let (d, ne) = fails e failed in
            inr (
              inr (
                e,
                failed,
                (λ at. cc (sym failed ∙ waits.1 at)),
                (λ at. cc (sym failed ∙ done.1 at)),
                d,
                ne,
              ))
      ]
