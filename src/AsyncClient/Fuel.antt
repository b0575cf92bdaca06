-- ===== src/AsyncClient/Fuel.antt =====
-- The fuel of `pump_until_ready`.
use clickhouse_c_rs.Base.{
  ℕ, zero, suc, ◌-◌, ◌≤◌, ◌<◌, ◌≡◌, ◌≢◌, refl, ◌∙◌, sym, Bool, true, false, Bytes, length, take,
  ◌==◌, ltb, inl, inr, Bool-cases, arith, ==_iff, length-take,
}
use clickhouse_c_rs.Sys
use clickhouse_c_rs.Error.{Result, ok, err}
use clickhouse_c_rs.Ioless
use clickhouse_c_rs.Ioless.{Core, Step, ready, needs_input, pending_out, consume_out}
use clickhouse_c_rs.AsyncClient.{
  Transport, AsyncClient, done, panicked, out_of_fuel, Out, drain_out, drain_loop, on_core,
  and_then, read_more, after_read, Closure, after_step, take_step, pump_until_ready, after_write,
  flush_if, is_empty,
}
use clickhouse_c_rs.AsyncClient.Drain.{
  IsTransport, IsQueue, stream_bytes, Flushed, Drained, drain_out-Drained,
}
use clickhouse_c_rs.AsyncClient.Pump.{FlushedRun, read_more-FlushedRun}

module _ (h : Sys.Header) (k : Core) (t : Transport) where
  -- A bound on the bytes that the core needs before the closure is ready. Only input lowers it, by
  -- the number of its bytes, and a step that asks for input needs some.
  pub record Needs {A : Type 0} (step : Closure h k t A) (wanted : k.S → ℕ) : Type 0 where
    pub consume_same : (s : k.S) (n : ℕ) → wanted (consume_out h k s n) ≡ wanted s
    pub submit_lowers :
        (s : k.S) (bytes : Bytes) → wanted (Ioless.submit h k s bytes).0 ≤ wanted s - length bytes
    pub step_waits :
        (a : A) (s : k.S)
        → (step a s).1 ≡ ok needs_input
        → (0 < wanted (step a s).0.1) × (wanted (step a s).0.1 ≤ wanted s)

  abbrev pub Ended : {A : Type 0} → Out h k t A → Type 0
  Ended (c, done r) = Unit {0}
  Ended (c, panicked) = Unit {0}
  Ended (c, out_of_fuel) = ⊥

  -- After a success, fewer than `n` bytes are needed.
  abbrev Lowered : (k.S → ℕ) → ℕ → Out h k t (Unit {0}) → Type 0
  Lowered wanted n (c, done (ok u)) = wanted c.core < n
  Lowered wanted n _ = Unit {0}

  module _ (wanted : k.S → ℕ)
      (consume_same : (s : k.S) (n : ℕ) → wanted (consume_out h k s n) ≡ wanted s) where
    flush_if-wanted :
        (wrote : Bool) (c : AsyncClient h k t)
        → wanted (flush_if h k t wrote c).0.core ≡ wanted c.core
    flush_if-wanted false c = refl
    flush_if-wanted true c = refl

    after_write-wanted :
        (again : AsyncClient h k t → Out h k t (Unit {0}))
        → ((c : AsyncClient h k t) → wanted (again c).0.core ≡ wanted c.core)
        → (c : AsyncClient h k t) (r : Result ℕ)
        → wanted (after_write h k t again c r).0.core ≡ wanted c.core
    after_write-wanted again ih c (err e) = refl
    after_write-wanted again ih c (ok n) = elim (Bool-cases (n == 0)) [
      | inl e ↦ rw e refl
      | inr e ↦ rw e (ih (record c { core = consume_out h k c.core n }) ∙ consume_same c.core n)
    ]

    drain_loop-wanted :
        (fuel : ℕ) (wrote : Bool) (c : AsyncClient h k t)
        → wanted (drain_loop h k t fuel wrote c).0.core ≡ wanted c.core
    unfolding drain_loop
    drain_loop-wanted zero wrote c = refl
    drain_loop-wanted (suc fuel) wrote c = elim (Bool-cases (is_empty (pending_out h k c.core))) [
      | inl e ↦ rw e (flush_if-wanted wrote c)
      | inr e ↦
          let (s, r) = t.write c.stream (pending_out h k c.core) in
          rw e (
            after_write-wanted (drain_loop h k t fuel true) (drain_loop-wanted fuel true)
              (record c { stream = s }) r)
    ]

    drain_out-wanted : (c : AsyncClient h k t) → wanted (drain_out h k t c).0.core ≡ wanted c.core
    unfolding drain_out
    drain_out-wanted c = drain_loop-wanted (suc (length (pending_out h k c.core))) false c

  module _ (taken passed_on : t.T → Bytes) (queue : IsQueue h k)
      (transport : IsTransport t taken passed_on) {A : Type 0} (step : Closure h k t A)
      (wanted : k.S → ℕ) (needs : Needs step wanted) where
    then-Drained :
        (all : Bytes) (out : Out h k t (Unit {0})) (f : AsyncClient h k t → Unit {0} → Out h k t A)
        → Drained h k t taken passed_on all out
        → ((c : AsyncClient h k t)
            → Flushed h k t taken passed_on c
            → wanted c.core ≡ wanted out.0.core
            → Ended (f c tt))
        → Ended (and_then h k t out f)
    then-Drained all (c, done (ok u)) f (same, (empty, flushed)) go = go c flushed refl
    then-Drained all (c, done (err e)) f d go = tt
    then-Drained all (c, panicked) f d go = tt
    then-Drained all (c, out_of_fuel) f d go = d

    then-Lowered :
        (n : ℕ) (out : Out h k t (Unit {0})) (f : AsyncClient h k t → Unit {0} → Out h k t A)
        → FlushedRun h k t taken passed_on out
        → Lowered wanted n out
        → ((c : AsyncClient h k t)
            → Flushed h k t taken passed_on c
            → wanted c.core < n
            → Ended (f c tt))
        → Ended (and_then h k t out f)
    then-Lowered n (c, done (ok u)) f flushed low go = go c flushed low
    then-Lowered n (c, done (err e)) f flushed low go = tt
    then-Lowered n (c, panicked) f flushed low go = tt
    then-Lowered n (c, out_of_fuel) f flushed low go = flushed

    submit-Lowered :
        (c : AsyncClient h k t) (s : k.S) (r : Result (Unit {0})) (n : ℕ)
        → wanted s < n
        → Lowered wanted n (on_core h k t c (s, r))
    submit-Lowered c s (ok u) n low = low
    submit-Lowered c s (err e) n low = tt

    after_read-Lowered :
        (c : AsyncClient h k t) (r : Result ℕ) (m : ℕ)
        → 0 < wanted c.core
        → wanted c.core ≤ m
        → Lowered wanted m (after_read h k t c r)
    after_read-Lowered c (err e) m some_wanted bound = tt
    after_read-Lowered c (ok n) m some_wanted bound = elim (Bool-cases (n == 0)) [
      | inl e ↦ rw e tt
      | inr e ↦ elim (Bool-cases (ltb (length c.read_buf) n)) [
        | inl over ↦ rw e (rw over tt)
        | inr within ↦
            let n_ne : n ≢ 0 = λ z. cc (sym e ∙ (==_iff n 0).1 z) in
            let fits : n ≤ length c.read_buf = ground arith in
            let bytes = take n c.read_buf in
            let lower = needs.submit_lowers c.core bytes in
            let low : wanted (Ioless.submit h k c.core bytes).0 < m =
              omega (arith, length-take n c.read_buf) in
            let out = Ioless.submit h k c.core bytes in
            rw e (rw within (submit-Lowered c out.0 out.1 m low))
      ]
    ]

    after_step-Ended :
        (again : A → AsyncClient h k t → Out h k t A) (fuel : ℕ)
        → ((a : A) (c : AsyncClient h k t)
            → Flushed h k t taken passed_on c
            → wanted c.core < fuel
            → Ended (again a c))
        → (a : A) (c : AsyncClient h k t) (r : Result (Step (Unit {0})))
        → Flushed h k t taken passed_on c
        → (r ≡ ok needs_input → (0 < wanted c.core) × (wanted c.core ≤ fuel))
        → Ended (after_step h k t again a c r)
    unfolding read_more
    after_step-Ended again fuel ih a c (err e) flushed waits = tt
    after_step-Ended again fuel ih a c (ok (ready u)) flushed waits =
        then-Drained (stream_bytes h k t taken passed_on c) (drain_out h k t c)
          (λ c u. (c, done (ok a)))
          (drain_out-Drained h k t taken passed_on queue transport c flushed) (λ c flushed same. tt)
    after_step-Ended again fuel ih a c (ok needs_input) flushed waits =
        let (some_wanted, bound) = waits refl in
        let kept = drain_out-wanted wanted needs.consume_same c in
        then-Drained (stream_bytes h k t taken passed_on c) (drain_out h k t c)
          (λ c u. and_then h k t (read_more h k t c) (λ c u. again a c))
          (drain_out-Drained h k t taken passed_on queue transport c flushed)
          (λ c' flushed same.
            then-Lowered fuel (read_more h k t c') (λ c u. again a c)
              (read_more-FlushedRun h k t taken passed_on queue transport c' flushed)
              (after_read-Lowered
                (record c' {
                  stream = (t.read c'.stream c'.read_buf).0.0;
                  read_buf = (t.read c'.stream c'.read_buf).0.1;
                })
                (t.read c'.stream c'.read_buf).1 fuel (omega arith) (omega arith))
              (λ c flushed low. ih a c flushed low))

    -- If the core's queue and the transport behave as documented, the transport is flushed, and at most
    -- `wanted` bytes of input make the closure ready, then that many iterations and one more are
    -- enough: the loop ends, whatever the transport answers and in whatever pieces it reads.
    pub pump_until_ready-Ended :
        (fuel : ℕ) (a : A) (c : AsyncClient h k t)
        → Flushed h k t taken passed_on c
        → wanted c.core < fuel
        → Ended (pump_until_ready h k t fuel step a c)
    unfolding pump_until_ready
    pump_until_ready-Ended zero a c flushed enough = absurd (omega arith)
    pump_until_ready-Ended (suc fuel) a c flushed enough =
        let kept = drain_out-wanted wanted needs.consume_same c in
        then-Drained (stream_bytes h k t taken passed_on c) (drain_out h k t c)
          (λ c u. take_step h k t (pump_until_ready h k t fuel step) step a c)
          (drain_out-Drained h k t taken passed_on queue transport c flushed)
          (λ c' flushed same.
            after_step-Ended (pump_until_ready h k t fuel step) fuel
              (λ a c flushed enough. pump_until_ready-Ended fuel a c flushed enough)
              (step a c'.core).0.0 (record c' { core = (step a c'.core).0.1 }) (step a c'.core).1
              flushed
              (λ waits.
                let (some_wanted, bound) = needs.step_waits a c'.core waits in
                (some_wanted, omega arith)))
