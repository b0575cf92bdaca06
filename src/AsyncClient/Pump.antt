-- ===== src/AsyncClient/Pump.antt =====
-- `pump_until_ready`, and `handshake_on` and `recv_event`, which are calls of it.
use clickhouse_c_rs.Base.{
  ℕ, zero, suc, ◌≤◌, ◌≡◌, refl, ◌∙◌, sym, false, [], Bytes, Option, none, some, length, take, ◌==◌,
  ltb, inl, inr, Bool-cases, arith, ltb→lt,
}
use clickhouse_c_rs.Sys
use clickhouse_c_rs.Error.{Result, ok, err}
use clickhouse_c_rs.Client.Event.{Event}
use clickhouse_c_rs.Ioless
use clickhouse_c_rs.Ioless.{Core, Step, ready, needs_input, pending_out}
use clickhouse_c_rs.AsyncClient.{
  Transport, AsyncClient, done, panicked, out_of_fuel, Out, drain_out, on_core, and_then, read_more,
  after_read, Closure, after_step, take_step, pump_until_ready, store, recv_step, expect,
  recv_event,
}
use clickhouse_c_rs.AsyncClient.Drain.{
  IsTransport, IsQueue, stream_bytes, Flushed, Drained, drain_out-Drained,
}

abbrev IsSome : {A : Type 0} → Option A → Type 0
IsSome (some a) = Unit {0}
IsSome none = ⊥

module _ (h : Sys.Header) (k : Core) (t : Transport) (taken passed_on : t.T → Bytes) where
  -- How a loop may end: never by a panic, and on success with a value that `Q` holds of, with nothing
  -- queued and nothing held back by the transport.
  abbrev pub Settled : {A : Type 0} → (A → Type 0) → Out h k t A → Type 0
  Settled Q (c, done (ok a)) =
      Q a × ((pending_out h k c.core ≡ []) × Flushed h k t taken passed_on c)
  Settled Q (c, done (err e)) = Unit {0}
  Settled Q (c, panicked) = ⊥
  Settled Q (c, out_of_fuel) = Unit {0}

  -- A client that is flushed, unless its run ended otherwise than well.
  abbrev pub FlushedRun : Out h k t (Unit {0}) → Type 0
  FlushedRun (c, done (ok u)) = Flushed h k t taken passed_on c
  FlushedRun (c, done (err e)) = Unit {0}
  FlushedRun (c, panicked) = ⊥
  FlushedRun (c, out_of_fuel) = ⊥

  -- A property of the variable holds once the closure is ready.
  abbrev pub Stores : {A : Type 0} → (A → Type 0) → Closure h k t A → Type 0
  Stores {A} Q step = (a : A) (s : k.S) → (step a s).1 ≡ ok (ready tt) → Q (step a s).0.0

  module _ (queue : IsQueue h k) (transport : IsTransport t taken passed_on) where
    then-Settled :
        {A : Type 0} (Q : A → Type 0) (all : Bytes) (out : Out h k t (Unit {0}))
        (f : AsyncClient h k t → Unit {0} → Out h k t A)
        → Drained h k t taken passed_on all out
        → ((c : AsyncClient h k t)
            → pending_out h k c.core ≡ []
            → Flushed h k t taken passed_on c
            → Settled Q (f c tt))
        → Settled Q (and_then h k t out f)
    then-Settled Q all (c, done (ok u)) f (same, (empty, flushed)) go = go c empty flushed
    then-Settled Q all (c, done (err e)) f d go = tt
    then-Settled Q all (c, panicked) f d go = d
    then-Settled Q all (c, out_of_fuel) f d go = absurd d

    then_read :
        {A : Type 0} (Q : A → Type 0) (out : Out h k t (Unit {0}))
        (f : AsyncClient h k t → Unit {0} → Out h k t A)
        → FlushedRun out
        → ((c : AsyncClient h k t) → Flushed h k t taken passed_on c → Settled Q (f c tt))
        → Settled Q (and_then h k t out f)
    then_read Q (c, done (ok u)) f d go = go c d
    then_read Q (c, done (err e)) f d go = tt
    then_read Q (c, panicked) f d go = d
    then_read Q (c, out_of_fuel) f d go = absurd d

    submitted :
        (c : AsyncClient h k t) (s : k.S) (r : Result (Unit {0}))
        → Flushed h k t taken passed_on c
        → FlushedRun (on_core h k t c (s, r))
    submitted c s (ok u) flushed = flushed
    submitted c s (err e) flushed = tt

    after_read-FlushedRun :
        (c : AsyncClient h k t) (r : Result ℕ)
        → Flushed h k t taken passed_on c
        → ((n : ℕ) → r ≡ ok n → n ≤ length c.read_buf)
        → FlushedRun (after_read h k t c r)
    after_read-FlushedRun c (err e) flushed fits = tt
    after_read-FlushedRun c (ok n) flushed fits = elim (Bool-cases (n == 0)) [
      | inl e ↦ rw e tt
      | inr e ↦
          let within = fits n refl in
          let in_range : ltb (length c.read_buf) n ≡ false =
            elim (Bool-cases (ltb (length c.read_buf) n)) [
              | inl over ↦ absurd (omega (arith, ltb→lt (length c.read_buf) n over, within))
              | inr fine ↦ fine
            ] in
          let out = Ioless.submit h k c.core (take n c.read_buf) in
          rw e (rw in_range (submitted c out.0 out.1 flushed))
    ]

    pub read_more-FlushedRun :
        (c : AsyncClient h k t) → Flushed h k t taken passed_on c → FlushedRun (read_more h k t c)
    unfolding read_more
    read_more-FlushedRun c flushed =
        let ((s, buf), r) = t.read c.stream c.read_buf in
        let (same, passed) = transport.read_keeps c.stream c.read_buf in
        after_read-FlushedRun (record c { stream = s; read_buf = buf }) r
          (passed ∙ flushed ∙ sym same) (transport.read_fits c.stream c.read_buf)

    after_step-Settled :
        {A : Type 0} (Q : A → Type 0) (again : A → AsyncClient h k t → Out h k t A)
        → ((a : A) (c : AsyncClient h k t)
            → Flushed h k t taken passed_on c
            → Settled Q (again a c))
        → (a : A) (c : AsyncClient h k t) (r : Result (Step (Unit {0})))
        → Flushed h k t taken passed_on c
        → (r ≡ ok (ready tt) → Q a)
        → Settled Q (after_step h k t again a c r)
    after_step-Settled Q again ih a c (err e) flushed stored = tt
    after_step-Settled Q again ih a c (ok (ready u)) flushed stored =
        then-Settled Q (stream_bytes h k t taken passed_on c) (drain_out h k t c)
          (λ c u. (c, done (ok a)))
          (drain_out-Drained h k t taken passed_on queue transport c flushed)
          (λ c empty flushed. (stored refl, (empty, flushed)))
    after_step-Settled Q again ih a c (ok needs_input) flushed stored =
        then-Settled Q (stream_bytes h k t taken passed_on c) (drain_out h k t c)
          (λ c u. and_then h k t (read_more h k t c) (λ c u. again a c))
          (drain_out-Drained h k t taken passed_on queue transport c flushed)
          (λ c empty flushed.
            then_read Q (read_more h k t c) (λ c u. again a c) (read_more-FlushedRun c flushed)
              (λ c flushed. ih a c flushed))

    -- If the core's queue and the transport behave as documented and the transport is flushed, and if
    -- `Q` holds of the closure's variable whenever a step is ready, then the loop never panics, however
    -- much fuel it has, and if it succeeds then `Q` holds of the variable and no byte waits to be
    -- written or flushed.
    pub pump_until_ready-Settled :
        {A : Type 0} (Q : A → Type 0) (step : Closure h k t A)
        → Stores Q step
        → (fuel : ℕ) (a : A) (c : AsyncClient h k t) → Flushed h k t taken passed_on c
        → Settled Q (pump_until_ready h k t fuel step a c)
    unfolding pump_until_ready
    pump_until_ready-Settled Q step stores zero a c flushed = tt
    pump_until_ready-Settled Q step stores (suc fuel) a c flushed =
        then-Settled Q (stream_bytes h k t taken passed_on c) (drain_out h k t c)
          (λ c u. take_step h k t (pump_until_ready h k t fuel step) step a c)
          (drain_out-Drained h k t taken passed_on queue transport c flushed)
          (λ c empty flushed.
            after_step-Settled Q (pump_until_ready h k t fuel step)
              (λ a c flushed. pump_until_ready-Settled Q step stores fuel a c flushed)
              (step a c.core).0.0 (record c { core = (step a c.core).0.1 }) (step a c.core).1
              flushed (stores a c.core))

    stored-IsSome :
        (event : Option (Event k.B k.X)) (out : k.S × Result (Step (Event k.B k.X)))
        → (store h k t event out).1 ≡ ok (ready tt)
        → IsSome (store h k t event out).0.0
    stored-IsSome event (s, ok (ready e)) is_ready = tt
    stored-IsSome event (s, ok needs_input) is_ready = cc
    stored-IsSome event (s, err e) is_ready = cc

    expect-Settled :
        (out : Out h k t (Option (Event k.B k.X)))
        → Settled IsSome out
        → Settled (λ e. Unit {0}) (and_then h k t out (expect h k t))
    expect-Settled (c, done (ok (some e))) (is, settled) = (tt, settled)
    expect-Settled (c, done (ok none)) (is, settled) = is
    expect-Settled (c, done (err e)) d = tt
    expect-Settled (c, panicked) d = d
    expect-Settled (c, out_of_fuel) d = tt

    -- If the core's queue and the transport behave as documented and the transport is flushed,
    -- `recv_event` never panics: its `expect` always finds the event that the pump's step stored. If
    -- it returns an event, no byte waits to be written or flushed.
    pub recv_event-Settled :
        (fuel : ℕ) (c : AsyncClient h k t)
        → Flushed h k t taken passed_on c
        → Settled (λ e. Unit {0}) (recv_event h k t fuel c)
    unfolding recv_event
    recv_event-Settled fuel c flushed =
        expect-Settled (pump_until_ready h k t fuel (recv_step h k t) none c) (
          pump_until_ready-Settled IsSome (recv_step h k t)
            (λ a s fine. stored-IsSome a (Ioless.recv_event h k s) fine) fuel none c flushed)
