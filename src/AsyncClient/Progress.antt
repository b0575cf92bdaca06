-- ===== src/AsyncClient/Progress.antt =====
-- `pump_until_ready` over a transport that makes progress.
use clickhouse_c_rs.Base.{
  ℕ, zero, suc, ◌≤◌, ◌<◌, ◌≡◌, Bool, true, false, [], ◌∷◌, Bytes, length, take, ◌==◌, ltb, arith,
  if◌then◌else◌,
}
use clickhouse_c_rs.Sys
use clickhouse_c_rs.Error.{Result, ok, err}
use clickhouse_c_rs.Ioless
use clickhouse_c_rs.Ioless.{Core, Step, ready, needs_input, pending_out, consume_out}
use clickhouse_c_rs.AsyncClient.{
  Transport, AsyncClient, done, panicked, out_of_fuel, Out, drain_out, drain_loop, on_core,
  and_then, read_more, after_read, Closure, after_step, take_step, pump_until_ready, after_write,
  write_some, flush_if, is_empty,
}
use clickhouse_c_rs.AsyncClient.Drain.{IsTransport, IsQueue, Flushed}
use clickhouse_c_rs.AsyncClient.Pump.{Settled, pump_until_ready-Settled}
use clickhouse_c_rs.AsyncClient.Fuel.{Needs, Ended, pump_until_ready-Ended}

-- A transport that makes progress: a write of some bytes and a read into some space are of at least
-- one byte, and none of the three operations fails. A read keeps the buffer's length.
pub record MakesProgress (t : Transport) : Type 0 where
  pub writes : (s : t.T) (b : ℕ) (bs : Bytes) → (n : ℕ) × ((t.write s (b ∷ bs)).1 ≡ ok n) × (0 < n)
  pub flushes : (s : t.T) → (t.flush s).1 ≡ ok tt
  pub reads :
      (s : t.T) (buf : Bytes)
      → 0 < length buf
      → (n : ℕ) × ((t.read s buf).1 ≡ ok n)
        × (0 < n)
        × (n ≤ length (t.read s buf).0.1)
        × (length (t.read s buf).0.1 ≡ length buf)

-- The core takes all input, and the closure's step does not fail.
pub record Accepts (h : Sys.Header) (k : Core) (t : Transport) {A : Type 0} (step : Closure h k t A)
    : Type 0 where
  pub submits : (s : k.S) (bytes : Bytes) → (Ioless.submit h k s bytes).1 ≡ ok tt
  pub steps : (a : A) (s : k.S) → (x : Step (Unit {0})) × ((step a s).1 ≡ ok x)

module _ (h : Sys.Header) (k : Core) (t : Transport) where
  -- A run that ended well, with nothing queued and nothing held back.
  abbrev pub Succeeds :
      {A : Type 0} → (taken passed_on : t.T → Bytes) → (A → Type 0) → Out h k t A → Type 0
  Succeeds taken passed_on Q (c, done (ok a)) =
      Q a × ((pending_out h k c.core ≡ []) × Flushed h k t taken passed_on c)
  Succeeds taken passed_on Q (c, done (err e)) = ⊥
  Succeeds taken passed_on Q (c, panicked) = ⊥
  Succeeds taken passed_on Q (c, out_of_fuel) = ⊥

module _ (h : Sys.Header) (k : Core) (t : Transport) (progress : MakesProgress t) where
  -- A run that has not failed, and leaves space to read into.
  abbrev Unfailed : {A : Type 0} → Out h k t A → Type 0
  Unfailed (c, done (ok a)) = 0 < length c.read_buf
  Unfailed (c, done (err e)) = ⊥
  Unfailed (c, panicked) = ⊥
  Unfailed (c, out_of_fuel) = Unit {0}

  then-Unfailed :
      {A C : Type 0} (out : Out h k t A) (f : AsyncClient h k t → A → Out h k t C)
      → Unfailed out
      → ((c : AsyncClient h k t) (a : A) → 0 < length c.read_buf → Unfailed (f c a))
      → Unfailed (and_then h k t out f)
  then-Unfailed (c, done (ok a)) f fine go = go c a fine
  then-Unfailed (c, done (err e)) f fine go = fine
  then-Unfailed (c, panicked) f fine go = fine
  then-Unfailed (c, out_of_fuel) f fine go = tt

  flush_if-Unfailed :
      (wrote : Bool) (c : AsyncClient h k t)
      → 0 < length c.read_buf
      → Unfailed (flush_if h k t wrote c)
  flush_if-Unfailed false c space = space
  flush_if-Unfailed true c space = rw (progress.flushes c.stream) space

  after_write-Unfailed :
      (again : AsyncClient h k t → Out h k t (Unit {0}))
      → ((c : AsyncClient h k t) → 0 < length c.read_buf → Unfailed (again c))
      → (c : AsyncClient h k t) (n : ℕ) → 0 < n
      → 0 < length c.read_buf
      → Unfailed (after_write h k t again c (ok n))
  after_write-Unfailed again ih c n pos space =
      let some_bytes : (n == 0) ≡ false = ground arith in
      rw some_bytes (ih (record c { core = consume_out h k c.core n }) space)

  drain_step-Unfailed :
      (again : AsyncClient h k t → Out h k t (Unit {0})) (wrote : Bool)
      → ((c : AsyncClient h k t) → 0 < length c.read_buf → Unfailed (again c))
      → (c : AsyncClient h k t) (buf : Bytes) → 0 < length c.read_buf
      → Unfailed (if is_empty buf then flush_if h k t wrote c else write_some h k t again c buf)
  drain_step-Unfailed again wrote ih c [] space = flush_if-Unfailed wrote c space
  drain_step-Unfailed again wrote ih c (b ∷ bs) space =
      let (n, e, pos) = progress.writes c.stream b bs in
      rw e (
        after_write-Unfailed again ih (record c { stream = (t.write c.stream (b ∷ bs)).0 }) n pos
          space)

  drain_loop-Unfailed :
      (fuel : ℕ) (wrote : Bool) (c : AsyncClient h k t)
      → 0 < length c.read_buf
      → Unfailed (drain_loop h k t fuel wrote c)
  unfolding drain_loop
  drain_loop-Unfailed zero wrote c space = tt
  drain_loop-Unfailed (suc fuel) wrote c space =
      drain_step-Unfailed (drain_loop h k t fuel true) wrote (drain_loop-Unfailed fuel true) c
        (pending_out h k c.core) space

  drain_out-Unfailed :
      (c : AsyncClient h k t) → 0 < length c.read_buf → Unfailed (drain_out h k t c)
  unfolding drain_out
  drain_out-Unfailed c = drain_loop-Unfailed (suc (length (pending_out h k c.core))) false c

  module _ {A : Type 0} (step : Closure h k t A) (accepts : Accepts h k t step) where
    submitted-Unfailed :
        (c : AsyncClient h k t) (out : k.S × Result (Unit {0}))
        → 0 < length c.read_buf
        → out.1 ≡ ok tt
        → Unfailed (on_core h k t c out)
    submitted-Unfailed c (s, ok u) space e = space
    submitted-Unfailed c (s, err f) space e = cc

    after_read-Unfailed :
        (c : AsyncClient h k t) (n : ℕ)
        → 0 < n
        → n ≤ length c.read_buf
        → Unfailed (after_read h k t c (ok n))
    after_read-Unfailed c n pos fits =
        let some_bytes : (n == 0) ≡ false = ground arith in
        let room : ltb (length c.read_buf) n ≡ false = ground arith in
        let space : 0 < length c.read_buf = omega arith in
        rw (some_bytes, room)
          (submitted-Unfailed c (Ioless.submit h k c.core (take n c.read_buf)) space
            (accepts.submits c.core (take n c.read_buf)))

    read_more-Unfailed :
        (c : AsyncClient h k t) → 0 < length c.read_buf → Unfailed (read_more h k t c)
    unfolding read_more
    read_more-Unfailed c space =
        let (n, e, pos, fits, same) = progress.reads c.stream c.read_buf space in
        rw e (
          after_read-Unfailed
            (record c {
              stream = (t.read c.stream c.read_buf).0.0;
              read_buf = (t.read c.stream c.read_buf).0.1;
            })
            n pos fits)

    after_step-Unfailed :
        (again : A → AsyncClient h k t → Out h k t A)
        → ((a : A) (c : AsyncClient h k t) → 0 < length c.read_buf → Unfailed (again a c))
        → (a : A) (c : AsyncClient h k t) (x : Step (Unit {0})) → 0 < length c.read_buf
        → Unfailed (after_step h k t again a c (ok x))
    after_step-Unfailed again ih a c (ready u) space =
        then-Unfailed (drain_out h k t c) (λ c u. (c, done (ok a))) (drain_out-Unfailed c space)
          (λ c u space. space)
    after_step-Unfailed again ih a c needs_input space =
        then-Unfailed (drain_out h k t c)
          (λ c u. and_then h k t (read_more h k t c) (λ c u. again a c))
          (drain_out-Unfailed c space)
          (λ c u space.
            then-Unfailed (read_more h k t c) (λ c u. again a c) (read_more-Unfailed c space)
              (λ c u space. ih a c space))

    take_step-Unfailed :
        (again : A → AsyncClient h k t → Out h k t A)
        → ((a : A) (c : AsyncClient h k t) → 0 < length c.read_buf → Unfailed (again a c))
        → (a : A) (c : AsyncClient h k t) → 0 < length c.read_buf
        → Unfailed (take_step h k t again step a c)
    take_step-Unfailed again ih a c space =
        let (x, e) = accepts.steps a c.core in
        rw e (
          after_step-Unfailed again ih (step a c.core).0.0 (record c { core = (step a c.core).0.1 })
            x space)

    pump-Unfailed :
        (fuel : ℕ) (a : A) (c : AsyncClient h k t)
        → 0 < length c.read_buf
        → Unfailed (pump_until_ready h k t fuel step a c)
    unfolding pump_until_ready
    pump-Unfailed zero a c space = tt
    pump-Unfailed (suc fuel) a c space =
        then-Unfailed (drain_out h k t c)
          (λ c u. take_step h k t (pump_until_ready h k t fuel step) step a c)
          (drain_out-Unfailed c space)
          (λ c u space.
            take_step-Unfailed (pump_until_ready h k t fuel step) (pump-Unfailed fuel) a c space)

    all-Succeeds :
        (taken passed_on : t.T → Bytes) (Q : A → Type 0) (out : Out h k t A)
        → Settled h k t taken passed_on Q out
        → Ended h k t out
        → Unfailed out
        → Succeeds h k t taken passed_on Q out
    all-Succeeds taken passed_on Q (c, done (ok a)) settled ended fine = settled
    all-Succeeds taken passed_on Q (c, done (err e)) settled ended fine = fine
    all-Succeeds taken passed_on Q (c, panicked) settled ended fine = fine
    all-Succeeds taken passed_on Q (c, out_of_fuel) settled ended fine = ended

    -- The core's queue and the transport behave as documented, and the transport makes progress and is
    -- flushed. The core takes all input, the closure's step does not fail, and at most `wanted` bytes
    -- make it ready. Then the loop, with room in its read buffer and more fuel than that, succeeds: it
    -- reaches a step that is ready, and no byte waits to be written or flushed.
    pub pump_until_ready-Succeeds :
        (taken passed_on : t.T → Bytes)
        → IsQueue h k
        → IsTransport t taken passed_on
        → (wanted : k.S → ℕ) → Needs h k t step wanted
        → (Q : A → Type 0) → ((a : A) (s : k.S) → (step a s).1 ≡ ok (ready tt) → Q (step a s).0.0)
        → (fuel : ℕ) (a : A) (c : AsyncClient h k t) → 0 < length c.read_buf
        → Flushed h k t taken passed_on c
        → wanted c.core < fuel
        → Succeeds h k t taken passed_on Q (pump_until_ready h k t fuel step a c)
    pump_until_ready-Succeeds taken passed_on queue transport wanted needs Q stores fuel a c space
          flushed enough =
        all-Succeeds taken passed_on Q (pump_until_ready h k t fuel step a c)
          (pump_until_ready-Settled h k t taken passed_on queue transport Q step stores fuel a c
            flushed)
          (pump_until_ready-Ended h k t taken passed_on queue transport step wanted needs fuel a c
            flushed enough)
          (pump-Unfailed fuel a c space)
