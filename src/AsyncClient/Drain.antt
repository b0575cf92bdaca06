-- ===== src/AsyncClient/Drain.antt =====
-- `drain_out`: the write loop.
use clickhouse_c_rs.Base.{
  ℕ, zero, suc, ◌≤◌, ◌<◌, ◌≡◌, ◌≢◌, refl, ap, ◌∙◌, sym, Bool, true, false, [], ◌∷◌, ◌++◌, Bytes,
  length, take, drop, ◌==◌, ◌⊎◌, inl, inr, length-drop, take-append-drop, ==_iff, append_assoc,
  append-nil, arith, Bool-cases,
}
use mathlib.Core.Path.{subst}
use clickhouse_c_rs.Sys
use clickhouse_c_rs.Error.{Result, ok, err, Error}
use clickhouse_c_rs.Ioless.{Core, pending_out, consume_out}
use clickhouse_c_rs.AsyncClient.{
  Transport, AsyncClient, done, panicked, out_of_fuel, is_empty, Out, flush_if, after_write,
  drain_loop, drain_out,
}

-- What a transport has taken from its caller, and what it has passed on. A write takes a front part
-- of its argument, an error takes nothing, and a flush passes on what was taken.
pub record IsTransport (t : Transport) (taken passed_on : t.T → Bytes) : Type 0 where
  pub write_takes :
      (s : t.T) (buf : Bytes) (n : ℕ)
      → (t.write s buf).1 ≡ ok n
      → (n ≤ length buf) × (taken (t.write s buf).0 ≡ taken s ++ take n buf)
  pub write_error :
      (s : t.T) (buf : Bytes) (e : Error)
      → (t.write s buf).1 ≡ err e
      → taken (t.write s buf).0 ≡ taken s
  pub flush_keeps : (s : t.T) → taken (t.flush s).0 ≡ taken s
  pub flush_passes_on :
      (s : t.T) → (t.flush s).1 ≡ ok tt → passed_on (t.flush s).0 ≡ taken (t.flush s).0
  pub read_fits :
      (s : t.T) (buf : Bytes) (n : ℕ) → (t.read s buf).1 ≡ ok n → n ≤ length (t.read s buf).0.1
  pub read_keeps :
      (s : t.T) (buf : Bytes)
      → (taken (t.read s buf).0.0 ≡ taken s) × (passed_on (t.read s buf).0.0 ≡ passed_on s)

-- Consuming bytes of the output drops them from its front.
abbrev pub IsQueue : Sys.Header → Core → Type 0
IsQueue h k =
    (s : k.S) (n : ℕ)
    → n ≤ length (pending_out h k s)
    → pending_out h k (consume_out h k s n) ≡ drop n (pending_out h k s)

is_empty-nil : (b : Bytes) → is_empty b ≡ true → b ≡ []
is_empty-nil [] e = refl
is_empty-nil (x ∷ xs) e = cc

module _ (h : Sys.Header) (k : Core) (t : Transport) where
  module _ (taken passed_on : t.T → Bytes) where
    -- All the bytes of a connection: those that the transport took, and those still queued.
    abbrev pub stream_bytes : AsyncClient h k t → Bytes
    stream_bytes c = taken c.stream ++ pending_out h k c.core

    abbrev pub Flushed : AsyncClient h k t → Type 0
    Flushed c = passed_on c.stream ≡ taken c.stream

    -- What a run of the loop does to a client that holds the bytes `all`: it ends, loses no byte, and
    -- if it ends well then the queue is empty and the transport has passed on all it took.
    abbrev pub Drained : Bytes → Out h k t (Unit {0}) → Type 0
    Drained all (c, done (ok u)) =
        (stream_bytes c ≡ all) × ((pending_out h k c.core ≡ []) × Flushed c)
    Drained all (c, done (err e)) = stream_bytes c ≡ all
    Drained all (c, panicked) = ⊥
    Drained all (c, out_of_fuel) = ⊥

    module _ (queue : IsQueue h k) (transport : IsTransport t taken passed_on) where
      flushed_run :
          (c : AsyncClient h k t) (s : t.T) (r : Result (Unit {0}))
          → pending_out h k c.core ≡ []
          → taken s ≡ taken c.stream
          → (r ≡ ok tt → passed_on s ≡ taken s)
          → Drained (stream_bytes c) (record c { stream = s }, done r)
      flushed_run c s (ok u) empty same pass =
          (ap (λ x. x ++ pending_out h k c.core) same, (empty, pass refl))
      flushed_run c s (err e) empty same pass = ap (λ x. x ++ pending_out h k c.core) same

      flush_if-Drained :
          (wrote : Bool) (c : AsyncClient h k t)
          → pending_out h k c.core ≡ []
          → (wrote ≡ true) ⊎ Flushed c
          → Drained (stream_bytes c) (flush_if h k t wrote c)
      flush_if-Drained false c empty (inl e) = cc
      flush_if-Drained false c empty (inr f) = (refl, (empty, f))
      flush_if-Drained true c empty _ =
          let (s, r) = t.flush c.stream in
          flushed_run c s r empty (transport.flush_keeps c.stream)
            (transport.flush_passes_on c.stream)

      after_write-Drained :
          (again : AsyncClient h k t → Out h k t (Unit {0})) (fuel : ℕ)
          → ((c : AsyncClient h k t)
              → length (pending_out h k c.core) < fuel
              → Drained (stream_bytes c) (again c))
          → (c : AsyncClient h k t) (s : t.T) (r : Result ℕ)
          → length (pending_out h k c.core) < suc fuel
          → ((n : ℕ)
              → r ≡ ok n
              → (n ≤ length (pending_out h k c.core))
                × (taken s ≡ taken c.stream ++ take n (pending_out h k c.core)))
          → ((e : Error) → r ≡ err e → taken s ≡ taken c.stream)
          → Drained (stream_bytes c) (after_write h k t again (record c { stream = s }) r)
      after_write-Drained again fuel ih c s (err e) small write_ok write_err =
          ap (λ x. x ++ pending_out h k c.core) (write_err e refl)
      after_write-Drained again fuel ih c s (ok n) small write_ok write_err =
          let pending = pending_out h k c.core in
          let (within, took) = write_ok n refl in
          elim (Bool-cases (n == 0)) [
            | inl none_taken ↦
                let n0 : n ≡ 0 = (==_iff n 0).0 none_taken in
                let same : taken s ≡ taken c.stream =
                  took
                  ∙ ap (λ m. taken c.stream ++ take m pending) n0
                  ∙ append-nil (taken c.stream) in
                rw none_taken (ap (λ x. x ++ pending) same)
            | inr some_taken ↦
                let n_ne : n ≢ 0 = λ e. cc (sym some_taken ∙ (==_iff n 0).1 e) in
                let next = record c { core = consume_out h k c.core n; stream = s } in
                let dropped = queue c.core n within in
                let len = ap length dropped ∙ length-drop n pending in
                let all : stream_bytes next ≡ stream_bytes c =
                  ap (λ x. x ++ pending_out h k next.core) took
                  ∙ ap (λ x. (taken c.stream ++ take n pending) ++ x) dropped
                  ∙ append_assoc (taken c.stream) (take n pending) (drop n pending)
                  ∙ ap (λ x. taken c.stream ++ x) (take-append-drop n pending) in
                rw some_taken (subst (λ b. Drained b (again next)) all (ih next (omega arith)))
          ]

      drain_loop-Drained :
          (fuel : ℕ) (wrote : Bool) (c : AsyncClient h k t)
          → length (pending_out h k c.core) < fuel
          → (wrote ≡ true) ⊎ Flushed c
          → Drained (stream_bytes c) (drain_loop h k t fuel wrote c)
      unfolding drain_loop
      drain_loop-Drained zero wrote c small flushed = absurd (omega arith)
      drain_loop-Drained (suc fuel) wrote c small flushed =
          let pending = pending_out h k c.core in
          elim (Bool-cases (is_empty pending)) [
            | inl e ↦ rw e (flush_if-Drained wrote c (is_empty-nil pending e) flushed)
            | inr e ↦ rw e (
                after_write-Drained (drain_loop h k t fuel true) fuel
                  (λ c small. drain_loop-Drained fuel true c small (inl refl)) c
                  (t.write c.stream pending).0 (t.write c.stream pending).1 small
                  (transport.write_takes c.stream pending) (transport.write_error c.stream pending))
          ]

      -- If the core's queue and the transport behave as documented and the transport is flushed, then
      -- `drain_out` ends, whatever the transport answers: one iteration more than there are queued
      -- bytes is enough. It loses and repeats no byte, on its errors too, and if it succeeds then the
      -- queue is empty and the transport has passed on all the bytes.
      pub drain_out-Drained :
          (c : AsyncClient h k t) → Flushed c → Drained (stream_bytes c) (drain_out h k t c)
      unfolding drain_out
      drain_out-Drained c flushed =
          drain_loop-Drained (suc (length (pending_out h k c.core))) false c (omega arith)
            (inr flushed)
