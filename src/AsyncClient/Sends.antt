-- ===== src/AsyncClient/Sends.antt =====
-- `send_query`, `send_data` and `send_data_end`.
use clickhouse_c_rs.Base.{
  ◌≡◌, refl, ap, ◌∙◌, sym, [], ◌++◌, Bytes, Option, ◌⊎◌, inl, inr, append-nil,
}
use mathlib.Core.Path.{subst}
use clickhouse_c_rs.Sys
use clickhouse_c_rs.Error.{Result, ok, err}
use clickhouse_c_rs.Ioless
use clickhouse_c_rs.Ioless.{Core, pending_out}
use clickhouse_c_rs.AsyncClient.{
  Transport, AsyncClient, done, panicked, out_of_fuel, Out, drain_out, on_core, and_then,
  send_query, send_data, send_data_end,
}
use clickhouse_c_rs.AsyncClient.Drain.{
  IsTransport, IsQueue, stream_bytes, Flushed, Drained, drain_out-Drained,
}

module _ (h : Sys.Header) (k : Core) (t : Transport) (taken passed_on : t.T → Bytes) where
  -- A send on a core whose queue was empty.
  abbrev pub OnEmpty : (k.S → k.S × Result (Unit {0})) → (k.S → Type 0) → Type 0
  OnEmpty send P = (s : k.S) × ((pending_out h k s ≡ []) × P s)

  -- What a send does to a client that holds the bytes `all`. If it succeeds, the core's own send
  -- succeeded, and the transport has passed on the bytes and then what that send queued. If not,
  -- the bytes are kept, with those that the send queued if it came to that.
  abbrev pub Sent : (k.S → k.S × Result (Unit {0})) → Bytes → Out h k t (Unit {0}) → Type 0
  Sent send all (c, done (ok u)) =
      ((pending_out h k c.core ≡ []) × Flushed h k t taken passed_on c)
      × OnEmpty send
          (λ s. ((send s).1 ≡ ok tt) × (passed_on c.stream ≡ all ++ pending_out h k (send s).0))
  Sent send all (c, done (err e)) =
      (stream_bytes h k t taken passed_on c ≡ all)
      ⊎ OnEmpty send (λ s. stream_bytes h k t taken passed_on c ≡ all ++ pending_out h k (send s).0)
  Sent send all (c, panicked) = ⊥
  Sent send all (c, out_of_fuel) = ⊥

  module _ (queue : IsQueue h k) (transport : IsTransport t taken passed_on) where
    after_drain :
        (send : k.S → k.S × Result (Unit {0})) (all : Bytes) (s : k.S)
        → pending_out h k s ≡ []
        → (send s).1 ≡ ok tt
        → (out : Out h k t (Unit {0}))
        → Drained h k t taken passed_on (all ++ pending_out h k (send s).0) out
        → Sent send all out
    after_drain send all s empty fine (c, done (ok u)) (same, (sent, flushed)) = (
      (sent, flushed),
      (
        s,
        (
          empty,
          (
            fine,
            flushed
                ∙ sym (append-nil (taken c.stream))
                ∙ ap (λ x. taken c.stream ++ x) (sym sent)
                ∙ same,
          ),
        ),
      ),
    )
    after_drain send all s empty fine (c, done (err e)) same = inr (s, (empty, same))
    after_drain send all s empty fine (c, panicked) d = d
    after_drain send all s empty fine (c, out_of_fuel) d = d

    on_core-Sent :
        (send : k.S → k.S × Result (Unit {0})) (all : Bytes) (c : AsyncClient h k t) (s' : k.S)
        (r : Result (Unit {0}))
        → send c.core ≡ (s', r)
        → pending_out h k c.core ≡ []
        → Flushed h k t taken passed_on c
        → stream_bytes h k t taken passed_on c ≡ all
        → Sent send all (and_then h k t (on_core h k t c (s', r)) (λ c u. drain_out h k t c))
    on_core-Sent send all c s' (ok u) at empty flushed same =
        let c' = record c { core = s' } in
        let bytes : stream_bytes h k t taken passed_on c' ≡ all ++ pending_out h k (send c.core).0 =
          ap (λ x. x ++ pending_out h k s')
            (sym (append-nil (taken c.stream)) ∙ ap (λ x. taken c.stream ++ x) (sym empty) ∙ same)
          ∙ ap (λ p. all ++ pending_out h k p.0) (sym at) in
        after_drain send all c.core empty (ap (λ p. p.1) at) (drain_out h k t c') (
          subst (λ b. Drained h k t taken passed_on b (drain_out h k t c')) bytes
            (drain_out-Drained h k t taken passed_on queue transport c' flushed))
    on_core-Sent send all c s' (err e) at empty flushed same = inr (
      c.core,
      (
        empty,
        ap (λ x. x ++ pending_out h k s')
              (sym (append-nil (taken c.stream)) ∙ ap (λ x. taken c.stream ++ x) (sym empty) ∙ same)
            ∙ ap (λ p. all ++ pending_out h k p.0) (sym at),
      ),
    )

    first-Sent :
        (send : k.S → k.S × Result (Unit {0})) (all : Bytes) (out : Out h k t (Unit {0}))
        → Drained h k t taken passed_on all out
        → Sent send all (
            and_then h k t out
              (λ c u. and_then h k t (on_core h k t c (send c.core)) (λ c u. drain_out h k t c)))
    first-Sent send all (c, done (ok u)) (same, (empty, flushed)) =
        on_core-Sent send all c (send c.core).0 (send c.core).1 refl empty flushed same
    first-Sent send all (c, done (err e)) same = inl same
    first-Sent send all (c, panicked) d = d
    first-Sent send all (c, out_of_fuel) d = d

    -- If the core's queue and the transport behave as documented and the transport is flushed, each
    -- send method ends. On success the transport has passed on all the bytes queued before, and then
    -- exactly what the core's send queued; on an error no byte is lost.
    pub send-Sent :
        (c : AsyncClient h k t) (sql : Bytes) (query_id : Option Bytes) (builder : Option k.D)
        → Flushed h k t taken passed_on c
        → Sent
            (λ s. Ioless.send_query h k s sql query_id)
            (stream_bytes h k t taken passed_on c)
            (send_query h k t c sql query_id)
          × Sent
              (λ s. Ioless.send_data h k s builder)
              (stream_bytes h k t taken passed_on c)
              (send_data h k t c builder)
          × Sent
              (λ s. Ioless.send_data_end h k s)
              (stream_bytes h k t taken passed_on c)
              (send_data_end h k t c)
    unfolding send_query send_data send_data_end
    send-Sent c sql query_id builder flushed =
        let all = stream_bytes h k t taken passed_on c in
        let first = drain_out-Drained h k t taken passed_on queue transport c flushed in
        (
          first-Sent (λ s. Ioless.send_query h k s sql query_id) all (drain_out h k t c) first,
          first-Sent (λ s. Ioless.send_data h k s builder) all (drain_out h k t c) first,
          first-Sent (λ s. Ioless.send_data_end h k s) all (drain_out h k t c) first,
        )
