-- ===== src/Ioless/Handles.antt =====
-- Allocations across `recv_event` and `handshake`.
use clickhouse_c_rs.Base.{
  ℕ, ◌+◌, ◌-◌, arith, ◌≡◌, refl, ap, ◌∙◌, sym, List, [], ◌∷◌, ◌++◌, Option, none, some, inl, inr,
  Bool-cases,
}
use clickhouse_c_rs.Base.Int.{◌==ℤ◌, ==ℤ_iff}
use clickhouse_c_rs.Sys
use clickhouse_c_rs.Error.{Result, ok, err, check}
use clickhouse_c_rs.Client.Event.{Event, Packet, from_raw}
use clickhouse_c_rs.Client.Event.Ownership.{
  Handle, exc, event_handles, of_exception, packet_handles, from_raw-handles,
}
use clickhouse_c_rs.Ioless.{
  Core, Returned, Step, ready, needs_input, recv_event, received, ready_event, handshake, shaken,
}

-- A count of handles: all of them if every weight is one, and the occurrences of one handle if its
-- weight is one and the others' are zero.
abbrev pub weigh : {H : Type 0} → (H → ℕ) → List H → ℕ
weigh w [] = 0
weigh w (x ∷ xs) = w x + weigh w xs

pub weigh-append :
    {H : Type 0} (w : H → ℕ) (xs ys : List H) → weigh w (xs ++ ys) ≡ weigh w xs + weigh w ys
weigh-append w [] ys = omega arith
weigh-append w (x ∷ xs) ys = omega (arith, weigh-append w xs ys)

-- The handles that the caller of `recv_event` gets.
abbrev pub step_handles : {B X : Type 0} → Result (Step (Event B X)) → List (Handle B X)
step_handles (ok (ready e)) = event_handles (ok e)
step_handles (ok needs_input) = []
step_handles (err e) = []

module _ (h : Sys.Header) (k : Core) (w : Handle k.B k.X → ℕ) where
  -- How the C functions treat what they allocate, where `live` weighs the live allocations: a received
  -- packet's payload and a server exception are new, a wait for input brings none, and clearing a
  -- packet frees what the packet still holds.
  pub record Frees (live : k.S → ℕ) : Type 0 where
    pub received_is_new :
        (s : k.S)
        → live (k.chc_async_recv_packet s).1.state
          ≡ weigh w (packet_handles h (k.chc_async_recv_packet s).0) + live s
    pub blocked_is_empty :
        (s : k.S)
        → (k.chc_async_recv_packet s).1.rc ≡ h.code Sys.chc_would_block
        → packet_handles h (k.chc_async_recv_packet s).0 ≡ []
    pub clear_frees :
        (s : k.S) (p : Packet k.B k.X)
        → live (k.chc_async_packet_clear s p) ≡ live s - weigh w (packet_handles h p)
    pub refused_is_new :
        (s : k.S)
        → live (k.chc_async_handshake s).1.state
          ≡ weigh w (of_exception (k.chc_async_handshake s).0) + live s
    pub exception_frees : (s : k.S) (x : k.X) → live (k.chc_exception_free s x) ≡ live s - w (exc x)

  step_handles-ready :
      (r : Result (Event k.B k.X)) → step_handles (ready_event h k r) ≡ event_handles r
  step_handles-ready (ok e) = refl
  step_handles-ready (err e) = refl

  module _ (live : k.S → ℕ) (frees : Frees live) where
    received-live :
        (raw : Packet k.B k.X) (s : k.S) (before : ℕ) (r : Result (Unit {0}))
        → live s ≡ weigh w (packet_handles h raw) + before
        → live (received h k raw s r).0 ≡ weigh w (step_handles (received h k raw s r).1) + before
    received-live raw s before (err e) held = omega (arith, frees.clear_frees s raw)
    received-live raw s before (ok u) held =
        let (raw', event) = from_raw h raw in
        let left = packet_handles h raw' in
        let split = ap (weigh w) (sym (from_raw-handles h raw)) in
        let sum = weigh-append w (event_handles event) left in
        let given = ap (weigh w) (step_handles-ready event) in
        omega (arith, frees.clear_frees s raw')

    -- If the C functions allocate and free as documented, then after `recv_event`, whichever way it
    -- returns, the live allocations are those from before and the payload of the event that it
    -- returned: an error, an unknown packet kind or a missing payload leaks nothing, and clearing the
    -- packet frees nothing that the caller got.
    pub recv_event-live :
        (s : k.S) → live (recv_event h k s).0 ≡ weigh w (step_handles (recv_event h k s).1) + live s
    unfolding recv_event
    recv_event-live s =
        let (raw, r) = k.chc_async_recv_packet s in
        let blocks = h.code Sys.chc_would_block in
        elim (Bool-cases (r.rc ==ℤ blocks)) [
          | inl e ↦
              let empty = ap (weigh w) (frees.blocked_is_empty s ((==ℤ_iff r.rc blocks).0 e)) in
              rw e (frees.received_is_new s ∙ ap (λ n. n + live s) empty)
          | inr e ↦
              rw e
                (received-live raw r.state (live s) (check h r.rc r.msg) (frees.received_is_new s))
        ]

    shaken-live :
        (x : Option k.X) (r : Returned k.S) (before : ℕ)
        → live r.state ≡ weigh w (of_exception x) + before
        → live (shaken h k x r).0 ≡ before
    shaken-live none r before held = omega arith
    shaken-live (some x) r before held = omega (arith, frees.exception_frees r.state x)

    -- If the C functions allocate and free as documented, the handshake leaves the live allocations
    -- as they were, whichever way it returns: a server exception is freed once its text is copied.
    pub handshake-live : (s : k.S) → live (handshake h k s).0 ≡ live s
    unfolding handshake
    handshake-live s =
        let (x, r) = k.chc_async_handshake s in shaken-live x r (live s) (frees.refused_is_new s)
