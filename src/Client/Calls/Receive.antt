-- ===== src/Client/Calls/Receive.antt =====
-- Allocations across `recv_event` of the blocking client.
use clickhouse_c_rs.Base.{ℕ, ◌+◌, ◌-◌, ◌≡◌, ap, sym, arith}
use clickhouse_c_rs.Sys
use clickhouse_c_rs.Error.{Result, ok, err, check}
use clickhouse_c_rs.Client.Event.{Packet, from_raw}
use clickhouse_c_rs.Client.Event.Ownership.{Handle, event_handles, packet_handles, from_raw-handles}
use clickhouse_c_rs.Client.Calls.{Connection, received, recv_event}
use clickhouse_c_rs.Ioless.Handles.{weigh, weigh-append}

module _ (h : Sys.Header) (k : Connection) (w : Handle k.B k.X → ℕ) where
  -- A received packet's payload is new, and clearing a packet frees what it still holds.
  pub record FreesPackets (live : k.S → ℕ) : Type 0 where
    pub packet_is_new :
        (s : k.S)
        → live (k.chc_client_recv_packet s).1.state
          ≡ weigh w (packet_handles h (k.chc_client_recv_packet s).0) + live s
    pub packet_frees :
        (s : k.S) (p : Packet k.B k.X)
        → live (k.chc_packet_clear s p) ≡ live s - weigh w (packet_handles h p)

  module _ (live : k.S → ℕ) (frees : FreesPackets live) where
    received_live :
        (raw : Packet k.B k.X) (s : k.S) (before : ℕ) (r : Result (Unit {0}))
        → live s ≡ weigh w (packet_handles h raw) + before
        → live (received h k raw s r).0 ≡ weigh w (event_handles (received h k raw s r).1) + before
    received_live raw s before (err e) held = omega (arith, frees.packet_frees s raw)
    received_live raw s before (ok u) held =
        let (raw', event) = from_raw h raw in
        let left = packet_handles h raw' in
        let split = ap (weigh w) (sym (from_raw-handles h raw)) in
        let sum = weigh-append w (event_handles event) left in
        omega (arith, frees.packet_frees s raw')

    -- If the C functions allocate and free as documented, then after the blocking `recv_event`,
    -- whichever way it returns, the live allocations are those from before and the payload of the
    -- event that it returned.
    pub blocking_recv_event-live :
        (s : k.S)
        → live (recv_event h k s).0 ≡ weigh w (event_handles (recv_event h k s).1) + live s
    unfolding recv_event
    blocking_recv_event-live s =
        let (raw, r) = k.chc_client_recv_packet s in
        received_live raw r.state (live s) (check h r.rc r.msg) (frees.packet_is_new s)
