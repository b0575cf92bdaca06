-- ===== src/Client/Event/Ownership.antt =====
-- A payload has one owner.
use clickhouse_c_rs.Base.{◌≡◌, refl, ap, ◌∙◌, List, [], ◌∷◌, ◌++◌, Option, none, some, arith}
use clickhouse_c_rs.Sys
use clickhouse_c_rs.Error.{Result, ok}
use clickhouse_c_rs.Client.PacketKind.{
  PacketKind, data_packet, exception, progress, pong, end_of_stream, profile_info, totals, extremes,
  log, table_columns, profile_events, timezone_update,
}
use clickhouse_c_rs.Client.PacketKind
use clickhouse_c_rs.Client.Event.{
  Packet, Event, data_event, totals_event, extremes_event, log_event, profile_events_event,
  exception_event, from_raw, event_of, take_block, take_exception,
}

-- Something that C allocated and that has to be freed once.
pub data Handle (B X : Type 0) : Type 0 where
  block : B → Handle B X
  exc : X → Handle B X

module _ {B X : Type 0} where
  abbrev of_block : Option B → List (Handle B X)
  of_block none = []
  of_block (some b) = block b ∷ []

  abbrev pub of_exception : Option X → List (Handle B X)
  of_exception none = []
  of_exception (some x) = exc x ∷ []

  -- The handles that a packet holds: its kind says which pointer of the union is one.
  abbrev pub of_kind : Option PacketKind → Packet B X → List (Handle B X)
  of_kind (some data_packet) p = of_block p.block
  of_kind (some totals) p = of_block p.block
  of_kind (some extremes) p = of_block p.block
  of_kind (some log) p = of_block p.block
  of_kind (some profile_events) p = of_block p.block
  of_kind (some exception) p = of_exception p.exception
  of_kind _ p = []

  abbrev pub packet_handles : Sys.Header → Packet B X → List (Handle B X)
  packet_handles h p = of_kind (PacketKind.from_raw h p.kind) p

  -- The handles that the caller gets with an event, and must free.
  abbrev pub event_handles : Result (Event B X) → List (Handle B X)
  event_handles (ok (data_event b)) = block b ∷ []
  event_handles (ok (totals_event b)) = block b ∷ []
  event_handles (ok (extremes_event b)) = block b ∷ []
  event_handles (ok (log_event b)) = block b ∷ []
  event_handles (ok (profile_events_event b)) = block b ∷ []
  event_handles (ok (exception_event x)) = exc x ∷ []
  event_handles _ = []

  event_of-kind : (k : Option PacketKind) (p : Packet B X) → (event_of k p).0.kind ≡ p.kind
  unfolding take_block take_exception
  event_of-kind none p = refl
  event_of-kind (some data_packet) p = ground arith
  event_of-kind (some _) p = ground arith

  event_of-handles :
      (k : Option PacketKind) (p : Packet B X)
      → event_handles (event_of k p).1 ++ of_kind k (event_of k p).0 ≡ of_kind k p
  unfolding take_block take_exception
  event_of-handles none p = refl
  event_of-handles (some data_packet) p = ground arith
  event_of-handles (some _) p = ground arith

  -- The conversion splits a packet's handles between the event and what the packet still holds: none
  -- is lost, and none is in both, so that clearing the packet frees no payload of the event.
  pub from_raw-handles :
      (h : Sys.Header) (p : Packet B X)
      → event_handles (from_raw h p).1 ++ packet_handles h (from_raw h p).0 ≡ packet_handles h p
  unfolding from_raw
  from_raw-handles h p =
      let k = PacketKind.from_raw h p.kind in
      let same = ap (PacketKind.from_raw h) (event_of-kind k p) in
      ap (λ j. event_handles (event_of k p).1 ++ of_kind j (event_of k p).0) same
      ∙ event_of-handles k p
