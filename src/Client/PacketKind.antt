-- ===== src/Client/PacketKind.antt =====
-- src/client.rs: `PacketKind` and its conversion from a C discriminant.
use clickhouse_c_rs.Base.{◌≡◌, refl, ◌↔◌, Option, some, List, [], ◌∷◌}
use clickhouse_c_rs.Base.Arms.{match_arms, match_names, match_arms_iff}
use clickhouse_c_rs.Base.Int.{ℤ}
use clickhouse_c_rs.Sys
use clickhouse_c_rs.Sys.Ranks.{packet_kind_rank, packet_kind_rank-Injective}

pub data PacketKind : Type 0 where
  data_packet exception progress pong end_of_stream profile_info totals extremes log : PacketKind
  table_columns profile_events timezone_update : PacketKind

-- The constant that a variant is defined by; `as i32` gives its value.
abbrev pub discriminant : PacketKind → Sys.ChcPacketKind
discriminant data_packet = Sys.chc_pkt_data
discriminant exception = Sys.chc_pkt_exception
discriminant progress = Sys.chc_pkt_progress
discriminant pong = Sys.chc_pkt_pong
discriminant end_of_stream = Sys.chc_pkt_end_of_stream
discriminant profile_info = Sys.chc_pkt_profile_info
discriminant totals = Sys.chc_pkt_totals
discriminant extremes = Sys.chc_pkt_extremes
discriminant log = Sys.chc_pkt_log
discriminant table_columns = Sys.chc_pkt_table_columns
discriminant profile_events = Sys.chc_pkt_profile_events
discriminant timezone_update = Sys.chc_pkt_timezone_update

-- The arms of the `match` in `from_raw`.
abbrev pub arms : List (Sys.ChcPacketKind × PacketKind)
arms =
    (Sys.chc_pkt_data, data_packet)
    ∷ (Sys.chc_pkt_exception, exception)
    ∷ (Sys.chc_pkt_progress, progress)
    ∷ (Sys.chc_pkt_pong, pong)
    ∷ (Sys.chc_pkt_end_of_stream, end_of_stream)
    ∷ (Sys.chc_pkt_profile_info, profile_info)
    ∷ (Sys.chc_pkt_totals, totals)
    ∷ (Sys.chc_pkt_extremes, extremes)
    ∷ (Sys.chc_pkt_log, log)
    ∷ (Sys.chc_pkt_table_columns, table_columns)
    ∷ (Sys.chc_pkt_profile_events, profile_events)
    ∷ (Sys.chc_pkt_timezone_update, timezone_update)
    ∷ []

unfoldable pub from_raw : Sys.Header → ℤ → Option PacketKind
from_raw h k = match_arms h.packet_kind arms k

arms_cover : (v : PacketKind) → match_names packet_kind_rank arms (discriminant v) ≡ some v
arms_cover data_packet = refl
arms_cover _ = refl

-- With the header's constants distinct, a packet kind converts to a variant exactly when its value is that of the constant that the variant is defined by.
pub packet_kind-discriminant :
    (h : Sys.Header)
    → Sys.IsHeader h
    → (k : ℤ) (v : PacketKind) → (from_raw h k ≡ some v) ↔ (h.packet_kind (discriminant v) ≡ k)
unfolding from_raw
packet_kind-discriminant h valid k v =
    match_arms_iff h.packet_kind packet_kind_rank discriminant arms valid.packet_kind-Injective
      packet_kind_rank-Injective refl arms_cover k v
