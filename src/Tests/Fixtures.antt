-- ===== src/Tests/Fixtures.antt =====
-- Stand-ins for the C header, the C builders, the C client and a transport.
use clickhouse_c_rs.Base.{
  ℕ, zero, suc, ◌+◌, ◌-◌, ◌≤◌, ◌≡◌, refl, ap, ◌∙◌, sym, true, List, [], ◌∷◌, ◌++◌, Bytes, Option,
  none, some, length, take, drop, min, arith, map, Bool-cases, inl, inr, ◌==◌, ==_iff,
}
use clickhouse_c_rs.Base.Arms.{Injective}
use clickhouse_c_rs.Base.Int.{ℤ, pos}
use clickhouse_c_rs.Sys
use clickhouse_c_rs.Sys.Ranks.{
  code_rank, code_rank-Injective, kind_rank, kind_rank-Injective, interval_unit_rank,
  interval_unit_rank-Injective, col_kind_rank, col_kind_rank-Injective, compression_rank,
  compression_rank-Injective, packet_kind_rank, packet_kind_rank-Injective,
}
use clickhouse_c_rs.Error.{ok}
use clickhouse_c_rs.Builder.{Target, Column, nil, n_rows, of_list, Nodes}
use clickhouse_c_rs.Builder.WellFormed.{IsNodes}
use clickhouse_c_rs.Client.PacketKind
use clickhouse_c_rs.Client.Event.{Packet, Progress, RawProfile, RawException}
use clickhouse_c_rs.Client.Event.Ownership.{Handle, packet_handles}
use clickhouse_c_rs.Ioless
use clickhouse_c_rs.Ioless.{Core, Returned}
use clickhouse_c_rs.Ioless.Handles.{Frees, weigh}
use clickhouse_c_rs.AsyncClient.{Transport}
use clickhouse_c_rs.AsyncClient.Drain.{IsTransport, IsQueue}

-- Constants numbered in the order of their declaration.
abbrev pub header : Sys.Header
header = record {
  code = λ c. pos (code_rank c);
  kind = λ c. pos (kind_rank c);
  interval_unit = λ c. pos (interval_unit_rank c);
  col_kind = λ c. pos (col_kind_rank c);
  compression = λ c. pos (compression_rank c);
  packet_kind = λ c. pos (packet_kind_rank c);
  err_msg_len = 512;
}

pos-Injective : {A : Type 0} (f : A → ℕ) → Injective f → Injective (λ a. pos (f a))
pos-Injective f inj a b same = inj a b (cc same)

pub header-IsHeader : Sys.IsHeader header
header-IsHeader = record {
  code-Injective = pos-Injective code_rank code_rank-Injective;
  kind-Injective = pos-Injective kind_rank kind_rank-Injective;
  interval_unit-Injective = pos-Injective interval_unit_rank interval_unit_rank-Injective;
  col_kind-Injective = pos-Injective col_kind_rank col_kind_rank-Injective;
  compression-Injective = pos-Injective compression_rank compression_rank-Injective;
  packet_kind-Injective = pos-Injective packet_kind_rank packet_kind_rank-Injective;
  err_msg_len_pos = omega arith;
}

abbrev pub target : Target
target = record { usize_max = 18446744073709551615; little_endian = true }

-- Builders that store their arguments.
abbrev somes : {A : Type 0} → List (Option A) → List A
somes [] = []
somes (none ∷ os) = somes os
somes (some a ∷ os) = a ∷ somes os

somes-map : {A : Type 0} (xs : List A) → somes (map some xs) ≡ xs
somes-map [] = refl
somes-map (a ∷ xs) = ap (◌∷◌ a) (somes-map xs)

abbrev tuple_node : List Column → Column
tuple_node [] = Column.tuple 0 nil
tuple_node (first ∷ others) = Column.tuple (n_rows first) (of_list (first ∷ others))

abbrev pub nodes : Nodes
nodes = record {
  chc_build_fixed = λ d e n. Column.fixed n e d;
  chc_build_string = λ o d n. Column.string n o d;
  chc_build_nullable = λ m i. Column.nullable (n_rows i) m i;
  chc_build_array = λ o n v. Column.array n o v;
  chc_build_tuple = λ ptrs. tuple_node (somes ptrs);
  chc_build_lc = λ k ks n d. Column.low_cardinality n k ks d;
}

pub nodes-IsNodes : IsNodes nodes
nodes-IsNodes = record {
  fixed_node = λ d e n. refl;
  string_node = λ o d n. refl;
  nullable_node = λ m i. refl;
  array_node = λ o n v. refl;
  tuple_node = λ first others same. ap tuple_node (somes-map (first ∷ others));
  lc_node = λ k ks n d. refl;
}

-- A client that queues what it is told to send, and delivers block 7 once it has three bytes of
-- input. It counts its live allocations.
pub record Toy : Type 0 where
  pub queued : Bytes
  pub needed : ℕ
  pub live : ℕ

abbrev toy_ok : Toy → Returned Toy
toy_ok s = record { state = s; rc = pos 0; msg = [] }

abbrev no_progress : Progress
no_progress = record {
  rows = 0;
  bytes = 0;
  total_rows = 0;
  total_bytes = 0;
  written_rows = 0;
  written_bytes = 0;
  elapsed_ns = 0;
}

abbrev no_profile : RawProfile
no_profile = record {
  rows = 0;
  blocks = 0;
  bytes = 0;
  rows_before_limit = 0;
  applied_limit = 0;
  calculated_rows_before_limit = 0;
}

abbrev pub packet_of : ℤ → Option ℕ → Packet ℕ ℕ
packet_of kind block = record {
  kind = kind;
  block = block;
  exception = none;
  progress = no_progress;
  profile = no_profile;
}

abbrev toy_recv : ℕ → Toy → Packet ℕ ℕ × Returned Toy
toy_recv zero s = (
  packet_of (pos (packet_kind_rank Sys.chc_pkt_data)) (some 7),
  toy_ok (record s { live = 1 + s.live }),
)
toy_recv (suc n) s = (
  packet_of (pos (packet_kind_rank Sys.chc_pkt_pong)) none,
  record { state = s; rc = pos (code_rank Sys.chc_would_block); msg = [] },
)

abbrev pub one : {B X : Type 0} → Handle B X → ℕ
one x = 1

abbrev pub no_raw_exception : RawException
no_raw_exception = record {
  code = pos 62;
  name = none;
  name_len = 0;
  display_text = none;
  display_text_len = 0;
  stack_trace = none;
  stack_trace_len = 0;
}

abbrev pub toy : Core
toy = record {
  S = Toy;
  B = ℕ;
  X = ℕ;
  D = Bytes;
  chc_async_submit = λ s input. toy_ok (record s { needed = s.needed - length input });
  chc_async_pending_out = λ s. (some s.queued, length s.queued);
  chc_async_consume_out = λ s n. record s { queued = drop n s.queued };
  chc_async_handshake = λ s. (some 9, toy_ok (record s { live = 1 + s.live }));
  chc_async_send_query = λ s sql id len. toy_ok (record s { queued = s.queued ++ sql });
  chc_async_send_data = λ s d. toy_ok (record s { queued = s.queued ++ 1 ∷ [] });
  chc_async_send_data_end = λ s. toy_ok (record s { queued = s.queued ++ 0 ∷ [] });
  chc_async_recv_packet = λ s. toy_recv s.needed s;
  chc_async_packet_clear = λ s p. record s { live = s.live - weigh one (packet_handles header p) };
  chc_exception_free = λ s x. record s { live = s.live - 1 };
  exception_at = λ s x. no_raw_exception;
}

received_new :
    (n : ℕ) (s : Toy)
    → (toy_recv n s).1.state.live ≡ weigh one (packet_handles header (toy_recv n s).0) + s.live
unfolding PacketKind.from_raw
received_new zero s = refl
received_new (suc n) s = omega arith

blocked_empty :
    (n : ℕ) (s : Toy)
    → (toy_recv n s).1.rc ≡ pos (code_rank Sys.chc_would_block)
    → packet_handles header (toy_recv n s).0 ≡ []
unfolding PacketKind.from_raw
blocked_empty zero s at = cc
blocked_empty (suc n) s at = refl

-- The toy's packet holds its block; clearing takes the handles off the count.
pub toy-Frees : Frees header toy one (λ s. s.live)
toy-Frees = record {
  received_is_new = λ s. received_new s.needed s;
  blocked_is_empty = λ s at. blocked_empty s.needed s at;
  clear_frees = λ s p. refl;
  refused_is_new = λ s. omega arith;
  exception_frees = λ s x. refl;
}

-- A transport that takes at most two bytes of a write, and from which every read brings one byte.
abbrev pub Wire : Type 0
Wire = Bytes × Bytes

abbrev pub wire : Transport
wire = record {
  T = Wire;
  write = λ s buf. ((s.0 ++ take (min 2 (length buf)) buf, s.1), ok (min 2 (length buf)));
  flush = λ s. ((s.0, s.0), ok tt);
  read = λ s buf. ((s, buf), ok (min 1 (length buf)));
}

abbrev pub taken : Wire → Bytes
taken s = s.0

abbrev pub passed_on : Wire → Bytes
passed_on s = s.1

written :
    (before buf : Bytes) (n : ℕ)
    → min 2 (length buf) ≡ n
    → (n ≤ length buf) × (before ++ take (min 2 (length buf)) buf ≡ before ++ take n buf)
written before buf n e = (omega arith, ap (λ m. before ++ take m buf) e)

pub wire-IsTransport : IsTransport wire taken passed_on
wire-IsTransport = record {
  write_takes = λ s buf n e. written s.0 buf n (cc e);
  write_error = λ s buf e failed. cc;
  flush_keeps = λ s. refl;
  flush_passes_on = λ s e. refl;
  read_fits = λ s buf n e. let is : min 1 (length buf) ≡ n = cc e in omega arith;
  read_keeps = λ s buf. (refl, refl);
}

take_all : (bs : Bytes) → take (length bs) bs ≡ bs
take_all [] = refl
take_all (b ∷ bs) = ap (◌∷◌ b) (take_all bs)

slice_self : (bs : Bytes) → Ioless.slice_of header toy (some bs, length bs) ≡ bs
slice_self [] = refl
slice_self (b ∷ bs) = elim (Bool-cases (length (b ∷ bs) == 0)) [
  | inl e ↦ absurd (omega (arith, (==_iff (length (b ∷ bs)) 0).0 e))
  | inr e ↦ rw e (take_all (b ∷ bs))
]

pub toy-IsQueue : IsQueue header toy
unfolding Ioless.pending_out Ioless.consume_out
toy-IsQueue s n within = slice_self (drop n s.queued) ∙ ap (drop n) (sym (slice_self s.queued))
