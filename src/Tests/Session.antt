-- ===== src/Tests/Session.antt =====
-- Programs' sessions with the two clients.
use clickhouse_c_rs.Base.{◌-◌, refl, List, [], ◌∷◌, none}
use clickhouse_c_rs.Error.{ok}
use clickhouse_c_rs.Client.Payloads.{Accounted, Destroys}
use clickhouse_c_rs.Client.Calls.Session as Blocking
use clickhouse_c_rs.Client.Calls.Session.{Frees, blocking_run-Accounted}
use clickhouse_c_rs.Tests.Client.{rejecting, rejecting-FreesPackets}
use clickhouse_c_rs.Ioless.Session.{
  Act, submit, handshake, send_query, recv_event, discard, Session, run, Keeps, run-Accounted,
}
use clickhouse_c_rs.Tests.Fixtures.{header, toy, Toy, one, toy-Frees}

abbrev destroy : Toy → toy.B → Toy
destroy s b = record s { live = s.live - 1 }

toy-Keeps : Keeps header toy destroy (λ s. s) one (λ s. s.live)
toy-Keeps = record {
  submit_keeps = λ s input. refl;
  consume_keeps = λ s n. refl;
  query_keeps = λ s sql query_id len. refl;
  data_keeps = λ s builder. refl;
  end_keeps = λ s. refl;
  free_keeps = λ s. refl;
  destroy_frees = λ s b. refl;
}

abbrev idle : Toy
idle = record { queued = []; needed = 3; live = 0 }

-- Two blocks come in, the first is dropped, and a third comes in.
abbrev acts : List (Act toy.D)
acts =
    handshake
    ∷ send_query (8 ∷ []) none
    ∷ submit (1 ∷ 2 ∷ 3 ∷ [])
    ∷ recv_event
    ∷ recv_event
    ∷ discard 1
    ∷ recv_event
    ∷ []

abbrev after : Session header toy destroy (λ s. s)
after = run header toy destroy (λ s. s) acts (idle, [])

run-Accounted_example : Accounted destroy toy.chc_exception_free one (λ s. s.live) (λ s. s) after
run-Accounted_example =
    run-Accounted header toy destroy (λ s. s) one (λ s. s.live) toy-Frees toy-Keeps acts idle refl

abbrev frees : Frees rejecting
frees = record {
  io_set_read_timeout = λ s timeout. (s, ok tt);
  chc_client_close = λ s. s;
  chc_block_destroy = λ s b. s - 1;
  chc_exception_destroy = λ s x. s - 1;
}

rejecting-Destroys :
    Destroys frees.chc_block_destroy frees.chc_exception_destroy one (λ (s : rejecting.S). s)
rejecting-Destroys = record { block_frees = λ s b. refl; exception_freed = λ s x. refl }

rejecting-Keeps : Blocking.Keeps header rejecting frees one (λ s. s)
rejecting-Keeps = record {
  timeout_keeps = λ s timeout. refl;
  query_keeps = λ s sql query_id len. refl;
  query_ex_keeps = λ s sql raw. refl;
  data_keeps = λ s builder. refl;
  cancel_keeps = λ s. refl;
  ping_keeps = λ s. refl;
  close_keeps = λ s. refl;
  destroys = rejecting-Destroys;
}

abbrev blocking_acts : List (Blocking.Act rejecting.D)
blocking_acts =
    Blocking.send_ping ∷ Blocking.recv_event ∷ Blocking.recv_event ∷ Blocking.discard 0 ∷ []

blocking_run-Accounted_example :
    Accounted frees.chc_block_destroy frees.chc_exception_destroy one
      (λ (s : rejecting.S). s)
      (Blocking.close header rejecting frees)
      (Blocking.run header rejecting frees blocking_acts (0, []))
blocking_run-Accounted_example =
    blocking_run-Accounted header rejecting frees one (λ s. s) rejecting-FreesPackets
      rejecting-Keeps blocking_acts 0 refl
