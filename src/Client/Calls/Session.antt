-- ===== src/Client/Calls/Session.antt =====
-- A program's session with a blocking client, from `init` on (src/client.rs).
use clickhouse_c_rs.Base.{ℕ, ◌≡◌, refl, ◌∙◌, arith, List, [], ◌∷◌, ◌++◌, Bytes, Option, get_elem?}
use clickhouse_c_rs.Sys
use clickhouse_c_rs.Error.{Result, ok, err}
use clickhouse_c_rs.Query.{QueryOpts, RawQueryOpts, raw_query_opts}
use clickhouse_c_rs.Client.Event.Ownership.{Handle, event_handles}
use clickhouse_c_rs.Client.Payloads.{
  drop_at, Destroys, Balanced, Accounted, drop_at-Balanced, Balanced-Accounted,
}
use clickhouse_c_rs.Client.Calls
use clickhouse_c_rs.Client.Calls.{Connection, sent_with}
use clickhouse_c_rs.Client.Calls.Receive.{FreesPackets, blocking_recv_event-live}
use clickhouse_c_rs.Ioless.Handles.{weigh-append}

-- What a program does with a client, and with the payloads that it got, by their places. A timeout is
-- in microseconds.
pub data Act (D : Type 0) : Type 0 where
  set_read_timeout : Option ℕ → Act D
  send_query : Bytes → Option Bytes → Act D
  send_query_with : Bytes → QueryOpts → Act D
  send_data : Option D → Act D
  send_cancel : Act D
  send_ping : Act D
  recv_event : Act D
  discard : ℕ → Act D

-- What the client and its payloads use besides the calls: the transport, which the connection's state
-- holds, and the C functions that free.
pub record Frees (k : Connection) : Type 0 where
  pub io_set_read_timeout : k.S → Option ℕ → k.S × Result (Unit {0})
  pub chc_client_close : k.S → k.S
  pub chc_block_destroy : k.S → k.B → k.S
  pub chc_exception_destroy : k.S → k.X → k.S

module _ (h : Sys.Header) (k : Connection) (f : Frees k) where
  abbrev pub forward_read_timeout : k.S → Option ℕ → k.S × Result (Unit {0})
  forward_read_timeout s timeout = f.io_set_read_timeout s timeout

  abbrev pub close : k.S → k.S
  close s = f.chc_client_close s

  abbrev pub Session : Type 0
  Session = k.S × List (Handle k.B k.X)

  abbrev pub act : Act k.D → Session → Session
  act (set_read_timeout timeout) (s, held) = ((forward_read_timeout s timeout).0, held)
  act (send_query sql query_id) (s, held) = ((Calls.send_query h k s sql query_id).0, held)
  act (send_query_with sql opts) (s, held) = ((Calls.send_query_with h k s sql opts).0, held)
  act (send_data builder) (s, held) = ((Calls.send_data h k s builder).0, held)
  act send_cancel (s, held) = ((Calls.send_cancel h k s).0, held)
  act send_ping (s, held) = ((Calls.send_ping h k s).0, held)
  act recv_event (s, held) = let (s', r) = Calls.recv_event h k s in (s', event_handles r ++ held)
  act (discard i) (s, held) =
      drop_at f.chc_block_destroy f.chc_exception_destroy (s, held) i (get_elem? held i)

  unfoldable pub run : List (Act k.D) → Session → Session
  run [] session = session
  run (a ∷ acts) session = run acts (act a session)

  module _ (w : Handle k.B k.X → ℕ) (live : k.S → ℕ) where
    -- The calls that neither allocate nor free a payload, and those that free one.
    pub record Keeps : Type 0 where
      pub timeout_keeps :
          (s : k.S) (timeout : Option ℕ) → live (f.io_set_read_timeout s timeout).0 ≡ live s
      pub query_keeps :
          (s : k.S) (sql : Bytes) (query_id : Option Bytes) (len : ℕ)
          → live (k.chc_client_send_query s sql query_id len).state ≡ live s
      pub query_ex_keeps :
          (s : k.S) (sql : Bytes) (raw : RawQueryOpts)
          → live (k.chc_client_send_query_ex s sql raw).state ≡ live s
      pub data_keeps :
          (s : k.S) (builder : Option k.D) → live (k.chc_client_send_data s builder).state ≡ live s
      pub cancel_keeps : (s : k.S) → live (k.chc_client_send_cancel s).state ≡ live s
      pub ping_keeps : (s : k.S) → live (k.chc_client_send_ping s).state ≡ live s
      pub close_keeps : (s : k.S) → live (f.chc_client_close s) ≡ live s
      pub destroys : Destroys f.chc_block_destroy f.chc_exception_destroy w live

    module _ (frees : FreesPackets h k w live) (keeps : Keeps) where
      sent_with-live :
          (s : k.S) (sql : Bytes) (raw : Result RawQueryOpts)
          → live (sent_with h k s sql raw).0 ≡ live s
      sent_with-live s sql (err e) = refl
      sent_with-live s sql (ok raw) = keeps.query_ex_keeps s sql raw

      act-Balanced :
          (a : Act k.D) (t : Session)
          → Balanced f.chc_block_destroy f.chc_exception_destroy w live t
          → Balanced f.chc_block_destroy f.chc_exception_destroy w live (act a t)
      unfolding Calls.send_query Calls.send_query_with Calls.send_data Calls.send_cancel
          Calls.send_ping
      act-Balanced (set_read_timeout timeout) (s, held) same = keeps.timeout_keeps s timeout ∙ same
      act-Balanced (send_query sql query_id) (s, held) same =
          keeps.query_keeps s sql query_id _ ∙ same
      act-Balanced (send_query_with sql opts) (s, held) same =
          sent_with-live s sql (raw_query_opts opts) ∙ same
      act-Balanced (send_data builder) (s, held) same = keeps.data_keeps s builder ∙ same
      act-Balanced send_cancel (s, held) same = keeps.cancel_keeps s ∙ same
      act-Balanced send_ping (s, held) same = keeps.ping_keeps s ∙ same
      act-Balanced recv_event (s, held) same =
          let (s', r) = Calls.recv_event h k s in
          omega (
            arith,
            blocking_recv_event-live h k w live frees s,
            weigh-append w (event_handles r) held,
          )
      act-Balanced (discard i) (s, held) same =
          drop_at-Balanced f.chc_block_destroy f.chc_exception_destroy w live keeps.destroys s held
            i (get_elem? held i) refl same

      run-Balanced :
          (acts : List (Act k.D)) (t : Session)
          → Balanced f.chc_block_destroy f.chc_exception_destroy w live t
          → Balanced f.chc_block_destroy f.chc_exception_destroy w live (run acts t)
      unfolding run
      run-Balanced [] t same = same
      run-Balanced (a ∷ acts) t same = run-Balanced acts (act a t) (act-Balanced a t same)

      -- If the C functions allocate and free as documented, then a program that starts with a blocking
      -- client and no live payload, and does with the client and the payloads that it got whatever it
      -- likes, holds exactly the live ones: each that it may drop next is live, and once it drops all
      -- of them no payload is left, whether it drops the client before or not.
      pub blocking_run-Accounted :
          (acts : List (Act k.D)) (s : k.S)
          → live s ≡ 0
          → Accounted f.chc_block_destroy f.chc_exception_destroy w live close (run acts (s, []))
      blocking_run-Accounted acts s empty =
          Balanced-Accounted f.chc_block_destroy f.chc_exception_destroy w live keeps.destroys close
            keeps.close_keeps (run acts (s, [])) (run-Balanced acts (s, []) empty)
