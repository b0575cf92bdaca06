-- ===== src/Ioless/Session.antt =====
-- A program's session with an I/O-independent client (src/ioless.rs).
use clickhouse_c_rs.Base.{
  ℕ, ◌-◌, ◌≡◌, refl, ◌∙◌, arith, List, [], ◌∷◌, ◌++◌, Bytes, Option, get_elem?,
}
use clickhouse_c_rs.Sys
use clickhouse_c_rs.Client.Event.Ownership.{Handle, block}
use clickhouse_c_rs.Client.Payloads.{
  drop_at, Destroys, Balanced, Accounted, drop_at-Balanced, Balanced-Accounted,
}
use clickhouse_c_rs.Ioless
use clickhouse_c_rs.Ioless.{Core}
use clickhouse_c_rs.Ioless.Handles.{
  Frees, weigh-append, step_handles, recv_event-live, handshake-live,
}

-- What a program does with a client, and with the payloads that it got, by their places.
pub data Act (D : Type 0) : Type 0 where
  submit : Bytes → Act D
  consume_out : ℕ → Act D
  handshake : Act D
  send_query : Bytes → Option Bytes → Act D
  send_data : Option D → Act D
  send_data_end : Act D
  recv_event : Act D
  discard : ℕ → Act D

-- `chc_async_client_free` is the client's Drop.
module _ (h : Sys.Header) (k : Core) (chc_block_destroy : k.S → k.B → k.S)
    (chc_async_client_free : k.S → k.S) where
  abbrev pub Session : Type 0
  Session = k.S × List (Handle k.B k.X)

  abbrev pub act : Act k.D → Session → Session
  act (submit input) (s, held) = ((Ioless.submit h k s input).0, held)
  act (consume_out n) (s, held) = (Ioless.consume_out h k s n, held)
  act handshake (s, held) = ((Ioless.handshake h k s).0, held)
  act (send_query sql query_id) (s, held) = ((Ioless.send_query h k s sql query_id).0, held)
  act (send_data builder) (s, held) = ((Ioless.send_data h k s builder).0, held)
  act send_data_end (s, held) = ((Ioless.send_data_end h k s).0, held)
  act recv_event (s, held) = let (s', r) = Ioless.recv_event h k s in (s', step_handles r ++ held)
  act (discard i) (s, held) =
      drop_at chc_block_destroy k.chc_exception_free (s, held) i (get_elem? held i)

  unfoldable pub run : List (Act k.D) → Session → Session
  run [] session = session
  run (a ∷ acts) session = run acts (act a session)

  module _ (w : Handle k.B k.X → ℕ) (live : k.S → ℕ) where
    -- The calls that neither allocate nor free a payload, and the one that frees a block.
    pub record Keeps : Type 0 where
      pub submit_keeps :
          (s : k.S) (input : Bytes) → live (k.chc_async_submit s input).state ≡ live s
      pub consume_keeps : (s : k.S) (n : ℕ) → live (k.chc_async_consume_out s n) ≡ live s
      pub query_keeps :
          (s : k.S) (sql : Bytes) (query_id : Option Bytes) (len : ℕ)
          → live (k.chc_async_send_query s sql query_id len).state ≡ live s
      pub data_keeps :
          (s : k.S) (builder : Option k.D) → live (k.chc_async_send_data s builder).state ≡ live s
      pub end_keeps : (s : k.S) → live (k.chc_async_send_data_end s).state ≡ live s
      pub free_keeps : (s : k.S) → live (chc_async_client_free s) ≡ live s
      pub destroy_frees : (s : k.S) (b : k.B) → live (chc_block_destroy s b) ≡ live s - w (block b)

    module _ (frees : Frees h k w live) (keeps : Keeps) where
      destroys : Destroys chc_block_destroy k.chc_exception_free w live
      destroys = record {
        block_frees = keeps.destroy_frees;
        exception_freed = frees.exception_frees;
      }

      act-Balanced :
          (a : Act k.D) (t : Session)
          → Balanced chc_block_destroy k.chc_exception_free w live t
          → Balanced chc_block_destroy k.chc_exception_free w live (act a t)
      unfolding Ioless.submit Ioless.consume_out Ioless.send_query Ioless.send_data
          Ioless.send_data_end
      act-Balanced (submit input) (s, held) same = omega (arith, keeps.submit_keeps s input)
      act-Balanced (consume_out n) (s, held) same = omega (arith, keeps.consume_keeps s n)
      act-Balanced handshake (s, held) same = omega (arith, handshake-live h k w live frees s)
      act-Balanced (send_query sql query_id) (s, held) same =
          keeps.query_keeps s sql query_id _ ∙ same
      act-Balanced (send_data builder) (s, held) same = omega (arith, keeps.data_keeps s builder)
      act-Balanced send_data_end (s, held) same = omega (arith, keeps.end_keeps s)
      act-Balanced recv_event (s, held) same =
          let (s', r) = Ioless.recv_event h k s in
          omega (arith, recv_event-live h k w live frees s, weigh-append w (step_handles r) held)
      act-Balanced (discard i) (s, held) same =
          drop_at-Balanced chc_block_destroy k.chc_exception_free w live destroys s held i
            (get_elem? held i) refl same

      run-Balanced :
          (acts : List (Act k.D)) (t : Session)
          → Balanced chc_block_destroy k.chc_exception_free w live t
          → Balanced chc_block_destroy k.chc_exception_free w live (run acts t)
      unfolding run
      run-Balanced [] t same = same
      run-Balanced (a ∷ acts) t same = run-Balanced acts (act a t) (act-Balanced a t same)

      -- If the C functions allocate and free as documented, then a program that starts with no live
      -- payload, and does with the client and the payloads that it got whatever it likes, holds
      -- exactly the live ones: each that it may drop next is live, and once it drops all of them no
      -- payload is left, whether it drops the client before or not.
      pub run-Accounted :
          (acts : List (Act k.D)) (s : k.S)
          → live s ≡ 0
          → Accounted chc_block_destroy k.chc_exception_free w live chc_async_client_free
              (run acts (s, []))
      run-Accounted acts s empty =
          Balanced-Accounted chc_block_destroy k.chc_exception_free w live destroys
            chc_async_client_free keeps.free_keeps (run acts (s, []))
            (run-Balanced acts (s, []) empty)
