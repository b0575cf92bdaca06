-- ===== src/Client/Calls/Handshake.antt =====
-- Allocations across `Client::init`.
use clickhouse_c_rs.Base.{ℕ, ◌+◌, ◌-◌, ◌≡◌, ◌≢◌, refl, ap, sym, ◌∙◌, Option, none, some, arith}
use clickhouse_c_rs.Sys
use clickhouse_c_rs.Error.{Result, ok, err, ◌>>◌, check}
use clickhouse_c_rs.Error.Codes.{check_iff}
use clickhouse_c_rs.Codec.{Codec}
use clickhouse_c_rs.Client.Opts.{ClientOpts, RawClientOpts, to_raw, validate_codec}
use clickhouse_c_rs.Client.Calls.{Connection, Initialised, connected, greeted, opened, init}

abbrev pub weight_of : {A : Type 0} → (A → ℕ) → Option A → ℕ
weight_of w none = 0
weight_of w (some a) = w a

module _ (h : Sys.Header) (k : Connection) (wx : k.X → ℕ) (ws : k.S → ℕ) where
  -- `chc_client_init` allocates the connection and the exception that it leaves, and a connection only
  -- where it returns CHC_OK without an exception; an exception is freed once.
  pub record Opens (live : k.W → ℕ) : Type 0 where
    pub init_allocates :
        (w : k.W) (raw : RawClientOpts k.F)
        → let r = k.chc_client_init w raw in
          live r.heap ≡ (weight_of wx r.exc + weight_of ws r.out) + live w
    pub no_connection_on_error :
        (w : k.W) (raw : RawClientOpts k.F)
        → (k.chc_client_init w raw).rc ≢ h.code Sys.chc_ok
        → (k.chc_client_init w raw).out ≡ none
    pub no_connection_on_exception :
        (w : k.W) (raw : RawClientOpts k.F) (x : k.X)
        → (k.chc_client_init w raw).exc ≡ some x
        → (k.chc_client_init w raw).out ≡ none
    pub free_frees : (w : k.W) (x : k.X) → live (k.chc_exception_free w x) ≡ live w - wx x

  -- The weight of the connection that the caller gets.
  abbrev pub gained : Option (Result k.S) → ℕ
  gained (some (ok s)) = ws s
  gained (some (err e)) = 0
  gained none = 0

  module _ (live : k.W → ℕ) (opens : Opens live) where
    connected_gains :
        (out : Option k.S) (r : Result (Unit {0}))
        → ((e : _) → r ≡ err e → out ≡ none)
        → gained (connected h k out r) ≡ weight_of ws out
    connected_gains out (err e) no_out = rw (no_out e refl) refl
    connected_gains (some s) (ok u) no_out = refl
    connected_gains none (ok u) no_out = refl

    greeted_live :
        (r : Initialised k.W k.S k.X) (before : ℕ) (exc : Option k.X)
        → live r.heap ≡ (weight_of wx exc + weight_of ws r.out) + before
        → (r.rc ≢ h.code Sys.chc_ok → r.out ≡ none)
        → ((x : k.X) → exc ≡ some x → r.out ≡ none)
        → live (greeted h k r exc).0 ≡ gained (greeted h k r exc).1 + before
    greeted_live r before (some x) held no_err no_exc =
        let none_out = ap (weight_of ws) (no_exc x refl) in omega (arith, opens.free_frees r.heap x)
    greeted_live r before none held no_err no_exc =
        let same =
          connected_gains r.out (check h r.rc r.msg)
            (λ e failed. no_err (λ is_ok. cc (sym failed ∙ (check_iff h r.rc r.msg).0.1 is_ok))) in
        omega arith

    opened_live :
        (w : k.W) (raw : Result (RawClientOpts k.F))
        → live (opened h k w raw).0 ≡ gained (opened h k w raw).1 + live w
    opened_live w (err e) = omega arith
    opened_live w (ok raw) =
        let r = k.chc_client_init w raw in
        greeted_live r (live w) r.exc (opens.init_allocates w raw)
          (opens.no_connection_on_error w raw) (opens.no_connection_on_exception w raw)

    -- If the C functions allocate and free as documented, then `init`, whichever way it returns,
    -- leaves the live allocations from before and the connection that it returned: refused options, a
    -- failed handshake and a server exception leak nothing.
    pub init-live :
        (w : k.W) (opts : ClientOpts) (codec : Option (Codec k.F))
        → live (init h k w opts codec).0 ≡ gained (init h k w opts codec).1 + live w
    unfolding init
    init-live w opts codec = opened_live w (validate_codec opts codec >> to_raw h opts codec)
