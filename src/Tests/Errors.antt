-- ===== src/Tests/Errors.antt =====
-- Errors, constants, query options and the slice transport at concrete inputs.
use clickhouse_c_rs.Base.{
  ℕ, ◌||◌, ◌+◌, ◌≤◌, ◌<◌, ◌≡◌, ◌≢◌, ◌⊎◌, refl, [], ◌∷◌, ◌++◌, none, some, length, arith, true,
  false,
}
use clickhouse_c_rs.Base.Int.{pos}
use clickhouse_c_rs.Error.{Error, str, bytes, ok, err, check, cstr_array_to_string}
use clickhouse_c_rs.Error.Codes.{Describes, check_cases}
use clickhouse_c_rs.Query.{QueryOpts, RawQueryOpts, raw_query_opts}
use clickhouse_c_rs.Query.Strings.{interior_nul, raw_query_opts-err}
use clickhouse_c_rs.Query.Pointers.{SettingsAt, ParamsAt, raw_query_opts-reads_back}
use clickhouse_c_rs.Io.Slice.{new, remaining}
use clickhouse_c_rs.Io.Slice.Reads.{reads, unread, reads-unread}
use clickhouse_c_rs.Io.Cancel
use clickhouse_c_rs.Io.Cancel.{
  make, stop, run, stops, polled, clone, is_cancelled, new_borrowed, new_cancellable, new_owned,
  new_owned_cancellable, polled-run,
}
use clickhouse_c_rs.Io.Deadline.{i64_max, PosixIo, set_read_timeout, set_read_timeout_lem}
use clickhouse_c_rs.Tests.Fixtures.{header}

check_cases_example :
    ((check header (pos 2) (104 ∷ 0 ∷ []) ≡ ok tt) × (pos 2 ≡ pos 0))
    ⊎ ((e : Error) × (check header (pos 2) (104 ∷ 0 ∷ []) ≡ err e)
        × (pos 2 ≢ pos 0)
        × Describes header e.kind (pos 2)
        × (e.server_code ≡ pos 0)
        × (e.server_name ≡ [])
        × (e.message ≡ bytes (cstr_array_to_string (104 ∷ 0 ∷ [])) ∷ []))
check_cases_example = check_cases header (pos 2) (104 ∷ 0 ∷ [])

abbrev opts : QueryOpts
opts = record {
  query_id = some (113 ∷ 0 ∷ []);
  settings = record { name = 97 ∷ []; value = 98 ∷ 99 ∷ []; important = true; custom = false } ∷ [];
  params = record { name = 112 ∷ []; value = [] } ∷ [];
}

raw_query_opts_example :
    (r : RawQueryOpts) × (raw_query_opts opts ≡ ok r)
    × SettingsAt r.owned r.settings opts.settings
    × ParamsAt r.owned r.params opts.params
    × (r.n_settings ≡ 1)
    × (r.n_params ≡ 1)
    × (r.query_id ≡ some (113 ∷ 0 ∷ []))
    × (r.query_id_len ≡ 2)
raw_query_opts_example = raw_query_opts-reads_back opts refl

abbrev with_nul : QueryOpts
with_nul = record opts { params = record { name = 112 ∷ 0 ∷ []; value = [] } ∷ [] }

raw_query_opts_err_example :
    raw_query_opts with_nul ≡ err (interior_nul (str "query parameter name" ∷ []) 1)
raw_query_opts_err_example = raw_query_opts-err with_nul (str "query parameter name" ∷ []) 1 refl

reads_example :
    let (out, last) =
      reads header (new (1 ∷ 2 ∷ 3 ∷ [])) ((0 ∷ 0 ∷ []) ∷ (0 ∷ 0 ∷ 0 ∷ 0 ∷ []) ∷ []) in
    (out ++ unread last ≡ 1 ∷ 2 ∷ 3 ∷ []) × (length out + remaining last ≡ 3)
reads_example = reads-unread header (1 ∷ 2 ∷ 3 ∷ []) ((0 ∷ 0 ∷ []) ∷ (0 ∷ 0 ∷ 0 ∷ 0 ∷ []) ∷ [])

abbrev posix : PosixIo
posix = record { fd = 3; owned = none; cancel = none; deadline_us = pos 5 }

set_read_timeout_example :
    ((set_read_timeout (pos 1000) none posix).deadline_us ≡ pos 0)
    × (deadline : ℕ) × ((set_read_timeout (pos 1000) (some 500) posix).deadline_us ≡ pos deadline)
    × (0 < deadline)
    × (1000 ≤ deadline)
    × (deadline ≤ i64_max)
    × ((deadline ≡ 1000 + 500) ⊎ (1000 + 500 ≡ 0) ⊎ (i64_max < 1000 + 500))
set_read_timeout_example = set_read_timeout_lem 1000 500 posix (omega arith)

-- The second of two tokens is cancelled, and a third is made.
polled-run_example :
    (is_cancelled (Cancel.new (false ∷ false ∷ [])).0 (Cancel.new (false ∷ false ∷ [])).1 ≡ false)
    × (polled (new_cancellable 3 (clone 1)).cancel (run (make ∷ stop 1 ∷ []) (false ∷ false ∷ []))
        ≡ (is_cancelled 1 (false ∷ false ∷ []) || stops 1 (make ∷ stop 1 ∷ [])))
    × (polled
          (new_owned_cancellable 3 (clone 1)).cancel
          (run (make ∷ stop 1 ∷ []) (false ∷ false ∷ []))
        ≡ (is_cancelled 1 (false ∷ false ∷ []) || stops 1 (make ∷ stop 1 ∷ [])))
    × (is_cancelled (clone 1) (run (make ∷ stop 1 ∷ []) (false ∷ false ∷ []))
        ≡ (is_cancelled 1 (false ∷ false ∷ []) || stops 1 (make ∷ stop 1 ∷ [])))
    × (polled (new_borrowed 3).cancel (run (make ∷ stop 1 ∷ []) (false ∷ false ∷ [])) ≡ false)
    × (polled (new_owned 3).cancel (run (make ∷ stop 1 ∷ []) (false ∷ false ∷ [])) ≡ false)
polled-run_example = polled-run (false ∷ false ∷ []) (make ∷ stop 1 ∷ []) 3 1 (omega arith)
