-- ===== src/Query.antt =====
-- src/query.rs: query options, and the C arrays built from them. A pointer into an owned
-- `CString` is the CString's place in `_owned`, which keeps every buffer alive and in place.
pub mod Strings
pub mod Setters
pub mod Pointers
use clickhouse_c_rs.Base.{
  ℕ, suc, ◌+◌, ◌*◌, Bool, true, false, List, [], ◌∷◌, ◌++◌, Bytes, Option, none, some, position,
  length, map,
}
use clickhouse_c_rs.Error.{Error, Message, str, num, Result, ok, err, ◌>>=◌, ◌>>◌, new, usage}

pub record QuerySetting : Type 0 where
  pub name : Bytes
  pub value : Bytes
  pub important : Bool
  pub custom : Bool

pub record QueryParam : Type 0 where
  pub name : Bytes
  pub value : Bytes

pub record QueryOpts : Type 0 where
  pub query_id : Option Bytes
  pub settings : List QuerySetting
  pub params : List QueryParam

-- `CString::new`: the bytes with a NUL behind them, or the place of the first NUL inside.
abbrev pub nul_terminated : Message → Bytes → Option ℕ → Result Bytes
nul_terminated label s none = ok (s ++ 0 ∷ [])
nul_terminated label s (some at) =
    err (new usage (label ++ str " has an interior NUL at byte " ∷ num at ∷ []))

unfoldable pub cstring : Message → Bytes → Result Bytes
cstring label s = nul_terminated label s (position 0 s)

-- `sys::chc_query_setting` and `sys::chc_query_param`: pointers and flags.
pub record RawSetting : Type 0 where
  pub name : ℕ
  pub value : ℕ
  pub important : Bool
  pub custom : Bool

pub record RawParam : Type 0 where
  pub name : ℕ
  pub value : ℕ

-- `sys::chc_query_opts` with what it points to. The identifier is a pointer and a length.
pub record RawQueryOpts : Type 0 where
  pub owned : List Bytes
  pub settings : List RawSetting
  pub params : List RawParam
  pub query_id : Option Bytes
  pub query_id_len : ℕ
  pub n_settings : ℕ
  pub n_params : ℕ

-- `for s in opts.settings { owned.push(…)?; owned.push(…)?; }`, and the same for the parameters.
pub push_settings : List Bytes → List QuerySetting → Result (List Bytes)
push_settings owned [] = ok owned
push_settings owned (s ∷ ss) = do
  name ← cstring (str "query setting name" ∷ []) s.name
  value ← cstring (str "query setting value" ∷ []) s.value
  push_settings ((owned ++ name ∷ []) ++ value ∷ []) ss

pub push_params : List Bytes → List QueryParam → Result (List Bytes)
push_params owned [] = ok owned
push_params owned (p ∷ ps) = do
  name ← cstring (str "query parameter name" ∷ []) p.name
  value ← cstring (str "query parameter value" ∷ []) p.value
  push_params ((owned ++ name ∷ []) ++ value ∷ []) ps

-- The iterator `next` over the owned pointers is its position.
unfoldable pub raw_settings : ℕ → List QuerySetting → List RawSetting × ℕ
raw_settings next [] = ([], next)
raw_settings next (s ∷ ss) =
    let (rest, last) = raw_settings (next + 2) ss in
    (
      record { name = next; value = next + 1; important = s.important; custom = s.custom } ∷ rest,
      last,
    )

unfoldable pub raw_params : ℕ → List QueryParam → List RawParam × ℕ
raw_params next [] = ([], next)
raw_params next (p ∷ ps) =
    let (rest, last) = raw_params (next + 2) ps in
    (record { name = next; value = next + 1 } ∷ rest, last)

abbrev pub id_len : Option Bytes → ℕ
id_len none = 0
id_len (some id) = length id

-- `RawQueryOpts::new`.
unfoldable pub raw_query_opts : QueryOpts → Result RawQueryOpts
unfolding push_settings push_params raw_settings raw_params
raw_query_opts opts = do
  named ← push_settings [] opts.settings
  owned ← push_params named opts.params
  let (settings, next) = raw_settings 0 opts.settings
  let (params, last) = raw_params next opts.params
  ok (record {
    owned = owned;
    settings = settings;
    params = params;
    query_id = opts.query_id;
    query_id_len = id_len opts.query_id;
    n_settings = length settings;
    n_params = length params;
  })
