-- ===== src/Query/Strings.antt =====
-- The strings of `RawQueryOpts::new` (src/query.rs): which one is refused, and what is owned.
use mathlib.Core.Path.{fun_ext}
use clickhouse_c_rs.Base.{
  ℕ, ◌≡◌, refl, ap, sym, ◌∙◌, List, [], ◌∷◌, ◌++◌, Bytes, Option, none, some, position, length, inl,
  inr, append_assoc, append-nil, Option-cases,
}
use clickhouse_c_rs.Error.{>>=-assoc, Error, Message, str, num, Result, ok, err, ◌>>=◌, new, usage}
use clickhouse_c_rs.Query.{
  QuerySetting, QueryParam, QueryOpts, RawQueryOpts, cstring, push_settings, push_params,
  raw_settings, raw_params, raw_query_opts, id_len, nul_terminated,
}

-- The strings that are checked, in order, under the names that an error gives them.
abbrev pub setting_strings : List QuerySetting → List (Message × Bytes)
setting_strings [] = []
setting_strings (s ∷ ss) =
    (str "query setting name" ∷ [], s.name)
    ∷ (str "query setting value" ∷ [], s.value)
    ∷ setting_strings ss

abbrev pub param_strings : List QueryParam → List (Message × Bytes)
param_strings [] = []
param_strings (p ∷ ps) =
    (str "query parameter name" ∷ [], p.name)
    ∷ (str "query parameter value" ∷ [], p.value)
    ∷ param_strings ps

abbrev pub checked_strings : QueryOpts → List (Message × Bytes)
checked_strings opts = setting_strings opts.settings ++ param_strings opts.params

-- The first of them with a NUL inside, and where.
abbrev pub nul_or : Message → Option ℕ → Option (Message × ℕ) → Option (Message × ℕ)
nul_or label (some at) later = some (label, at)
nul_or label none later = later

abbrev pub first_nul : List (Message × Bytes) → Option (Message × ℕ)
first_nul [] = none
first_nul ((label, s) ∷ rest) = nul_or label (position 0 s) (first_nul rest)

abbrev pub interior_nul : Message → ℕ → Error
interior_nul label at = new usage (label ++ str " has an interior NUL at byte " ∷ num at ∷ [])

abbrev pub terminated : List (Message × Bytes) → List Bytes
terminated [] = []
terminated ((label, s) ∷ rest) = (s ++ 0 ∷ []) ∷ terminated rest

-- Both loops are one loop over the labelled strings.
push_strings : List Bytes → List (Message × Bytes) → Result (List Bytes)
push_strings owned [] = ok owned
push_strings owned ((label, s) ∷ rest) = do c ← cstring label s; push_strings (owned ++ c ∷ []) rest

push_settings-push_strings :
    (owned : List Bytes) (ss : List QuerySetting)
    → push_settings owned ss ≡ push_strings owned (setting_strings ss)
unfolding push_settings push_strings
push_settings-push_strings owned [] = refl
push_settings-push_strings owned (s ∷ ss) =
    ap
      (λ k. cstring (str "query setting name" ∷ []) s.name >>= λ name.
        cstring (str "query setting value" ∷ []) s.value >>= λ value. k name value)
      (fun_ext
        λ name. fun_ext λ value. push_settings-push_strings ((owned ++ name ∷ []) ++ value ∷ []) ss)

push_params-push_strings :
    (owned : List Bytes) (ps : List QueryParam)
    → push_params owned ps ≡ push_strings owned (param_strings ps)
unfolding push_params push_strings
push_params-push_strings owned [] = refl
push_params-push_strings owned (p ∷ ps) =
    ap
      (λ k. cstring (str "query parameter name" ∷ []) p.name >>= λ name.
        cstring (str "query parameter value" ∷ []) p.value >>= λ value. k name value)
      (fun_ext
        λ name. fun_ext λ value. push_params-push_strings ((owned ++ name ∷ []) ++ value ∷ []) ps)

abbrev outcome : List Bytes → List (Message × Bytes) → Option (Message × ℕ) → Result (List Bytes)
outcome owned xs none = ok (owned ++ terminated xs)
outcome owned xs (some (label, at)) = err (interior_nul label at)

outcome-cons :
    (owned : List Bytes) (label : Message) (s : Bytes) (rest : List (Message × Bytes))
    (o : Option (Message × ℕ))
    → outcome (owned ++ (s ++ 0 ∷ []) ∷ []) rest o ≡ outcome owned ((label, s) ∷ rest) o
outcome-cons owned label s rest none = ap ok (append_assoc owned _ (terminated rest))
outcome-cons owned label s rest (some (l, at)) = refl

push_strings-outcome :
    (owned : List Bytes) (xs : List (Message × Bytes))
    → push_strings owned xs ≡ outcome owned xs (first_nul xs)
unfolding push_strings cstring
push_strings-outcome owned [] = ap ok (sym (append-nil owned))
push_strings-outcome owned ((label, s) ∷ rest) = elim (Option-cases (position 0 s)) [
  | inr (at, e) ↦ rw (e, nul_terminated)
  | inl e ↦
      rw (e, nul_terminated)
        (push_strings-outcome (owned ++ (s ++ 0 ∷ []) ∷ []) rest
          ∙ outcome-cons owned label s rest (first_nul rest))
]

push_strings-append :
    (owned : List Bytes) (xs ys : List (Message × Bytes))
    → (push_strings owned xs >>= λ o. push_strings o ys) ≡ push_strings owned (xs ++ ys)
unfolding push_strings cstring
push_strings-append owned [] ys = refl
push_strings-append owned ((label, s) ∷ rest) ys = elim (Option-cases (position 0 s)) [
  | inr (at, e) ↦ rw (e, nul_terminated)
  | inl e ↦ rw (e, nul_terminated) (push_strings-append (owned ++ (s ++ 0 ∷ []) ∷ []) rest ys)
]

-- The options once the strings are owned.
unfoldable pub with_owned : QueryOpts → List Bytes → RawQueryOpts
with_owned opts owned =
    let (settings, next) = raw_settings 0 opts.settings in
    let (params, last) = raw_params next opts.params in
    record {
      owned = owned;
      settings = settings;
      params = params;
      query_id = opts.query_id;
      query_id_len = id_len opts.query_id;
      n_settings = length settings;
      n_params = length params;
    }

pub raw_query_opts_lem :
    (opts : QueryOpts)
    → raw_query_opts opts ≡ (
        outcome [] (checked_strings opts) (first_nul (checked_strings opts)) >>= λ owned.
        ok (with_owned opts owned))
unfolding raw_query_opts with_owned
raw_query_opts_lem opts =
    let named = setting_strings opts.settings in
    let valued = param_strings opts.params in
    let finish : List Bytes → Result RawQueryOpts = λ owned. ok (with_owned opts owned) in
    ap (λ m. m >>= λ owned. push_params owned opts.params >>= finish)
      (push_settings-push_strings [] opts.settings)
    ∙ ap
        (λ (f : List Bytes → Result (List Bytes)).
          push_strings [] named >>= λ owned. f owned >>= finish)
        (fun_ext λ owned. push_params-push_strings owned opts.params)
    ∙ >>=-assoc (push_strings [] named) (λ owned. push_strings owned valued) finish
    ∙ ap (λ m. m >>= finish)
        (push_strings-append [] named valued ∙ push_strings-outcome [] (named ++ valued))

-- When a string holds a NUL no array is built: the error names the first string with a NUL, settings before
-- parameters and a name before its value, and the place of the NUL.
pub raw_query_opts-err :
    (opts : QueryOpts) (label : Message) (at : ℕ)
    → first_nul (checked_strings opts) ≡ some (label, at)
    → raw_query_opts opts ≡ err (interior_nul label at)
raw_query_opts-err opts label at e = raw_query_opts_lem opts ∙ rw e
