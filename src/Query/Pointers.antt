-- ===== src/Query/Pointers.antt =====
-- What C reads through the pointers of `RawQueryOpts` is what the caller gave.
use clickhouse_c_rs.Base.{
  take-append, ℕ, suc, ◌+◌, ◌≡◌, refl, ap, sym, ◌∙◌, List, [], ◌∷◌, ◌++◌, Bytes, Option, none, some,
  position, length, get_elem?, take, arith, append_assoc, append-nil, length-append,
}
use clickhouse_c_rs.Error.{Message, str, ok}
use clickhouse_c_rs.Query.{
  QuerySetting, QueryParam, QueryOpts, RawSetting, RawParam, RawQueryOpts, raw_settings, raw_params,
  raw_query_opts, id_len,
}
use clickhouse_c_rs.Query.Strings.{
  setting_strings, param_strings, checked_strings, first_nul, terminated, with_owned,
  raw_query_opts_lem,
}

-- `CStr`: the bytes before the first NUL.
abbrev upto : Option ℕ → Bytes → Bytes
upto none s = s
upto (some n) s = take n s

abbrev pub c_str : Bytes → Bytes
c_str s = upto (position 0 s) s

-- What C reads through a pointer.
abbrev found : Option Bytes → Option Bytes
found none = none
found (some s) = some (c_str s)

abbrev pub deref : List Bytes → ℕ → Option Bytes
deref owned p = found (get_elem? owned p)

-- The C array says what the settings say, in their order.
abbrev pub SettingsAt : List Bytes → List RawSetting → List QuerySetting → Type 0
SettingsAt owned [] [] = Unit {0}
SettingsAt owned (r ∷ rs) (s ∷ ss) =
    (deref owned r.name ≡ some s.name)
    × (deref owned r.value ≡ some s.value)
    × (r.important ≡ s.important)
    × (r.custom ≡ s.custom)
    × SettingsAt owned rs ss
SettingsAt owned [] (s ∷ ss) = ⊥
SettingsAt owned (r ∷ rs) [] = ⊥

abbrev pub ParamsAt : List Bytes → List RawParam → List QueryParam → Type 0
ParamsAt owned [] [] = Unit {0}
ParamsAt owned (r ∷ rs) (p ∷ ps) =
    (deref owned r.name ≡ some p.name) × (deref owned r.value ≡ some p.value) × ParamsAt owned rs ps
ParamsAt owned [] (p ∷ ps) = ⊥
ParamsAt owned (r ∷ rs) [] = ⊥

get_elem?-append :
    (pre : List Bytes) (x : Bytes) (post : List Bytes)
    → get_elem? (pre ++ x ∷ post) (length pre) ≡ some x
get_elem?-append [] x post = refl
get_elem?-append (y ∷ pre) x post = get_elem?-append pre x post

position_last : (s : Bytes) → position 0 s ≡ none → position 0 (s ++ 0 ∷ []) ≡ some (length s)
position_last [] e = refl
position_last (c ∷ s) e = ground (arith, position_last s)

c_str_terminated : (s : Bytes) → position 0 s ≡ none → c_str (s ++ 0 ∷ []) ≡ s
c_str_terminated s e = rw (position_last s e) (take-append (length s) s (0 ∷ []) refl)

-- The pointer to the string behind `pre`.
pub deref_at :
    (owned pre post : List Bytes) (p : ℕ) (s : Bytes)
    → owned ≡ pre ++ (s ++ 0 ∷ []) ∷ post
    → p ≡ length pre
    → position 0 s ≡ none
    → deref owned p ≡ some s
deref_at owned pre post p s e at clean =
    rw (e, at)
      (ap found (get_elem?-append pre (s ++ 0 ∷ []) post) ∙ ap some (c_str_terminated s clean))

nul_or-none :
    (label : Message) (s : Bytes) (rest : List (Message × Bytes))
    → first_nul ((label, s) ∷ rest) ≡ none
    → (position 0 s ≡ none) × (first_nul rest ≡ none)
nul_or-none label s rest e = ground arith

pre_two :
    (pre : List Bytes) (a b : Bytes) (rest : List Bytes)
    → pre ++ a ∷ (b ∷ rest) ≡ (pre ++ a ∷ b ∷ []) ++ rest
pre_two pre a b rest = sym (append_assoc pre (a ∷ b ∷ []) rest)

settings_at :
    (ss : List QuerySetting) (owned pre post : List Bytes) (next : ℕ)
    → owned ≡ pre ++ (terminated (setting_strings ss) ++ post)
    → next ≡ length pre
    → first_nul (setting_strings ss) ≡ none
    → SettingsAt owned (raw_settings next ss).0 ss
      × ((raw_settings next ss).1 ≡ length (pre ++ terminated (setting_strings ss)))
      × (length (raw_settings next ss).0 ≡ length ss)
unfolding raw_settings
settings_at [] owned pre post next e at clean = (tt, at ∙ rw append-nil, refl)
settings_at (s ∷ ss) owned pre post next e at clean =
    let (name_clean, rest_clean) =
      nul_or-none (str "query setting name" ∷ []) s.name
        ((str "query setting value" ∷ [], s.value) ∷ setting_strings ss) clean in
    let (value_clean, later_clean) =
      nul_or-none (str "query setting value" ∷ []) s.value (setting_strings ss) rest_clean in
    let n = s.name ++ 0 ∷ [] in
    let v = s.value ++ 0 ∷ [] in
    let later =
      settings_at ss owned (pre ++ n ∷ v ∷ []) post (next + 2) (e ∙ pre_two pre n v _)
        (omega (arith, length-append pre (n ∷ v ∷ []))) later_clean in
    (
      (
        deref_at owned pre _ next s.name e at name_clean,
        deref_at owned (pre ++ n ∷ []) _ (next + 1) s.value (e ∙ sym (append_assoc pre (n ∷ []) _))
            (omega (arith, length-append pre (n ∷ []))) value_clean,
        refl,
        refl,
        later.0,
      ),
      later.1 ∙ ap length (append_assoc pre (n ∷ v ∷ []) _),
      ap suc later.2,
    )

params_at :
    (ps : List QueryParam) (owned pre post : List Bytes) (next : ℕ)
    → owned ≡ pre ++ (terminated (param_strings ps) ++ post)
    → next ≡ length pre
    → first_nul (param_strings ps) ≡ none
    → ParamsAt owned (raw_params next ps).0 ps × (length (raw_params next ps).0 ≡ length ps)
unfolding raw_params
params_at [] owned pre post next e at clean = (tt, refl)
params_at (s ∷ ss) owned pre post next e at clean =
    let (name_clean, rest_clean) =
      nul_or-none (str "query parameter name" ∷ []) s.name
        ((str "query parameter value" ∷ [], s.value) ∷ param_strings ss) clean in
    let (value_clean, later_clean) =
      nul_or-none (str "query parameter value" ∷ []) s.value (param_strings ss) rest_clean in
    let n = s.name ++ 0 ∷ [] in
    let v = s.value ++ 0 ∷ [] in
    let later =
      params_at ss owned (pre ++ n ∷ v ∷ []) post (next + 2) (e ∙ pre_two pre n v _)
        (omega (arith, length-append pre (n ∷ v ∷ []))) later_clean in
    (
      (
        deref_at owned pre _ next s.name e at name_clean,
        deref_at owned (pre ++ n ∷ []) _ (next + 1) s.value (e ∙ sym (append_assoc pre (n ∷ []) _))
            (omega (arith, length-append pre (n ∷ []))) value_clean,
        later.0,
      ),
      ap suc later.1,
    )

terminated-append :
    (xs ys : List (Message × Bytes)) → terminated (xs ++ ys) ≡ terminated xs ++ terminated ys
terminated-append [] ys = refl
terminated-append ((label, s) ∷ xs) ys = ap (◌∷◌ (s ++ 0 ∷ [])) (terminated-append xs ys)

first_nul-append-none :
    (xs ys : List (Message × Bytes))
    → first_nul (xs ++ ys) ≡ none
    → (first_nul xs ≡ none) × (first_nul ys ≡ none)
first_nul-append-none [] ys e = (refl, e)
first_nul-append-none ((label, s) ∷ xs) ys e =
    let (clean, rest) = nul_or-none label s (xs ++ ys) e in
    let (a, b) = first_nul-append-none xs ys rest in (rw clean a, b)

-- Options whose setting and parameter strings hold no NUL give C arrays that say the same: pointer by
-- pointer C reads the names and values back, in order, with the flags, the counts and the query
-- identifier with its length, whatever bytes that one holds.
pub raw_query_opts-reads_back :
    (opts : QueryOpts)
    → first_nul (checked_strings opts) ≡ none
    → (r : RawQueryOpts) × (raw_query_opts opts ≡ ok r)
      × SettingsAt r.owned r.settings opts.settings
      × ParamsAt r.owned r.params opts.params
      × (r.n_settings ≡ length opts.settings)
      × (r.n_params ≡ length opts.params)
      × (r.query_id ≡ opts.query_id)
      × (r.query_id_len ≡ id_len opts.query_id)
unfolding with_owned
raw_query_opts-reads_back opts clean =
    let names = setting_strings opts.settings in
    let values = param_strings opts.params in
    let owned = terminated (names ++ values) in
    let (names_clean, values_clean) = first_nul-append-none names values clean in
    let split = terminated-append names values in
    let s = settings_at opts.settings owned [] (terminated values) 0 split refl names_clean in
    let p =
      params_at opts.params owned (terminated names) [] _
        (split ∙ ap (λ t. terminated names ++ t) (sym (append-nil (terminated values)))) s.1
        values_clean in
    (with_owned opts owned, raw_query_opts_lem opts ∙ rw clean, s.0, p.0, s.2, p.1, refl, refl)
