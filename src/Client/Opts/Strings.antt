-- ===== src/Client/Opts/Strings.antt =====
-- What C reads through the pointers of `RawClientOpts`.
use clickhouse_c_rs.Base.{
  ℕ, ◌≡◌, refl, sym, List, [], ◌∷◌, ◌++◌, Bytes, Option, none, some, position, length, append_assoc,
  append-nil,
}
use mathlib.Core.Path.{subst}
use clickhouse_c_rs.Sys
use clickhouse_c_rs.Error.{Message, str, ok}
use clickhouse_c_rs.Codec.{Codec, discriminant}
use clickhouse_c_rs.Query.{cstring}
use clickhouse_c_rs.Query.Pointers.{deref, deref_at}
use clickhouse_c_rs.Client.Opts.{ClientOpts, RawClientOpts, field, to_raw}

-- A string holds no NUL.
abbrev pub Clean : Option Bytes → Type 0
Clean none = Unit {0}
Clean (some s) = position 0 s ≡ none

-- A null pointer for an absent string, and else a pointer at which C reads it.
abbrev pub TextAt : List Bytes → Option ℕ → Option Bytes → Type 0
TextAt owned none none = Unit {0}
TextAt owned (some p) (some s) = deref owned p ≡ some s
TextAt owned none (some s) = ⊥
TextAt owned (some p) none = ⊥

-- However much is pushed later, the pointer stays good.
abbrev Kept : List Bytes → Option ℕ → Option Bytes → Type 0
Kept owned p value = (more : List Bytes) → TextAt (owned ++ more) p value

field_at :
    (owned : List Bytes) (label : Message) (value : Option Bytes)
    → Clean value
    → (r : List Bytes × Option ℕ) × (field owned label value ≡ ok r)
      × Kept r.0 r.1 value
      × (added : List Bytes) × (r.0 ≡ owned ++ added)
unfolding field cstring
field_at owned label none clean = ((owned, none), refl, (λ more. tt), [], sym (append-nil owned))
field_at owned label (some s) clean = (
  (owned ++ (s ++ 0 ∷ []) ∷ [], some (length owned)),
  rw clean refl,
  (λ more.
      deref_at ((owned ++ (s ++ 0 ∷ []) ∷ []) ++ more) owned more (length owned) s
        (append_assoc owned ((s ++ 0 ∷ []) ∷ []) more) refl clean),
  (s ++ 0 ∷ []) ∷ [],
  refl,
)

Kept-on :
    (owned added later : List Bytes) (p : Option ℕ) (value : Option Bytes)
    → later ≡ owned ++ added
    → Kept owned p value
    → Kept later p value
Kept-on owned added later p value e kept more =
    rw (e, append_assoc owned added more) (kept (added ++ more))

Kept-now :
    (owned : List Bytes) (p : Option ℕ) (value : Option Bytes)
    → Kept owned p value
    → TextAt owned p value
Kept-now owned p value kept = subst (λ texts. TextAt texts p value) (append-nil owned) (kept [])

-- Options whose strings hold no NUL give C options that say the same: C reads every string through its
-- pointer, an absent one is a null pointer, and the numbers, the codec and the constant of the
-- compression are handed on.
pub to_raw-reads_back :
    {F : Type 0} (h : Sys.Header) (opts : ClientOpts) (codec : Option (Codec F))
    → Clean opts.client_name
    → Clean opts.database
    → Clean opts.user
    → Clean opts.password
    → (r : RawClientOpts F) × (to_raw h opts codec ≡ ok r)
      × TextAt r.owned r.client_name opts.client_name
      × TextAt r.owned r.database opts.database
      × TextAt r.owned r.user opts.user
      × TextAt r.owned r.password opts.password
      × (r.client_version_major ≡ opts.client_version_major)
      × (r.client_version_minor ≡ opts.client_version_minor)
      × (r.client_version_patch ≡ opts.client_version_patch)
      × (r.compression ≡ h.compression (discriminant opts.compression))
      × (r.codec ≡ codec)
      × (r.read_buffer_bytes ≡ opts.read_buffer_bytes)
unfolding to_raw
to_raw-reads_back h opts codec c1 c2 c3 c4 =
    let (n, n_made, n_kept, n_added, n_is) =
      field_at [] (str "client name" ∷ []) opts.client_name c1 in
    let (d, d_made, d_kept, d_added, d_is) = field_at n.0 (str "database" ∷ []) opts.database c2 in
    let (u, u_made, u_kept, u_added, u_is) = field_at d.0 (str "user" ∷ []) opts.user c3 in
    let (p, p_made, p_kept, p_added, p_is) = field_at u.0 (str "password" ∷ []) opts.password c4 in
    let n_at_u =
      Kept-on d.0 u_added u.0 n.1 opts.client_name u_is
        (Kept-on n.0 d_added d.0 n.1 opts.client_name d_is n_kept) in
    let d_at_u = Kept-on d.0 u_added u.0 d.1 opts.database u_is d_kept in
    (
      record {
        owned = p.0;
        client_name = n.1;
        client_version_major = opts.client_version_major;
        client_version_minor = opts.client_version_minor;
        client_version_patch = opts.client_version_patch;
        database = d.1;
        user = u.1;
        password = p.1;
        compression = h.compression (discriminant opts.compression);
        codec = codec;
        read_buffer_bytes = opts.read_buffer_bytes;
      },
      rw n_made (rw d_made (rw u_made (rw p_made refl))),
      Kept-now p.0 n.1 opts.client_name (Kept-on u.0 p_added p.0 n.1 opts.client_name p_is n_at_u),
      Kept-now p.0 d.1 opts.database (Kept-on u.0 p_added p.0 d.1 opts.database p_is d_at_u),
      Kept-now p.0 u.1 opts.user (Kept-on u.0 p_added p.0 u.1 opts.user p_is u_kept),
      Kept-now p.0 p.1 opts.password p_kept,
      refl,
      refl,
      refl,
      refl,
      refl,
      refl,
    )
