-- ===== src/BuildScript/Script/Stages.antt =====
-- The stages of `main` (build.rs): what each reads, writes and prints.
use clickhouse_c_rs.Base.{
  ◌≡◌, ◌↔◌, refl, ◌⊎◌, inl, inr, Bool, true, false, Option, none, some, is_some, List, [], ◌∷◌,
  ◌++◌, Bool-cases, Option-cases,
}
use clickhouse_c_rs.BuildScript.Text.{Text, codes}
use clickhouse_c_rs.BuildScript.Emit
use clickhouse_c_rs.BuildScript.Inventory
use clickhouse_c_rs.BuildScript.Sorted.{In}
use clickhouse_c_rs.BuildScript.Script.{
  Env, Build, Done, Script, and_then, write, read_all, print, write_constants, inventory_of,
  write_inventory, rerun_if_changed, probe_if, located, build, dirs_of, define_if, covered_headers,
}

module _ (env : Env) where
  -- The file in a folder reads as this text.
  abbrev pub Reads : Text → Text → Text → Type 0
  Reads dir name src = env.read_to_string (env.join dir name) ≡ some src

  abbrev pub ReadsAll : Text → List Text → List Text → Type 0
  ReadsAll dir [] [] = Unit {0}
  ReadsAll dir (name ∷ names) (src ∷ srcs) = Reads dir name src × ReadsAll dir names srcs
  ReadsAll dir _ _ = ⊥

  -- The constants are those of three headers.
  abbrev pub ConstantsOf : Text → Text → Type 0
  ConstantsOf chc_dir constants =
      (core : Text) × (comp : Text) × (client : Text) × Reads chc_dir (codes "clickhouse.h") core
      × Reads chc_dir (codes "clickhouse-compression.h") comp
      × Reads chc_dir (codes "clickhouse-client.h") client
      × (Emit.generate_constants env.overflow_checks core comp client ≡ some constants)

  -- The inventory is that of the covered headers and of the bindings.
  abbrev pub InventoryOf : Text → Text → Text → Type 0
  InventoryOf manifest chc_dir inventory =
      (headers : List Text) × (sys_src : Text) × ReadsAll chc_dir covered_headers headers
      × Reads manifest (codes "src/sys.rs") sys_src
      × (Inventory.generate_parity_inventory env.debug env.overflow_checks headers sys_src
          ≡ some inventory)

  -- The folders of a codec's headers: those that pkg-config names, if the codec is a feature and
  -- pkg-config finds it, and else none.
  abbrev pub DirsOf : Bool → Text → List Text → Type 0
  DirsOf feature pkg dirs =
      ((feature ≡ true) × ((env.probe pkg).1 ≡ inr dirs))
      ⊎ ((dirs ≡ []) × ((feature ≡ false) ⊎ ((e : Text) × ((env.probe pkg).1 ≡ inl e))))

  -- The definitions are those of the codecs that are wanted, and no others.
  abbrev pub Defines : Bool → Bool → List Text → Type 0
  Defines lz4 zstd define =
      (In (codes "CHC_RS_LZ4") define ↔ (lz4 ≡ true))
      × (In (codes "CHC_RS_ZSTD") define ↔ (zstd ≡ true))
      × ((name : Text)
          → In name define
          → (name ≡ codes "CHC_RS_LZ4") ⊎ (name ≡ codes "CHC_RS_ZSTD"))

  -- The C build has the two C files, the header folder in front of the codecs', and definitions of
  -- exactly the codecs that are features.
  abbrev pub BuildFor : Text → Build → Type 0
  BuildFor chc_dir build =
      (lz4 : List Text) × (zstd : List Text) × (build.files
        ≡ codes "src/wrapper.c" ∷ codes "src/layout_probe.c" ∷ [])
      × (build.include ≡ chc_dir ∷ lz4 ++ zstd)
      × DirsOf env.feature_lz4 (codes "liblz4") lz4
      × DirsOf env.feature_zstd (codes "libzstd") zstd
      × Defines env.feature_lz4 env.feature_zstd build.define
      × ((env.compile build).1 ≡ true)

  -- Reading several files changes nothing; it fails if one of them cannot be read.
  read_all-cases :
      (dir : Text) (names : List Text)
      → ((d : Done) → read_all env dir names d ≡ (d, none))
        ⊎ ((srcs : List Text) × ReadsAll dir names srcs
            × ((d : Done) → read_all env dir names d ≡ (d, some srcs)))
  unfolding read_all
  read_all-cases dir [] = inr ([], tt, λ d. refl)
  read_all-cases dir (name ∷ names) = elim (Option-cases (env.read_to_string (env.join dir name))) [
    | inl missing ↦ inl (λ d. rw missing refl)
    | inr (src, is_src) ↦ elim (read_all-cases dir names) [
      | inl failed ↦ inl (λ d. rw is_src (rw (failed d) refl))
      | inr (srcs, are_srcs, fine) ↦
          inr (src ∷ srcs, (is_src, are_srcs), λ d. rw is_src (rw (fine d) refl))
    ]
  ]

  -- A stage fails and leaves the script's state, or adds one file.
  abbrev pub Writes : Script (Unit {0}) → Text → (Text → Type 0) → Type 0
  Writes m path P =
      ((d : Done) → m d ≡ (d, none))
      ⊎ ((text : Text) × P text
          × (shown : List Text → List Text) × ((d : Done)
              → m d ≡ (
                record d { printed = shown d.printed; written = d.written ++ (path, text) ∷ [] },
                some tt,
              )))

  write-Writes :
      (path text : Text) (P : Text → Type 0) → P text → Writes (write env path text) path P
  write-Writes path text P holds = elim (Bool-cases (env.can_write path)) [
    | inl can ↦ inr (text, holds, (λ lines. lines), λ d. rw can refl)
    | inr cannot ↦ inl (λ d. rw cannot refl)
  ]

  -- A stage that begins with something that may be missing.
  expect-Writes :
      {A : Type 0} (o : Option A) (f : A → Script (Unit {0})) (path : Text) (P : Text → Type 0)
      → ((a : A) → o ≡ some a → Writes (f a) path P)
      → Writes (λ d. and_then f (d, o)) path P
  expect-Writes none f path P rest = inl (λ d. refl)
  expect-Writes (some a) f path P rest = rest a refl

  print-Writes :
      (m : Script (Unit {0})) (lines : List Text) (path : Text) (P : Text → Type 0)
      → Writes m path P
      → Writes (λ d. and_then (λ u. print lines) (m d)) path P
  print-Writes m lines path P (inl failed) = inl (λ d. rw (failed d) refl)
  print-Writes m lines path P (inr (text, holds, shown, fine)) =
      inr (text, holds, (λ before. shown before ++ lines), λ d. rw (fine d) refl)

  pub write_constants-Writes :
      (chc_dir out_dir : Text)
      → Writes
          (write_constants env chc_dir out_dir)
          (env.join out_dir (codes "sys_constants.rs"))
          (ConstantsOf chc_dir)
  unfolding write_constants
  write_constants-Writes chc_dir out_dir =
      expect-Writes (env.read_to_string (env.join chc_dir (codes "clickhouse.h"))) _ _ _
        (λ core is_core.
          expect-Writes (env.read_to_string (env.join chc_dir (codes "clickhouse-compression.h"))) _
            _ _
            (λ comp is_comp.
              expect-Writes (env.read_to_string (env.join chc_dir (codes "clickhouse-client.h"))) _
                _ _
                (λ client is_client.
                  expect-Writes (Emit.generate_constants env.overflow_checks core comp client) _ _ _
                    (λ out is_out.
                      write-Writes (env.join out_dir (codes "sys_constants.rs")) out _
                        (core, comp, client, is_core, is_comp, is_client, is_out)))))

  -- A stage that begins with a part that succeeds and changes nothing.
  known-Writes :
      {A : Type 0} (m : Script A) (a : A) (f : A → Script (Unit {0})) (path : Text)
      (P : Text → Type 0)
      → ((d : Done) → m d ≡ (d, some a))
      → Writes (f a) path P
      → Writes (λ d. and_then f (m d)) path P
  known-Writes m a f path P fine (inl failed) = inl (λ d. rw (fine d) (failed d))
  known-Writes m a f path P fine (inr (text, holds, shown, made)) =
      inr (text, holds, shown, λ d. rw (fine d) (made d))

  pub write_inventory-Writes :
      (chc_dir manifest out_dir : Text)
      → Writes
          (write_inventory env chc_dir manifest out_dir)
          (env.join out_dir (codes "parity.rs"))
          (InventoryOf manifest chc_dir)
  unfolding write_inventory
  write_inventory-Writes chc_dir manifest out_dir = elim (read_all-cases chc_dir covered_headers) [
    | inl failed ↦ inl (λ d. rw (failed d) refl)
    | inr (headers, are_headers, fine) ↦
        known-Writes (read_all env chc_dir covered_headers) headers
          (inventory_of env manifest out_dir) _ _ fine
          (expect-Writes (env.read_to_string (env.join manifest (codes "src/sys.rs"))) _ _ _
            (λ sys_src is_sys.
              expect-Writes
                (Inventory.generate_parity_inventory env.debug env.overflow_checks headers sys_src)
                _ _ _
                (λ out is_out.
                  print-Writes (write env (env.join out_dir (codes "parity.rs")) out)
                    (rerun_if_changed (env.join manifest (codes "src/sys.rs")) ∷ []) _ _
                    (write-Writes (env.join out_dir (codes "parity.rs")) out _
                      (headers, sys_src, are_headers, is_sys, is_out)))))
  ]

  -- A part that only prints.
  abbrev pub Prints : {A : Type 0} → Script A → A → Type 0
  Prints m a =
      (shown : List Text → List Text) × ((d : Done)
        → m d ≡ (record d { printed = shown d.printed }, some a))

  located-Prints :
      (pkg link_name : Text) (answer : Text ⊎ List Text)
      → (env.probe pkg).1 ≡ answer
      → (dirs : List Text) × DirsOf true pkg dirs × Prints (located env pkg link_name answer) dirs
  located-Prints pkg link_name (inr include_paths) found =
      (include_paths, inl (refl, found), ((λ lines. lines), λ d. refl))
  located-Prints pkg link_name (inl e) missing =
      ([], inr (refl, inr (e, missing)), ((λ lines. lines ++ _), λ d. refl))

  -- A codec is located exactly if it is a feature, and this only prints.
  pub probe_if-Prints :
      (feature : Bool) (pkg link_name : Text)
      → (dirs : Option (List Text)) × (is_some dirs ≡ feature)
        × DirsOf feature pkg (dirs_of env dirs)
        × Prints (probe_if env feature pkg link_name) dirs
  unfolding probe_if
  probe_if-Prints false pkg link_name =
      (none, refl, inr (refl, inl refl), ((λ lines. lines), λ d. refl))
  probe_if-Prints true pkg link_name =
      let (dirs, are_dirs, (shown, fine)) = located-Prints pkg link_name (env.probe pkg).1 refl in
      (
        some dirs,
        refl,
        are_dirs,
        (
          (λ lines. shown (lines ++ (env.probe pkg).0)),
          λ d. rw (fine (record d { printed = d.printed ++ (env.probe pkg).0 })) refl,
        ),
      )

  one_In : (name n : Text) → In name (n ∷ []) → name ≡ n
  one_In name n (inl same) = same
  one_In name n (inr later) = elim later [ ]

  pub define_if-Defines :
      (lz4 zstd : Bool)
      → Defines lz4 zstd
          (define_if env lz4 (codes "CHC_RS_LZ4") ++ define_if env zstd (codes "CHC_RS_ZSTD"))
  define_if-Defines true true = (
    (λ at. refl, λ on. inl refl),
    (λ at. refl, λ on. inr (inl refl)),
    λ name at. elim at [
      | inl first ↦ inl first
      | inr later ↦ inr (one_In name (codes "CHC_RS_ZSTD") later)
    ],
  )
  define_if-Defines true false = (
    (λ at. refl, λ on. inl refl),
    (λ at. cc (one_In (codes "CHC_RS_ZSTD") (codes "CHC_RS_LZ4") at), λ on. cc on),
    λ name at. inl (one_In name (codes "CHC_RS_LZ4") at),
  )
  define_if-Defines false true = (
    (λ at. cc (one_In (codes "CHC_RS_LZ4") (codes "CHC_RS_ZSTD") at), λ on. cc on),
    (λ at. refl, λ on. inl refl),
    λ name at. inr (one_In name (codes "CHC_RS_ZSTD") at),
  )
  define_if-Defines false false =
      ((λ at. elim at [ ], λ on. cc on), (λ at. elim at [ ], λ on. cc on), λ name at. elim at [ ])
