-- ===== src/BuildScript/Script/Outcome.antt =====
-- What a run of `main` (build.rs) leaves behind.
use clickhouse_c_rs.Base.{
  ◌≡◌, refl, inl, inr, Bool, true, false, Option, none, some, is_some, List, [], ◌∷◌, ◌++◌,
  Bool-cases,
}
use mathlib.Core.Path.{subst}
use clickhouse_c_rs.BuildScript.Text.{Text, codes}
use clickhouse_c_rs.BuildScript.Script.{
  Env, Build, Done, Script, and_then, require, start, write_constants, write_inventory, probe_if,
  finish, build_with_lz4, build, generate, in_checkout, build_of, dirs_of, compile, or_bundled,
  emit_upstream_revision, main,
}
use clickhouse_c_rs.BuildScript.Script.Stages.{
  ConstantsOf, InventoryOf, BuildFor, DirsOf, Defines, define_if-Defines, Writes,
  write_constants-Writes, write_inventory-Writes, probe_if-Prints,
}

module _ (env : Env) where
  abbrev pub Outcome : Done × Option (Unit {0}) → Type 0
  Outcome (d, none) = d.compiled ≡ none
  Outcome (d, some u) =
      (manifest : Text) × (out_dir : Text) × (constants : Text) × (inventory : Text)
      × (build : Build) × (is_some (env.var "CARGO_CFG_UNIX") ≡ true)
      × (env.var "CARGO_MANIFEST_DIR" ≡ some manifest)
      × (env.var "OUT_DIR" ≡ some out_dir)
      × ConstantsOf env (or_bundled env manifest (env.var "CHC_INCLUDE_DIR")) constants
      × InventoryOf env manifest (or_bundled env manifest (env.var "CHC_INCLUDE_DIR")) inventory
      × (d.written
          ≡ (env.join out_dir (codes "sys_constants.rs"), constants)
            ∷ (env.join out_dir (codes "parity.rs"), inventory)
            ∷ [])
      × (d.compiled ≡ some build)
      × BuildFor env (or_bundled env manifest (env.var "CHC_INCLUDE_DIR")) build

  module _ {A : Type 0} where
    after_expect :
        (o : Option A) (f : A → Script (Unit {0})) (d : Done)
        → d.compiled ≡ none
        → ((a : A) → o ≡ some a → Outcome (f a d))
        → Outcome (and_then f (d, o))
    after_expect none f d clean rest = clean
    after_expect (some a) f d clean rest = rest a refl

    after_Prints :
        (m : Script A) (a : A) (f : A → Script (Unit {0})) (d : Done)
        (shown : List Text → List Text)
        → ((d : Done) → m d ≡ (record d { printed = shown d.printed }, some a))
        → Outcome (f a (record d { printed = shown d.printed }))
        → Outcome (and_then f (m d))
    after_Prints m a f d shown fine rest = rw (fine d) rest

  after_require :
      (b : Bool) (m : Script (Unit {0})) (d : Done)
      → d.compiled ≡ none
      → (b ≡ true → Outcome (m d))
      → Outcome (and_then (λ u. m) (require b d))
  after_require true m d clean rest = rest refl
  after_require false m d clean rest = clean

  after_Writes :
      (m : Script (Unit {0})) (path : Text) (P : Text → Type 0) (next : Script (Unit {0}))
      (d : Done)
      → Writes env m path P
      → d.compiled ≡ none
      → ((text : Text)
          → P text
          → (shown : List Text → List Text)
          → Outcome (
              next
                (record d { printed = shown d.printed; written = d.written ++ (path, text) ∷ [] })))
      → Outcome (and_then (λ u. next) (m d))
  after_Writes m path P next d (inl failed) clean rest = rw (failed d) clean
  after_Writes m path P next d (inr (text, holds, shown, fine)) clean rest =
      rw (fine d) (rest text holds shown)

  module _ (manifest out_dir constants inventory : Text)
      (unix : is_some (env.var "CARGO_CFG_UNIX") ≡ true)
      (is_manifest : env.var "CARGO_MANIFEST_DIR" ≡ some manifest)
      (is_out_dir : env.var "OUT_DIR" ≡ some out_dir) where
    abbrev chc_dir : Text
    chc_dir = or_bundled env manifest (env.var "CHC_INCLUDE_DIR")

    finish-Outcome :
        ConstantsOf env chc_dir constants
        → InventoryOf env manifest chc_dir inventory
        → (lz4 zstd : Option (List Text)) → is_some lz4 ≡ env.feature_lz4
        → is_some zstd ≡ env.feature_zstd
        → DirsOf env env.feature_lz4 (codes "liblz4") (dirs_of env lz4)
        → DirsOf env env.feature_zstd (codes "libzstd") (dirs_of env zstd)
        → (d : Done) → d.compiled ≡ none
        → d.written
          ≡ (env.join out_dir (codes "sys_constants.rs"), constants)
            ∷ (env.join out_dir (codes "parity.rs"), inventory)
            ∷ []
        → Outcome (finish env chc_dir lz4 zstd d)
    unfolding compile
    finish-Outcome of_constants of_inventory lz4 zstd has_lz4 has_zstd lz4_dirs zstd_dirs d clean
          files =
        let build = build_of env chc_dir lz4 zstd in
        elim (Bool-cases (env.compile build).1) [
          | inl compiles ↦ rw compiles (
            manifest,
            out_dir,
            constants,
            inventory,
            build,
            unix,
            is_manifest,
            is_out_dir,
            of_constants,
            of_inventory,
            files,
            refl,
            (
              dirs_of env lz4,
              dirs_of env zstd,
              refl,
              refl,
              lz4_dirs,
              zstd_dirs,
              subst (λ on. Defines env on env.feature_zstd build.define) has_lz4
                  (subst (λ on. Defines env (is_some lz4) on build.define) has_zstd
                    (define_if-Defines env (is_some lz4) (is_some zstd))),
              compiles,
            ),
          )
          | inr broken ↦ rw broken clean
        ]

    build-Outcome :
        ConstantsOf env chc_dir constants
        → InventoryOf env manifest chc_dir inventory
        → (d : Done) → d.compiled ≡ none
        → d.written
          ≡ (env.join out_dir (codes "sys_constants.rs"), constants)
            ∷ (env.join out_dir (codes "parity.rs"), inventory)
            ∷ []
        → Outcome (build env chc_dir d)
    build-Outcome of_constants of_inventory d clean files =
        let (lz4, has_lz4, lz4_dirs, (shown, fine)) =
          probe_if-Prints env env.feature_lz4 (codes "liblz4") (codes "lz4") in
        let (zstd, has_zstd, zstd_dirs, (shown', fine')) =
          probe_if-Prints env env.feature_zstd (codes "libzstd") (codes "zstd") in
        after_Prints (probe_if env env.feature_lz4 (codes "liblz4") (codes "lz4")) lz4
          (build_with_lz4 env chc_dir) d shown fine
          (after_Prints (probe_if env env.feature_zstd (codes "libzstd") (codes "zstd")) zstd
            (finish env chc_dir lz4) (record d { printed = shown d.printed }) shown' fine'
            (finish-Outcome of_constants of_inventory lz4 zstd has_lz4 has_zstd lz4_dirs zstd_dirs
              (record d { printed = shown' (shown d.printed) }) clean files))

  generate-Outcome :
      (manifest out_dir : Text)
      → is_some (env.var "CARGO_CFG_UNIX") ≡ true
      → env.var "CARGO_MANIFEST_DIR" ≡ some manifest
      → env.var "OUT_DIR" ≡ some out_dir
      → (d : Done) → d.compiled ≡ none
      → d.written ≡ []
      → Outcome
          (generate env (or_bundled env manifest (env.var "CHC_INCLUDE_DIR")) manifest out_dir d)
  generate-Outcome manifest out_dir unix is_manifest is_out_dir d clean no_files =
      let dir = or_bundled env manifest (env.var "CHC_INCLUDE_DIR") in
      after_Writes (write_constants env dir out_dir) _ _
        (λ d. and_then (λ u. build env dir) (write_inventory env dir manifest out_dir d)) d
        (write_constants-Writes env dir out_dir) clean
        (λ constants of_constants shown.
          after_Writes (write_inventory env dir manifest out_dir) _ _ (build env dir) _
            (write_inventory-Writes env dir manifest out_dir) clean
            (λ inventory of_inventory shown'.
              build-Outcome manifest out_dir constants inventory unix is_manifest is_out_dir
                of_constants of_inventory _ clean (rw no_files refl)))

  -- If `main` panics, nothing is compiled. If it ends well, the target is a Unix and Cargo's variables
  -- are there, it has written the constants of the three headers and then the inventory of the
  -- covered headers and the bindings, and no other file, and it has compiled the two C files: with the
  -- header folder in front of those that pkg-config names for the codecs that are features, and with
  -- a definition for each of these codecs and no other.
  pub main-Outcome : Outcome (main env start)
  unfolding main
  main-Outcome =
      after_require (is_some (env.var "CARGO_CFG_UNIX"))
        (λ d.
          and_then
            (λ manifest.
              in_checkout env manifest (or_bundled env manifest (env.var "CHC_INCLUDE_DIR")))
            (d, env.var "CARGO_MANIFEST_DIR"))
        start refl
        (λ unix.
          after_expect (env.var "CARGO_MANIFEST_DIR")
            (λ manifest.
              in_checkout env manifest (or_bundled env manifest (env.var "CHC_INCLUDE_DIR")))
            start refl
            (λ manifest is_manifest.
              let dir = or_bundled env manifest (env.var "CHC_INCLUDE_DIR") in
              after_require (env.exists (env.join dir (codes "clickhouse.h")))
                (λ d.
                  and_then (λ u d. and_then (generate env dir manifest) (d, env.var "OUT_DIR"))
                    (emit_upstream_revision env manifest d))
                start refl
                (λ has_header.
                  after_expect (env.var "OUT_DIR") (generate env dir manifest) _ refl
                    (λ out_dir is_out_dir.
                      generate-Outcome manifest out_dir unix is_manifest is_out_dir _ refl refl))))
