-- ===== src/BuildScript/Script.antt =====
-- `main` of build.rs: what it reads, prints, writes and compiles. A path is its text. The environment,
-- the file system, pkg-config and cc are a parameter; the files that are read do not change meanwhile.
pub mod Stages
pub mod Outcome
use clickhouse_c_rs.Base.{
  Bool, true, false, ◌||◌, not, Option, none, some, is_some, String, List, [], ◌∷◌, ◌++◌, map, ◌⊎◌,
  inl, inr, if◌then◌else◌,
}
use mathlib.Core.Option
use clickhouse_c_rs.BuildScript.Text.{Text, codes}
use clickhouse_c_rs.BuildScript.Declarations.{upstream_revision}
use clickhouse_c_rs.BuildScript.Emit
use clickhouse_c_rs.BuildScript.Inventory

-- What the script tells `cc`: the same C files, standard and flags always, and these.
pub record Build : Type 0 where
  pub files : List Text
  pub include : List Text
  pub define : List Text
  pub std : Text
  pub warnings : Bool
  pub extra_warnings : Bool
  pub flags_if_supported : List Text

-- `probe` and `compile` give the lines that the crates print for Cargo themselves.
pub record Env : Type 0 where
  pub var : String → Option Text
  pub feature_lz4 : Bool
  pub feature_zstd : Bool
  pub overflow_checks : Bool
  pub join : Text → Text → Text
  pub exists : Text → Bool
  pub read_to_string : Text → Option Text
  pub can_write : Text → Bool
  pub probe : Text → List Text × (Text ⊎ List Text)
  pub compile : Build → List Text × Bool
  pub debug : Text → Text

pub record Done : Type 0 where
  pub printed : List Text
  pub written : List (Text × Text)
  pub compiled : Option Build

-- A panic is `none`, and leaves what was done.
abbrev pub Script : Type 0 → Type 0
Script A = Done → Done × Option A

abbrev pub and_then : {A B : Type 0} → (A → Script B) → Done × Option A → Done × Option B
and_then f (d, none) = (d, none)
and_then f (d, some a) = f a d

infixl 5 ◌>>=◌ ◌>>◌
abbrev pub ◌>>=◌ : {A B : Type 0} → Script A → (A → Script B) → Script B
◌>>=◌ m f d = and_then f (m d)

abbrev pub ◌>>◌ : {B : Type 0} → Script (Unit {0}) → Script B → Script B
m >> k = m >>= λ _. k

abbrev pub pure : {A : Type 0} → A → Script A
pure a d = (d, some a)

abbrev pub expect : {A : Type 0} → Option A → Script A
expect o d = (d, o)

abbrev pub require : Bool → Script (Unit {0})
require true d = (d, some tt)
require false d = (d, none)

abbrev pub start : Done
start = record { printed = []; written = []; compiled = none }

abbrev pub print : List Text → Script (Unit {0})
print lines d = (record d { printed = d.printed ++ lines }, some tt)

abbrev pub rerun_if_changed : Text → Text
rerun_if_changed path = codes "cargo:rerun-if-changed=" ++ path

abbrev pub covered_headers : List Text
covered_headers =
    codes "clickhouse.h"
    ∷ codes "clickhouse-posix-io.h"
    ∷ codes "clickhouse-compression.h"
    ∷ codes "clickhouse-client.h"
    ∷ codes "clickhouse-async.h"
    ∷ []

module _ (env : Env) where
  abbrev pub write : Text → Text → Script (Unit {0})
  write path text d =
      if env.can_write path
      then (record d { written = d.written ++ (path, text) ∷ [] }, some tt)
      else (d, none)

  abbrev pub read : Text → Text → Script Text
  read dir name = expect (env.read_to_string (env.join dir name))

  abbrev pub emit_upstream_revision : Text → Script (Unit {0})
  emit_upstream_revision manifest =
      let path = env.join manifest (codes "UPSTREAM") in
      print (
        (codes "cargo:rustc-env=CHC_UPSTREAM_REVISION="
          ++ upstream_revision (env.read_to_string path))
        ∷ rerun_if_changed path
        ∷ [])

  unfoldable pub write_constants : Text → Text → Script (Unit {0})
  write_constants chc_dir out_dir = do
    core_src ← read chc_dir (codes "clickhouse.h")
    comp_src ← read chc_dir (codes "clickhouse-compression.h")
    client_src ← read chc_dir (codes "clickhouse-client.h")
    out ← expect (Emit.generate_constants env.overflow_checks core_src comp_src client_src)
    write (env.join out_dir (codes "sys_constants.rs")) out

  unfoldable pub read_all : Text → List Text → Script (List Text)
  read_all dir [] = pure []
  read_all dir (name ∷ names) = do src ← read dir name; srcs ← read_all dir names; pure (src ∷ srcs)

  abbrev pub inventory_of : Text → Text → List Text → Script (Unit {0})
  inventory_of manifest out_dir headers = do
    sys_src ← read manifest (codes "src/sys.rs")
    out ← expect (Inventory.generate_parity_inventory env.debug env.overflow_checks headers sys_src)
    write (env.join out_dir (codes "parity.rs")) out
    print (rerun_if_changed (env.join manifest (codes "src/sys.rs")) ∷ [])

  unfoldable pub write_inventory : Text → Text → Text → Script (Unit {0})
  write_inventory chc_dir manifest out_dir = do
    headers ← read_all chc_dir covered_headers
    inventory_of manifest out_dir headers

  -- What `probe` prints and gives once pkg-config has answered.
  abbrev pub located : Text → Text → Text ⊎ List Text → Script (List Text)
  located pkg link_name (inr include_paths) = pure include_paths
  located pkg link_name (inl e) = do
    print (
        (codes "cargo:warning=pkg-config could not find "
          ++ (pkg
              ++ (codes " ("
                  ++ (e ++ (codes "); assuming -l" ++ (link_name ++ codes " resolves"))))))
        ∷ (codes "cargo:rustc-link-lib=" ++ link_name)
        ∷ [])
    pure []

  abbrev pub probe : Text → Text → Script (List Text)
  probe pkg link_name = do print (env.probe pkg).0; located pkg link_name (env.probe pkg).1

  -- `cfg!(feature = …).then(…)`.
  unfoldable pub probe_if : Bool → Text → Text → Script (Option (List Text))
  probe_if false pkg link_name = pure none
  probe_if true pkg link_name = do dirs ← probe pkg link_name; pure (some dirs)

  abbrev pub dirs_of : Option (List Text) → List Text
  dirs_of none = []
  dirs_of (some dirs) = dirs

  abbrev pub define_if : Bool → Text → List Text
  define_if true name = name ∷ []
  define_if false name = []

  abbrev pub build_of : Text → Option (List Text) → Option (List Text) → Build
  build_of chc_dir lz4 zstd = record {
    files = codes "src/wrapper.c" ∷ codes "src/layout_probe.c" ∷ [];
    include = chc_dir ∷ dirs_of lz4 ++ dirs_of zstd;
    define =
        define_if (is_some lz4) (codes "CHC_RS_LZ4")
        ++ define_if (is_some zstd) (codes "CHC_RS_ZSTD");
    std = codes "c2x";
    warnings = true;
    extra_warnings = true;
    flags_if_supported = codes "-Wno-unused-parameter" ∷ codes "-Wno-unused-function" ∷ [];
  }

  unfoldable pub compile : Build → Script (Unit {0})
  compile build d =
      let (lines, compiles) = env.compile build in
      if compiles
      then (record d { printed = d.printed ++ lines; compiled = some build }, some tt)
      else (record d { printed = d.printed ++ lines }, none)

  abbrev pub rerun_headers : Text → List Text → List Text
  rerun_headers chc_dir [] = []
  rerun_headers chc_dir (name ∷ names) =
      let p = env.join chc_dir name in
      (if env.exists p then rerun_if_changed p ∷ [] else []) ++ rerun_headers chc_dir names

  abbrev pub or_bundled : Text → Option Text → Text
  or_bundled manifest (some dir) = dir
  or_bundled manifest none = env.join manifest (codes "clickhouse-c")

  abbrev pub finish : Text → Option (List Text) → Option (List Text) → Script (Unit {0})
  finish chc_dir lz4 zstd = do
    compile (build_of chc_dir lz4 zstd)
    print (
        rerun_if_changed (codes "src/wrapper.c")
          ∷ rerun_if_changed (codes "src/layout_probe.c")
          ∷ rerun_if_changed (codes "build.rs")
          ∷ codes "cargo:rerun-if-env-changed=CHC_INCLUDE_DIR"
          ∷ rerun_headers chc_dir covered_headers
        ++ (codes "cargo:include=" ++ chc_dir) ∷ [])

  abbrev pub build_with_lz4 : Text → Option (List Text) → Script (Unit {0})
  build_with_lz4 chc_dir lz4 = do
    zstd ← probe_if env.feature_zstd (codes "libzstd") (codes "zstd")
    finish chc_dir lz4 zstd

  abbrev pub build : Text → Script (Unit {0})
  build chc_dir = do
    lz4 ← probe_if env.feature_lz4 (codes "liblz4") (codes "lz4")
    build_with_lz4 chc_dir lz4

  abbrev pub generate : Text → Text → Text → Script (Unit {0})
  generate chc_dir manifest out_dir = do
    write_constants chc_dir out_dir
    write_inventory chc_dir manifest out_dir
    build chc_dir

  abbrev pub in_checkout : Text → Text → Script (Unit {0})
  in_checkout manifest chc_dir = do
    require (env.exists (env.join chc_dir (codes "clickhouse.h")))
    emit_upstream_revision manifest
    out_dir ← expect (env.var "OUT_DIR")
    generate chc_dir manifest out_dir

  unfoldable pub main : Script (Unit {0})
  main = do
    require (is_some (env.var "CARGO_CFG_UNIX"))
    manifest ← expect (env.var "CARGO_MANIFEST_DIR")
    in_checkout manifest (or_bundled manifest (env.var "CHC_INCLUDE_DIR"))
