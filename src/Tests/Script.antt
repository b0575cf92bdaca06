-- ===== src/Tests/Script.antt =====
-- The build script in one environment.
use clickhouse_c_rs.Base.{true, false, some, [], ◌++◌, inl}
use clickhouse_c_rs.BuildScript.Text.{Text, codes}
use clickhouse_c_rs.BuildScript.Script.{Env, start, main}
use clickhouse_c_rs.BuildScript.Script.Outcome.{Outcome, main-Outcome}

abbrev source : Text
source =
    codes "enum { CHC_OK }; enum chc_kind { CHC_VOID }; enum chc_col_kind { CHC_COL_FIXED };"
    ++ (codes "enum chc_interval_unit { CHC_SECOND }; enum chc_compression { CHC_COMP_NONE };"
        ++ (codes "enum chc_packet_kind { CHC_PKT_HELLO }; int chc_a(void);\n"
            ++ (codes "#define CHC_ERR_MSG_LEN 512\n#define CHC_SERVER_MIN_REVISION 1\n"
                ++ codes "#define CHC_CLIENT_REVISION 2\n")))

-- Every file reads as the text above, liblz4 is not found, and libzstd is no feature.
abbrev env : Env
env = record {
  var = λ name. some (codes "/out");
  feature_lz4 = true;
  feature_zstd = false;
  overflow_checks = true;
  join = λ dir name. dir ++ (codes "/" ++ name);
  exists = λ path. true;
  read_to_string = λ path. some source;
  can_write = λ path. true;
  probe = λ pkg. ([], inl (codes "no pkg-config"));
  compile = λ build. ([], true);
  debug = λ text. text;
}

main-Outcome_example : Outcome env (main env start)
main-Outcome_example = main-Outcome env
