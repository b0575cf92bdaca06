-- ===== src/Query/Setters.antt =====
-- src/query.rs: how settings, parameters and options are put together.
use clickhouse_c_rs.Base.{List, [], Bytes, true, false, none, some}
use clickhouse_c_rs.BuildScript.Text.{codes}
use clickhouse_c_rs.Query.{QuerySetting, QueryParam, QueryOpts}

unfoldable pub new_setting : Bytes → Bytes → QuerySetting
new_setting name value = record { name = name; value = value; important = false; custom = false }

unfoldable pub important : QuerySetting → QuerySetting
important s = record s { important = true }

unfoldable pub custom : QuerySetting → QuerySetting
custom s = record s { custom = true }

unfoldable pub text_type_names : QuerySetting
unfolding new_setting
text_type_names =
    new_setting (codes "output_format_native_encode_types_in_binary_format") (codes "0")

unfoldable pub new_param : Bytes → Bytes → QueryParam
new_param name value = record { name = name; value = value }

unfoldable pub new_opts : QueryOpts
new_opts = record { query_id = none; settings = []; params = [] }

unfoldable pub query_id : QueryOpts → Bytes → QueryOpts
query_id opts id = record opts { query_id = some id }

unfoldable pub settings : QueryOpts → List QuerySetting → QueryOpts
settings opts ss = record opts { settings = ss }

unfoldable pub params : QueryOpts → List QueryParam → QueryOpts
params opts ps = record opts { params = ps }
