-- ===== src/Protocol/Tests.antt =====
-- The theorems on protocol.go at a small SELECT: one column of each kind, two rows.
use cubrid_go.Prelude.{
  inl, ℕ, pos, negsuc, ◌≡◌, refl, List, [], ◌∷◌, ◌++◌, true, false, none, some, length, ascii,
  arith, All, map, replicate, ◌==◌,
}
use cubrid_go.Result.{ok, err, panic}
use cubrid_go.Errors.{new_error}
use cubrid_go.Runtime.{Value, text, time}
use cubrid_go.Constants.{stmt_select, stmt_call_sp}
use cubrid_go.Constants.DataType
use cubrid_go.Packet.Tests.{example_go, example_go-KeepsCivil, noon, noon-IsCivil}
use cubrid_go.Packet.Reads.{Reads}
use cubrid_go.Packet.RoundTrip.{fixed_bytes}
use cubrid_go.Protocol.Types.{ColumnMetaData}
use cubrid_go.Protocol.Values.{parse_cells, parse_row_data}
use cubrid_go.Protocol.Responses.{
  parse_open_database, parse_simple_response, parse_get_db_version, parse_get_last_insert_id,
  parse_prepare, parse_prepare_and_execute, parse_execute, parse_fetch,
}
use cubrid_go.Protocol.Requests.{write_open_database, write_prepare_and_execute}
use cubrid_go.Protocol.Bind.{encode_bind_params}
use cubrid_go.Protocol.Grammar.{
  concat_bytes, int_bytes, WireColumn, ColumnFits, column_bytes, WireInfo, InfoFits, Field,
  text_field, int_field, datetime_field, field_type, field_size, field_bytes, field_value,
}
use cubrid_go.Protocol.Grammar
use cubrid_go.Protocol.Grammar.Rows.{WireRow, RowFits, row_bytes, row_values, cell_value}
use cubrid_go.Protocol.Grammar.Responses.{
  response_bytes, error_bytes, WirePrepared, PreparedFits, metas, WireResults, ResultsFit,
  results_bytes, info_results, WireInline, inline_bytes, values_of, WireExecution, ExecutionFits,
  execution_bytes, execution_result,
}
use cubrid_go.Protocol.Parsed.Rows.{rows_read_back}
use cubrid_go.Protocol.RoundTrip.{prepare_and_execute_reads_back, execute_reads_back}
use cubrid_go.Protocol.Failures.{error_responses, short_responses_panic}
use cubrid_go.Protocol.Parameters.{param_cell, params_read_back}
use cubrid_go.Protocol.Arguments.{request, prepare_and_execute_arguments, open_database_layout}

abbrev pub plain_column : ℕ → List ℕ → ColumnMetaData
plain_column t name = record {
  column_type = t;
  scale = negsuc 0;
  precision = pos 10;
  name = name;
  real_name = name;
  table_name = ascii "t";
  is_nullable = true;
  default_value = [];
  is_auto_increment = false;
  is_unique_key = false;
  is_primary_key = true;
  is_foreign_key = false;
}

-- An INTEGER, and a STRING whose type stands behind a byte with the high bit.
abbrev pub two_columns : List WireColumn
two_columns =
    record {
      meta = plain_column DataType.int (ascii "id");
      legacy = none;
      reverse_index = 0;
      reverse_unique = 7;
      shared = 0;
    }
    ∷ record {
      meta = plain_column DataType.string (ascii "name");
      legacy = some 0x81;
      reverse_index = 0;
      reverse_unique = 0;
      shared = 1;
    }
    ∷ []

pub two_columns_fit : All ColumnFits two_columns
two_columns_fit = omega arith

abbrev pub oid : List ℕ
oid = 0 ∷ 0 ∷ 0 ∷ 1 ∷ 0 ∷ 2 ∷ 0 ∷ 3 ∷ []

abbrev pub two_rows : List WireRow
two_rows =
    record {
      index = pos 1;
      oid = oid;
      cells = some (int_field (negsuc 6)) ∷ some (text_field Grammar.string (ascii "ab")) ∷ [];
    }
    ∷ record { index = pos 2; oid = oid; cells = some (int_field (pos 8)) ∷ none ∷ [] }
    ∷ []

pub two_rows_fit : All (RowFits (stmt_select == stmt_call_sp) (metas two_columns)) two_rows
two_rows_fit = (
  record {
    index_fits = omega arith;
    oid_length = refl;
    cells_fit = ((omega arith, refl), ((omega arith, refl), tt));
  },
  (
    record {
      index_fits = omega arith;
      oid_length = refl;
      cells_fit = ((omega arith, refl), (tt, tt));
    },
    tt,
  ),
)

rows_read_back_example :
    Reads
      (parse_row_data example_go (pos 2) (metas two_columns) stmt_select)
      (concat_bytes (row_bytes false (metas two_columns)) two_rows)
      (map (row_values example_go) two_rows)
rows_read_back_example =
    rows_read_back example_go example_go-KeepsCivil (metas two_columns) stmt_select two_rows
      two_rows_fit

abbrev pub cas : List ℕ
cas = 1 ∷ 2 ∷ 3 ∷ 4 ∷ []

abbrev pub prepared : WirePrepared
prepared = record {
  lifetime = pos 0;
  statement_type = stmt_select;
  bind_count = pos 1;
  updatable = 0;
  columns = two_columns;
}

pub prepared_fits : PreparedFits prepared
prepared_fits = record {
  lifetime_fits = omega arith;
  bind_fits = omega arith;
  count_fits = omega arith;
  columns_fit = two_columns_fit;
}

abbrev pub results : WireResults
results = record {
  reusable = 0;
  infos =
      record {
        info = record { stmt_type = stmt_select; result_count = pos 2; oid = oid };
        cache_sec = pos 0;
        cache_usec = pos 0;
      }
      ∷ [];
  column_info = 1;
  shard = pos 0;
}

pub results_fit : ResultsFit results
results_fit = record {
  count_fits = omega arith;
  infos_fit = (
    record {
      count_fits = omega arith;
      oid_length = refl;
      sec_fits = omega arith;
      usec_fits = omega arith;
    },
    tt,
  );
  shard_fits = omega arith;
}

abbrev pub inline : WireInline
inline = record { fetch_code = pos 0; rows = two_rows }

abbrev pub execution : WireExecution
execution = record { prepared = prepared; total = pos 2; results = results; inline = some inline }

execution_fits : ExecutionFits execution
execution_fits = record {
  prepared_fits = prepared_fits;
  total_fits = omega arith;
  results_fit = results_fit;
  inline_fits = (refl, omega arith, omega arith, two_rows_fit);
}

prepare_and_execute_reads_back_example :
    parse_prepare_and_execute example_go
      (response_bytes cas (pos 5) (execution_bytes 7 execution) ++ [])
      7
    ≡ ok (execution_result example_go (pos 5) execution)
prepare_and_execute_reads_back_example =
    prepare_and_execute_reads_back example_go example_go-KeepsCivil cas refl 5 (omega arith) [] 7
      execution execution_fits

execute_reads_back_example :
    parse_execute example_go
      (response_bytes cas
          (pos 2)
          (results_bytes 7 results ++ inline_bytes stmt_select (metas two_columns) (some inline))
        ++ [])
      (metas two_columns)
      stmt_select
      7
    ≡ ok (record {
      total_tuple_count = pos 2;
      result_infos = info_results results;
      tuple_count = pos 2;
      rows = values_of example_go two_rows;
    })
execute_reads_back_example =
    execute_reads_back example_go example_go-KeepsCivil cas refl 2 (omega arith) []
      (metas two_columns) stmt_select 7 results (some inline) (inl (omega arith)) results_fit
      (refl, omega arith, omega arith, two_rows_fit)

abbrev pub message : List ℕ
message = ascii "duplicate key"

abbrev refused : List ℕ
refused = error_bytes cas (negsuc 0) (negsuc 669) message

error_responses_example :
    (parse_open_database refused ≡ err (new_error (negsuc 669) message))
    × (parse_simple_response refused ≡ err (new_error (negsuc 669) message))
    × (parse_get_db_version refused ≡ err (new_error (negsuc 669) message))
    × (parse_get_last_insert_id refused ≡ err (new_error (negsuc 669) message))
    × (parse_prepare refused ≡ err (new_error (negsuc 669) message))
    × (parse_prepare_and_execute example_go refused 7 ≡ err (new_error (negsuc 669) message))
    × (parse_execute example_go refused [] stmt_select 7 ≡ err (new_error (negsuc 669) message))
    × (parse_fetch example_go refused [] stmt_select ≡ err (new_error (negsuc 669) message))
error_responses_example =
    error_responses cas refl 0 (omega arith) (negsuc 669) (omega arith) message example_go []
      stmt_select 7

short_responses_panic_example :
    (parse_open_database cas ≡ panic)
    × (parse_simple_response cas ≡ panic)
    × (parse_get_db_version cas ≡ panic)
    × (parse_get_last_insert_id cas ≡ panic)
    × (parse_prepare cas ≡ panic)
    × (parse_prepare_and_execute example_go cas 7 ≡ panic)
    × (parse_execute example_go cas [] stmt_select 7 ≡ panic)
    × (parse_fetch example_go cas [] stmt_select ≡ panic)
short_responses_panic_example = short_responses_panic cas example_go [] stmt_select 7 (omega arith)

abbrev two_params : List Value
two_params = time noon ∷ text (ascii "x") ∷ []

params_read_back_example :
    Reads
      (parse_cells example_go true (metas two_columns))
      (encode_bind_params example_go two_params)
      (map (cell_value example_go) (map (param_cell example_go) two_params))
params_read_back_example =
    params_read_back example_go example_go-KeepsCivil (metas two_columns) two_params refl
      (noon-IsCivil, (omega arith, tt))

prepare_and_execute_arguments_example :
    write_prepare_and_execute (ascii "SELECT 1") true cas
    ≡ request 41
        (int_bytes (pos 3)
          ∷ (ascii "SELECT 1" ++ (0 ∷ []))
          ∷ (0 ∷ [])
          ∷ (1 ∷ [])
          ∷ (2 ∷ [])
          ∷ int_bytes (pos 0)
          ∷ int_bytes (pos 0)
          ∷ []
          ∷ (int_bytes (pos 0) ++ int_bytes (pos 0))
          ∷ int_bytes (pos 0)
          ∷ [])
        cas
prepare_and_execute_arguments_example = prepare_and_execute_arguments (ascii "SELECT 1") cas true

open_database_layout_example :
    (write_open_database (ascii "demodb") (ascii "dba") []
      ≡ fixed_bytes (ascii "demodb") 32
        ++ (fixed_bytes (ascii "dba") 32 ++ (fixed_bytes [] 32 ++ replicate 532 0)))
    × (length (write_open_database (ascii "demodb") (ascii "dba") []) ≡ 628)
open_database_layout_example = open_database_layout (ascii "demodb") (ascii "dba") []
