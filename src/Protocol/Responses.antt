-- ===== src/Protocol/Responses.antt =====
-- protocol.go: the responses. `bytes` is what `conn.recv` returns: CAS_INFO and the body.
use Prim.Native.Nat.{bit_and}
use cubrid_go.Prelude.{
  ℕ, ℤ, pos, ◌*◌, ◌==◌, ltb, leb, ◌&&◌, is_negative, is_positive, ◌-ℤ◌, if◌then◌else◌, List, [],
  Bool, true, length, none, some, get_elem?, signed32,
}
use cubrid_go.Wire.{uint32}
use cubrid_go.Result.{Result, ok, panic}
use cubrid_go.Runtime.{Runtime, Value}
use cubrid_go.Constants.{size_cas_info, size_int, size_broker_info, stmt_select}
use cubrid_go.Packet.Reader.{
  Parser, ◌>>=◌, ◌>>◌, pure, abort, run, parse_byte, parse_int, parse_raw_bytes,
  parse_null_term_string, bytes_remaining,
}
use cubrid_go.Protocol.Types.{
  ColumnMetaData, ResultInfo, OpenDatabaseResult, PrepareAndExecuteResult, FetchResult,
  PrepareResult, ExecuteResult,
}
use cubrid_go.Protocol.Tables.{raise_error, parse_column_metadata, parse_result_infos}
use cubrid_go.Protocol.Values.{parse_row_data}

-- `panic` is the slice bound `data[:4]`.
unfoldable pub parse_client_info_exchange : List ℕ → Result ℤ
parse_client_info_exchange bytes = elim (uint32 bytes) [ some w ↦ ok (signed32 w) | none ↦ panic ]

-- len(data)-SizeCASInfo-SizeInt
abbrev pub body_length : List ℕ → ℤ
body_length bytes = pos (length bytes) -ℤ pos size_cas_info -ℤ pos size_int

-- The start of every response: CAS_INFO and the response code, and the error of a negative code.
unfoldable pub parse_response {ℓ} : {A : Type ℓ} → List ℕ → (ℤ → Parser A) → Parser A
unfolding raise_error
parse_response bytes body = do
  parse_raw_bytes (pos size_cas_info)
  code ← parse_int
  if is_negative code then raise_error (body_length bytes) else body code

-- `brokerBytes[4]`
unfoldable pub at_index : ℕ → List ℕ → Parser ℕ
at_index i bs = elim (get_elem? bs i) [ some b ↦ pure b | none ↦ abort ]

unfoldable pub parse_open_database : List ℕ → Result OpenDatabaseResult
unfolding raise_error at_index
parse_open_database bytes =
    run
      (do
        cas_info ← parse_raw_bytes (pos size_cas_info)
        response_code ← parse_int
        if is_negative response_code then raise_error (body_length bytes) else do
          broker_bytes ← parse_raw_bytes (pos size_broker_info)
          version_byte ← at_index 4 broker_bytes
          session_id ← parse_int
          pure (record {
            cas_info = cas_info;
            protocol_version = bit_and version_byte 0x3F;
            session_id = session_id;
          }))
      bytes

unfoldable pub parse_simple_response : List ℕ → Result (Unit {0})
unfolding parse_response
parse_simple_response bytes = run (parse_response bytes (λ code. pure tt)) bytes

unfoldable pub parse_get_db_version : List ℕ → Result (List ℕ)
unfolding parse_response
parse_get_db_version bytes =
    run (parse_response bytes (λ code. parse_null_term_string (body_length bytes))) bytes

unfoldable pub parse_get_last_insert_id : List ℕ → Result (List ℕ)
unfolding parse_response
parse_get_last_insert_id bytes =
    run
      (parse_response bytes
        (λ code. if is_positive code then parse_null_term_string code else pure []))
      bytes

-- What PREPARE and PREPARE_AND_EXECUTE answer first, behind the response code.
unfoldable pub parse_prepared : ℤ → Parser PrepareResult
parse_prepared response_code = do
  parse_int
  statement_type ← parse_byte
  bind_count ← parse_int
  parse_byte
  col_count ← parse_int
  columns ← parse_column_metadata col_count
  pure (record {
    query_handle = response_code;
    statement_type = statement_type;
    bind_count = bind_count;
    columns = columns;
  })

unfoldable pub parse_prepare : List ℕ → Result PrepareResult
unfolding parse_response parse_prepared
parse_prepare bytes = run (parse_response bytes parse_prepared) bytes

-- A field that is read and dropped under a condition.
unfoldable pub skip_if {ℓ} : {A : Type ℓ} → Bool → Parser A → Parser (Unit {0})
skip_if b m = if b then (do m; pure tt) else pure tt

-- What PREPARE_AND_EXECUTE and EXECUTE answer on the results, with the fields of later versions.
unfoldable pub parse_results : ℕ → Parser (List ResultInfo)
unfolding skip_if
parse_results proto_version = do
  parse_byte
  result_count ← parse_int
  result_infos ← parse_result_infos result_count
  skip_if (ltb 1 proto_version) parse_byte
  skip_if (ltb 4 proto_version) parse_int
  pure result_infos

module _ (go : Runtime) where
  -- `parseRowData` under the test of the caller.
  unfoldable pub parse_rows_if : Bool → ℤ → List ColumnMetaData → ℕ → Parser (List (List Value))
  parse_rows_if test tuple_count columns stmt_type =
      if test then parse_row_data go tuple_count columns stmt_type else pure []

  -- The rows that come inline behind a SELECT: the tuple count and the rows. EXECUTE also asks for
  -- columns, PREPARE_AND_EXECUTE does not.
  unfoldable pub parse_inline_rows : Bool → ℕ → List ColumnMetaData → Parser (ℤ × List (List Value))
  unfolding parse_rows_if
  parse_inline_rows with_columns stmt_type columns = do
    left ← bytes_remaining
    if (stmt_type == stmt_select) && leb (size_int * 2) left
        then (do
          parse_int
          tuple_count ← parse_int
          rows ←
              parse_rows_if (is_positive tuple_count && with_columns) tuple_count columns stmt_type
          pure (tuple_count, rows))
        else pure (pos 0, [])

  unfoldable pub parse_prepared_and_executed : ℕ → ℤ → Parser PrepareAndExecuteResult
  unfolding parse_prepared parse_results parse_inline_rows
  parse_prepared_and_executed proto_version response_code = do
    prepared ← parse_prepared response_code
    total ← parse_int
    infos ← parse_results proto_version
    (tuple_count, rows) ← parse_inline_rows true prepared.statement_type prepared.columns
    pure (record {
      query_handle = prepared.query_handle;
      statement_type = prepared.statement_type;
      bind_count = prepared.bind_count;
      columns = prepared.columns;
      total_tuple_count = total;
      result_infos = infos;
      tuple_count = tuple_count;
      rows = rows;
    })

  unfoldable pub parse_prepare_and_execute : List ℕ → ℕ → Result PrepareAndExecuteResult
  unfolding parse_response parse_prepared_and_executed
  parse_prepare_and_execute bytes proto_version =
      run (parse_response bytes (parse_prepared_and_executed proto_version)) bytes

  unfoldable pub parse_executed : List ColumnMetaData → ℕ → ℕ → ℤ → Parser ExecuteResult
  unfolding parse_results parse_inline_rows
  parse_executed columns stmt_type proto_version response_code = do
    infos ← parse_results proto_version
    (tuple_count, rows) ← parse_inline_rows (ltb 0 (length columns)) stmt_type columns
    pure (record {
      total_tuple_count = response_code;
      result_infos = infos;
      tuple_count = tuple_count;
      rows = rows;
    })

  unfoldable pub parse_execute : List ℕ → List ColumnMetaData → ℕ → ℕ → Result ExecuteResult
  unfolding parse_response parse_executed
  parse_execute bytes columns stmt_type proto_version =
      run (parse_response bytes (parse_executed columns stmt_type proto_version)) bytes

  unfoldable pub parse_fetched : List ColumnMetaData → ℕ → Parser FetchResult
  unfolding parse_rows_if
  parse_fetched columns stmt_type = do
    tuple_count ← parse_int
    rows ←
        parse_rows_if (is_positive tuple_count && ltb 0 (length columns)) tuple_count columns
          stmt_type
    pure (record { tuple_count = tuple_count; rows = rows })

  unfoldable pub parse_fetch : List ℕ → List ColumnMetaData → ℕ → Result FetchResult
  unfolding parse_response parse_fetched
  parse_fetch bytes columns stmt_type =
      run (parse_response bytes (λ code. parse_fetched columns stmt_type)) bytes
