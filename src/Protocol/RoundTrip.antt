-- ===== src/Protocol/RoundTrip.antt =====
-- The parse functions of protocol.go on whole responses: success, as the grammar lays it out.
use cubrid_go.Prelude.{
  ℕ, pos, ◌<◌, ◌^◌, ◌==◌, ltb, ◌≡◌, List, ◌++◌, length, arith, Option, All, true, [], ◌⊎◌, inl, inr,
}
use cubrid_go.Result.{ok}
use cubrid_go.Runtime.{Runtime, KeepsCivil}
use cubrid_go.Constants.{stmt_call_sp}
use cubrid_go.Packet.Reads.{Reads, Reads-bind, Reads-return, Reads-int, Reads-run}
use cubrid_go.Protocol.Types.{ColumnMetaData}
use cubrid_go.Protocol.Responses.{
  parse_prepare, parse_prepare_and_execute, parse_executed, parse_execute, parse_fetched,
  parse_fetch, parse_prepared_and_executed, parse_prepared,
}
use cubrid_go.Protocol.Grammar.Rows.{WireRow, RowFits}
use cubrid_go.Protocol.Grammar.Responses.{
  response_bytes, WirePrepared, PreparedFits, prepared_bytes, prepared_result, WireResults,
  ResultsFit, results_bytes, info_results, WireInline, InlineFits, rows_bytes, inline_bytes,
  inline_rows, values_of, WireExecution, ExecutionFits, execution_bytes, execution_result,
}
use cubrid_go.Protocol.Parsed.Responses.{
  Reads-response, Reads-prepared, Reads-results, Reads-inline, Reads-rows_if, Reads-execution,
}

module _ (cas : List ℕ) (four : length cas ≡ 4) (n : ℕ) (small : n < 2 ^ 31) (rest : List ℕ) where
  -- A PREPARE response with a code from 0 to 2 ^ 31 - 1 and any statement in the grammar, whatever
  -- follows it: the result has the code as its handle, and the statement's type, number of
  -- parameters and columns.
  pub prepare_reads_back :
      (p : WirePrepared)
      → PreparedFits p
      → parse_prepare (response_bytes cas (pos n) (prepared_bytes p) ++ rest)
        ≡ ok (prepared_result (pos n) p)
  unfolding parse_prepare
  prepare_reads_back p h =
      Reads-run rest (Reads-response _ cas four parse_prepared n small (Reads-prepared (pos n) p h))

module _ (go : Runtime) (keeps : KeepsCivil go) (cas : List ℕ) (four : length cas ≡ 4) (n : ℕ)
    (small : n < 2 ^ 31) (rest : List ℕ) where
  -- A PREPARE_AND_EXECUTE response in the grammar of any protocol version, with the rows inline if
  -- the statement is a SELECT, whatever follows it: the result has every field of it, and the rows
  -- with their values, a SET, MULTISET or SEQUENCE as its bytes on the wire.
  pub prepare_and_execute_reads_back :
      (version : ℕ) (w : WireExecution)
      → ExecutionFits w
      → parse_prepare_and_execute go
          (response_bytes cas (pos n) (execution_bytes version w) ++ rest)
          version
        ≡ ok (execution_result go (pos n) w)
  unfolding parse_prepare_and_execute
  prepare_and_execute_reads_back version w h = Reads-run rest (
      Reads-response _ cas four (parse_prepared_and_executed go version) n small
        (Reads-execution go keeps version (pos n) w h))

  columns_or_no_rows :
      (columns : List ColumnMetaData) (i : Option WireInline)
      → (0 < length columns) ⊎ (inline_rows i ≡ [])
      → (ltb 0 (length columns) ≡ true) ⊎ (inline_rows i ≡ [])
  columns_or_no_rows columns i (inl h) = inl (ground arith)
  columns_or_no_rows columns i (inr h) = inr h

  Reads-executed :
      (columns : List ColumnMetaData) (stmt_type version : ℕ) (w : WireResults)
      (i : Option WireInline)
      → (0 < length columns) ⊎ (inline_rows i ≡ [])
      → ResultsFit w
      → InlineFits stmt_type columns i
      → Reads
          (parse_executed go columns stmt_type version (pos n))
          (results_bytes version w ++ inline_bytes stmt_type columns i)
          (record {
            total_tuple_count = pos n;
            result_infos = info_results w;
            tuple_count = pos (length (inline_rows i));
            rows = values_of go (inline_rows i);
          })
  unfolding parse_executed
  Reads-executed columns stmt_type version w i some_columns hw hi =
      Reads-bind _ (Reads-results version w hw) (
        Reads-return _ (
          Reads-inline go keeps stmt_type columns (ltb 0 (length columns)) i
            (columns_or_no_rows columns i some_columns) hi))

  -- An EXECUTE response in the grammar of any protocol version, with rows only for a statement that
  -- has columns, whatever follows it: the code is the total count, and the infos and the inline rows
  -- are read, a SET, MULTISET or SEQUENCE as a byte string.
  pub execute_reads_back :
      (columns : List ColumnMetaData) (stmt_type version : ℕ) (w : WireResults)
      (i : Option WireInline)
      → (0 < length columns) ⊎ (inline_rows i ≡ [])
      → ResultsFit w
      → InlineFits stmt_type columns i
      → parse_execute go
          (response_bytes cas (pos n) (results_bytes version w ++ inline_bytes stmt_type columns i)
            ++ rest)
          columns
          stmt_type
          version
        ≡ ok (record {
          total_tuple_count = pos n;
          result_infos = info_results w;
          tuple_count = pos (length (inline_rows i));
          rows = values_of go (inline_rows i);
        })
  unfolding parse_execute
  execute_reads_back columns stmt_type version w i some_columns hw hi = Reads-run rest (
      Reads-response _ cas four (parse_executed go columns stmt_type version) n small
        (Reads-executed columns stmt_type version w i some_columns hw hi))

  -- A FETCH response with fewer than 2 ^ 31 rows in the grammar, for a statement with columns,
  -- whatever follows it: the count and every row are read.
  pub fetch_reads_back :
      (columns : List ColumnMetaData) (stmt_type : ℕ) (rows : List WireRow)
      → 0 < length columns
      → length rows < 2 ^ 31
      → All (RowFits (stmt_type == stmt_call_sp) columns) rows
      → parse_fetch go
          (response_bytes cas (pos n) (rows_bytes stmt_type columns rows) ++ rest)
          columns
          stmt_type
        ≡ ok (record { tuple_count = pos (length rows); rows = values_of go rows })
  unfolding parse_fetch parse_fetched
  fetch_reads_back columns stmt_type rows some_columns few h = Reads-run rest (
      Reads-response _ cas four (λ code. parse_fetched go columns stmt_type) n small
        (Reads-bind _ (Reads-int (pos (length rows)) few) (
          Reads-return _ (
            Reads-rows_if go keeps columns stmt_type (ltb 0 (length columns)) rows
              (inl (ground arith)) h))))
