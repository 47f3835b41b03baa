-- ===== src/Protocol/Grammar/Responses.antt =====
-- Whole responses. CAS_INFO and the response code come first.
use cubrid_go.Prelude.{
  ℕ, ℤ, pos, Fits, ◌<◌, ◌^◌, ◌==◌, ltb, if◌then◌else◌, ◌≡◌, List, [], ◌∷◌, ◌++◌, true, false,
  length, Option, none, some, map, All,
}
use cubrid_go.Runtime.{Runtime, Value}
use cubrid_go.Constants.{stmt_select, stmt_call_sp}
use cubrid_go.Protocol.Types.{ColumnMetaData, ResultInfo, PrepareResult, PrepareAndExecuteResult}
use cubrid_go.Protocol.Grammar.{
  int_bytes, concat_bytes, WireColumn, ColumnFits, column_bytes, WireInfo, InfoFits, info_bytes,
}
use cubrid_go.Protocol.Grammar.Rows.{WireRow, RowFits, row_bytes, row_values}

abbrev pub response_bytes : List ℕ → ℤ → List ℕ → List ℕ
response_bytes cas code body = cas ++ (int_bytes code ++ body)

-- A negative code, the error's own code, and the message with its null byte.
abbrev pub error_bytes : List ℕ → ℤ → ℤ → List ℕ → List ℕ
error_bytes cas code error_code msg =
    response_bytes cas code (int_bytes error_code ++ (msg ++ (0 ∷ [])))

-- A statement as PREPARE answers it.
pub record WirePrepared : Type 0 where
  pub lifetime : ℤ
  pub statement_type : ℕ
  pub bind_count : ℤ
  pub updatable : ℕ
  pub columns : List WireColumn

pub record PreparedFits (p : WirePrepared) : Type 0 where
  pub lifetime_fits : Fits 31 p.lifetime
  pub bind_fits : Fits 31 p.bind_count
  pub count_fits : length p.columns < 2 ^ 31
  pub columns_fit : All ColumnFits p.columns

unfoldable pub prepared_bytes : WirePrepared → List ℕ
prepared_bytes p =
    int_bytes p.lifetime
    ++ ((p.statement_type ∷ [])
        ++ (int_bytes p.bind_count
            ++ ((p.updatable ∷ [])
                ++ (int_bytes (pos (length p.columns)) ++ concat_bytes column_bytes p.columns))))

abbrev pub metas : List WireColumn → List ColumnMetaData
metas cols = map (λ c. c.meta) cols

abbrev pub prepared_result : ℤ → WirePrepared → PrepareResult
prepared_result code p = record {
  query_handle = code;
  statement_type = p.statement_type;
  bind_count = p.bind_count;
  columns = metas p.columns;
}

-- The result infos, with the fields that the protocol gained in versions 2 and 5.
pub record WireResults : Type 0 where
  pub reusable : ℕ
  pub infos : List WireInfo
  pub column_info : ℕ
  pub shard : ℤ

pub record ResultsFit (w : WireResults) : Type 0 where
  pub count_fits : length w.infos < 2 ^ 31
  pub infos_fit : All InfoFits w.infos
  pub shard_fits : Fits 31 w.shard

unfoldable pub results_bytes : ℕ → WireResults → List ℕ
results_bytes version w =
    (w.reusable ∷ [])
    ++ (int_bytes (pos (length w.infos))
        ++ (concat_bytes info_bytes w.infos
            ++ ((if ltb 1 version then w.column_info ∷ [] else [])
                ++ (if ltb 4 version then int_bytes w.shard else []))))

abbrev pub info_results : WireResults → List ResultInfo
info_results w = map (λ i. i.info) w.infos

-- The rows that come with a SELECT, behind a fetch code; no other statement has any.
pub record WireInline : Type 0 where
  pub fetch_code : ℤ
  pub rows : List WireRow

abbrev pub InlineFits : ℕ → List ColumnMetaData → Option WireInline → Type 0
InlineFits stmt_type columns none = (stmt_type == stmt_select) ≡ false
InlineFits stmt_type columns (some i) =
    ((stmt_type == stmt_select) ≡ true)
    × Fits 31 i.fetch_code
    × (length i.rows < 2 ^ 31)
    × All (RowFits (stmt_type == stmt_call_sp) columns) i.rows

abbrev pub rows_bytes : ℕ → List ColumnMetaData → List WireRow → List ℕ
rows_bytes stmt_type columns rows =
    int_bytes (pos (length rows))
    ++ concat_bytes (row_bytes (stmt_type == stmt_call_sp) columns) rows

unfoldable pub inline_bytes : ℕ → List ColumnMetaData → Option WireInline → List ℕ
inline_bytes stmt_type columns none = []
inline_bytes stmt_type columns (some i) =
    int_bytes i.fetch_code ++ rows_bytes stmt_type columns i.rows

abbrev pub inline_rows : Option WireInline → List WireRow
inline_rows none = []
inline_rows (some i) = i.rows

abbrev pub values_of : Runtime → List WireRow → List (List Value)
values_of go rows = map (row_values go) rows

-- What the driver is to make of a PREPARE_AND_EXECUTE response.
pub record WireExecution : Type 0 where
  pub prepared : WirePrepared
  pub total : ℤ
  pub results : WireResults
  pub inline : Option WireInline

pub record ExecutionFits (w : WireExecution) : Type 0 where
  pub prepared_fits : PreparedFits w.prepared
  pub total_fits : Fits 31 w.total
  pub results_fit : ResultsFit w.results
  pub inline_fits : InlineFits w.prepared.statement_type (metas w.prepared.columns) w.inline

unfoldable pub execution_bytes : ℕ → WireExecution → List ℕ
execution_bytes version w =
    prepared_bytes w.prepared
    ++ (int_bytes w.total
        ++ (results_bytes version w.results
            ++ inline_bytes w.prepared.statement_type (metas w.prepared.columns) w.inline))

abbrev pub execution_result : Runtime → ℤ → WireExecution → PrepareAndExecuteResult
execution_result go code w = record {
  query_handle = code;
  statement_type = w.prepared.statement_type;
  bind_count = w.prepared.bind_count;
  columns = metas w.prepared.columns;
  total_tuple_count = w.total;
  result_infos = info_results w.results;
  tuple_count = pos (length (inline_rows w.inline));
  rows = values_of go (inline_rows w.inline);
}
