-- ===== src/Stmt/Inserting/Tests.antt =====
-- An INSERT of one argument, on a byte stream.
use cubrid_go.Prelude.{
  ◌+ℤ◌, ℕ, pos, ◌≡◌, refl, List, [], ◌∷◌, ◌++◌, true, false, some, none, ascii, arith, print_nat,
  suc, ◌<◌, ◌^◌,
}
use cubrid_go.Result.{ok}
use cubrid_go.Runtime.{int64}
use cubrid_go.Wire.{put_uint16, put_uint32}
use cubrid_go.Constants.{stmt_insert}
use cubrid_go.Constants.DataType
use cubrid_go.Packet.Tests.{example_go, example_go-KeepsCivil}
use cubrid_go.Protocol.Requests.{write_prepare_and_execute, write_close_req_handle}
use cubrid_go.Protocol.Grammar
use cubrid_go.Protocol.Grammar.{WireColumn, info_bytes, column_bytes, text_field}
use cubrid_go.Protocol.Grammar.Rows.{row_bytes, cells_bytes, cell_bytes}
use cubrid_go.Protocol.Grammar.Responses.{
  response_bytes, WireExecution, ExecutionFits, execution_bytes, execution_result, results_bytes,
  inline_bytes, prepared_bytes,
}
use cubrid_go.Protocol.RoundTrip.{prepare_and_execute_reads_back}
use cubrid_go.Protocol.Tests.{cas, oid, plain_column, prepared, results, results_fit}
use cubrid_go.Sql.Interpolate.{interpolate_args}
use cubrid_go.Sql.Literal.{format_value}
use cubrid_go.Conn.Framing.{Stream, stream_socket, framed_response, IsFramable, stream-Answers}
use cubrid_go.Conn.Releases.{RunsAndCloses}
use cubrid_go.Conn.Tests.{connected, accepted, accepted-IsFramable}
use cubrid_go.Stmt.Execute.{Stmt, exec}
use cubrid_go.Stmt.Inserting.{exec-inserts}

abbrev insert : Stmt
insert = record {
  conn = connected;
  query = ascii "INSERT INTO t VALUES (?)";
  query_handle = pos 5;
  stmt_type = stmt_insert;
  bind_count = pos 1;
  columns = [];
  closed = false;
}

abbrev insert_sql : List ℕ
insert_sql = ascii "INSERT INTO t VALUES (7)"

interpolated : interpolate_args example_go insert.query (int64 (pos 7) ∷ []) ≡ ok insert_sql
unfolding interpolate_args format_value print_nat
interpolated = refl

abbrev inserted : WireExecution
inserted = record {
  prepared = record prepared { statement_type = stmt_insert; columns = [] };
  total = pos 1;
  results = results;
  inline = none;
}

inserted_fit : ExecutionFits inserted
inserted_fit = record {
  prepared_fits = record {
    lifetime_fits = omega arith;
    bind_fits = omega arith;
    count_fits = omega arith;
    columns_fit = tt;
  };
  total_fits = omega arith;
  results_fit = results_fit;
  inline_fits = refl;
}

abbrev id_column : WireColumn
id_column = record {
  meta = plain_column DataType.string (ascii "id");
  legacy = none;
  reverse_index = 0;
  reverse_unique = 0;
  shared = 0;
}

-- One row with the text 42.
abbrev identified : WireExecution
identified = record {
  prepared = record prepared { columns = id_column ∷ [] };
  total = pos 1;
  results = results;
  inline = some (record {
    fetch_code = pos 0;
    rows =
        record {
          index = pos 1;
          oid = oid;
          cells = some (text_field Grammar.string (ascii "42")) ∷ [];
        }
        ∷ [];
  });
}

identified_fit : ExecutionFits identified
identified_fit = record {
  prepared_fits = record {
    lifetime_fits = omega arith;
    bind_fits = omega arith;
    count_fits = omega arith;
    columns_fit = omega arith;
  };
  total_fits = omega arith;
  results_fit = results_fit;
  inline_fits = (
    refl,
    omega arith,
    omega arith,
    (
      record { index_fits = omega arith; oid_length = refl; cells_fit = ((omega arith, refl), tt) },
      tt,
    ),
  );
}

abbrev insert_answer : List ℕ
insert_answer = response_bytes cas (pos 8) (execution_bytes 7 inserted) ++ []

abbrev id_answer : List ℕ
id_answer = response_bytes cas (pos 9) (execution_bytes 7 identified) ++ []

insert_answer-IsFramable : IsFramable insert_answer
unfolding put_uint32 row_bytes cells_bytes cell_bytes results_bytes inline_bytes info_bytes
    column_bytes prepared_bytes execution_bytes put_uint16
insert_answer-IsFramable = (omega arith, omega arith)

id_answer-IsFramable : IsFramable id_answer
unfolding put_uint32 row_bytes cells_bytes cell_bytes results_bytes inline_bytes info_bytes
    column_bytes prepared_bytes execution_bytes put_uint16
id_answer-IsFramable = (omega arith, omega arith)

-- A stream on which the peer runs a text, and accepts that its handle is closed, with more behind.
abbrev serving : List ℕ → List ℕ → List ℕ → Stream
serving answer later out = record {
  incoming = framed_response answer ++ (framed_response accepted ++ later);
  outgoing = out;
}

abbrev sent_for : List ℕ → ℕ → List ℕ → List ℕ
sent_for sql handle out =
    (out ++ write_prepare_and_execute sql true cas) ++ write_close_req_handle (pos handle) cas

runs :
    (sql later out : List ℕ) (h : ℕ) (w : WireExecution)
    → suc h < 2 ^ 31
    → ExecutionFits w
    → IsFramable (response_bytes cas (pos (suc h)) (execution_bytes 7 w) ++ [])
    → RunsAndCloses stream_socket connected example_go sql
        (serving (response_bytes cas (pos (suc h)) (execution_bytes 7 w) ++ []) later out)
        (execution_result example_go (pos (suc h)) w)
        (record { incoming = later; outgoing = sent_for sql (suc h) out })
runs sql later out h w small fits framable = record {
  resp = response_bytes cas (pos (suc h)) (execution_bytes 7 w) ++ [];
  ran = record {
    incoming = framed_response accepted ++ later;
    outgoing = out ++ write_prepare_and_execute sql true cas;
  };
  answered =
      stream-Answers (write_prepare_and_execute sql true cas)
        (response_bytes cas (pos (suc h)) (execution_bytes 7 w) ++ [])
        (framed_response accepted ++ later) out framable;
  parsed =
      prepare_and_execute_reads_back example_go example_go-KeepsCivil cas refl (suc h) small [] 7 w
        fits;
  handle = h;
  positive = refl;
  cas = cas;
  rest = [];
  code = 0;
  four = refl;
  small = omega arith;
  accepted =
      stream-Answers (write_close_req_handle (pos (suc h)) cas) accepted later
        (out ++ write_prepare_and_execute sql true cas) accepted-IsFramable;
}

abbrev id_query : List ℕ
id_query = ascii "SELECT LAST_INSERT_ID()"

exec-inserts_example :
    exec example_go stream_socket insert
      (int64 (pos 7) ∷ [])
      (serving insert_answer (serving id_answer [] []).incoming [])
    ≡ (
      ok (record { last_insert_id = pos 42; rows_affected = pos 2 }),
      record { incoming = []; outgoing = sent_for id_query 9 (sent_for insert_sql 8 []) },
    )
unfolding ◌+ℤ◌
exec-inserts_example =
    exec-inserts example_go stream_socket insert (int64 (pos 7)) [] insert_sql
      (serving insert_answer (serving id_answer [] []).incoming [])
      (record {
        incoming = (serving id_answer [] []).incoming;
        outgoing = sent_for insert_sql 8 [];
      })
      (execution_result example_go (pos 8) inserted) interpolated
      (runs insert_sql (serving id_answer [] []).incoming [] 7 inserted (omega arith) inserted_fit
        insert_answer-IsFramable)
      (ascii "42") [] [] []
      (record { incoming = []; outgoing = sent_for id_query 9 (sent_for insert_sql 8 []) })
      (execution_result example_go (pos 9) identified) refl refl
      (runs id_query [] (sent_for insert_sql 8 []) 8 identified (omega arith) identified_fit
        id_answer-IsFramable)
      refl (omega arith) tt (omega arith) (omega arith, tt) (omega arith)
