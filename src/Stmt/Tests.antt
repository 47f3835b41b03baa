-- ===== src/Stmt/Tests.antt =====
-- The theorems on stmt.go at a SELECT that is prepared.
use cubrid_go.Prelude.{ℤ, pos, ◌≡◌, refl, List, ℕ, [], ◌∷◌, ◌++◌, true, false, some, arith, ascii}
use cubrid_go.Result.{ok, err, bad_conn}
use cubrid_go.Runtime.{int64}
use cubrid_go.Constants.{stmt_select}
use cubrid_go.Packet.Tests.{example_go}
use cubrid_go.Protocol.Types.{ExecuteResult, ResultInfo}
use cubrid_go.Protocol.Requests.{write_close_req_handle}
use cubrid_go.Protocol.Bind.{write_execute}
use cubrid_go.Protocol.Grammar.Responses.{
  response_bytes, metas, results_bytes, inline_bytes, info_results, values_of,
}
use cubrid_go.Protocol.Tests.{cas, two_columns, two_rows, results, inline}
use cubrid_go.Conn.Socket.{◌>>=◌, ◌>>◌, send, recv, send_and_recv}
use cubrid_go.Conn.Helpers.{close_query_handle}
use cubrid_go.Conn.Framing.{Stream, stream_socket, framed_response}
use cubrid_go.Conn.Tests.{connected}
use cubrid_go.Stmt.Counts.{exact_sum, sum_affected-no_overflow}
use cubrid_go.Stmt.Execute.{sum_affected, Stmt, after_stmt_close, close, exec, query}
use cubrid_go.Stmt.Ownership.{stmt_closed_for_good}

abbrev select : Stmt
select = record {
  conn = connected;
  query = ascii "SELECT id, name FROM t";
  query_handle = pos 5;
  stmt_type = stmt_select;
  bind_count = pos 0;
  columns = metas two_columns;
  closed = false;
}

abbrev executed : List ℕ
executed =
    response_bytes cas (pos 2)
      (results_bytes 7 results ++ inline_bytes stmt_select (metas two_columns) (some inline))
    ++ []

abbrev execute_request : List ℕ
execute_request = write_execute example_go (pos 5) stmt_select [] true cas

abbrev executing : Stream
executing = record { incoming = framed_response executed ++ []; outgoing = [] }

abbrev executed_behind : Stream
executed_behind = record { incoming = []; outgoing = [] ++ execute_request }

abbrev outcome : ExecuteResult
outcome = record {
  total_tuple_count = pos 2;
  result_infos = info_results results;
  tuple_count = pos 2;
  rows = values_of example_go two_rows;
}

abbrev silent : Stream
silent = record { incoming = []; outgoing = [] }

abbrev released : Stmt
released = record select { closed = true; query_handle = pos 0 }

abbrev asked_to_close : Stream
asked_to_close = record { incoming = []; outgoing = [] ++ write_close_req_handle (pos 5) cas }

closing : close stream_socket select silent ≡ (ok tt, released, asked_to_close)
unfolding close close_query_handle send_and_recv send recv after_stmt_close ◌>>=◌ ◌>>◌
closing = refl

stmt_closed_for_good_example :
    (exec example_go stream_socket released (int64 (pos 1) ∷ []) asked_to_close
      ≡ (err bad_conn, asked_to_close))
    × (query example_go stream_socket released (int64 (pos 1) ∷ []) asked_to_close
        ≡ (err bad_conn, asked_to_close))
    × (close stream_socket released asked_to_close ≡ (ok tt, released, asked_to_close))
stmt_closed_for_good_example =
    stmt_closed_for_good example_go stream_socket select released silent asked_to_close (ok tt)
      (int64 (pos 1) ∷ []) closing

abbrev counted : ℤ → ResultInfo
counted n = record { stmt_type = 22; result_count = n; oid = [] }

abbrev two_counts : List ResultInfo
two_counts = counted (pos 2147483647) ∷ counted (pos 2147483647) ∷ []

sum_affected-no_overflow_example : sum_affected (pos 0) two_counts ≡ exact_sum (pos 0) two_counts
sum_affected-no_overflow_example =
    sum_affected-no_overflow two_counts (omega arith, (omega arith, tt)) (omega arith)
