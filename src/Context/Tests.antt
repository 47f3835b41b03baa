-- ===== src/Context/Tests.antt =====
-- The theorems on the methods with a context, over a byte stream.
use cubrid_go.Prelude.{
  ◌+ℤ◌, ℕ, pos, ◌≡◌, refl, List, [], ◌∷◌, ◌++◌, true, Option, some, none, ascii, arith,
}
use cubrid_go.Result.{GoError, ok, err, context}
use cubrid_go.Wire.{put_uint16, put_uint32}
use cubrid_go.Packet.Tests.{example_go, example_go-KeepsCivil}
use cubrid_go.Packet.Header.{build_protocol_header}
use cubrid_go.Protocol.Requests.{write_prepare_and_execute, write_close_req_handle, write_fetch}
use cubrid_go.Protocol.Grammar.{info_bytes, column_bytes}
use cubrid_go.Protocol.Grammar.Rows.{row_bytes, cells_bytes, cell_bytes}
use cubrid_go.Protocol.Grammar.Responses.{
  response_bytes, values_of, WireExecution, ExecutionFits, execution_bytes, execution_result,
  results_bytes, inline_bytes, prepared_bytes,
}
use cubrid_go.Protocol.RoundTrip.{prepare_and_execute_reads_back}
use cubrid_go.Protocol.Tests.{
  cas, prepared, results, two_rows, two_rows_fit, execution, inline, prepared_fits, results_fit,
}
use cubrid_go.Conn.Framing.{
  HasDeadlines, Stream, stream_socket, framed_response, IsFramable, stream-Answers,
}
use cubrid_go.Conn.Tests.{connected, accepted, accepted-IsFramable}
use cubrid_go.Rows.Next.{Rows}
use cubrid_go.Rows.Drain.{Serves, no_more, batch, Delivers, cursor_of, concat_values}
use cubrid_go.Rows.Tests.{more_rows, more_rows-IsFramable, places}
use cubrid_go.Context.Deadline.{Context}
use cubrid_go.Context.Query.{named_values_to_values, sql_of, query_context, exec_context, begin_tx}
use cubrid_go.Context.Cancelled.{cancelled_before, cancelled_behind}
use cubrid_go.Context.Reading.{query_context-Delivers, exec_context-releases}

abbrev live : Context Stream
live = record { err_now = λ st. (none, st); deadline = some 5 }

stream-HasDeadlines : HasDeadlines stream_socket
stream-HasDeadlines = record { set = λ d st. refl }

abbrev select : List ℕ
select = ascii "SELECT id, name FROM t"

abbrev request : List ℕ
request = write_prepare_and_execute select true cas

abbrev four_rows : WireExecution
four_rows = record execution { total = pos 4; inline = some inline }

four_rows_fit : ExecutionFits four_rows
four_rows_fit = record {
  prepared_fits = prepared_fits;
  total_fits = omega arith;
  results_fit = results_fit;
  inline_fits = (refl, omega arith, omega arith, two_rows_fit);
}

abbrev answer : List ℕ
answer = response_bytes cas (pos 5) (execution_bytes 7 four_rows) ++ []

answer-IsFramable : IsFramable answer
unfolding put_uint32 row_bytes cells_bytes cell_bytes results_bytes inline_bytes info_bytes
    column_bytes prepared_bytes execution_bytes put_uint16
answer-IsFramable = (omega arith, omega arith)

abbrev asked : List ℕ → Stream
asked later = record { incoming = framed_response answer ++ later; outgoing = [] }

abbrev answered_with : List ℕ → Stream
answered_with later = record { incoming = later; outgoing = [] ++ request }

abbrev last_rows : List ℕ
last_rows = framed_response more_rows ++ []

serves :
    Serves example_go example_go-KeepsCivil stream_socket
      (cursor_of connected 5 4 execution)
      (answered_with last_rows)
      2
      (two_rows ∷ [])
serves =
    batch _ _ cas [] 0 refl (omega arith) (omega arith) two_rows_fit
      (stream-Answers (write_fetch (pos 5) (pos 2) (pos 100) cas) more_rows [] ([] ++ request)
        more_rows-IsFramable)
      no_more

query_context-Delivers_example :
    (r : Rows) × (query_context stream_socket example_go connected live select [] (asked last_rows)
      ≡ (ok r, answered_with last_rows))
    × Delivers example_go example_go-KeepsCivil stream_socket
        (cursor_of connected 5 4 execution)
        places
        r
        (answered_with last_rows)
        (values_of example_go two_rows ++ concat_values example_go (two_rows ∷ []))
unfolding named_values_to_values sql_of
query_context-Delivers_example =
    query_context-Delivers example_go stream_socket stream-HasDeadlines connected live select select
      [] [] (asked last_rows) (answered_with last_rows) refl refl refl refl refl
      example_go-KeepsCivil cas [] 5 4 execution inline places (two_rows ∷ []) refl (omega arith)
      four_rows_fit (omega arith) (omega arith) refl
      (stream-Answers request answer last_rows [] answer-IsFramable) serves refl

abbrev update : List ℕ
update = ascii "UPDATE t SET id = 1"

-- Two counts, and a handle to close.
abbrev updated : WireExecution
updated = record {
  prepared = record prepared { statement_type = 22; columns = [] };
  total = pos 3;
  results = results;
  inline = none;
}

updated_fit : ExecutionFits updated
updated_fit = record {
  prepared_fits = record {
    lifetime_fits = omega arith;
    bind_fits = omega arith;
    count_fits = omega arith;
    columns_fit = tt;
  };
  total_fits = omega arith;
  results_fit = results_fit;
  inline_fits = refl;
}

abbrev update_answer : List ℕ
update_answer = response_bytes cas (pos 5) (execution_bytes 7 updated) ++ []

update_answer-IsFramable : IsFramable update_answer
unfolding put_uint32 row_bytes cells_bytes cell_bytes results_bytes inline_bytes info_bytes
    column_bytes prepared_bytes execution_bytes put_uint16
update_answer-IsFramable = (omega arith, omega arith)

abbrev update_request : List ℕ
update_request = write_prepare_and_execute update true cas

abbrev close_request : List ℕ
close_request = write_close_req_handle (pos 5) cas

abbrev still_open : Stream
still_open = record { incoming = framed_response accepted ++ []; outgoing = [] ++ update_request }

exec_context-releases_example :
    exec_context stream_socket example_go connected live update [] (record {
      incoming = framed_response update_answer ++ (framed_response accepted ++ []);
      outgoing = [];
    })
    ≡ (
      ok (record { last_insert_id = pos 0; rows_affected = pos 2 }),
      record { incoming = []; outgoing = ([] ++ update_request) ++ close_request },
    )
unfolding named_values_to_values sql_of ◌+ℤ◌
exec_context-releases_example =
    exec_context-releases example_go stream_socket stream-HasDeadlines connected live update update
      [] []
      (record {
        incoming = framed_response update_answer ++ (framed_response accepted ++ []);
        outgoing = [];
      })
      still_open refl refl refl refl refl update_answer cas []
      (execution_result example_go (pos 5) updated) 4 0
      (record { incoming = []; outgoing = ([] ++ update_request) ++ close_request })
      (stream-Answers update_request update_answer (framed_response accepted ++ []) []
        update_answer-IsFramable)
      (prepare_and_execute_reads_back example_go example_go-KeepsCivil cas refl 5 (omega arith) [] 7
        updated updated_fit)
      refl refl (omega arith, tt) (omega arith) refl (omega arith)
      (stream-Answers close_request accepted [] ([] ++ update_request) accepted-IsFramable)

abbrev timed_out : GoError
timed_out = context 1

abbrev dead : Context Stream
dead = record { err_now = λ st. (some timed_out, st); deadline = none }

cancelled_before_example :
    (begin_tx stream_socket connected dead (asked []) ≡ (err timed_out, connected, asked []))
    × (query_context stream_socket example_go connected dead select [] (asked [])
        ≡ (err timed_out, asked []))
    × (exec_context stream_socket example_go connected dead select [] (asked [])
        ≡ (err timed_out, asked []))
cancelled_before_example =
    cancelled_before example_go stream_socket stream-HasDeadlines connected dead select []
      (asked []) timed_out refl refl

-- Cancelled once anything has been written.
abbrev after_writing : List ℕ → Option GoError
after_writing [] = none
after_writing (b ∷ bs) = some timed_out

abbrev dying : Context Stream
dying = record { err_now = λ st. (after_writing st.outgoing, st); deadline = none }

cancelled_behind_example :
    (query_context stream_socket example_go connected dying select [] (asked [])
      ≡ (err timed_out, answered_with []))
    × (exec_context stream_socket example_go connected dying select [] (asked [])
        ≡ (err timed_out, answered_with []))
unfolding named_values_to_values sql_of write_prepare_and_execute build_protocol_header put_uint32
cancelled_behind_example =
    cancelled_behind example_go stream_socket stream-HasDeadlines connected dying select []
      (asked []) timed_out refl select answer [] (execution_result example_go (pos 5) four_rows)
      (answered_with []) refl refl refl (stream-Answers request answer [] [] answer-IsFramable)
      (prepare_and_execute_reads_back example_go example_go-KeepsCivil cas refl 5 (omega arith) [] 7
        four_rows four_rows_fit)
      refl
