-- ===== src/Rows/Tests.antt =====
-- The theorems on rows.go at a result set of four rows: two inline, two by FETCH.
use cubrid_go.Prelude.{ℕ, pos, negsuc, ◌≡◌, refl, List, [], ◌∷◌, ◌++◌, true, arith}
use cubrid_go.Result.{ok, err, panic, eof}
use cubrid_go.Errors.{new_error}
use cubrid_go.Runtime.{Value, nil}
use cubrid_go.Wire.{put_uint32}
use cubrid_go.Constants.{stmt_select}
use cubrid_go.Packet.Tests.{example_go, example_go-KeepsCivil}
use cubrid_go.Protocol.Requests.{write_fetch, write_close_req_handle}
use cubrid_go.Protocol.Grammar.{int_bytes}
use cubrid_go.Protocol.Grammar.Rows.{row_bytes, cells_bytes, cell_bytes}
use cubrid_go.Protocol.Grammar.Responses.{response_bytes, error_bytes, rows_bytes, metas}
use cubrid_go.Protocol.Tests.{two_columns, two_rows, two_rows_fit, cas, execution, message}
use cubrid_go.Conn.Helpers.{close_query_handle}
use cubrid_go.Conn.Socket.{◌>>=◌, ◌>>◌, send, recv, send_and_recv}
use cubrid_go.Conn.Framing.{Stream, stream_socket, framed_response, IsFramable, stream-Answers}
use cubrid_go.Conn.Tests.{connected}
use cubrid_go.Rows.Next.{Rows, next, close, after_handle}
use cubrid_go.Rows.Steps.{open_rows}
use cubrid_go.Rows.Drain.{Serves, no_more, batch, cursor_of}
use cubrid_go.Rows.Closing.{closed_for_good}
use cubrid_go.Rows.Failures.{next-error_response, next-negative_count}

abbrev pub more_rows : List ℕ
more_rows = response_bytes cas (pos 0) (rows_bytes stmt_select (metas two_columns) two_rows) ++ []

pub more_rows-IsFramable : IsFramable more_rows
unfolding put_uint32 row_bytes cells_bytes cell_bytes
more_rows-IsFramable = (omega arith, omega arith)

abbrev before : Stream
before = record { incoming = framed_response more_rows ++ []; outgoing = [] }

serves :
    Serves example_go example_go-KeepsCivil stream_socket
      (cursor_of connected 5 4 execution)
      before
      2
      (two_rows ∷ [])
serves =
    batch _ _ cas [] 0 refl (omega arith) (omega arith) two_rows_fit
      (stream-Answers (write_fetch (pos 5) (pos 2) (pos 100) cas) more_rows [] []
        more_rows-IsFramable)
      no_more

abbrev pub places : List Value
places = nil ∷ nil ∷ []

-- Rows whose buffer is spent and that own a handle.
abbrev spent_rows : Rows
spent_rows = open_rows (cursor_of connected 5 4 execution) [] 0 2

-- The peer has gone away: Close writes its request and drops the error.
abbrev silent : Stream
silent = record { incoming = []; outgoing = [] }

abbrev closed_rows : Rows
closed_rows = record spent_rows { closed = true; query_handle = pos 0 }

abbrev asked_to_close : Stream
asked_to_close = record { incoming = []; outgoing = [] ++ write_close_req_handle (pos 5) cas }

closing : close example_go stream_socket spent_rows silent ≡ (ok tt, closed_rows, asked_to_close)
unfolding close close_query_handle send_and_recv send recv after_handle ◌>>=◌ ◌>>◌
closing = refl

closed_for_good_example :
    (next example_go stream_socket closed_rows places asked_to_close
      ≡ (err eof, closed_rows, asked_to_close))
    × (close example_go stream_socket closed_rows asked_to_close
        ≡ (ok tt, closed_rows, asked_to_close))
closed_for_good_example =
    closed_for_good example_go stream_socket spent_rows closed_rows silent asked_to_close (ok tt)
      places closing

abbrev refusal : List ℕ
refusal = error_bytes cas (negsuc 0) (negsuc 669) message

abbrev fetch_request : List ℕ
fetch_request = write_fetch (pos 5) (pos 2) (pos 100) cas

refusal-IsFramable : IsFramable refusal
unfolding put_uint32
refusal-IsFramable = (omega arith, omega arith)

next-error_response_example :
    next example_go stream_socket spent_rows places
      (record { incoming = framed_response refusal ++ []; outgoing = [] })
    ≡ (
      err (new_error (negsuc 669) message),
      spent_rows,
      record { incoming = []; outgoing = [] ++ fetch_request },
    )
next-error_response_example =
    next-error_response example_go stream_socket spent_rows places
      (record { incoming = framed_response refusal ++ []; outgoing = [] })
      (record { incoming = []; outgoing = [] ++ fetch_request }) refl refl refl cas 0 (negsuc 669)
      message refl (omega arith) (omega arith)
      (stream-Answers fetch_request refusal [] [] refusal-IsFramable)

abbrev no_count : List ℕ
no_count = response_bytes cas (pos 0) (int_bytes (negsuc 0)) ++ []

no_count-IsFramable : IsFramable no_count
unfolding put_uint32
no_count-IsFramable = (omega arith, omega arith)

next-negative_count_example :
    (next example_go stream_socket spent_rows places
      (record { incoming = framed_response no_count ++ []; outgoing = [] })).0
    ≡ panic
next-negative_count_example =
    next-negative_count example_go stream_socket spent_rows places
      (record { incoming = framed_response no_count ++ []; outgoing = [] })
      (record { incoming = []; outgoing = [] ++ fetch_request }) refl refl refl cas [] 0 0 refl
      (omega arith) (omega arith) (stream-Answers fetch_request no_count [] [] no_count-IsFramable)
