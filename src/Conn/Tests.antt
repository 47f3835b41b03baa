-- ===== src/Conn/Tests.antt =====
-- The theorems on conn.go at concrete inputs.
use cubrid_go.Prelude.{ℕ, negsuc, List, true, false, pos, ascii, ◌≡◌, refl, [], ◌++◌, arith}
use cubrid_go.Conn.Helpers.{Conn}
use cubrid_go.Result.{ok, err, bad_conn}
use cubrid_go.Wire.{put_uint32}
use cubrid_go.Constants.{tx_commit}
use cubrid_go.Protocol.Requests.{write_end_tran, write_con_close}
use cubrid_go.Protocol.Grammar.Responses.{response_bytes, error_bytes}
use cubrid_go.Protocol.Tests.{cas, message}
use cubrid_go.Conn.Session.{begin, end_tran, prepare, ping, close}
use cubrid_go.Conn.Transactions.{begin-end_tran, close-bad_conn}
use cubrid_go.Conn.Framing.{Stream, IsFramable, stream-Answers, framed_response, stream_socket}

abbrev pub connected : Conn
connected = record { cas_info = cas; proto_ver = 7; auto_commit = true; closed = false }

abbrev nothing : Stream
nothing = record { incoming = []; outgoing = [] }

abbrev pub accepted : List ℕ
accepted = response_bytes cas (pos 0) [] ++ []

pub accepted-IsFramable : IsFramable accepted
unfolding put_uint32
accepted-IsFramable = (omega arith, omega arith)

abbrev accepting : Stream
accepting = record { incoming = framed_response accepted ++ []; outgoing = [] }

abbrev in_transaction : Conn
in_transaction = record connected { auto_commit = false }

begin-end_tran_example :
    (begin connected accepting ≡ (ok tt, in_transaction, accepting))
    × (end_tran stream_socket tx_commit in_transaction accepting ≡ (
      ok tt,
      connected,
      record { incoming = []; outgoing = [] ++ write_end_tran tx_commit cas },
    ))
begin-end_tran_example =
    begin-end_tran stream_socket connected tx_commit accepting
      (record { incoming = []; outgoing = [] ++ write_end_tran tx_commit cas }) cas [] 0 refl refl
      (omega arith)
      (stream-Answers (write_end_tran tx_commit cas) accepted [] [] accepted-IsFramable)

abbrev refused : List ℕ
refused = error_bytes cas (negsuc 0) (negsuc 669) message

refused-IsFramable : IsFramable refused
unfolding put_uint32
refused-IsFramable = (omega arith, omega arith)

abbrev gone : Conn
gone = record connected { closed = true }

abbrev said_goodbye : Stream
said_goodbye = record { incoming = []; outgoing = [] ++ write_con_close cas }

goodbye : close stream_socket connected nothing ≡ (ok tt, gone, said_goodbye)
unfolding close
goodbye = refl

close-bad_conn_example :
    (begin gone said_goodbye ≡ (err bad_conn, gone, said_goodbye))
    × (prepare stream_socket (ascii "SELECT 1") gone said_goodbye
        ≡ (err bad_conn, gone, said_goodbye))
    × (ping stream_socket gone said_goodbye ≡ (err bad_conn, gone, said_goodbye))
    × (close stream_socket gone said_goodbye ≡ (ok tt, gone, said_goodbye))
close-bad_conn_example =
    close-bad_conn stream_socket connected gone nothing said_goodbye (ok tt) (ascii "SELECT 1")
      goodbye
