-- ===== src/Conn/Opening/Tests.antt =====
-- connect on two byte streams: socket 0 to the broker, socket 1 to a CAS.
use cubrid_go.Prelude.{
  ℕ, ℤ, pos, negsuc, zero, suc, ◌≡◌, refl, List, [], ◌∷◌, ◌++◌, true, ascii, arith, wrap,
  if◌then◌else◌, replicate, Fits, ◌==◌, ap,
}
use cubrid_go.Result.{Result, ok, err, operational_error}
use cubrid_go.Errors.{new_error}
use cubrid_go.Wire.{put_uint32}
use cubrid_go.Packet.Tests.{example_go}
use cubrid_go.Protocol.Requests.{write_client_info_exchange, write_open_database}
use cubrid_go.Protocol.Grammar.{int_bytes}
use cubrid_go.Protocol.Grammar.Responses.{response_bytes, error_bytes}
use cubrid_go.Protocol.Tests.{cas, message}
use cubrid_go.Conn.Socket.{Socket}
use cubrid_go.Conn.Framing.{
  HasDeadlines, Answers, Stream, stream_socket, framed_response, IsFramable, stream-Answers,
}
use cubrid_go.Conn.Handshake.{Network, Target, connect}
use cubrid_go.Conn.Opening.{Redirects, connect-rejected, connect-refused}

pub record World : Type 0 where
  pub broker : Stream
  pub server : Stream

abbrev with_broker {ℓ} : {A : Type ℓ} → World → Result A × Stream → Result A × World
with_broker w (res, st) = (res, record w { broker = st })

abbrev with_server {ℓ} : {A : Type ℓ} → World → Result A × Stream → Result A × World
with_server w (res, st) = (res, record w { server = st })

abbrev two_sockets : ℕ → Socket World
two_sockets zero = record {
  write = λ bytes w. with_broker w (stream_socket.write bytes w.broker);
  read_full = λ n w. with_broker w (stream_socket.read_full n w.broker);
  shut = λ w. record w { broker = stream_socket.shut w.broker };
  set_deadline = λ d w. (ok tt, w);
}
two_sockets (suc k) = record {
  write = λ bytes w. with_server w (stream_socket.write bytes w.server);
  read_full = λ n w. with_server w (stream_socket.read_full n w.server);
  shut = λ w. record w { server = stream_socket.shut w.server };
  set_deadline = λ d w. (ok tt, w);
}

-- The broker listens on port 33000.
abbrev socket_of : ℤ → ℕ
socket_of (pos p) = if p == 33000 then 0 else 1
socket_of (negsuc p) = 1

abbrev pub two_peers : Network World
two_peers = record {
  dial = λ host port w. (ok (socket_of port), w);
  socket = two_sockets;
  timeout_at = λ w. 30;
  show = λ e. ascii "refused";
}

pub two_sockets-HasDeadlines : (k : ℕ) → HasDeadlines (two_sockets k)
two_sockets-HasDeadlines zero = record { set = λ d w. refl }
two_sockets-HasDeadlines (suc k) = record { set = λ d w. refl }

pub server-Answers :
    {st st' : Stream} {req resp : List ℕ} (broker : Stream)
    → Answers stream_socket st req resp st'
    → Answers
        (two_sockets 1)
        (record { broker = broker; server = st })
        req
        resp
        (record { broker = broker; server = st' })
server-Answers {st} broker a = record {
  sent = record { broker = broker; server = a.sent };
  counted = record { broker = broker; server = a.counted };
  framable = a.framable;
  written = ap (with_server (record { broker = broker; server = st })) a.written;
  length_read = ap (with_server (record { broker = broker; server = a.sent })) a.length_read;
  body_read = ap (with_server (record { broker = broker; server = a.counted })) a.body_read;
}

abbrev target : Target
target = record {
  host = ascii "db";
  port = pos 33000;
  database = ascii "demodb";
  user = ascii "dba";
  password = [];
  timed = true;
}

-- A broker that will say a port.
abbrev pub offering : ℤ → Stream
offering port = record { incoming = put_uint32 (wrap 32 port); outgoing = [] }

-- It has said the port.
abbrev pub offered : Stream
offered = record { incoming = []; outgoing = [] ++ write_client_info_exchange }

abbrev silent : Stream
silent = record { incoming = []; outgoing = [] }

pub redirects :
    (port : ℤ) (server : Stream)
    → Fits 31 port
    → Redirects two_peers 0
        (record { broker = offering port; server = server })
        port
        (record { broker = offered; server = server })
unfolding put_uint32
redirects port server fits = record {
  sent = record {
    broker = record {
      incoming = put_uint32 (wrap 32 port);
      outgoing = [] ++ write_client_info_exchange;
    };
    server = server;
  };
  fits = fits;
  greeted = refl;
  port_read = refl;
}

connect-rejected_example :
    connect two_peers target (record { broker = offering (negsuc 9); server = silent }) ≡ (
      err (
          operational_error
            (record { code = negsuc 9; message = ascii "broker rejected connection" })),
      record { broker = offered; server = silent },
    )
connect-rejected_example =
    connect-rejected two_peers two_sockets-HasDeadlines target 0
      (record { broker = offering (negsuc 9); server = silent })
      (record { broker = offering (negsuc 9); server = silent })
      (record { broker = offered; server = silent }) (negsuc 9) refl
      (redirects (negsuc 9) silent (omega arith)) refl

abbrev pub broker_info : List ℕ
broker_info = 1 ∷ 0 ∷ 0 ∷ 0 ∷ 76 ∷ replicate 11 0

abbrev pub opened : List ℕ
opened = response_bytes cas (pos 3) (broker_info ++ int_bytes (pos 9)) ++ []

pub opened-IsFramable : IsFramable opened
unfolding put_uint32
opened-IsFramable = (omega arith, omega arith)

abbrev hello : List ℕ
hello = write_open_database target.database target.user target.password

abbrev pub answering : List ℕ → Stream
answering resp = record { incoming = framed_response resp ++ []; outgoing = [] }

abbrev pub answered : Stream
answered = record { incoming = []; outgoing = [] ++ hello }

abbrev refused : List ℕ
refused = error_bytes cas (negsuc 0) (negsuc 669) message

refused-IsFramable : IsFramable refused
unfolding put_uint32
refused-IsFramable = (omega arith, omega arith)

connect-refused_example :
    connect two_peers target (record { broker = offering (pos 33001); server = answering refused })
    ≡ (err (new_error (negsuc 669) message), record { broker = offered; server = answered })
connect-refused_example =
    connect-refused two_peers two_sockets-HasDeadlines target 0
      (record { broker = offering (pos 33001); server = answering refused })
      (record { broker = offering (pos 33001); server = answering refused })
      (record { broker = offered; server = answering refused }) (pos 33001) refl
      (redirects (pos 33001) (answering refused) (omega arith)) 1
      (record { broker = offered; server = answering refused })
      (record { broker = offered; server = answered }) refl cas 0 (negsuc 669) message example_go
      refl (omega arith) (omega arith)
      (server-Answers offered (stream-Answers hello refused [] [] refused-IsFramable))
