-- ===== src/Conn/Handshake.antt =====
-- conn.go: connect. The network is a record of what the driver calls of package net, with sockets
-- told apart by numbers.
use cubrid_go.Prelude.{
  ℕ, ℤ, negsuc, signed32, is_negative, is_positive, if◌then◌else◌, List, ◌++◌, Bool, Option, none,
  some, ascii,
}
use cubrid_go.Result.{Result, GoError, ok, err, panic, operational_error}
use cubrid_go.Wire.{uint32}
use cubrid_go.Sql.Literal.{format_int}
use cubrid_go.Protocol.Types.{OpenDatabaseResult}
use cubrid_go.Protocol.Requests.{write_client_info_exchange, write_open_database}
use cubrid_go.Protocol.Responses.{parse_open_database}
use cubrid_go.Conn.Socket.{Socket, Io, ◌>>=◌, ◌>>◌, lift, recv}

-- `dial host port` is `net.DialTimeout`, `socket k` what can be done with socket `k`, `timeout_at`
-- the time `time.Now().Add(c.timeout)`, `show` prints an error by `%v`.
pub record Network (S : Type 0) : Type 0 where
  pub dial : List ℕ → ℤ → S → Result ℕ × S
  pub socket : ℕ → Socket S
  pub timeout_at : S → ℕ
  pub show : GoError → List ℕ

-- The fields of `conn` that connect reads; `timed` is `c.timeout > 0`.
pub record Target : Type 0 where
  pub host : List ℕ
  pub port : ℤ
  pub database : List ℕ
  pub user : List ℕ
  pub password : List ℕ
  pub timed : Bool

-- The fields that it sets.
pub record Opened : Type 0 where
  pub socket : ℕ
  pub cas_info : List ℕ
  pub proto_ver : ℕ

-- `int(int32(binary.BigEndian.Uint32(portBuf)))`
abbrev pub port_of : Option ℕ → Result ℤ
port_of (some w) = ok (signed32 w)
port_of none = panic

module _ {S : Type 0} (net : Network S) where
  abbrev named_error : List ℕ → Result ℕ × S → Result ℕ × S
  named_error what (ok k, s) = (ok k, s)
  named_error what (err e, s) = (
    err (
        operational_error
          (record { code = negsuc 0; message = what ++ (ascii ": " ++ net.show e) })),
    s,
  )
  named_error what (panic, s) = (panic, s)

  -- A dial whose error becomes an OperationalError that says what was dialled.
  unfoldable pub dial_as : List ℕ → List ℕ → ℤ → Io S ℕ
  dial_as what host port s =
      named_error (what ++ (host ++ (ascii ":" ++ format_int port))) (net.dial host port s)

  -- `SetDeadline(time.Now().Add(c.timeout))` under its test.
  unfoldable pub start_timeout : Bool → ℕ → Io S (Unit {0})
  start_timeout timed k s =
      (ok tt, (if timed then ((net.socket k).set_deadline (some (net.timeout_at s)) s).1 else s))

  abbrev shut_on_error {ℓ} : {A : Type ℓ} → ℕ → Result A × S → Result A × S
  shut_on_error k (ok a, s) = (ok a, s)
  shut_on_error k (err e, s) = (err e, (net.socket k).shut s)
  shut_on_error k (panic, s) = (panic, s)

  -- Steps 1 and 2: the client's hello and the port, with the socket closed where either fails.
  unfoldable pub ask_port : ℕ → Io S ℤ
  unfolding ◌>>=◌ ◌>>◌
  ask_port k s = shut_on_error k (
      (do
        (net.socket k).write write_client_info_exchange
        port_buf ← (net.socket k).read_full 4
        lift (port_of (uint32 port_buf)))
        s)

  unfoldable pub shut_socket : ℕ → Io S (Unit {0})
  shut_socket k s = (ok tt, (net.socket k).shut s)

  -- Step 3: the socket of the CAS, which is the broker's where the port is 0.
  unfoldable pub cas_socket : Target → ℕ → ℤ → Io S ℕ
  unfolding ◌>>=◌ ◌>>◌
  cas_socket c k new_port =
      if is_negative new_port
      then (do
        shut_socket k
        lift (
            err (
              operational_error
                (record { code = new_port; message = ascii "broker rejected connection" }))))
      else if is_positive new_port
      then (do shut_socket k; dial_as (ascii "dial CAS ") c.host new_port)
      else lift (ok k)

  -- Steps 4 and 5, on the socket of the CAS.
  unfoldable pub open_database : Target → ℕ → Io S OpenDatabaseResult
  unfolding ◌>>=◌ ◌>>◌
  open_database c k = do
    start_timeout c.timed k
    (net.socket k).write (write_open_database c.database c.user c.password)
    bytes ← recv (net.socket k)
    lift (parse_open_database bytes)

  unfoldable pub clear_deadline : ℕ → Io S (Unit {0})
  clear_deadline k s = (ok tt, ((net.socket k).set_deadline none s).1)

  unfoldable pub connect : Target → Io S Opened
  unfolding ◌>>=◌ ◌>>◌
  connect c = do
    k ← dial_as (ascii "dial broker ") c.host c.port
    start_timeout c.timed k
    new_port ← ask_port k
    cas ← cas_socket c k new_port
    res ← open_database c cas
    clear_deadline cas
    lift (ok (record { socket = cas; cas_info = res.cas_info; proto_ver = res.protocol_version }))
