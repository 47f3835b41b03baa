-- ===== src/Conn/Session.antt =====
-- conn.go and tx.go: Begin, Commit, Rollback, Prepare, Ping, ServerVersion and Close. A method
-- returns the connection that it leaves.
use cubrid_go.Prelude.{ℕ, if◌then◌else◌, List, true, false}
use cubrid_go.Result.{Result, ok, err, panic, bad_conn}
use cubrid_go.Constants.{tx_commit, tx_rollback}
use cubrid_go.Protocol.Types.{PrepareResult}
use cubrid_go.Protocol.Requests.{
  write_con_close, write_end_tran, write_get_db_version, write_prepare,
}
use cubrid_go.Protocol.Responses.{parse_simple_response, parse_get_db_version, parse_prepare}
use cubrid_go.Conn.Socket.{Socket, Io, ◌>>=◌, lift, send_and_recv}
use cubrid_go.Conn.Helpers.{Conn}

-- What a method leaves: its result, the connection and the socket.
abbrev pub Left {ℓ} : Type 0 → Type ℓ → Type ℓ
Left S A = Result A × Conn × S

-- `_, err = …`
abbrev pub discard {ℓ} : {A : Type ℓ} → Result A → Result (Unit {0})
discard (ok a) = ok tt
discard (err e) = err e
discard panic = panic

module _ {S : Type 0} where
  -- A method whose I/O does not change the connection.
  abbrev pub with_conn {ℓ} : {A : Type ℓ} → Conn → Result A × S → Left S A
  with_conn c (res, s) = (res, c, s)

  unfoldable pub begin : Conn → S → Left S (Unit {0})
  begin c s =
      if c.closed then (err bad_conn, c, s) else (ok tt, record c { auto_commit = false }, s)

  -- The end of a transaction: the flag is set where the server accepts.
  unfoldable pub after_end_tran : Conn → Result (Unit {0}) × S → Left S (Unit {0})
  after_end_tran c (ok u, s) = (ok tt, record c { auto_commit = true }, s)
  after_end_tran c (err e, s) = (err e, c, s)
  after_end_tran c (panic, s) = (panic, c, s)

  -- Every error of the I/O is reported as a bad connection.
  unfoldable pub as_bad_conn : Result (List ℕ) × S → Result (List ℕ) × S
  as_bad_conn (ok resp, s) = (ok resp, s)
  as_bad_conn (err e, s) = (err bad_conn, s)
  as_bad_conn (panic, s) = (panic, s)

  module _ (socket : Socket S) where
    unfoldable pub end_tran : ℕ → Conn → S → Left S (Unit {0})
    unfolding ◌>>=◌ after_end_tran
    end_tran tx_type c s = after_end_tran c (answer s)
      where
        answer : Io S (Unit {0})
        answer = do
          resp ← send_and_recv socket (write_end_tran tx_type c.cas_info)
          lift (parse_simple_response resp)

    unfoldable pub commit : Conn → S → Left S (Unit {0})
    unfolding end_tran
    commit = end_tran tx_commit

    unfoldable pub rollback : Conn → S → Left S (Unit {0})
    unfolding end_tran
    rollback = end_tran tx_rollback

    -- The result is what the statement keeps of the response; its other fields are `c` and `query`.
    unfoldable pub prepare : List ℕ → Conn → S → Left S PrepareResult
    unfolding ◌>>=◌
    prepare query c s =
        if c.closed
        then (err bad_conn, c, s)
        else with_conn c (
            (do
              resp ← send_and_recv socket (write_prepare query c.auto_commit c.cas_info)
              lift (parse_prepare resp))
              s)

    unfoldable pub ping : Conn → S → Left S (Unit {0})
    unfolding ◌>>=◌ as_bad_conn
    ping c s =
        if c.closed
        then (err bad_conn, c, s)
        else with_conn c (
            (do
              resp ←
                  λ s. as_bad_conn (send_and_recv socket (write_get_db_version true c.cas_info) s)
              lift (discard (parse_get_db_version resp)))
              s)

    -- No test of `closed` here.
    unfoldable pub server_version : Conn → S → Left S (List ℕ)
    unfolding ◌>>=◌
    server_version c s = with_conn c (
        (do
          resp ← send_and_recv socket (write_get_db_version true c.cas_info)
          lift (parse_get_db_version resp))
          s)

    -- The result of the last write is dropped.
    unfoldable pub close : Conn → S → Left S (Unit {0})
    close c s = if c.closed then (ok tt, c, s) else (
      ok tt,
      record c { closed = true },
      socket.shut (socket.write (write_con_close c.cas_info) s).1,
    )
