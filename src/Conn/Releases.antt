-- ===== src/Conn/Releases.antt =====
-- Texts that conn.go runs for themselves, and whose handle it closes at once.
use cubrid_go.Prelude.{
  ℕ, ℤ, pos, suc, ◌<◌, ◌^◌, ◌≡◌, refl, List, [], ◌++◌, true, length, ascii, arith, is_positive,
}
use cubrid_go.Result.{ok}
use cubrid_go.Runtime.{Runtime}
use cubrid_go.Protocol.Types.{PrepareAndExecuteResult}
use cubrid_go.Protocol.Requests.{write_prepare_and_execute, write_close_req_handle}
use cubrid_go.Protocol.Responses.{parse_prepare_and_execute}
use cubrid_go.Protocol.Grammar.Responses.{response_bytes}
use cubrid_go.Conn.Socket.{Socket, ◌>>=◌, ◌>>◌}
use cubrid_go.Conn.Framing.{Answers, send_and_recv-Answers}
use cubrid_go.Conn.Helpers.{Conn, close_query_handle, exec_sql, id_of_rows, fetch_last_insert_id}
use cubrid_go.Conn.Transactions.{parse_simple_response-success}

module _ {S : Type 0} (socket : Socket S) (c : Conn) where
  pub close_query_handle-Answers :
      (qh : ℤ) (cas rest : List ℕ) (n : ℕ) (s s' : S)
      → length cas ≡ 4
      → n < 2 ^ 31
      → Answers socket s
          (write_close_req_handle qh c.cas_info)
          (response_bytes cas (pos n) [] ++ rest)
          s'
      → close_query_handle socket c qh s ≡ (ok tt, s')
  unfolding close_query_handle
  close_query_handle-Answers qh cas rest n s s' four small a =
      rw (send_and_recv-Answers socket a, parse_simple_response-success cas rest n four small) refl

  module _ (go : Runtime) where
    -- In state `s` the peer runs the text with the result `res`, which has a handle, and then
    -- accepts that the handle is closed.
    pub record RunsAndCloses (sql : List ℕ) (s : S) (res : PrepareAndExecuteResult) (s' : S)
        : Type 0 where
      pub resp : List ℕ
      pub ran : S
      pub answered :
          Answers socket s (write_prepare_and_execute sql c.auto_commit c.cas_info) resp ran
      pub parsed : parse_prepare_and_execute go resp c.proto_ver ≡ ok res
      pub handle : ℕ
      pub positive : res.query_handle ≡ pos (suc handle)
      pub cas : List ℕ
      pub rest : List ℕ
      pub code : ℕ
      pub four : length cas ≡ 4
      pub small : code < 2 ^ 31
      pub accepted :
          Answers socket ran
            (write_close_req_handle (pos (suc handle)) c.cas_info)
            (response_bytes cas (pos code) [] ++ rest)
            s'

    pub exec_sql-RunsAndCloses :
        {sql : List ℕ} {s s' : S} {res : PrepareAndExecuteResult} (r : RunsAndCloses sql s res s')
        → exec_sql socket go c sql s ≡ (ok res, r.ran)
    unfolding exec_sql ◌>>=◌
    exec_sql-RunsAndCloses r = rw (send_and_recv-Answers socket r.answered, r.parsed) refl

    pub close-RunsAndCloses :
        {sql : List ℕ} {s s' : S} {res : PrepareAndExecuteResult} (r : RunsAndCloses sql s res s')
        → close_query_handle socket c (pos (suc r.handle)) r.ran ≡ (ok tt, s')
    close-RunsAndCloses {s' = s'} r =
        close_query_handle-Answers (pos (suc r.handle)) r.cas r.rest r.code r.ran s' r.four r.small
          r.accepted

    pub fetch_last_insert_id-RunsAndCloses :
        {s s' : S} {res : PrepareAndExecuteResult}
        → RunsAndCloses (ascii "SELECT LAST_INSERT_ID()") s res s'
        → fetch_last_insert_id socket go c s ≡ (ok (id_of_rows res.rows), s')
    unfolding fetch_last_insert_id ◌>>=◌ ◌>>◌
    fetch_last_insert_id-RunsAndCloses r =
        let there : is_positive (pos (suc r.handle)) ≡ true = ground arith in
        rw (exec_sql-RunsAndCloses r, r.positive, there, close-RunsAndCloses r) refl
