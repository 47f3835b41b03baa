-- ===== src/Context/Reading.antt =====
-- QueryContext and the rows that it returns, and ExecContext: from the response to the end.
use cubrid_go.Prelude.{
  All, Fits, ℕ, pos, suc, ◌+◌, ◌<◌, ◌^◌, ◌==◌, ◌≡◌, refl, List, [], ◌++◌, true, false, length, some,
  arith, is_positive,
}
use cubrid_go.Result.{ok}
use cubrid_go.Runtime.{Runtime, Value, KeepsCivil}
use cubrid_go.Constants.{stmt_insert}
use cubrid_go.Protocol.Types.{PrepareAndExecuteResult}
use cubrid_go.Protocol.Requests.{write_prepare_and_execute, write_close_req_handle}
use cubrid_go.Protocol.Responses.{parse_prepare_and_execute}
use cubrid_go.Protocol.Grammar.Rows.{WireRow}
use cubrid_go.Protocol.Grammar.Responses.{
  response_bytes, metas, values_of, WireInline, WireExecution, ExecutionFits, execution_bytes,
}
use cubrid_go.Protocol.RoundTrip.{prepare_and_execute_reads_back}
use cubrid_go.Conn.Socket.{Socket, ◌>>=◌, ◌>>◌}
use cubrid_go.Conn.Framing.{HasDeadlines, Answers}
use cubrid_go.Conn.Helpers.{Conn}
use cubrid_go.Conn.Releases.{close_query_handle-Answers}
use cubrid_go.Rows.Next.{Rows, query_rows}
use cubrid_go.Rows.Drain.{
  Serves, Delivers, answered, cursor_of, total_rows, concat_values, query_rows-Delivers,
}
use cubrid_go.Stmt.Counts.{exact_sum, sum_affected-no_overflow}
use cubrid_go.Context.Deadline.{Context}
use cubrid_go.Context.Query.{
  NamedValue, named_values_to_values, sql_of, query_context, finish_exec, exec_context,
}
use cubrid_go.Context.Success.{IsLive, with_context-IsLive, exec_args-Answers}

module _ (go : Runtime) {S : Type 0} (socket : Socket S) (deadlines : HasDeadlines socket)
    (c : Conn) (ctx : Context S) (query sql : List ℕ) (args : List NamedValue) (values : List Value)
    (s s' : S) (opened : c.closed ≡ false) (live : IsLive ctx s) (live' : IsLive ctx s')
    (positional : named_values_to_values args ≡ ok values)
    (interpolated : sql_of go query values ≡ ok sql) where
  -- A query on an open connection, under a context that is not cancelled, with arguments by position
  -- that fit the text, to a peer that answers with a SELECT's response in the grammar, at least one
  -- row inline, and then each FETCH with the next batch of rows, none of them empty, until the total
  -- is reached. QueryContext returns rows, and reading them one by one into as many places as there
  -- are columns gives every row of the result set once and in order, a SET, MULTISET or SEQUENCE in
  -- it as its bytes on the wire, and then the end.
  pub query_context-Delivers :
      (keeps : KeepsCivil go) (cas rest : List ℕ) (n total : ℕ) (w : WireExecution) (i : WireInline)
      (dest : List Value) (batches : List (List WireRow))
      → length cas ≡ 4
      → n < 2 ^ 31
      → ExecutionFits (record w { total = pos total; inline = some i })
      → 0 < length i.rows
      → 0 < length (metas w.prepared.columns)
      → length dest ≡ length (metas w.prepared.columns)
      → Answers socket s
          (write_prepare_and_execute sql c.auto_commit c.cas_info)
          (response_bytes cas
              (pos n)
              (execution_bytes c.proto_ver (record w { total = pos total; inline = some i }))
            ++ rest)
          s'
      → Serves go keeps socket (cursor_of c n total w) s' (length i.rows) batches
      → length i.rows + total_rows batches ≡ total
      → (r : Rows) × (query_context socket go c ctx query args s ≡ (ok r, s'))
        × Delivers go keeps socket
            (cursor_of c n total w)
            dest
            r
            s'
            (values_of go i.rows ++ concat_values go batches)
  unfolding query_context ◌>>=◌
  query_context-Delivers keeps cas rest n total w i dest batches four small fits some_rows
        some_columns wide a serves sum =
      let parsed =
        prepare_and_execute_reads_back go keeps cas four n small rest c.proto_ver
          (record w { total = pos total; inline = some i }) fits in
      (
        query_rows c (answered go n total w i),
        with_context-IsLive go socket deadlines c ctx _ s s' _ opened live (
            rw
              (exec_args-Answers go socket deadlines c ctx query sql _ args values
                (answered go n total w i) s s' positional interpolated a parsed live')
              refl),
        query_rows-Delivers go keeps socket c n total w i dest s' batches some_rows some_columns
            wide fits.inline_fits.3 serves sum,
      )

  -- A statement that is no INSERT, on an open connection and under a context that is not cancelled,
  -- to a peer that answers it with a result on a handle, fewer than 2 ^ 32 infos in it, the count of
  -- each in an int32, and accepts that the handle is closed: ExecContext returns the sum of the
  -- counts on unbounded integers, with no id, and the last request is the one that closes the handle.
  pub exec_context-releases :
      (resp cas rest : List ℕ) (res : PrepareAndExecuteResult) (h n : ℕ) (s'' : S)
      → Answers socket s (write_prepare_and_execute sql c.auto_commit c.cas_info) resp s'
      → parse_prepare_and_execute go resp c.proto_ver ≡ ok res
      → (res.statement_type == stmt_insert) ≡ false
      → res.query_handle ≡ pos (suc h)
      → All (λ i. Fits 31 i.result_count) res.result_infos
      → length res.result_infos < 2 ^ 32
      → length cas ≡ 4
      → n < 2 ^ 31
      → Answers socket s'
          (write_close_req_handle (pos (suc h)) c.cas_info)
          (response_bytes cas (pos n) [] ++ rest)
          s''
      → exec_context socket go c ctx query args s ≡ (
        ok (record { last_insert_id = pos 0; rows_affected = exact_sum (pos 0) res.result_infos }),
        s'',
      )
  unfolding exec_context finish_exec ◌>>=◌ ◌>>◌
  exec_context-releases resp cas rest res h n s'' a parsed plain handle counts few four small
        closing =
      let positive : is_positive (pos (suc h)) ≡ true = ground arith in
      with_context-IsLive go socket deadlines c ctx _ s s'' _ opened live (
        rw
          (
            exec_args-Answers go socket deadlines c ctx query sql resp args values res s s'
                positional interpolated a parsed live',
            plain,
            handle,
            positive,
            close_query_handle-Answers socket c (pos (suc h)) cas rest n s' s'' four small closing,
            sum_affected-no_overflow res.result_infos counts few,
          )
          refl)
