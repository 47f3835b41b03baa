-- ===== src/Context/Cancelled.antt =====
-- QueryContext and ExecContext where the context is cancelled.
use cubrid_go.Prelude.{ℕ, ◌≡◌, refl, false, List, some}
use cubrid_go.Result.{GoError, ok, err}
use cubrid_go.Runtime.{Runtime, Value}
use cubrid_go.Protocol.Types.{PrepareAndExecuteResult}
use cubrid_go.Protocol.Requests.{write_prepare_and_execute}
use cubrid_go.Protocol.Responses.{parse_prepare_and_execute}
use cubrid_go.Conn.Socket.{Socket, ◌>>=◌, ◌>>◌}
use cubrid_go.Conn.Framing.{HasDeadlines, Answers, send_and_recv-Answers}
use cubrid_go.Conn.Helpers.{Conn, exec_sql}
use cubrid_go.Context.Deadline.{Context, check, apply_context_deadline, with_context, checked}
use cubrid_go.Context.Query.{
  NamedValue, named_values_to_values, sql_of, exec_args, query_context, exec_context, begin_tx,
}
use cubrid_go.Context.Success.{IsLive, with_context-IsLive}

check-cancelled :
    {S : Type 0} (ctx : Context S) (s : S) (e : GoError)
    → ctx.err_now s ≡ (some e, s)
    → check ctx s ≡ (err e, s)
unfolding check
check-cancelled ctx s e cancelled = rw cancelled refl

module _ (go : Runtime) {S : Type 0} (socket : Socket S) (deadlines : HasDeadlines socket)
    (c : Conn) (ctx : Context S) (query : List ℕ) (args : List NamedValue) (s : S) (e : GoError)
    (opened : c.closed ≡ false) where
  -- With a context that is cancelled before the call, on an open connection: BeginTx, QueryContext
  -- and ExecContext return its error, nothing is sent, and no transaction begins.
  pub cancelled_before :
      ctx.err_now s ≡ (some e, s)
      → (begin_tx socket c ctx s ≡ (err e, c, s))
        × (query_context socket go c ctx query args s ≡ (err e, s))
        × (exec_context socket go c ctx query args s ≡ (err e, s))
  unfolding begin_tx query_context exec_context with_context apply_context_deadline ◌>>=◌ ◌>>◌
  cancelled_before cancelled = (
    rw (opened, check-cancelled ctx s e cancelled) refl,
    rw (opened, check-cancelled ctx s e cancelled) refl,
    rw (opened, check-cancelled ctx s e cancelled) refl,
  )

  module _ (sql resp : List ℕ) (values : List Value) (res : PrepareAndExecuteResult) (s' : S)
      (live : IsLive ctx s) (positional : named_values_to_values args ≡ ok values)
      (interpolated : sql_of go query values ≡ ok sql)
      (answer : Answers socket s (write_prepare_and_execute sql c.auto_commit c.cas_info) resp s')
      (parsed : parse_prepare_and_execute go resp c.proto_ver ≡ ok res)
      (cancelled : ctx.err_now s' ≡ (some e, s')) where
    exec_args-cancelled : exec_args socket go c ctx query args s ≡ (err e, s')
    unfolding exec_args checked exec_sql ◌>>=◌ ◌>>◌
    exec_args-cancelled =
        rw
          (
            positional,
            interpolated,
            send_and_recv-Answers socket answer,
            parsed,
            check-cancelled ctx s' e cancelled,
          )
          refl

    -- With a context that is cancelled while the statement runs, on an open connection whose peer
    -- answers it with a result: QueryContext and ExecContext return the context's error, and the
    -- response is the last of the exchange, whatever handle is in it: none is closed.
    pub cancelled_behind :
        (query_context socket go c ctx query args s ≡ (err e, s'))
        × (exec_context socket go c ctx query args s ≡ (err e, s'))
    unfolding query_context exec_context ◌>>=◌
    cancelled_behind = (
      with_context-IsLive go socket deadlines c ctx _ s s' (err e) opened live
          (rw exec_args-cancelled refl),
      with_context-IsLive go socket deadlines c ctx _ s s' (err e) opened live
          (rw exec_args-cancelled refl),
    )
