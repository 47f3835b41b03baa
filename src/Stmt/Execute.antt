-- ===== src/Stmt/Execute.antt =====
-- stmt.go: Exec, Query and Close. A statement shares its connection with others; Exec and Query do
-- not change the connection's fields, so they take it as it is.
use cubrid_go.Prelude.{
  ℕ, ℤ, pos, ltb_ℤ, ◌==◌, ◌||◌, ◌+ℤ◌, wrap, signed64, if◌then◌else◌, List, [], ◌∷◌, Bool, true,
  false, length, is_positive,
}
use cubrid_go.Result.{Result, ok, err, panic, bad_conn}
use cubrid_go.Runtime.{Runtime, Value}
use cubrid_go.Constants.{stmt_insert}
use cubrid_go.Protocol.Types.{ColumnMetaData, ResultInfo, ExecuteResult, PrepareAndExecuteResult}
use cubrid_go.Protocol.Responses.{parse_execute}
use cubrid_go.Protocol.Bind.{write_execute}
use cubrid_go.Sql.Interpolate.{interpolate_args}
use cubrid_go.Conn.Socket.{Socket, Io, ◌>>=◌, ◌>>◌, lift, send_and_recv}
use cubrid_go.Conn.Helpers.{Conn, close_query_handle, exec_sql, fetch_last_insert_id}
use cubrid_go.Rows.Next.{Rows, is_zero}

pub record Stmt : Type 0 where
  pub conn : Conn
  pub query : List ℕ
  pub query_handle : ℤ
  pub stmt_type : ℕ
  pub bind_count : ℤ
  pub columns : List ColumnMetaData
  pub closed : Bool

unfoldable pub num_input : Stmt → ℤ
num_input s = s.bind_count

-- The struct `result`.
pub record ExecResult : Type 0 where
  pub last_insert_id : ℤ
  pub rows_affected : ℤ

-- The loop over the infos, on an int64.
unfoldable pub sum_affected : ℤ → List ResultInfo → ℤ
sum_affected affected [] = affected
sum_affected affected (info ∷ infos) =
    sum_affected (signed64 (wrap 64 (affected +ℤ info.result_count))) infos

-- `len(args) > 0`
abbrev pub has_args : List Value → Bool
has_args [] = false
has_args (arg ∷ args) = true

-- The rows that Query returns, on a handle that they own or not.
unfoldable pub stmt_rows : Stmt → ℤ → List ColumnMetaData → ℤ → ℤ → List (List Value) → Bool → Rows
stmt_rows s handle columns total tuple_count fetched_rows owns_handle =
    let fetched = pos (length fetched_rows) in
    record {
      conn = s.conn;
      query_handle = handle;
      columns = columns;
      stmt_type = s.stmt_type;
      total_count = total;
      fetched_count = fetched;
      buffered_rows = fetched_rows;
      buffer_offset = 0;
      exhausted = is_zero tuple_count || (if ltb_ℤ fetched total then false else true);
      fetch_size = pos 100;
      closed = false;
      close_handle = owns_handle;
    }

-- On the statement's own handle.
unfoldable pub prepared_rows : Stmt → ExecuteResult → Rows
unfolding stmt_rows
prepared_rows s res =
    stmt_rows s s.query_handle s.columns res.total_tuple_count res.tuple_count res.rows false

-- On the handle of the interpolated text.
unfoldable pub interpolated_rows : Stmt → PrepareAndExecuteResult → Rows
unfolding stmt_rows
interpolated_rows s res =
    stmt_rows s res.query_handle res.columns res.total_tuple_count res.tuple_count res.rows true

module _ {S : Type 0} (socket : Socket S) where
  unfoldable pub after_stmt_close : Stmt → Result (Unit {0}) × S → Result (Unit {0}) × Stmt × S
  after_stmt_close s (ok u, st) = (ok tt, record s { query_handle = pos 0 }, st)
  after_stmt_close s (err e, st) = (ok tt, record s { query_handle = pos 0 }, st)
  after_stmt_close s (panic, st) = (panic, s, st)

  unfoldable pub close : Stmt → S → Result (Unit {0}) × Stmt × S
  unfolding after_stmt_close
  close s st =
      if s.closed
      then (ok tt, s, st)
      else if is_positive s.query_handle
      then after_stmt_close (record s { closed = true })
          (close_query_handle socket s.conn s.query_handle st)
      else (ok tt, record s { closed = true }, st)

module _ (go : Runtime) {S : Type 0} (socket : Socket S) where
  -- Without arguments: the prepared handle.
  unfoldable pub execute_prepared : Stmt → Io S ExecuteResult
  unfolding ◌>>=◌
  execute_prepared s = do
    resp ←
        send_and_recv socket
          (write_execute go s.query_handle s.stmt_type [] s.conn.auto_commit s.conn.cas_info)
    lift (parse_execute go resp s.columns s.stmt_type s.conn.proto_ver)

  -- With arguments: the interpolated text, whose handle is closed at once.
  unfoldable pub exec_interpolated : Stmt → List Value → Io S (List ResultInfo)
  unfolding ◌>>=◌ ◌>>◌
  exec_interpolated s args = do
    sql ← lift (interpolate_args go s.query args)
    res ← exec_sql socket go s.conn sql
    if is_positive res.query_handle
        then close_query_handle socket s.conn res.query_handle
        else lift (ok tt)
    lift (ok res.result_infos)

  unfoldable pub exec_infos : Stmt → List Value → Io S (List ResultInfo)
  unfolding ◌>>=◌ execute_prepared exec_interpolated
  exec_infos s [] = do res ← execute_prepared s; lift (ok res.result_infos)
  exec_infos s (arg ∷ args) = exec_interpolated s (arg ∷ args)

  unfoldable pub exec : Stmt → List Value → Io S ExecResult
  unfolding ◌>>=◌ exec_infos
  exec s args = if s.closed || s.conn.closed then lift (err bad_conn) else do
    infos ← exec_infos s args
    last_id ←
        if s.stmt_type == stmt_insert
        then fetch_last_insert_id socket go s.conn
        else lift (ok (pos 0))
    lift (ok (record { last_insert_id = last_id; rows_affected = sum_affected (pos 0) infos }))

  unfoldable pub query_rows : Stmt → List Value → Io S Rows
  unfolding ◌>>=◌ execute_prepared prepared_rows interpolated_rows
  query_rows s [] = do res ← execute_prepared s; lift (ok (prepared_rows s res))
  query_rows s (arg ∷ args) = do
    sql ← lift (interpolate_args go s.query (arg ∷ args))
    res ← exec_sql socket go s.conn sql
    lift (ok (interpolated_rows s res))

  unfoldable pub query : Stmt → List Value → Io S Rows
  unfolding query_rows
  query s args = if s.closed || s.conn.closed then lift (err bad_conn) else query_rows s args
