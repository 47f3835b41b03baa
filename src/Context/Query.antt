-- ===== src/Context/Query.antt =====
-- conn.go: namedValuesToValues, BeginTx, QueryContext and ExecContext.
use cubrid_go.Prelude.{ℕ, pos, ◌==◌, if◌then◌else◌, List, [], ◌∷◌, Bool, true, false, is_positive}
use cubrid_go.Result.{Result, ok, err, panic, named_parameter}
use cubrid_go.Runtime.{Runtime, Value}
use cubrid_go.Constants.{stmt_insert}
use cubrid_go.Protocol.Types.{PrepareAndExecuteResult}
use cubrid_go.Sql.Interpolate.{interpolate_args}
use cubrid_go.Conn.Socket.{Socket, Io, ◌>>=◌, ◌>>◌, lift}
use cubrid_go.Conn.Helpers.{Conn, close_query_handle, exec_sql, fetch_last_insert_id}
use cubrid_go.Conn.Session.{Left}
use cubrid_go.Rows.Next.{Rows, query_rows}
use cubrid_go.Stmt.Execute.{ExecResult, sum_affected}
use cubrid_go.Context.Deadline.{Context, with_context, checked}

pub record NamedValue : Type 0 where
  pub name : List ℕ
  pub value : Value

abbrev is_empty : List ℕ → Bool
is_empty [] = true
is_empty (c ∷ cs) = false

abbrev onto : Value → Result (List Value) → Result (List Value)
onto v (ok vs) = ok (v ∷ vs)
onto v (err e) = err e
onto v panic = panic

-- The loop returns at the first argument that has a name.
unfoldable pub named_values_to_values : List NamedValue → Result (List Value)
named_values_to_values [] = ok []
named_values_to_values (arg ∷ args) =
    let rest = onto arg.value (named_values_to_values args) in
    if is_empty arg.name then rest else err (named_parameter arg.name)

-- types.go, namedValueToValue, which drops the names.
unfoldable pub named_value_to_value : List NamedValue → List Value
named_value_to_value [] = []
named_value_to_value (n ∷ named) = n.value ∷ named_value_to_value named

-- `interpolatedSQL`: without values it is the query itself.
unfoldable pub sql_of : Runtime → List ℕ → List Value → Result (List ℕ)
sql_of go query [] = ok query
sql_of go query (v ∷ vs) = interpolate_args go query (v ∷ vs)

module _ {S : Type 0} (socket : Socket S) where
  -- The connection is changed last, so that a failure leaves it as it is.
  abbrev pub began : Conn → Result (Unit {0}) × S → Left S (Unit {0})
  began c (ok u, s) = (ok tt, record c { auto_commit = false }, s)
  began c (err e, s) = (err e, c, s)
  began c (panic, s) = (panic, c, s)

  unfoldable pub begin_tx : Conn → Context S → S → Left S (Unit {0})
  unfolding with_context
  begin_tx c ctx s = began c (with_context socket c ctx (lift (ok tt)) s)

  module _ (go : Runtime) where
    -- The arguments by position, in the text, and the text run.
    unfoldable pub exec_args :
        Conn → Context S → List ℕ → List NamedValue → Io S PrepareAndExecuteResult
    unfolding ◌>>=◌ checked named_values_to_values sql_of
    exec_args c ctx query args = do
      values ← lift (named_values_to_values args)
      sql ← lift (sql_of go query values)
      checked ctx (exec_sql socket go c sql)

    unfoldable pub query_context : Conn → Context S → List ℕ → List NamedValue → Io S Rows
    unfolding ◌>>=◌ with_context exec_args
    query_context c ctx query args =
        with_context socket c ctx
          (do res ← exec_args c ctx query args; lift (ok (query_rows c res)))

    -- What ExecContext does with the result: the id of an INSERT, and the handle closed.
    unfoldable pub finish_exec : Conn → PrepareAndExecuteResult → Io S ExecResult
    unfolding ◌>>=◌ ◌>>◌
    finish_exec c res = do
      last_id ←
          if res.statement_type == stmt_insert
          then fetch_last_insert_id socket go c
          else lift (ok (pos 0))
      if is_positive res.query_handle
          then close_query_handle socket c res.query_handle
          else lift (ok tt)
      lift (
          ok (record {
            last_insert_id = last_id;
            rows_affected = sum_affected (pos 0) res.result_infos;
          }))

    unfoldable pub exec_context : Conn → Context S → List ℕ → List NamedValue → Io S ExecResult
    unfolding ◌>>=◌ with_context exec_args finish_exec
    exec_context c ctx query args =
        with_context socket c ctx (do res ← exec_args c ctx query args; finish_exec c res)
