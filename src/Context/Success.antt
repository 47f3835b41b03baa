-- ===== src/Context/Success.antt =====
-- QueryContext and ExecContext where nothing is cancelled and the peer answers.
use cubrid_go.Prelude.{ℕ, ◌≡◌, refl, List, false, Option, none, some}
use cubrid_go.Result.{Result, ok}
use cubrid_go.Runtime.{Runtime, Value}
use cubrid_go.Protocol.Types.{PrepareAndExecuteResult}
use cubrid_go.Protocol.Requests.{write_prepare_and_execute}
use cubrid_go.Protocol.Responses.{parse_prepare_and_execute}
use cubrid_go.Conn.Socket.{Socket, Io, ◌>>=◌, ◌>>◌}
use cubrid_go.Conn.Framing.{HasDeadlines, Answers, send_and_recv-Answers}
use cubrid_go.Conn.Helpers.{Conn, exec_sql}
use cubrid_go.Context.Deadline.{
  Context, check, apply_context_deadline, set_if_some, with_context, checked,
}
use cubrid_go.Context.Query.{NamedValue, named_values_to_values, sql_of, exec_args}

-- In this state the context is not cancelled.
abbrev pub IsLive : {S : Type 0} → Context S → S → Type 0
IsLive ctx s = ctx.err_now s ≡ (none, s)

module _ (go : Runtime) {S : Type 0} (socket : Socket S) (deadlines : HasDeadlines socket)
    (c : Conn) (ctx : Context S) where
  check-IsLive : (s : S) → IsLive ctx s → check ctx s ≡ (ok tt, s)
  unfolding check
  check-IsLive s live = rw live refl

  set_if_some-HasDeadlines : (d : Option ℕ) (s : S) → set_if_some socket d s ≡ (ok tt, s)
  set_if_some-HasDeadlines none s = refl
  set_if_some-HasDeadlines (some d) s = deadlines.set (some d) s

  -- The guards let the body run, and its result stands.
  pub with_context-IsLive {ℓ} :
      {A : Type ℓ} (body : Io S A) (s s' : S) (res : Result A)
      → c.closed ≡ false
      → IsLive ctx s
      → body s ≡ (res, s')
      → with_context socket c ctx body s ≡ (res, s')
  unfolding with_context apply_context_deadline ◌>>=◌ ◌>>◌
  with_context-IsLive body s s' res opened live ran =
      rw
        (
          opened,
          check-IsLive s live,
          set_if_some-HasDeadlines ctx.deadline s,
          check-IsLive s live,
          ran,
          deadlines.set none s',
        )
        refl

  -- The text of the arguments is run, and its result is there.
  pub exec_args-Answers :
      (query sql resp : List ℕ) (args : List NamedValue) (values : List Value)
      (res : PrepareAndExecuteResult) (s s' : S)
      → named_values_to_values args ≡ ok values
      → sql_of go query values ≡ ok sql
      → Answers socket s (write_prepare_and_execute sql c.auto_commit c.cas_info) resp s'
      → parse_prepare_and_execute go resp c.proto_ver ≡ ok res
      → IsLive ctx s'
      → exec_args socket go c ctx query args s ≡ (ok res, s')
  unfolding exec_args checked exec_sql ◌>>=◌ ◌>>◌
  exec_args-Answers query sql resp args values res s s' positional interpolated a parsed live =
      rw (positional, interpolated, send_and_recv-Answers socket a, parsed, check-IsLive s' live)
        refl
