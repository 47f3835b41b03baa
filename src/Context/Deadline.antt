-- ===== src/Context/Deadline.antt =====
-- conn.go: applyContextDeadline, and what the methods that take a context have in common. The
-- watcher goroutine is not here: it stands in Watch.
use cubrid_go.Prelude.{ℕ, if◌then◌else◌, Option, none, some}
use cubrid_go.Result.{Result, GoError, ok, err, panic, bad_conn}
use cubrid_go.Conn.Socket.{Socket, Io, ◌>>=◌, ◌>>◌, lift}
use cubrid_go.Conn.Helpers.{Conn}

-- A context, over the state of the socket: `ctx.Err()`, which may be cancelled between two calls,
-- and `ctx.Deadline()`.
pub record Context (S : Type 0) : Type 0 where
  pub err_now : S → Option GoError × S
  pub deadline : Option ℕ

abbrev raise : {S : Type 0} → Option GoError × S → Result (Unit {0}) × S
raise (none, s) = (ok tt, s)
raise (some e, s) = (err e, s)

-- `if err := ctx.Err(); err != nil { return err }`
unfoldable pub check : {S : Type 0} → Context S → Io S (Unit {0})
check ctx s = raise (ctx.err_now s)

abbrev pub or_context_error {ℓ} :
    {S : Type 0} {A : Type ℓ} → Context S → Result A × S → Result A × S
or_context_error ctx (ok a, s) = (ok a, s)
or_context_error ctx (err e, s) = (check ctx >>= λ _. lift (err e)) s
or_context_error ctx (panic, s) = (panic, s)

-- `if err != nil { if ctxErr := ctx.Err(); ctxErr != nil { return ctxErr }; return err }`, and the
-- check behind it.
unfoldable pub checked {ℓ} : {S : Type 0} {A : Type ℓ} → Context S → Io S A → Io S A
unfolding ◌>>=◌ ◌>>◌ check
checked ctx m = do a ← λ s. or_context_error ctx (m s); check ctx; lift (ok a)

module _ {S : Type 0} (socket : Socket S) where
  abbrev pub set_if_some : Option ℕ → Io S (Unit {0})
  set_if_some none = lift (ok tt)
  set_if_some (some d) = socket.set_deadline (some d)

  unfoldable pub apply_context_deadline : Context S → Io S (Unit {0})
  unfolding ◌>>=◌ ◌>>◌ check
  apply_context_deadline ctx = do check ctx; set_if_some ctx.deadline

  -- `defer c.socket.SetDeadline(time.Time{})`: the deadline is cleared however the body ends.
  abbrev pub cleared {ℓ} : {A : Type ℓ} → Result A × S → Result A × S
  cleared (res, s) = (res, (socket.set_deadline none s).1)

  -- The guards of BeginTx, QueryContext and ExecContext, and their bodies.
  unfoldable pub with_context {ℓ} : {A : Type ℓ} → Conn → Context S → Io S A → Io S A
  unfolding ◌>>=◌ ◌>>◌ apply_context_deadline
  with_context c ctx body =
      if c.closed
      then lift (err bad_conn)
      else do apply_context_deadline ctx; λ s. cleared ((do check ctx; body) s)
