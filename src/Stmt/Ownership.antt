-- ===== src/Stmt/Ownership.antt =====
-- stmt.go: which rows own a handle, and what is left of a statement behind Close.
use cubrid_go.Prelude.{
  ℕ, ◌≡◌, refl, sym, ap, ◌∙◌, List, [], Bool, true, false, inl, inr, Bool-cases, is_positive, ◌||◌,
}
use cubrid_go.Result.{Result, ok, err, panic, bad_conn}
use cubrid_go.Runtime.{Runtime, Value}
use cubrid_go.Protocol.Types.{ExecuteResult}
use cubrid_go.Protocol.Bind.{write_execute}
use cubrid_go.Protocol.Responses.{parse_execute}
use cubrid_go.Conn.Socket.{Socket, ◌>>=◌}
use cubrid_go.Conn.Framing.{Answers, send_and_recv-Answers}
use cubrid_go.Conn.Helpers.{close_query_handle}
use cubrid_go.Rows.Next.{Rows}
use cubrid_go.Stmt.Execute.{
  Stmt, prepared_rows, after_stmt_close, close, execute_prepared, exec, query_rows, query,
}

-- The rows of an outcome, if there are any, are open and own their handle or not.
abbrev pub Owns : {S : Type 0} → Bool → Result Rows × S → Type 0
Owns b (ok r, s) = (r.close_handle ≡ b) × (r.closed ≡ false)
Owns b (err e, s) = Unit
Owns b (panic, s) = Unit

module _ (go : Runtime) {S : Type 0} (socket : Socket S) where
  after_stmt_close-closed :
      (s : Stmt) (o : Result (Unit {0}) × S)
      → s.closed ≡ true
      → (after_stmt_close socket s o).1.closed ≡ true
  unfolding after_stmt_close
  after_stmt_close-closed s (ok u, st) h = h
  after_stmt_close-closed s (err e, st) h = h
  after_stmt_close-closed s (panic, st) h = h

  close-closed : (s : Stmt) (st : S) → (close socket s st).1.closed ≡ true
  unfolding close
  close-closed s st = elim (Bool-cases s.closed) [
    | inl done ↦ rw done refl
    | inr opened ↦ elim (Bool-cases (is_positive s.query_handle)) [
      | inl handle ↦
          rw (opened, handle)
            (after_stmt_close-closed (record s { closed = true })
              (close_query_handle socket s.conn s.query_handle st) refl)
      | inr none ↦ rw (opened, none) refl
    ]
  ]

  -- Whatever Close of a statement met, behind it Exec and Query report a bad connection and Close
  -- does nothing, and none of them touches the socket.
  pub stmt_closed_for_good :
      (s s' : Stmt) (st st' : S) (res : Result (Unit {0})) (args : List Value)
      → close socket s st ≡ (res, s', st')
      → (exec go socket s' args st' ≡ (err bad_conn, st'))
        × (query go socket s' args st' ≡ (err bad_conn, st'))
        × (close socket s' st' ≡ (ok tt, s', st'))
  unfolding close exec query
  stmt_closed_for_good s s' st st' res args left =
      let done : s'.closed ≡ true =
        sym (ap (λ (o : Result (Unit {0}) × Stmt × S). o.1.closed) left) ∙ close-closed s st in
      (rw done refl, rw done refl, rw done refl)

  -- The result of EXECUTE as rows.
  pub query-prepared :
      (s : Stmt) (st st' : S) (resp : List ℕ) (res : ExecuteResult)
      → (s.closed || s.conn.closed) ≡ false
      → Answers socket st
          (write_execute go s.query_handle s.stmt_type [] s.conn.auto_commit s.conn.cas_info)
          resp
          st'
      → parse_execute go resp s.columns s.stmt_type s.conn.proto_ver ≡ ok res
      → query go socket s [] st ≡ (ok (prepared_rows s res), st')
  unfolding query query_rows execute_prepared ◌>>=◌
  query-prepared s st st' resp res opened a parsed =
      rw (opened, send_and_recv-Answers socket a, parsed) refl
