-- ===== src/Stmt/Inserting.antt =====
-- stmt.go: Exec of an INSERT with arguments, from its text to the id.
pub mod Tests
use cubrid_go.Prelude.{
  All, Fits, length, ℕ, pos, suc, ◌<◌, ◌^◌, ◌==◌, ◌||◌, ◌≡◌, refl, List, ◌∷◌, ◌++◌, true, false,
  ascii, arith, is_positive, AllDigits, read_digits,
}
use cubrid_go.Result.{ok}
use cubrid_go.Runtime.{Runtime, Value, text}
use cubrid_go.Constants.{stmt_insert}
use cubrid_go.Protocol.Types.{PrepareAndExecuteResult}
use cubrid_go.Sql.Interpolate.{interpolate_args}
use cubrid_go.Conn.Socket.{Socket, ◌>>=◌, ◌>>◌}
use cubrid_go.Conn.InsertId.{NoDigitFirst, id_of_rows-digits}
use cubrid_go.Conn.Releases.{
  RunsAndCloses, exec_sql-RunsAndCloses, close-RunsAndCloses, fetch_last_insert_id-RunsAndCloses,
}
use cubrid_go.Stmt.Counts.{exact_sum, sum_affected-no_overflow}
use cubrid_go.Stmt.Execute.{Stmt, exec_interpolated, exec_infos, exec}

module _ (go : Runtime) {S : Type 0} (socket : Socket S) (s : Stmt) (arg : Value)
    (args : List Value) (sql : List ℕ) (st st1 : S) (res : PrepareAndExecuteResult)
    (interpolated : interpolate_args go s.query (arg ∷ args) ≡ ok sql)
    (ran : RunsAndCloses socket s.conn go sql st res st1) where
  exec_interpolated-RunsAndCloses :
      exec_interpolated go socket s (arg ∷ args) st ≡ (ok res.result_infos, st1)
  unfolding exec_interpolated ◌>>=◌ ◌>>◌
  exec_interpolated-RunsAndCloses =
      let there : is_positive (pos (suc ran.handle)) ≡ true = ground arith in
      rw
        (
          interpolated,
          exec_sql-RunsAndCloses socket s.conn go ran,
          ran.positive,
          there,
          close-RunsAndCloses socket s.conn go ran,
        )
        refl

  -- Exec of an INSERT with at least one argument, on an open statement whose text takes the
  -- arguments, with a peer that runs the text and then the query for the last id, each with a
  -- handle that it lets be closed, and answers that query with a text of digits for a number below
  -- 2 ^ 63, and fewer than 2 ^ 32 infos of the INSERT, the count of each in an int32: Exec returns
  -- that number and the sum of the counts on unbounded integers, and both handles are closed, each
  -- behind its own text.
  pub exec-inserts :
      (digits behind : List ℕ) (cells : List Value) (rows : List (List Value)) (st2 : S)
      (id_res : PrepareAndExecuteResult)
      → (s.closed || s.conn.closed) ≡ false
      → (s.stmt_type == stmt_insert) ≡ true
      → RunsAndCloses socket s.conn go (ascii "SELECT LAST_INSERT_ID()") st1 id_res st2
      → id_res.rows ≡ (text (digits ++ behind) ∷ cells) ∷ rows
      → AllDigits digits
      → NoDigitFirst behind
      → read_digits 0 digits < 2 ^ 63
      → All (λ i. Fits 31 i.result_count) res.result_infos
      → length res.result_infos < 2 ^ 32
      → exec go socket s (arg ∷ args) st ≡ (
        ok (record {
          last_insert_id = pos (read_digits 0 digits);
          rows_affected = exact_sum (pos 0) res.result_infos;
        }),
        st2,
      )
  unfolding exec exec_infos ◌>>=◌
  exec-inserts digits behind cells rows st2 id_res opened insert asked found spelled stop small
        counts few =
      rw
        (
          opened,
          exec_interpolated-RunsAndCloses,
          insert,
          fetch_last_insert_id-RunsAndCloses socket s.conn go asked,
          found,
          id_of_rows-digits digits behind cells rows spelled stop small,
          sum_affected-no_overflow res.result_infos counts few,
        )
        refl
