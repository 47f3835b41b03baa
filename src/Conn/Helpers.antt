-- ===== src/Conn/Helpers.antt =====
-- conn.go: closeQueryHandle, execSQL and fetchLastInsertID. The lock is held by the callers.
use cubrid_go.Prelude.{
  ℕ, ℤ, pos, ◌+◌, ◌-◌, ◌*◌, ◌%◌, ◌^◌, signed64, leb, ◌&&◌, if◌then◌else◌, List, [], ◌∷◌, Bool,
  is_positive, ascii,
}
use cubrid_go.Result.{Result, ok, err, panic}
use cubrid_go.Runtime.{Runtime, Value, int64, text}
use cubrid_go.Protocol.Types.{PrepareAndExecuteResult}
use cubrid_go.Protocol.Requests.{write_close_req_handle, write_prepare_and_execute}
use cubrid_go.Protocol.Responses.{parse_simple_response, parse_prepare_and_execute}
use cubrid_go.Conn.Socket.{Socket, Io, ◌>>=◌, ◌>>◌, lift, send_and_recv}

-- The fields of `conn` that the modelled methods use. The socket's state is passed beside.
pub record Conn : Type 0 where
  pub cas_info : List ℕ
  pub proto_ver : ℕ
  pub auto_commit : Bool
  pub closed : Bool

-- The loop over the digits of a text, on the 64-bit pattern of `n`. It stops at the first byte that
-- is no digit; a rune of several bytes is none either.
unfoldable pub leading_digits : ℕ → List ℕ → ℕ
leading_digits n [] = n
leading_digits n (ch ∷ rest) =
    let more = leading_digits ((n * 10 + (ch - 48)) % 2 ^ 64) rest in
    if leb 48 ch && leb ch 57 then more else n

-- `res.Rows[0][0]` by its type, and 0 for any other.
unfoldable pub id_of_rows : List (List Value) → ℤ
unfolding leading_digits
id_of_rows ((int64 v ∷ vs) ∷ rows) = v
id_of_rows ((text s ∷ vs) ∷ rows) = signed64 (leading_digits 0 s)
id_of_rows rows = pos 0

-- The error of a best-effort parse is dropped, a panic is not.
unfoldable pub ignore_error {ℓ} : {A : Type ℓ} → Result A → Result (Unit {0})
ignore_error (ok a) = ok tt
ignore_error (err e) = ok tt
ignore_error panic = panic

module _ {S : Type 0} (socket : Socket S) where
  after_close : Result (List ℕ) × S → Result (Unit {0}) × S
  after_close (ok resp, s) = (ignore_error (parse_simple_response resp), s)
  after_close (err e, s) = (ok tt, s)
  after_close (panic, s) = (panic, s)

  unfoldable pub close_query_handle : Conn → ℤ → Io S (Unit {0})
  unfolding after_close ignore_error
  close_query_handle c qh s =
      after_close (send_and_recv socket (write_close_req_handle qh c.cas_info) s)

  module _ (go : Runtime) where
    unfoldable pub exec_sql : Conn → List ℕ → Io S PrepareAndExecuteResult
    unfolding ◌>>=◌
    exec_sql c sql = do
      resp ← send_and_recv socket (write_prepare_and_execute sql c.auto_commit c.cas_info)
      lift (parse_prepare_and_execute go resp c.proto_ver)

    -- The id, and the handle closed behind it if there is one.
    close_behind : Conn → Result PrepareAndExecuteResult × S → Result ℤ × S
    unfolding ◌>>=◌ ◌>>◌
    close_behind c (ok res, s) =
        (if is_positive res.query_handle
            then (do close_query_handle c res.query_handle; lift (ok (id_of_rows res.rows)))
            else lift (ok (id_of_rows res.rows)))
          s
    close_behind c (err e, s) = (ok (pos 0), s)
    close_behind c (panic, s) = (panic, s)

    unfoldable pub fetch_last_insert_id : Conn → Io S ℤ
    unfolding close_behind exec_sql
    fetch_last_insert_id c s = close_behind c (exec_sql c (ascii "SELECT LAST_INSERT_ID()") s)
