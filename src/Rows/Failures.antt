-- ===== src/Rows/Failures.antt =====
-- rows.go: Next where the peer answers FETCH with an error, or with a count that is no count.
use cubrid_go.Prelude.{
  ℕ, ℤ, pos, negsuc, Fits, ◌<◌, ◌^◌, ltb, ◌≡◌, refl, List, [], ◌++◌, false, length, append-nil,
}
use cubrid_go.Result.{ok, err, panic}
use cubrid_go.Errors.{new_error}
use cubrid_go.Runtime.{Runtime, Value}
use cubrid_go.Packet.Reads.{Reads-bind, Reads-return, Reads-int, Reads-pure, Reads-cast, Reads-run}
use cubrid_go.Protocol.Types.{ColumnMetaData}
use cubrid_go.Protocol.Requests.{write_fetch}
use cubrid_go.Protocol.Responses.{parse_fetch, parse_fetched}
use cubrid_go.Protocol.Grammar.{int_bytes}
use cubrid_go.Protocol.Grammar.Responses.{response_bytes, error_bytes}
use cubrid_go.Protocol.Parsed.Responses.{Reads-response}
use cubrid_go.Protocol.Failures.{error_responses}
use cubrid_go.Conn.Socket.{Socket, ◌>>=◌}
use cubrid_go.Conn.Framing.{Answers, send_and_recv-Answers}
use cubrid_go.Rows.Next.{Rows, next, fetch_more, after_fetch, serve, refill}

-- A FETCH response whose count is negative is parsed to that count and no rows.
parse_fetch-negative :
    (go : Runtime) (cas rest : List ℕ) (n m : ℕ) (columns : List ColumnMetaData) (stmt_type : ℕ)
    → length cas ≡ 4
    → n < 2 ^ 31
    → Fits 31 (negsuc m)
    → parse_fetch go (response_bytes cas (pos n) (int_bytes (negsuc m)) ++ rest) columns stmt_type
      ≡ ok (record { tuple_count = negsuc m; rows = [] })
unfolding parse_fetch parse_fetched
parse_fetch-negative go cas rest n m columns stmt_type four small fits = Reads-run rest (
    Reads-response _ cas four (λ code. parse_fetched go columns stmt_type) n small
      (Reads-cast (append-nil (int_bytes (negsuc m)))
        (Reads-bind _ (Reads-int (negsuc m) fits) (Reads-return _ (Reads-pure [])))))

module _ (go : Runtime) {S : Type 0} (socket : Socket S) (r : Rows) (dest : List Value) (s s' : S)
    (opened : r.closed ≡ false) (spent : ltb r.buffer_offset (length r.buffered_rows) ≡ false)
    (going : r.exhausted ≡ false) where
  -- On open rows whose buffer is spent, and whose peer answers FETCH with an error response: Next
  -- returns the error that `newError` makes of it and leaves the rows as they are.
  pub next-error_response :
      (cas : List ℕ) (m : ℕ) (error_code : ℤ) (msg : List ℕ)
      → length cas ≡ 4
      → Fits 31 (negsuc m)
      → Fits 31 error_code
      → Answers socket s
          (write_fetch r.query_handle r.fetched_count r.fetch_size r.conn.cas_info)
          (error_bytes cas (negsuc m) error_code msg)
          s'
      → next go socket r dest s ≡ (err (new_error error_code msg), r, s')
  unfolding next after_fetch fetch_more ◌>>=◌
  next-error_response cas m error_code msg four m_fits fits a =
      let refused =
        (error_responses cas four m m_fits error_code fits msg go r.columns r.stmt_type 0) in
      rw (opened, spent, going, send_and_recv-Answers socket a, refused.7) refl

  -- On open rows whose buffer is spent, and whose peer answers FETCH with a negative count: Next
  -- panics, since it takes the first of no rows.
  pub next-negative_count :
      (cas rest : List ℕ) (n m : ℕ)
      → length cas ≡ 4
      → n < 2 ^ 31
      → Fits 31 (negsuc m)
      → Answers socket s
          (write_fetch r.query_handle r.fetched_count r.fetch_size r.conn.cas_info)
          (response_bytes cas (pos n) (int_bytes (negsuc m)) ++ rest)
          s'
      → (next go socket r dest s).0 ≡ panic
  unfolding next after_fetch fetch_more ◌>>=◌ serve refill
  next-negative_count cas rest n m four small fits a =
      rw
        (
          opened,
          spent,
          going,
          send_and_recv-Answers socket a,
          parse_fetch-negative go cas rest n m r.columns r.stmt_type four small fits,
        )
        refl
