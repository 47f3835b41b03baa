-- ===== src/Rows/Next.antt =====
-- rows.go: Next, fillDest, Close and Columns. An operation returns the rows and the socket's state
-- that it leaves, also where it fails.
use cubrid_go.Prelude.{
  ℕ, ℤ, pos, negsuc, suc, ◌+ℤ◌, ltb_ℤ, ltb, ◌==◌, ◌&&◌, ◌||◌, if◌then◌else◌, List, [], ◌∷◌, Bool,
  true, false, map, length, get_elem?, none, some, is_positive,
}
use cubrid_go.Result.{Result, ok, err, panic, eof}
use cubrid_go.Runtime.{Runtime, Value}
use cubrid_go.Protocol.Types.{ColumnMetaData, FetchResult, PrepareAndExecuteResult}
use cubrid_go.Protocol.Requests.{write_fetch}
use cubrid_go.Protocol.Responses.{parse_fetch}
use cubrid_go.Conn.Socket.{Socket, Io, ◌>>=◌, lift, send_and_recv}
use cubrid_go.Conn.Helpers.{Conn, close_query_handle}

pub record Rows : Type 0 where
  pub conn : Conn
  pub query_handle : ℤ
  pub columns : List ColumnMetaData
  pub stmt_type : ℕ
  pub total_count : ℤ
  pub fetched_count : ℤ
  pub buffered_rows : List (List Value)
  pub buffer_offset : ℕ
  pub exhausted : Bool
  pub fetch_size : ℤ
  pub closed : Bool
  pub close_handle : Bool

unfoldable pub column_names : Rows → List (List ℕ)
column_names r = map (λ c. c.name) r.columns

-- `dest[i] = v` for every value that has a place; each case of the source's switch assigns `v`.
unfoldable pub copy_row : List Value → List Value → List Value
copy_row dest [] = dest
copy_row [] (v ∷ vs) = []
copy_row (d ∷ dest) (v ∷ vs) = v ∷ copy_row dest vs

-- What an operation leaves: its result, the rows and the socket.
abbrev pub Outcome {ℓ} : Type 0 → Type ℓ → Type ℓ
Outcome S A = Result A × Rows × S

unfoldable pub fill_dest :
    {S : Type 0} → Rows → List Value → List Value → S → Outcome S (List Value)
unfolding copy_row
fill_dest r dest row s =
    (ok (copy_row dest row), record r { buffer_offset = suc r.buffer_offset }, s)

-- `fillDest(dest, bufferedRows[bufferOffset])`; an index out of range panics.
unfoldable pub serve : {S : Type 0} → Rows → List Value → S → Outcome S (List Value)
unfolding fill_dest
serve r dest s = elim (get_elem? r.buffered_rows r.buffer_offset) [
  | some row ↦ fill_dest r dest row s
  | none ↦ (panic, r, s)
]

-- A FETCH result with rows becomes the buffer.
unfoldable pub refill : Rows → FetchResult → Rows
refill r res =
    let fetched = r.fetched_count +ℤ res.tuple_count in
    record r {
      buffered_rows = res.rows;
      buffer_offset = 0;
      fetched_count = fetched;
      exhausted = if ltb_ℤ fetched r.total_count then r.exhausted else true;
    }

abbrev pub is_zero : ℤ → Bool
is_zero (pos n) = n == 0
is_zero (negsuc n) = false

-- conn.go, QueryContext: the rows of a result, which own its handle.
unfoldable pub query_rows : Conn → PrepareAndExecuteResult → Rows
query_rows c res =
    let fetched = pos (length res.rows) in
    record {
      conn = c;
      query_handle = res.query_handle;
      columns = res.columns;
      stmt_type = res.statement_type;
      total_count = res.total_tuple_count;
      fetched_count = fetched;
      buffered_rows = res.rows;
      buffer_offset = 0;
      exhausted =
          is_zero res.tuple_count || (if ltb_ℤ fetched res.total_tuple_count then false else true);
      fetch_size = pos 100;
      closed = false;
      close_handle = is_positive res.query_handle;
    }

unfoldable pub after_fetch :
    {S : Type 0} → Rows → List Value → Result FetchResult × S → Outcome S (List Value)
unfolding refill serve
after_fetch r dest (ok res, s) =
    if is_zero res.tuple_count
    then (err eof, record r { exhausted = true }, s)
    else serve (refill r res) dest s
after_fetch r dest (err e, s) = (err e, r, s)
after_fetch r dest (panic, s) = (panic, r, s)

module _ (go : Runtime) {S : Type 0} (socket : Socket S) where
  unfoldable pub fetch_more : Rows → Io S FetchResult
  unfolding ◌>>=◌
  fetch_more r = do
    resp ←
        send_and_recv socket
          (write_fetch r.query_handle r.fetched_count r.fetch_size r.conn.cas_info)
    lift (parse_fetch go resp r.columns r.stmt_type)

  unfoldable pub next : Rows → List Value → S → Outcome S (List Value)
  unfolding serve fetch_more after_fetch
  next r dest s =
      if r.closed
      then (err eof, r, s)
      else if ltb r.buffer_offset (length r.buffered_rows)
      then serve r dest s
      else if r.exhausted
      then (err eof, r, s)
      else after_fetch r dest (fetch_more r s)

  unfoldable pub after_handle : Rows → Result (Unit {0}) × S → Outcome S (Unit {0})
  after_handle r (ok u, s) = (ok tt, record r { query_handle = pos 0 }, s)
  after_handle r (err e, s) = (ok tt, record r { query_handle = pos 0 }, s)
  after_handle r (panic, s) = (panic, r, s)

  unfoldable pub close : Rows → S → Outcome S (Unit {0})
  unfolding after_handle
  close r s =
      if r.closed
      then (ok tt, r, s)
      else if r.close_handle && is_positive r.query_handle
      then after_handle (record r { closed = true })
          (close_query_handle socket r.conn r.query_handle s)
      else (ok tt, record r { closed = true }, s)
