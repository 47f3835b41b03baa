-- ===== src/Rows/Drain.antt =====
-- A result set that is read to its end, against a peer that answers each FETCH with the next rows.
use cubrid_go.Prelude.{
  ℕ, pos, suc, ◌+◌, ◌≤◌, ◌<◌, ◌^◌, ◌==◌, ltb, ◌≡◌, refl, sym, ◌∙◌, List, [], ◌∷◌, ◌++◌, false, some,
  length, drop, drop-get_elem, drop-all, arith, All, length-map,
}
use cubrid_go.Result.{ok, err, eof}
use cubrid_go.Runtime.{Runtime, Value, KeepsCivil}
use cubrid_go.Constants.{stmt_call_sp}
use cubrid_go.Protocol.Types.{PrepareAndExecuteResult}
use cubrid_go.Protocol.Requests.{write_fetch}
use cubrid_go.Protocol.Grammar.Rows.{WireRow, RowFits, row_values}
use cubrid_go.Protocol.Grammar.Responses.{
  response_bytes, rows_bytes, values_of, metas, WireExecution, WireInline, execution_result,
}
use cubrid_go.Protocol.RoundTrip.{fetch_reads_back}
use cubrid_go.Conn.Socket.{Socket, ◌>>=◌}
use cubrid_go.Conn.Framing.{Answers, send_and_recv-Answers}
use cubrid_go.Conn.Helpers.{Conn}
use cubrid_go.Rows.Next.{Rows, fetch_more, next, query_rows}
use cubrid_go.Rows.Steps.{
  Cursor, open_rows, next-buffered, next-fetched, next-ended, length-CellsFit, exhausted_test,
}

abbrev pub total_rows : List (List WireRow) → ℕ
total_rows [] = 0
total_rows (rows ∷ more) = length rows + total_rows more

unfoldable pub concat_values : Runtime → List (List WireRow) → List (List Value)
concat_values go [] = []
concat_values go (rows ∷ more) = values_of go rows ++ concat_values go more

module _ (go : Runtime) (keeps : KeepsCivil go) {S : Type 0} (socket : Socket S) (q : Cursor) where
  -- From a state on, and with so many rows fetched, the peer answers FETCH by FETCH with these
  -- batches of rows, none of them empty.
  pub data Serves : S → ℕ → List (List WireRow) → Type 0 where
    no_more : {s : S} {fetched : ℕ} → Serves s fetched []
    batch :
        {s s' : S} {fetched : ℕ} {more : List (List WireRow)} (row : WireRow) (rows : List WireRow)
        (cas rest : List ℕ) (n : ℕ)
        → length cas ≡ 4
        → n < 2 ^ 31
        → suc (length rows) < 2 ^ 31
        → All (RowFits (q.stmt_type == stmt_call_sp) q.columns) (row ∷ rows)
        → Answers socket s
            (write_fetch q.query_handle (pos fetched) q.fetch_size q.conn.cas_info)
            (response_bytes cas (pos n) (rows_bytes q.stmt_type q.columns (row ∷ rows)) ++ rest)
            s'
        → Serves s' (suc (length rows) + fetched) more
        → Serves s fetched ((row ∷ rows) ∷ more)

  module _ (dest : List Value) where
    -- Reading row by row into `dest` gives exactly these rows, and the end behind the last.
    pub data Delivers : Rows → S → List (List Value) → Type 0 where
      at_end :
          {r r' : Rows} {s s' : S} → next go socket r dest s ≡ (err eof, r', s') → Delivers r s []
      one_row :
          {r r' : Rows} {s s' : S} {vs : List (List Value)} (v : List Value)
          → next go socket r dest s ≡ (ok v, r', s')
          → Delivers r' s' vs
          → Delivers r s (v ∷ vs)

    AllWide : List (List Value) → Type 0
    AllWide = All (λ v. length dest ≡ length v)

    Delivers-buffer :
        (buffer rest vs : List (List Value)) (k fetched : ℕ) (s : S)
        → drop k buffer ≡ rest
        → k ≤ length buffer
        → AllWide rest
        → Delivers (open_rows q buffer (length buffer) fetched) s vs
        → Delivers (open_rows q buffer k fetched) s (rest ++ vs)
    unfolding AllWide
    Delivers-buffer buffer [] vs k fetched s at le wide d = rw (drop-all k buffer at le) d
    Delivers-buffer buffer (v ∷ rest) vs k fetched s at le wide d =
        let (found, left, inside) = drop-get_elem k buffer rest v at in
        one_row v (next-buffered go socket q dest buffer k fetched s v found inside wide.0)
          (Delivers-buffer buffer rest vs (suc k) fetched s left inside wide.1 d)

    fetch_more-Answers :
        (buffer : List (List Value)) (k fetched : ℕ) (s s' : S) (rows : List WireRow)
        (cas rest : List ℕ) (n : ℕ)
        → length cas ≡ 4
        → n < 2 ^ 31
        → 0 < length q.columns
        → length rows < 2 ^ 31
        → All (RowFits (q.stmt_type == stmt_call_sp) q.columns) rows
        → Answers socket s
            (write_fetch q.query_handle (pos fetched) q.fetch_size q.conn.cas_info)
            (response_bytes cas (pos n) (rows_bytes q.stmt_type q.columns rows) ++ rest)
            s'
        → fetch_more go socket (open_rows q buffer k fetched) s
          ≡ (ok (record { tuple_count = pos (length rows); rows = values_of go rows }), s')
    unfolding fetch_more ◌>>=◌
    fetch_more-Answers buffer k fetched s s' rows cas rest n four small some_columns few fits a =
        rw
          (
            send_and_recv-Answers socket a,
            fetch_reads_back go keeps cas four n small rest q.columns q.stmt_type rows some_columns
                few fits,
          )
          refl

    row-Wide :
        (row : WireRow)
        → length dest ≡ length q.columns
        → RowFits (q.stmt_type == stmt_call_sp) q.columns row
        → length dest ≡ length (row_values go row)
    row-Wide row wide fits =
        wide
        ∙ length-CellsFit (q.stmt_type == stmt_call_sp) q.columns row.cells fits.cells_fit
        ∙ sym (length-map row.cells _)

    rows-AllWide :
        (rows : List WireRow)
        → length dest ≡ length q.columns
        → All (RowFits (q.stmt_type == stmt_call_sp) q.columns) rows
        → AllWide (values_of go rows)
    unfolding AllWide
    rows-AllWide [] wide fits = tt
    rows-AllWide (row ∷ rows) wide fits = (row-Wide row wide fits.0, rows-AllWide rows wide fits.1)

    -- From a spent buffer on, the batches that the peer still has, and then the end.
    Delivers-batches :
        (buffer : List (List Value)) (fetched : ℕ) (s : S) (batches : List (List WireRow))
        → 0 < length q.columns
        → length dest ≡ length q.columns
        → Serves s fetched batches
        → fetched + total_rows batches ≡ q.total
        → Delivers (open_rows q buffer (length buffer) fetched) s (concat_values go batches)
    unfolding concat_values
    Delivers-batches buffer fetched s [] some_columns wide serves sum =
        at_end (next-ended go socket q dest buffer fetched s (ground arith))
    Delivers-batches buffer fetched s ((row ∷ rows) ∷ more) some_columns wide
          (batch {s' = s'} _ _ cas rest n four small few fits a serves) sum =
        let v = row_values go row in
        let vs = values_of go rows in
        let answer =
          fetch_more-Answers buffer (length buffer) fetched s s' (row ∷ rows) cas rest n four small
            some_columns few fits a in
        one_row v
          (next-fetched go socket q dest buffer fetched (length rows) s s' v vs (omega arith) answer
            (row-Wide row wide fits.0))
          (Delivers-buffer (v ∷ vs) vs (concat_values go more) 1 (suc (length rows) + fetched) s'
            refl (omega arith) (rows-AllWide rows wide fits.1)
            (Delivers-batches (v ∷ vs) (suc (length rows) + fetched) s' more some_columns wide
              serves (omega arith)))
    Delivers-batches buffer fetched s ([] ∷ more) some_columns wide serves sum = elim serves [ ]

    Delivers-open :
        (first : List WireRow) (s : S) (batches : List (List WireRow))
        → 0 < length q.columns
        → length dest ≡ length q.columns
        → All (RowFits (q.stmt_type == stmt_call_sp) q.columns) first
        → Serves s (length first) batches
        → length first + total_rows batches ≡ q.total
        → Delivers
            (open_rows q (values_of go first) 0 (length first))
            s
            (values_of go first ++ concat_values go batches)
    Delivers-open first s batches some_columns wide fits serves sum =
        Delivers-buffer (values_of go first) (values_of go first) (concat_values go batches) 0
          (length first) s refl (omega arith) (rows-AllWide first wide fits)
          (Delivers-batches (values_of go first) (length first) s batches some_columns wide serves
            sum)

-- The result set of a SELECT that a PREPARE_AND_EXECUTE response answers.
abbrev pub answered : Runtime → ℕ → ℕ → WireExecution → WireInline → PrepareAndExecuteResult
answered go n total w i =
    execution_result go (pos n) (record w { total = pos total; inline = some i })

abbrev pub cursor_of : Conn → ℕ → ℕ → WireExecution → Cursor
cursor_of c n total w = record {
  conn = c;
  query_handle = pos n;
  columns = metas w.prepared.columns;
  stmt_type = w.prepared.statement_type;
  total = total;
  fetch_size = pos 100;
  close_handle = ltb 0 n;
}

query_rows-open :
    (go : Runtime) (c : Conn) (n total : ℕ) (w : WireExecution) (i : WireInline)
    → 0 < length i.rows
    → query_rows c (answered go n total w i)
      ≡ open_rows (cursor_of c n total w) (values_of go i.rows) 0 (length i.rows)
unfolding query_rows
query_rows-open go c n total w i some_rows =
    let counted : (length i.rows == 0) ≡ false = ground arith in
    rw (counted, length-map i.rows (row_values go), exhausted_test total (length i.rows)) refl

-- The rows that `QueryContext` makes of a response with at least one row inline, with columns, and a
-- peer that answers each FETCH with the next batch of rows, none of them empty, until the total is
-- reached: reading row by row into as many places as there are columns gives every row of the
-- result set once and in order, and then the end.
pub query_rows-Delivers :
    (go : Runtime) (keeps : KeepsCivil go) {S : Type 0} (socket : Socket S) (c : Conn) (n total : ℕ)
    (w : WireExecution) (i : WireInline) (dest : List Value) (s : S) (batches : List (List WireRow))
    → 0 < length i.rows
    → 0 < length (metas w.prepared.columns)
    → length dest ≡ length (metas w.prepared.columns)
    → All (RowFits (w.prepared.statement_type == stmt_call_sp) (metas w.prepared.columns)) i.rows
    → Serves go keeps socket (cursor_of c n total w) s (length i.rows) batches
    → length i.rows + total_rows batches ≡ total
    → Delivers go keeps socket
        (cursor_of c n total w)
        dest
        (query_rows c (answered go n total w i))
        s
        (values_of go i.rows ++ concat_values go batches)
query_rows-Delivers go keeps socket c n total w i dest s batches some_rows some_columns wide fits
      serves sum =
    rw (query_rows-open go c n total w i some_rows) (
      Delivers-open go keeps socket (cursor_of c n total w) dest i.rows s batches some_columns wide
        fits serves sum)
