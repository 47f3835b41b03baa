-- ===== src/Rows/Steps.antt =====
-- One call of Next on rows that are open: from the buffer, after a FETCH, and at the end.
use cubrid_go.Prelude.{
  ℕ, ℤ, pos, suc, ◌+◌, ◌<◌, ◌==◌, ltb, leb, ltb_ℤ, ◌+ℤ◌, if◌then◌else◌, ◌≡◌, refl, ap, List, [],
  ◌∷◌, Bool, true, false, some, length, get_elem?, arith, Option,
}
use cubrid_go.Result.{ok, err, eof}
use cubrid_go.Runtime.{Runtime, Value}
use cubrid_go.Protocol.Types.{ColumnMetaData}
use cubrid_go.Protocol.Grammar.{Field}
use cubrid_go.Protocol.Grammar.Rows.{CellsFit}
use cubrid_go.Conn.Socket.{Socket}
use cubrid_go.Conn.Helpers.{Conn}
use cubrid_go.Rows.Next.{Rows, copy_row, fill_dest, serve, refill, after_fetch, fetch_more, next}

pub copy_row-all : (dest row : List Value) → length dest ≡ length row → copy_row dest row ≡ row
unfolding copy_row
copy_row-all [] [] h = refl
copy_row-all [] (v ∷ vs) h = absurd (omega (arith, h))
copy_row-all (d ∷ dest) [] h = absurd (omega (arith, h))
copy_row-all (d ∷ dest) (v ∷ vs) h = ap (λ t. v ∷ t) (copy_row-all dest vs (omega (arith, h)))

pub length-CellsFit :
    (is_call : Bool) (columns : List ColumnMetaData) (cells : List (Option Field))
    → CellsFit is_call columns cells
    → length columns ≡ length cells
length-CellsFit is_call [] [] h = refl
length-CellsFit is_call (col ∷ cols) (c ∷ cs) h = ap suc (length-CellsFit is_call cols cs h.1)
length-CellsFit is_call [] (c ∷ cs) h = absurd h
length-CellsFit is_call (col ∷ cols) [] h = absurd h

sum_of_counts : (fetched m : ℕ) → pos fetched +ℤ pos (suc m) ≡ pos (suc m + fetched)
unfolding ◌+ℤ◌
sum_of_counts fetched m = ground arith

pub exhausted_test :
    (total fetched : ℕ)
    → (if ltb_ℤ (pos fetched) (pos total) then false else true) ≡ leb total fetched
exhausted_test total fetched = ground arith

-- What does not change while a result set is read.
pub record Cursor : Type 0 where
  pub conn : Conn
  pub query_handle : ℤ
  pub columns : List ColumnMetaData
  pub stmt_type : ℕ
  pub total : ℕ
  pub fetch_size : ℤ
  pub close_handle : Bool

-- Rows that are open, with a buffer read up to an offset.
abbrev pub open_rows : Cursor → List (List Value) → ℕ → ℕ → Rows
open_rows q buffer offset fetched = record {
  conn = q.conn;
  query_handle = q.query_handle;
  columns = q.columns;
  stmt_type = q.stmt_type;
  total_count = pos q.total;
  fetched_count = pos fetched;
  buffered_rows = buffer;
  buffer_offset = offset;
  exhausted = leb q.total fetched;
  fetch_size = q.fetch_size;
  closed = false;
  close_handle = q.close_handle;
}

module _ (go : Runtime) {S : Type 0} (socket : Socket S) (q : Cursor) (dest : List Value) where
  pub next-buffered :
      (buffer : List (List Value)) (k fetched : ℕ) (s : S) (v : List Value)
      → get_elem? buffer k ≡ some v
      → k < length buffer
      → length dest ≡ length v
      → next go socket (open_rows q buffer k fetched) dest s
        ≡ (ok v, open_rows q buffer (suc k) fetched, s)
  unfolding next serve fill_dest
  next-buffered buffer k fetched s v found inside wide =
      let test : ltb k (length buffer) ≡ true = ground arith in
      rw (test, found, copy_row-all dest v wide) refl

  -- After the buffer, the first row of the next batch.
  pub next-fetched :
      (buffer : List (List Value)) (fetched m : ℕ) (s s' : S) (v : List Value)
      (vs : List (List Value))
      → fetched < q.total
      → fetch_more go socket (open_rows q buffer (length buffer) fetched) s
        ≡ (ok (record { tuple_count = pos (suc m); rows = v ∷ vs }), s')
      → length dest ≡ length v
      → next go socket (open_rows q buffer (length buffer) fetched) dest s
        ≡ (ok v, open_rows q (v ∷ vs) 1 (suc m + fetched), s')
  unfolding next serve fill_dest after_fetch refill
  next-fetched buffer fetched m s s' v vs more answer wide =
      let spent : ltb (length buffer) (length buffer) ≡ false = ground arith in
      let going : leb q.total fetched ≡ false = ground arith in
      let some_rows : (suc m == 0) ≡ false = ground arith in
      rw
        (
          spent,
          going,
          answer,
          copy_row-all dest v wide,
          some_rows,
          sum_of_counts fetched m,
          exhausted_test q.total (suc m + fetched),
        )
        refl

  pub next-ended :
      (buffer : List (List Value)) (fetched : ℕ) (s : S)
      → leb q.total fetched ≡ true
      → next go socket (open_rows q buffer (length buffer) fetched) dest s
        ≡ (err eof, open_rows q buffer (length buffer) fetched, s)
  unfolding next
  next-ended buffer fetched s done =
      let spent : ltb (length buffer) (length buffer) ≡ false = ground arith in
      rw (spent, done) refl
