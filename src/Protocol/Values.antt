-- ===== src/Protocol/Values.antt =====
-- protocol.go: readValue and parseRowData.
use cubrid_go.Prelude.{
  ℕ, ℤ, pos, negsuc, ◌==◌, ◌||◌, if◌then◌else◌, List, [], ◌∷◌, Bool, is_positive, not, ◌-ℤ◌,
}
use cubrid_go.Runtime.{Runtime, Value, nil, int64, float64, text, blob, time}
use cubrid_go.Constants.{size_oid, stmt_call_sp}
use cubrid_go.Constants.DataType
use cubrid_go.Packet.Reader.{
  Parser, ◌>>=◌, ◌>>◌, pure, abort, parse_byte, parse_short, parse_int, parse_long, parse_float,
  parse_double, parse_raw_bytes, parse_null_term_string, parse_date, parse_time, parse_datetime,
  parse_timestamp,
}
use cubrid_go.Protocol.Types.{ColumnMetaData}
use cubrid_go.Protocol.Tables.{repeat}

module _ (go : Runtime) where
  unfoldable pub read_value : ℕ → ℤ → Parser Value
  read_value t size =
      if (t == DataType.char)
        || (t == DataType.string)
        || (t == DataType.nchar)
        || (t == DataType.var_nchar)
        || (t == DataType.enum)
      then (do s ← parse_null_term_string size; pure (text s))
      else if t == DataType.short
      then (do v ← parse_short; pure (int64 v))
      else if t == DataType.int
      then (do v ← parse_int; pure (int64 v))
      else if t == DataType.big_int
      then (do v ← parse_long; pure (int64 v))
      else if t == DataType.float
      then (do v ← parse_float; pure (float64 (go.widen v)))
      else if (t == DataType.double) || (t == DataType.monetary)
      then (do v ← parse_double; pure (float64 v))
      else if t == DataType.numeric
      then (do s ← parse_null_term_string size; pure (text s))
      else if t == DataType.date
      then (do v ← parse_date go; pure (time v))
      else if t == DataType.time
      then (do v ← parse_time go; pure (time v))
      else if t == DataType.datetime
      then (do v ← parse_datetime go; pure (time v))
      else if t == DataType.timestamp
      then (do v ← parse_timestamp go; pure (time v))
      else if (t == DataType.bit) || (t == DataType.var_bit)
      then (do v ← parse_raw_bytes size; pure (blob v))
      else if (t == DataType.blob) || (t == DataType.clob)
      then (do v ← parse_raw_bytes size; pure (blob v))
      else if t == DataType.null
      then pure nil
      else do v ← parse_raw_bytes size; pure (blob v)

  -- The value of `size` bytes: behind a type byte of its own where `tagged` holds.
  unfoldable pub parse_sized_value : Bool → ℕ → ℤ → Parser Value
  unfolding read_value
  parse_sized_value tagged col_type size =
      if tagged
      then (do
        own_type ← parse_byte
        if not (is_positive (size -ℤ pos 1)) then pure nil else read_value own_type (size -ℤ pos 1))
      else read_value col_type size

  unfoldable pub parse_cell : Bool → ColumnMetaData → Parser Value
  unfolding parse_sized_value
  parse_cell is_call_type col = do
    size ← parse_int
    if not (is_positive size)
        then pure nil
        else parse_sized_value (is_call_type || (col.column_type == DataType.null)) col.column_type
            size

  -- `for j, col := range columns`
  unfoldable pub parse_cells : Bool → List ColumnMetaData → Parser (List Value)
  unfolding parse_cell
  parse_cells is_call_type [] = pure []
  parse_cells is_call_type (col ∷ cols) = do
    v ← parse_cell is_call_type col
    vs ← parse_cells is_call_type cols
    pure (v ∷ vs)

  unfoldable pub parse_row : Bool → List ColumnMetaData → Parser (List Value)
  unfolding parse_cells
  parse_row is_call_type columns = do
    parse_int
    parse_raw_bytes (pos size_oid)
    parse_cells is_call_type columns

  unfoldable pub parse_row_data : ℤ → List ColumnMetaData → ℕ → Parser (List (List Value))
  unfolding parse_row repeat
  parse_row_data (pos tuple_count) columns stmt_type =
      repeat tuple_count (parse_row (stmt_type == stmt_call_sp) columns)
  parse_row_data (negsuc n) columns stmt_type = abort
