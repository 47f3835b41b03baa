-- ===== src/Protocol/Parsed/Rows.antt =====
-- Cells and rows.
use mathlib.Core.Path.{subst}
use cubrid_go.Prelude.{
  ℕ, pos, ◌<◌, ◌+◌, ◌^◌, ◌==◌, ◌≡◌, refl, List, [], ◌∷◌, ◌++◌, Bool, true, false, length, arith,
  Option, none, some, map, All, is_positive, ◌-ℤ◌, not, append-nil,
}
use cubrid_go.Runtime.{Runtime, KeepsCivil, nil}
use cubrid_go.Constants.{stmt_call_sp}
use cubrid_go.Packet.Reader.{parse_raw_bytes}
use cubrid_go.Packet.Reads.{
  Reads, Reads-bind, Reads-return, Reads-pure, Reads-cast, Reads-byte, Reads-int, Reads-raw_bytes,
}
use cubrid_go.Protocol.Types.{ColumnMetaData}
use cubrid_go.Protocol.Values.{
  parse_sized_value, parse_cell, parse_cells, parse_row, parse_row_data,
}
use cubrid_go.Protocol.Grammar.{
  Field, FieldFits, field_size, field_type, field_bytes, field_value, concat_bytes, text_field,
  raw_field,
}
use cubrid_go.Protocol.Grammar.Rows.{
  cell_value, is_tagged, cell_bytes, CellFits, CellsFit, cells_bytes, WireRow, RowFits, row_bytes,
  row_values,
}
use cubrid_go.Protocol.Parsed.Tables.{Reads-repeat, All-map}
use cubrid_go.Protocol.Parsed.Values.{values_read_back}

field_size_bounds : (f : Field) → FieldFits f → (0 < field_size f) × (field_size f + 1 < 2 ^ 31)
field_size_bounds (text_field t s) h = omega arith
field_size_bounds (raw_field t bs) h = omega arith
field_size_bounds _ h = omega arith

size_less_tag : (n : ℕ) → pos (n + 1) -ℤ pos 1 ≡ pos n
unfolding ◌-ℤ◌
size_less_tag n = ground arith

module _ (go : Runtime) (keeps : KeepsCivil go) where
  -- The value behind its size, under the two settings of the tag.
  Reads-tagged :
      (t : ℕ) (f : Field)
      → FieldFits f
      → Reads
          (parse_sized_value go true t (pos (field_size f + 1)))
          ((field_type f ∷ []) ++ field_bytes f)
          (field_value go f)
  unfolding parse_sized_value
  Reads-tagged t f h =
      let positive : not (is_positive (pos (field_size f))) ≡ false =
        ground (arith, (field_size_bounds f h).0) in
      Reads-bind _ (Reads-byte (field_type f))
        (rw (size_less_tag (field_size f), positive) (values_read_back go keeps f h))

  Reads-cell :
      (is_call : Bool) (col : ColumnMetaData) (tagged : Bool) (c : Option Field)
      → is_tagged is_call col ≡ tagged
      → CellFits tagged col c
      → Reads (parse_cell go is_call col) (cell_bytes tagged c) (cell_value go c)
  unfolding parse_cell cell_bytes
  Reads-cell is_call col tagged none e h =
      Reads-cast (append-nil _) (Reads-bind _ (Reads-int (pos 0) (omega arith)) (Reads-pure nil))
  Reads-cell is_call col true (some f) e h =
      let (low, high) = field_size_bounds f h in
      let positive : not (is_positive (pos (field_size f + 1))) ≡ false = ground arith in
      Reads-bind _ (Reads-int (pos (field_size f + 1)) high)
        (rw (positive, e) (Reads-tagged col.column_type f h))
  Reads-cell is_call col false (some f) e (h, t) =
      let (low, high) = field_size_bounds f h in
      let positive : not (is_positive (pos (field_size f))) ≡ false = ground arith in
      Reads-bind _ (Reads-int (pos (field_size f)) (omega arith))
        (rw (positive, e) (unfold parse_sized_value in rw t (values_read_back go keeps f h)))

  pub Reads-cells :
      (is_call : Bool) (cols : List ColumnMetaData) (cs : List (Option Field))
      → CellsFit is_call cols cs
      → Reads (parse_cells go is_call cols) (cells_bytes is_call cols cs) (map (cell_value go) cs)
  unfolding parse_cells cells_bytes
  Reads-cells is_call [] [] h = Reads-pure []
  Reads-cells is_call [] (c ∷ cs) h = absurd h
  Reads-cells is_call (col ∷ cols) [] h = absurd h
  Reads-cells is_call (col ∷ cols) (c ∷ cs) h =
      Reads-bind _ (Reads-cell is_call col (is_tagged is_call col) c refl h.0)
        (Reads-return (λ vs. cell_value go c ∷ vs) (Reads-cells is_call cols cs h.1))

  Reads-row :
      (is_call : Bool) (columns : List ColumnMetaData) (r : WireRow)
      → RowFits is_call columns r
      → Reads (parse_row go is_call columns) (row_bytes is_call columns r) (row_values go r)
  unfolding parse_row row_bytes
  Reads-row is_call columns r h =
      let oid : Reads (parse_raw_bytes (pos 8)) r.oid r.oid =
        subst (λ (n : ℕ). Reads (parse_raw_bytes (pos n)) r.oid r.oid) h.oid_length
          (Reads-raw_bytes r.oid) in
      Reads-bind _ (Reads-int r.index h.index_fits)
        (Reads-bind _ oid (Reads-cells is_call columns r.cells h.cells_fit))

  -- Any list of rows in the grammar, with NULL cells and, in the rows of a stored procedure call or
  -- under a column of type NULL, cells that carry their own type, is read back in order and takes
  -- exactly its bytes; a SET, MULTISET or SEQUENCE is read as its bytes on the wire.
  pub rows_read_back :
      (columns : List ColumnMetaData) (stmt_type : ℕ) (rows : List WireRow)
      → All (RowFits (stmt_type == stmt_call_sp) columns) rows
      → Reads
          (parse_row_data go (pos (length rows)) columns stmt_type)
          (concat_bytes (row_bytes (stmt_type == stmt_call_sp) columns) rows)
          (map (row_values go) rows)
  unfolding parse_row_data
  rows_read_back columns stmt_type rows h =
      let is_call = stmt_type == stmt_call_sp in
      Reads-repeat (parse_row go is_call columns) (row_bytes is_call columns) (row_values go) rows
        (All-map (Reads-row is_call columns) rows h)
