-- ===== src/Protocol/Grammar/Rows.antt =====
-- Cells and rows on the wire. `none` is NULL. A cell is tagged where its type comes with it: in the
-- rows of a stored procedure call, and in a column of type NULL.
use cubrid_go.Prelude.{
  ℕ, ℤ, pos, Fits, ◌+◌, ◌==◌, ◌||◌, ◌≡◌, List, [], ◌∷◌, ◌++◌, Bool, true, false, length, Option,
  none, some, map,
}
use cubrid_go.Runtime.{Runtime, Value, nil}
use cubrid_go.Constants.DataType
use cubrid_go.Protocol.Types.{ColumnMetaData}
use cubrid_go.Protocol.Grammar.{
  int_bytes, Field, field_type, field_size, field_bytes, field_value, FieldFits,
}

abbrev pub cell_value : Runtime → Option Field → Value
cell_value go none = nil
cell_value go (some f) = field_value go f

abbrev pub is_tagged : Bool → ColumnMetaData → Bool
is_tagged is_call col = is_call || (col.column_type == DataType.null)

unfoldable pub cell_bytes : Bool → Option Field → List ℕ
cell_bytes tagged none = int_bytes (pos 0)
cell_bytes true (some f) =
    int_bytes (pos (field_size f + 1)) ++ ((field_type f ∷ []) ++ field_bytes f)
cell_bytes false (some f) = int_bytes (pos (field_size f)) ++ field_bytes f

-- Without a tag the field is of the column's type.
abbrev pub CellFits : Bool → ColumnMetaData → Option Field → Type 0
CellFits tagged col none = Unit
CellFits true col (some f) = FieldFits f
CellFits false col (some f) = FieldFits f × (col.column_type ≡ field_type f)

-- One cell for each column.
abbrev pub CellsFit : Bool → List ColumnMetaData → List (Option Field) → Type 0
CellsFit is_call [] [] = Unit
CellsFit is_call (col ∷ cols) (c ∷ cs) =
    CellFits (is_tagged is_call col) col c × CellsFit is_call cols cs
CellsFit is_call _ _ = ⊥

unfoldable pub cells_bytes : Bool → List ColumnMetaData → List (Option Field) → List ℕ
cells_bytes is_call (col ∷ cols) (c ∷ cs) =
    cell_bytes (is_tagged is_call col) c ++ cells_bytes is_call cols cs
cells_bytes is_call _ _ = []

pub record WireRow : Type 0 where
  pub index : ℤ
  pub oid : List ℕ
  pub cells : List (Option Field)

pub record RowFits (is_call : Bool) (columns : List ColumnMetaData) (r : WireRow) : Type 0 where
  pub index_fits : Fits 31 r.index
  pub oid_length : length r.oid ≡ 8
  pub cells_fit : CellsFit is_call columns r.cells

unfoldable pub row_bytes : Bool → List ColumnMetaData → WireRow → List ℕ
row_bytes is_call columns r = int_bytes r.index ++ (r.oid ++ cells_bytes is_call columns r.cells)

abbrev pub row_values : Runtime → WireRow → List Value
row_values go r = map (cell_value go) r.cells
