-- ===== src/Rows/TypeName.antt =====
-- rows.go: ColumnTypeDatabaseTypeName.
use cubrid_go.Prelude.{
  ℕ, ℤ, pos, negsuc, ◌==◌, if◌then◌else◌, List, [], ascii, get_elem?, Option, none, some,
}
use cubrid_go.Constants.DataType
use cubrid_go.Protocol.Types.{ColumnMetaData}
use cubrid_go.Rows.Next.{Rows}

-- The switch on the column type.
unfoldable pub type_name : ℕ → List ℕ
type_name t =
    if t == DataType.char
    then ascii "CHAR"
    else if t == DataType.string
    then ascii "VARCHAR"
    else if t == DataType.nchar
    then ascii "NCHAR"
    else if t == DataType.var_nchar
    then ascii "NVARCHAR"
    else if t == DataType.short
    then ascii "SMALLINT"
    else if t == DataType.int
    then ascii "INTEGER"
    else if t == DataType.big_int
    then ascii "BIGINT"
    else if t == DataType.float
    then ascii "FLOAT"
    else if t == DataType.double
    then ascii "DOUBLE"
    else if t == DataType.monetary
    then ascii "MONETARY"
    else if t == DataType.numeric
    then ascii "NUMERIC"
    else if t == DataType.date
    then ascii "DATE"
    else if t == DataType.time
    then ascii "TIME"
    else if t == DataType.timestamp
    then ascii "TIMESTAMP"
    else if t == DataType.datetime
    then ascii "DATETIME"
    else if t == DataType.bit
    then ascii "BIT"
    else if t == DataType.var_bit
    then ascii "BIT VARYING"
    else if t == DataType.blob
    then ascii "BLOB"
    else if t == DataType.clob
    then ascii "CLOB"
    else if t == DataType.enum
    then ascii "ENUM"
    else if t == DataType.null
    then ascii "NULL"
    else ascii "UNKNOWN"

-- The name for a column that is there.
abbrev pub name_at : Option ColumnMetaData → List ℕ
unfolding type_name
name_at (some column) = type_name column.column_type
name_at none = []

unfoldable pub column_type_database_type_name : Rows → ℤ → List ℕ
column_type_database_type_name r (pos i) = name_at (get_elem? r.columns i)
column_type_database_type_name r (negsuc i) = []
