-- ===== src/Dialector/Types.antt =====
-- dialector/cubrid.go: DataTypeOf, dataTypeFromTag, DefaultValueOf. Of GORM's schema.Field the
-- model has the members that they read.
use cubrid_go.Prelude.{
  ℕ, ℤ, pos, ltb_ℤ, ◌&&◌, not, if◌then◌else◌, List, [], ◌∷◌, ◌++◌, Bool, true, false, ascii,
  is_positive,
}
use cubrid_go.Sql.Literal.{format_int}

-- The constants of `schema.DataType` that the switch names; `custom` is any other text.
pub data SchemaType : Type 0 where
  bool int uint float string time bytes : SchemaType
  custom : List ℕ → SchemaType

pub record Field : Type 0 where
  pub data_type : SchemaType
  pub size : ℤ
  pub precision : ℤ
  pub auto_increment : Bool
  pub has_default_value : Bool
  pub default_value : List ℕ

-- `a <= b`
abbrev pub leb_ℤ : ℤ → ℤ → Bool
leb_ℤ a b = not (ltb_ℤ b a)

abbrev is_empty : List ℕ → Bool
is_empty [] = true
is_empty (c ∷ cs) = false

abbrev is_zero : ℤ → Bool
is_zero z = leb_ℤ z (pos 0) && leb_ℤ (pos 0) z

-- A type with a number in parentheses: `Sprintf("VARCHAR(%d)", n)`.
unfoldable pub with_number : List ℕ → ℤ → List ℕ
with_number name n = name ++ (ascii "(" ++ (format_int n ++ ascii ")"))

unfoldable pub data_type_from_tag : Field → List ℕ
data_type_from_tag field =
    if field.has_default_value && not (is_empty field.default_value)
    then field.default_value
    else ascii "VARCHAR(256)"

unfoldable pub string_type : ℤ → List ℕ
unfolding with_number
string_type size =
    let size : ℤ = if is_zero size then pos 256 else size in
    if leb_ℤ (pos 1073741823) size then ascii "STRING" else with_number (ascii "VARCHAR") size

-- The outer switch.
unfoldable pub type_by_kind : SchemaType → Field → List ℕ
unfolding string_type data_type_from_tag with_number
type_by_kind bool field = ascii "SMALLINT"
type_by_kind int field =
    if leb_ℤ field.size (pos 16)
    then ascii "SMALLINT"
    else if leb_ℤ field.size (pos 32)
    then ascii "INTEGER"
    else ascii "BIGINT"
type_by_kind uint field =
    if leb_ℤ field.size (pos 8)
    then ascii "SMALLINT"
    else if leb_ℤ field.size (pos 16)
    then ascii "INTEGER"
    else if leb_ℤ field.size (pos 32)
    then ascii "BIGINT"
    else ascii "BIGINT"
type_by_kind float field = if leb_ℤ field.size (pos 32) then ascii "FLOAT" else ascii "DOUBLE"
type_by_kind string field = string_type field.size
type_by_kind time field =
    if is_positive field.precision
    then with_number (ascii "DATETIME") field.precision
    else ascii "DATETIME"
type_by_kind bytes field = ascii "BLOB"
type_by_kind (custom t) field = data_type_from_tag field

unfoldable pub data_type_of : Field → List ℕ
unfolding type_by_kind
data_type_of field =
    if field.auto_increment
    then (if ltb_ℤ (pos 32) field.size
        then ascii "BIGINT AUTO_INCREMENT"
        else ascii "INTEGER AUTO_INCREMENT")
    else type_by_kind field.data_type field

-- The SQL of the expression.
unfoldable pub default_value_of : Field → List ℕ
default_value_of field = if field.auto_increment then [] else ascii "DEFAULT"
