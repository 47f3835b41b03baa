-- ===== src/Dialector/Tests.antt =====
-- Runs of dialector/cubrid.go, and the theorems at concrete inputs.
use cubrid_go.Prelude.{
  print_nat, ℤ, pos, ◌≡◌, refl, List, ℕ, [], ◌∷◌, ◌++◌, false, some, ascii, arith, Fits,
}
use cubrid_go.Sql.Literal.{format_int}
use cubrid_go.Dialector.Types.{SchemaType, uint, string, Field, data_type_of}
use cubrid_go.Dialector.Quote.{quote_to}
use cubrid_go.Dialector.Columns.{full_data_type_of}
use cubrid_go.Dialector.Ranges.{IntType, type_name, value_bits, data_type_of-Holds}
use cubrid_go.Dialector.Identifiers.{read_quoted, read_quoted-quote_to}

abbrev plain_field : SchemaType → ℤ → Field
plain_field kind size = record {
  data_type = kind;
  size = size;
  precision = pos 0;
  auto_increment = false;
  has_default_value = false;
  default_value = [];
}

text_column : data_type_of (plain_field string (pos 0)) ≡ ascii "VARCHAR(256)"
unfolding data_type_of format_int print_nat
text_column = refl

auto_column :
    full_data_type_of (ascii "INTEGER AUTOINCREMENT DEFAULT ") ≡ ascii "INTEGER AUTO_INCREMENT"
unfolding full_data_type_of
auto_column = refl

data_type_of-Holds_example :
    (t : IntType) × (data_type_of (plain_field uint (pos 16)) ≡ type_name t)
    × Fits (value_bits t) (pos 65535)
data_type_of-Holds_example =
    data_type_of-Holds (plain_field uint (pos 16)) 15 refl refl (omega arith) (pos 65535)
      (omega arith)

abbrev odd_name : List ℕ
odd_name = 97 ∷ 34 ∷ 98 ∷ []

quoted_name : quote_to [] odd_name ≡ 34 ∷ 97 ∷ 34 ∷ 34 ∷ 98 ∷ 34 ∷ []
unfolding quote_to
quoted_name = refl

read_quoted-quote_to_example :
    (body : List ℕ) × (quote_to (ascii "SELECT ") odd_name ++ ascii " FROM t"
      ≡ ascii "SELECT " ++ (34 ∷ body))
    × (read_quoted body ≡ some (odd_name, ascii " FROM t"))
read_quoted-quote_to_example =
    read_quoted-quote_to (ascii "SELECT ") odd_name (ascii " FROM t") refl
