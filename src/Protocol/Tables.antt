-- ===== src/Protocol/Tables.antt =====
-- protocol.go: raiseError, parseColumnMetadata and parseResultInfos. The counted loops recur on the
-- rounds left; `make` panics on a negative count.
use Prim.Native.Nat.{bit_and}
use cubrid_go.Prelude.{ℕ, ℤ, pos, negsuc, ◌==◌, if◌then◌else◌, List, [], ◌∷◌, zero, suc, Bool}
use cubrid_go.Errors.{new_error}
use cubrid_go.Constants.{size_oid}
use cubrid_go.Packet.Reader.{
  Parser, ◌>>=◌, ◌>>◌, pure, fail, abort, parse_byte, parse_short, parse_int, parse_raw_bytes,
  parse_null_term_string, read_error,
}
use cubrid_go.Protocol.Types.{ColumnMetaData, ResultInfo}

unfoldable pub raise_error {ℓ} : {A : Type ℓ} → ℤ → Parser A
raise_error response_length = do (code, msg) ← read_error response_length; fail (new_error code msg)

-- `reader.parseByte() == 1`
unfoldable pub parse_flag : Parser Bool
parse_flag = do b ← parse_byte; pure (b == 1)

-- A length, and the text of that length.
unfoldable pub parse_sized_string : Parser (List ℕ)
parse_sized_string = do len ← parse_int; parse_null_term_string len

-- The type byte, and the byte behind it where the high bit is set.
unfoldable pub parse_column_type : Parser ℕ
parse_column_type = do
  legacy_type ← parse_byte
  if bit_and legacy_type 0x80 == 0 then pure legacy_type else parse_byte

unfoldable pub parse_column : Parser ColumnMetaData
unfolding parse_flag parse_sized_string parse_column_type
parse_column = do
  col_type ← parse_column_type
  scale ← parse_short
  precision ← parse_int
  name ← parse_sized_string
  real_name ← parse_sized_string
  table_name ← parse_sized_string
  is_nullable ← parse_flag
  default_value ← parse_sized_string
  is_auto_increment ← parse_flag
  is_unique_key ← parse_flag
  is_primary_key ← parse_flag
  parse_byte
  parse_byte
  is_foreign_key ← parse_flag
  parse_byte
  pure (record {
    column_type = col_type;
    scale = scale;
    precision = precision;
    name = name;
    real_name = real_name;
    table_name = table_name;
    is_nullable = is_nullable;
    default_value = default_value;
    is_auto_increment = is_auto_increment;
    is_unique_key = is_unique_key;
    is_primary_key = is_primary_key;
    is_foreign_key = is_foreign_key;
  })

-- `count` rounds of `body`, and their results in order.
unfoldable pub repeat {ℓ} : {A : Type ℓ} → ℕ → Parser A → Parser (List A)
repeat zero body = pure []
repeat (suc count) body = do x ← body; xs ← repeat count body; pure (x ∷ xs)

unfoldable pub parse_column_metadata : ℤ → Parser (List ColumnMetaData)
unfolding parse_column repeat
parse_column_metadata (pos count) = repeat count parse_column
parse_column_metadata (negsuc n) = abort

unfoldable pub parse_result_info : Parser ResultInfo
parse_result_info = do
  stmt_type ← parse_byte
  result_count ← parse_int
  oid ← parse_raw_bytes (pos size_oid)
  parse_int
  parse_int
  pure (record { stmt_type = stmt_type; result_count = result_count; oid = oid })

unfoldable pub parse_result_infos : ℤ → Parser (List ResultInfo)
unfolding parse_result_info repeat
parse_result_infos (pos count) = repeat count parse_result_info
parse_result_infos (negsuc n) = abort
