-- ===== src/Sql/Literal.antt =====
-- types.go, FormatValue, escapeString and hexEncode: values as SQL literals. Packages strconv and
-- time print the decimal integers and the times.
use cubrid_go.Prelude.{
  ℕ, ℤ, pos, negsuc, ◌+◌, ◌/◌, ◌%◌, ◌==◌, if◌then◌else◌, List, [], ◌∷◌, ◌++◌, suc, print_nat, ascii,
  ltb,
}
use cubrid_go.Result.{Result, ok, err, unsupported_value}
use cubrid_go.Runtime.{Runtime, Value, nil, bool, int64, float64, text, blob, time, other}

-- `strings.ReplaceAll(s, old, new)` for a text `old` of one byte.
unfoldable pub replace_byte : ℕ → List ℕ → List ℕ → List ℕ
replace_byte old new [] = []
replace_byte old new (c ∷ cs) = (if c == old then new else c ∷ []) ++ replace_byte old new cs

-- 92 is the backslash, 39 the single quote.
unfoldable pub escape_string : List ℕ → List ℕ
unfolding replace_byte
escape_string s = replace_byte 39 (39 ∷ 39 ∷ []) (replace_byte 92 (92 ∷ 92 ∷ []) s)

-- `hx[d]` for a digit of four bits.
unfoldable pub hex_digit : ℕ → ℕ
hex_digit d = if ltb d 10 then 48 + d else 87 + d

unfoldable pub hex_encode : List ℕ → List ℕ
unfolding hex_digit
hex_encode [] = []
hex_encode (c ∷ cs) = hex_digit (c / 16) ∷ hex_digit (c % 16) ∷ hex_encode cs

-- `strconv.FormatInt(val, 10)`
unfoldable pub format_int : ℤ → List ℕ
format_int (pos n) = print_nat n
format_int (negsuc n) = b'-' ∷ print_nat (suc n)

-- `%03d` of a number below 1000.
unfoldable pub three_digits : ℕ → List ℕ
three_digits n = (48 + n / 100 % 10) ∷ (48 + n / 10 % 10) ∷ (48 + n % 10) ∷ []

module _ (go : Runtime) where
  unfoldable pub format_value : Value → Result (List ℕ)
  unfolding escape_string hex_encode format_int three_digits
  format_value nil = ok (ascii "NULL")
  format_value (bool b) = if b then ok (ascii "1") else ok (ascii "0")
  format_value (int64 v) = ok (format_int v)
  format_value (float64 v) = ok (go.format_float v)
  format_value (text s) = ok ((39 ∷ []) ++ (escape_string s ++ (39 ∷ [])))
  format_value (blob v) = ok (ascii "X'" ++ (hex_encode v ++ (39 ∷ [])))
  format_value (time v) =
      let u = go.utc v in
      ok (
        ascii "DATETIME'"
        ++ (go.format_time u
            ++ (ascii "." ++ (three_digits (u.nanosecond / 1000000) ++ (39 ∷ [])))))
  format_value (other s) = err unsupported_value
