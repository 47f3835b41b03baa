-- ===== src/Sql/Tests.antt =====
-- The statements of types_test.go, and the theorems at concrete inputs.
use cubrid_go.Prelude.{
  ℕ, pos, negsuc, ◌≡◌, ◌≢◌, refl, ◌⊎◌, List, [], ◌∷◌, ◌++◌, ◌+◌, ascii, length, print_nat,
}
use cubrid_go.Result.{ok, err, bind_count}
use cubrid_go.Runtime.{Value, int64, text, time}
use cubrid_go.Packet.Tests.{example_go, noon}
use cubrid_go.Sql.Inert.{scan_loop-format_value}
use cubrid_go.Sql.Scanner.{scan_loop, normal, find_bind_placeholders}
use cubrid_go.Sql.Literal.{format_value, escape_string}
use cubrid_go.Sql.Interpolate.{interpolate_args}
use cubrid_go.Sql.Pass.{substitute}
use cubrid_go.Sql.Substitute.{interpolate_args-substitute}
use cubrid_go.Sql.Positions.{Marks, find_bind_placeholders-Marks}
use cubrid_go.Sql.Escapes.{unescape, unescape-escape_string}

quoted_mark :
    interpolate_args example_go (ascii "name = '?' AND id = ?") (int64 (pos 7) ∷ [])
    ≡ ok (ascii "name = '?' AND id = 7")
unfolding interpolate_args format_value print_nat
quoted_mark = refl

block_comment_mark :
    interpolate_args example_go (ascii "1 /* ? */ id = ?") (int64 (pos 42) ∷ [])
    ≡ ok (ascii "1 /* ? */ id = 42")
unfolding interpolate_args format_value print_nat
block_comment_mark = refl

escaped_quote :
    interpolate_args example_go (ascii "name = 'it''s?' AND id = ?") (int64 (pos 9) ∷ [])
    ≡ ok (ascii "name = 'it''s?' AND id = 9")
unfolding interpolate_args format_value print_nat
escaped_quote = refl

two_marks :
    interpolate_args example_go (ascii "a = ? AND b = ?") (int64 (pos 1) ∷ text (ascii "x") ∷ [])
    ≡ ok (ascii "a = 1 AND b = 'x'")
unfolding interpolate_args format_value print_nat
two_marks = refl

-- A negative number behind a minus sign: the scan reads the rest of the line as a comment.
minus_mark :
    interpolate_args example_go (ascii "5 -? + ?") (int64 (negsuc 2) ∷ int64 (pos 1) ∷ [])
    ≡ ok (ascii "5 --3 + 1")
unfolding interpolate_args format_value print_nat
minus_mark = refl

minus_comment : find_bind_placeholders (ascii "5 --3 + ?") ≡ []
unfolding find_bind_placeholders
minus_comment = refl

utc_literal : format_value example_go (time noon) ≡ ok (ascii "DATETIME'2024-01-15 00:30:00.123'")
unfolding format_value
utc_literal = refl

abbrev statement : List ℕ
statement = ascii "a = ? AND b = '?' AND c = ?"

abbrev two_args : List Value
two_args = int64 (negsuc 4) ∷ text (ascii "it's") ∷ []

interpolate_args-substitute_example :
    ((length (find_bind_placeholders statement) ≡ length two_args)
      × (interpolate_args example_go statement two_args
          ≡ substitute example_go normal statement two_args))
    ⊎ ((length (find_bind_placeholders statement) ≢ length two_args)
        × (interpolate_args example_go statement two_args
            ≡ err (bind_count (length (find_bind_placeholders statement)) (length two_args))))
interpolate_args-substitute_example = interpolate_args-substitute example_go statement two_args

find_bind_placeholders-Marks_example : Marks 0 statement (find_bind_placeholders statement)
find_bind_placeholders-Marks_example = find_bind_placeholders-Marks statement

unescape-escape_string_example : unescape (escape_string (ascii "it's")) ≡ ascii "it's"
unescape-escape_string_example = unescape-escape_string (ascii "it's")

scan_loop-format_value_example :
    (lit : List ℕ) × (format_value example_go (text (ascii "it's -- ?")) ≡ ok lit)
    × (scan_loop normal 4 (lit ++ ascii " AND b = ?")
        ≡ scan_loop normal (4 + length lit) (ascii " AND b = ?"))
scan_loop-format_value_example =
    scan_loop-format_value example_go (text (ascii "it's -- ?")) 4 (ascii " AND b = ?") tt refl
