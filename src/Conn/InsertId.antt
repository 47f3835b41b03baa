-- ===== src/Conn/InsertId.antt =====
-- fetchLastInsertID on the text that `SELECT LAST_INSERT_ID()` answers.
use cubrid_go.Prelude.{
  ℕ, pos, ◌+◌, ◌-◌, ◌*◌, ◌%◌, ◌^◌, ◌≤◌, ◌<◌, leb, ◌&&◌, ◌≡◌, refl, List, [], ◌∷◌, ◌++◌, true, false,
  arith, read_digits, AllDigits,
}
use cubrid_go.Runtime.{Value, text}
use cubrid_go.Conn.Helpers.{leading_digits, id_of_rows}

-- A text that is empty or starts with a byte that is no digit.
abbrev pub NoDigitFirst : List ℕ → Type 0
NoDigitFirst [] = Unit
NoDigitFirst (c ∷ cs) = (leb 48 c && leb c 57) ≡ false

read_digits-le : (acc : ℕ) (ds : List ℕ) → acc ≤ read_digits acc ds
read_digits-le acc [] = omega arith
read_digits-le acc (d ∷ ds) = omega (arith, read_digits-le (acc * 10 + (d - 48)) ds)

leading_digits-stop : (n : ℕ) (rest : List ℕ) → NoDigitFirst rest → leading_digits n rest ≡ n
unfolding leading_digits
leading_digits-stop n [] h = refl
leading_digits-stop n (c ∷ cs) h = rw h refl

leading_digits-read :
    (acc : ℕ) (ds rest : List ℕ)
    → AllDigits ds
    → NoDigitFirst rest
    → read_digits acc ds < 2 ^ 63
    → leading_digits acc (ds ++ rest) ≡ read_digits acc ds
unfolding leading_digits
leading_digits-read acc [] rest digits stop small = leading_digits-stop acc rest stop
leading_digits-read acc (d ∷ ds) rest digits stop small =
    let digit : (leb 48 d && leb d 57) ≡ true = ground arith in
    let fits : (acc * 10 + (d - 48)) % 2 ^ 64 ≡ acc * 10 + (d - 48) =
      omega (arith, read_digits-le (acc * 10 + (d - 48)) ds) in
    rw (digit, fits) (leading_digits-read (acc * 10 + (d - 48)) ds rest digits.1 stop small)

-- Where the first cell is a text of decimal digits for a number below 2 ^ 63, with nothing or no
-- digit behind, as CUBRID prints a NUMERIC with a scale, the id is that number.
pub id_of_rows-digits :
    (ds rest : List ℕ) (cells : List Value) (rows : List (List Value))
    → AllDigits ds
    → NoDigitFirst rest
    → read_digits 0 ds < 2 ^ 63
    → id_of_rows ((text (ds ++ rest) ∷ cells) ∷ rows) ≡ pos (read_digits 0 ds)
unfolding id_of_rows
id_of_rows-digits ds rest cells rows digits stop small =
    rw (leading_digits-read 0 ds rest digits stop small) (ground arith)
