-- ===== src/Sql/Inert.antt =====
-- Literals in the text of a statement: the scan of types.go passes over them.
use cubrid_go.Prelude.{
  ℕ, ℤ, pos, negsuc, ◌+◌, ◌/◌, ◌%◌, ◌==◌, ◌≡◌, refl, ap, ◌∙◌, List, [], ◌∷◌, ◌++◌, suc, length,
  Option, none, some, true, false, inl, inr, Bool-cases, arith, append_assoc, length-append,
  print_nat, All, AllDigits, print_nat-AllDigits, read_digits, print_nat-read_digits, ascii,
}
use cubrid_go.Result.{ok}
use cubrid_go.Runtime.{Runtime, Value, nil, bool, int64, text, blob, float64, time, other}
use cubrid_go.Sql.Scanner.{
  ScanState, normal, single_quote, go_on, jump, scan_byte, scan_loop, scan_loop_step,
  scan_loop_last, next_is,
}
use cubrid_go.Sql.Literal.{
  escape_string, hex_encode, hex_digit, format_int, format_value, replace_byte,
}
use cubrid_go.Sql.Escapes.{escape_string-cons}

-- What follows begins with no quote, so that a closing quote is one.
abbrev pub EndsLiteral : List ℕ → Type 0
EndsLiteral [] = Unit
EndsLiteral (c ∷ cs) = (c == 39) ≡ false

-- In its normal state the scan of the literal finds nothing, and is in its normal state behind it.
abbrev IsInert : List ℕ → Type 0
IsInert lit =
    (i : ℕ) (rest : List ℕ)
    → EndsLiteral rest
    → scan_loop normal i (lit ++ rest) ≡ scan_loop normal (i + length lit) rest

-- A byte on which the scan goes on whatever stands next.
scan-go_on :
    (st st' : ScanState) (ch i : ℕ) (rest : List ℕ)
    → ((next : Option ℕ) → scan_byte st ch next ≡ go_on st')
    → scan_loop st i (ch ∷ rest) ≡ scan_loop st' (suc i) rest
scan-go_on st st' ch i [] h =
    scan_loop_last st ch i (go_on st') (h none) ∙ (unfold scan_loop in refl)
scan-go_on st st' ch i (c ∷ rest) h = scan_loop_step st ch c rest i (go_on st') (h (some c))

-- The closing quote.
scan-close :
    (i : ℕ) (rest : List ℕ)
    → EndsLiteral rest
    → scan_loop single_quote i (39 ∷ rest) ≡ scan_loop normal (suc i) rest
scan-close i [] h =
    scan_loop_last single_quote 39 i (go_on normal) (unfold scan_byte next_is in refl)
    ∙ (unfold scan_loop in refl)
scan-close i (c ∷ rest) h =
    scan_loop_step single_quote 39 c rest i (go_on normal) (unfold scan_byte next_is in rw h refl)

-- A byte of a quoted text that is no quote.
scan-inside :
    (ch i : ℕ) (rest : List ℕ)
    → (ch == 39) ≡ false
    → scan_loop single_quote i (ch ∷ rest) ≡ scan_loop single_quote (suc i) rest
scan-inside ch i rest h =
    scan-go_on single_quote single_quote ch i rest (λ next. unfold scan_byte in rw h refl)

scan-doubled :
    (i : ℕ) (rest : List ℕ)
    → scan_loop single_quote i (39 ∷ 39 ∷ rest) ≡ scan_loop single_quote (suc (suc i)) rest
scan-doubled i rest =
    scan_loop_step single_quote 39 39 rest i (jump single_quote) (unfold scan_byte next_is in refl)

scan-escape_string :
    (s : List ℕ) (i : ℕ) (rest : List ℕ)
    → EndsLiteral rest
    → scan_loop single_quote i (escape_string s ++ (39 ∷ rest))
      ≡ scan_loop normal (i + suc (length (escape_string s))) rest
scan-escape_string [] i rest h =
    unfold escape_string replace_byte in
    scan-close i rest h ∙ ap (λ (n : ℕ). scan_loop normal n rest) (omega arith)
scan-escape_string (c ∷ s) i rest h = elim (Bool-cases (c == 39)) [
  | inl quote ↦
      let e : c ≡ 39 = ground arith in
      rw (escape_string-cons c s, e)
        (scan-doubled i (escape_string s ++ (39 ∷ rest))
          ∙ scan-escape_string s (suc (suc i)) rest h
          ∙ ap (λ (n : ℕ). scan_loop normal n rest) (omega arith))
  | inr unquoted ↦ elim (Bool-cases (c == 92)) [
    | inl slash ↦
        let e : c ≡ 92 = ground arith in
        rw (escape_string-cons c s, e)
          (scan-inside 92 i (92 ∷ (escape_string s ++ (39 ∷ rest))) refl
            ∙ scan-inside 92 (suc i) (escape_string s ++ (39 ∷ rest)) refl
            ∙ scan-escape_string s (suc (suc i)) rest h
            ∙ ap (λ (n : ℕ). scan_loop normal n rest) (omega arith))
    | inr plain ↦
        rw (escape_string-cons c s, unquoted, plain)
          (scan-inside c i (escape_string s ++ (39 ∷ rest)) unquoted
            ∙ scan-escape_string s (suc i) rest h
            ∙ ap (λ (n : ℕ). scan_loop normal n rest) (omega arith))
  ]
]

-- Bytes that mean nothing to the scan in its normal state.
abbrev IsPlain : ℕ → Type 0
IsPlain c =
    ((c == 39) ≡ false) × ((c == b'/') ≡ false) × ((c == b'-') ≡ false) × ((c == b'?') ≡ false)

scan_byte-IsPlain : (c : ℕ) (next : Option ℕ) → IsPlain c → scan_byte normal c next ≡ go_on normal
unfolding scan_byte
scan_byte-IsPlain c next h = rw (h.0, h.1, h.2, h.3) refl

scan-IsPlain : (bs : List ℕ) → All IsPlain bs → IsInert bs
scan-IsPlain [] h i rest e = ap (λ (n : ℕ). scan_loop normal n rest) (omega arith)
scan-IsPlain (b ∷ bs) h i rest e =
    scan-go_on normal normal b i (bs ++ rest) (λ next. scan_byte-IsPlain b next h.0)
    ∙ scan-IsPlain bs h.1 (suc i) rest e
    ∙ ap (λ (n : ℕ). scan_loop normal n rest) (omega arith)

digits-IsPlain : (bs : List ℕ) → AllDigits bs → All IsPlain bs
digits-IsPlain [] h = tt
digits-IsPlain (b ∷ bs) h =
    ((ground arith, ground arith, ground arith, ground arith), digits-IsPlain bs h.1)

-- The opening quote.
scan-open :
    (i : ℕ) (rest : List ℕ) → scan_loop normal i (39 ∷ rest) ≡ scan_loop single_quote (suc i) rest
scan-open i rest =
    scan-go_on normal single_quote 39 i rest (λ next. unfold scan_byte next_is in refl)

-- A quoted body that the scan passes over up to the closing quote.
quoted-IsInert :
    (body : List ℕ)
    → ((i : ℕ) (rest : List ℕ)
        → EndsLiteral rest
        → scan_loop single_quote i (body ++ (39 ∷ rest))
          ≡ scan_loop normal (i + suc (length body)) rest)
    → IsInert (39 ∷ (body ++ (39 ∷ [])))
quoted-IsInert body h i rest e = rw (append_assoc body (39 ∷ []) rest) (
    scan-open i (body ++ (39 ∷ rest))
    ∙ h (suc i) rest e
    ∙ ap (λ (n : ℕ). scan_loop normal n rest) (omega (arith, length-append body (39 ∷ []))))

IsInert-cons : (b : ℕ) (lit : List ℕ) → IsPlain b → IsInert lit → IsInert (b ∷ lit)
IsInert-cons b lit p h i rest e =
    scan-go_on normal normal b i (lit ++ rest) (λ next. scan_byte-IsPlain b next p)
    ∙ h (suc i) rest e
    ∙ ap (λ (n : ℕ). scan_loop normal n rest) (omega arith)

-- A minus sign in front of the digits of a number.
minus-IsInert :
    (n : ℕ) (bs : List ℕ) → AllDigits bs → read_digits 0 bs ≡ suc n → IsInert (b'-' ∷ bs)
minus-IsInert n [] h spelled i rest e = absurd (omega (arith, spelled))
minus-IsInert n (b ∷ bs) h spelled i rest e =
    let digit : (b == b'-') ≡ false = ground (arith, h.0) in
    scan_loop_step normal b'-' b (bs ++ rest) i (go_on normal)
      (unfold scan_byte next_is in rw digit refl)
    ∙ scan-IsPlain (b ∷ bs) (digits-IsPlain (b ∷ bs) h) (suc i) rest e
    ∙ ap (λ (n : ℕ). scan_loop normal n rest) (omega arith)

format_int-IsInert : (z : ℤ) → IsInert (format_int z)
unfolding format_int
format_int-IsInert (pos n) =
    scan-IsPlain (print_nat n) (digits-IsPlain (print_nat n) (print_nat-AllDigits n))
format_int-IsInert (negsuc n) =
    minus-IsInert n (print_nat (suc n)) (print_nat-AllDigits (suc n))
      (print_nat-read_digits (suc n))

hex_digit-plain : (d : ℕ) → (hex_digit d == 39) ≡ false
unfolding hex_digit
hex_digit-plain d = ground arith

scan-hex_encode :
    (bs : List ℕ) (i : ℕ) (rest : List ℕ)
    → EndsLiteral rest
    → scan_loop single_quote i (hex_encode bs ++ (39 ∷ rest))
      ≡ scan_loop normal (i + suc (length (hex_encode bs))) rest
unfolding hex_encode
scan-hex_encode [] i rest h =
    scan-close i rest h ∙ ap (λ (n : ℕ). scan_loop normal n rest) (omega arith)
scan-hex_encode (c ∷ cs) i rest h =
    scan-inside (hex_digit (c / 16)) i _ (hex_digit-plain (c / 16))
    ∙ scan-inside (hex_digit (c % 16)) (suc i) _ (hex_digit-plain (c % 16))
    ∙ scan-hex_encode cs (suc (suc i)) rest h
    ∙ ap (λ (n : ℕ). scan_loop normal n rest) (omega arith)

-- NULL, truth values, integers, texts and byte strings.
abbrev pub IsCommon : Value → Type 0
IsCommon nil = Unit
IsCommon (bool b) = Unit
IsCommon (int64 z) = Unit
IsCommon (text s) = Unit
IsCommon (blob bs) = Unit
IsCommon v = ⊥

format_value-IsCommon :
    (go : Runtime) (v : Value)
    → IsCommon v
    → (lit : List ℕ) × (format_value go v ≡ ok lit) × IsInert lit
unfolding format_value
format_value-IsCommon go nil h = (
  _,
  refl,
  scan-IsPlain (ascii "NULL") (
    (refl, refl, refl, refl),
    ((refl, refl, refl, refl), ((refl, refl, refl, refl), ((refl, refl, refl, refl), tt))),
  ),
)
format_value-IsCommon go (bool true) h =
    (_, refl, scan-IsPlain (ascii "1") ((refl, refl, refl, refl), tt))
format_value-IsCommon go (bool false) h =
    (_, refl, scan-IsPlain (ascii "0") ((refl, refl, refl, refl), tt))
format_value-IsCommon go (int64 z) h = (_, refl, format_int-IsInert z)
format_value-IsCommon go (text s) h =
    (_, refl, quoted-IsInert (escape_string s) (scan-escape_string s))
format_value-IsCommon go (blob bs) h = (
  _,
  refl,
  IsInert-cons b'X' (39 ∷ (hex_encode bs ++ (39 ∷ []))) (refl, refl, refl, refl)
      (quoted-IsInert (hex_encode bs) (scan-hex_encode bs)),
)
format_value-IsCommon go (float64 b) h = absurd h
format_value-IsCommon go (time t) h = absurd h
format_value-IsCommon go (other s) h = absurd h

-- The literal that FormatValue gives for NULL, a truth value, an integer, a text or a byte string,
-- of any bytes, quotes, question marks and comment marks among them: where the scan of a statement
-- comes to it in its normal state, and what follows it does not begin with a quote, the scan finds
-- no placeholder in it, and goes on behind it in its normal state.
pub scan_loop-format_value :
    (go : Runtime) (v : Value) (i : ℕ) (rest : List ℕ)
    → IsCommon v
    → EndsLiteral rest
    → (lit : List ℕ) × (format_value go v ≡ ok lit)
      × (scan_loop normal i (lit ++ rest) ≡ scan_loop normal (i + length lit) rest)
scan_loop-format_value go v i rest common h =
    let (lit, printed, inert) = format_value-IsCommon go v common in (lit, printed, inert i rest h)
