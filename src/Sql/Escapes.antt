-- ===== src/Sql/Escapes.antt =====
-- Reading a literal back: the bytes of an escaped text and of a hexadecimal byte string.
use cubrid_go.Prelude.{
  ℕ, ◌+◌, ◌-◌, ◌*◌, ◌/◌, ◌%◌, ◌<◌, ◌≡◌, refl, ap, ◌∙◌, List, [], ◌∷◌, ◌++◌, ◌==◌, ltb,
  if◌then◌else◌, true, false, arith, Bool-cases, inl, inr, All, ◌||◌, ◌&&◌,
}
use cubrid_go.Wire.{IsByte}
use cubrid_go.Sql.Literal.{replace_byte, escape_string, hex_digit, hex_encode}

-- A doubled quote or backslash stands for one; any other byte for itself.
unfoldable pub unescape : List ℕ → List ℕ
unescape [] = []
unescape (c ∷ []) = c ∷ []
unescape (c ∷ d ∷ rest) =
    if ((c == 39) || (c == 92)) && (c == d) then c ∷ unescape rest else c ∷ unescape (d ∷ rest)

-- What one byte becomes under both replacements.
pub escape_string-cons :
    (c : ℕ) (s : List ℕ)
    → escape_string (c ∷ s)
      ≡ (if (c == 39) || (c == 92) then c ∷ c ∷ [] else c ∷ []) ++ escape_string s
unfolding escape_string
escape_string-cons c s = elim (Bool-cases (c == 39)) [
  | inl quote ↦ let e : c ≡ 39 = ground arith in rw e (unfold replace_byte in refl)
  | inr other ↦ elim (Bool-cases (c == 92)) [
    | inl slash ↦ let e : c ≡ 92 = ground arith in rw e (unfold replace_byte in refl)
    | inr plain ↦ unfold replace_byte in rw plain (rw other)
  ]
]

unescape-plain :
    (c : ℕ) (s : List ℕ) → ((c == 39) || (c == 92)) ≡ false → unescape (c ∷ s) ≡ c ∷ unescape s
unfolding unescape
unescape-plain c [] h = refl
unescape-plain c (d ∷ s) h = rw h

unescape-special :
    (c : ℕ) (s : List ℕ) → ((c == 39) || (c == 92)) ≡ true → unescape (c ∷ c ∷ s) ≡ c ∷ unescape s
unfolding unescape
unescape-special c s h = let same : (c == c) ≡ true = ground arith in rw (h, same)

-- Undoubling gives back every text that was escaped.
pub unescape-escape_string : (s : List ℕ) → unescape (escape_string s) ≡ s
unescape-escape_string [] = unfold unescape escape_string replace_byte in refl
unescape-escape_string (c ∷ s) = escaped ∙ ap (λ (t : List ℕ). c ∷ t) (unescape-escape_string s)
  where
    escaped : unescape (escape_string (c ∷ s)) ≡ c ∷ unescape (escape_string s)
    escaped = elim (Bool-cases ((c == 39) || (c == 92))) [
      | inl special ↦
          ap unescape (escape_string-cons c s ∙ rw special)
          ∙ unescape-special c (escape_string s) special
      | inr plain ↦
          ap unescape (escape_string-cons c s ∙ rw plain) ∙ unescape-plain c (escape_string s) plain
    ]

hex_value : ℕ → ℕ
hex_value h = if ltb h 58 then h - 48 else h - 87

unfoldable pub hex_decode : List ℕ → List ℕ
unfolding hex_value
hex_decode [] = []
hex_decode (h ∷ []) = []
hex_decode (h ∷ l ∷ rest) = (hex_value h * 16 + hex_value l) ∷ hex_decode rest

hex_value-hex_digit : (d : ℕ) → d < 16 → hex_value (hex_digit d) ≡ d
unfolding hex_value hex_digit
hex_value-hex_digit d h = ground arith

-- The digits of a byte string of bytes are read back, two for each byte.
pub hex_decode-hex_encode : (bs : List ℕ) → All IsByte bs → hex_decode (hex_encode bs) ≡ bs
unfolding hex_decode hex_encode
hex_decode-hex_encode [] h = refl
hex_decode-hex_encode (b ∷ bs) h =
    let whole : b / 16 * 16 + b % 16 ≡ b = omega arith in
    rw
      (
        hex_value-hex_digit (b / 16) (omega (arith, h.0)),
        hex_value-hex_digit (b % 16) (omega arith),
        whole,
      )
      (ap (λ (t : List ℕ). b ∷ t) (hex_decode-hex_encode bs h.1))
