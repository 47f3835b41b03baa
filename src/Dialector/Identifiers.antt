-- ===== src/Dialector/Identifiers.antt =====
-- Reading a quoted identifier back, as a scanner of SQL does.
use cubrid_go.Prelude.{
  ℕ, ◌==◌, if◌then◌else◌, ◌≡◌, refl, ap, ◌∙◌, List, [], ◌∷◌, ◌++◌, Bool, true, false, Option, none,
  some, arith, inl, inr, Bool-cases, append_assoc, append-nil,
}
use mathlib.Core.Option
use cubrid_go.Sql.Literal.{replace_byte}
use cubrid_go.Dialector.Quote.{has_quote, onto_first, split, write_parts, quote_to}

-- The text behind an opening quote up to the closing one, with doubled quotes made single, and what
-- follows the closing quote. `none`: the quote is never closed.
unfoldable pub read_quoted : List ℕ → Option (List ℕ × List ℕ)
read_quoted [] = none
read_quoted (c ∷ []) = if c == 34 then some ([], []) else none
read_quoted (c ∷ d ∷ rest) =
    let doubled = Option.map (λ (r : List ℕ × List ℕ). (34 ∷ r.0, r.1)) (read_quoted rest) in
    let plain = Option.map (λ (r : List ℕ × List ℕ). (c ∷ r.0, r.1)) (read_quoted (d ∷ rest)) in
    if c == 34 then (if d == 34 then doubled else some ([], d ∷ rest)) else plain

abbrev double_quotes : List ℕ → List ℕ
double_quotes s = replace_byte 34 (34 ∷ 34 ∷ []) s

-- What the parts write, but for the quotes before the first.
abbrev parts_text : Bool → List (List ℕ) → List ℕ
parts_text first [] = []
parts_text first (p ∷ ps) = (if first then [] else 34 ∷ 34 ∷ []) ++ (p ++ parts_text false ps)

write_parts_lem :
    (first : Bool) (ps : List (List ℕ)) (w : List ℕ)
    → write_parts first ps w ≡ w ++ parts_text first ps
unfolding write_parts
write_parts_lem first [] w = rw append-nil
write_parts_lem true (p ∷ ps) w = write_parts_lem false ps (w ++ p) ∙ append_assoc w p _
write_parts_lem false (p ∷ ps) w =
    write_parts_lem false ps ((w ++ (34 ∷ 34 ∷ [])) ++ p) ∙ simp append_assoc

parts_text-onto_first :
    (c : ℕ) (ps : List (List ℕ)) → parts_text true (onto_first c ps) ≡ c ∷ parts_text true ps
parts_text-onto_first c [] = refl
parts_text-onto_first c (p ∷ ps) = refl

-- A split has a first part, so that one pair of quotes stands before it where it is not the first.
parts_text-first : (s : List ℕ) → parts_text false (split s) ≡ 34 ∷ 34 ∷ parts_text true (split s)
unfolding split
parts_text-first [] = refl
parts_text-first (c ∷ cs) = elim (Bool-cases (c == 34)) [
  | inl quote ↦ rw quote
  | inr other ↦ rw other (onto_one (split cs))
]
  where
    onto_one :
        (ps : List (List ℕ))
        → parts_text false (onto_first c ps) ≡ 34 ∷ 34 ∷ parts_text true (onto_first c ps)
    onto_one [] = refl
    onto_one (p ∷ ps) = refl

parts_text-split : (s : List ℕ) → parts_text true (split s) ≡ double_quotes s
unfolding split replace_byte
parts_text-split [] = refl
parts_text-split (c ∷ cs) = elim (Bool-cases (c == 34)) [
  | inl quote ↦
      rw quote (parts_text-first cs ∙ ap (λ (t : List ℕ). 34 ∷ 34 ∷ t) (parts_text-split cs))
  | inr other ↦
      rw other
        (parts_text-onto_first c (split cs) ∙ ap (λ (t : List ℕ). c ∷ t) (parts_text-split cs))
]

double_quotes-plain : (s : List ℕ) → has_quote s ≡ false → double_quotes s ≡ s
unfolding has_quote replace_byte
double_quotes-plain [] h = refl
double_quotes-plain (c ∷ cs) h =
    let other : (c == 34) ≡ false = ground arith in
    rw other (ap (λ (t : List ℕ). c ∷ t) (double_quotes-plain cs (ground arith)))

quote_to_lem : (w str : List ℕ) → quote_to w str ≡ w ++ (34 ∷ (double_quotes str ++ (34 ∷ [])))
unfolding quote_to
quote_to_lem w str = elim (Bool-cases (has_quote str)) [
  | inl quotes ↦
      rw (quotes, write_parts_lem true (split str) (w ++ (34 ∷ [])), parts_text-split str)
        (simp append_assoc)
  | inr none_in ↦ rw (none_in, double_quotes-plain str none_in) (simp append_assoc)
]

-- No quote follows, so that a closing quote stays one.
abbrev pub NoQuoteFirst : List ℕ → Type 0
NoQuoteFirst [] = Unit
NoQuoteFirst (c ∷ cs) = (c == 34) ≡ false

read_quoted-close : (rest : List ℕ) → NoQuoteFirst rest → read_quoted (34 ∷ rest) ≡ some ([], rest)
unfolding read_quoted
read_quoted-close [] h = refl
read_quoted-close (d ∷ rest) h = rw h refl

read_quoted-plain :
    (c : ℕ) (s t rest : List ℕ)
    → (c == 34) ≡ false
    → read_quoted s ≡ some (t, rest)
    → read_quoted (c ∷ s) ≡ some (c ∷ t, rest)
unfolding read_quoted
read_quoted-plain c [] t rest h e = cc
read_quoted-plain c (d ∷ s) t rest h e = rw (h, e) refl

read_quoted-pair :
    (s t rest : List ℕ)
    → read_quoted s ≡ some (t, rest)
    → read_quoted (34 ∷ 34 ∷ s) ≡ some (34 ∷ t, rest)
unfolding read_quoted
read_quoted-pair s t rest e = rw e refl

read_quoted-double_quotes :
    (s rest : List ℕ)
    → NoQuoteFirst rest
    → read_quoted (double_quotes s ++ (34 ∷ rest)) ≡ some (s, rest)
unfolding replace_byte
read_quoted-double_quotes [] rest h = read_quoted-close rest h
read_quoted-double_quotes (c ∷ cs) rest h = elim (Bool-cases (c == 34)) [
  | inl quote ↦
      let e : c ≡ 34 = ground arith in
      rw e (
        read_quoted-pair (double_quotes cs ++ (34 ∷ rest)) cs rest
          (read_quoted-double_quotes cs rest h))
  | inr other ↦ rw other (
      read_quoted-plain c (double_quotes cs ++ (34 ∷ rest)) cs rest other
        (read_quoted-double_quotes cs rest h))
]

-- What QuoteTo writes for an identifier of any bytes, with anything but a double quote behind: one
-- opening quote behind the text written before, and from there on exactly the identifier is read,
-- up to what follows.
pub read_quoted-quote_to :
    (w str rest : List ℕ)
    → NoQuoteFirst rest
    → (body : List ℕ) × (quote_to w str ++ rest ≡ w ++ (34 ∷ body))
      × (read_quoted body ≡ some (str, rest))
read_quoted-quote_to w str rest h = (
  double_quotes str ++ (34 ∷ rest),
  rw (quote_to_lem w str) (simp append_assoc),
  read_quoted-double_quotes str rest h,
)
