-- ===== src/Dialector/Quote.antt =====
-- dialector/cubrid.go: QuoteTo and BindVarTo. The writer is the text written so far; 34 is the
-- double quote.
use cubrid_go.Prelude.{ℕ, ◌==◌, ◌||◌, if◌then◌else◌, List, [], ◌∷◌, ◌++◌, Bool, true, false}

-- `strings.Contains(str, `"`)`
unfoldable pub has_quote : List ℕ → Bool
has_quote [] = false
has_quote (c ∷ cs) = (c == 34) || has_quote cs

-- One more byte in front of the first part.
abbrev pub onto_first : ℕ → List (List ℕ) → List (List ℕ)
onto_first c [] = (c ∷ []) ∷ []
onto_first c (part ∷ parts) = (c ∷ part) ∷ parts

-- `strings.Split(str, `"`)`
unfoldable pub split : List ℕ → List (List ℕ)
split [] = [] ∷ []
split (c ∷ cs) = if c == 34 then [] ∷ split cs else onto_first c (split cs)

-- The loop over the parts; `first` is `i == 0`.
unfoldable pub write_parts : Bool → List (List ℕ) → List ℕ → List ℕ
write_parts first [] w = w
write_parts first (p ∷ ps) w =
    write_parts false ps ((if first then w else w ++ (34 ∷ 34 ∷ [])) ++ p)

unfoldable pub quote_to : List ℕ → List ℕ → List ℕ
unfolding has_quote split write_parts
quote_to w str =
    let opened = w ++ (34 ∷ []) in
    (if has_quote str then write_parts true (split str) opened else opened ++ str) ++ (34 ∷ [])

unfoldable pub bind_var_to : List ℕ → List ℕ
bind_var_to w = w ++ (b'?' ∷ [])
