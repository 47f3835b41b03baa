-- ===== src/Errors.antt =====
-- errors.go: the choice of an error type by keywords in the server's message.
pub mod Search
pub mod Classify
pub mod Tests
use cubrid_go.Prelude.{
  ℕ, ℤ, pos, negsuc, ◌+◌, ◌-◌, leb, ◌==◌, ◌&&◌, if◌then◌else◌, List, [], ◌∷◌, map, length, take,
  drop, zero, suc, Bool, true, false, not, is_negative, ascii,
}
use cubrid_go.Result.{CubridError, GoError, base_error, integrity_error, programming_error}

-- `c += 'a' - 'A'` on an upper-case letter.
unfoldable pub lower_byte : ℕ → ℕ
lower_byte c = if leb b'A' c && leb c b'Z' then c + 32 else c

abbrev pub to_lower : List ℕ → List ℕ
to_lower s = map lower_byte s

-- `==` on strings.
unfoldable pub bytes_eq : List ℕ → List ℕ → Bool
bytes_eq [] [] = true
bytes_eq (x ∷ xs) (y ∷ ys) = (x == y) && bytes_eq xs ys
bytes_eq _ _ = false

-- The loop over `i`, with the rounds that are left.
unfoldable pub index_loop : ℕ → ℕ → List ℕ → List ℕ → ℤ
index_loop zero i s sub = negsuc 0
index_loop (suc rounds) i s sub =
    let rest = index_loop rounds (suc i) s sub in
    if bytes_eq (take (length sub) (drop i s)) sub then pos i else rest

-- `i <= len(sLow)-len(subLow)`: that many rounds, none if `sub` is longer.
unfoldable pub index_ci : List ℕ → List ℕ → ℤ
unfolding index_loop bytes_eq lower_byte
index_ci s sub =
    let s_low = to_lower s in
    let sub_low = to_lower sub in index_loop (length s_low + 1 - length sub_low) 0 s_low sub_low

unfoldable pub contains_ci : List ℕ → List ℕ → Bool
unfolding index_ci
contains_ci s sub = leb (length sub) (length s) && not (is_negative (index_ci s sub))

abbrev pub integrity_keywords : List (List ℕ)
integrity_keywords =
    ascii "unique" ∷ ascii "duplicate" ∷ ascii "foreign key" ∷ ascii "constraint violation" ∷ []

abbrev pub programming_keywords : List (List ℕ)
programming_keywords =
    ascii "syntax" ∷ ascii "unknown class" ∷ ascii "does not exist" ∷ ascii "not found" ∷ []

-- A `for` over keywords that returns at the first that the message contains.
unfoldable pub any_keyword : List (List ℕ) → List ℕ → Bool
unfolding contains_ci
any_keyword [] msg = false
any_keyword (kw ∷ kws) msg =
    let rest = any_keyword kws msg in if contains_ci msg kw then true else rest

unfoldable pub new_error : ℤ → List ℕ → GoError
unfolding any_keyword
new_error code message =
    let base : CubridError = record { code = code; message = message } in
    if any_keyword integrity_keywords message
    then integrity_error base
    else if any_keyword programming_keywords message
    then programming_error base
    else base_error base
