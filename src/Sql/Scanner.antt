-- ===== src/Sql/Scanner.antt =====
-- types.go, findBindPlaceholders: the scan over the bytes of a statement.
use cubrid_go.Prelude.{
  ℕ, ◌==◌, if◌then◌else◌, List, [], ◌∷◌, suc, Bool, false, Option, none, some, ◌≡◌, refl, ap, ◌∙◌,
}

pub data ScanState : Type 0 where
  normal single_quote block_comment line_comment : ScanState

-- What the `switch` does with one byte: go on in a state, go on past the next byte too (`i++`), or
-- note a placeholder.
pub data Action : Type 0 where
  go_on jump : ScanState → Action
  placeholder : Action

-- `i+1 < len(sql) && sql[i+1] == b`
unfoldable pub next_is : Option ℕ → ℕ → Bool
next_is none b = false
next_is (some c) b = c == b

unfoldable pub scan_byte : ScanState → ℕ → Option ℕ → Action
unfolding next_is
scan_byte normal ch next =
    if ch == 39
    then go_on single_quote
    else if ch == b'/'
    then (if next_is next b'*' then jump block_comment else go_on normal)
    else if ch == b'-'
    then (if next_is next b'-' then jump line_comment else go_on normal)
    else if ch == b'?'
    then placeholder
    else go_on normal
scan_byte single_quote ch next =
    if ch == 39
    then (if next_is next 39 then jump single_quote else go_on normal)
    else go_on single_quote
scan_byte block_comment ch next =
    if ch == b'*'
    then (if next_is next b'/' then jump normal else go_on block_comment)
    else go_on block_comment
scan_byte line_comment ch next = if ch == 10 then go_on normal else go_on line_comment

-- The loop, from byte `i` on, over the bytes that are left.
unfoldable pub scan_loop : ScanState → ℕ → List ℕ → List ℕ
scan_loop st i [] = []
scan_loop st i (ch ∷ []) = elim (scan_byte st ch none) [
  | go_on st' ↦ []
  | jump st' ↦ []
  | placeholder ↦ i ∷ []
]
scan_loop st i (ch ∷ c ∷ rest) = elim (scan_byte st ch (some c)) [
  | go_on st' ↦ scan_loop st' (suc i) (c ∷ rest)
  | jump st' ↦ scan_loop st' (suc (suc i)) rest
  | placeholder ↦ i ∷ scan_loop normal (suc i) (c ∷ rest)
]

unfoldable pub find_bind_placeholders : List ℕ → List ℕ
unfolding scan_loop scan_byte
find_bind_placeholders sql = scan_loop normal 0 sql

-- One round of the loop, once its action is known.
module _ (st : ScanState) (ch c : ℕ) (rest : List ℕ) (i : ℕ) where
  abbrev pub after_action : Action → List ℕ
  after_action (go_on st') = scan_loop st' (suc i) (c ∷ rest)
  after_action (jump st') = scan_loop st' (suc (suc i)) rest
  after_action placeholder = i ∷ scan_loop normal (suc i) (c ∷ rest)

  after_action_lem : scan_loop st i (ch ∷ c ∷ rest) ≡ after_action (scan_byte st ch (some c))
  unfolding scan_loop
  after_action_lem = split (scan_byte st ch (some c))
    where
      split :
          (a : Action)
          → (elim a [
            | go_on st' ↦ scan_loop st' (suc i) (c ∷ rest)
            | jump st' ↦ scan_loop st' (suc (suc i)) rest
            | placeholder ↦ i ∷ scan_loop normal (suc i) (c ∷ rest)
          ])
            ≡ after_action a
      split (go_on st') = refl
      split (jump st') = refl
      split placeholder = refl

  pub scan_loop_step :
      (a : Action) → scan_byte st ch (some c) ≡ a → scan_loop st i (ch ∷ c ∷ rest) ≡ after_action a
  scan_loop_step a e = after_action_lem ∙ ap after_action e

-- The round on the last byte.
abbrev pub at_last : ℕ → Action → List ℕ
at_last i (go_on st') = []
at_last i (jump st') = []
at_last i placeholder = i ∷ []

pub scan_loop_last :
    (st : ScanState) (ch i : ℕ) (a : Action)
    → scan_byte st ch none ≡ a
    → scan_loop st i (ch ∷ []) ≡ at_last i a
unfolding scan_loop
scan_loop_last st ch i a e = split (scan_byte st ch none) ∙ ap (at_last i) e
  where
    split :
        (b : Action)
        → (elim b [ go_on st' ↦ [] | jump st' ↦ [] | placeholder ↦ i ∷ [] ]) ≡ at_last i b
    split (go_on st') = refl
    split (jump st') = refl
    split placeholder = refl
