-- ===== src/Sql/Pass.antt =====
-- Interpolation as one pass: the scan copies the statement and puts a literal for each placeholder.
use cubrid_go.Prelude.{ℕ, ◌≡◌, refl, ap, ◌∙◌, ◌⊎◌, inl, inr, List, [], ◌∷◌, ◌++◌, none, some}
use cubrid_go.Result.{Result, ok, panic, ◌>>=◌}
use cubrid_go.Runtime.{Runtime, Value}
use cubrid_go.Sql.Scanner.{ScanState, normal, Action, go_on, jump, placeholder, scan_byte}
use cubrid_go.Sql.Literal.{format_value}

abbrev pub copy : List ℕ → Result (List ℕ) → Result (List ℕ)
copy bytes rest = do after ← rest; ok (bytes ++ after)

module _ (go : Runtime) where
  -- The literal of the next argument and what follows it.
  abbrev pub fill : List Value → (List Value → Result (List ℕ)) → Result (List ℕ)
  fill [] rest = panic
  fill (arg ∷ args) rest = do
    formatted ← format_value go arg
    after ← rest args
    ok (formatted ++ after)

  unfoldable pub substitute : ScanState → List ℕ → List Value → Result (List ℕ)
  substitute st [] args = ok []
  substitute st (ch ∷ []) args = elim (scan_byte st ch none) [
    | go_on st' ↦ ok (ch ∷ [])
    | jump st' ↦ ok (ch ∷ [])
    | placeholder ↦ fill args (λ args'. ok [])
  ]
  substitute st (ch ∷ c ∷ rest) args = elim (scan_byte st ch (some c)) [
    | go_on st' ↦ copy (ch ∷ []) (substitute st' (c ∷ rest) args)
    | jump st' ↦ copy (ch ∷ c ∷ []) (substitute st' rest args)
    | placeholder ↦ fill args (substitute normal (c ∷ rest))
  ]

  -- One round of the pass, once its action is known.
  module _ (st : ScanState) (ch c : ℕ) (rest : List ℕ) (args : List Value) where
    abbrev pub after_copy : Action → Result (List ℕ)
    after_copy (go_on st') = copy (ch ∷ []) (substitute st' (c ∷ rest) args)
    after_copy (jump st') = copy (ch ∷ c ∷ []) (substitute st' rest args)
    after_copy placeholder = fill args (substitute normal (c ∷ rest))

    after_copy_lem : substitute st (ch ∷ c ∷ rest) args ≡ after_copy (scan_byte st ch (some c))
    unfolding substitute
    after_copy_lem = split (scan_byte st ch (some c))
      where
        split :
            (a : Action)
            → (elim a [
              | go_on st' ↦ copy (ch ∷ []) (substitute st' (c ∷ rest) args)
              | jump st' ↦ copy (ch ∷ c ∷ []) (substitute st' rest args)
              | placeholder ↦ fill args (substitute normal (c ∷ rest))
            ])
              ≡ after_copy a
        split (go_on st') = refl
        split (jump st') = refl
        split placeholder = refl

    pub substitute_step :
        (a : Action)
        → scan_byte st ch (some c) ≡ a
        → substitute st (ch ∷ c ∷ rest) args ≡ after_copy a
    substitute_step a e = after_copy_lem ∙ ap after_copy e

pub Action-cases :
    (a : Action)
    → ((st : ScanState) × (a ≡ go_on st)) ⊎ ((st : ScanState) × (a ≡ jump st)) ⊎ (a ≡ placeholder)
Action-cases (go_on st) = inl (st, refl)
Action-cases (jump st) = inr (inl (st, refl))
Action-cases placeholder = inr (inr refl)
