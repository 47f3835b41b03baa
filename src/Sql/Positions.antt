-- ===== src/Sql/Positions.antt =====
-- Where the placeholders are.
use cubrid_go.Prelude.{
  ℕ, ◌≤◌, ◌≡◌, refl, inl, inr, List, [], ◌∷◌, zero, suc, drop, get_elem?, Option, none, some, arith,
}
use cubrid_go.Sql.Scanner.{
  ScanState, normal, single_quote, block_comment, line_comment, go_on, jump, placeholder, scan_byte,
  scan_loop, scan_loop_step, scan_loop_last, find_bind_placeholders,
}
use cubrid_go.Sql.Pass.{Action-cases}

-- Positions from `i` on, each past the one before, each of a question mark of the statement of
-- which `rest` stands at `i`.
abbrev pub Marks : ℕ → List ℕ → List ℕ → Type 0
Marks i sql [] = Unit
Marks i sql (p ∷ ps) = (i ≤ p) × (get_elem? sql p ≡ some b'?') × Marks (suc p) sql ps

Marks-weaken : (i j : ℕ) (sql ps : List ℕ) → i ≤ j → Marks j sql ps → Marks i sql ps
Marks-weaken i j sql [] h m = tt
Marks-weaken i j sql (p ∷ ps) h (lo, here, later) = (omega arith, here, later)

scan_byte-placeholder :
    (st : ScanState) (ch : ℕ) (next : Option ℕ) → scan_byte st ch next ≡ placeholder → ch ≡ b'?'
unfolding scan_byte
scan_byte-placeholder normal ch next e = ground arith
scan_byte-placeholder single_quote ch next e = ground arith
scan_byte-placeholder block_comment ch next e = ground arith
scan_byte-placeholder line_comment ch next e = ground arith

module _ (sql : List ℕ) where
  at_head : (i ch : ℕ) (rest : List ℕ) → drop i sql ≡ ch ∷ rest → get_elem? sql i ≡ some ch
  at_head i ch rest e = go sql i e
    where
      go : (xs : List ℕ) (i : ℕ) → drop i xs ≡ ch ∷ rest → get_elem? xs i ≡ some ch
      go [] zero e = cc
      go [] (suc i) e = cc
      go (x ∷ xs) zero e = cc
      go (x ∷ xs) (suc i) e = go xs i e

  next_head : (i : ℕ) (ch : ℕ) (rest : List ℕ) → drop i sql ≡ ch ∷ rest → drop (suc i) sql ≡ rest
  next_head i ch rest e = go sql i e
    where
      go : (xs : List ℕ) (i : ℕ) → drop i xs ≡ ch ∷ rest → drop (suc i) xs ≡ rest
      go [] zero e = cc
      go [] (suc i) e = cc
      go (x ∷ xs) zero e = cc
      go (x ∷ xs) (suc i) e = go xs i e

  mark_here :
      (st : ScanState) (i ch : ℕ) (next : Option ℕ) (rest : List ℕ)
      → drop i sql ≡ ch ∷ rest
      → scan_byte st ch next ≡ placeholder
      → get_elem? sql i ≡ some b'?'
  mark_here st i ch next rest e p = rw (← scan_byte-placeholder st ch next p) (at_head i ch rest e)

  Marks-scan_loop :
      (st : ScanState) (i : ℕ) (rest : List ℕ)
      → drop i sql ≡ rest
      → Marks i sql (scan_loop st i rest)
  Marks-scan_loop st i [] e = unfold scan_loop in tt
  Marks-scan_loop st i (ch ∷ []) e = elim (Action-cases (scan_byte st ch none)) [
    | inl (st', a) ↦ rw (scan_loop_last st ch i (go_on st') a) tt
    | inr (inl (st', a)) ↦ rw (scan_loop_last st ch i (jump st') a) tt
    | inr (inr a) ↦
        rw (scan_loop_last st ch i placeholder a) (omega arith, mark_here st i ch none [] e a, tt)
  ]
  Marks-scan_loop st i (ch ∷ c ∷ rest) e =
      let later = next_head i ch (c ∷ rest) e in
      elim (Action-cases (scan_byte st ch (some c))) [
        | inl (st', a) ↦ rw (scan_loop_step st ch c rest i (go_on st') a) (
            Marks-weaken i (suc i) sql _ (omega arith)
              (Marks-scan_loop st' (suc i) (c ∷ rest) later))
        | inr (inl (st', a)) ↦ rw (scan_loop_step st ch c rest i (jump st') a) (
            Marks-weaken i (suc (suc i)) sql _ (omega arith)
              (Marks-scan_loop st' (suc (suc i)) rest (next_head (suc i) c rest later)))
        | inr (inr a) ↦ rw (scan_loop_step st ch c rest i placeholder a) (
          omega arith,
          mark_here st i ch (some c) (c ∷ rest) e a,
          Marks-scan_loop normal (suc i) (c ∷ rest) later,
        )
      ]

-- The positions of `findBindPlaceholders` rise strictly, and at each of them the statement has a
-- question mark.
pub find_bind_placeholders-Marks : (sql : List ℕ) → Marks 0 sql (find_bind_placeholders sql)
unfolding find_bind_placeholders
find_bind_placeholders-Marks sql = Marks-scan_loop sql normal 0 sql refl
