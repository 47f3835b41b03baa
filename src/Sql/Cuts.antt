-- ===== src/Sql/Cuts.antt =====
-- A statement cut at the positions that InterpolateArgs of types.go works with.
use cubrid_go.Prelude.{
  ℕ, ◌+◌, ◌-◌, leb, ◌≡◌, refl, sym, ap, ◌∙◌, List, [], ◌∷◌, ◌++◌, suc, true, length, arith,
  append_assoc, append-nil, length-append, drop-append, take-append,
}
use cubrid_go.Result.{Result, ok, err, panic, ◌>>=◌}
use cubrid_go.Sql.Interpolate.{slice}
use cubrid_go.Sql.Pass.{copy}

slice_parts :
    (before mid after : List ℕ)
    → slice (length before) (length before + length mid) (before ++ (mid ++ after)) ≡ ok mid
unfolding slice
slice_parts before mid after =
    let inside : leb (length before + length mid) (length (before ++ (mid ++ after))) ≡ true =
      ground (arith, length-append before (mid ++ after), length-append mid after) in
    let ordered : leb (length before) (length before + length mid) ≡ true = ground arith in
    let gap : length before + length mid - length before ≡ length mid = omega arith in
    rw (ordered, inside, gap, drop-append before (mid ++ after), take-append mid after)

-- The text that is still to be written, `mid`, and what is written, `out`.
abbrev pub finish : List ℕ → List ℕ → Result (List ℕ) → Result (List ℕ)
finish out mid rest = do after ← rest; ok (out ++ (mid ++ after))

pub finish-copy :
    (out mid bytes : List ℕ) (rest : Result (List ℕ))
    → finish out (mid ++ bytes) rest ≡ finish out mid (copy bytes rest)
finish-copy out mid bytes (ok after) =
    ap (λ (t : List ℕ). ok (out ++ t)) (append_assoc mid bytes after)
finish-copy out mid bytes (err e) = refl
finish-copy out mid bytes panic = refl

pub finish-fill :
    (out mid formatted : List ℕ) (rest : Result (List ℕ))
    → finish ((out ++ mid) ++ formatted) [] rest ≡ finish out mid (copy formatted rest)
finish-fill out mid formatted (ok after) =
    ap ok (append_assoc (out ++ mid) formatted after ∙ append_assoc out mid (formatted ++ after))
finish-fill out mid formatted (err e) = refl
finish-fill out mid formatted panic = refl

-- What the statement is cut into: `before` is behind `prev`, `mid` lies between `prev` and `i`.
pub record Cut (sql before mid rest : List ℕ) (prev i : ℕ) : Type 0 where
  pub whole : sql ≡ before ++ (mid ++ rest)
  pub prev_eq : prev ≡ length before
  pub i_eq : i ≡ length before + length mid

pub slice-Cut :
    {sql before mid rest : List ℕ} {prev i : ℕ}
    → Cut sql before mid rest prev i
    → slice prev i sql ≡ ok mid
slice-Cut {before = before} {mid} {rest} c =
    rw (c.whole, c.prev_eq, c.i_eq) (slice_parts before mid rest)

pub slice-Cut_end :
    {sql before mid : List ℕ} {prev i : ℕ} (rest : List ℕ)
    → Cut sql before mid rest prev i
    → slice prev (length sql) sql ≡ ok (mid ++ rest)
slice-Cut_end {sql} {before} {mid} rest c =
    let total : length sql ≡ length before + length (mid ++ rest) =
      ap (length {A = ℕ}) c.whole ∙ length-append before (mid ++ rest) in
    slice-Cut (record {
      whole = c.whole ∙ ap (λ (t : List ℕ). before ++ t) (sym (append-nil (mid ++ rest)));
      prev_eq = c.prev_eq;
      i_eq = total;
    })

pub Cut-step :
    {sql before mid : List ℕ} {prev i : ℕ} (bytes rest : List ℕ) (j : ℕ)
    → j ≡ i + length bytes
    → Cut sql before mid (bytes ++ rest) prev i
    → Cut sql before (mid ++ bytes) rest prev j
Cut-step {sql} {before} {mid} bytes rest j e c = record {
  whole = c.whole ∙ ap (λ (t : List ℕ). before ++ t) (sym (append_assoc mid bytes rest));
  prev_eq = c.prev_eq;
  i_eq = omega (arith, c.i_eq, length-append mid bytes);
}

pub Cut-next :
    {sql before mid : List ℕ} {prev i : ℕ} (ch : ℕ) (rest : List ℕ)
    → Cut sql before mid (ch ∷ rest) prev i
    → Cut sql (before ++ (mid ++ (ch ∷ []))) [] rest (i + 1) (suc i)
Cut-next {sql} {before} {mid} ch rest c =
    let size : length (before ++ (mid ++ (ch ∷ []))) ≡ length before + (length mid + 1) =
      length-append before (mid ++ (ch ∷ []))
      ∙ ap (λ (n : ℕ). length before + n) (length-append mid (ch ∷ [])) in
    record {
      whole =
          c.whole
          ∙ ap (λ (t : List ℕ). before ++ t) (sym (append_assoc mid (ch ∷ []) rest))
          ∙ sym (append_assoc before (mid ++ (ch ∷ [])) rest);
      prev_eq = omega (arith, c.i_eq);
      i_eq = omega (arith, c.i_eq);
    }
