-- ===== src/Stmt/Counts.antt =====
-- The counts that Exec adds up.
use cubrid_go.Prelude.{
  ℕ, ℤ, pos, negsuc, Fits, pos_part, neg_part, signed64-wrap, ◌+ℤ◌, ◌+◌, ◌*◌, ◌^◌, ◌<◌, ◌≤◌, ◌≡◌,
  refl, List, [], ◌∷◌, length, arith, All,
}
use cubrid_go.Protocol.Types.{ResultInfo}
use cubrid_go.Stmt.Execute.{sum_affected}

-- The sum of the counts, behind one so far, on integers that have no bound.
abbrev pub exact_sum : ℤ → List ResultInfo → ℤ
exact_sum sum [] = sum
exact_sum sum (info ∷ infos) = exact_sum (sum +ℤ info.result_count) infos

abbrev size : ℤ → ℕ
size z = pos_part z + neg_part z

size_add : (a b : ℤ) → size (a +ℤ b) ≤ size a + size b
unfolding ◌+ℤ◌
size_add (pos a) (pos b) = ground arith
size_add (pos a) (negsuc b) = ground arith
size_add (negsuc a) (pos b) = ground arith
size_add (negsuc a) (negsuc b) = ground arith

size-Fits : (z : ℤ) → size z < 2 ^ 63 → Fits 63 z
size-Fits (pos n) h = omega (arith, h)
size-Fits (negsuc n) h = omega (arith, h)

Fits-size : (z : ℤ) → Fits 31 z → size z ≤ 2 ^ 31
Fits-size (pos n) h = omega (arith, h)
Fits-size (negsuc n) h = omega (arith, h)

sum_affected-exact :
    (sum : ℤ) (infos : List ResultInfo)
    → All (λ i. Fits 31 i.result_count) infos
    → size sum + length infos * 2 ^ 31 < 2 ^ 63
    → sum_affected sum infos ≡ exact_sum sum infos
unfolding sum_affected
sum_affected-exact sum [] fits room = refl
sum_affected-exact sum (info ∷ infos) fits room =
    let step = size_add sum info.result_count in
    let small = Fits-size info.result_count fits.0 in
    let whole : size (sum +ℤ info.result_count) < 2 ^ 63 = omega (arith, step, small, room) in
    rw (signed64-wrap (sum +ℤ info.result_count) (size-Fits (sum +ℤ info.result_count) whole)) (
      sum_affected-exact (sum +ℤ info.result_count) infos fits.1 (omega (arith, step, small, room)))

-- The counts of fewer than 2 ^ 32 infos, each of which an int32 holds, are added up without
-- overflow of the int64: RowsAffected is their sum on unbounded integers.
pub sum_affected-no_overflow :
    (infos : List ResultInfo)
    → All (λ i. Fits 31 i.result_count) infos
    → length infos < 2 ^ 32
    → sum_affected (pos 0) infos ≡ exact_sum (pos 0) infos
sum_affected-no_overflow infos fits few = sum_affected-exact (pos 0) infos fits (omega (arith, few))
