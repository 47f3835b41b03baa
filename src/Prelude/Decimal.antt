-- ===== src/Prelude/Decimal.antt =====
-- Decimal printing of a number, as `strconv.FormatInt(v, 10)` does, and reading digits back.
use Prim.Native.Nat.{ℕ, zero, suc, ◌+◌, ◌-◌, ◌*◌, ◌/◌, ◌%◌, ◌≤◌, ◌<◌}
use mathlib.Core.Path.{◌≡◌, refl, ap, ◌∙◌}
use mathlib.Core.Logic.{inl, inr}
use mathlib.Core.List.{List, [], ◌∷◌, ◌++◌}
use native.Mathlib.Omega.{arith}
use cubrid_go.Prelude.Tests.{ltb, Bool-cases, if◌then◌else◌}
use cubrid_go.Prelude.Lists.{All, All-append}

-- One digit for each round; `suc n` rounds are more than enough for `n`.
print_fuel : ℕ → ℕ → List ℕ
print_fuel zero n = []
print_fuel (suc f) n =
    let front = print_fuel f (n / 10) in
    if ltb n 10 then (48 + n) ∷ [] else front ++ ((48 + n % 10) ∷ [])

unfoldable pub print_nat : ℕ → List ℕ
unfolding print_fuel
print_nat n = print_fuel (suc n) n

-- The number that a list of digits spells, behind the digits read so far.
abbrev pub read_digits : ℕ → List ℕ → ℕ
read_digits acc [] = acc
read_digits acc (c ∷ cs) = read_digits (acc * 10 + (c - 48)) cs

abbrev pub AllDigits : List ℕ → Type 0
AllDigits = All (λ c. (48 ≤ c) × (c ≤ 57))

read_digits-append :
    (acc : ℕ) (xs ys : List ℕ) → read_digits acc (xs ++ ys) ≡ read_digits (read_digits acc xs) ys
read_digits-append acc [] ys = refl
read_digits-append acc (x ∷ xs) ys = read_digits-append (acc * 10 + (x - 48)) xs ys

print_fuel-read_digits : (f n : ℕ) → n < f → read_digits 0 (print_fuel f n) ≡ n
unfolding print_fuel
print_fuel-read_digits zero n h = absurd (omega arith)
print_fuel-read_digits (suc f) n h = elim (Bool-cases (ltb n 10)) [
  | inl small ↦ rw small (omega arith)
  | inr large ↦ rw large (
      read_digits-append 0 (print_fuel f (n / 10)) ((48 + n % 10) ∷ [])
      ∙ ap (λ (k : ℕ). k * 10 + (48 + n % 10 - 48))
          (print_fuel-read_digits f (n / 10) (ground arith))
      ∙ omega arith)
]

pub print_nat-read_digits : (n : ℕ) → read_digits 0 (print_nat n) ≡ n
unfolding print_nat
print_nat-read_digits n = print_fuel-read_digits (suc n) n (omega arith)

print_fuel-AllDigits : (f n : ℕ) → AllDigits (print_fuel f n)
unfolding print_fuel
print_fuel-AllDigits zero n = tt
print_fuel-AllDigits (suc f) n = elim (Bool-cases (ltb n 10)) [
  | inl small ↦ rw small ((omega arith, ground arith), tt)
  | inr large ↦ rw large (
      All-append _ (print_fuel f (n / 10)) _ (print_fuel-AllDigits f (n / 10))
        ((omega arith, omega arith), tt))
]

pub print_nat-AllDigits : (n : ℕ) → AllDigits (print_nat n)
unfolding print_nat
print_nat-AllDigits n = print_fuel-AllDigits (suc n) n
