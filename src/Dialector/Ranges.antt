-- ===== src/Dialector/Ranges.antt =====
-- The integer types that DataTypeOf chooses hold the values of the field.
use cubrid_go.Prelude.{
  ℕ, ℤ, suc, pos, negsuc, Fits, Bool-cases, ◌^◌, ◌≤◌, ◌<◌, ◌≡◌, refl, inl, inr, List, false, ascii,
  arith,
}
use native.Mathlib.Nat.{pow-le-pow_right}
use cubrid_go.Dialector.Types.{
  SchemaType, bool, int, uint, float, string, time, bytes, custom, Field, leb_ℤ, data_type_of,
  type_by_kind,
}

-- CUBRID's integer types: their names and the bits of their two's complement, less the sign's.
pub data IntType : Type 0 where
  smallint integer bigint : IntType

abbrev pub type_name : IntType → List ℕ
type_name smallint = ascii "SMALLINT"
type_name integer = ascii "INTEGER"
type_name bigint = ascii "BIGINT"

abbrev pub value_bits : IntType → ℕ
value_bits smallint = 15
value_bits integer = 31
value_bits bigint = 63

-- The values of a field of `suc k` bits: a Go integer, signed or not.
abbrev pub IsValue : SchemaType → ℕ → ℤ → Type 0
IsValue int k z = Fits k z
IsValue uint k (pos n) = n < 2 ^ suc k
IsValue _ k z = ⊥

Fits-le : (a b : ℕ) (z : ℤ) → a ≤ b → Fits a z → Fits b z
Fits-le a b (pos n) h f = omega (arith, pow-le-pow_right {n = 2} (omega arith) h)
Fits-le a b (negsuc n) h f = omega (arith, pow-le-pow_right {n = 2} (omega arith) h)

-- The kind of an integer field, and its width less one: up to 64 bits signed and 63 unsigned.
abbrev pub IsInteger : SchemaType → ℕ → Type 0
IsInteger int k = k < 64
IsInteger uint k = k < 63
IsInteger _ k = ⊥

abbrev Holds : SchemaType → ℕ → List ℕ → Type 0
Holds kind k name =
    (t : IntType) × (name ≡ type_name t) × ((z : ℤ) → IsValue kind k z → Fits (value_bits t) z)

unsigned-Fits : (k b : ℕ) (z : ℤ) → suc k ≤ b → IsValue uint k z → Fits b z
unsigned-Fits k b (pos n) h v = Fits-le (suc k) b (pos n) h v
unsigned-Fits k b (negsuc n) h v = absurd v

kind-Holds :
    (kind : SchemaType) (field : Field) (k : ℕ)
    → IsInteger kind k
    → field.size ≡ pos (suc k)
    → Holds kind k (type_by_kind kind field)
unfolding type_by_kind
kind-Holds int field k h size = elim (Bool-cases (leb_ℤ (pos (suc k)) (pos 16))) [
  | inl small ↦ (smallint, rw (size, small) refl, λ z v. Fits-le k 15 z (ground arith) v)
  | inr more ↦ elim (Bool-cases (leb_ℤ (pos (suc k)) (pos 32))) [
    | inl medium ↦ (integer, rw (size, more, medium) refl, λ z v. Fits-le k 31 z (ground arith) v)
    | inr large ↦ (bigint, rw (size, more, large) refl, λ z v. Fits-le k 63 z (omega arith) v)
  ]
]
kind-Holds uint field k h size = elim (Bool-cases (leb_ℤ (pos (suc k)) (pos 8))) [
  | inl small ↦ (smallint, rw (size, small) refl, λ z v. unsigned-Fits k 15 z (ground arith) v)
  | inr more ↦ elim (Bool-cases (leb_ℤ (pos (suc k)) (pos 16))) [
    | inl medium ↦
        (integer, rw (size, more, medium) refl, λ z v. unsigned-Fits k 31 z (ground arith) v)
    | inr large ↦ elim (Bool-cases (leb_ℤ (pos (suc k)) (pos 32))) [
      | inl wide ↦
          (bigint, rw (size, more, large, wide) refl, λ z v. unsigned-Fits k 63 z (omega arith) v)
      | inr widest ↦
          (bigint, rw (size, more, large, widest) refl, λ z v. unsigned-Fits k 63 z (omega arith) v)
    ]
  ]
]
kind-Holds bool field k h size = absurd h
kind-Holds float field k h size = absurd h
kind-Holds string field k h size = absurd h
kind-Holds time field k h size = absurd h
kind-Holds bytes field k h size = absurd h
kind-Holds (custom t) field k h size = absurd h

-- For an integer field without AUTO_INCREMENT, signed of 1 to 64 bits or unsigned of 1 to 63,
-- DataTypeOf names an integer type of CUBRID whose values include every value of the field.
pub data_type_of-Holds :
    (field : Field) (k : ℕ)
    → field.auto_increment ≡ false
    → field.size ≡ pos (suc k)
    → IsInteger field.data_type k
    → (z : ℤ) → IsValue field.data_type k z
    → (t : IntType) × (data_type_of field ≡ type_name t) × Fits (value_bits t) z
unfolding data_type_of
data_type_of-Holds field k plain size h z v =
    let (t, named, holds) = kind-Holds field.data_type field k h size in
    (t, simp plain named, holds z v)
