-- ===== src/Wire.antt =====
-- encoding/binary, `BigEndian`: unsigned words as bytes, the highest byte first.
use cubrid_go.Prelude.{
  ℕ, ◌+◌, ◌*◌, ◌/◌, ◌%◌, ◌^◌, ◌<◌, ◌≡◌, refl, List, [], ◌∷◌, ◌++◌, Option, none, some, arith,
  length, All,
}

abbrev pub IsByte : ℕ → Type 0
IsByte b = b < 256

unfoldable pub put_uint16 : ℕ → List ℕ
put_uint16 w = (w / 256 % 256) ∷ (w % 256) ∷ []

unfoldable pub put_uint32 : ℕ → List ℕ
put_uint32 w = (w / 2 ^ 24 % 256) ∷ (w / 2 ^ 16 % 256) ∷ (w / 2 ^ 8 % 256) ∷ (w % 256) ∷ []

unfoldable pub put_uint64 : ℕ → List ℕ
unfolding put_uint32
put_uint64 w = put_uint32 (w / 2 ^ 32) ++ put_uint32 w

-- Reading: `none` is the index panic on a slice that is too short.
unfoldable pub uint16 : List ℕ → Option ℕ
uint16 (a ∷ b ∷ rest) = some (a * 256 + b)
uint16 _ = none

unfoldable pub uint32 : List ℕ → Option ℕ
uint32 (a ∷ b ∷ c ∷ d ∷ rest) = some (((a * 256 + b) * 256 + c) * 256 + d)
uint32 _ = none

unfoldable pub uint64 : List ℕ → Option ℕ
uint64 (a ∷ b ∷ c ∷ d ∷ e ∷ f ∷ g ∷ h ∷ rest) =
    some ((((a * 256 + b) * 256 + c) * 256 + d) * 2 ^ 32 + (((e * 256 + f) * 256 + g) * 256 + h))
uint64 _ = none

pub uint16-put_uint16 :
    (w : ℕ) (rest : List ℕ) → w < 2 ^ 16 → uint16 (put_uint16 w ++ rest) ≡ some w
unfolding put_uint16 uint16
uint16-put_uint16 w rest h = ground arith

pub uint32-put_uint32 :
    (w : ℕ) (rest : List ℕ) → w < 2 ^ 32 → uint32 (put_uint32 w ++ rest) ≡ some w
unfolding put_uint32 uint32
uint32-put_uint32 w rest h = ground arith

pub uint64-put_uint64 :
    (w : ℕ) (rest : List ℕ) → w < 2 ^ 64 → uint64 (put_uint64 w ++ rest) ≡ some w
unfolding put_uint64 uint64
uint64-put_uint64 w rest h = ground arith

pub length-put_uint16 : (w : ℕ) → length (put_uint16 w) ≡ 2
unfolding put_uint16
length-put_uint16 w = refl

pub length-put_uint32 : (w : ℕ) → length (put_uint32 w) ≡ 4
unfolding put_uint32
length-put_uint32 w = refl

pub length-put_uint64 : (w : ℕ) → length (put_uint64 w) ≡ 8
unfolding put_uint64
length-put_uint64 w = refl

pub put_uint32-IsByte : (w : ℕ) → All IsByte (put_uint32 w)
unfolding put_uint32
put_uint32-IsByte w = omega arith
