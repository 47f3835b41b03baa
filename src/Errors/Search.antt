-- ===== src/Errors/Search.antt =====
-- `containsCI` against occurrence: a part of the message is the keyword, up to the case of letters.
use cubrid_go.Prelude.{
  ℕ, ℤ, pos, negsuc, ◌+◌, ◌-◌, ◌<◌, ◌≤◌, leb, ◌≡◌, ◌≢◌, refl, sym, ap, ◌∙◌, ◌↔◌, ◌⊎◌, inl, inr,
  List, [], ◌∷◌, ◌++◌, length, take, drop, zero, suc, Bool, true, false, not, is_negative, arith,
  Bool-cases, take-append-drop, take-append, drop-append, length-append, length-map,
}
use cubrid_go.Errors.{to_lower, lower_byte, bytes_eq, index_loop, index_ci, contains_ci}

pub bytes_eq_refl : (xs : List ℕ) → bytes_eq xs xs ≡ true
unfolding bytes_eq
bytes_eq_refl [] = refl
bytes_eq_refl (x ∷ xs) = ground (arith, bytes_eq_refl xs)

pub bytes_eq→eq : (xs ys : List ℕ) → bytes_eq xs ys ≡ true → xs ≡ ys
unfolding bytes_eq
bytes_eq→eq [] [] h = refl
bytes_eq→eq [] (y ∷ ys) h = cc
bytes_eq→eq (x ∷ xs) [] h = cc
bytes_eq→eq (x ∷ xs) (y ∷ ys) h = ground (arith, bytes_eq→eq xs ys)

-- The same byte, or the two cases of an ASCII letter.
abbrev pub SameLetter : ℕ → ℕ → Type 0
SameLetter c d =
    (c ≡ d) ⊎ ((65 ≤ c) × (c ≤ 90) × (d ≡ c + 32)) ⊎ ((65 ≤ d) × (d ≤ 90) × (c ≡ d + 32))

abbrev pub SameText : List ℕ → List ℕ → Type 0
SameText [] [] = Unit
SameText (c ∷ cs) (d ∷ ds) = SameLetter c d × SameText cs ds
SameText _ _ = ⊥

-- `kw` occurs in `msg`, whatever the case of their ASCII letters.
abbrev pub Occurs : List ℕ → List ℕ → Type 0
Occurs kw msg = (before mid after : List ℕ) × (msg ≡ before ++ (mid ++ after)) × SameText mid kw

SameLetter-lower_byte : (c d : ℕ) → lower_byte c ≡ lower_byte d → SameLetter c d
unfolding lower_byte
SameLetter-lower_byte c d h = ground arith

lower_byte-SameLetter : (c d : ℕ) → SameLetter c d → lower_byte c ≡ lower_byte d
unfolding lower_byte
lower_byte-SameLetter c d h = ground arith

SameText-to_lower : (cs ds : List ℕ) → to_lower cs ≡ to_lower ds → SameText cs ds
SameText-to_lower [] [] h = tt
SameText-to_lower [] (d ∷ ds) h = cc
SameText-to_lower (c ∷ cs) [] h = cc
SameText-to_lower (c ∷ cs) (d ∷ ds) h = (SameLetter-lower_byte c d cc, SameText-to_lower cs ds cc)

to_lower-SameText : (cs ds : List ℕ) → SameText cs ds → to_lower cs ≡ to_lower ds
to_lower-SameText [] [] h = refl
to_lower-SameText [] (d ∷ ds) h = absurd h
to_lower-SameText (c ∷ cs) [] h = absurd h
to_lower-SameText (c ∷ cs) (d ∷ ds) h =
    rw (lower_byte-SameLetter c d h.0, to_lower-SameText cs ds h.1) refl

to_lower-append : (xs ys : List ℕ) → to_lower (xs ++ ys) ≡ to_lower xs ++ to_lower ys
to_lower-append [] ys = refl
to_lower-append (x ∷ xs) ys = ap (λ (t : List ℕ). lower_byte x ∷ t) (to_lower-append xs ys)

to_lower-take : (n : ℕ) (xs : List ℕ) → to_lower (take n xs) ≡ take n (to_lower xs)
to_lower-take zero xs = refl
to_lower-take (suc n) [] = refl
to_lower-take (suc n) (x ∷ xs) = ap (λ (t : List ℕ). lower_byte x ∷ t) (to_lower-take n xs)

to_lower-drop : (n : ℕ) (xs : List ℕ) → to_lower (drop n xs) ≡ drop n (to_lower xs)
to_lower-drop zero xs = refl
to_lower-drop (suc n) [] = refl
to_lower-drop (suc n) (x ∷ xs) = to_lower-drop n xs

module _ (s sub : List ℕ) where
  found_at : ℕ → Bool
  found_at j = bytes_eq (take (length sub) (drop j s)) sub

  index_loop_found : (rounds i j : ℕ) → index_loop rounds i s sub ≡ pos j → found_at j ≡ true
  unfolding index_loop found_at
  index_loop_found zero i j h = cc
  index_loop_found (suc rounds) i j h = elim (Bool-cases (found_at i)) [
    | inl here ↦
        let e : pos i ≡ pos j = ground arith in let same : i ≡ j = ground arith in rw (← same) here
    | inr later ↦ index_loop_found rounds (suc i) j (ground arith)
  ]

  index_loop_finds :
      (rounds i j : ℕ)
      → i ≤ j
      → j < i + rounds
      → found_at j ≡ true
      → is_negative (index_loop rounds i s sub) ≡ false
  unfolding index_loop found_at
  index_loop_finds zero i j lo hi h = absurd (omega arith)
  index_loop_finds (suc rounds) i j lo hi h = elim (Bool-cases (found_at i)) [
    | inl here ↦ rw here
    | inr later ↦
        let moved : i ≢ j = λ e. cc in
        rw later (index_loop_finds rounds (suc i) j (omega arith) (omega arith) h)
  ]

splits : (msg : List ℕ) (j n : ℕ) → msg ≡ take j msg ++ (take n (drop j msg) ++ drop n (drop j msg))
splits msg j n =
    sym (take-append-drop j msg)
    ∙ ap (λ (t : List ℕ). take j msg ++ t) (sym (take-append-drop n (drop j msg)))

found_in_parts :
    (before sub after s : List ℕ)
    → s ≡ before ++ (sub ++ after)
    → found_at s sub (length before) ≡ true
unfolding found_at
found_in_parts before sub after s h =
    rw (h, drop-append before (sub ++ after), take-append sub after) (bytes_eq_refl sub)

nonneg_cases : (z : ℤ) → not (is_negative z) ≡ true → (n : ℕ) × (z ≡ pos n)
nonneg_cases (pos n) h = (n, refl)
nonneg_cases (negsuc n) h = cc

contains_ci→Occurs : (msg kw : List ℕ) → contains_ci msg kw ≡ true → Occurs kw msg
unfolding contains_ci
contains_ci→Occurs msg kw h =
    let (j, e) = nonneg_cases (index_ci msg kw) (ground arith) in
    let found : found_at (to_lower msg) (to_lower kw) j ≡ true =
      unfold index_ci in index_loop_found (to_lower msg) (to_lower kw) _ 0 j e in
    let cut : take (length (to_lower kw)) (drop j (to_lower msg)) ≡ to_lower kw =
      bytes_eq→eq _ _ (unfold found_at in found) in
    let same : to_lower (take (length kw) (drop j msg)) ≡ to_lower kw =
      to_lower-take (length kw) (drop j msg)
      ∙ ap (take (length kw)) (to_lower-drop j msg)
      ∙ ap (λ (n : ℕ). take n (drop j (to_lower msg))) (sym (length-map kw lower_byte))
      ∙ cut in
    (
      take j msg,
      take (length kw) (drop j msg),
      drop (length kw) (drop j msg),
      splits msg j (length kw),
      SameText-to_lower _ _ same,
    )

-- The lower-cased message in the parts of the message.
lower_parts :
    (msg kw before mid after : List ℕ)
    → msg ≡ before ++ (mid ++ after)
    → SameText mid kw
    → to_lower msg ≡ to_lower before ++ (to_lower kw ++ to_lower after)
lower_parts msg kw before mid after e same =
    ap to_lower e
    ∙ to_lower-append before (mid ++ after)
    ∙ ap (λ (t : List ℕ). to_lower before ++ t)
        (to_lower-append mid after
          ∙ ap (λ (t : List ℕ). t ++ to_lower after) (to_lower-SameText mid kw same))

parts→contains_ci :
    (msg kw before after : List ℕ)
    → to_lower msg ≡ before ++ (to_lower kw ++ after)
    → contains_ci msg kw ≡ true
unfolding contains_ci index_ci
parts→contains_ci msg kw before after e =
    let total : length msg ≡ length before + (length kw + length after) =
      sym (length-map msg lower_byte)
      ∙ ap (length {A = ℕ}) e
      ∙ length-append before (to_lower kw ++ after)
      ∙ ap (λ (n : ℕ). length before + n)
          (length-append (to_lower kw) after
            ∙ ap (λ (n : ℕ). n + length after) (length-map kw lower_byte)) in
    let nonneg : is_negative (
          index_loop (length (to_lower msg) + 1 - length (to_lower kw)) 0 (to_lower msg)
            (to_lower kw))
        ≡ false =
      index_loop_finds (to_lower msg) (to_lower kw) _ 0 (length before) (omega arith)
        (rw (length-map msg lower_byte, length-map kw lower_byte) (omega arith))
        (found_in_parts before (to_lower kw) after (to_lower msg) e) in
    let fits : leb (length kw) (length msg) ≡ true = ground arith in rw (fits, nonneg)

Occurs→contains_ci : (msg kw : List ℕ) → Occurs kw msg → contains_ci msg kw ≡ true
Occurs→contains_ci msg kw (before, mid, after, e, same) =
    parts→contains_ci msg kw (to_lower before) (to_lower after)
      (lower_parts msg kw before mid after e same)

-- `containsCI` finds a text exactly if the message has a part of its length that is the same byte
-- for byte, but for the case of the letters A to Z.
pub contains_ci_iff : (msg kw : List ℕ) → (contains_ci msg kw ≡ true) ↔ Occurs kw msg
contains_ci_iff msg kw = (contains_ci→Occurs msg kw, Occurs→contains_ci msg kw)
