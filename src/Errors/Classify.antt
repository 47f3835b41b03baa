-- ===== src/Errors/Classify.antt =====
-- `newError`: which error type a message gets.
use cubrid_go.Prelude.{ℕ, ℤ, ◌≡◌, ◌⊎◌, inl, inr, List, [], ◌∷◌, true, false, arith, Bool-cases}
use cubrid_go.Result.{CubridError, base_error, integrity_error, programming_error}
use cubrid_go.Errors.{contains_ci, any_keyword, new_error, integrity_keywords, programming_keywords}
use cubrid_go.Errors.Search.{Occurs, contains_ci_iff}

-- One of the keywords occurs in the message.
abbrev pub Mentions : List (List ℕ) → List ℕ → Type 0
Mentions [] msg = ⊥
Mentions (kw ∷ kws) msg = Occurs kw msg ⊎ Mentions kws msg

any_keyword→Mentions :
    (kws : List (List ℕ)) (msg : List ℕ) → any_keyword kws msg ≡ true → Mentions kws msg
unfolding any_keyword
any_keyword→Mentions [] msg h = cc
any_keyword→Mentions (kw ∷ kws) msg h = elim (Bool-cases (contains_ci msg kw)) [
  | inl found ↦ inl ((contains_ci_iff msg kw).0 found)
  | inr missing ↦ inr (any_keyword→Mentions kws msg (ground arith))
]

Mentions→any_keyword :
    (kws : List (List ℕ)) (msg : List ℕ) → Mentions kws msg → any_keyword kws msg ≡ true
unfolding any_keyword
Mentions→any_keyword [] msg h = absurd h
Mentions→any_keyword (kw ∷ kws) msg (inl here) = rw ((contains_ci_iff msg kw).1 here)
Mentions→any_keyword (kw ∷ kws) msg (inr later) = ground (arith, Mentions→any_keyword kws msg later)

no_keyword : (kws : List (List ℕ)) (msg : List ℕ) → any_keyword kws msg ≡ false → ¬ Mentions kws msg
no_keyword kws msg e h = cc (Mentions→any_keyword kws msg h)

module _ (code : ℤ) (msg : List ℕ) where
  abbrev pub server_error : CubridError
  server_error = record { code = code; message = msg }

  -- An error is an IntegrityError exactly if its message mentions an integrity keyword, otherwise a
  -- ProgrammingError exactly if it mentions a programming keyword, otherwise a plain CubridError;
  -- each carries the code and the message as they came.
  pub new_error_cases :
      (Mentions integrity_keywords msg × (new_error code msg ≡ integrity_error server_error))
      ⊎ ((¬ Mentions integrity_keywords msg)
          × Mentions programming_keywords msg
          × (new_error code msg ≡ programming_error server_error))
      ⊎ ((¬ Mentions integrity_keywords msg)
          × (¬ Mentions programming_keywords msg)
          × (new_error code msg ≡ base_error server_error))
  unfolding new_error
  new_error_cases = elim (Bool-cases (any_keyword integrity_keywords msg)) [
    | inl found ↦ inl (any_keyword→Mentions integrity_keywords msg found, rw found)
    | inr none_found ↦ elim (Bool-cases (any_keyword programming_keywords msg)) [
      | inl found ↦ inr (
          inl (
            no_keyword integrity_keywords msg none_found,
            any_keyword→Mentions programming_keywords msg found,
            rw (none_found, found),
          ))
      | inr nothing ↦ inr (
          inr (
            no_keyword integrity_keywords msg none_found,
            no_keyword programming_keywords msg nothing,
            rw (none_found, nothing),
          ))
    ]
  ]
