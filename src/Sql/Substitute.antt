-- ===== src/Sql/Substitute.antt =====
-- `InterpolateArgs` of types.go, which finds the positions first and cuts the text at them, is the
-- one pass of Sql.Pass.
use cubrid_go.Prelude.{
  ℕ, ◌+◌, ◌==◌, ◌≡◌, ◌≢◌, refl, sym, ◌∙◌, ◌⊎◌, inl, inr, List, [], ◌∷◌, ◌++◌, suc, length, arith,
  none, some, Bool-cases,
}
use mathlib.Core.Path.{subst}
use cubrid_go.Result.{Result, ok, err, panic, bind_count, ◌>>=◌}
use cubrid_go.Runtime.{Runtime, Value}
use cubrid_go.Sql.Scanner.{
  ScanState, normal, go_on, jump, placeholder, scan_byte, scan_loop, scan_loop_step,
  find_bind_placeholders,
}
use cubrid_go.Sql.Literal.{format_value}
use cubrid_go.Sql.Interpolate.{interpolate_loop, interpolate_args}
use cubrid_go.Sql.Pass.{fill, substitute, substitute_step, Action-cases}
use cubrid_go.Sql.Cuts.{
  finish, finish-copy, finish-fill, Cut, slice-Cut, slice-Cut_end, Cut-step, Cut-next,
}

module _ (go : Runtime) where
  fill_result :
      (sql : List ℕ) (i : ℕ) (ps : List ℕ) (args : List Value) (out mid : List ℕ)
      (rest : Result (List ℕ)) (r : Result (List ℕ))
      → ((out' : List ℕ) → interpolate_loop go sql (i + 1) ps args out' ≡ finish out' [] rest)
      → (r >>= λ f. interpolate_loop go sql (i + 1) ps args ((out ++ mid) ++ f))
        ≡ finish out mid (r >>= λ f. rest >>= λ after. ok (f ++ after))
  fill_result sql i ps args out mid rest (ok f) ih =
      ih ((out ++ mid) ++ f) ∙ finish-fill out mid f rest
  fill_result sql i ps args out mid rest (err e) ih = refl
  fill_result sql i ps args out mid rest panic ih = refl

  placeholder_step :
      {sql before mid rest : List ℕ} {prev i : ℕ} (ps : List ℕ) (args : List Value) (out : List ℕ)
      (next : List Value → Result (List ℕ))
      → Cut sql before mid rest prev i
      → suc (length ps) ≡ length args
      → ((args' : List Value) (out' : List ℕ)
          → length ps ≡ length args'
          → interpolate_loop go sql (i + 1) ps args' out' ≡ finish out' [] (next args'))
      → interpolate_loop go sql prev (i ∷ ps) args out ≡ finish out mid (fill go args next)
  unfolding interpolate_loop
  placeholder_step ps [] out next c h ih = absurd (omega arith)
  placeholder_step {sql} {mid = mid} {i = i} ps (arg ∷ args) out next c h ih = rw (slice-Cut c) (
      fill_result sql i ps args out mid (next args) (format_value go arg)
        (λ out'. ih args out' (omega arith)))

module _ (go : Runtime) where
  loop-substitute :
      (st : ScanState) (rest : List ℕ) {sql before mid : List ℕ} {prev i : ℕ} (args : List Value)
      (out : List ℕ)
      → Cut sql before mid rest prev i
      → length (scan_loop st i rest) ≡ length args
      → interpolate_loop go sql prev (scan_loop st i rest) args out
        ≡ finish out mid (substitute go st rest args)
  unfolding scan_loop substitute
  loop-substitute st [] {mid = mid} args out c h =
      unfold interpolate_loop in rw (slice-Cut_end [] c)
  loop-substitute st (ch ∷ []) {mid = mid} args out c h =
      elim (Action-cases (scan_byte st ch none)) [
        | inl (st', e) ↦
            rw (e, scan_loop, substitute)
              (unfold interpolate_loop in rw (slice-Cut_end (ch ∷ []) c))
        | inr (inl (st', e)) ↦
            rw (e, scan_loop, substitute)
              (unfold interpolate_loop in rw (slice-Cut_end (ch ∷ []) c))
        | inr (inr e) ↦
            rw (e, scan_loop, substitute)
              (placeholder_step go [] args out (λ args'. ok []) c (rw (e, scan_loop) at h)
                (λ args' out' h'.
                  unfold interpolate_loop in rw (slice-Cut_end [] (Cut-next ch [] c))))
      ]
  loop-substitute st (ch ∷ x ∷ rest) {mid = mid} {i = i} args out c h =
      elim (Action-cases (scan_byte st ch (some x))) [
        | inl (st', e) ↦
            let found = scan_loop_step st ch x rest i (go_on st') e in
            rw (found, substitute_step go st ch x rest args (go_on st') e)
              (loop-substitute st' (x ∷ rest) args out
                  (Cut-step (ch ∷ []) (x ∷ rest) (suc i) (omega arith) c) (rw found at h)
                ∙ finish-copy out mid (ch ∷ []) (substitute go st' (x ∷ rest) args))
        | inr (inl (st', e)) ↦
            let found = scan_loop_step st ch x rest i (jump st') e in
            rw (found, substitute_step go st ch x rest args (jump st') e)
              (loop-substitute st' rest args out
                  (Cut-step (ch ∷ x ∷ []) rest (suc (suc i)) (omega arith) c) (rw found at h)
                ∙ finish-copy out mid (ch ∷ x ∷ []) (substitute go st' rest args))
        | inr (inr e) ↦
            let found = scan_loop_step st ch x rest i placeholder e in
            rw (found, substitute_step go st ch x rest args placeholder e)
              (placeholder_step go (scan_loop normal (suc i) (x ∷ rest)) args out
                (substitute go normal (x ∷ rest)) c (rw found at h)
                (λ args' out' h'.
                  loop-substitute normal (x ∷ rest) args' out' (Cut-next ch (x ∷ rest) c) h'))
      ]

  finish-nil : (r : Result (List ℕ)) → finish [] [] r ≡ r
  finish-nil (ok t) = refl
  finish-nil (err e) = refl
  finish-nil panic = refl

  by_loop :
      (sql : List ℕ) (args : List Value)
      → length (find_bind_placeholders sql) ≡ length args
      → interpolate_loop go sql 0 (find_bind_placeholders sql) args []
        ≡ substitute go normal sql args
  unfolding find_bind_placeholders
  by_loop sql args h =
      let start : Cut sql [] [] sql 0 0 = record {
        whole = refl;
        prev_eq = refl;
        i_eq = omega arith;
      } in
      loop-substitute normal sql args [] start h ∙ finish-nil (substitute go normal sql args)

  loop-nil : (sql : List ℕ) (args : List Value) → interpolate_loop go sql 0 [] args [] ≡ ok sql
  unfolding interpolate_loop
  loop-nil sql args =
      let start : Cut sql [] [] sql 0 0 = record {
        whole = refl;
        prev_eq = refl;
        i_eq = omega arith;
      } in
      rw (slice-Cut_end sql start)

  length-zero : (xs : List ℕ) → length xs ≡ 0 → xs ≡ []
  length-zero [] h = refl
  length-zero (x ∷ xs) h = absurd (omega arith)

  -- With no placeholder the pass copies the statement.
  substitute-copies :
      (sql : List ℕ) (args : List Value)
      → length (find_bind_placeholders sql) ≡ length args
      → length (find_bind_placeholders sql) ≡ 0
      → ok sql ≡ substitute go normal sql args
  substitute-copies sql args h none_there =
      sym (loop-nil sql args)
      ∙ subst
          (λ (ps : List ℕ). interpolate_loop go sql 0 ps args [] ≡ substitute go normal sql args)
          (length-zero (find_bind_placeholders sql) none_there) (by_loop sql args h)

  -- `InterpolateArgs` refuses a number of arguments that is not the number of placeholders, naming
  -- both; otherwise it is the one pass that puts the literals of the arguments, in order, for the
  -- placeholders, or fails with the error of the first argument that has no literal.
  pub interpolate_args-substitute :
      (sql : List ℕ) (args : List Value)
      → ((length (find_bind_placeholders sql) ≡ length args)
          × (interpolate_args go sql args ≡ substitute go normal sql args))
        ⊎ ((length (find_bind_placeholders sql) ≢ length args)
            × (interpolate_args go sql args
                ≡ err (bind_count (length (find_bind_placeholders sql)) (length args))))
  unfolding interpolate_args
  interpolate_args-substitute sql args =
      let ps = find_bind_placeholders sql in
      elim (Bool-cases (length ps == length args)) [
        | inr differ ↦ inr (ground arith, rw differ)
        | inl same ↦ inl (
          ground arith,
          elim (Bool-cases (length ps == 0)) [
            | inl nothing ↦
                rw (same, nothing) (substitute-copies sql args (ground arith) (ground arith))
            | inr some_left ↦ rw (same, some_left) (by_loop sql args (ground arith))
          ],
        )
      ]
