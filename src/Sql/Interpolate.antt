-- ===== src/Sql/Interpolate.antt =====
-- types.go, InterpolateArgs.
use cubrid_go.Prelude.{
  ℕ, ◌+◌, ◌-◌, ◌==◌, leb, ◌&&◌, if◌then◌else◌, List, [], ◌∷◌, ◌++◌, take, drop, length, not,
}
use cubrid_go.Result.{Result, ok, err, panic, bind_count, ◌>>=◌}
use cubrid_go.Runtime.{Runtime, Value}
use cubrid_go.Sql.Scanner.{find_bind_placeholders}
use cubrid_go.Sql.Literal.{format_value}

-- `sql[from:to]`; a slice out of bounds panics.
unfoldable pub slice : ℕ → ℕ → List ℕ → Result (List ℕ)
slice from to sql =
    if leb from to && leb to (length sql) then ok (take (to - from) (drop from sql)) else panic

module _ (go : Runtime) where
  -- The loop over the placeholders, with the text written so far. `args[i]` exists, since there are
  -- as many arguments.
  unfoldable pub interpolate_loop : List ℕ → ℕ → List ℕ → List Value → List ℕ → Result (List ℕ)
  unfolding slice
  interpolate_loop sql prev [] args out = do tail ← slice prev (length sql) sql; ok (out ++ tail)
  interpolate_loop sql prev (position ∷ positions) [] out = panic
  interpolate_loop sql prev (position ∷ positions) (arg ∷ args) out = do
    between ← slice prev position sql
    formatted ← format_value go arg
    interpolate_loop sql (position + 1) positions args ((out ++ between) ++ formatted)

  unfoldable pub interpolate_args : List ℕ → List Value → Result (List ℕ)
  unfolding interpolate_loop find_bind_placeholders
  interpolate_args sql args =
      let placeholders = find_bind_placeholders sql in
      if not (length placeholders == length args)
      then err (bind_count (length placeholders) (length args))
      else if length placeholders == 0
      then ok sql
      else interpolate_loop sql 0 placeholders args []
