-- ===== src/Dialector/Columns.antt =====
-- dialector/cubrid.go: FullDataTypeOf, on the SQL that GORM's own migrator gives for a column.
use cubrid_go.Prelude.{
  ℕ, zero, suc, ◌-◌, ◌==◌, ◌&&◌, if◌then◌else◌, List, [], ◌∷◌, ◌++◌, Bool, true, false, length,
  drop, take, ascii, leb,
}
use cubrid_go.Errors.{bytes_eq}

unfoldable pub is_prefix : List ℕ → List ℕ → Bool
is_prefix [] s = true
is_prefix (p ∷ ps) [] = false
is_prefix (p ∷ ps) (c ∷ cs) = (p == c) && is_prefix ps cs

-- `strings.ReplaceAll(s, old, new)` for a text `old` that is not empty, with so many bytes of an
-- occurrence still to pass over.
unfoldable pub replace_from : ℕ → List ℕ → List ℕ → List ℕ → List ℕ
unfolding is_prefix
replace_from skip old new [] = []
replace_from (suc skip) old new (c ∷ cs) = replace_from skip old new cs
replace_from zero old new (c ∷ cs) =
    let replaced = new ++ replace_from (length old - 1) old new cs in
    let kept = c ∷ replace_from zero old new cs in if is_prefix old (c ∷ cs) then replaced else kept

-- `strings.TrimSuffix(s, suffix)`
unfoldable pub trim_suffix : List ℕ → List ℕ → List ℕ
unfolding bytes_eq
trim_suffix s suffix =
    if leb (length suffix) (length s) && bytes_eq (drop (length s - length suffix) s) suffix
    then take (length s - length suffix) s
    else s

unfoldable pub full_data_type_of : List ℕ → List ℕ
unfolding replace_from trim_suffix
full_data_type_of expr_sql =
    trim_suffix (replace_from 0 (ascii "AUTOINCREMENT") (ascii "AUTO_INCREMENT") expr_sql)
      (ascii " DEFAULT ")
