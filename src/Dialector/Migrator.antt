-- ===== src/Dialector/Migrator.antt =====
-- dialector/cubrid.go: the Migrator's queries of the catalog, CreateTable, AutoMigrate and
-- CurrentDatabase. GORM is a record of
-- what they call, over models `D` and a state `S` of its own.
use cubrid_go.Prelude.{ℕ, ℤ, List, [], ◌∷◌, Bool, is_positive, ascii, Option, none, some}
use cubrid_go.Result.{Result, ok, err, panic}

-- `parse_table` is `stmt.Parse` and then `stmt.Table`, `show` prints by `%v`, `count` is what a
-- count holds after `DB.Raw(sql, vars...).Scan(&count)`, `create` is the CreateTable of GORM's own
-- migrator for one model, `auto_migrate` its AutoMigrate, `row_text` what a text holds after
-- `DB.Raw(sql).Row().Scan(&text)`.
pub record Gorm (D S : Type 0) : Type 0 where
  pub parse_table : D → Option (List ℕ)
  pub show : D → List ℕ
  pub count : List ℕ → List (List ℕ) → S → ℤ × S
  pub create : D → S → Result (Unit {0}) × S
  pub auto_migrate : List D → S → Result (Unit {0}) × S
  pub row_text : List ℕ → S → List ℕ × S

-- A `dst`: the name of a table, or a model.
pub data Dst (D : Type 0) : Type 0 where
  name : List ℕ → Dst D
  model : D → Dst D

module _ {D S : Type 0} (gorm : Gorm D S) where
  unfoldable pub table_name : Dst D → List ℕ
  table_name (name t) = t
  table_name (model d) = elim (gorm.parse_table d) [ some t ↦ t | none ↦ gorm.show d ]

  -- A count and its test.
  abbrev exists : List ℕ → List (List ℕ) → S → Bool × S
  exists sql vars s = let (n, s') = gorm.count sql vars s in (is_positive n, s')

  unfoldable pub has_table : Dst D → S → Bool × S
  unfolding table_name
  has_table dst =
      exists (ascii "SELECT COUNT(*) FROM db_class WHERE class_name = ? AND is_system_class = 'NO'")
        (table_name dst ∷ [])

  unfoldable pub has_column : Dst D → List ℕ → S → Bool × S
  unfolding table_name
  has_column dst column =
      exists (ascii "SELECT COUNT(*) FROM db_attribute WHERE class_name = ? AND attr_name = ?")
        (table_name dst ∷ column ∷ [])

  unfoldable pub has_index : Dst D → List ℕ → S → Bool × S
  unfolding table_name
  has_index dst index =
      exists (ascii "SELECT COUNT(*) FROM db_index WHERE class_name = ? AND index_name = ?")
        (table_name dst ∷ index ∷ [])

  -- The loop of CreateTable: the first error ends it.
  unfoldable pub create_table : List D → S → Result (Unit {0}) × S
  create_table [] s = (ok tt, s)
  create_table (d ∷ ds) s =
      let (r, s') = gorm.create d s in
      elim r [ ok u ↦ create_table ds s' | err e ↦ (err e, s') | panic ↦ (panic, s') ]

  unfoldable pub auto_migrate_all : List D → S → Result (Unit {0}) × S
  auto_migrate_all dst s = gorm.auto_migrate dst s

  unfoldable pub current_database : S → List ℕ × S
  current_database s = gorm.row_text (ascii "SELECT DATABASE()") s
