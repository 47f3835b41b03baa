-- ===== src/Dialector/Setup.antt =====
-- dialector/cubrid.go: Open, OpenDB, Name, Initialize, ClauseBuilders. What they call of GORM and
-- database/sql is a record, over a state `S` that holds the `gorm.DB`.
use cubrid_go.Prelude.{ℕ, List, [], ◌∷◌, Bool, false, Option, none, some, ascii}
use cubrid_go.Result.{Result, ok, err, panic}

-- A clause builder: it writes nothing, or it is the clause's own.
pub data Builder : Type 0 where
  ignore own : Builder

-- `P` is a pool of connections. `sql_open driver dsn` is `sql.Open`, `set_pool` the assignment to
-- `db.ConnPool`, `register` is RegisterDefaultCallbacks with its LastInsertIDReversed, `set_builder`
-- the assignment to an entry of `db.ClauseBuilders`.
pub record Host (P S : Type 0) : Type 0 where
  pub sql_open : List ℕ → List ℕ → S → Result P × S
  pub set_pool : P → S → S
  pub register : Bool → S → S
  pub set_builder : List ℕ → Builder → S → S

pub record Dialector (P : Type 0) : Type 0 where
  pub dsn : List ℕ
  pub conn : Option P

unfoldable pub open_dsn : {P : Type 0} → List ℕ → Dialector P
open_dsn dsn = record { dsn = dsn; conn = none }

unfoldable pub open_db : {P : Type 0} → P → Dialector P
open_db db = record { dsn = []; conn = some db }

abbrev pub name : List ℕ
name = ascii "cubrid"

-- The map of builders, as the list of its entries.
abbrev pub clause_builders : List (List ℕ × Builder)
clause_builders = (ascii "ON CONFLICT", ignore) ∷ (ascii "INSERT", own) ∷ []

module _ {P S : Type 0} (host : Host P S) where
  -- The loop over the map; its entries have different names, so that no order shows.
  unfoldable pub set_builders : List (List ℕ × Builder) → S → S
  set_builders [] s = s
  set_builders ((k, v) ∷ rest) s = set_builders rest (host.set_builder k v s)

  -- What Initialize does once there is a pool.
  abbrev pub with_pool : Result P × S → Result (Unit {0}) × S
  unfolding set_builders
  with_pool (ok p, s) =
      (ok tt, set_builders clause_builders (host.register false (host.set_pool p s)))
  with_pool (err e, s) = (err e, s)
  with_pool (panic, s) = (panic, s)

  abbrev pool_of : Dialector P → S → Result P × S
  pool_of d s = elim d.conn [ some p ↦ (ok p, s) | none ↦ host.sql_open (ascii "cubrid") d.dsn s ]

  unfoldable pub initialize : Dialector P → S → Result (Unit {0}) × S
  unfolding set_builders
  initialize d s = with_pool (pool_of d s)
