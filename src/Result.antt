-- ===== src/Result.antt =====
-- What a Go function of the driver returns: a value, an error, or a run-time panic. The errors are
-- those of errors.go and those that the driver takes from database/sql, io and its connection.
use cubrid_go.Prelude.{ℕ, ℤ, List}

-- CubridError (errors.go): the code and the message.
pub record CubridError : Type 0 where
  pub code : ℤ
  pub message : List ℕ

-- What `parseDSN` refuses.
pub data DsnError : Type 0 where
  bad_url bad_scheme bad_port no_database : DsnError

-- `network n` and `context n` are errors of packages net and context, told apart by a number. The
-- texts of `fmt.Errorf` are kept as their arguments.
pub data GoError : Type 0 where
  base_error integrity_error programming_error operational_error : CubridError → GoError
  bad_conn eof unsupported_value : GoError
  network context : ℕ → GoError
  invalid_dsn : DsnError → GoError
  bind_count : ℕ → ℕ → GoError
  named_parameter : List ℕ → GoError

pub data Result {ℓ} (A : Type ℓ) : Type ℓ where
  ok : A → Result A
  err : GoError → Result A
  panic : Result A

infixl 5 ◌>>=◌
abbrev pub ◌>>=◌ {ℓ κ} : {A : Type ℓ} {B : Type κ} → Result A → (A → Result B) → Result B
ok a >>= f = f a
err e >>= f = err e
panic >>= f = panic
