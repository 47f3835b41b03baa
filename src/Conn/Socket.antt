-- ===== src/Conn/Socket.antt =====
-- conn.go: send, recv and sendAndRecv. The socket is a record of what the driver calls of packages
-- net and io, over a state of its own; an operation passes that state on.
use cubrid_go.Prelude.{ℕ, ◌+◌, List, Option, none, some}
use cubrid_go.Result.{Result, ok, err, panic}
use cubrid_go.Wire.{uint32}
use cubrid_go.Constants.{size_cas_info, size_data_length}

-- `write` is `socket.Write`, `read_full n` is `io.ReadFull` on a buffer of `n` bytes,
-- `shut` is `socket.Close`, `set_deadline` is `socket.SetDeadline`, `none` the zero time.
pub record Socket (S : Type 0) : Type 0 where
  pub write : List ℕ → S → Result (Unit {0}) × S
  pub read_full : ℕ → S → Result (List ℕ) × S
  pub shut : S → S
  pub set_deadline : Option ℕ → S → Result (Unit {0}) × S

abbrev pub Io {ℓ} : Type 0 → Type ℓ → Type ℓ
Io S A = S → Result A × S

-- What comes behind an action: nothing if it failed.
abbrev pub after {ℓ κ} :
    {S : Type 0} {A : Type ℓ} {B : Type κ} → (A → Io S B) → Result A × S → Result B × S
after f (ok a, s) = f a s
after f (err e, s) = (err e, s)
after f (panic, s) = (panic, s)

infixl 5 ◌>>=◌
unfoldable pub ◌>>=◌ {ℓ κ} : {S : Type 0} {A : Type ℓ} {B : Type κ} → Io S A → (A → Io S B) → Io S B
(m >>= f) s = after f (m s)

infixl 5 ◌>>◌
unfoldable pub ◌>>◌ {ℓ κ} : {S : Type 0} {A : Type ℓ} {B : Type κ} → Io S A → Io S B → Io S B
unfolding ◌>>=◌
m >> n = m >>= (λ _. n)

-- A result that needs no I/O.
abbrev pub lift {ℓ} : {S : Type 0} {A : Type ℓ} → Result A → Io S A
lift r s = (r, s)

module _ {S : Type 0} (socket : Socket S) where
  unfoldable pub send : List ℕ → Io S (Unit {0})
  send bytes = socket.write bytes

  -- CAS_INFO and the body, for the DATA_LENGTH that was read.
  abbrev pub read_body : Option ℕ → Io S (List ℕ)
  read_body (some data_len) = socket.read_full (data_len + size_cas_info)
  read_body none = lift panic

  unfoldable pub recv : Io S (List ℕ)
  unfolding ◌>>=◌
  recv = do len_buf ← socket.read_full size_data_length; read_body (uint32 len_buf)

  unfoldable pub send_and_recv : List ℕ → Io S (List ℕ)
  unfolding ◌>>=◌ ◌>>◌ send recv
  send_and_recv bytes = do send bytes; recv
