-- ===== src/Packet/Reader.antt =====
-- packet.go, PacketReader. A parse method is an action of `Parser`: it moves the offset, or panics
-- where Go's slice bounds or `make` do. `cap` of the buffer is its length, as `make` in
-- `conn.recv` gives it, so that a slice past the length is a panic.
use cubrid_go.Prelude.{
  ℕ, ℤ, pos, negsuc, signed16, signed32, signed64, ◌+◌, ◌-◌, ◌*◌, ◌==◌, leb, if◌then◌else◌, List,
  [], ◌∷◌, length, take, drop, Option, none, some, is_positive, ◌-ℤ◌,
}
use cubrid_go.Wire.{uint16, uint32, uint64}
use cubrid_go.Result.{Result, ok, err, panic, GoError}
use cubrid_go.Runtime.{Runtime, Time}
use cubrid_go.Constants.{size_byte, size_short, size_int, size_long, size_double}

pub record PacketReader : Type 0 where
  pub buf : List ℕ
  pub offset : ℕ

abbrev pub new_packet_reader : List ℕ → PacketReader
new_packet_reader bytes = record { buf = bytes; offset = 0 }

-- `r.buf[r.offset:]`
abbrev pub remaining : PacketReader → List ℕ
remaining r = drop r.offset r.buf

abbrev pub advance : ℕ → PacketReader → PacketReader
advance n r = record r { offset = r.offset + n }

abbrev pub Parser {ℓ} : Type ℓ → Type ℓ
Parser A = PacketReader → Result (A × PacketReader)

abbrev pub continue {ℓ κ} :
    {A : Type ℓ} {B : Type κ}
    → Result (A × PacketReader)
    → (A → Parser B)
    → Result (B × PacketReader)
continue (ok (a, r)) f = f a r
continue (err e) f = err e
continue panic f = panic

infixl 5 ◌>>=◌ ◌>>◌
unfoldable pub ◌>>=◌ {ℓ κ} : {A : Type ℓ} {B : Type κ} → Parser A → (A → Parser B) → Parser B
◌>>=◌ m f r = continue (m r) f

abbrev pub ◌>>◌ {ℓ κ} : {A : Type ℓ} {B : Type κ} → Parser A → Parser B → Parser B
m >> k = m >>= λ _. k

unfoldable pub pure {ℓ} : {A : Type ℓ} → A → Parser A
pure a r = ok (a, r)

unfoldable pub fail {ℓ} : {A : Type ℓ} → GoError → Parser A
fail e r = err e

unfoldable pub abort {ℓ} : {A : Type ℓ} → Parser A
abort r = panic

-- The result of a parser that starts at byte 0 of a response.
abbrev value_of {ℓ} : {A : Type ℓ} → Result (A × PacketReader) → Result A
value_of (ok (a, r)) = ok a
value_of (err e) = err e
value_of panic = panic

unfoldable pub run {ℓ} : {A : Type ℓ} → Parser A → List ℕ → Result A
run m bytes = value_of (m (new_packet_reader bytes))

-- A word that was read, or the index panic, with the bytes that it takes.
abbrev pub take_word : ℕ → (ℕ → ℤ) → Option ℕ → Parser ℤ
take_word size convert none r = panic
take_word size convert (some w) r = ok (convert w, advance size r)

abbrev pub take_bits : ℕ → Option ℕ → Parser ℕ
take_bits size none r = panic
take_bits size (some w) r = ok (w, advance size r)

abbrev pub first_byte : List ℕ → Option ℕ
first_byte [] = none
first_byte (b ∷ rest) = some b

unfoldable pub parse_byte : Parser ℕ
parse_byte r = take_bits size_byte (first_byte (remaining r)) r

unfoldable pub parse_short : Parser ℤ
parse_short r = take_word size_short signed16 (uint16 (remaining r)) r

unfoldable pub parse_int : Parser ℤ
parse_int r = take_word size_int signed32 (uint32 (remaining r)) r

unfoldable pub parse_long : Parser ℤ
parse_long r = take_word size_long signed64 (uint64 (remaining r)) r

unfoldable pub parse_float : Parser ℕ
parse_float r = take_bits size_int (uint32 (remaining r)) r

unfoldable pub parse_double : Parser ℕ
parse_double r = take_bits size_double (uint64 (remaining r)) r

-- `make` panics on a negative count, and the slice on a count past the end.
unfoldable pub parse_raw_bytes : ℤ → Parser (List ℕ)
parse_raw_bytes (pos n) r =
    if leb n (length (remaining r)) then ok (take n (remaining r), advance n r) else panic
parse_raw_bytes (negsuc n) r = panic

-- `data[:len(data)-1]` where the last byte is 0.
unfoldable pub strip_null : List ℕ → List ℕ
strip_null [] = []
strip_null (b ∷ []) = if b == 0 then [] else b ∷ []
strip_null (b ∷ c ∷ rest) = b ∷ strip_null (c ∷ rest)

unfoldable pub parse_null_term_string : ℤ → Parser (List ℕ)
parse_null_term_string len =
    if is_positive len then (do bytes ← parse_raw_bytes len; pure (strip_null bytes)) else pure []

-- `readError`: the code, and the message in the rest of the response.
unfoldable pub read_error : ℤ → Parser (ℤ × List ℕ)
read_error response_length = do
  code ← parse_int
  msg ← parse_null_term_string (response_length -ℤ pos size_int)
  pure (code, msg)

-- `bytesRemaining`: never negative, since the offset does not pass the end.
unfoldable pub bytes_remaining : Parser ℕ
bytes_remaining r = ok (length r.buf - r.offset, r)

-- ms * 1e6
abbrev pub millis : ℤ → ℤ
millis (pos n) = pos (n * 1000000)
millis (negsuc n) = negsuc (n * 1000000 + 999999)

module _ (go : Runtime) where
  unfoldable pub parse_date : Parser Time
  parse_date = do
    year ← parse_short
    month ← parse_short
    day ← parse_short
    pure (
        go.date (record {
          year = year;
          month = month;
          day = day;
          hour = pos 0;
          minute = pos 0;
          second = pos 0;
          nanosecond = pos 0;
        }))

  unfoldable pub parse_time : Parser Time
  parse_time = do
    hour ← parse_short
    min ← parse_short
    sec ← parse_short
    pure (
        go.date (record {
          year = pos 0;
          month = pos 1;
          day = pos 1;
          hour = hour;
          minute = min;
          second = sec;
          nanosecond = pos 0;
        }))

  unfoldable pub parse_timestamp : Parser Time
  parse_timestamp = do
    year ← parse_short
    month ← parse_short
    day ← parse_short
    hour ← parse_short
    min ← parse_short
    sec ← parse_short
    pure (
        go.date (record {
          year = year;
          month = month;
          day = day;
          hour = hour;
          minute = min;
          second = sec;
          nanosecond = pos 0;
        }))

  unfoldable pub parse_datetime : Parser Time
  parse_datetime = do
    year ← parse_short
    month ← parse_short
    day ← parse_short
    hour ← parse_short
    min ← parse_short
    sec ← parse_short
    ms ← parse_short
    pure (
        go.date (record {
          year = year;
          month = month;
          day = day;
          hour = hour;
          minute = min;
          second = sec;
          nanosecond = millis ms;
        }))
