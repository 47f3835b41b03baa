-- ===== src/Packet/Writer.antt =====
-- packet.go, PacketWriter. A method takes its arguments and then the writer, and returns the writer
-- that it leaves; `w ▷ m` calls `m` on `w`, so a chain reads in the order of the source.
use cubrid_go.Prelude.{
  ℕ, ℤ, pos, wrap, signed16, signed32, pos_part, zero, suc, ◌+◌, ◌-◌, ◌/◌, ltb, if◌then◌else◌, List,
  [], ◌∷◌, ◌++◌, length, take,
}
use cubrid_go.Wire.{put_uint16, put_uint32, put_uint64}
use cubrid_go.Runtime.{Time}
use cubrid_go.Constants.{size_byte, size_short, size_int, size_long, size_double, size_datetime}

pub record PacketWriter : Type 0 where
  pub buf : List ℕ

infixl 3 ◌▷◌
abbrev pub ◌▷◌ {ℓ} : {A : Type ℓ} → A → (A → A) → A
w ▷ m = m w

-- The conversions `int16(v)` and `int32(v)` of an int.
abbrev pub int16 : ℤ → ℤ
int16 v = signed16 (wrap 16 v)

abbrev pub int32 : ℤ → ℤ
int32 v = signed32 (wrap 32 v)

abbrev pub new_packet_writer : PacketWriter
new_packet_writer = record { buf = [] }

-- `append(w.buf, …)`
unfoldable pub write_raw_bytes : List ℕ → PacketWriter → PacketWriter
write_raw_bytes v w = record w { buf = w.buf ++ v }

unfoldable pub write_byte : ℕ → PacketWriter → PacketWriter
write_byte v w = record w { buf = w.buf ++ (v ∷ []) }

unfoldable pub write_short : ℤ → PacketWriter → PacketWriter
write_short v w = record w { buf = w.buf ++ put_uint16 (wrap 16 v) }

unfoldable pub write_int : ℤ → PacketWriter → PacketWriter
write_int v w = record w { buf = w.buf ++ put_uint32 (wrap 32 v) }

unfoldable pub write_long : ℤ → PacketWriter → PacketWriter
write_long v w = record w { buf = w.buf ++ put_uint64 (wrap 64 v) }

-- Floats are bit patterns, so `math.Float32bits` and `math.Float64bits` are the identity.
unfoldable pub write_float : ℕ → PacketWriter → PacketWriter
write_float v w = record w { buf = w.buf ++ put_uint32 v }

unfoldable pub write_double : ℕ → PacketWriter → PacketWriter
write_double v w = record w { buf = w.buf ++ put_uint64 v }

unfoldable pub filler_loop : ℕ → PacketWriter → PacketWriter
filler_loop zero w = w
filler_loop (suc n) w = filler_loop n (record w { buf = w.buf ++ (0 ∷ []) })

-- A count below 1 writes nothing.
unfoldable pub write_filler : ℤ → PacketWriter → PacketWriter
unfolding filler_loop
write_filler count w = filler_loop (pos_part count) w

-- The callers give a constant length.
unfoldable pub write_fixed_string : List ℕ → ℕ → PacketWriter → PacketWriter
write_fixed_string s len w =
    let encoded = if ltb len (length s) then take len s else s in
    let w' : PacketWriter = record w { buf = w.buf ++ encoded } in
    if ltb (length encoded) len then write_filler (pos (len - length encoded)) w' else w'

unfoldable pub write_null_term_string : List ℕ → PacketWriter → PacketWriter
unfolding write_int
write_null_term_string s w =
    let w' = write_int (int32 (pos (length s + 1))) w in
    record w' { buf = (w'.buf ++ s) ++ (0 ∷ []) }

unfoldable pub add_byte : ℕ → PacketWriter → PacketWriter
unfolding write_int write_byte
add_byte v w = w ▷ write_int (pos size_byte) ▷ write_byte v

unfoldable pub add_short : ℤ → PacketWriter → PacketWriter
unfolding write_int write_short
add_short v w = w ▷ write_int (pos size_short) ▷ write_short v

unfoldable pub add_int : ℤ → PacketWriter → PacketWriter
unfolding write_int
add_int v w = w ▷ write_int (pos size_int) ▷ write_int v

unfoldable pub add_long : ℤ → PacketWriter → PacketWriter
unfolding write_int write_long
add_long v w = w ▷ write_int (pos size_long) ▷ write_long v

unfoldable pub add_float : ℕ → PacketWriter → PacketWriter
unfolding write_int write_float
add_float v w = w ▷ write_int (pos size_int) ▷ write_float v

unfoldable pub add_double : ℕ → PacketWriter → PacketWriter
unfolding write_int write_double
add_double v w = w ▷ write_int (pos size_double) ▷ write_double v

unfoldable pub add_bytes : List ℕ → PacketWriter → PacketWriter
unfolding write_int
add_bytes v w = let w' = write_int (int32 (pos (length v))) w in record w' { buf = w'.buf ++ v }

unfoldable pub add_null : PacketWriter → PacketWriter
unfolding write_int
add_null w = write_int (pos 0) w

-- Seven shorts: the civil fields, and the milliseconds by `Nanosecond() / 1e6`.
unfoldable pub write_datetime_fields : Time → PacketWriter → PacketWriter
unfolding write_short
write_datetime_fields t w =
    w
    ▷ write_short (int16 t.year)
    ▷ write_short (int16 (pos t.month))
    ▷ write_short (int16 (pos t.day))
    ▷ write_short (int16 (pos t.hour))
    ▷ write_short (int16 (pos t.minute))
    ▷ write_short (int16 (pos t.second))
    ▷ write_short (int16 (pos (t.nanosecond / 1000000)))

unfoldable pub add_datetime : Time → PacketWriter → PacketWriter
unfolding write_int write_datetime_fields
add_datetime t w = w ▷ write_int (pos size_datetime) ▷ write_datetime_fields t

unfoldable pub add_date : Time → PacketWriter → PacketWriter
unfolding write_int write_short
add_date t w =
    w
    ▷ write_int (pos size_datetime)
    ▷ write_short (int16 t.year)
    ▷ write_short (int16 (pos t.month))
    ▷ write_short (int16 (pos t.day))
    ▷ write_short (pos 0)
    ▷ write_short (pos 0)
    ▷ write_short (pos 0)
    ▷ write_short (pos 0)

unfoldable pub add_cache_time : PacketWriter → PacketWriter
unfolding write_int
add_cache_time w = w ▷ write_int (pos size_long) ▷ write_int (pos 0) ▷ write_int (pos 0)

abbrev pub to_bytes : PacketWriter → List ℕ
to_bytes w = w.buf

abbrev pub len : PacketWriter → ℕ
len w = length w.buf
