-- ===== src/Packet/RoundTrip.antt =====
-- What the PacketReader methods make of the bytes that the PacketWriter methods append.
use cubrid_go.Prelude.{
  ℕ, ℤ, pos, Fits, wrap, ◌+◌, ◌-◌, ◌*◌, ◌/◌, ◌^◌, ◌<◌, ◌≤◌, List, [], ◌∷◌, ◌++◌, ◌≡◌, refl, sym, ap,
  ◌∙◌, length, drop, take, zero, suc, arith, length-append, drop-append, append_assoc, append-nil,
  length-take, ltb, Bool-cases, inl, inr, if◌then◌else◌, false, signed32-wrap, wrap16-signed16,
  wrap16-lt, replicate, length-replicate,
}
use mathlib.Core.Path.{subst}
use cubrid_go.Result.{ok}
use cubrid_go.Wire.{put_uint16, put_uint32}
use cubrid_go.Runtime.{Runtime, Time, IsCivil, KeepsCivil, days_in_month_le}
use cubrid_go.Packet.Writer.{
  PacketWriter, int16, int32, write_byte, write_short, write_int, write_long, write_float,
  write_double, write_null_term_string, write_fixed_string, write_filler, filler_loop,
  write_datetime_fields,
}
use cubrid_go.Packet.Reader.{
  PacketReader, remaining, Parser, ◌>>=◌, parse_byte, parse_short, parse_int, parse_long,
  parse_float, parse_double, parse_null_term_string, parse_datetime,
}
use cubrid_go.Packet.Reads.{
  Reads, Reads-bind, Reads-return, Reads-byte, Reads-short, Reads-int, Reads-long, Reads-float,
  Reads-double, Reads-null_term_string,
}

-- A reader at the end of what `w` holds, over what `write` appends and then `rest`.
abbrev pub reader_over : PacketWriter → (PacketWriter → PacketWriter) → List ℕ → PacketReader
reader_over w write rest = record { buf = (write w).buf ++ rest; offset = length w.buf }

-- On that reader `m` returns `a`, and stands behind what `write` appended.
abbrev pub ReadsBack {ℓ} :
    {A : Type ℓ} → (PacketWriter → PacketWriter) → Parser A → A → PacketWriter → List ℕ → Type ℓ
ReadsBack write m a w rest =
    m (reader_over w write rest)
    ≡ ok (a, record { buf = (write w).buf ++ rest; offset = length (write w).buf })

module _ {ℓ} {A : Type ℓ} (write : PacketWriter → PacketWriter) {m : Parser A} {bs : List ℕ}
    {a : A} where
  pub ReadsBack-of_Reads :
      (w : PacketWriter) (rest : List ℕ)
      → (write w).buf ≡ w.buf ++ bs
      → Reads m bs a
      → ReadsBack write m a w rest
  ReadsBack-of_Reads w rest e p =
      let there : remaining (reader_over w write rest) ≡ bs ++ rest =
        ap (λ (t : List ℕ). drop (length w.buf) (t ++ rest)) e
        ∙ ap (drop (length w.buf)) (append_assoc w.buf bs rest)
        ∙ drop-append w.buf (bs ++ rest) in
      p.at (reader_over w write rest) rest there
      ∙ ap (λ (k : ℕ). ok (a, record { buf = (write w).buf ++ rest; offset = k }))
          (sym (length-append w.buf bs) ∙ ap (length {A = ℕ}) (sym e))

-- Every scalar within the range of its Go type is read back by the parse method of its type, from
-- behind whatever the packet holds, and whatever follows; the reader ends behind the scalar.
pub scalars_read_back :
    (b : ℕ) (s i l : ℤ) (f d : ℕ) (w : PacketWriter) (rest : List ℕ)
    → Fits 15 s
    → Fits 31 i
    → Fits 63 l
    → f < 2 ^ 32
    → d < 2 ^ 64
    → ReadsBack (write_byte b) parse_byte b w rest
      × ReadsBack (write_short s) parse_short s w rest
      × ReadsBack (write_int i) parse_int i w rest
      × ReadsBack (write_long l) parse_long l w rest
      × ReadsBack (write_float f) parse_float f w rest
      × ReadsBack (write_double d) parse_double d w rest
unfolding write_byte write_short write_int write_long write_float write_double
scalars_read_back b s i l f d w rest hs hi hl hf hd = (
  ReadsBack-of_Reads (write_byte b) w rest refl (Reads-byte b),
  ReadsBack-of_Reads (write_short s) w rest refl (Reads-short s hs),
  ReadsBack-of_Reads (write_int i) w rest refl (Reads-int i hi),
  ReadsBack-of_Reads (write_long l) w rest refl (Reads-long l hl),
  ReadsBack-of_Reads (write_float f) w rest refl (Reads-float f hf),
  ReadsBack-of_Reads (write_double d) w rest refl (Reads-double d hd),
)

-- The bytes of a text behind its length, as `writeNullTermString` writes it.
abbrev pub null_term_bytes : List ℕ → List ℕ
null_term_bytes s = put_uint32 (wrap 32 (pos (length s + 1))) ++ (s ++ (0 ∷ []))

pub int32_id : (z : ℤ) → Fits 31 z → int32 z ≡ z
int32_id z h = signed32-wrap z h

pub write_null_term_string_lem :
    (s : List ℕ) (w : PacketWriter)
    → length s + 1 < 2 ^ 31
    → (write_null_term_string s w).buf ≡ w.buf ++ null_term_bytes s
unfolding write_null_term_string
write_null_term_string_lem s w h = rw (int32_id (pos (length s + 1)) h) (
    append_assoc (w.buf ++ put_uint32 (wrap 32 (pos (length s + 1)))) s (0 ∷ [])
    ∙ append_assoc w.buf (put_uint32 (wrap 32 (pos (length s + 1)))) (s ++ (0 ∷ [])))

-- How the protocol reads such a text: its length, then `parseNullTermString`.
abbrev pub parse_string : Parser (List ℕ)
parse_string = do len ← parse_int; parse_null_term_string len

pub Reads-string : (s : List ℕ) → length s + 1 < 2 ^ 31 → Reads parse_string (null_term_bytes s) s
Reads-string s h = Reads-bind _ (Reads-int (pos (length s + 1)) h) (Reads-null_term_string s)

-- A text of fewer than 2 ^ 31 - 1 bytes, of any values, is read back from its length prefix on,
-- with neither its own null bytes nor its length lost.
pub string-ReadsBack :
    (s : List ℕ) (w : PacketWriter) (rest : List ℕ)
    → length s + 1 < 2 ^ 31
    → ReadsBack (write_null_term_string s) parse_string s w rest
string-ReadsBack s w rest h =
    ReadsBack-of_Reads (write_null_term_string s) w rest (write_null_term_string_lem s w h)
      (Reads-string s h)

filler_loop_lem :
    (n : ℕ) (w : PacketWriter) → filler_loop n w ≡ record w { buf = w.buf ++ replicate n 0 }
unfolding filler_loop
filler_loop_lem zero w = ap (λ (t : List ℕ). record w { buf = t }) (sym (append-nil w.buf))
filler_loop_lem (suc n) w =
    filler_loop_lem n (record w { buf = w.buf ++ (0 ∷ []) })
    ∙ ap (λ (t : List ℕ). record w { buf = t }) (append_assoc w.buf (0 ∷ []) (replicate n 0))

pub write_filler_lem :
    (n : ℕ) (w : PacketWriter) → write_filler (pos n) w ≡ record w { buf = w.buf ++ replicate n 0 }
unfolding write_filler
write_filler_lem n w = filler_loop_lem n w

-- The field of `writeFixedString`: the text cut or padded with 0.
abbrev pub fixed_bytes : List ℕ → ℕ → List ℕ
fixed_bytes s n = if ltb n (length s) then take n s else s ++ replicate (n - length s) 0

pub write_fixed_string_lem :
    (s : List ℕ) (n : ℕ) (w : PacketWriter)
    → write_fixed_string s n w ≡ record w { buf = w.buf ++ fixed_bytes s n }
unfolding write_fixed_string
write_fixed_string_lem s n w = elim (Bool-cases (ltb n (length s))) [
  | inl long ↦
      let full : ltb (length (take n s)) n ≡ false = ground (arith, length-take n s) in
      rw (long, full)
  | inr fits ↦ rw fits (elim (Bool-cases (ltb (length s) n)) [
    | inl short ↦ rw short (
        write_filler_lem (n - length s) (record w { buf = w.buf ++ s })
        ∙ ap (λ (t : List ℕ). record w { buf = t })
            (append_assoc w.buf s (replicate (n - length s) 0)))
    | inr full ↦
        let none_left : n - length s ≡ 0 = ground arith in
        rw (full, none_left)
          (ap (λ (t : List ℕ). record w { buf = w.buf ++ t }) (sym (append-nil s)))
  ])
]

pub length-fixed_bytes : (s : List ℕ) (n : ℕ) → length (fixed_bytes s n) ≡ n
length-fixed_bytes s n = ground (
  arith,
  length-take n s,
  length-append s (replicate (n - length s) 0),
  length-replicate (n - length s) zero,
)

-- A time as the wire holds it: whole milliseconds.
abbrev pub truncate_ms : Time → Time
truncate_ms t = record t { nanosecond = t.nanosecond / 1000000 * 1000000 }

pub datetime_bytes : Time → List ℕ
datetime_bytes t =
    put_uint16 (wrap 16 t.year)
    ++ (put_uint16 (wrap 16 (pos t.month))
        ++ (put_uint16 (wrap 16 (pos t.day))
            ++ (put_uint16 (wrap 16 (pos t.hour))
                ++ (put_uint16 (wrap 16 (pos t.minute))
                    ++ (put_uint16 (wrap 16 (pos t.second))
                        ++ put_uint16 (wrap 16 (pos (t.nanosecond / 1000000))))))))

pub wrap-int16 : (z : ℤ) → wrap 16 (int16 z) ≡ wrap 16 z
wrap-int16 z = wrap16-signed16 (wrap 16 z) (wrap16-lt z)

pub write_datetime_fields_lem :
    (t : Time) (w : PacketWriter) → (write_datetime_fields t w).buf ≡ w.buf ++ datetime_bytes t
unfolding write_datetime_fields datetime_bytes
write_datetime_fields_lem t w = simp (wrap-int16, append_assoc)

module _ (go : Runtime) (keeps : KeepsCivil go) where
  truncated-IsCivil : {t : Time} → IsCivil t → IsCivil (truncate_ms t)
  truncated-IsCivil c = record {
    at_year = c.at_year;
    year_eq = c.year_eq;
    year_le = c.year_le;
    month_pos = c.month_pos;
    month_le = c.month_le;
    day_pos = c.day_pos;
    day_le = c.day_le;
    hour_lt = c.hour_lt;
    minute_lt = c.minute_lt;
    second_lt = c.second_lt;
    nanosecond_lt = omega (arith, c.nanosecond_lt);
  }

  pub Reads-datetime :
      (t : Time) → IsCivil t → Reads (parse_datetime go) (datetime_bytes t) (truncate_ms t)
  unfolding parse_datetime datetime_bytes
  Reads-datetime t c =
      let day : t.day ≤ 31 = omega (arith, c.day_le, days_in_month_le c.at_year t.month) in
      let year : Fits 15 t.year = rw c.year_eq (omega (arith, c.year_le)) in
      subst (λ (v : Time). Reads (parse_datetime go) (datetime_bytes t) v)
        (keeps (truncate_ms t) (truncated-IsCivil c))
        (Reads-bind _ (Reads-short t.year year) (
          Reads-bind _ (Reads-short (pos t.month) (omega (arith, c.month_le))) (
            Reads-bind _ (Reads-short (pos t.day) (omega arith)) (
              Reads-bind _ (Reads-short (pos t.hour) (omega (arith, c.hour_lt))) (
                Reads-bind _ (Reads-short (pos t.minute) (omega (arith, c.minute_lt))) (
                  Reads-bind _ (Reads-short (pos t.second) (omega (arith, c.second_lt))) (
                    Reads-return _ (
                      Reads-short (pos (t.nanosecond / 1000000))
                        (omega (arith, c.nanosecond_lt))))))))))

  -- A date and time of day that exists is read back with its nanoseconds cut to whole milliseconds,
  -- from a packet that the seven shorts of `addDatetime` were appended to.
  pub datetime-ReadsBack :
      (t : Time) (w : PacketWriter) (rest : List ℕ)
      → IsCivil t
      → ReadsBack (write_datetime_fields t) (parse_datetime go) (truncate_ms t) w rest
  datetime-ReadsBack t w rest c =
      ReadsBack-of_Reads (write_datetime_fields t) w rest (write_datetime_fields_lem t w)
        (Reads-datetime t c)
