-- ===== src/Protocol/Parsed/Values.antt =====
-- Values of every type that the grammar has.
use mathlib.Core.Path.{subst}
use cubrid_go.Prelude.{ℕ, pos, Fits, ◌+◌, refl, List, [], ◌∷◌, ◌++◌, length, arith}
use cubrid_go.Runtime.{
  Runtime, Time, IsCivil, KeepsCivil, days_in_month, days_in_month_le, text, blob,
}
use cubrid_go.Packet.Reader.{parse_date, parse_time, parse_timestamp}
use cubrid_go.Packet.Reads.{
  Reads, Reads-bind, Reads-return, Reads-short, Reads-int, Reads-long, Reads-float, Reads-double,
  Reads-raw_bytes, Reads-null_term_string,
}
use cubrid_go.Packet.RoundTrip.{Reads-datetime}
use cubrid_go.Protocol.Values.{read_value}
use cubrid_go.Protocol.Grammar

module _ (go : Runtime) (keeps : KeepsCivil go) where
  year-Fits : {t : Time} → IsCivil t → Fits 15 t.year
  year-Fits c = rw c.year_eq (omega (arith, c.year_le))

  day-Fits : {t : Time} → IsCivil t → Fits 15 (pos t.day)
  day-Fits {t} c = omega (arith, c.day_le, days_in_month_le c.at_year t.month)

  date_part-IsCivil : {t : Time} → IsCivil t → IsCivil (Grammar.date_part t)
  date_part-IsCivil c = record {
    at_year = c.at_year;
    year_eq = c.year_eq;
    year_le = c.year_le;
    month_pos = c.month_pos;
    month_le = c.month_le;
    day_pos = c.day_pos;
    day_le = c.day_le;
    hour_lt = omega arith;
    minute_lt = omega arith;
    second_lt = omega arith;
    nanosecond_lt = omega arith;
  }

  clock_part-IsCivil : {t : Time} → IsCivil t → IsCivil (Grammar.clock_part t)
  unfolding days_in_month
  clock_part-IsCivil c = record {
    at_year = 0;
    year_eq = refl;
    year_le = omega arith;
    month_pos = omega arith;
    month_le = omega arith;
    day_pos = omega arith;
    day_le = ground arith;
    hour_lt = c.hour_lt;
    minute_lt = c.minute_lt;
    second_lt = c.second_lt;
    nanosecond_lt = omega arith;
  }

  whole_seconds-IsCivil : {t : Time} → IsCivil t → IsCivil (Grammar.whole_seconds t)
  whole_seconds-IsCivil c = record {
    at_year = c.at_year;
    year_eq = c.year_eq;
    year_le = c.year_le;
    month_pos = c.month_pos;
    month_le = c.month_le;
    day_pos = c.day_pos;
    day_le = c.day_le;
    hour_lt = c.hour_lt;
    minute_lt = c.minute_lt;
    second_lt = c.second_lt;
    nanosecond_lt = omega arith;
  }

  Reads-date :
      (t : Time) → IsCivil t → Reads (parse_date go) (Grammar.date_bytes t) (Grammar.date_part t)
  unfolding parse_date
  Reads-date t c =
      subst (λ (v : Time). Reads (parse_date go) (Grammar.date_bytes t) v)
        (keeps (Grammar.date_part t) (date_part-IsCivil c))
        (Reads-bind _ (Reads-short t.year (year-Fits c)) (
          Reads-bind _ (Reads-short (pos t.month) (omega (arith, c.month_le)))
            (Reads-return _ (Reads-short (pos t.day) (day-Fits c)))))

  Reads-time :
      (t : Time) → IsCivil t → Reads (parse_time go) (Grammar.clock_bytes t) (Grammar.clock_part t)
  unfolding parse_time
  Reads-time t c =
      subst (λ (v : Time). Reads (parse_time go) (Grammar.clock_bytes t) v)
        (keeps (Grammar.clock_part t) (clock_part-IsCivil c))
        (Reads-bind _ (Reads-short (pos t.hour) (omega (arith, c.hour_lt))) (
          Reads-bind _ (Reads-short (pos t.minute) (omega (arith, c.minute_lt)))
            (Reads-return _ (Reads-short (pos t.second) (omega (arith, c.second_lt))))))

  Reads-timestamp :
      (t : Time)
      → IsCivil t
      → Reads (parse_timestamp go) (Grammar.timestamp_bytes t) (Grammar.whole_seconds t)
  unfolding parse_timestamp
  Reads-timestamp t c =
      subst (λ (v : Time). Reads (parse_timestamp go) (Grammar.timestamp_bytes t) v)
        (keeps (Grammar.whole_seconds t) (whole_seconds-IsCivil c))
        (Reads-bind _ (Reads-short t.year (year-Fits c)) (
          Reads-bind _ (Reads-short (pos t.month) (omega (arith, c.month_le))) (
            Reads-bind _ (Reads-short (pos t.day) (day-Fits c)) (
              Reads-bind _ (Reads-short (pos t.hour) (omega (arith, c.hour_lt))) (
                Reads-bind _ (Reads-short (pos t.minute) (omega (arith, c.minute_lt)))
                  (Reads-return _ (Reads-short (pos t.second) (omega (arith, c.second_lt)))))))))

  Reads-text :
      (t : Grammar.TextType) (s : List ℕ)
      → Reads (read_value go (Grammar.text_code t) (pos (length s + 1))) (s ++ (0 ∷ [])) (text s)
  unfolding read_value
  Reads-text Grammar.char s = Reads-return _ (Reads-null_term_string s)
  Reads-text _ s = Reads-return _ (Reads-null_term_string s)

  Reads-raw :
      (t : Grammar.RawType) (bs : List ℕ)
      → Reads (read_value go (Grammar.raw_code t) (pos (length bs))) bs (blob bs)
  unfolding read_value
  Reads-raw Grammar.bit bs = Reads-return _ (Reads-raw_bytes bs)
  Reads-raw _ bs = Reads-return _ (Reads-raw_bytes bs)

  -- Every value of the grammar, read by `readValue` at its type and size, is the value that the
  -- application is to receive, and takes exactly its bytes.
  pub values_read_back :
      (f : Grammar.Field)
      → Grammar.FieldFits f
      → Reads
          (read_value go (Grammar.field_type f) (pos (Grammar.field_size f)))
          (Grammar.field_bytes f)
          (Grammar.field_value go f)
  unfolding read_value
  values_read_back (Grammar.text_field t s) h = Reads-text t s
  values_read_back (Grammar.raw_field t bs) h = Reads-raw t bs
  values_read_back (Grammar.short_field z) h = Reads-return _ (Reads-short z h)
  values_read_back (Grammar.int_field z) h = Reads-return _ (Reads-int z h)
  values_read_back (Grammar.big_int_field z) h = Reads-return _ (Reads-long z h)
  values_read_back (Grammar.float_field d) h = Reads-return _ (Reads-float d h)
  values_read_back (Grammar.double_field d) h = Reads-return _ (Reads-double d h)
  values_read_back (Grammar.monetary_field d) h = Reads-return _ (Reads-double d h)
  values_read_back (Grammar.date_field t) h = Reads-return _ (Reads-date t h)
  values_read_back (Grammar.time_field t) h = Reads-return _ (Reads-time t h)
  values_read_back (Grammar.timestamp_field t) h = Reads-return _ (Reads-timestamp t h)
  values_read_back (Grammar.datetime_field t) h = Reads-return _ (Reads-datetime go keeps t h)
