-- ===== src/Packet/Tests.antt =====
-- Runs of packet.go on concrete bytes, and the theorems at concrete inputs.
use cubrid_go.Prelude.{pos, negsuc, ◌≡◌, refl, [], ◌∷◌, ascii, arith, pos_part}
use cubrid_go.Result.{ok, panic}
use cubrid_go.Wire.{uint16, uint32}
use cubrid_go.Runtime.{Runtime, Time, IsCivil, KeepsCivil, days_in_month}
use cubrid_go.Packet.Writer.{
  PacketWriter, write_byte, write_short, write_int, write_long, write_float, write_double,
}
use cubrid_go.Packet.Reader.{
  PacketReader, Parser, ◌>>=◌, run, parse_byte, parse_short, parse_int, parse_long, parse_float,
  parse_double, parse_raw_bytes, parse_null_term_string, parse_datetime, strip_null,
}
use cubrid_go.Packet.RoundTrip.{ReadsBack, scalars_read_back}

-- A run time whose `Date` keeps its arguments.
abbrev pub example_go : Runtime
example_go = record {
  date = λ a. record {
    year = a.year;
    month = pos_part a.month;
    day = pos_part a.day;
    hour = pos_part a.hour;
    minute = pos_part a.minute;
    second = pos_part a.second;
    nanosecond = pos_part a.nanosecond;
  };
  utc = λ t. t;
  widen = λ b. b;
  format_float = λ b. ascii "1.5";
  format_time = λ t. ascii "2024-01-15 00:30:00";
}

pub example_go-KeepsCivil : KeepsCivil example_go
example_go-KeepsCivil t c = refl

abbrev pub noon : Time
noon = record {
  year = pos 2024;
  month = 2;
  day = 29;
  hour = 12;
  minute = 30;
  second = 15;
  nanosecond = 123456789;
}

pub noon-IsCivil : IsCivil noon
unfolding days_in_month
noon-IsCivil = record {
  at_year = 2024;
  year_eq = refl;
  year_le = omega arith;
  month_pos = omega arith;
  month_le = omega arith;
  day_pos = omega arith;
  day_le = omega arith;
  hour_lt = omega arith;
  minute_lt = omega arith;
  second_lt = omega arith;
  nanosecond_lt = omega arith;
}

abbrev some_bytes : PacketWriter
some_bytes = record { buf = 9 ∷ 8 ∷ [] }

negative_short : run parse_short (0xff ∷ 0xfe ∷ []) ≡ ok (negsuc 1)
unfolding run parse_short uint16
negative_short = refl

short_read_panics : run parse_int (1 ∷ 2 ∷ 3 ∷ []) ≡ panic
unfolding run parse_int uint32
short_read_panics = refl

text_with_null : run (parse_null_term_string (pos 3)) (65 ∷ 0 ∷ 0 ∷ []) ≡ ok (65 ∷ 0 ∷ [])
unfolding run parse_null_term_string parse_raw_bytes strip_null ◌>>=◌ cubrid_go.Packet.Reader.pure
text_with_null = refl

scalars_read_back_example :
    ReadsBack (write_byte 7) parse_byte 7 some_bytes (5 ∷ [])
    × ReadsBack (write_short (negsuc 1)) parse_short (negsuc 1) some_bytes (5 ∷ [])
    × ReadsBack (write_int (pos 300)) parse_int (pos 300) some_bytes (5 ∷ [])
    × ReadsBack (write_long (negsuc 0)) parse_long (negsuc 0) some_bytes (5 ∷ [])
    × ReadsBack (write_float 1) parse_float 1 some_bytes (5 ∷ [])
    × ReadsBack (write_double 2) parse_double 2 some_bytes (5 ∷ [])
scalars_read_back_example =
    scalars_read_back 7 (negsuc 1) (pos 300) (negsuc 0) 1 2 some_bytes (5 ∷ []) (omega arith)
      (omega arith) (omega arith) (omega arith) (omega arith)
