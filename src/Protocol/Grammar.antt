-- ===== src/Protocol/Grammar.antt =====
-- The bytes of a response, written down from the wire format that the comments of protocol.go
-- describe, independently of the parsers: columns, result infos, values and rows.
pub mod Rows
pub mod Responses
use cubrid_go.Prelude.{
  ℕ, ℤ, pos, Fits, wrap, ◌+◌, ◌/◌, ◌*◌, ◌<◌, ◌≤◌, ◌^◌, ◌==◌, ◌||◌, if◌then◌else◌, ◌≡◌, List, [],
  ◌∷◌, ◌++◌, Bool, true, false, length, Option, none, some, All,
}
use cubrid_go.Wire.{put_uint16, put_uint32, put_uint64}
use cubrid_go.Runtime.{Runtime, Time, IsCivil, Value, nil, int64, float64, text, blob, time}
use cubrid_go.Constants.DataType
use cubrid_go.Packet.RoundTrip.{null_term_bytes, datetime_bytes, truncate_ms}
use cubrid_go.Protocol.Requests.{bool_byte}
use cubrid_go.Protocol.Types.{ColumnMetaData, ResultInfo}

abbrev pub int_bytes : ℤ → List ℕ
int_bytes z = put_uint32 (wrap 32 z)

abbrev pub short_bytes : ℤ → List ℕ
short_bytes z = put_uint16 (wrap 16 z)

-- The bytes of the items, one behind the other.
abbrev pub concat_bytes {ℓ} : {A : Type ℓ} → (A → List ℕ) → List A → List ℕ
concat_bytes bytes [] = []
concat_bytes bytes (x ∷ xs) = bytes x ++ concat_bytes bytes xs

-- A column on the wire: its metadata, the byte before an extended type, and the bytes that the
-- driver skips.
pub record WireColumn : Type 0 where
  pub meta : ColumnMetaData
  pub legacy : Option ℕ
  pub reverse_index : ℕ
  pub reverse_unique : ℕ
  pub shared : ℕ

abbrev pub type_bytes : Option ℕ → ℕ → List ℕ
type_bytes none t = t ∷ []
type_bytes (some l) t = l ∷ t ∷ []

abbrev pub TypeFits : Option ℕ → ℕ → Type 0
TypeFits none t = t < 128
TypeFits (some l) t = (128 ≤ l) × (l < 256)

abbrev pub flag_bytes : Bool → List ℕ
flag_bytes b = bool_byte b ∷ []

abbrev pub TextFits : List ℕ → Type 0
TextFits s = length s + 1 < 2 ^ 31

pub record ColumnFits (c : WireColumn) : Type 0 where
  pub type_fits : TypeFits c.legacy c.meta.column_type
  pub scale_fits : Fits 15 c.meta.scale
  pub precision_fits : Fits 31 c.meta.precision
  pub name_fits : TextFits c.meta.name
  pub real_name_fits : TextFits c.meta.real_name
  pub table_name_fits : TextFits c.meta.table_name
  pub default_value_fits : TextFits c.meta.default_value

unfoldable pub column_bytes : WireColumn → List ℕ
column_bytes c =
    type_bytes c.legacy c.meta.column_type
    ++ (short_bytes c.meta.scale
        ++ (int_bytes c.meta.precision
            ++ (null_term_bytes c.meta.name
                ++ (null_term_bytes c.meta.real_name
                    ++ (null_term_bytes c.meta.table_name
                        ++ (flag_bytes c.meta.is_nullable
                            ++ (null_term_bytes c.meta.default_value
                                ++ (flag_bytes c.meta.is_auto_increment
                                    ++ (flag_bytes c.meta.is_unique_key
                                        ++ (flag_bytes c.meta.is_primary_key
                                            ++ ((c.reverse_index ∷ [])
                                                ++ ((c.reverse_unique ∷ [])
                                                    ++ (flag_bytes c.meta.is_foreign_key
                                                        ++ (c.shared ∷ []))))))))))))))

-- A result info with the cache time that the driver skips.
pub record WireInfo : Type 0 where
  pub info : ResultInfo
  pub cache_sec : ℤ
  pub cache_usec : ℤ

pub record InfoFits (i : WireInfo) : Type 0 where
  pub count_fits : Fits 31 i.info.result_count
  pub oid_length : length i.info.oid ≡ 8
  pub sec_fits : Fits 31 i.cache_sec
  pub usec_fits : Fits 31 i.cache_usec

unfoldable pub info_bytes : WireInfo → List ℕ
info_bytes i =
    (i.info.stmt_type ∷ [])
    ++ (int_bytes i.info.result_count
        ++ (i.info.oid ++ (int_bytes i.cache_sec ++ int_bytes i.cache_usec)))

-- The types whose values travel as text, and those whose bytes are handed on as they are.
pub data TextType : Type 0 where
  char string nchar var_nchar enum numeric : TextType

abbrev pub text_code : TextType → ℕ
text_code char = DataType.char
text_code string = DataType.string
text_code nchar = DataType.nchar
text_code var_nchar = DataType.var_nchar
text_code enum = DataType.enum
text_code numeric = DataType.numeric

pub data RawType : Type 0 where
  bit var_bit blob_lob clob_lob set multiset sequence object : RawType

abbrev pub raw_code : RawType → ℕ
raw_code bit = DataType.bit
raw_code var_bit = DataType.var_bit
raw_code blob_lob = DataType.blob
raw_code clob_lob = DataType.clob
raw_code set = DataType.set
raw_code multiset = DataType.multiset
raw_code sequence = DataType.sequence
raw_code object = DataType.object

-- A value on the wire that is not NULL. Floats are bit patterns.
pub data Field : Type 0 where
  text_field : TextType → List ℕ → Field
  raw_field : RawType → List ℕ → Field
  short_field int_field big_int_field : ℤ → Field
  float_field double_field monetary_field : ℕ → Field
  date_field time_field timestamp_field datetime_field : Time → Field

abbrev pub field_type : Field → ℕ
field_type (text_field t s) = text_code t
field_type (raw_field t bs) = raw_code t
field_type (short_field z) = DataType.short
field_type (int_field z) = DataType.int
field_type (big_int_field z) = DataType.big_int
field_type (float_field d) = DataType.float
field_type (double_field d) = DataType.double
field_type (monetary_field d) = DataType.monetary
field_type (date_field t) = DataType.date
field_type (time_field t) = DataType.time
field_type (timestamp_field t) = DataType.timestamp
field_type (datetime_field t) = DataType.datetime

abbrev pub field_size : Field → ℕ
field_size (text_field t s) = length s + 1
field_size (raw_field t bs) = length bs
field_size (short_field z) = 2
field_size (int_field z) = 4
field_size (big_int_field z) = 8
field_size (float_field d) = 4
field_size (double_field d) = 8
field_size (monetary_field d) = 8
field_size (date_field t) = 6
field_size (time_field t) = 6
field_size (timestamp_field t) = 12
field_size (datetime_field t) = 14

abbrev pub date_bytes : Time → List ℕ
date_bytes t = short_bytes t.year ++ (short_bytes (pos t.month) ++ short_bytes (pos t.day))

abbrev pub clock_bytes : Time → List ℕ
clock_bytes t =
    short_bytes (pos t.hour) ++ (short_bytes (pos t.minute) ++ short_bytes (pos t.second))

abbrev pub timestamp_bytes : Time → List ℕ
timestamp_bytes t =
    short_bytes t.year
    ++ (short_bytes (pos t.month)
        ++ (short_bytes (pos t.day)
            ++ (short_bytes (pos t.hour)
                ++ (short_bytes (pos t.minute) ++ short_bytes (pos t.second)))))

abbrev pub field_bytes : Field → List ℕ
field_bytes (text_field t s) = s ++ (0 ∷ [])
field_bytes (raw_field t bs) = bs
field_bytes (short_field z) = short_bytes z
field_bytes (int_field z) = int_bytes z
field_bytes (big_int_field z) = put_uint64 (wrap 64 z)
field_bytes (float_field d) = put_uint32 d
field_bytes (double_field d) = put_uint64 d
field_bytes (monetary_field d) = put_uint64 d
field_bytes (date_field t) = date_bytes t
field_bytes (time_field t) = clock_bytes t
field_bytes (timestamp_field t) = timestamp_bytes t
field_bytes (datetime_field t) = datetime_bytes t

-- The parts of a time that the date, time and timestamp types carry.
abbrev pub date_part : Time → Time
date_part t = record t { hour = 0; minute = 0; second = 0; nanosecond = 0 }

abbrev pub clock_part : Time → Time
clock_part t = record t { year = pos 0; month = 1; day = 1; nanosecond = 0 }

abbrev pub whole_seconds : Time → Time
whole_seconds t = record t { nanosecond = 0 }

-- What the driver makes of it; a raw value, a collection's too, stays the bytes it is.
abbrev pub field_value : Runtime → Field → Value
field_value go (text_field t s) = text s
field_value go (raw_field t bs) = blob bs
field_value go (short_field z) = int64 z
field_value go (int_field z) = int64 z
field_value go (big_int_field z) = int64 z
field_value go (float_field d) = float64 (go.widen d)
field_value go (double_field d) = float64 d
field_value go (monetary_field d) = float64 d
field_value go (date_field t) = time (date_part t)
field_value go (time_field t) = time (clock_part t)
field_value go (timestamp_field t) = time (whole_seconds t)
field_value go (datetime_field t) = time (truncate_ms t)

-- A raw value of no bytes is not told apart from NULL on the wire.
abbrev pub FieldFits : Field → Type 0
FieldFits (text_field t s) = length s + 2 < 2 ^ 31
FieldFits (raw_field t bs) = (0 < length bs) × (length bs + 1 < 2 ^ 31)
FieldFits (short_field z) = Fits 15 z
FieldFits (int_field z) = Fits 31 z
FieldFits (big_int_field z) = Fits 63 z
FieldFits (float_field d) = d < 2 ^ 32
FieldFits (double_field d) = d < 2 ^ 64
FieldFits (monetary_field d) = d < 2 ^ 64
FieldFits (date_field t) = IsCivil t
FieldFits (time_field t) = IsCivil t
FieldFits (timestamp_field t) = IsCivil t
FieldFits (datetime_field t) = IsCivil t
