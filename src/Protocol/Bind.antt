-- ===== src/Protocol/Bind.antt =====
-- protocol.go: the bind parameters, and the EXECUTE request that carries them.
use cubrid_go.Prelude.{ℕ, ℤ, pos, ◌+◌, ◌==◌, ltb, if◌then◌else◌, List, [], ◌∷◌, Bool, length}
use cubrid_go.Runtime.{Runtime, Value, nil, bool, int64, float64, text, blob, time, other}
use cubrid_go.Constants.{
  func_execute, execute_normal, stmt_select, size_short, size_long, size_double, size_datetime,
}
use cubrid_go.Constants.DataType
use cubrid_go.Packet.Writer.{
  PacketWriter, ◌▷◌, int32, new_packet_writer, to_bytes, write_byte, write_short, write_int,
  write_long, write_double, write_raw_bytes, write_datetime_fields, add_byte, add_int, add_bytes,
  add_cache_time,
}
use cubrid_go.Protocol.Requests.{framed, bool_byte}

-- A text as a parameter: its size with the type byte and the null byte, the type, the bytes.
unfoldable pub encode_text_param : List ℕ → PacketWriter → PacketWriter
encode_text_param encoded w =
    w
    ▷ write_int (int32 (pos (1 + length encoded + 1)))
    ▷ write_byte DataType.string
    ▷ write_raw_bytes encoded
    ▷ write_byte 0

-- The block of bind parameters, or the zero that stands for none.
unfoldable pub add_bind_block : List ℕ → PacketWriter → PacketWriter
add_bind_block bind_data w =
    if ltb 0 (length bind_data) then add_bytes bind_data w else write_int (pos 0) w

module _ (go : Runtime) where
  unfoldable pub encode_one_param : Value → PacketWriter → PacketWriter
  unfolding encode_text_param
  encode_one_param nil w = write_int (pos 0) w
  encode_one_param (bool v) w =
      w
      ▷ write_int (pos (1 + size_short))
      ▷ write_byte DataType.short
      ▷ write_short (if v then pos 1 else pos 0)
  encode_one_param (int64 v) w =
      w ▷ write_int (pos (1 + size_long)) ▷ write_byte DataType.big_int ▷ write_long v
  encode_one_param (float64 v) w =
      w ▷ write_int (pos (1 + size_double)) ▷ write_byte DataType.double ▷ write_double v
  encode_one_param (text s) w = encode_text_param s w
  encode_one_param (blob v) w =
      w ▷ write_int (int32 (pos (1 + length v))) ▷ write_byte DataType.var_bit ▷ write_raw_bytes v
  encode_one_param (time v) w =
      w
      ▷ write_int (pos (1 + size_datetime))
      ▷ write_byte DataType.datetime
      ▷ write_datetime_fields (go.utc v)
  encode_one_param (other s) w = encode_text_param s w

  -- `for _, arg := range args`
  unfoldable pub encode_params : List Value → PacketWriter → PacketWriter
  unfolding encode_one_param
  encode_params [] w = w
  encode_params (arg ∷ args) w = encode_params args (encode_one_param arg w)

  -- A nil slice and an empty one are both [].
  unfoldable pub encode_bind_params : List Value → List ℕ
  unfolding encode_params
  encode_bind_params args =
      if length args == 0 then [] else to_bytes (encode_params args new_packet_writer)

  unfoldable pub write_execute : ℤ → ℕ → List Value → Bool → List ℕ → List ℕ
  unfolding encode_bind_params add_bind_block
  write_execute query_handle stmt_type args auto_commit cas_info =
      let fetch_flag : ℕ = if stmt_type == stmt_select then 1 else 0 in
      framed
        (to_bytes (
          new_packet_writer
          ▷ write_byte func_execute
          ▷ add_int (int32 query_handle)
          ▷ add_byte execute_normal
          ▷ add_int (pos 0)
          ▷ add_int (pos 0)
          ▷ add_bind_block (encode_bind_params args)
          ▷ write_int (pos 1)
          ▷ write_byte fetch_flag
          ▷ add_byte (bool_byte auto_commit)
          ▷ add_byte 1
          ▷ add_cache_time
          ▷ add_int (pos 0)))
        cas_info
