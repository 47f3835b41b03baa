-- ===== src/Protocol/Requests.antt =====
-- protocol.go: the requests. CAS_INFO is a list of four bytes.
use cubrid_go.Prelude.{ℕ, ℤ, pos, ◌+ℤ◌, if◌then◌else◌, List, [], ◌∷◌, ◌++◌, Bool, length}
use cubrid_go.Constants.{
  func_end_tran, func_prepare, func_close_req_handle, func_fetch, func_get_db_version,
  func_con_close, func_get_last_insert_id, func_prepare_and_execute, prepare_normal,
  execute_query_all, magic_string, client_jdbc, cas_version, size_long,
}
use cubrid_go.Packet.Header.{build_protocol_header}
use cubrid_go.Packet.Writer.{
  ◌▷◌, int32, new_packet_writer, to_bytes, write_byte, write_int, write_fixed_string, write_filler,
  write_null_term_string, add_byte, add_int,
}

-- The header with the payload's length, and the payload.
abbrev pub framed : List ℕ → List ℕ → List ℕ
framed payload cas_info = build_protocol_header (length payload) cas_info ++ payload

abbrev pub bool_byte : Bool → ℕ
bool_byte b = if b then 1 else 0

unfoldable pub write_client_info_exchange : List ℕ
write_client_info_exchange =
    ((magic_string ++ (client_jdbc ∷ [])) ++ (cas_version ∷ [])) ++ (0 ∷ 0 ∷ 0 ∷ [])

unfoldable pub write_open_database : List ℕ → List ℕ → List ℕ → List ℕ
write_open_database database user password = to_bytes (
    new_packet_writer
    ▷ write_fixed_string database 32
    ▷ write_fixed_string user 32
    ▷ write_fixed_string password 32
    ▷ write_filler (pos 512)
    ▷ write_filler (pos 20))

unfoldable pub write_con_close : List ℕ → List ℕ
write_con_close cas_info =
    framed (to_bytes (new_packet_writer ▷ write_byte func_con_close)) cas_info

unfoldable pub write_end_tran : ℕ → List ℕ → List ℕ
write_end_tran tx_type cas_info =
    framed (to_bytes (new_packet_writer ▷ write_byte func_end_tran ▷ add_byte tx_type)) cas_info

unfoldable pub write_prepare_and_execute : List ℕ → Bool → List ℕ → List ℕ
write_prepare_and_execute sql auto_commit cas_info =
    framed
      (to_bytes (
        new_packet_writer
        ▷ write_byte func_prepare_and_execute
        ▷ add_int (pos 3)
        ▷ write_null_term_string sql
        ▷ add_byte prepare_normal
        ▷ add_byte (bool_byte auto_commit)
        ▷ add_byte execute_query_all
        ▷ add_int (pos 0)
        ▷ add_int (pos 0)
        ▷ write_int (pos 0)
        ▷ write_int (pos size_long)
        ▷ write_int (pos 0)
        ▷ write_int (pos 0)
        ▷ add_int (pos 0)))
      cas_info

unfoldable pub write_fetch : ℤ → ℤ → ℤ → List ℕ → List ℕ
write_fetch query_handle current_tuple_count fetch_size cas_info =
    framed
      (to_bytes (
        new_packet_writer
        ▷ write_byte func_fetch
        ▷ add_int (int32 query_handle)
        ▷ add_int (int32 (current_tuple_count +ℤ pos 1))
        ▷ add_int (int32 fetch_size)
        ▷ add_byte 0
        ▷ add_int (pos 0)))
      cas_info

unfoldable pub write_close_req_handle : ℤ → List ℕ → List ℕ
write_close_req_handle query_handle cas_info =
    framed
      (to_bytes
        (new_packet_writer ▷ write_byte func_close_req_handle ▷ add_int (int32 query_handle)))
      cas_info

unfoldable pub write_get_db_version : Bool → List ℕ → List ℕ
write_get_db_version auto_commit cas_info =
    framed
      (to_bytes
        (new_packet_writer ▷ write_byte func_get_db_version ▷ add_byte (bool_byte auto_commit)))
      cas_info

unfoldable pub write_get_last_insert_id : List ℕ → List ℕ
write_get_last_insert_id cas_info =
    framed (to_bytes (new_packet_writer ▷ write_byte func_get_last_insert_id)) cas_info

unfoldable pub write_prepare : List ℕ → Bool → List ℕ → List ℕ
write_prepare sql auto_commit cas_info =
    framed
      (to_bytes (
        new_packet_writer
        ▷ write_byte func_prepare
        ▷ write_null_term_string sql
        ▷ add_byte prepare_normal
        ▷ add_byte (bool_byte auto_commit)))
      cas_info
