-- ===== src/Protocol/Arguments.antt =====
-- The layout of a request: the header with the payload's length and CAS_INFO, the function code,
-- and arguments that are each a length and as many bytes. The requests of protocol.go against it.
use cubrid_go.Prelude.{
  ℕ, ℤ, pos, wrap, wrap32-signed32, wrap32-lt, ◌+◌, ◌<◌, ◌^◌, ◌+ℤ◌, ◌==◌, ltb, if◌then◌else◌, ◌≡◌,
  refl, ap, ◌∙◌, List, [], ◌∷◌, ◌++◌, zero, suc, Bool, true, length, arith, length-append,
  append_assoc, append-nil, replicate, length-replicate,
}
use cubrid_go.Wire.{put_uint32, length-put_uint32}
use cubrid_go.Result.{ok}
use cubrid_go.Runtime.{Runtime, Value}
use cubrid_go.Constants.{stmt_select}
use cubrid_go.Packet.Header.{
  build_protocol_header, parse_protocol_header, parse_protocol_header-build_protocol_header,
}
use cubrid_go.Packet.Writer.{
  PacketWriter, int32, write_byte, write_int, write_null_term_string, add_byte, add_int,
  add_cache_time, add_bytes, write_fixed_string, write_filler, new_packet_writer,
}
use cubrid_go.Packet.RoundTrip.{
  write_fixed_string_lem, write_filler_lem, fixed_bytes, length-fixed_bytes,
}
use cubrid_go.Protocol.Requests.{
  framed, bool_byte, write_open_database, write_con_close, write_end_tran,
  write_prepare_and_execute, write_fetch, write_close_req_handle, write_get_db_version,
  write_get_last_insert_id, write_prepare,
}
use cubrid_go.Protocol.Bind.{add_bind_block, encode_bind_params, write_execute}
use cubrid_go.Protocol.Grammar.{int_bytes, concat_bytes}

-- One argument: its length and its bytes.
abbrev pub argument : List ℕ → List ℕ
argument bs = int_bytes (pos (length bs)) ++ bs

-- The request with this function code and these arguments.
abbrev pub request : ℕ → List (List ℕ) → List ℕ → List ℕ
request function_code args cas_info = framed (function_code ∷ concat_bytes argument args) cas_info

abbrev text_argument : List ℕ → List ℕ
text_argument sql = sql ++ (0 ∷ [])

wrap-int32 : (z : ℤ) → wrap 32 (int32 z) ≡ wrap 32 z
wrap-int32 z = wrap32-signed32 (wrap 32 z) (wrap32-lt z)

length-text_argument : (s : List ℕ) → length (s ++ (0 ∷ [])) ≡ length s + 1
length-text_argument s = length-append s (0 ∷ [])

ruleset layout = (append_assoc, append-nil, wrap-int32, length-text_argument, length-put_uint32)

-- The PREPARE_AND_EXECUTE request, for every text, flag and CAS_INFO: function code 41 and ten
-- arguments, the number 3, the text with its null byte, the prepare flag, auto-commit, the execute
-- flag, two sizes, no bind parameters, the cache time and the timeout.
pub prepare_and_execute_arguments :
    (sql cas : List ℕ) (auto_commit : Bool)
    → write_prepare_and_execute sql auto_commit cas
      ≡ request 41
          (int_bytes (pos 3)
            ∷ text_argument sql
            ∷ (0 ∷ [])
            ∷ (bool_byte auto_commit ∷ [])
            ∷ (2 ∷ [])
            ∷ int_bytes (pos 0)
            ∷ int_bytes (pos 0)
            ∷ []
            ∷ (int_bytes (pos 0) ++ int_bytes (pos 0))
            ∷ int_bytes (pos 0)
            ∷ [])
          cas
unfolding write_prepare_and_execute write_byte write_int write_null_term_string add_byte add_int
    put_uint32
prepare_and_execute_arguments sql cas auto_commit = simp layout

pub prepare_arguments :
    (sql cas : List ℕ) (auto_commit : Bool)
    → write_prepare sql auto_commit cas
      ≡ request 2 (text_argument sql ∷ (0 ∷ []) ∷ (bool_byte auto_commit ∷ []) ∷ []) cas
unfolding write_prepare write_byte write_int write_null_term_string add_byte put_uint32
prepare_arguments sql cas auto_commit = simp layout

pub fetch_arguments :
    (handle fetched size : ℤ) (cas : List ℕ)
    → write_fetch handle fetched size cas
      ≡ request 8
          (int_bytes handle
            ∷ int_bytes (fetched +ℤ pos 1)
            ∷ int_bytes size
            ∷ (0 ∷ [])
            ∷ int_bytes (pos 0)
            ∷ [])
          cas
unfolding write_fetch write_byte write_int add_byte add_int put_uint32
fetch_arguments handle fetched size cas = simp layout

-- The requests that close a connection, end a transaction, close a handle, and ask for the version
-- and the last insert id: their function codes and arguments, for every handle, type and flag.
pub small_request_arguments :
    (cas : List ℕ) (tx_type : ℕ) (handle : ℤ) (auto_commit : Bool)
    → (write_con_close cas ≡ request 31 [] cas)
      × (write_end_tran tx_type cas ≡ request 1 ((tx_type ∷ []) ∷ []) cas)
      × (write_close_req_handle handle cas ≡ request 6 (int_bytes handle ∷ []) cas)
      × (write_get_db_version auto_commit cas ≡ request 15 ((bool_byte auto_commit ∷ []) ∷ []) cas)
      × (write_get_last_insert_id cas ≡ request 40 [] cas)
unfolding write_con_close write_end_tran write_close_req_handle write_get_db_version
    write_get_last_insert_id write_byte write_int add_byte add_int put_uint32
small_request_arguments cas tx_type handle auto_commit =
    (refl, simp layout, simp layout, simp layout, refl)

-- The bind parameters are one argument, of length 0 where there are none.
bind_block_argument :
    (bs : List ℕ) (w : PacketWriter) → add_bind_block bs w ≡ record w { buf = w.buf ++ argument bs }
unfolding add_bind_block add_bytes write_int put_uint32
bind_block_argument [] w = refl
bind_block_argument (b ∷ bs) w =
    let some_bytes : ltb 0 (length (b ∷ bs)) ≡ true = ground arith in rw some_bytes (simp layout)

-- The EXECUTE request, for every handle, statement type, parameters and flag: function code 3 and
-- ten arguments, the bind parameters one of them, and the fetch flag set exactly for a SELECT.
pub execute_arguments :
    (go : Runtime) (handle : ℤ) (stmt_type : ℕ) (args : List Value) (auto_commit : Bool)
    (cas : List ℕ)
    → write_execute go handle stmt_type args auto_commit cas
      ≡ request 3
          (int_bytes handle
            ∷ (0 ∷ [])
            ∷ int_bytes (pos 0)
            ∷ int_bytes (pos 0)
            ∷ encode_bind_params go args
            ∷ ((if stmt_type == stmt_select then 1 else 0) ∷ [])
            ∷ (bool_byte auto_commit ∷ [])
            ∷ (1 ∷ [])
            ∷ (int_bytes (pos 0) ++ int_bytes (pos 0))
            ∷ int_bytes (pos 0)
            ∷ [])
          cas
unfolding write_execute write_byte write_int add_byte add_int add_cache_time put_uint32
execute_arguments go handle stmt_type args auto_commit cas = rw bind_block_argument (simp layout)

-- A request of fewer than 2 ^ 32 payload bytes begins with a header that gives the payload's length
-- and CAS_INFO, and the function code comes next.
request_header :
    (function_code : ℕ) (args : List (List ℕ)) (a b c d : ℕ)
    → length (function_code ∷ concat_bytes argument args) < 2 ^ 32
    → (parse_protocol_header (request function_code args (a ∷ b ∷ c ∷ d ∷ []))
        ≡ ok (length (function_code ∷ concat_bytes argument args), a ∷ b ∷ c ∷ d ∷ []))
      × (length (request function_code args (a ∷ b ∷ c ∷ d ∷ []))
          ≡ 8 + length (function_code ∷ concat_bytes argument args))
unfolding build_protocol_header put_uint32
request_header function_code args a b c d h =
    (parse_protocol_header-build_protocol_header _ a b c d _ h, omega arith)

replicate-append : (m n : ℕ) → replicate m zero ++ replicate n zero ≡ replicate (m + n) zero
replicate-append zero n = ap (λ (k : ℕ). replicate k zero) (omega arith)
replicate-append (suc m) n =
    ap (λ (t : List ℕ). zero ∷ t) (replicate-append m n)
    ∙ ap (λ (k : ℕ). replicate k zero) (let e : suc (m + n) ≡ suc m + n = omega arith in e)

module _ (k m n : ℕ) (database user password : List ℕ) where
  fixed_fields :
      (write_filler (pos n) (
        write_filler (pos m) (
          write_fixed_string password k
            (write_fixed_string user k (write_fixed_string database k new_packet_writer))))).buf
      ≡ fixed_bytes database k
        ++ (fixed_bytes user k ++ (fixed_bytes password k ++ replicate (m + n) zero))
  fixed_fields = simp (write_fixed_string_lem, write_filler_lem, append_assoc, replicate-append)

  length-fixed_fields :
      length (
        fixed_bytes database k
        ++ (fixed_bytes user k ++ (fixed_bytes password k ++ replicate (m + n) zero)))
      ≡ k + (k + (k + (m + n)))
  length-fixed_fields = simp (length-append, length-fixed_bytes, length-replicate)

-- The open-database request is 628 bytes long whatever the three texts, and holds each of them cut
-- or padded with 0 to 32 bytes, in this order, and then zeros.
pub open_database_layout :
    (database user password : List ℕ)
    → (write_open_database database user password
        ≡ fixed_bytes database 32
          ++ (fixed_bytes user 32 ++ (fixed_bytes password 32 ++ replicate 532 0)))
      × (length (write_open_database database user password) ≡ 628)
unfolding write_open_database
open_database_layout database user password =
    let e = fixed_fields 32 512 20 database user password in
    (e, ap (length {A = ℕ}) e ∙ length-fixed_fields 32 512 20 database user password)
