-- ===== src/Packet/Header.antt =====
-- packet.go, `buildProtocolHeader` and `parseProtocolHeader`. CAS_INFO is a list of four bytes.
use cubrid_go.Prelude.{
  ℕ, wrap, pos, ◌^◌, ◌<◌, ◌≡◌, List, ◌++◌, ◌∷◌, [], Option, none, some, drop, arith,
}
use cubrid_go.Wire.{put_uint32, uint32}
use cubrid_go.Result.{Result, ok, panic}
use cubrid_go.Constants.{size_data_length}

-- `dataLength` is the length of a slice. `uint32` drops its high bits.
unfoldable pub build_protocol_header : ℕ → List ℕ → List ℕ
build_protocol_header data_length cas_info = put_uint32 (wrap 32 (pos data_length)) ++ cas_info

cas_info_of : List ℕ → Result (List ℕ)
cas_info_of (a ∷ b ∷ c ∷ d ∷ rest) = ok (a ∷ b ∷ c ∷ d ∷ [])
cas_info_of _ = panic

header_of : Option ℕ → List ℕ → Result (ℕ × List ℕ)
header_of none bytes = panic
header_of (some len) bytes = elim (cas_info_of (drop size_data_length bytes)) [
  | ok cas ↦ ok (len, cas)
  | _ ↦ panic
]

-- `panic` is the slice bound of an input shorter than the header.
unfoldable pub parse_protocol_header : List ℕ → Result (ℕ × List ℕ)
unfolding header_of cas_info_of
parse_protocol_header bytes = header_of (uint32 bytes) bytes

-- Reading a header back gives the length and CAS_INFO it was built from, whatever follows it, for
-- every length below 2 ^ 32 and four bytes of CAS_INFO.
pub parse_protocol_header-build_protocol_header :
    (n : ℕ) (a b c d : ℕ) (rest : List ℕ)
    → n < 2 ^ 32
    → parse_protocol_header (build_protocol_header n (a ∷ b ∷ c ∷ d ∷ []) ++ rest)
      ≡ ok (n, a ∷ b ∷ c ∷ d ∷ [])
unfolding parse_protocol_header build_protocol_header put_uint32 uint32
parse_protocol_header-build_protocol_header n a b c d rest h = ground arith
