-- ===== src/Protocol/Opening.antt =====
-- ParseOpenDatabase on a success response: CAS_INFO, the code, the 16 bytes of the broker's
-- info and the session.
use cubrid_go.Prelude.{ℕ, ℤ, pos, Fits, ◌%◌, ◌<◌, ◌^◌, ◌≡◌, List, [], ◌++◌, length, get_elem?, some}
use cubrid_go.Prelude.Bytes.{low_six_bits}
use cubrid_go.Result.{ok}
use mathlib.Core.Path.{subst}
use cubrid_go.Packet.Reader.{parse_raw_bytes}
use cubrid_go.Packet.Reads.{
  Reads, Reads-bind, Reads-return, Reads-int, Reads-pure, Reads-raw_bytes, Reads-run,
}
use cubrid_go.Protocol.Responses.{at_index, parse_open_database}
use cubrid_go.Protocol.Grammar.{int_bytes}
use cubrid_go.Protocol.Grammar.Responses.{response_bytes}
use cubrid_go.Protocol.Parsed.Responses.{Reads-cas}

Reads-broker : (bs : List ℕ) → length bs ≡ 16 → Reads (parse_raw_bytes (pos 16)) bs bs
Reads-broker bs h = subst (λ (n : ℕ). Reads (parse_raw_bytes (pos n)) bs bs) h (Reads-raw_bytes bs)

Reads-at_index : (i v : ℕ) (bs : List ℕ) → get_elem? bs i ≡ some v → Reads (at_index i bs) [] v
unfolding at_index
Reads-at_index i v bs e = rw (e, at_index) (Reads-pure v)

-- An open-database response with a code from 0 to 2 ^ 31 - 1, 16 bytes of broker info and any
-- int32 session, whatever follows it: the protocol version is the low six bits of the fifth byte of
-- the broker info, and CAS_INFO and the session are read.
pub open_database_reads_back :
    (cas broker rest : List ℕ) (n v : ℕ) (session : ℤ)
    → length cas ≡ 4
    → length broker ≡ 16
    → get_elem? broker 4 ≡ some v
    → v < 256
    → n < 2 ^ 31
    → Fits 31 session
    → parse_open_database (response_bytes cas (pos n) (broker ++ int_bytes session) ++ rest)
      ≡ ok (record { cas_info = cas; protocol_version = v % 64; session_id = session })
unfolding parse_open_database
open_database_reads_back cas broker rest n v session four whole fifth byte small fits =
    rw (← low_six_bits v byte) (
      Reads-run rest (
        Reads-bind _ (Reads-cas cas four) (
          Reads-bind _ (Reads-int (pos n) small) (
            Reads-bind _ (Reads-broker broker whole) (
              Reads-bind _ (Reads-at_index 4 v broker fifth)
                (Reads-return _ (Reads-int session fits)))))))
