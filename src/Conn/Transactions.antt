-- ===== src/Conn/Transactions.antt =====
-- What transactions do to the auto-commit flag, and what is left of a closed connection.
use cubrid_go.Prelude.{
  ℕ, ℤ, pos, negsuc, Fits, ◌<◌, ◌^◌, ◌≡◌, refl, sym, ap, ◌∙◌, List, [], ◌++◌, true, false, length,
  inl, inr, Bool-cases,
}
use cubrid_go.Result.{Result, ok, err, bad_conn}
use cubrid_go.Errors.{new_error}
use cubrid_go.Runtime.{Runtime}
use cubrid_go.Packet.Reader.{pure}
use cubrid_go.Packet.Reads.{Reads-pure, Reads-run}
use cubrid_go.Protocol.Requests.{write_end_tran}
use cubrid_go.Protocol.Responses.{parse_simple_response}
use cubrid_go.Protocol.Grammar.Responses.{response_bytes, error_bytes}
use cubrid_go.Protocol.Parsed.Responses.{Reads-response}
use cubrid_go.Protocol.Failures.{error_responses}
use cubrid_go.Conn.Socket.{Socket, ◌>>=◌}
use cubrid_go.Conn.Framing.{Answers, send_and_recv-Answers}
use cubrid_go.Conn.Helpers.{Conn}
use cubrid_go.Conn.Session.{Left, begin, end_tran, after_end_tran, prepare, ping, close}

pub parse_simple_response-success :
    (cas rest : List ℕ) (n : ℕ)
    → length cas ≡ 4
    → n < 2 ^ 31
    → parse_simple_response (response_bytes cas (pos n) [] ++ rest) ≡ ok tt
unfolding parse_simple_response
parse_simple_response-success cas rest n four small =
    Reads-run rest (Reads-response _ cas four (λ code. pure tt) n small (Reads-pure tt))

module _ {S : Type 0} (socket : Socket S) (c : Conn) (tx_type : ℕ) (s s' : S) where
  -- Where the peer accepts the end of a transaction, COMMIT or ROLLBACK, auto-commit is on
  -- afterwards, whatever it was before.
  pub end_tran-accepted :
      (cas rest : List ℕ) (n : ℕ)
      → length cas ≡ 4
      → n < 2 ^ 31
      → Answers socket s
          (write_end_tran tx_type c.cas_info)
          (response_bytes cas (pos n) [] ++ rest)
          s'
      → end_tran socket tx_type c s ≡ (ok tt, record c { auto_commit = true }, s')
  unfolding end_tran ◌>>=◌ after_end_tran
  end_tran-accepted cas rest n four small a =
      rw (send_and_recv-Answers socket a, parse_simple_response-success cas rest n four small) refl

  -- Where the peer refuses it, the error is returned and the connection is left as it was, still in
  -- the transaction.
  pub end_tran-refused :
      (cas : List ℕ) (m : ℕ) (error_code : ℤ) (msg : List ℕ) (go : Runtime)
      → length cas ≡ 4
      → Fits 31 (negsuc m)
      → Fits 31 error_code
      → Answers socket s
          (write_end_tran tx_type c.cas_info)
          (error_bytes cas (negsuc m) error_code msg)
          s'
      → end_tran socket tx_type c s ≡ (err (new_error error_code msg), c, s')
  unfolding end_tran ◌>>=◌ after_end_tran
  end_tran-refused cas m error_code msg go four m_fits fits a =
      let refused = error_responses cas four m m_fits error_code fits msg go [] 0 0 in
      rw (send_and_recv-Answers socket a, refused.1) refl

-- A transaction that the peer ends, by COMMIT or ROLLBACK: Begin on an open connection turns
-- auto-commit off and does no I/O, and after the end it is on, whatever it was before Begin.
pub begin-end_tran :
    {S : Type 0} (socket : Socket S) (c : Conn) (tx_type : ℕ) (s s' : S) (cas rest : List ℕ) (n : ℕ)
    → c.closed ≡ false
    → length cas ≡ 4
    → n < 2 ^ 31
    → Answers socket s
        (write_end_tran tx_type c.cas_info)
        (response_bytes cas (pos n) [] ++ rest)
        s'
    → (begin c s ≡ (ok tt, record c { auto_commit = false }, s))
      × (end_tran socket tx_type (record c { auto_commit = false }) s
          ≡ (ok tt, record c { auto_commit = true }, s'))
unfolding begin
begin-end_tran socket c tx_type s s' cas rest n opened four small a = (
  rw opened refl,
  end_tran-accepted socket (record c { auto_commit = false }) tx_type s s' cas rest n four small a,
)

close-closed :
    {S : Type 0} (socket : Socket S) (c : Conn) (s : S) → (close socket c s).1.closed ≡ true
unfolding close
close-closed socket c s = elim (Bool-cases c.closed) [
  | inl done ↦ rw done refl
  | inr opened ↦ rw opened refl
]

-- A connection behind Close: Begin, Prepare and Ping report a bad connection, a second Close does
-- nothing, and none of them changes the connection or touches the socket.
pub close-bad_conn :
    {S : Type 0} (socket : Socket S) (c c' : Conn) (s s' : S) (res : Result (Unit {0}))
    (query : List ℕ)
    → close socket c s ≡ (res, c', s')
    → (begin c' s' ≡ (err bad_conn, c', s'))
      × (prepare socket query c' s' ≡ (err bad_conn, c', s'))
      × (ping socket c' s' ≡ (err bad_conn, c', s'))
      × (close socket c' s' ≡ (ok tt, c', s'))
unfolding close begin prepare ping
close-bad_conn {S} socket c c' s s' res query left =
    let done : c'.closed ≡ true =
      sym (ap (λ (o : Left S (Unit {0})). o.1.closed) left) ∙ close-closed socket c s in
    (rw done refl, rw done refl, rw done refl, rw done refl)
