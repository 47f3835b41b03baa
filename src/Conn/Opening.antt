-- ===== src/Conn/Opening.antt =====
-- What connect makes of a broker and a CAS that answer.
pub mod Tests
use cubrid_go.Prelude.{
  ℕ, ℤ, zero, suc, pos, negsuc, Fits, wrap, signed32, signed32-wrap, wrap32-lt, is_negative,
  is_positive, ◌%◌, ◌<◌, ◌^◌, ◌≡◌, refl, sym, ap, ◌∙◌, List, [], ◌∷◌, ◌++◌, Bool, true, false,
  length, get_elem?, some, none, arith, ascii, if◌then◌else◌, append-nil,
}
use cubrid_go.Result.{Result, ok, err, operational_error}
use cubrid_go.Errors.{new_error}
use cubrid_go.Wire.{put_uint32, uint32, uint32-put_uint32}
use cubrid_go.Protocol.Types.{OpenDatabaseResult}
use cubrid_go.Protocol.Requests.{write_client_info_exchange, write_open_database}
use cubrid_go.Protocol.Responses.{parse_open_database}
use cubrid_go.Protocol.Grammar.{int_bytes}
use cubrid_go.Protocol.Grammar.Responses.{response_bytes, error_bytes}
use cubrid_go.Protocol.Opening.{open_database_reads_back}
use cubrid_go.Protocol.Failures.{error_responses}
use cubrid_go.Runtime.{Runtime}
use cubrid_go.Conn.Socket.{Socket, Io, ◌>>=◌, ◌>>◌, lift}
use cubrid_go.Conn.Framing.{HasDeadlines, Answers, recv-Answers}
use cubrid_go.Conn.Handshake.{
  Network, Target, Opened, port_of, dial_as, start_timeout, ask_port, shut_socket, cas_socket,
  open_database, clear_deadline, connect,
}

module _ {S : Type 0} (net : Network S) where
  -- The broker on socket `k` takes the hello and answers with four bytes, the port.
  pub record Redirects (k : ℕ) (s : S) (port : ℤ) (s' : S) : Type 0 where
    pub sent : S
    pub fits : Fits 31 port
    pub greeted : (net.socket k).write write_client_info_exchange s ≡ (ok tt, sent)
    pub port_read : (net.socket k).read_full 4 sent ≡ (ok (put_uint32 (wrap 32 port)), s')

  -- Where the port leads: 0 to the same socket, a positive one to another, with the first closed.
  abbrev pub Leads : Target → ℕ → ℤ → S → ℕ → S → Type 0
  Leads c k (pos zero) s j s' = (k ≡ j) × (s ≡ s')
  Leads c k (pos (suc p)) s j s' =
      net.dial c.host (pos (suc p)) ((net.socket k).shut s) ≡ (ok j, s')
  Leads c k (negsuc p) s j s' = ⊥

  port_read_back :
      (port : ℤ) → Fits 31 port → port_of (uint32 (put_uint32 (wrap 32 port))) ≡ ok port
  port_read_back port fits =
      ap port_of (
        ap uint32 (sym (append-nil (put_uint32 (wrap 32 port))))
        ∙ uint32-put_uint32 (wrap 32 port) [] (wrap32-lt port))
      ∙ ap ok (signed32-wrap port fits)

  ask_port-Redirects :
      {k : ℕ} {s s' : S} {port : ℤ} → Redirects k s port s' → ask_port net k s ≡ (ok port, s')
  unfolding ask_port ◌>>=◌ ◌>>◌
  ask_port-Redirects {port = port} r = rw (r.greeted, r.port_read, port_read_back port r.fits) refl

  cas_socket-Leads :
      (c : Target) (k j : ℕ) (port : ℤ) (s s' : S)
      → Leads c k port s j s'
      → cas_socket net c k port s ≡ (ok j, s')
  unfolding cas_socket dial_as shut_socket ◌>>=◌ ◌>>◌
  cas_socket-Leads c k j (pos zero) s s' h = rw (h.0, h.1) refl
  cas_socket-Leads c k j (pos (suc p)) s s' h =
      let positive : is_positive (pos (suc p)) ≡ true = ground arith in rw (positive, h) refl
  cas_socket-Leads c k j (negsuc p) s s' h = absurd h

  module _ (deadlines : (k : ℕ) → HasDeadlines (net.socket k)) (c : Target) where
    start_timeout-HasDeadlines : (b : Bool) (k : ℕ) (s : S) → start_timeout net b k s ≡ (ok tt, s)
    unfolding start_timeout
    start_timeout-HasDeadlines true k s = rw ((deadlines k).set (some (net.timeout_at s)) s) refl
    start_timeout-HasDeadlines false k s = refl

    clear_deadline-HasDeadlines : (k : ℕ) (s : S) → clear_deadline net k s ≡ (ok tt, s)
    unfolding clear_deadline
    clear_deadline-HasDeadlines k s = rw ((deadlines k).set none s) refl

    open_database-Answers :
        {j : ℕ} {s s' : S} {resp : List ℕ} (res : Result OpenDatabaseResult)
        → Answers (net.socket j) s (write_open_database c.database c.user c.password) resp s'
        → parse_open_database resp ≡ res
        → open_database net c j s ≡ lift res s'
    unfolding open_database ◌>>=◌ ◌>>◌
    open_database-Answers {j} {s = s} res a parsed =
        rw
          (start_timeout-HasDeadlines c.timed j s, a.written, recv-Answers (net.socket j) a, parsed)
          refl

    module _ (k : ℕ) (s s1 s2 : S) (port : ℤ) (dialled : net.dial c.host c.port s ≡ (ok k, s1))
        (asked : Redirects k s1 port s2) where
      -- A broker that answers with a negative port: connect returns an OperationalError with the
      -- port as its code, and has closed the broker's socket.
      pub connect-rejected :
          is_negative port ≡ true
          → connect net c s ≡ (
            err (
                operational_error
                  (record { code = port; message = ascii "broker rejected connection" })),
            (net.socket k).shut s2,
          )
      unfolding connect dial_as cas_socket shut_socket ◌>>=◌ ◌>>◌
      connect-rejected negative =
          rw (dialled, start_timeout-HasDeadlines c.timed k s1, ask_port-Redirects asked, negative)
            refl

      module _ (j : ℕ) (s3 s4 : S) (leads : Leads c k port s2 j s3) where
        -- A broker that answers with a port from 0 on, and a CAS there that answers OpenDatabase with
        -- a success response in the format: the connection has the socket that the port leads to,
        -- the CAS_INFO and the protocol version of the response, which is the last of the exchange.
        pub connect-opens :
            (cas broker rest : List ℕ) (n v : ℕ) (session : ℤ)
            → length cas ≡ 4
            → length broker ≡ 16
            → get_elem? broker 4 ≡ some v
            → v < 256
            → n < 2 ^ 31
            → Fits 31 session
            → Answers
                (net.socket j)
                s3
                (write_open_database c.database c.user c.password)
                (response_bytes cas (pos n) (broker ++ int_bytes session) ++ rest)
                s4
            → connect net c s ≡ (ok (record { socket = j; cas_info = cas; proto_ver = v % 64 }), s4)
        unfolding connect dial_as ◌>>=◌ ◌>>◌
        connect-opens cas broker rest n v session four whole fifth byte small fits a =
            rw
              (
                dialled,
                start_timeout-HasDeadlines c.timed k s1,
                ask_port-Redirects asked,
                cas_socket-Leads c k j port s2 s3 leads,
                open_database-Answers _ a (
                    open_database_reads_back cas broker rest n v session four whole fifth byte small
                      fits),
                clear_deadline-HasDeadlines j s4,
              )
              refl

        -- The same broker, and a CAS that answers OpenDatabase with an error response: connect
        -- returns the error that `newError` makes of it, and the response is the last thing that
        -- happens to the socket, which is not closed.
        pub connect-refused :
            (cas : List ℕ) (m : ℕ) (error_code : ℤ) (msg : List ℕ) (go : Runtime)
            → length cas ≡ 4
            → Fits 31 (negsuc m)
            → Fits 31 error_code
            → Answers
                (net.socket j)
                s3
                (write_open_database c.database c.user c.password)
                (error_bytes cas (negsuc m) error_code msg)
                s4
            → connect net c s ≡ (err (new_error error_code msg), s4)
        unfolding connect dial_as ◌>>=◌ ◌>>◌
        connect-refused cas m error_code msg go four m_fits fits a =
            rw
              (
                dialled,
                start_timeout-HasDeadlines c.timed k s1,
                ask_port-Redirects asked,
                cas_socket-Leads c k j port s2 s3 leads,
                open_database-Answers (err (new_error error_code msg)) a
                    (error_responses cas four m m_fits error_code fits msg go [] 0 0).0,
              )
              refl
