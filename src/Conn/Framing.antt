-- ===== src/Conn/Framing.antt =====
-- What `sendAndRecv` makes of a peer that answers.
use cubrid_go.Prelude.{
  Option, ℕ, true, ◌-◌, ◌≤◌, ◌<◌, ◌^◌, ◌≡◌, refl, sym, ap, ◌∙◌, List, [], ◌++◌, length, arith, take,
  drop, leb, if◌then◌else◌, some, append-nil, append_assoc, length-append, take-append, drop-append,
}
use cubrid_go.Result.{ok, err, eof}
use cubrid_go.Wire.{put_uint32, uint32, uint32-put_uint32}
use cubrid_go.Constants.{size_cas_info}
use cubrid_go.Conn.Socket.{Socket, ◌>>=◌, ◌>>◌, send, recv, read_body, send_and_recv}

-- A response behind its DATA_LENGTH, which does not count CAS_INFO.
abbrev pub framed_response : List ℕ → List ℕ
framed_response resp = put_uint32 (length resp - size_cas_info) ++ resp

-- A length that DATA_LENGTH can say.
abbrev pub IsFramable : List ℕ → Type 0
IsFramable resp = (4 ≤ length resp) × (length resp < 2 ^ 32)

module _ {S : Type 0} (socket : Socket S) where
  -- In state `s` the request can be written, and the response is what comes back.
  pub record Answers (s : S) (req resp : List ℕ) (s' : S) : Type 0 where
    pub sent : S
    pub counted : S
    pub framable : IsFramable resp
    pub written : socket.write req s ≡ (ok tt, sent)
    pub length_read : socket.read_full 4 sent ≡ (ok (put_uint32 (length resp - 4)), counted)
    pub body_read : socket.read_full (length resp) counted ≡ (ok resp, s')

  length_word :
      (resp : List ℕ)
      → IsFramable resp
      → uint32 (put_uint32 (length resp - 4)) ≡ some (length resp - 4)
  length_word resp h =
      ap uint32 (sym (append-nil (put_uint32 (length resp - 4))))
      ∙ uint32-put_uint32 (length resp - 4) [] (omega (arith, h))

  pub recv-Answers :
      {s s' : S} {req resp : List ℕ} (a : Answers s req resp s')
      → recv socket a.sent ≡ (ok resp, s')
  unfolding recv ◌>>=◌
  recv-Answers {resp = resp} a = rw (a.length_read) (
      ap (λ o. read_body socket o a.counted) (length_word resp a.framable)
      ∙ ap (λ (n : ℕ). socket.read_full n a.counted) (omega (arith, a.framable))
      ∙ a.body_read)

  pub send_and_recv-Answers :
      {s s' : S} {req resp : List ℕ}
      → Answers s req resp s'
      → send_and_recv socket req s ≡ (ok resp, s')
  unfolding send_and_recv send ◌>>=◌ ◌>>◌
  send_and_recv-Answers a = rw a.written (recv-Answers a)

-- Setting a deadline succeeds, and leaves what the peer sends and receives as it is.
pub record HasDeadlines {S : Type 0} (socket : Socket S) : Type 0 where
  pub set : (d : Option ℕ) (s : S) → socket.set_deadline d s ≡ (ok tt, s)

-- A stream, which has no deadlines: the bytes that the peer has sent, and those that the driver has
-- written.
pub record Stream : Type 0 where
  pub incoming : List ℕ
  pub outgoing : List ℕ

abbrev pub stream_socket : Socket Stream
stream_socket = record {
  write = λ bytes st. (ok tt, record st { outgoing = st.outgoing ++ bytes });
  read_full = λ n st.
      if leb n (length st.incoming)
      then (ok (take n st.incoming), record st { incoming = drop n st.incoming })
      else (err eof, record st { incoming = [] });
  shut = λ st. record st { incoming = [] };
  set_deadline = λ d st. (ok tt, st);
}

read_whole :
    (xs ys out : List ℕ)
    → stream_socket.read_full (length xs) (record { incoming = xs ++ ys; outgoing = out })
      ≡ (ok xs, record { incoming = ys; outgoing = out })
read_whole xs ys out =
    let enough : leb (length xs) (length (xs ++ ys)) ≡ true = grind (arith, length-append xs ys) in
    rw (enough, take-append xs ys, drop-append xs ys) refl

read_length :
    (w : ℕ) (ys out : List ℕ)
    → stream_socket.read_full 4 (record { incoming = put_uint32 w ++ ys; outgoing = out })
      ≡ (ok (put_uint32 w), record { incoming = ys; outgoing = out })
unfolding put_uint32
read_length w ys out = read_whole (put_uint32 w) ys out

pub stream-Answers :
    (req resp rest out : List ℕ)
    → IsFramable resp
    → Answers stream_socket
        (record { incoming = framed_response resp ++ rest; outgoing = out })
        req
        resp
        (record { incoming = rest; outgoing = out ++ req })
stream-Answers req resp rest out h = record {
  sent = record { incoming = framed_response resp ++ rest; outgoing = out ++ req };
  counted = record { incoming = resp ++ rest; outgoing = out ++ req };
  framable = h;
  written = refl;
  length_read =
      rw (append_assoc (put_uint32 (length resp - 4)) resp rest)
        (read_length (length resp - 4) (resp ++ rest) (out ++ req));
  body_read = read_whole resp rest (out ++ req);
}

-- `sendAndRecv` writes the request, and takes exactly one framed response off a stream, whatever
-- follows it, for a response of 4 to 2 ^ 32 - 1 bytes.
pub send_and_recv-framed_response :
    (req resp rest out : List ℕ)
    → IsFramable resp
    → send_and_recv stream_socket req
        (record { incoming = framed_response resp ++ rest; outgoing = out })
      ≡ (ok resp, record { incoming = rest; outgoing = out ++ req })
send_and_recv-framed_response req resp rest out h =
    send_and_recv-Answers stream_socket (stream-Answers req resp rest out h)
