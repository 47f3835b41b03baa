-- ===== src/Protocol/Failures.antt =====
-- The parse functions of protocol.go on error responses and on responses that are cut short.
use cubrid_go.Prelude.{
  ℕ, ℤ, pos, negsuc, Fits, ◌<◌, ◌+◌, ◌≡◌, refl, ap, ◌∙◌, List, [], ◌∷◌, ◌++◌, length, arith, ◌-ℤ◌,
  length-append, append-nil,
}
use cubrid_go.Result.{err, panic}
use cubrid_go.Errors.{new_error}
use cubrid_go.Runtime.{Runtime}
use cubrid_go.Wire.{uint32, length-put_uint32}
use cubrid_go.Packet.Reader.{Parser, ◌>>=◌, fail, run, read_error, parse_int, parse_raw_bytes}
use cubrid_go.Packet.Reads.{
  Reads, Reads-bind, Reads-return, Reads-int, Reads-null_term_string, Fails, Fails-bind, Fails-fail,
  Fails-run, Fails-cast,
}
use cubrid_go.Protocol.Types.{ColumnMetaData}
use cubrid_go.Protocol.Tables.{raise_error}
use cubrid_go.Protocol.Responses.{
  body_length, parse_response, parse_open_database, parse_simple_response, parse_get_db_version,
  parse_get_last_insert_id, parse_prepare, parse_prepare_and_execute, parse_execute, parse_fetch,
}
use cubrid_go.Protocol.Grammar.{int_bytes}
use cubrid_go.Protocol.Grammar.Responses.{error_bytes}
use cubrid_go.Protocol.Parsed.Responses.{Reads-cas}

sub_four : (k : ℕ) → pos (k + 5) -ℤ pos 4 ≡ pos (k + 1)
unfolding ◌-ℤ◌
sub_four k = ground arith

body_length_step : (k : ℕ) → pos (k + 13) -ℤ pos 4 -ℤ pos 4 ≡ pos (k + 5)
unfolding ◌-ℤ◌
body_length_step k = ground arith

module _ (error_code : ℤ) (fits : Fits 31 error_code) (msg : List ℕ) where
  Reads-error :
      Reads
        (read_error (pos (length msg + 5)))
        (int_bytes error_code ++ (msg ++ (0 ∷ [])))
        (error_code, msg)
  unfolding read_error
  Reads-error =
      Reads-bind _ (Reads-int error_code fits)
        (Reads-return _ (rw (sub_four (length msg)) (Reads-null_term_string msg)))

  Fails-raise {ℓ} :
      {A : Type ℓ}
      → Fails
          (raise_error {A = A} (pos (length msg + 5)))
          (int_bytes error_code ++ (msg ++ (0 ∷ [])))
          (new_error error_code msg)
  unfolding raise_error
  Fails-raise {A} = Fails-cast (append-nil _) (
      Fails-bind (λ x. fail {A = A} (new_error x.0 x.1)) Reads-error
        (Fails-fail (new_error error_code msg)))

length-error_bytes :
    (cas : List ℕ) (code error_code : ℤ) (msg : List ℕ)
    → length cas ≡ 4
    → length (error_bytes cas code error_code msg) ≡ length msg + 13
length-error_bytes cas code error_code msg h =
    rw
      (
        length-append cas,
        length-append (int_bytes code),
        length-append (int_bytes error_code),
        length-append msg,
      )
      (omega (arith, length-put_uint32))

body_length-error_bytes :
    (cas : List ℕ) (code error_code : ℤ) (msg : List ℕ)
    → length cas ≡ 4
    → body_length (error_bytes cas code error_code msg) ≡ pos (length msg + 5)
body_length-error_bytes cas code error_code msg h =
    ap (λ (n : ℕ). pos n -ℤ pos 4 -ℤ pos 4) (length-error_bytes cas code error_code msg h)
    ∙ body_length_step (length msg)

module _ (cas : List ℕ) (four : length cas ≡ 4) (m : ℕ) (m_fits : Fits 31 (negsuc m))
    (error_code : ℤ) (fits : Fits 31 error_code) (msg : List ℕ) where
  Fails-response {ℓ} :
      {A : Type ℓ} (body : ℤ → Parser A)
      → run
          (parse_response (error_bytes cas (negsuc m) error_code msg) body)
          (error_bytes cas (negsuc m) error_code msg)
        ≡ err (new_error error_code msg)
  unfolding parse_response
  Fails-response body = Fails-run (
      Fails-bind _ (Reads-cas cas four) (
        Fails-bind _ (Reads-int (negsuc m) m_fits) (
          rw (body_length-error_bytes cas (negsuc m) error_code msg four)
            (Fails-raise error_code fits msg))))

  Fails-open_database :
      parse_open_database (error_bytes cas (negsuc m) error_code msg)
      ≡ err (new_error error_code msg)
  unfolding parse_open_database
  Fails-open_database = Fails-run (
      Fails-bind _ (Reads-cas cas four) (
        Fails-bind _ (Reads-int (negsuc m) m_fits) (
          rw (body_length-error_bytes cas (negsuc m) error_code msg four)
            (Fails-raise error_code fits msg))))

  -- Every parse function turns a response with a negative code, from -2 ^ 31 on, into the error
  -- that `newError` makes of the error's own int32 code and its message, of any bytes.
  pub error_responses :
      (go : Runtime) (columns : List ColumnMetaData) (stmt_type version : ℕ)
      → (parse_open_database (error_bytes cas (negsuc m) error_code msg)
          ≡ err (new_error error_code msg))
        × (parse_simple_response (error_bytes cas (negsuc m) error_code msg)
            ≡ err (new_error error_code msg))
        × (parse_get_db_version (error_bytes cas (negsuc m) error_code msg)
            ≡ err (new_error error_code msg))
        × (parse_get_last_insert_id (error_bytes cas (negsuc m) error_code msg)
            ≡ err (new_error error_code msg))
        × (parse_prepare (error_bytes cas (negsuc m) error_code msg)
            ≡ err (new_error error_code msg))
        × (parse_prepare_and_execute go (error_bytes cas (negsuc m) error_code msg) version
            ≡ err (new_error error_code msg))
        × (parse_execute go (error_bytes cas (negsuc m) error_code msg) columns stmt_type version
            ≡ err (new_error error_code msg))
        × (parse_fetch go (error_bytes cas (negsuc m) error_code msg) columns stmt_type
            ≡ err (new_error error_code msg))
  unfolding parse_simple_response parse_get_db_version parse_get_last_insert_id parse_prepare
      parse_prepare_and_execute parse_execute parse_fetch
  error_responses go columns stmt_type version = (
    Fails-open_database,
    Fails-response _,
    Fails-response _,
    Fails-response _,
    Fails-response _,
    Fails-response _,
    Fails-response _,
    Fails-response _,
  )

-- A response of fewer than eight bytes has no room for CAS_INFO and a code.
short_response {ℓ} :
    {A : Type ℓ} (bytes : List ℕ) (body : ℤ → Parser A)
    → length bytes < 8
    → run (parse_response bytes body) bytes ≡ panic
unfolding run parse_response ◌>>=◌ parse_raw_bytes parse_int uint32
short_response [] body h = refl
short_response (a ∷ []) body h = refl
short_response (a ∷ b ∷ []) body h = refl
short_response (a ∷ b ∷ c ∷ []) body h = refl
short_response (a ∷ b ∷ c ∷ d ∷ []) body h = refl
short_response (a ∷ b ∷ c ∷ d ∷ e ∷ []) body h = refl
short_response (a ∷ b ∷ c ∷ d ∷ e ∷ f ∷ []) body h = refl
short_response (a ∷ b ∷ c ∷ d ∷ e ∷ f ∷ g ∷ []) body h = refl
short_response (a ∷ b ∷ c ∷ d ∷ e ∷ f ∷ g ∷ i ∷ rest) body h = absurd (omega arith)

short_open_database : (bytes : List ℕ) → length bytes < 8 → parse_open_database bytes ≡ panic
unfolding parse_open_database run ◌>>=◌ parse_raw_bytes parse_int uint32
short_open_database [] h = refl
short_open_database (a ∷ []) h = refl
short_open_database (a ∷ b ∷ []) h = refl
short_open_database (a ∷ b ∷ c ∷ []) h = refl
short_open_database (a ∷ b ∷ c ∷ d ∷ []) h = refl
short_open_database (a ∷ b ∷ c ∷ d ∷ e ∷ []) h = refl
short_open_database (a ∷ b ∷ c ∷ d ∷ e ∷ f ∷ []) h = refl
short_open_database (a ∷ b ∷ c ∷ d ∷ e ∷ f ∷ g ∷ []) h = refl
short_open_database (a ∷ b ∷ c ∷ d ∷ e ∷ f ∷ g ∷ i ∷ rest) h = absurd (omega arith)

-- On a response of fewer than eight bytes, which `recv` passes on, every parse function panics.
pub short_responses_panic :
    (bytes : List ℕ) (go : Runtime) (columns : List ColumnMetaData) (stmt_type version : ℕ)
    → length bytes < 8
    → (parse_open_database bytes ≡ panic)
      × (parse_simple_response bytes ≡ panic)
      × (parse_get_db_version bytes ≡ panic)
      × (parse_get_last_insert_id bytes ≡ panic)
      × (parse_prepare bytes ≡ panic)
      × (parse_prepare_and_execute go bytes version ≡ panic)
      × (parse_execute go bytes columns stmt_type version ≡ panic)
      × (parse_fetch go bytes columns stmt_type ≡ panic)
unfolding parse_simple_response parse_get_db_version parse_get_last_insert_id parse_prepare
    parse_prepare_and_execute parse_execute parse_fetch
short_responses_panic bytes go columns stmt_type version h = (
  short_open_database bytes h,
  short_response bytes _ h,
  short_response bytes _ h,
  short_response bytes _ h,
  short_response bytes _ h,
  short_response bytes _ h,
  short_response bytes _ h,
  short_response bytes _ h,
)
