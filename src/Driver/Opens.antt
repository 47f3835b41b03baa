-- ===== src/Driver/Opens.antt =====
-- What Open makes of a data source name and of peers that answer.
use cubrid_go.Prelude.{
  ℕ, ℤ, pos, Fits, ◌%◌, ◌<◌, ◌^◌, ◌≡◌, refl, List, ◌++◌, false, length, get_elem?, some,
}
use cubrid_go.Result.{ok}
use cubrid_go.Protocol.Requests.{write_open_database}
use cubrid_go.Protocol.Grammar.{int_bytes}
use cubrid_go.Protocol.Grammar.Responses.{response_bytes}
use cubrid_go.Conn.Socket.{◌>>=◌}
use cubrid_go.Conn.Framing.{HasDeadlines, Answers}
use cubrid_go.Conn.Handshake.{Network}
use cubrid_go.Conn.Opening.{Redirects, Leads, connect-opens}
use cubrid_go.Driver.Dsn.{Parsers, Config, is_empty}
use cubrid_go.Driver.Config.{Prints, url_of, parse_dsn-url_of}
use cubrid_go.Driver.Open.{target_of, open_conn}

-- A DSN for a configuration with a host, a database, and a port and a timeout that an int64 holds,
-- a broker that answers with a port from 0 on, and a CAS there that takes the configuration's
-- database, user and password and answers with a success response in the format: Open returns an
-- open connection with the CAS_INFO and the protocol version of the response, in the auto-commit
-- mode of the configuration.
pub open_conn-serves :
    {S : Type 0} (std : Parsers) (print : Prints std) (net : ℤ → Network S) (cfg : Config)
    (dsn : List ℕ) (s s1 s2 s3 s4 : S) (k j : ℕ) (port : ℤ)
    → is_empty cfg.host ≡ false
    → is_empty cfg.database ≡ false
    → Fits 63 cfg.port
    → Fits 63 cfg.timeout
    → std.url dsn ≡ some (url_of print cfg)
    → ((i : ℕ) → HasDeadlines ((net cfg.timeout).socket i))
    → (net cfg.timeout).dial cfg.host cfg.port s ≡ (ok k, s1)
    → Redirects (net cfg.timeout) k s1 port s2
    → Leads (net cfg.timeout) (target_of cfg) k port s2 j s3
    → (cas broker rest : List ℕ) (n v : ℕ) (session : ℤ) → length cas ≡ 4
    → length broker ≡ 16
    → get_elem? broker 4 ≡ some v
    → v < 256
    → n < 2 ^ 31
    → Fits 31 session
    → Answers
        ((net cfg.timeout).socket j)
        s3
        (write_open_database cfg.database cfg.user cfg.password)
        (response_bytes cas (pos n) (broker ++ int_bytes session) ++ rest)
        s4
    → open_conn std net dsn s ≡ (
      ok (
        j,
        record {
          cas_info = cas;
          proto_ver = v % 64;
          auto_commit = cfg.auto_commit;
          closed = false;
        },
      ),
      s4,
    )
unfolding open_conn ◌>>=◌
open_conn-serves std print net cfg dsn s s1 s2 s3 s4 k j port host database port_fits timeout_fits
      stands deadlines dialled asked leads cas broker rest n v session four whole fifth byte small
      fits a =
    rw
      (
        parse_dsn-url_of std print cfg dsn host database port_fits timeout_fits stands,
        connect-opens (net cfg.timeout) deadlines (target_of cfg) k s s1 s2 port dialled asked j s3
            s4 leads cas broker rest n v session four whole fifth byte small fits a,
      )
      refl
