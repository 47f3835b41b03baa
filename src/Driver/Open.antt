-- ===== src/Driver/Open.antt =====
-- driver.go: Open.
use cubrid_go.Prelude.{ℕ, ℤ, List, false, is_positive}
use cubrid_go.Result.{ok}
use cubrid_go.Conn.Socket.{Io, ◌>>=◌, lift}
use cubrid_go.Conn.Helpers.{Conn}
use cubrid_go.Conn.Handshake.{Network, Target, Opened, connect}
use cubrid_go.Driver.Dsn.{Parsers, Config, parse_dsn}

-- The fields of the `conn` that connect reads.
abbrev pub target_of : Config → Target
target_of cfg = record {
  host = cfg.host;
  port = cfg.port;
  database = cfg.database;
  user = cfg.user;
  password = cfg.password;
  timed = is_positive cfg.timeout;
}

-- The `conn` behind connect: its socket, and the fields that its methods use.
abbrev pub conn_of : Config → Opened → ℕ × Conn
conn_of cfg opened = (
  opened.socket,
  record {
    cas_info = opened.cas_info;
    proto_ver = opened.proto_ver;
    auto_commit = cfg.auto_commit;
    closed = false;
  },
)

module _ {S : Type 0} (std : Parsers) (net : ℤ → Network S) where
  -- `net` is the network for a timeout in nanoseconds.
  unfoldable pub open_conn : List ℕ → Io S (ℕ × Conn)
  unfolding ◌>>=◌ parse_dsn
  open_conn dsn = do
    cfg ← lift (parse_dsn std dsn)
    opened ← connect (net cfg.timeout) (target_of cfg)
    lift (ok (conn_of cfg opened))
