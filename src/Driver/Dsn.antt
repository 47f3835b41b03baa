-- ===== src/Driver/Dsn.antt =====
-- driver.go: parseDSN. Packages net/url, strconv and time are a record of what it calls; a URL is
-- what its accessors give.
use cubrid_go.Prelude.{
  ℕ, ℤ, pos, ltb, leb, if◌then◌else◌, List, [], ◌∷◌, Bool, true, false, length, drop, Option, none,
  some, ascii,
}
use cubrid_go.Result.{
  Result, ok, err, panic, ◌>>=◌, invalid_dsn, bad_url, bad_scheme, bad_port, no_database,
}
use cubrid_go.Errors.{bytes_eq}

-- `user` is the name and the password if there is one; `query_value key` is `Query().Get(key)`.
pub record Url : Type 0 where
  pub scheme : List ℕ
  pub hostname : List ℕ
  pub port : List ℕ
  pub path : List ℕ
  pub user : Option (List ℕ × Option (List ℕ))
  pub query_value : List ℕ → List ℕ

-- `url.Parse`, `strconv.Atoi`, `strconv.ParseBool` and `time.ParseDuration`; `none` is an error.
pub record Parsers : Type 0 where
  pub url : List ℕ → Option Url
  pub atoi : List ℕ → Option ℤ
  pub parse_bool : List ℕ → Option Bool
  pub parse_duration : List ℕ → Option ℤ

-- `timeout` in nanoseconds.
pub record Config : Type 0 where
  pub host : List ℕ
  pub port : ℤ
  pub database : List ℕ
  pub user : List ℕ
  pub password : List ℕ
  pub timeout : ℤ
  pub auto_commit : Bool

abbrev pub defaults : Config
defaults = record {
  host = ascii "localhost";
  port = pos 33000;
  database = [];
  user = [];
  password = [];
  timeout = pos 30000000000;
  auto_commit = true;
}

abbrev pub is_empty : List ℕ → Bool
is_empty [] = true
is_empty (c ∷ cs) = false

unfoldable pub set_host : List ℕ → Config → Config
set_host [] cfg = cfg
set_host (c ∷ cs) cfg = record cfg { host = c ∷ cs }

-- `s[from:]`; a slice out of bounds panics.
unfoldable pub slice_from : ℕ → List ℕ → Result (List ℕ)
slice_from from s = if leb from (length s) then ok (drop from s) else panic

-- `cfg.database = u.Path[1:]` behind its test.
unfoldable pub set_database : List ℕ → Config → Result Config
unfolding slice_from
set_database path cfg =
    if ltb 1 (length path)
    then (do database ← slice_from 1 path; ok (record cfg { database = database }))
    else ok cfg

abbrev or_empty : Option (List ℕ) → List ℕ
or_empty none = []
or_empty (some p) = p

unfoldable pub set_user : Option (List ℕ × Option (List ℕ)) → Config → Config
set_user none cfg = cfg
set_user (some (name, password)) cfg = record cfg { user = name; password = or_empty password }

module _ (std : Parsers) where
  unfoldable pub set_port : List ℕ → Config → Result Config
  set_port [] cfg = ok cfg
  set_port (c ∷ cs) cfg = elim (std.atoi (c ∷ cs)) [
    | some p ↦ ok (record cfg { port = p })
    | none ↦ err (invalid_dsn bad_port)
  ]

  -- An option that is not there, or that does not parse, leaves the default.
  unfoldable pub set_auto_commit : List ℕ → Config → Config
  set_auto_commit [] cfg = cfg
  set_auto_commit (c ∷ cs) cfg = elim (std.parse_bool (c ∷ cs)) [
    | some b ↦ record cfg { auto_commit = b }
    | none ↦ cfg
  ]

  unfoldable pub set_timeout : List ℕ → Config → Config
  set_timeout [] cfg = cfg
  set_timeout (c ∷ cs) cfg = elim (std.parse_duration (c ∷ cs)) [
    | some d ↦ record cfg { timeout = d }
    | none ↦ cfg
  ]

  unfoldable pub config_of : Url → Result Config
  unfolding set_host set_port set_database set_user set_auto_commit set_timeout
  config_of u =
      if bytes_eq u.scheme (ascii "cubrid")
      then (do
        cfg ← set_port u.port (set_host u.hostname defaults)
        cfg ← set_database u.path cfg
        let cfg =
            set_timeout (u.query_value (ascii "timeout"))
              (set_auto_commit (u.query_value (ascii "autocommit")) (set_user u.user cfg))
        if is_empty cfg.database then err (invalid_dsn no_database) else ok cfg)
      else err (invalid_dsn bad_scheme)

  unfoldable pub parse_dsn : List ℕ → Result Config
  unfolding config_of
  parse_dsn dsn = elim (std.url dsn) [ some u ↦ config_of u | none ↦ err (invalid_dsn bad_url) ]
