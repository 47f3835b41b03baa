-- ===== src/Driver/Accepted.antt =====
-- What parseDSN of driver.go accepts.
use cubrid_go.Prelude.{
  true, arith, ℕ, ℤ, ◌≡◌, refl, ap, ◌∙◌, if◌then◌else◌, List, [], ◌∷◌, false, Bool-cases, inl, inr,
  ◌⊎◌, ascii, none, some, Option, ltb, leb, drop, length,
}
use cubrid_go.Result.{Result, ok, err, invalid_dsn, bad_port, no_database}
use cubrid_go.Errors.{bytes_eq}
use cubrid_go.Driver.Dsn.{
  Url, Parsers, Config, defaults, is_empty, set_host, set_port, slice_from, set_database, set_user,
  set_auto_commit, set_timeout, config_of, parse_dsn,
}

-- A usable configuration, or an error of parseDSN: no panic and no other error.
abbrev pub IsUsable : Result Config → Type 0
IsUsable (ok cfg) = (is_empty cfg.host ≡ false) × (is_empty cfg.database ≡ false)
IsUsable (err (invalid_dsn e)) = Unit
IsUsable _ = ⊥

set_host-defaults : (h : List ℕ) → is_empty (set_host h defaults).host ≡ false
unfolding set_host
set_host-defaults [] = refl
set_host-defaults (c ∷ cs) = refl

-- The test keeps the slice of the path inside its bounds.
set_database-cases :
    (path : List ℕ) (cfg : Config)
    → (database : List ℕ) × (set_database path cfg ≡ ok (record cfg { database = database }))
unfolding set_database slice_from
set_database-cases path cfg = elim (Bool-cases (ltb 1 (length path))) [
  | inl long ↦
      let inside : leb 1 (length path) ≡ true = ground arith in
      (drop 1 path, rw (long, inside) refl)
  | inr short ↦ (cfg.database, rw short refl)
]

set_user_keeps :
    (user : Option (List ℕ × Option (List ℕ))) (cfg : Config) → (set_user user cfg).host ≡ cfg.host
unfolding set_user
set_user_keeps none cfg = refl
set_user_keeps (some u) cfg = refl

option_cases {ℓ} : {A : Type ℓ} (o : Option A) → (o ≡ none) ⊎ ((a : A) × (o ≡ some a))
option_cases none = inl refl
option_cases (some a) = inr (a, refl)

module _ (std : Parsers) where
  set_auto_commit_keeps : (t : List ℕ) (cfg : Config) → (set_auto_commit std t cfg).host ≡ cfg.host
  unfolding set_auto_commit
  set_auto_commit_keeps [] cfg = refl
  set_auto_commit_keeps (c ∷ cs) cfg = elim (option_cases (std.parse_bool (c ∷ cs))) [
    | inl e ↦ rw (e, set_auto_commit) refl
    | inr (b, e) ↦ rw (e, set_auto_commit) refl
  ]

  set_timeout_keeps : (t : List ℕ) (cfg : Config) → (set_timeout std t cfg).host ≡ cfg.host
  unfolding set_timeout
  set_timeout_keeps [] cfg = refl
  set_timeout_keeps (c ∷ cs) cfg = elim (option_cases (std.parse_duration (c ∷ cs))) [
    | inl e ↦ rw (e, set_timeout) refl
    | inr (d, e) ↦ rw (e, set_timeout) refl
  ]

  set_port-cases :
      (t : List ℕ) (cfg : Config)
      → (set_port std t cfg ≡ err (invalid_dsn bad_port))
        ⊎ ((p : ℤ) × (set_port std t cfg ≡ ok (record cfg { port = p })))
  unfolding set_port
  set_port-cases [] cfg = inr (cfg.port, refl)
  set_port-cases (c ∷ cs) cfg = elim (option_cases (std.atoi (c ∷ cs))) [
    | inl e ↦ inl (rw (e, set_port) refl)
    | inr (p, e) ↦ inr (p, rw (e, set_port) refl)
  ]

  -- The end of parseDSN: the last test.
  accepted :
      (cfg : Config)
      → is_empty cfg.host ≡ false
      → IsUsable (if is_empty cfg.database then err (invalid_dsn no_database) else ok cfg)
  accepted cfg host = elim (Bool-cases (is_empty cfg.database)) [
    | inl missing ↦ rw missing tt
    | inr there ↦ rw there (host, there)
  ]

  -- The configuration behind the port and the database.
  abbrev filled : Url → Config → Config
  filled u cfg =
      set_timeout std (u.query_value (ascii "timeout"))
        (set_auto_commit std (u.query_value (ascii "autocommit")) (set_user u.user cfg))

  filled-host : (u : Url) (cfg : Config) → (filled u cfg).host ≡ cfg.host
  filled-host u cfg = set_timeout_keeps _ _ ∙ set_auto_commit_keeps _ _ ∙ set_user_keeps u.user cfg

  config_of-IsUsable : (u : Url) → IsUsable (config_of std u)
  unfolding config_of
  config_of-IsUsable u = elim (Bool-cases (bytes_eq u.scheme (ascii "cubrid"))) [
    | inr foreign ↦ rw foreign tt
    | inl ours ↦ elim (set_port-cases u.port (set_host u.hostname defaults)) [
      | inl bad ↦ rw (ours, bad) tt
      | inr (p, e) ↦
          let cfg : Config = record (set_host u.hostname defaults) { port = p } in
          let (database, cut) = set_database-cases u.path cfg in
          let cfg' : Config = record cfg { database = database } in
          rw (ours, e, cut)
            (accepted (filled u cfg')
              (ap is_empty (filled-host u cfg') ∙ set_host-defaults u.hostname))
    ]
  ]

  -- What parseDSN makes of any text, whatever the parsers of the standard library say of it: a
  -- configuration with a host and a database, or one of its own errors; it never panics.
  pub parse_dsn-IsUsable : (dsn : List ℕ) → IsUsable (parse_dsn std dsn)
  unfolding parse_dsn
  parse_dsn-IsUsable dsn = elim (option_cases (std.url dsn)) [
    | inl e ↦ rw (e, parse_dsn) tt
    | inr (u, e) ↦ rw (e, parse_dsn) (config_of-IsUsable u)
  ]
