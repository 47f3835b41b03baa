-- ===== src/Driver/Tests.antt =====
-- The theorems on driver.go at a concrete configuration.
use cubrid_go.Prelude.{
  Fits, ℕ, ℤ, pos, negsuc, ◌≡◌, refl, if◌then◌else◌, List, [], ◌∷◌, Bool, true, false, Option, none,
  some, ascii, arith,
}
use cubrid_go.Result.{ok}
use cubrid_go.Errors.{bytes_eq}
use cubrid_go.Protocol.Requests.{write_open_database}
use cubrid_go.Protocol.Tests.{cas}
use cubrid_go.Conn.Helpers.{Conn}
use cubrid_go.Conn.Framing.{stream-Answers}
use cubrid_go.Conn.Opening.Tests.{
  two_peers, offering, offered, answering, answered, opened, broker_info, redirects, server-Answers,
  opened-IsFramable, two_sockets-HasDeadlines,
}
use cubrid_go.Driver.Accepted.{IsUsable, parse_dsn-IsUsable}
use cubrid_go.Driver.Open.{open_conn}
use cubrid_go.Driver.Opens.{open_conn-serves}
use cubrid_go.Driver.Dsn.{Url, Parsers, Config, is_empty, parse_dsn}
use cubrid_go.Driver.Config.{Prints, parse_dsn-url_of}

abbrev int_text : ℤ → List ℕ
int_text (pos n) = b'+' ∷ n ∷ []
int_text (negsuc n) = b'-' ∷ n ∷ []

abbrev read_int : List ℕ → Option ℤ
read_int (sign ∷ n ∷ []) =
    if bytes_eq (sign ∷ []) (b'+' ∷ []) then some (pos n) else some (negsuc n)
read_int _ = none

abbrev bool_text : Bool → List ℕ
bool_text true = ascii "true"
bool_text false = ascii "false"

abbrev read_bool : List ℕ → Option Bool
read_bool t =
    if bytes_eq t (ascii "true")
    then some true
    else if bytes_eq t (ascii "false")
    then some false
    else none

abbrev demo : Config
demo = record {
  host = ascii "db1";
  port = pos 33000;
  database = ascii "demodb";
  user = ascii "dba";
  password = [];
  timeout = pos 5000000000;
  auto_commit = false;
}

abbrev demo_url : Url
demo_url = record {
  scheme = ascii "cubrid";
  hostname = ascii "db1";
  port = int_text (pos 33000);
  path = ascii "/demodb";
  user = some (ascii "dba", some []);
  query_value = λ key.
      if bytes_eq key (ascii "autocommit")
      then bool_text false
      else if bytes_eq key (ascii "timeout")
      then int_text (pos 5000000000)
      else [];
}

abbrev demo_std : Parsers
demo_std = record {
  url = λ dsn. some demo_url;
  atoi = read_int;
  parse_bool = read_bool;
  parse_duration = read_int;
}

read_int_text : (n : ℤ) → Fits 63 n → read_int (int_text n) ≡ some n
unfolding bytes_eq
read_int_text (pos n) h = refl
read_int_text (negsuc n) h = refl

read_bool_text : (b : Bool) → read_bool (bool_text b) ≡ some b
unfolding bytes_eq
read_bool_text true = refl
read_bool_text false = refl

int_text_some : (n : ℤ) → is_empty (int_text n) ≡ false
int_text_some (pos n) = refl
int_text_some (negsuc n) = refl

bool_text_some : (b : Bool) → is_empty (bool_text b) ≡ false
bool_text_some true = refl
bool_text_some false = refl

abbrev demo_prints : Prints demo_std
demo_prints = record {
  int_text = int_text;
  bool_text = bool_text;
  duration_text = int_text;
  atoi_int = read_int_text;
  parse_bool_text = read_bool_text;
  parse_duration_text = read_int_text;
  int_some = int_text_some;
  bool_some = bool_text_some;
  duration_some = int_text_some;
}

parse_dsn-url_of_example : parse_dsn demo_std (ascii "cubrid://dba:@db1/demodb") ≡ ok demo
parse_dsn-url_of_example =
    parse_dsn-url_of demo_std demo_prints demo (ascii "cubrid://dba:@db1/demodb") refl refl
      (omega arith) (omega arith) refl

-- The hello of the demo configuration, and its answer.
abbrev hello : List ℕ
hello = write_open_database demo.database demo.user demo.password

abbrev served : ℕ × Conn
served = (1, record { cas_info = cas; proto_ver = 12; auto_commit = false; closed = false })

open_conn-serves_example :
    open_conn demo_std
      (λ timeout. two_peers)
      (ascii "cubrid://dba:@db1/demodb")
      (record { broker = offering (pos 33001); server = answering opened })
    ≡ (ok served, record { broker = offered; server = answered })
open_conn-serves_example =
    open_conn-serves demo_std demo_prints (λ timeout. two_peers) demo
      (ascii "cubrid://dba:@db1/demodb")
      (record { broker = offering (pos 33001); server = answering opened })
      (record { broker = offering (pos 33001); server = answering opened })
      (record { broker = offered; server = answering opened })
      (record { broker = offered; server = answering opened })
      (record { broker = offered; server = answered }) 0 1 (pos 33001) refl refl (omega arith)
      (omega arith) refl two_sockets-HasDeadlines refl
      (redirects (pos 33001) (answering opened) (omega arith)) refl cas broker_info [] 3 76 (pos 9)
      refl refl refl (omega arith) (omega arith) (omega arith)
      (server-Answers offered (stream-Answers hello opened [] [] opened-IsFramable))

parse_dsn-IsUsable_example : IsUsable (parse_dsn demo_std (ascii "cubrid://dba:@db1/demodb"))
parse_dsn-IsUsable_example = parse_dsn-IsUsable demo_std (ascii "cubrid://dba:@db1/demodb")
