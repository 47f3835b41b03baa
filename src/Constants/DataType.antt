-- ===== src/Constants/DataType.antt =====
-- constants.go, the CUBRID data types; the name `TypeChar` of the source is `DataType.char` here.
use cubrid_go.Prelude.{ℕ}

abbrev pub null : ℕ
null = 0

abbrev pub char : ℕ
char = 1

abbrev pub string : ℕ
string = 2

abbrev pub nchar : ℕ
nchar = 3

abbrev pub var_nchar : ℕ
var_nchar = 4

abbrev pub bit : ℕ
bit = 5

abbrev pub var_bit : ℕ
var_bit = 6

abbrev pub numeric : ℕ
numeric = 7

abbrev pub int : ℕ
int = 8

abbrev pub short : ℕ
short = 9

abbrev pub monetary : ℕ
monetary = 10

abbrev pub float : ℕ
float = 11

abbrev pub double : ℕ
double = 12

abbrev pub date : ℕ
date = 13

abbrev pub time : ℕ
time = 14

abbrev pub timestamp : ℕ
timestamp = 15

abbrev pub set : ℕ
set = 16

abbrev pub multiset : ℕ
multiset = 17

abbrev pub sequence : ℕ
sequence = 18

abbrev pub object : ℕ
object = 19

abbrev pub big_int : ℕ
big_int = 21

abbrev pub datetime : ℕ
datetime = 22

abbrev pub blob : ℕ
blob = 23

abbrev pub clob : ℕ
clob = 24

abbrev pub enum : ℕ
enum = 25
