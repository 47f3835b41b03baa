-- ===== src/Constants.antt =====
-- constants.go: function codes, data types, transaction types, flags, statement types and sizes.
-- The data types are in the child module.
pub mod DataType
use cubrid_go.Prelude.{ℕ, List, ascii}

abbrev pub func_end_tran : ℕ
func_end_tran = 1

abbrev pub func_prepare : ℕ
func_prepare = 2

abbrev pub func_execute : ℕ
func_execute = 3

abbrev pub func_get_db_parameter : ℕ
func_get_db_parameter = 4

abbrev pub func_set_db_parameter : ℕ
func_set_db_parameter = 5

abbrev pub func_close_req_handle : ℕ
func_close_req_handle = 6

abbrev pub func_fetch : ℕ
func_fetch = 8

abbrev pub func_schema_info : ℕ
func_schema_info = 9

abbrev pub func_get_db_version : ℕ
func_get_db_version = 15

abbrev pub func_execute_batch : ℕ
func_execute_batch = 20

abbrev pub func_con_close : ℕ
func_con_close = 31

abbrev pub func_get_last_insert_id : ℕ
func_get_last_insert_id = 40

abbrev pub func_prepare_and_execute : ℕ
func_prepare_and_execute = 41

abbrev pub tx_commit : ℕ
tx_commit = 1

abbrev pub tx_rollback : ℕ
tx_rollback = 2

abbrev pub prepare_normal : ℕ
prepare_normal = 0

abbrev pub prepare_holdable : ℕ
prepare_holdable = 0x08

abbrev pub execute_normal : ℕ
execute_normal = 0

abbrev pub execute_query_all : ℕ
execute_query_all = 2

abbrev pub stmt_alter_class : ℕ
stmt_alter_class = 0

abbrev pub stmt_alter_serial : ℕ
stmt_alter_serial = 1

abbrev pub stmt_commit_work : ℕ
stmt_commit_work = 2

abbrev pub stmt_register_db : ℕ
stmt_register_db = 3

abbrev pub stmt_create_class : ℕ
stmt_create_class = 4

abbrev pub stmt_create_index : ℕ
stmt_create_index = 5

abbrev pub stmt_create_trigger : ℕ
stmt_create_trigger = 6

abbrev pub stmt_create_serial : ℕ
stmt_create_serial = 7

abbrev pub stmt_drop_database : ℕ
stmt_drop_database = 8

abbrev pub stmt_drop_class : ℕ
stmt_drop_class = 9

abbrev pub stmt_drop_index : ℕ
stmt_drop_index = 10

abbrev pub stmt_drop_label : ℕ
stmt_drop_label = 11

abbrev pub stmt_drop_trigger : ℕ
stmt_drop_trigger = 12

abbrev pub stmt_drop_serial : ℕ
stmt_drop_serial = 13

abbrev pub stmt_evaluate : ℕ
stmt_evaluate = 14

abbrev pub stmt_rename_class : ℕ
stmt_rename_class = 15

abbrev pub stmt_rollback_work : ℕ
stmt_rollback_work = 16

abbrev pub stmt_grant : ℕ
stmt_grant = 17

abbrev pub stmt_revoke : ℕ
stmt_revoke = 18

abbrev pub stmt_statistics : ℕ
stmt_statistics = 19

abbrev pub stmt_insert : ℕ
stmt_insert = 20

abbrev pub stmt_select : ℕ
stmt_select = 21

abbrev pub stmt_update : ℕ
stmt_update = 22

abbrev pub stmt_delete : ℕ
stmt_delete = 23

abbrev pub stmt_call : ℕ
stmt_call = 24

abbrev pub stmt_call_sp : ℕ
stmt_call_sp = 0x7E

abbrev pub stmt_unknown : ℕ
stmt_unknown = 0x7F

abbrev pub magic_string : List ℕ
magic_string = ascii "CUBRK"

abbrev pub client_jdbc : ℕ
client_jdbc = 3

abbrev pub cas_version : ℕ
cas_version = 0x47

abbrev pub proto_version : ℕ
proto_version = 7

abbrev pub size_byte : ℕ
size_byte = 1

abbrev pub size_short : ℕ
size_short = 2

abbrev pub size_int : ℕ
size_int = 4

abbrev pub size_long : ℕ
size_long = 8

abbrev pub size_float : ℕ
size_float = 4

abbrev pub size_double : ℕ
size_double = 8

abbrev pub size_datetime : ℕ
size_datetime = 14

abbrev pub size_oid : ℕ
size_oid = 8

abbrev pub size_cas_info : ℕ
size_cas_info = 4

abbrev pub size_data_length : ℕ
size_data_length = 4

abbrev pub size_broker_info : ℕ
size_broker_info = 16
