-- ===== src/Protocol/Types.antt =====
-- protocol.go: the data types. A Go int that comes from a byte is a natural number, one that comes
-- from a short or an int32 is an integer.
use cubrid_go.Prelude.{ℕ, ℤ, List, Bool}
use cubrid_go.Runtime.{Value}

pub record ColumnMetaData : Type 0 where
  pub column_type : ℕ
  pub scale : ℤ
  pub precision : ℤ
  pub name : List ℕ
  pub real_name : List ℕ
  pub table_name : List ℕ
  pub is_nullable : Bool
  pub default_value : List ℕ
  pub is_auto_increment : Bool
  pub is_unique_key : Bool
  pub is_primary_key : Bool
  pub is_foreign_key : Bool

pub record ResultInfo : Type 0 where
  pub stmt_type : ℕ
  pub result_count : ℤ
  pub oid : List ℕ

pub record OpenDatabaseResult : Type 0 where
  pub cas_info : List ℕ
  pub protocol_version : ℕ
  pub session_id : ℤ

pub record PrepareAndExecuteResult : Type 0 where
  pub query_handle : ℤ
  pub statement_type : ℕ
  pub bind_count : ℤ
  pub columns : List ColumnMetaData
  pub total_tuple_count : ℤ
  pub result_infos : List ResultInfo
  pub tuple_count : ℤ
  pub rows : List (List Value)

pub record FetchResult : Type 0 where
  pub tuple_count : ℤ
  pub rows : List (List Value)

pub record PrepareResult : Type 0 where
  pub query_handle : ℤ
  pub statement_type : ℕ
  pub bind_count : ℤ
  pub columns : List ColumnMetaData

pub record ExecuteResult : Type 0 where
  pub total_tuple_count : ℤ
  pub result_infos : List ResultInfo
  pub tuple_count : ℤ
  pub rows : List (List Value)
