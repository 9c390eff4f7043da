-- ===== src/Sqlite/Types.antt =====
-- The data of sqlite/src/module.cpp.
use koya_plugins.Base.{ℕ, Bool, List, Bytes}

pub data JobType : Type 0 where
  exec query : JobType

-- `Job` holds a `JobExec` and a `JobQuery`, of which `type` selects one; both have these fields.
pub record Job : Type 0 where
  pub type : JobType
  pub id : ℕ
  pub sql : Bytes
  pub resolve : ℕ
  pub reject : ℕ

pub data SqliteValueType : Type 0 where
  null integer float text blob : SqliteValueType

pub record QueryResultColumn : Type 0 where
  pub name : Bytes
  pub value : Bytes
  pub type : SqliteValueType

abbrev pub QueryResultRow : Type 0
QueryResultRow = List QueryResultColumn

-- `QueryResult`, and `ExecResult` where there are no rows.
pub record QueryResult : Type 0 where
  pub ok : Bool
  pub code : ℕ
  pub message : Bytes
  pub rows : List QueryResultRow

-- The closure of a completion captures the functions and the result.
pub record Completion : Type 0 where
  pub job : Job
  pub result : QueryResult
