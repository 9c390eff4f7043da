-- ===== src/Hypr/Types.antt =====
-- The data of hypr/src/module.cpp.
use koya_plugins.Base.{ℕ, Bool, Bytes}

pub record EventItem : Type 0 where
  pub name : Bytes
  pub payload_raw : Bytes

pub data JobType : Type 0 where
  send json : JobType

-- A `JSContext*` beside the functions is stored and never read; it is left out.
pub record PendingPromise : Type 0 where
  pub resolve : ℕ
  pub reject : ℕ
  pub type : JobType

pub record JobResult : Type 0 where
  pub id : ℕ
  pub success : Bool
  pub payload : Bytes
