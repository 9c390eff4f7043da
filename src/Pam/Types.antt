-- ===== src/Pam/Types.antt =====
-- The data of pam/src/module.cpp: requests, results, pending promises, and the PAM library.
use koya_plugins.Base.{ℕ, Bool, Option, List, Bytes, Table}

-- A `JSContext*` beside each promise is stored and never read; it is left out.
pub record AuthRequest : Type 0 where
  pub id : ℕ
  pub service : Bytes
  pub user : Bytes
  pub password : Bytes

pub record AuthResult : Type 0 where
  pub id : ℕ
  pub pam_code : ℕ
  pub ok : Bool
  pub message : Bytes

-- The two settling functions of a promise, as handles of script values.
pub record PendingPromise : Type 0 where
  pub resolve : ℕ
  pub reject : ℕ

-- `PamState`: mutexes and the condition variable are the atomicity of the steps of `System`.
-- `context` says that the context pointer is not null.
pub record PamState : Type 0 where
  pub next_id : ℕ
  pub requests : List AuthRequest
  pub results : List AuthResult
  pub promises : Table PendingPromise
  pub running : Bool
  pub context : Bool

-- The PAM library: its success code, and what its calls return on a request. `start` also says
-- whether it left a handle. The answers of the conversation are in the request that each call sees.
pub record PamLib : Type 0 where
  pub success : ℕ
  pub start : AuthRequest → ℕ × Bool
  pub authenticate : AuthRequest → ℕ
  pub acct_mgmt : AuthRequest → ℕ
  pub strerror : ℕ → Option Bytes
