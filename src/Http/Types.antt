-- ===== src/Http/Types.antt =====
-- The data of http/src/Http.hpp.
use koya_plugins.Base.{ℕ, Bool, Option, List, Bytes}

pub data Method : Type 0 where
  get post patch put delete : Method

pub record MultipartPart : Type 0 where
  pub name : Bytes
  pub filename : Bytes
  pub content_type : Bytes
  pub body : Bytes

-- httplib::Headers, a multimap, in the order of the insertions.
abbrev pub Headers : Type 0
Headers = List (Bytes × Bytes)

-- `complete` is the number of the promise that the callback was made for.
pub record Job : Type 0 where
  pub method : Method
  pub url : Bytes
  pub succeed : Bool
  pub binary : Bool
  pub error_message : Bytes
  pub complete : ℕ
  pub headers : Headers
  pub body : Bytes
  pub multipart_boundary : Bytes
  pub multipart : Option (List MultipartPart)
  pub body_binary : Bytes
  pub status : ℕ
