-- ===== src/Sqlite/Handles.antt =====
-- js_open, js_open_memory, js_close and the closing of handles at the shutdown, of
-- sqlite/src/module.cpp. A database is the number of its `sqlite3*`.
pub mod Ledger
use koya_plugins.Base.{
  ℕ, Bool, ◌+◌, ◌%◌, ◌^◌, Option, none, some, List, [], ◌∷◌, ◌++◌, Bytes, Table, find, erase,
  emplace, if◌then◌else◌, ◌==◌, is_empty, codes,
}

-- Calls of sqlite3_open that gave a handle, and of sqlite3_close.
pub data Effect : Type 0 where
  opened closed : (db : ℕ) → Effect
  -- sqlite3_close gave SQLITE_BUSY: the database stays open, and its handle is lost
  refused : (db : ℕ) → Effect

pub record Handles : Type 0 where
  pub databases : Table ℕ
  pub next_database_id : ℕ
  pub log : List Effect

-- What sqlite3_open does: the handle, which may be there after a failure too, the code, and the text
-- of sqlite3_errmsg.
pub record Opening : Type 0 where
  pub db : Option ℕ
  pub rc : ℕ
  pub message : Bytes

pub data Reply : Type 0 where
  undefined throws_type_error : Reply
  throws : (message : Bytes) (code : ℕ) → Reply
  database : (id : ℕ) → Reply

-- A handle that a failed opening left is closed.
abbrev pub failure_effects : Option ℕ → List Effect
failure_effects none = []
failure_effects (some db) = opened db ∷ closed db ∷ []

-- g_dbs[id] = std::move(handle), which replaces what stands under the number.
pub set_handle : ℕ → ℕ → Table ℕ → Table ℕ
set_handle id db databases = (id, db) ∷ erase id databases

fail_open : Handles → Opening → Handles × Reply
fail_open h o = (
  record h { log = h.log ++ failure_effects o.db },
  throws (if is_empty o.message then codes "sqlite open failed" else o.message) o.rc,
)

keep_open : Handles → ℕ → Handles × Reply
unfolding set_handle
keep_open h db = (
  record {
    databases = set_handle h.next_database_id db h.databases;
    next_database_id = (h.next_database_id + 1) % 2 ^ 32;
    log = h.log ++ opened db ∷ [];
  },
  database h.next_database_id,
)

-- What sqlite3_open makes of an attempt: code 0 with a handle, or a failure.
pub data Attempt : Type 0 where
  succeeds : (db : ℕ) → Attempt
  fails : Opening → Attempt

-- js_open for a text, and js_open_memory.
pub js_open : Handles → Attempt → Handles × Reply
unfolding fail_open keep_open
js_open h (succeeds db) = keep_open h db
js_open h (fails o) = fail_open h o

-- What sqlite3_close does: it gives SQLITE_BUSY while a statement of the worker is not finalized.
abbrev pub close_effect : (busy : Bool) → ℕ → Effect
close_effect busy db = if busy then refused db else closed db

-- js_close for an object whose `id` is a number, which is cut to 32 bits. What sqlite3_close returns
-- is not looked at.
pub js_close : Handles → (id64 : ℕ) → (busy : Bool) → Handles × Reply
js_close h id64 busy = elim (find (id64 % 2 ^ 32) h.databases) [
  | none ↦ (h, throws_type_error)
  | some db ↦ (
    record h {
      databases = erase (id64 % 2 ^ 32) h.databases;
      log = h.log ++ close_effect busy db ∷ [];
    },
    undefined,
  )
]

close_all : Table ℕ → List Effect
close_all [] = []
close_all ((id, db) ∷ databases) = closed db ∷ close_all databases

-- The end of scriptShutdown: the worker was joined and no statement is left.
pub close_databases : Handles → Handles
unfolding close_all
close_databases h = record h { databases = []; log = h.log ++ close_all h.databases }

pub data Call : Type 0 where
  opens : Attempt → Call
  closes : (id64 : ℕ) (busy : Bool) → Call

pub run_call : Handles → Call → Handles
unfolding js_open js_close
run_call h (opens a) = (js_open h a).0
run_call h (closes id64 busy) = (js_close h id64 busy).0

pub run_calls : Handles → List Call → Handles
unfolding run_call
run_calls h [] = h
run_calls h (c ∷ calls) = run_calls (run_call h c) calls

abbrev pub no_handles : Handles
no_handles = record { databases = []; next_database_id = 1; log = [] }
