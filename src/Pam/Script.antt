-- ===== src/Pam/Script.antt =====
-- js_authenticate, pam_update and pam_shutdown of pam/src/module.cpp, on the script thread.
use koya_plugins.Base.{
  ℕ, ◌+◌, ◌%◌, ◌^◌, Bool, true, false, ◌||◌, ◌≡◌, refl, ap, ◌⊎◌, inl, inr, ◌<◌, arith, Bool-cases,
  Option, none, some, List, [], ◌∷◌, ◌++◌, Bytes, codes, is_empty, contains, Table, find, erase,
  emplace, length, leb, if◌then◌else◌,
}
use koya_plugins.Pam.Types.{AuthRequest, AuthResult, PendingPromise, PamState}
use koya_plugins.Pam.Conversation.{erase_password}

-- What JS_IsUndefined and JS_ToCStringLen say of a value; the text is `none` if the conversion
-- threw.
pub record Value : Type 0 where
  pub is_undefined : Bool
  pub text : Option Bytes

-- The properties of the options object.
pub record Options : Type 0 where
  pub service : Value
  pub user : Value
  pub password : Value

-- The object that settles a promise; `message` is a property only where there is a text.
pub record Answer : Type 0 where
  pub ok : Bool
  pub pam_code : ℕ
  pub message : Option Bytes

-- What the plugin does to the script engine and to its own copies of passwords, in order.
pub data Effect : Type 0 where
  -- js_to_string made a copy of the password
  copy_password : Bytes → Effect
  -- a password was moved from one string to the next; what the one that was moved from keeps of it,
  -- as it may of a short text, is not erased
  moved : (password : Bytes) → Effect
  -- erase_password, on a string that held a text, and the bytes that it left in its buffer
  wipe : (text left : Bytes) → Effect
  -- JS_NewPromiseCapability, under the id of the request
  new_promise : (id : ℕ) → PendingPromise → Effect
  -- JS_Call of a settling function, for the request `id`
  call : (id function : ℕ) → Answer → Effect
  -- JS_FreeValue of a settling function of the request `id`
  free_value : (id function : ℕ) → Effect

pub data Reply : Type 0 where
  throws_type_error throws_internal_error : Reply
  promise : (id : ℕ) → Reply

-- js_to_string
unfoldable pub js_to_string : Value → Bytes
js_to_string v = elim v.text [ none ↦ [] | some text ↦ text ]

unfoldable pub service_of : Options → Bytes
unfolding js_to_string
service_of o = if o.service.is_undefined then codes "login" else js_to_string o.service

unfoldable pub is_invalid : Bytes → Bytes → Bytes → Bool
is_invalid service user password =
    is_empty service
    || is_empty user
    || contains 0 service
    || contains 0 user
    || contains 0 password

-- The number of promises that may be pending.
abbrev pub max_pending : ℕ
max_pending = 16

-- `p` holds the functions that JS_NewPromiseCapability returns, if it is called. The password is
-- moved into the AuthRequest and with it into the queue.
unfoldable pub enqueue :
    PamState → PendingPromise → Bytes → Bytes → Bytes → PamState × List Effect × Reply
enqueue s p service user password =
    let id = s.next_id in
    (
      record s {
        next_id = (id + 1) % 2 ^ 32;
        promises = emplace id p s.promises;
        requests =
            s.requests
            ++ (record { id = id; service = service; user = user; password = password }) ∷ [];
      },
      new_promise id p ∷ moved password ∷ moved password ∷ [],
      promise id,
    )

unfoldable pub js_authenticate :
    PamState → PendingPromise → Option Options → PamState × List Effect × Reply
unfolding service_of is_invalid enqueue
js_authenticate s p none = (s, [], throws_type_error)
js_authenticate s p (some o) =
    let service = service_of o in
    let user = js_to_string o.user in
    let password = js_to_string o.password in
    let read = copy_password password in
    let erased = wipe password (erase_password password).0 in
    let queued = enqueue s p service user password in
    if is_invalid service user password
    then (s, read ∷ erased ∷ [], throws_type_error)
    else if leb max_pending (length s.promises)
    then (s, read ∷ erased ∷ [], throws_internal_error)
    else (queued.0, read ∷ queued.1, queued.2)

unfoldable pub answer_of : AuthResult → Answer
answer_of r = record {
  ok = r.ok;
  pam_code = r.pam_code;
  message = if is_empty r.message then none else some r.message;
}

-- The three ways in which a call of js_authenticate goes.
abbrev pub Admits : PamState → PendingPromise → PamState × List Effect × Reply → Type 0
Admits s p r =
    (r ≡ (s, [], throws_type_error))
    ⊎ ((b : Bytes) × (reply : Reply) × (r
          ≡ (s, copy_password b ∷ wipe b (erase_password b).0 ∷ [], reply)))
    ⊎ ((length s.promises < max_pending)
        × (service : Bytes) × (user : Bytes) × (password : Bytes) × (r ≡ (
          (enqueue s p service user password).0,
          copy_password password ∷ new_promise s.next_id p ∷ moved password ∷ moved password ∷ [],
          promise s.next_id,
        )))

pub js_authenticate_cases :
    (s : PamState) (p : PendingPromise) (o : Option Options) → Admits s p (js_authenticate s p o)
unfolding js_authenticate
js_authenticate_cases s p none = inl refl
js_authenticate_cases s p (some o) =
    elim (Bool-cases (is_invalid (service_of o) (js_to_string o.user) (js_to_string o.password))) [
      | inl e ↦ inr (inl (js_to_string o.password, throws_type_error, rw e))
      | inr e ↦ elim (Bool-cases (leb max_pending (length s.promises))) [
        | inl f ↦ inr (inl (js_to_string o.password, throws_internal_error, rw (e, f)))
        | inr f ↦ inr (
            inr
              (ground arith, service_of o, js_to_string o.user, js_to_string o.password, rw (e, f)))
      ]
    ]

-- The body of the loop for a promise that is pending: call one function, free both.
unfoldable pub settle : AuthResult → PendingPromise → List Effect
unfolding answer_of
settle r p =
    call r.id (if r.ok then p.resolve else p.reject) (answer_of r)
    ∷ free_value r.id p.resolve
    ∷ free_value r.id p.reject
    ∷ []

-- The loop over the results: the promises that are left, and what was done.
unfoldable pub settle_all :
    List AuthResult → Table PendingPromise → Table PendingPromise × List Effect
unfolding settle
settle_all [] promises = (promises, [])
settle_all (r ∷ items) promises = elim (find r.id promises) [
  | none ↦ settle_all items promises
  | some p ↦ let rest = settle_all items (erase r.id promises) in (rest.0, settle r p ++ rest.1)
]

unfoldable pub pam_update : PamState → PamState × List Effect
pam_update s =
    let settled = settle_all s.results s.promises in
    if s.context then (record s { results = []; promises = settled.0 }, settled.1) else (s, [])

pub pam_update_open :
    (s : PamState)
    → s.context ≡ true
    → pam_update s ≡ (
      record s { results = []; promises = (settle_all s.results s.promises).0 },
      (settle_all s.results s.promises).1,
    )
unfolding pam_update
pam_update_open s open' =
    ap
      (λ b.
        if b
        then (
          record s { results = []; promises = (settle_all s.results s.promises).0 },
          (settle_all s.results s.promises).1,
        )
        else (s, []))
      open'

unfoldable pub free_promises : Table PendingPromise → List Effect
free_promises [] = []
free_promises ((id, p) ∷ promises) =
    free_value id p.resolve ∷ free_value id p.reject ∷ free_promises promises

unfoldable pub wipe_requests : List AuthRequest → List Effect
wipe_requests [] = []
wipe_requests (r ∷ requests) =
    wipe r.password (erase_password r.password).0 ∷ wipe_requests requests

-- pam_shutdown up to the join of the worker.
unfoldable pub stop_worker : PamState → PamState
stop_worker s = record s { running = false }

-- pam_shutdown after the join.
unfoldable pub release_all : PamState → PamState × List Effect
unfolding free_promises wipe_requests
release_all s = (
  record s { promises = []; results = []; requests = []; context = false },
  free_promises s.promises ++ wipe_requests s.requests,
)
