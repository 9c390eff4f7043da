-- ===== src/Pam/System/Accounting.antt =====
-- What each operation of pam/src/module.cpp adds to the log of effects and takes from the tables.
use koya_plugins.Base.{
  ℕ, ◌+◌, ◌-◌, ◌*◌, ◌≤◌, ◌≡◌, refl, inl, inr, Bool, List, [], ◌∷◌, arith, length, Bytes, Table,
  find, erase, entries, find-entries, entries-erase, length-erase, tally, tally-erase, bytes_eq,
  bytes_eq_iff, ◌&&◌, ◌==◌, if◌then◌else◌, Option-cases, Bool-cases,
}
use koya_plugins.Pam.Types.{AuthRequest, AuthResult, PendingPromise}
use koya_plugins.Pam.Conversation.{erase_password, zeros}
use koya_plugins.Pam.Script.{
  Effect, copy_password, moved, wipe, new_promise, call, free_value, settle_all, Answer, answer_of,
  free_promises, wipe_requests,
}

abbrev pub one_if : Bool → ℕ
one_if b = if b then 1 else 0

-- Promises made under the id `a`, calls of a settling function for it, functions of it freed.
abbrev pub made : ℕ → Effect → ℕ
made a (new_promise id p) = one_if (id == a)
made a _ = 0

abbrev pub called : ℕ → Effect → ℕ
called a (call id f answer) = one_if (id == a)
called a _ = 0

abbrev pub freed : ℕ → Effect → ℕ
freed a (free_value id f) = one_if (id == a)
freed a _ = 0

-- How often a function `f` was handed to the plugin, was freed, and stands in the table.
abbrev pub uses : ℕ → PendingPromise → ℕ
uses f p = one_if (p.resolve == f) + one_if (p.reject == f)

abbrev pub handed : ℕ → Effect → ℕ
handed f (new_promise id p) = uses f p
handed f _ = 0

abbrev pub returned : ℕ → Effect → ℕ
returned f (free_value id g) = one_if (g == f)
returned f _ = 0

abbrev pub keeps : ℕ → ℕ × PendingPromise → ℕ
keeps f (id, p) = uses f p

-- All promises made; strings that the password `b` was read into, those of them that were overwritten
-- with zeros, and those that were left behind by a move.
abbrev pub promises_made : Effect → ℕ
promises_made (new_promise id p) = 1
promises_made _ = 0

abbrev pub copies : Bytes → Effect → ℕ
copies b (copy_password password) = one_if (bytes_eq password b)
copies b _ = 0

abbrev pub left_behind : Bytes → Effect → ℕ
left_behind b (moved password) = one_if (bytes_eq password b)
left_behind b _ = 0

abbrev pub wipes : Bytes → Effect → ℕ
wipes b (wipe text left) = one_if (bytes_eq text b && bytes_eq left (zeros text))
wipes b _ = 0

pub wipes-erase_password :
    (b p : Bytes) → wipes b (wipe p (erase_password p).0) ≡ one_if (bytes_eq p b)
unfolding erase_password
wipes-erase_password b p = elim (Bool-cases (bytes_eq p b)) [
  | inl e ↦ rw (e, (bytes_eq_iff (zeros p) (zeros p)).1 refl) refl
  | inr e ↦ rw e refl
]

-- A request with the password `b`.
abbrev pub secrets : Bytes → AuthRequest → ℕ
secrets b r = one_if (bytes_eq r.password b)

-- Results, requests with the id `a`.
abbrev pub result_ids : ℕ → AuthResult → ℕ
result_ids a r = one_if (r.id == a)

abbrev pub request_ids : ℕ → AuthRequest → ℕ
request_ids a r = one_if (r.id == a)

-- Every promise that the loop takes out of the table is called once and its two functions freed.
pub settle_all-called :
    (a : ℕ) (items : List AuthResult) (t : Table PendingPromise)
    → tally (called a) (settle_all items t).1 + entries a (settle_all items t).0 ≡ entries a t
unfolding settle_all
settle_all-called a [] t = omega arith
settle_all-called a (r ∷ items) t = elim (Option-cases (find r.id t)) [
  | inl e ↦ rw (e, settle_all) (settle_all-called a items t)
  | inr (p, e) ↦
      rw (e, settle_all)
        (ground (arith, settle_all-called a items (erase r.id t), entries-erase r.id a t p e))
]

pub settle_all-freed :
    (a : ℕ) (items : List AuthResult) (t : Table PendingPromise)
    → tally (freed a) (settle_all items t).1 + 2 * entries a (settle_all items t).0
      ≡ 2 * entries a t
unfolding settle_all
settle_all-freed a [] t = omega arith
settle_all-freed a (r ∷ items) t = elim (Option-cases (find r.id t)) [
  | inl e ↦ rw (e, settle_all) (settle_all-freed a items t)
  | inr (p, e) ↦
      rw (e, settle_all)
        (ground (arith, settle_all-freed a items (erase r.id t), entries-erase r.id a t p e))
]

pub settle_all-returned :
    (f : ℕ) (items : List AuthResult) (t : Table PendingPromise)
    → tally (returned f) (settle_all items t).1 + tally (keeps f) (settle_all items t).0
      ≡ tally (keeps f) t
unfolding settle_all
settle_all-returned f [] t = omega arith
settle_all-returned f (r ∷ items) t = elim (Option-cases (find r.id t)) [
  | inl e ↦ rw (e, settle_all) (settle_all-returned f items t)
  | inr (p, e) ↦
      rw (e, settle_all)
        (omega
          (arith, settle_all-returned f items (erase r.id t), tally-erase (keeps f) r.id t p e))
]

-- A result takes one promise of its id out of the table, if there is one.
pub settle_all-entries :
    (a : ℕ) (items : List AuthResult) (t : Table PendingPromise)
    → entries a (settle_all items t).0 ≡ entries a t - tally (result_ids a) items
unfolding settle_all
settle_all-entries a [] t = omega arith
settle_all-entries a (r ∷ items) t = elim (Option-cases (find r.id t)) [
  | inl e ↦
      rw (e, settle_all) (ground (arith, settle_all-entries a items t, find-entries r.id a t e))
  | inr (p, e) ↦
      rw (e, settle_all)
        (ground (arith, settle_all-entries a items (erase r.id t), entries-erase r.id a t p e))
]

pub settle_all-length :
    (items : List AuthResult) (t : Table PendingPromise) → length (settle_all items t).0 ≤ length t
unfolding settle_all
settle_all-length [] t = omega arith
settle_all-length (r ∷ items) t = elim (Option-cases (find r.id t)) [
  | inl e ↦ rw (e, settle_all) (settle_all-length items t)
  | inr (p, e) ↦
      rw (e, settle_all)
        (omega (arith, settle_all-length items (erase r.id t), length-erase r.id t p e))
]

-- The loop makes no promise and touches no password.
pub settle_all_quiet :
    (w : Effect → ℕ)
    → ((id f : ℕ) (answer : Answer) → w (call id f answer) ≡ 0)
    → ((id f : ℕ) → w (free_value id f) ≡ 0)
    → (items : List AuthResult) (t : Table PendingPromise) → tally w (settle_all items t).1 ≡ 0
unfolding settle_all
settle_all_quiet w c f [] t = refl
settle_all_quiet w c f (r ∷ items) t = elim (Option-cases (find r.id t)) [
  | inl e ↦ rw (e, settle_all) (settle_all_quiet w c f items t)
  | inr (p, e) ↦
      rw (e, settle_all)
        (omega (
          arith,
          settle_all_quiet w c f items (erase r.id t),
          c r.id (if r.ok then p.resolve else p.reject) (answer_of r),
          f r.id p.resolve,
          f r.id p.reject,
        ))
]

-- Shutdown frees both functions of every pending promise and overwrites every queued password.
pub free_promises-freed :
    (a : ℕ) (t : Table PendingPromise) → tally (freed a) (free_promises t) ≡ 2 * entries a t
unfolding free_promises
free_promises-freed a [] = refl
free_promises-freed a ((id, p) ∷ t) = omega (arith, free_promises-freed a t)

pub free_promises-returned :
    (f : ℕ) (t : Table PendingPromise) → tally (returned f) (free_promises t) ≡ tally (keeps f) t
unfolding free_promises
free_promises-returned f [] = refl
free_promises-returned f ((id, p) ∷ t) = omega (arith, free_promises-returned f t)

pub free_promises_quiet :
    (w : Effect → ℕ)
    → ((id f : ℕ) → w (free_value id f) ≡ 0)
    → (t : Table PendingPromise) → tally w (free_promises t) ≡ 0
unfolding free_promises
free_promises_quiet w f [] = refl
free_promises_quiet w f ((id, p) ∷ t) =
    omega (arith, free_promises_quiet w f t, f id p.resolve, f id p.reject)

pub wipe_requests-wipes :
    (b : Bytes) (requests : List AuthRequest)
    → tally (wipes b) (wipe_requests requests) ≡ tally (secrets b) requests
unfolding wipe_requests
wipe_requests-wipes b [] = refl
wipe_requests-wipes b (r ∷ requests) =
    omega (arith, wipe_requests-wipes b requests, wipes-erase_password b r.password)

pub wipe_requests_quiet :
    (w : Effect → ℕ)
    → ((p left : Bytes) → w (wipe p left) ≡ 0)
    → (requests : List AuthRequest) → tally w (wipe_requests requests) ≡ 0
unfolding wipe_requests
wipe_requests_quiet w h [] = refl
wipe_requests_quiet w h (r ∷ requests) =
    omega (arith, wipe_requests_quiet w h requests, h r.password (erase_password r.password).0)
