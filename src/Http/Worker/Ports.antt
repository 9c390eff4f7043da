-- ===== src/Http/Worker/Ports.antt =====
-- The ports that the worker of http/src/Http.cpp can take.
use koya_plugins.Base.{
  ◌≤◌, ◌≡◌, refl, ◌↔◌, none, some, arith, Bytes, ltb, Option-cases, Bool-cases, inl, inr,
}
use koya_plugins.Http.Types.{Job}
use koya_plugins.Http.Url.{UrlMatch, match_url, digits_value, stoi, port_of}
use koya_plugins.Http.Worker.{Library, perform}

-- A URL that matches, with a port that has these digits and does not fit into an int.
pub record Oversized (url : Bytes) : Type 0 where
  pub groups : UrlMatch
  pub digits : Bytes
  pub matches : match_url url ≡ some groups
  pub port : groups.port ≡ some digits
  pub large : 2147483648 ≤ digits_value 0 digits

stoi-none : (digits : Bytes) → stoi digits ≡ none → 2147483648 ≤ digits_value 0 digits
unfolding stoi
stoi-none digits h = elim (Bool-cases (ltb (digits_value 0 digits) 2147483648)) [
  | inl e ↦ absurd (cc (rw e at h))
  | inr e ↦ ground (arith, e)
]

stoi_large : (digits : Bytes) → 2147483648 ≤ digits_value 0 digits → stoi digits ≡ none
unfolding stoi
stoi_large digits h = ground (arith, h)

port_of-none :
    (url : Bytes) (m : UrlMatch) → match_url url ≡ some m → port_of m ≡ none → Oversized url
unfolding port_of
port_of-none url m match h = elim (Option-cases m.port) [
  | inl e ↦ absurd (ground (arith, h, e))
  | inr (digits, e) ↦ record {
    groups = m;
    digits = digits;
    matches = match;
    port = e;
    large = stoi-none digits (ground (arith, h, e));
  }
]

port_of-Oversized : (url : Bytes) (big : Oversized url) → port_of big.groups ≡ none
unfolding port_of
port_of-Oversized url big = ground (arith, big.port, stoi_large big.digits big.large)

perform-none : (lib : Library) (job : Job) → perform lib job ≡ none → Oversized job.url
unfolding perform
perform-none lib job h = elim (Option-cases (match_url job.url)) [
  | inl e ↦ absurd (cc (rw (e, perform) at h))
  | inr (m, e) ↦ elim (Option-cases (port_of m)) [
    | inl d ↦ port_of-none job.url m e d
    | inr (port, d) ↦ absurd (cc (rw (e, perform, d) at h))
  ]
]

perform-Oversized : (lib : Library) (job : Job) → Oversized job.url → perform lib job ≡ none
unfolding perform
perform-Oversized lib job big = rw (big.matches, perform, port_of-Oversized job.url big) refl

-- Whatever the client of the library answers, the worker's round for a job ends the process by an
-- exception that nothing catches exactly if the URL has the form that the worker accepts, with a port
-- whose value is 2^31 or more; in every other case the job is finished.
pub perform-none_iff : (lib : Library) (job : Job) → (perform lib job ≡ none) ↔ Oversized job.url
perform-none_iff lib job = (perform-none lib job, perform-Oversized lib job)
