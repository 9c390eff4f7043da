-- ===== src/Http/Tests.antt =====
-- Runs of the model of http/src, and its theorems at concrete inputs.
use koya_plugins.Base.{
  get_property, set_property, c_string, bytes_eq, proto, if◌then◌else◌, ◌+◌, ◌≤◌, ◌≡◌, ◌↔◌, refl,
  true, false, none, some, List, [], ◌∷◌, ◌++◌, codes, arith, tally, find, erase, replace, entries,
  Bytes,
}
use koya_plugins.Http.Types.{Headers, Method, MultipartPart, Job}
use koya_plugins.Http.Url.{UrlMatch, match_url, stoi, port_of, path_of}
use koya_plugins.Http.Url.Printing.{IsUrl, url_text}
use koya_plugins.Http.Url.Reading.{match_url_iff}
use koya_plugins.Http.Worker.{
  Library, response, client_call, encode_multipart, perform, perform_match,
}
use koya_plugins.Http.Worker.Ports.{Oversized, perform-none_iff}
use koya_plugins.Http.Values.{
  BodyValue, MultipartValue, jsvalue_to_body, jsvalue_to_multipart, part,
}
use koya_plugins.Http.Requests.{
  headers_object, made, freed_resolve, freed_reject, Dispatch, runs_inline, keeps, RequestOptions,
  job_of, Event, requests, takes, performs, runs_task, drains, steps, step_at, js_request, take_job,
  drain, drain_jobs, request_callback, settle_request, release_promise, run_task,
  cleanup_http_context, initial,
}
use koya_plugins.Http.Requests.Promises.{makes, settles, frees_resolve, frees_reject, Within}
use koya_plugins.Http.Requests.Ledger.{requests_settled_once}
use koya_plugins.Http.Requests.Outcome.{at_rest, one_request, outcome, last_header}
use koya_plugins.Http.Requests.Run.{request_run}

abbrev url : Bytes
url = codes "http://host:8080/index"

abbrev groups : UrlMatch
groups = record {
  secure = false;
  host = codes "host";
  port = some (codes "8080");
  path = some (codes "/index");
}

match_url_iff_example : (match_url url ≡ some groups) ↔ (IsUrl groups × (url ≡ url_text groups))
match_url_iff_example = match_url_iff url groups

not_a_url : match_url (codes "http://host/a b") ≡ none
unfolding match_url
not_a_url = refl

abbrev cookies : Headers
cookies = (codes "Set-Cookie", codes "a=1") ∷ (codes "Set-Cookie", codes "b=2") ∷ []

-- The second header replaces the first.
one_cookie : headers_object (λ b. b) cookies [] ≡ (codes "Set-Cookie", codes "b=2") ∷ []
unfolding headers_object set_property bytes_eq c_string
one_cookie = refl

-- A library that always answers with a status of 200.
abbrev answering : Library
answering = record {
  openssl = true;
  send = λ secure host port call. response 200 cookies (codes "ok");
  find_content_type = λ headers. none;
}

abbrev options : RequestOptions
options = record {
  url = url;
  method = codes "post";
  headers = [];
  body = BodyValue.other (some (codes "text"));
  multipart = MultipartValue.array (part (codes "name") none none BodyValue.null ∷ []);
  binary = false;
  resolve = 70;
  reject = 71;
}

abbrev all_steps : List Event
all_steps =
    requests options ∷ takes ∷ performs ∷ requests options ∷ drains (λ job. keeps) ∷ runs_task ∷ []

all_steps-Within : Within (steps answering initial all_steps).log
unfolding steps step_at js_request jsvalue_to_body jsvalue_to_multipart take_job perform match_url
    perform_match port_of stoi encode_multipart drain drain_jobs request_callback settle_request
    release_promise run_task find erase replace
all_steps-Within = omega arith

requests_settled_once_example :
    let s = steps answering initial all_steps in
    (tally (makes 1) s.log ≤ 1)
    × (tally (settles 1) s.log + entries 1 s.pending ≡ tally (makes 1) s.log)
    × (tally (frees_resolve 1) s.log ≡ tally (settles 1) s.log)
    × (tally (frees_reject 1) s.log ≡ tally (settles 1) s.log)
    × (tally (settles 1) (cleanup_http_context s).log ≡ tally (settles 1) s.log)
    × (tally (frees_resolve 1) (cleanup_http_context s).log ≡ tally (makes 1) s.log)
    × (tally (frees_reject 1) (cleanup_http_context s).log ≡ tally (makes 1) s.log)
requests_settled_once_example = requests_settled_once answering all_steps 1 all_steps-Within

abbrev inline : Job → Dispatch
inline job = runs_inline

abbrev parts : List MultipartPart
parts = record { name = codes "name"; filename = []; content_type = []; body = [] } ∷ []

read_body : jsvalue_to_body options.body ≡ some (codes "text")
unfolding jsvalue_to_body
read_body = refl

read_multipart : jsvalue_to_multipart options.multipart ≡ some parts
unfolding jsvalue_to_multipart
read_multipart = refl

matched : match_url url ≡ some groups
unfolding match_url
matched = refl

port_fits : port_of groups ≡ some 8080
unfolding port_of
port_fits = refl

request_run_example :
    let s = at_rest 1 [] [] 1 [] [] in
    let job = encode_multipart (job_of s options (codes "text") parts) in
    let answer =
      answering.send false (codes "host") 8080 (client_call answering job (path_of groups)) in
    let s' = steps answering s (one_request inline options) in
    (s'.log
      ≡ []
        ++ (made 1 ∷ outcome 1 options false answer ∷ freed_resolve 1 70 ∷ freed_reject 1 71 ∷ []))
    × (s'.pending ≡ [])
    × ((decode : Bytes → Bytes) (headers : Headers) (name : Bytes)
        → get_property name (headers_object decode headers [])
          ≡ (if bytes_eq name proto then none else last_header decode name headers))
request_run_example =
    request_run answering inline 1 [] [] 1 [] [] options (codes "text") parts groups 8080 refl
      read_body read_multipart matched port_fits refl refl (λ job. refl)

abbrev large_port : Job
large_port = record {
  method = Method.get;
  url = codes "http://a:2147483648";
  succeed = false;
  binary = false;
  error_message = [];
  complete = 1;
  headers = [];
  body = [];
  multipart_boundary = [];
  multipart = none;
  body_binary = [];
  status = 0;
}

perform-none_iff_example : (perform answering large_port ≡ none) ↔ Oversized large_port.url
perform-none_iff_example = perform-none_iff answering large_port

large_port-ends : perform answering large_port ≡ none
unfolding perform match_url port_of
large_port-ends = refl
