-- ===== src/Http/Worker.antt =====
-- http/src/Http.cpp: what the worker makes of one job.
pub mod Ports
use koya_plugins.Base.{
  ℕ, Bool, true, false, Option, none, some, List, [], ◌∷◌, ◌++◌, Bytes, codes, is_empty,
  if◌then◌else◌,
}
use koya_plugins.Http.Types.{Method, get, delete, MultipartPart, Headers, Job}
use koya_plugins.Http.Url.{UrlMatch, match_url, port_of, path_of}

abbrev crlf : Bytes
crlf = 13 ∷ 10 ∷ []

abbrev quote : Bytes
quote = 34 ∷ []

pub part_text : Bytes → MultipartPart → Bytes
part_text boundary part =
    codes "--"
    ++ (boundary
        ++ (crlf
            ++ (codes "Content-Disposition: form-data; name="
                ++ (quote
                    ++ (part.name
                        ++ (quote
                            ++ ((if is_empty part.filename
                                  then []
                                  else codes "; filename=" ++ (quote ++ (part.filename ++ quote)))
                                ++ (crlf
                                    ++ ((if is_empty part.content_type
                                          then []
                                          else codes "Content-Type: "
                                            ++ (part.content_type ++ crlf))
                                        ++ (crlf ++ (part.body ++ crlf)))))))))))

pub multipart_text : Bytes → List MultipartPart → Bytes
unfolding part_text
multipart_text boundary [] = codes "--" ++ (boundary ++ (codes "--" ++ crlf))
multipart_text boundary (part ∷ parts) = part_text boundary part ++ multipart_text boundary parts

-- The parts, if there are any, become the body.
unfoldable pub encode_multipart : Job → Job
unfolding multipart_text
encode_multipart job = elim job.multipart [
  | none ↦ job
  | some parts ↦ record job { body = multipart_text job.multipart_boundary parts; multipart = none }
]

-- A request as it goes to the client: the body and its type are sent with three of the methods.
pub record ClientCall : Type 0 where
  pub method : Method
  pub path : Bytes
  pub headers : Headers
  pub payload : Option (Bytes × Bytes)

-- httplib::Result: a response, or an error with the text that OpenSSL has for it.
pub data Answer : Type 0 where
  response : (status : ℕ) (headers : Headers) (body : Bytes) → Answer
  failure : (error : Bytes) (verify_error : Option Bytes) → Answer

-- What the worker uses of httplib, and whether the build has OpenSSL: a client for a scheme, a host
-- and a port, and the search for the header of the content type.
pub record Library : Type 0 where
  pub openssl : Bool
  pub send : (secure : Bool) (host : Bytes) (port : ℕ) → ClientCall → Answer
  pub find_content_type : Headers → Option Bytes

abbrev pub payload_of : Job → Bytes → Option (Bytes × Bytes)
payload_of job content_type = elim job.method as (λ _. Option (Bytes × Bytes)) [
  | get ↦ none
  | delete ↦ none
  | _ ↦ some (job.body, content_type)
]

abbrev pub content_type_of : Library → Headers → Bytes
content_type_of lib headers = elim (lib.find_content_type headers) [
  | none ↦ codes "application/json"
  | some t ↦ t
]

abbrev pub client_call : Library → Job → Bytes → ClientCall
client_call lib job path = record {
  method = job.method;
  path = path;
  headers = job.headers;
  payload = payload_of job (content_type_of lib job.headers);
}

abbrev pub fail : Job → Bytes → Job
fail job text = record job { succeed = false; error_message = text }

-- The text of OpenSSL is added for https only.
abbrev pub failure_text : Bool → Bytes → Option Bytes → Bytes
failure_text false error verify_error = error
failure_text true error none = error
failure_text true error (some text) = error ++ (codes " (SSL: " ++ (text ++ codes ")"))

abbrev or_default : Bytes → Bytes
or_default text = if is_empty text then codes "HTTP request failed" else text

abbrev pub finish : Bool → Job → Answer → Job
finish secure job (response status headers body) = record job {
  succeed = true;
  headers = headers;
  status = status;
  body = body;
  body_binary = body;
}
finish secure job (failure error verify_error) =
    fail job (or_default (failure_text secure error verify_error))

abbrev exchange : Library → Job → UrlMatch → ℕ → Job
exchange lib job m port =
    finish m.secure job (lib.send m.secure m.host port (client_call lib job (path_of m)))

-- A build without OpenSSL does not speak https.
unfoldable pub perform_match : Library → Job → UrlMatch → ℕ → Job
perform_match lib job m port =
    if m.secure
    then (if lib.openssl
        then exchange lib job m port
        else fail job (codes "HTTPS is not supported by this build"))
    else exchange lib job m port

-- One round of the worker's loop, without the queues; `none` if an exception ends the process.
unfoldable pub perform : Library → Job → Option Job
unfolding perform_match encode_multipart
perform lib job = elim (match_url job.url) [
  | none ↦ some (fail (encode_multipart job) (codes "Invalid URL format"))
  | some m ↦ elim (port_of m) [
    | none ↦ none
    | some port ↦ some (perform_match lib (encode_multipart job) m port)
  ]
]
