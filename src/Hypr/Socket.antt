-- ===== src/Hypr/Socket.antt =====
-- connect_unix, read_line and the two loops of the command worker of hypr/src/module.cpp. What the
-- kernel answers to each call is a list of outcomes; a run that reaches the end of the list is one
-- that still waits in a call.
pub mod Connect
pub mod Lines
pub mod Transfer
use koya_plugins.Base.{
  ℕ, ◌+◌, ◌*◌, Bool, true, false, not, Option, none, some, List, [], ◌∷◌, ◌++◌, Bytes, is_empty,
  length, drop, take, ltb, leb, ◌==◌, if◌then◌else◌,
}

-- The answers in connect_unix: `socket` is the descriptor, if there is one; `connect` says whether
-- the connection was made, is in progress, or failed; then poll, the pending error, and fcntl.
pub data ConnectAnswer : Type 0 where
  connected in_progress failed : ConnectAnswer

pub record Calls : Type 0 where
  pub socket : Option ℕ
  pub connect : ConnectAnswer
  pub poll_ready : Bool
  pub error_free : Bool
  pub fcntl_ok : Bool

-- The descriptor that is returned, and those that were closed.
pub record Connected : Type 0 where
  pub fd : Option ℕ
  pub closed : List ℕ

give_up : ℕ → Connected
give_up fd = record { fd = none; closed = fd ∷ [] }

make_blocking : Calls → ℕ → Connected
unfolding give_up
make_blocking calls fd = if calls.fcntl_ok then record { fd = some fd; closed = [] } else give_up fd

-- `sun_path_size` is sizeof(addr.sun_path).
pub connect_unix : (sun_path_size : ℕ) → Calls → Bytes → Connected
unfolding make_blocking
connect_unix sun_path_size calls path = elim calls.socket [
  | none ↦ record { fd = none; closed = [] }
  | some fd ↦ if leb sun_path_size (length path) then give_up fd else elim calls.connect [
    | connected ↦ make_blocking calls fd
    | in_progress ↦
        if not calls.poll_ready
        then give_up fd
        else if calls.error_free
        then make_blocking calls fd
        else give_up fd
    | failed ↦ give_up fd
  ]
]

-- recv of one byte.
pub data Recv : Type 0 where
  byte : ℕ → Recv
  closed interrupted broken : Recv

-- The optional line, with the answers that are left; or still waiting.
pub data LineResult : Type 0 where
  line : Bytes → List Recv → LineResult
  no_line : List Recv → LineResult
  waits : LineResult

abbrev pub max_line : ℕ
max_line = 65536

pub read_line : Bytes → List Recv → LineResult
read_line buf [] = waits
read_line buf (closed ∷ rest) = if is_empty buf then no_line rest else line buf rest
read_line buf (interrupted ∷ rest) = read_line buf rest
read_line buf (broken ∷ rest) = no_line rest
read_line buf (byte ch ∷ rest) =
    let more = read_line (buf ++ ch ∷ []) rest in
    if ch == 10 then line buf rest else if leb max_line (length buf) then no_line rest else more

-- send: the bytes that the kernel took.
pub data Send : Type 0 where
  took : ℕ → Send
  interrupted broken : Send

-- How far the sending loop came, and what the peer was given.
pub record Sent : Type 0 where
  pub sent : ℕ
  pub delivered : Bytes

-- The loop while (sent < line.size()); `none` while a call waits.
unfoldable pub send_all : Bytes → Sent → List Send → Option Sent
send_all text s [] = if ltb s.sent (length text) then none else some s
send_all text s (answer ∷ answers) =
    let more = λ (n : ℕ).
      send_all text
        (record { sent = s.sent + n; delivered = s.delivered ++ take n (drop s.sent text) })
        answers in
    let again = send_all text s answers in
    if ltb s.sent (length text)
    then (elim answer [
      | took n ↦ if n == 0 then some s else more n
      | interrupted ↦ again
      | broken ↦ some s
    ])
    else some s

-- recv of a block of the reply; a block is not empty.
pub data Block : Type 0 where
  block : Bytes → Block
  closed interrupted broken : Block

-- `ok` and `out` when the receiving loop is left.
pub record Received : Type 0 where
  pub ok : Bool
  pub out : Bytes

abbrev pub max_reply : ℕ
max_reply = 4 * 1024 * 1024

pub recv_all : Bytes → List Block → Option Received
recv_all out [] = none
recv_all out (block b ∷ answers) =
    let more = recv_all (out ++ b) answers in
    if ltb max_reply (length out + length b) then some (record { ok = false; out = out }) else more
recv_all out (closed ∷ answers) = some (record { ok = not (is_empty out); out = out })
recv_all out (interrupted ∷ answers) = recv_all out answers
recv_all out (broken ∷ answers) = some (record { ok = false; out = out })
