-- ===== src/Hypr/Tests.antt =====
-- Runs of the model of hypr/src/module.cpp, and its theorems at concrete inputs.
use koya_plugins.Base.{
  ◌≤◌, ◌≡◌, ◌≢◌, ◌⊎◌, refl, true, none, some, List, [], ◌∷◌, ◌++◌, Bytes, codes, length, drop,
  arith, if◌then◌else◌, ◌==◌, tally, ◌+◌,
}
use koya_plugins.Hypr.Types.{EventItem}
use koya_plugins.Hypr.Socket.{
  Calls, in_progress, connect_unix, Recv, byte, LineResult, line, max_line, read_line, Sent, Send,
  took, send_all, Block, block, Received, max_reply, recv_all,
}
use koya_plugins.Hypr.Socket
use koya_plugins.Hypr.Socket.Lines.{Delivers, newline, next, again, read_line-Delivers}
use koya_plugins.Hypr.Socket.Transfer.{unsent, send_all_delivers, reply, recv_all-reply}
use koya_plugins.Hypr.Events.{parse_event, Turn, connects, refused, lost, reads, turns, started}
use koya_plugins.Hypr.Events.Parsing.{HasNoMark, HasNoMarkInside, parse_event_parts}
use koya_plugins.Hypr.Events.Queue.{newest, history, turns-newest}
use koya_plugins.Hypr.Subscribers.{Subscribers, js_on, js_off, Script, dispatch_events}
use koya_plugins.Hypr.Subscribers.Ownership
use koya_plugins.Hypr.Subscribers.Ownership.{
  subscribes, unsubscribes, run_calls, release, nothing, same, held, callbacks_owned,
}
use koya_plugins.Hypr.Subscribers.Dispatch.{deliveries, dispatch_events-deliveries}
use koya_plugins.Hypr.Commands.{Argument, object}

-- "ab", with an interruption, before a second line.
abbrev two_lines : List Recv
two_lines = byte 97 ∷ Socket.interrupted ∷ byte 98 ∷ byte 10 ∷ byte 99 ∷ []

brings_ab : Delivers (97 ∷ 98 ∷ []) two_lines (byte 99 ∷ [])
brings_ab = next 97 (λ h. cc) (again (next 98 (λ h. cc) newline))

read_line-Delivers_example : read_line [] two_lines ≡ line (97 ∷ 98 ∷ []) (byte 99 ∷ [])
read_line-Delivers_example = read_line-Delivers brings_ab (omega arith)

abbrev two_parts : List Send
two_parts = took 2 ∷ Socket.interrupted ∷ took 1 ∷ []

abbrev all_sent : Sent
all_sent = record { sent = 3; delivered = codes "abc" }

all_taken : send_all (codes "abc") unsent two_parts ≡ some all_sent
unfolding send_all
all_taken = refl

send_all_delivers_example :
    (all_sent.delivered ++ drop all_sent.sent (codes "abc") ≡ codes "abc")
    × (all_sent.sent ≡ length (codes "abc") → all_sent.delivered ≡ codes "abc")
send_all_delivers_example = send_all_delivers (codes "abc") two_parts all_taken

abbrev two_blocks : List Block
two_blocks = block (codes "o") ∷ Socket.interrupted ∷ block (codes "k") ∷ Socket.closed ∷ []

recv_all-reply_example :
    ((t : Bytes)
      → reply two_blocks ≡ some t
      → t ≢ []
      → length t ≤ max_reply
      → recv_all [] two_blocks ≡ some (record { ok = true; out = t }))
    × ((r : Received)
        → recv_all [] two_blocks ≡ some r
        → r.ok ≡ true
        → (reply two_blocks ≡ some r.out) × (r.out ≢ []) × (length r.out ≤ max_reply))
recv_all-reply_example = recv_all-reply two_blocks

-- A payload that holds a mark itself.
parse_event_parts_example :
    let item = parse_event (codes "a>b") in
    ((codes "a>b" ≡ item.name ++ b'>' ∷ b'>' ∷ item.payload_raw) × HasNoMark item.name)
    ⊎ ((codes "a>b" ≡ item.name) × (item.payload_raw ≡ []) × HasNoMarkInside (codes "a>b"))
parse_event_parts_example = parse_event_parts (codes "a>b")

abbrev one_line : List Turn
one_line = refused ∷ connects ∷ reads (codes "w>>1") ∷ lost ∷ []

turns-newest_example : (turns started one_line).queue ≡ newest (history started one_line)
turns-newest_example = turns-newest one_line

abbrev two_names : Subscribers
two_names = (codes "a", 5 ∷ 6 ∷ 5 ∷ []) ∷ (codes "b", 7 ∷ []) ∷ []

-- Callback 5 takes callback 6 off and puts 8 on.
abbrev meddling : Script
meddling f event subs =
    if f == 5 then js_on (js_off subs (codes "a") (some 6)) (codes "a") 8 else subs

abbrev two_events : List EventItem
two_events =
    record { name = codes "a"; payload_raw = [] }
    ∷ record { name = codes "a"; payload_raw = [] }
    ∷ []

dispatch_events-deliveries_example :
    (dispatch_events meddling two_events two_names).1 ≡ deliveries meddling two_events two_names
dispatch_events-deliveries_example = dispatch_events-deliveries meddling two_events two_names

abbrev with_directory : Argument
with_directory = object (record { runtime_dir = some (codes "/run/"); instance_signature = none })

abbrev on_and_off : List Ownership.Call
on_and_off =
    subscribes (codes "a") 5
    ∷ subscribes (codes "a") 6
    ∷ subscribes (codes "b") 5
    ∷ unsubscribes (codes "a") (some 5)
    ∷ []

callbacks_owned_example :
    let o = run_calls nothing on_and_off in
    (tally (same 5) o.duplicated ≡ tally (same 5) o.freed + held 5 o.subs)
    × (tally (same 5) (release o).duplicated ≡ tally (same 5) (release o).freed)
callbacks_owned_example = callbacks_owned on_and_off 5
