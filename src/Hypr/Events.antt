-- ===== src/Hypr/Events.antt =====
-- event_loop of hypr/src/module.cpp: the event queue, the reading of a line, and the loop that
-- connects, waits and reads.
pub mod Parsing
pub mod Queue
pub mod Backoff
use koya_plugins.Base.{
  ℕ, ◌+◌, ◌*◌, min, Bool, true, false, ◌&&◌, Option, none, some, List, [], ◌∷◌, ◌++◌, Bytes, codes,
  length, drop, ltb, leb, ◌==◌, if◌then◌else◌,
}
use koya_plugins.Hypr.Types.{EventItem}

-- line.find(">>"), with the text before it and the text after it.
pub split : Bytes → Option (Bytes × Bytes)
split [] = none
split (c ∷ []) = none
split (c ∷ d ∷ text) =
    let rest = split (d ∷ text) in
    if c == b'>' && d == b'>'
    then some ([], text)
    else elim rest [ none ↦ none | some (name, payload) ↦ some (c ∷ name, payload) ]

pub parse_event : Bytes → EventItem
parse_event line = elim (split line) [
  | none ↦ record { name = line; payload_raw = [] }
  | some (name, payload) ↦ record { name = name; payload_raw = payload }
]

abbrev pub max_queue_size : ℕ
max_queue_size = 2048

-- Pushing, with the oldest event dropped from a full queue.
pub push_event : List EventItem → EventItem → List EventItem
push_event queue item =
    (if leb max_queue_size (length queue) then drop 1 queue else queue) ++ item ∷ []

abbrev pub backoff_start : ℕ
backoff_start = 200

abbrev pub backoff_max : ℕ
backoff_max = 5000

-- Where the thread stands: at the head of the outer loop, in the inner loop, or past the loops.
pub data Place : Type 0 where
  connecting reading ended : Place

pub record Loop : Type 0 where
  pub place : Place
  pub backoff : ℕ
  pub queue : List EventItem

-- One turn of a loop, with what connect_unix or read_line gave in it. `stops` is a test of `running`
-- that fails: at the head of a loop, or after read_line gave nothing.
pub data Turn : Type 0 where
  connects refused lost stops : Turn
  reads : Bytes → Turn

notice : Bytes → EventItem
notice text = record { name = codes "connection"; payload_raw = text }

-- A turn that does not fit the place is none that the loop takes.
turn_at : Place → Loop → Turn → Loop
unfolding notice
turn_at connecting l refused = record l { backoff = min backoff_max (l.backoff * 2) }
turn_at connecting l connects = record l {
  place = reading;
  backoff = backoff_start;
  queue = push_event l.queue (notice (codes "connected"));
}
turn_at connecting l stops = record l { place = ended }
turn_at reading l (reads line) = record l { queue = push_event l.queue (parse_event line) }
turn_at reading l lost = record l {
  place = connecting;
  queue = push_event l.queue (notice (codes "disconnected"));
}
turn_at reading l stops = record l { place = ended }
turn_at place l turn = l

pub turn : Loop → Turn → Loop
unfolding turn_at
turn l t = turn_at l.place l t

pub turns : Loop → List Turn → Loop
turns l [] = l
turns l (t ∷ ts) = turns (turn l t) ts

abbrev pub started : Loop
started = record { place = connecting; backoff = backoff_start; queue = [] }
