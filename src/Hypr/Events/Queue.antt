-- ===== src/Hypr/Events/Queue.antt =====
-- The event queue of hypr/src/module.cpp keeps the newest events.
use koya_plugins.Base.{
  ℕ, ◌+◌, ◌-◌, ◌≤◌, ◌≡◌, refl, ap, sym, ◌∙◌, false, List, [], ◌∷◌, ◌++◌, append_assoc, append-nil,
  arith, length, length-append, length-drop, drop, drop-drop, drop-append, leb, leb→le, codes,
  Bool-cases, inl, inr,
}
use koya_plugins.Hypr.Types.{EventItem}
use koya_plugins.Hypr.Events.{
  push_event, max_queue_size, Loop, Turn, Place, connecting, reading, connects, refused, lost,
  stops, reads, turn, turns, turn_at, parse_event, notice, started,
}

-- The newest events of a history, at most as many as the queue holds.
abbrev pub newest : List EventItem → List EventItem
newest history = drop (length history - max_queue_size) history

push_event-newest :
    (history : List EventItem) (item : EventItem)
    → push_event (newest history) item ≡ newest (history ++ item ∷ [])
unfolding push_event
push_event-newest history item = elim (Bool-cases (leb max_queue_size (length (newest history)))) [
  | inl full ↦ rw full (
      ap (λ q. q ++ item ∷ []) (drop-drop over 1 history)
      ∙ ap (λ n. drop n history ++ item ∷ []) (counted (leb→le _ _ full))
      ∙ sym (
          drop-append (length (history ++ item ∷ []) - max_queue_size) history (item ∷ [])
            (short (leb→le _ _ full))))
  | inr room ↦ rw room (
      ap (λ n. drop n history ++ item ∷ []) (none_over room)
      ∙ ap (λ n. drop n (history ++ item ∷ [])) (none_after room))
]
  where
    over : ℕ
    over = length history - max_queue_size

    grown : length (history ++ item ∷ []) ≡ length history + 1
    grown = length-append history (item ∷ [])

    counted :
        max_queue_size ≤ length (newest history)
        → over + 1 ≡ length (history ++ item ∷ []) - max_queue_size
    counted h = omega (arith, h, grown, length-drop over history)

    short :
        max_queue_size ≤ length (newest history)
        → length (history ++ item ∷ []) - max_queue_size ≤ length history
    short h = omega (arith, h, grown, length-drop over history)

    none_over : leb max_queue_size (length (newest history)) ≡ false → over ≡ 0
    none_over h = ground (arith, length-drop over history)

    none_after :
        leb max_queue_size (length (newest history)) ≡ false
        → 0 ≡ length (history ++ item ∷ []) - max_queue_size
    none_after h = ground (arith, grown, length-drop over history)

-- The events that a turn pushes.
pub pushed : Place → Turn → List EventItem
unfolding notice
pushed connecting connects = notice (codes "connected") ∷ []
pushed reading (reads line) = parse_event line ∷ []
pushed reading lost = notice (codes "disconnected") ∷ []
pushed place t = []

pub history : Loop → List Turn → List EventItem
history l [] = []
history l (t ∷ ts) = pushed l.place t ++ history (turn l t) ts

newest-turn :
    (l : Loop) (place : Place) (t : Turn) (past : List EventItem)
    → l.queue ≡ newest past
    → (turn_at place l t).queue ≡ newest (past ++ pushed place t)
unfolding turn_at pushed
newest-turn l connecting connects past h =
    ap (λ q. push_event q (notice (codes "connected"))) h
    ∙ push_event-newest past (notice (codes "connected"))
newest-turn l reading (reads line) past h =
    ap (λ q. push_event q (parse_event line)) h ∙ push_event-newest past (parse_event line)
newest-turn l reading lost past h =
    ap (λ q. push_event q (notice (codes "disconnected"))) h
    ∙ push_event-newest past (notice (codes "disconnected"))
newest-turn l connecting refused past h = rw (append-nil past) h
newest-turn l connecting stops past h = rw (append-nil past) h
newest-turn l reading stops past h = rw (append-nil past) h
newest-turn l place t past h = rw (append-nil past) h

turns-newest_from :
    (l : Loop) (ts : List Turn) (past : List EventItem)
    → l.queue ≡ newest past
    → (turns l ts).queue ≡ newest (past ++ history l ts)
unfolding turns history turn
turns-newest_from l [] past h = rw (append-nil past) h
turns-newest_from l (t ∷ ts) past h =
    turns-newest_from (turn l t) ts (past ++ pushed l.place t) (newest-turn l l.place t past h)
    ∙ ap newest (append_assoc past (pushed l.place t) (history (turn l t) ts))

-- Whatever the connection does, and while nothing is taken out, the queue holds exactly the newest
-- 2048 of all events that the thread pushed, in order: those of the lines that were read, and one for
-- each connection made or lost.
pub turns-newest : (ts : List Turn) → (turns started ts).queue ≡ newest (history started ts)
turns-newest ts = turns-newest_from started ts [] refl
