-- ===== src/Process/System/Reachable.antt =====
-- The invariant of the children of process/src/module.cpp holds after any events.
use koya_plugins.Base.{
  ℕ, ◌+◌, ◌^◌, ◌%◌, ◌<◌, refl, Option, none, some, List, [], ◌∷◌, arith, Bytes, Table, find,
  replace, entries-replace, All-find, tally, bytes_eq, ◌==◌, Option-cases, inl, inr, Bool-cases,
}
use koya_plugins.Process.Types.{ChildProcess, ProcessState}
use koya_plugins.Process.Control.{
  Channel, js_on, js_off, without, listeners_on, listeners_of, close_fd, write_to, js_write,
  js_close_stdin, js_kill, event_of,
}
use koya_plugins.Process.System.{
  Event, spawns, execs, subscribes, unsubscribes, writes_to, closes_stdin, kills_with, updates,
  step,
}
use koya_plugins.Process.System.Accounting.{all_started}
use koya_plugins.Process.System.Rounds.{Idle, AllIdle}
use koya_plugins.Process.System.Invariant.{Inv, Quiet, Quiet-Inv}
use koya_plugins.Process.System.Updates.{update-Inv}
use koya_plugins.Process.System.Starting.{Quiet-nil, spawn-Inv, exec-Inv}

on-Inv :
    (s : ProcessState) (ch : Channel) (id64 : ℕ) (event : Bytes) (f : ℕ)
    → Inv s
    → Inv (js_on s ch id64 event f)
unfolding js_on
on-Inv s ch id64 event f inv = elim (Bool-cases (bytes_eq event (event_of ch))) [
  | inl e ↦
      rw (e, js_on)
        (Quiet-Inv s s.processes _ _ inv
          (record {
            none_started = refl;
            started_zero = λ a. refl;
            reaped_zero = λ a. refl;
            told_zero = λ a. refl;
            settled_zero = λ a. refl;
            promised_zero = λ a. refl;
          })
          (λ a. refl) inv.idle)
  | inr e ↦ rw (e, js_on) inv
]

without-Quiet : (f : ℕ) (fs : List ℕ) → Quiet (without f fs).1
unfolding without
without-Quiet f [] = Quiet-nil
without-Quiet f (g ∷ fs) = elim (Bool-cases (g == f)) [
  | inl e ↦
      rw (e, without)
        (let q = without-Quiet f fs in
          record {
            none_started = omega (arith, q.none_started);
            started_zero = λ a. omega (arith, q.started_zero a);
            reaped_zero = λ a. omega (arith, q.reaped_zero a);
            told_zero = λ a. omega (arith, q.told_zero a);
            settled_zero = λ a. omega (arith, q.settled_zero a);
            promised_zero = λ a. omega (arith, q.promised_zero a);
          })
  | inr e ↦ rw (e, without) (without-Quiet f fs)
]

off-Inv :
    (s : ProcessState) (ch : Channel) (id64 : ℕ) (event : Bytes) (f : ℕ)
    → Inv s
    → Inv (js_off s ch id64 event f)
unfolding js_off
off-Inv s ch id64 event f inv = elim (Bool-cases (bytes_eq event (event_of ch))) [
  | inl e ↦
      rw (e, js_off)
        (Quiet-Inv s s.processes _ _ inv
          (without-Quiet f (listeners_on ch (listeners_of (id64 % 2 ^ 32) s.listeners))) (λ a. refl)
          inv.idle)
  | inr e ↦ rw (e, js_off) inv
]

write_to-Quiet : (p : ChildProcess) (text : Bytes) → Quiet (write_to p text)
unfolding write_to
write_to-Quiet p text = elim (Option-cases p.stdin_fd) [
  | inl e ↦ rw (e, write_to) Quiet-nil
  | inr (fd, e) ↦
      rw (e, write_to)
        (record {
          none_started = refl;
          started_zero = λ a. refl;
          reaped_zero = λ a. refl;
          told_zero = λ a. refl;
          settled_zero = λ a. refl;
          promised_zero = λ a. refl;
        })
]

write-Inv : (s : ProcessState) (id64 : ℕ) (text : Bytes) → Inv s → Inv (js_write s id64 text).0
unfolding js_write
write-Inv s id64 text inv = elim (Option-cases (find (id64 % 2 ^ 32) s.processes)) [
  | inl e ↦ rw (e, js_write) inv
  | inr (p, e) ↦
      rw (e, js_write)
        (Quiet-Inv s s.processes s.listeners (write_to p text) inv (write_to-Quiet p text)
          (λ a. refl) inv.idle)
]

kill-Inv : (s : ProcessState) (id64 signal : ℕ) → Inv s → Inv (js_kill s id64 signal).0
unfolding js_kill
kill-Inv s id64 signal inv = elim (Option-cases (find (id64 % 2 ^ 32) s.processes)) [
  | inl e ↦ rw (e, js_kill) inv
  | inr (p, e) ↦
      rw (e, js_kill)
        (Quiet-Inv s s.processes s.listeners _ inv
          (record {
            none_started = refl;
            started_zero = λ a. refl;
            reaped_zero = λ a. refl;
            told_zero = λ a. refl;
            settled_zero = λ a. refl;
            promised_zero = λ a. refl;
          })
          (λ a. refl) inv.idle)
]

close_fd-Quiet : (fd : Option ℕ) → Quiet (close_fd fd)
close_fd-Quiet none = Quiet-nil
close_fd-Quiet (some fd) = record {
  none_started = refl;
  started_zero = λ a. refl;
  reaped_zero = λ a. refl;
  told_zero = λ a. refl;
  settled_zero = λ a. refl;
  promised_zero = λ a. refl;
}

replace-AllIdle :
    (k : ℕ) (p : ChildProcess) (t : Table ChildProcess)
    → Idle p
    → AllIdle t
    → AllIdle (replace k p t)
unfolding replace
replace-AllIdle k p [] i h = tt
replace-AllIdle k p ((j, q) ∷ t) i h = elim (Bool-cases (j == k)) [
  | inl e ↦ rw (e, replace) (i, h.1)
  | inr e ↦ rw (e, replace) (h.0, replace-AllIdle k p t i (h.1))
]

close_stdin-Inv : (s : ProcessState) (id64 : ℕ) → Inv s → Inv (js_close_stdin s id64).0
unfolding js_close_stdin
close_stdin-Inv s id64 inv = elim (Option-cases (find (id64 % 2 ^ 32) s.processes)) [
  | inl e ↦ rw (e, js_close_stdin) inv
  | inr (p, e) ↦
      rw (e, js_close_stdin)
        (Quiet-Inv s _ s.listeners _ inv (close_fd-Quiet p.stdin_fd)
          (λ a. entries-replace (id64 % 2 ^ 32) a _ s.processes)
          (replace-AllIdle (id64 % 2 ^ 32) _ s.processes
            (All-find (λ e. Idle e.1) (id64 % 2 ^ 32) s.processes p inv.idle e) inv.idle))
]

-- The calls that may start a child.
abbrev pub launches : Event → ℕ
launches (spawns o l) = 1
launches (execs command l resolve reject) = 1
launches _ = 0

pub step-Inv :
    (s : ProcessState) (e : Event)
    → Inv s
    → 1 + tally all_started s.log + launches e < 2 ^ 32
    → Inv (step s e)
unfolding step
step-Inv s (spawns o l) inv u = spawn-Inv s o l inv (omega (arith, u))
step-Inv s (execs command l resolve reject) inv u =
    exec-Inv s command l resolve reject inv (omega (arith, u))
step-Inv s (subscribes ch id64 event f) inv u = on-Inv s ch id64 event f inv
step-Inv s (unsubscribes ch id64 event f) inv u = off-Inv s ch id64 event f inv
step-Inv s (writes_to id64 text) inv u = write-Inv s id64 text inv
step-Inv s (closes_stdin id64) inv u = close_stdin-Inv s id64 inv
step-Inv s (kills_with id64 signal) inv u = kill-Inv s id64 signal inv
step-Inv s (updates polls) inv u = update-Inv polls s inv
