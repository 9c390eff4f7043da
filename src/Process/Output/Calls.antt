-- ===== src/Process/Output/Calls.antt =====
-- The calls of a script on process/src/module.cpp read nothing from its children.
use koya_plugins.Base.{
  ℕ, ◌%◌, ◌^◌, ◌≡◌, refl, sym, Option, none, some, List, [], ◌∷◌, ◌++◌, map, append-nil, arith,
  Bytes, c_string, find, tally, bytes_eq, Option-cases, Bool-cases, inl, inr, ◌==◌,
}
use koya_plugins.Process.Types.{ChildProcess, Effect, ProcessState}
use koya_plugins.Process.Launch.{
  Launch, SpawnOptions, opened, launch_effects, track, give_up, launch, fork_child, js_spawn,
}
use koya_plugins.Process.Control.{
  Channel, event_of, js_on, js_off, without, listeners_on, listeners_of, write_to, close_fd,
  js_write, js_close_stdin, js_kill,
}
use koya_plugins.Process.Output.{is_read}

-- Effects are added that read nothing, and the requests are as before.
pub record ReadsNothing (s s' : ProcessState) : Type 0 where
  pub added : List Effect
  pub log : s'.log ≡ s.log ++ added
  pub none_read : tally is_read added ≡ 0
  pub requests : s'.exec_requests ≡ s.exec_requests

unchanged_state : (s : ProcessState) → ReadsNothing s s
unchanged_state s = record {
  added = [];
  log = sym (append-nil s.log);
  none_read = refl;
  requests = refl;
}

pub launch-reads :
    (s : ProcessState) (words : List Bytes) (l : Launch) → ReadsNothing s (launch s words l).0
unfolding launch fork_child give_up track
launch-reads s words l = elim (Option-cases l.in_pipe) [
  | inl e ↦ rw (e, launch) (record { added = []; log = refl; none_read = refl; requests = refl })
  | inr (i, ei) ↦ elim (Option-cases l.out_pipe) [
    | inl e ↦
        rw (ei, e, launch)
          (record { added = opened i; log = refl; none_read = refl; requests = refl })
    | inr (o, eo) ↦ elim (Option-cases l.err_pipe) [
      | inl e ↦
          rw (ei, eo, e, launch)
            (record { added = opened i ++ opened o; log = refl; none_read = refl; requests = refl })
      | inr (x, ex) ↦ elim (Option-cases l.pid) [
        | inl e ↦
            rw (ei, eo, ex, e, launch)
              (record {
                added = opened i ++ (opened o ++ opened x);
                log = refl;
                none_read = refl;
                requests = refl;
              })
        | inr (pid, ep) ↦
            rw (ei, eo, ex, ep, launch)
              (record {
                added = launch_effects s.next_id words i o x pid;
                log = refl;
                none_read = refl;
                requests = refl;
              })
      ]
    ]
  ]
]

without_reads : (f : ℕ) (fs : List ℕ) → tally is_read (without f fs).1 ≡ 0
unfolding without
without_reads f [] = refl
without_reads f (g ∷ fs) = elim (Bool-cases (g == f)) [
  | inl e ↦ rw (e, without) (omega (arith, without_reads f fs))
  | inr e ↦ rw (e, without) (without_reads f fs)
]

pub spawn-reads :
    (s : ProcessState) (o : Option SpawnOptions) (l : Launch) → ReadsNothing s (js_spawn s o l).0
unfolding js_spawn
spawn-reads s none l = unchanged_state s
spawn-reads s (some o) l = elim (Option-cases o.cmd) [
  | inl e ↦ rw (e, js_spawn) (unchanged_state s)
  | inr (cmd, e) ↦ rw (e, js_spawn) (launch-reads s (map c_string (cmd ∷ o.args)) l)
]

pub on-reads :
    (s : ProcessState) (ch : Channel) (id64 : ℕ) (event : Bytes) (f : ℕ)
    → ReadsNothing s (js_on s ch id64 event f)
unfolding js_on
on-reads s ch id64 event f = elim (Bool-cases (bytes_eq event (event_of ch))) [
  | inl e ↦
      rw (e, js_on)
        (record { added = Effect.duplicates f ∷ []; log = refl; none_read = refl; requests = refl })
  | inr e ↦ rw (e, js_on) (unchanged_state s)
]

pub off-reads :
    (s : ProcessState) (ch : Channel) (id64 : ℕ) (event : Bytes) (f : ℕ)
    → ReadsNothing s (js_off s ch id64 event f)
unfolding js_off
off-reads s ch id64 event f = elim (Bool-cases (bytes_eq event (event_of ch))) [
  | inl e ↦
      rw (e, js_off)
        (record {
          added = (without f (listeners_on ch (listeners_of (id64 % 2 ^ 32) s.listeners))).1;
          log = refl;
          none_read = without_reads f _;
          requests = refl;
        })
  | inr e ↦ rw (e, js_off) (unchanged_state s)
]

pub write-reads :
    (s : ProcessState) (id64 : ℕ) (text : Bytes) → ReadsNothing s (js_write s id64 text).0
unfolding js_write write_to
write-reads s id64 text = elim (Option-cases (find (id64 % 2 ^ 32) s.processes)) [
  | inl e ↦ rw (e, js_write) (unchanged_state s)
  | inr (p, e) ↦
      rw (e, js_write)
        (record { added = write_to p text; log = refl; none_read = written p; requests = refl })
]
  where
    written : (p : ChildProcess) → tally is_read (write_to p text) ≡ 0
    written p = elim (Option-cases p.stdin_fd) [
      | inl e ↦ rw (e, write_to) refl
      | inr (fd, e) ↦ rw (e, write_to) refl
    ]

pub close_stdin-reads : (s : ProcessState) (id64 : ℕ) → ReadsNothing s (js_close_stdin s id64).0
unfolding js_close_stdin
close_stdin-reads s id64 = elim (Option-cases (find (id64 % 2 ^ 32) s.processes)) [
  | inl e ↦ rw (e, js_close_stdin) (unchanged_state s)
  | inr (p, e) ↦
      rw (e, js_close_stdin)
        (record {
          added = close_fd p.stdin_fd;
          log = refl;
          none_read = closed p.stdin_fd;
          requests = refl;
        })
]
  where
    closed : (fd : Option ℕ) → tally is_read (close_fd fd) ≡ 0
    closed none = refl
    closed (some fd) = refl

pub kill-reads : (s : ProcessState) (id64 signal : ℕ) → ReadsNothing s (js_kill s id64 signal).0
unfolding js_kill
kill-reads s id64 signal = elim (Option-cases (find (id64 % 2 ^ 32) s.processes)) [
  | inl e ↦ rw (e, js_kill) (unchanged_state s)
  | inr (p, e) ↦
      rw (e, js_kill)
        (record {
          added = Effect.kills p.pid signal ∷ [];
          log = refl;
          none_read = refl;
          requests = refl;
        })
]
