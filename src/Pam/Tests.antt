-- ===== src/Pam/Tests.antt =====
-- Runs of the model of pam/src/module.cpp, and its theorems at concrete inputs.
use koya_plugins.Base.{
  Bytes, ℕ, ◌+◌, ◌-◌, ◌*◌, ◌≤◌, ◌≡◌, ◌≢◌, ◌↔◌, refl, true, false, none, some, List, [], ◌∷◌, length,
  tally, entries, codes, arith, emplace, contains, ◌==◌,
}
use koya_plugins.Pam.Types.{AuthRequest, PendingPromise, PamLib}
use koya_plugins.Pam.Conversation.{
  prompt_echo_off, prompt_echo_on, text_info, unknown_style, conv_func, ConvOutcome,
}
use koya_plugins.Pam.Conversation
use koya_plugins.Pam.Conversation.Replies.{Settles, conv_func-Settles, conv_func-answer}
use koya_plugins.Pam.Worker.{converse, perform}
use koya_plugins.Pam.Worker.Verdict.{Accepts, perform-Accepts}
use koya_plugins.Pam.Script.{
  copy_password, moved, wipe, new_promise, call, free_value, js_authenticate, release_all,
  stop_worker,
}
use koya_plugins.Pam.System.{
  World, Event, authenticates, takes, finishes, updates, leaves, begins_shutdown, ends_shutdown,
  initial, run, advance, Reach, start,
}
use koya_plugins.Pam.System.Accounting.{
  made, called, freed, copies, wipes, left_behind, secrets, handed, returned, result_ids,
  request_ids,
}
use koya_plugins.Pam.System.Invariant.{held_secrets, held_ids}
use koya_plugins.Pam.System.Safety.{
  settled_once, pending_tracked, passwords_covered, shutdown_releases,
}
use koya_plugins.Pam.System.Liveness.{Drains, all_settled, run-Reach}
use koya_plugins.Pam.System.EndToEnd.{idle, given_options, authenticate_run}

-- A library that knows one password.
abbrev one_user : PamLib
one_user = record {
  success = 0;
  start = λ r. (0, true);
  authenticate = λ r. length r.password - 2;
  acct_mgmt = λ r. 0;
  strerror = λ code. some (codes "no");
}

abbrev request_one : AuthRequest
request_one = record { id = 1; service = codes "login"; user = codes "ann"; password = codes "pw" }

abbrev functions : PendingPromise
functions = record { resolve = 70; reject = 71 }

-- The world after a list of steps, if each can be taken.
reached : List Event → World
unfolding run advance
reached events = elim (run one_user initial events) [ none ↦ initial | some w ↦ w ]

abbrev asked : Event
asked = authenticates functions (some (given_options request_one))

-- The worker holds the request of the one promise that is pending.
in_worker : Reach one_user (reached (asked ∷ takes ∷ []))
unfolding reached js_authenticate emplace contains
in_worker = run-Reach one_user initial (asked ∷ takes ∷ []) start refl

abbrev whole_life : List Event
whole_life = asked ∷ asked ∷ takes ∷ begins_shutdown ∷ finishes ∷ leaves ∷ ends_shutdown ∷ []

-- One of two requests was with the worker when shutdown began; the other was in the queue.
shut_down : Reach one_user (reached whole_life)
unfolding reached js_authenticate emplace contains release_all stop_worker
shut_down = run-Reach one_user initial whole_life start refl

conv_func-Settles_example : Settles (
    conv_func 32 true
      (λ i. i == 0)
      true
      true
      (some (some prompt_echo_off ∷ some prompt_echo_off ∷ []))
      request_one)
conv_func-Settles_example =
    conv_func-Settles 32 true (λ i. i == 0) true true
      (some (some prompt_echo_off ∷ some prompt_echo_off ∷ [])) request_one

conv_func-answer_example :
    let o =
      conv_func 32 true
        (λ i. true)
        true
        true
        (some (some text_info ∷ some prompt_echo_on ∷ some prompt_echo_off ∷ []))
        request_one in
    (o.code ≡ Conversation.success)
    × (o.out ≡ some (none ∷ some (codes "ann") ∷ some (codes "pw") ∷ []))
    × (o.freed ≡ [])
unfolding contains
conv_func-answer_example =
    conv_func-answer 32 (λ i. true) request_one text_info (prompt_echo_on ∷ prompt_echo_off ∷ [])
      (omega arith) (λ j. refl) refl refl (tt, (tt, (tt, tt)))

perform-Accepts_example :
    let r = perform one_user request_one in
    ((r.ok ≡ true) ↔ Accepts one_user request_one)
    × (r.id ≡ 1)
    × ((r.ok ≡ true) → (r.pam_code ≡ 0) × (r.message ≡ []))
    × ((r.ok ≡ false) → r.pam_code ≢ 0)
perform-Accepts_example = perform-Accepts one_user request_one

settled_once_example :
    (tally (made 1) (reached (asked ∷ takes ∷ [])).log ≤ 1)
    × (tally (called 1) (reached (asked ∷ takes ∷ [])).log
          + entries 1 (reached (asked ∷ takes ∷ [])).state.promises
        ≡ tally (made 1) (reached (asked ∷ takes ∷ [])).log)
unfolding reached js_authenticate emplace contains
settled_once_example = settled_once in_worker (omega arith) refl 1

pending_tracked_example :
    entries 1 (reached (asked ∷ takes ∷ [])).state.promises
    ≡ tally (request_ids 1) (reached (asked ∷ takes ∷ [])).state.requests
      + held_ids 1 (reached (asked ∷ takes ∷ [])).worker
      + tally (result_ids 1) (reached (asked ∷ takes ∷ [])).state.results
unfolding reached js_authenticate emplace contains
pending_tracked_example = pending_tracked in_worker (omega arith) 1

passwords_covered_example :
    (length (reached (asked ∷ takes ∷ [])).state.promises ≤ 16)
    × ((b : Bytes)
        → (tally (copies b) (reached (asked ∷ takes ∷ [])).log
            ≡ tally (wipes b) (reached (asked ∷ takes ∷ [])).log
              + tally (secrets b) (reached (asked ∷ takes ∷ [])).state.requests
              + held_secrets b (reached (asked ∷ takes ∷ [])).worker)
          × (tally (left_behind b) (reached (asked ∷ takes ∷ [])).log
              ≤ 3 * tally (copies b) (reached (asked ∷ takes ∷ [])).log))
unfolding reached js_authenticate emplace contains
passwords_covered_example = passwords_covered in_worker (omega arith)

shutdown_releases_example :
    ((id : ℕ)
      → (tally (freed id) (reached whole_life).log ≡ 2 * tally (made id) (reached whole_life).log)
        × (tally (called id) (reached whole_life).log ≤ 1))
    × ((f : ℕ)
        → tally (returned f) (reached whole_life).log ≡ tally (handed f) (reached whole_life).log)
    × ((b : Bytes)
        → tally (copies b) (reached whole_life).log ≡ tally (wipes b) (reached whole_life).log)
unfolding reached js_authenticate emplace contains release_all stop_worker
shutdown_releases_example = shutdown_releases shut_down (omega arith) refl

all_settled_example :
    Drains one_user
      (reached (asked ∷ takes ∷ []))
      (2 * length (reached (asked ∷ takes ∷ [])).state.requests + 2)
unfolding reached js_authenticate emplace contains
all_settled_example = all_settled in_worker (omega arith) refl

authenticate_run_example :
    run one_user (idle 1 []) (asked ∷ takes ∷ finishes ∷ updates ∷ [])
    ≡ some (
        idle 2 (
          copy_password (codes "pw")
          ∷ new_promise 1 functions
          ∷ moved (codes "pw")
          ∷ moved (codes "pw")
          ∷ moved (codes "pw")
          ∷ wipe (codes "pw") (0 ∷ 0 ∷ [])
          ∷ call 1 70 (record { ok = true; pam_code = 0; message = none })
          ∷ free_value 1 70
          ∷ free_value 1 71
          ∷ []))
unfolding contains perform converse
authenticate_run_example =
    authenticate_run one_user functions request_one [] (refl, refl, refl, refl, refl)
