-- ===== src/Pam/System/EndToEnd.antt =====
-- One call of authenticate of pam/src/module.cpp, from the options object to the settled promise.
use koya_plugins.Base.{
  ℕ, ◌+◌, ◌%◌, ◌^◌, ◌≡◌, refl, ap, ◌∙◌, true, false, none, some, List, [], ◌∷◌, ◌++◌, append_assoc,
  find, erase, emplace, if◌then◌else◌, Bytes, is_empty, contains, ==_iff, ◌==◌,
}
use koya_plugins.Pam.Types.{AuthRequest, PendingPromise, PamLib}
use koya_plugins.Pam.Conversation.{zeros, erase_password}
use koya_plugins.Pam.Worker.{perform}
use koya_plugins.Pam.Script.{
  Value, Options, Effect, copy_password, moved, wipe, new_promise, call, free_value, settle,
  js_authenticate, settle_all, pam_update_open,
}
use koya_plugins.Pam.System.{
  World, authenticates, takes, finishes, updates, waiting, busy, serving, authenticate, update,
  finish, step, advance, run,
}
use koya_plugins.Pam.System.Liveness.{
  run-cons, taken, advance-takes, advance-finishes, advance-updates,
}

-- A plugin with nothing to do.
abbrev pub idle : ℕ → List Effect → World
idle next_id log = record {
  state = record {
    next_id = next_id;
    requests = [];
    results = [];
    promises = [];
    running = true;
    context = true;
  };
  worker = waiting;
  phase = serving;
  log = log;
}

abbrev given : Bytes → Value
given text = record { is_undefined = false; text = some text }

abbrev pub given_options : AuthRequest → Options
given_options r = record {
  service = given r.service;
  user = given r.user;
  password = given r.password;
}

-- A service and a user that are not empty, and no NUL byte in any of the three texts.
abbrev pub IsAllowed : AuthRequest → Type 0
IsAllowed r =
    (is_empty r.service ≡ false)
    × (is_empty r.user ≡ false)
    × (contains 0 r.service ≡ false)
    × (contains 0 r.user ≡ false)
    × (contains 0 r.password ≡ false)

same : (n : ℕ) → (n == n) ≡ true
same n = (==_iff n n).1 refl

module _ (lib : PamLib) (p : PendingPromise) (req : AuthRequest) (log : List Effect) where
  next_number : ℕ
  next_number = (req.id + 1) % 2 ^ 32

  abbrev first : List Effect
  first =
      copy_password req.password
      ∷ new_promise req.id p
      ∷ moved req.password
      ∷ moved req.password
      ∷ []

  queued : World
  unfolding next_number
  queued = record (idle req.id log) {
    state = record {
      next_id = next_number;
      requests = req ∷ [];
      results = [];
      promises = (req.id, p) ∷ [];
      running = true;
      context = true;
    };
    log = log ++ first;
  }

  in_hand : World
  unfolding next_number
  in_hand = record {
    state = record {
      next_id = next_number;
      requests = [];
      results = [];
      promises = (req.id, p) ∷ [];
      running = true;
      context = true;
    };
    worker = busy req;
    phase = serving;
    log = (log ++ first) ++ moved req.password ∷ [];
  }

  authenticate-idle :
      IsAllowed req → authenticate (idle req.id log) p (some (given_options req)) ≡ queued
  unfolding authenticate js_authenticate queued emplace
  authenticate-idle (s, u, ns, nu, np) = rw (s, u, ns, nu, np)

  done : World
  unfolding next_number
  done = record {
    state = record {
      next_id = next_number;
      requests = [];
      results = perform lib req ∷ [];
      promises = (req.id, p) ∷ [];
      running = true;
      context = true;
    };
    worker = waiting;
    phase = serving;
    log =
        ((log ++ first) ++ moved req.password ∷ []) ++ wipe req.password (zeros req.password) ∷ [];
  }

  finish-in_hand : finish lib in_hand req ≡ done
  unfolding finish in_hand done erase_password
  finish-in_hand = refl

  abbrev answered : List Effect
  answered = settle (perform lib req) p

  settle-done : settle_all (perform lib req ∷ []) ((req.id, p) ∷ []) ≡ ([], answered)
  unfolding settle_all perform find erase
  settle-done = rw (same req.id, settle_all) (rw (same req.id, erase) refl)

  abbrev whole_log : List Effect
  whole_log =
      log ++ (first ++ (moved req.password ∷ wipe req.password (zeros req.password) ∷ answered))

  whole_log-append :
      (((log ++ first) ++ moved req.password ∷ []) ++ wipe req.password (zeros req.password) ∷ [])
        ++ answered
      ≡ whole_log
  whole_log-append =
      append_assoc ((log ++ first) ++ moved req.password ∷ [])
        (wipe req.password (zeros req.password) ∷ []) answered
      ∙ append_assoc (log ++ first) (moved req.password ∷ [])
          (wipe req.password (zeros req.password) ∷ answered)
      ∙ append_assoc log first
          (moved req.password ∷ wipe req.password (zeros req.password) ∷ answered)

  update-done : update done ≡ idle next_number whole_log
  unfolding update done
  update-done =
      rw (pam_update_open done.state refl, settle-done) (ap (idle next_number) whole_log-append)

-- On a plugin with nothing to do, a call with allowed texts, one turn of the worker and one update
-- copy the password, make one promise under the next identifier, move the password three times,
-- overwrite the string that it was moved to with zeros,
-- call the resolving function if PAM accepts the request and the rejecting one otherwise, with the
-- code and the text of PAM, and free both; the plugin has nothing to do again.
pub authenticate_run :
    (lib : PamLib) (p : PendingPromise) (req : AuthRequest) (log : List Effect)
    → IsAllowed req
    → let r = perform lib req in
      run lib
        (idle req.id log)
        (authenticates p (some (given_options req)) ∷ takes ∷ finishes ∷ updates ∷ [])
      ≡ some (
          idle ((req.id + 1) % 2 ^ 32) (
            log
            ++ copy_password req.password
              ∷ new_promise req.id p
              ∷ moved req.password
              ∷ moved req.password
              ∷ moved req.password
              ∷ wipe req.password (zeros req.password)
              ∷ call req.id (if r.ok then p.resolve else p.reject) (record {
                ok = r.ok;
                pam_code = r.pam_code;
                message = if is_empty r.message then none else some r.message;
              })
              ∷ free_value req.id p.resolve
              ∷ free_value req.id p.reject
              ∷ []))
unfolding run advance step next_number queued in_hand done taken settle perform
authenticate_run lib p req log ok =
    run-cons lib (idle req.id log) (queued lib p req log)
      (authenticates p (some (given_options req))) (takes ∷ finishes ∷ updates ∷ [])
      (ap some (authenticate-idle lib p req log ok))
    ∙ run-cons lib (queued lib p req log) (in_hand lib p req log) takes (finishes ∷ updates ∷ [])
        (advance-takes lib (queued lib p req log) req [] refl refl refl refl)
    ∙ run-cons lib (in_hand lib p req log) (done lib p req log) finishes (updates ∷ []) (
        advance-finishes lib (in_hand lib p req log) req refl refl
        ∙ ap some (finish-in_hand lib p req log))
    ∙ run-cons lib (done lib p req log) (update (done lib p req log)) updates []
        (advance-updates lib (done lib p req log) refl)
    ∙ ap some (update-done lib p req log)
