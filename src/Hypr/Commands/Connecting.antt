-- ===== src/Hypr/Commands/Connecting.antt =====
-- js_connect of hypr/src/module.cpp starts one event thread.
use koya_plugins.Base.{
  ◌≡◌, ◌≢◌, refl, true, false, ◌||◌, List, [], ◌∷◌, arith, Bytes, is_empty, if◌then◌else◌,
  Bool-cases, inl, inr, ◌⊎◌,
}
use koya_plugins.Hypr.Commands.{
  Endpoint, Argument, missing, other, object, Reply, undefined, js_connect, connect_with, set_paths,
  start_thread, build_sock_path,
}

-- One call of the script: the environment it sees, and its argument.
pub record Call : Type 0 where
  pub dir : Bytes
  pub sig : Bytes
  pub argument : Argument

pub connects : Endpoint → List Call → Endpoint
connects e [] = e
connects e (c ∷ calls) = connects (js_connect e c.dir c.sig c.argument).0 calls

-- The running flag counts the threads.
abbrev pub IsSingle : Endpoint → Type 0
IsSingle e = e.threads_started ≡ (if e.running then 1 else 0)

connect_with-IsSingle :
    (e : Endpoint) (dir sig : Bytes) → IsSingle e → IsSingle (connect_with e dir sig).0
unfolding connect_with start_thread set_paths
connect_with-IsSingle e dir sig h = ground arith

js_connect-IsSingle :
    (e : Endpoint) (dir sig : Bytes) (a : Argument)
    → IsSingle e
    → IsSingle (js_connect e dir sig a).0
unfolding js_connect
js_connect-IsSingle e dir sig missing h = connect_with-IsSingle e dir sig h
js_connect-IsSingle e dir sig other h = h
js_connect-IsSingle e dir sig (object o) h = connect_with-IsSingle e _ _ h

abbrev pub disconnected : Endpoint
disconnected = record {
  runtime_dir = [];
  instance_signature = [];
  command_socket_path = [];
  event_socket_path = [];
  running = false;
  threads_started = 0;
}

connects-IsSingle : (e : Endpoint) (calls : List Call) → IsSingle e → IsSingle (connects e calls)
unfolding connects
connects-IsSingle e [] h = h
connects-IsSingle e (c ∷ calls) h =
    connects-IsSingle (js_connect e c.dir c.sig c.argument).0 calls
      (js_connect-IsSingle e c.dir c.sig c.argument h)

-- Whatever calls of connect the script makes, with whatever arguments and environment, the plugin
-- has started one event thread if it is running, and none if it is not.
pub connects_once : (calls : List Call) → IsSingle (connects disconnected calls)
connects_once calls = connects-IsSingle disconnected calls refl

-- What a call of connect may come to.
abbrev pub Outcome : Endpoint → Endpoint × Reply → Type 0
Outcome e r =
    ((r.1 ≢ undefined) × (r.0 ≡ e))
    ⊎ ((r.1 ≡ undefined)
        × (r.0.running ≡ true)
        × (is_empty r.0.runtime_dir ≡ false)
        × (is_empty r.0.instance_signature ≡ false)
        × (r.0.command_socket_path ≡ build_sock_path r.0.runtime_dir r.0.instance_signature false)
        × (r.0.event_socket_path ≡ build_sock_path r.0.runtime_dir r.0.instance_signature true))

connect_with-Outcome : (e : Endpoint) (dir sig : Bytes) → Outcome e (connect_with e dir sig)
unfolding connect_with start_thread set_paths
connect_with-Outcome e dir sig = elim (Bool-cases (is_empty dir || is_empty sig)) [
  | inl bad ↦ rw bad (inl (λ h. cc, refl))
  | inr good ↦
      rw good (inr (refl, ground arith, ground arith, ground arith, ground arith, ground arith))
]

-- A call that throws changes nothing. One that does not throw leaves the plugin running, with two
-- texts that are not empty and the two socket paths that belong to them.
pub js_connect-Outcome :
    (e : Endpoint) (dir sig : Bytes) (a : Argument) → Outcome e (js_connect e dir sig a)
unfolding js_connect
js_connect-Outcome e dir sig missing = connect_with-Outcome e dir sig
js_connect-Outcome e dir sig other = inl (λ h. cc, refl)
js_connect-Outcome e dir sig (object o) = connect_with-Outcome e _ _
