-- ===== src/Pam/Worker.antt =====
-- worker_loop of pam/src/module.cpp: one request through the PAM library. The steps that take a
-- request from the queue and hand its result over are in `System`.
pub mod Verdict
use koya_plugins.Base.{
  ℕ, ◌≡◌, Bool, true, false, Option, none, some, List, [], ◌∷◌, ◌++◌, Bytes, ◌==◌, if◌then◌else◌,
}
use koya_plugins.Pam.Types.{AuthRequest, AuthResult, PamLib}

pub data PamCall : Type 0 where
  pam_start pam_authenticate pam_acct_mgmt : PamCall
  pam_end : (code : ℕ) → PamCall

-- The final code of the request, and the calls made on the way.
pub record Exchange : Type 0 where
  pub final_code : ℕ
  pub calls : List PamCall

module _ (lib : PamLib) where
  account : AuthRequest → Exchange
  account req = record { final_code = lib.acct_mgmt req; calls = pam_acct_mgmt ∷ [] }

  authenticate : AuthRequest → Exchange
  unfolding account
  authenticate req =
      let rc = lib.authenticate req in
      let next = account req in
      if rc == lib.success
      then record { final_code = next.final_code; calls = pam_authenticate ∷ next.calls }
      else record { final_code = rc; calls = pam_authenticate ∷ [] }

  -- pam_end is called if pam_start left a handle, whatever its code was.
  finish : Bool → Exchange → Exchange
  finish pamh c =
      if pamh
      then record { final_code = c.final_code; calls = c.calls ++ pam_end c.final_code ∷ [] }
      else c

  unfoldable pub converse : AuthRequest → Exchange
  unfolding authenticate finish
  converse req =
      let rc = (lib.start req).0 in
      let next = authenticate req in
      finish (lib.start req).1 (
        if rc == lib.success
        then record { final_code = next.final_code; calls = pam_start ∷ next.calls }
        else record { final_code = rc; calls = pam_start ∷ [] })

  text_of : Option Bytes → Bytes
  text_of none = []
  text_of (some s) = s

  -- The `AuthResult` that is pushed.
  unfoldable pub perform : AuthRequest → AuthResult
  unfolding text_of
  perform req =
      let code = (converse req).final_code in
      let ok : Bool = code == lib.success in
      record {
        id = req.id;
        pam_code = code;
        ok = ok;
        message = if ok then [] else text_of (lib.strerror code);
      }
