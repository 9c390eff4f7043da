-- ===== src/Pam/Worker/Verdict.antt =====
-- When worker_loop of pam/src/module.cpp accepts a request, and how it uses the PAM library.
use koya_plugins.Base.{ℕ, ◌≡◌, ◌≢◌, ◌↔◌, ◌⊎◌, refl, true, false, [], arith, tally, if◌then◌else◌}
use koya_plugins.Pam.Types.{AuthRequest, PamLib}
use koya_plugins.Pam.Worker.{
  PamCall, pam_acct_mgmt, pam_end, account, authenticate, finish, converse, perform,
}

abbrev pub Accepts : PamLib → AuthRequest → Type 0
Accepts lib req =
    ((lib.start req).0 ≡ lib.success)
    × (lib.authenticate req ≡ lib.success)
    × (lib.acct_mgmt req ≡ lib.success)

-- A request is accepted exactly when the session starts, the user authenticates and the account is
-- valid. The result has the identifier of the request, an accepted one has the success code and no
-- message, and one that is not accepted has another code.
pub perform-Accepts :
    (lib : PamLib) (req : AuthRequest)
    → let r = perform lib req in
      ((r.ok ≡ true) ↔ Accepts lib req)
      × (r.id ≡ req.id)
      × ((r.ok ≡ true) → (r.pam_code ≡ lib.success) × (r.message ≡ []))
      × ((r.ok ≡ false) → r.pam_code ≢ lib.success)
unfolding perform converse authenticate account finish
perform-Accepts lib req =
    ((λ h. ground arith, λ h. ground arith), refl, λ h. ground arith, λ h. ground arith)

-- Closed calls of the library, and account checks.
abbrev pub ends : PamCall → ℕ
ends (pam_end code) = 1
ends _ = 0

abbrev pub checks : PamCall → ℕ
checks pam_acct_mgmt = 1
checks _ = 0

-- The handle is closed exactly once if there is one, and never if there is none; the account is
-- checked only for a user who has authenticated.
pub converse_protocol :
    (lib : PamLib) (req : AuthRequest)
    → (tally ends (converse lib req).calls ≡ (if (lib.start req).1 then 1 else 0))
      × ((tally checks (converse lib req).calls ≡ 0)
          ⊎ ((lib.start req).0 ≡ lib.success) × (lib.authenticate req ≡ lib.success))
unfolding converse authenticate account finish
converse_protocol lib req = (ground arith, ground arith)
