-- ===== src/Hypr/Socket/Connect.antt =====
-- connect_unix of hypr/src/module.cpp keeps or closes the descriptor that it opened.
use koya_plugins.Base.{
  ℕ, ◌<◌, ◌≡◌, ◌⊎◌, inl, inr, refl, true, none, some, [], ◌∷◌, Bytes, length, leb, arith,
  Bool-cases,
}
use koya_plugins.Hypr.Socket.{connected, in_progress, Calls, give_up, make_blocking, connect_unix}

-- The calls went well enough for the connection to be used.
abbrev pub Usable : Calls → Type 0
Usable c =
    (c.fcntl_ok ≡ true)
    × ((c.connect ≡ connected)
        ⊎ (c.connect ≡ in_progress) × (c.poll_ready ≡ true) × (c.error_free ≡ true))

-- With a descriptor from the socket call, exactly one of two things happens: the path fits, the
-- connection was made or completed in time without error, it was made blocking, and the open
-- descriptor is returned; or one of these failed, nothing is returned, and the descriptor was closed
-- exactly once.
pub connect_unix_owns :
    (sun_path_size : ℕ) (c : Calls) (path : Bytes) (fd : ℕ)
    → c.socket ≡ some fd
    → let r = connect_unix sun_path_size c path in
      ((length path < sun_path_size) × Usable c × (r.fd ≡ some fd) × (r.closed ≡ []))
      ⊎ (¬ ((length path < sun_path_size) × Usable c) × (r.fd ≡ none) × (r.closed ≡ fd ∷ []))
unfolding connect_unix make_blocking give_up
connect_unix_owns size c path fd e = elim (Bool-cases (leb size (length path))) [
  | inl long ↦ rw (e, long) (inr (λ h. ground arith, refl, refl))
  | inr short ↦ rw (e, short) (ground arith)
]
