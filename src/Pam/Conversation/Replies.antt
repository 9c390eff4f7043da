-- ===== src/Pam/Conversation/Replies.antt =====
-- What conv_func of pam/src/module.cpp answers, and what it does with the strings it allocated.
use koya_plugins.Base.{
  ℕ, suc, ◌≤◌, ◌≡◌, refl, ap, sym, ◌∙◌, ◌≢◌, ◌⊎◌, inl, inr, Bool, true, false, Option, none, some,
  List, [], ◌∷◌, ◌++◌, map, arith, length, All, Bytes, c_string, c_string_whole, contains, leb,
  append_assoc, append-nil, Bool-cases, length-map,
}
use koya_plugins.Pam.Types.{AuthRequest}
use koya_plugins.Pam.Conversation.{
  MsgStyle, prompt_echo_off, prompt_echo_on, error_msg, text_info, unknown_style, ConvCode, success,
  conv_err, buf_err, ConvOutcome, zeros, free_replies, fail, fill, conv_func,
}

-- The replies that are not null, in order.
abbrev pub present : List (Option Bytes) → List Bytes
present [] = []
present (none ∷ replies) = present replies
present (some text ∷ replies) = text ∷ present replies

-- The answer that each style is due, as the caller sees it.
abbrev pub answer : AuthRequest → MsgStyle → Option Bytes
answer request prompt_echo_off = some request.password
answer request prompt_echo_on = some request.user
answer request _ = none

abbrev pub IsKnown : MsgStyle → Type 0
IsKnown (unknown_style n) = ⊥
IsKnown _ = Unit

fill-answer :
    (strdup : ℕ → Bool) (request : AuthRequest) (i : ℕ) (styles : List MsgStyle)
    (strdups : List Bytes) (replies : List (Option Bytes))
    → ((j : ℕ) → strdup j ≡ true)
    → contains 0 request.user ≡ false
    → contains 0 request.password ≡ false
    → All IsKnown styles
    → (o : ConvOutcome) × (fill strdup request i (map some styles) strdups replies ≡ o)
      × (o.code ≡ success)
      × (o.out ≡ some (replies ++ map (answer request) styles))
      × (o.freed ≡ [])
unfolding fill
fill-answer strdup request i [] strdups replies d u p k =
    (_, refl, refl, rw (append-nil replies), refl)
fill-answer strdup request i (prompt_echo_off ∷ styles) strdups replies d u p k =
    let (o, e, c, r, f) =
      fill-answer strdup request (suc i) styles (strdups ++ request.password ∷ [])
        (replies ++ some request.password ∷ []) d u p k.1 in
    (o, rw (d i, c_string_whole request.password p) e, c, r ∙ ap some (append_assoc replies _ _), f)
fill-answer strdup request i (prompt_echo_on ∷ styles) strdups replies d u p k =
    let (o, e, c, r, f) =
      fill-answer strdup request (suc i) styles (strdups ++ request.user ∷ [])
        (replies ++ some request.user ∷ []) d u p k.1 in
    (o, rw (d i, c_string_whole request.user u) e, c, r ∙ ap some (append_assoc replies _ _), f)
fill-answer strdup request i (error_msg ∷ styles) strdups replies d u p k =
    let (o, e, c, r, f) =
      fill-answer strdup request (suc i) styles strdups (replies ++ none ∷ []) d u p k.1 in
    (o, e, c, r ∙ ap some (append_assoc replies _ _), f)
fill-answer strdup request i (text_info ∷ styles) strdups replies d u p k =
    let (o, e, c, r, f) =
      fill-answer strdup request (suc i) styles strdups (replies ++ none ∷ []) d u p k.1 in
    (o, e, c, r ∙ ap some (append_assoc replies _ _), f)
fill-answer strdup request i (unknown_style n ∷ styles) strdups replies d u p k = absurd k.0

-- Either the caller owns every string that was allocated, in the array it was handed, or there is
-- no array and every string was zeroed and freed.
abbrev pub Settles : ConvOutcome → Type 0
Settles o =
    ((o.code ≡ success)
      × (replies : List (Option Bytes)) × (o.out ≡ some replies)
      × (o.strdups ≡ present replies)
      × (o.freed ≡ []))
    ⊎ ((o.code ≢ success) × (o.out ≡ none) × (o.freed ≡ map zeros o.strdups))

free_replies-present :
    (replies : List (Option Bytes)) → free_replies replies ≡ map zeros (present replies)
unfolding free_replies
free_replies-present [] = refl
free_replies-present (none ∷ replies) = free_replies-present replies
free_replies-present (some text ∷ replies) = ap (λ b. zeros text ∷ b) (free_replies-present replies)

present-append :
    (replies others : List (Option Bytes))
    → present (replies ++ others) ≡ present replies ++ present others
present-append [] others = refl
present-append (none ∷ replies) others = present-append replies others
present-append (some text ∷ replies) others = ap (λ b. text ∷ b) (present-append replies others)

fail-Settles :
    (strdups : List Bytes) (replies : List (Option Bytes)) (code : ConvCode)
    → code ≢ success
    → strdups ≡ present replies
    → Settles (fail strdups replies code)
unfolding fail
fail-Settles strdups replies code n same =
    inr (n, refl, free_replies-present replies ∙ ap (map zeros) (sym same))

fill-Settles :
    (strdup : ℕ → Bool) (request : AuthRequest) (i : ℕ) (messages : List (Option MsgStyle))
    (strdups : List Bytes) (replies : List (Option Bytes))
    → strdups ≡ present replies
    → Settles (fill strdup request i messages strdups replies)
unfolding fill
fill-Settles strdup request i [] strdups replies same = inl (refl, replies, refl, same, refl)
fill-Settles strdup request i (none ∷ messages) strdups replies same =
    fail-Settles strdups replies conv_err (λ e. cc) same
fill-Settles strdup request i (some prompt_echo_off ∷ messages) strdups replies same =
    elim (Bool-cases (strdup i)) [
      | inl e ↦ rw e (
          fill-Settles strdup request (suc i) messages (strdups ++ c_string request.password ∷ [])
            (replies ++ some (c_string request.password) ∷ [])
            (ap (λ b. b ++ c_string request.password ∷ []) same
              ∙ sym (present-append replies (some (c_string request.password) ∷ []))))
      | inr e ↦ rw e (fail-Settles strdups replies buf_err (λ e. cc) same)
    ]
fill-Settles strdup request i (some prompt_echo_on ∷ messages) strdups replies same =
    elim (Bool-cases (strdup i)) [
      | inl e ↦ rw e (
          fill-Settles strdup request (suc i) messages (strdups ++ c_string request.user ∷ [])
            (replies ++ some (c_string request.user) ∷ [])
            (ap (λ b. b ++ c_string request.user ∷ []) same
              ∙ sym (present-append replies (some (c_string request.user) ∷ []))))
      | inr e ↦ rw e (fail-Settles strdups replies buf_err (λ e. cc) same)
    ]
fill-Settles strdup request i (some error_msg ∷ messages) strdups replies same =
    fill-Settles strdup request (suc i) messages strdups (replies ++ none ∷ [])
      (same ∙ sym (append-nil (present replies)) ∙ sym (present-append replies (none ∷ [])))
fill-Settles strdup request i (some text_info ∷ messages) strdups replies same =
    fill-Settles strdup request (suc i) messages strdups (replies ++ none ∷ [])
      (same ∙ sym (append-nil (present replies)) ∙ sym (present-append replies (none ∷ [])))
fill-Settles strdup request i (some (unknown_style n) ∷ messages) strdups replies same =
    fail-Settles strdups replies conv_err (λ e. cc) same

-- Whatever the arguments are and whichever allocations fail, a call either succeeds, hands the
-- caller an array that holds every string it allocated and frees none, or it fails, stores no
-- array, and frees exactly the strings it allocated, each overwritten with zeros.
pub conv_func-Settles :
    (max_num_msg : ℕ) (calloc : Bool) (strdup : ℕ → Bool) (out data' : Bool)
    (messages : Option (List (Option MsgStyle))) (request : AuthRequest)
    → Settles (conv_func max_num_msg calloc strdup out data' messages request)
unfolding conv_func
conv_func-Settles m calloc strdup out data' none request = inr (λ e. cc, refl, refl)
conv_func-Settles m true strdup true true (some (x ∷ messages)) request =
    elim (Bool-cases (leb (length (x ∷ messages)) m)) [
      | inl e ↦ rw e (fill-Settles strdup request 0 (x ∷ messages) [] [] refl)
      | inr e ↦ rw e (inr (λ e. cc, refl, refl))
    ]
conv_func-Settles m false strdup true true (some (x ∷ messages)) request =
    elim (Bool-cases (leb (length (x ∷ messages)) m)) [
      | inl e ↦ rw e (inr (λ e. cc, refl, refl))
      | inr e ↦ rw e (inr (λ e. cc, refl, refl))
    ]
conv_func-Settles m calloc strdup true true (some []) request = inr (λ e. cc, refl, refl)
conv_func-Settles m calloc strdup true false (some messages) request = inr (λ e. cc, refl, refl)
conv_func-Settles m calloc strdup false data' (some messages) request = inr (λ e. cc, refl, refl)

-- With pointers that are not null, between one and the largest number of messages, each of a known
-- style, allocations that succeed, and no NUL byte in the user or the password, the call succeeds
-- and answers every message in its place: the password without echo, the user with echo, and
-- nothing for a notice. It frees nothing.
pub conv_func-answer :
    (max_num_msg : ℕ) (strdup : ℕ → Bool) (request : AuthRequest) (style : MsgStyle)
    (styles : List MsgStyle)
    → length (style ∷ styles) ≤ max_num_msg
    → ((j : ℕ) → strdup j ≡ true)
    → contains 0 request.user ≡ false
    → contains 0 request.password ≡ false
    → All IsKnown (style ∷ styles)
    → let o =
        conv_func max_num_msg true strdup true true (some (map some (style ∷ styles))) request in
      (o.code ≡ success) × (o.out ≡ some (map (answer request) (style ∷ styles))) × (o.freed ≡ [])
unfolding conv_func
conv_func-answer m strdup request style styles le d u p k =
    let (o, e, c, r, f) = fill-answer strdup request 0 (style ∷ styles) [] [] d u p k in
    let short : leb (length {A = Option MsgStyle} (map some (style ∷ styles))) m ≡ true =
      ground (arith, length-map (style ∷ styles) (λ (s : MsgStyle). some s)) in
    rw (short, e) (c, r, f)
