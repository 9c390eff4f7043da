-- ===== src/Hypr/Socket/Transfer.antt =====
-- The sending and receiving loops of the command worker of hypr/src/module.cpp.
use koya_plugins.Base.{
  ℕ, ◌+◌, ◌≤◌, ◌≡◌, ◌≢◌, ◌∙◌, sym, ap, inl, inr, refl, true, false, not, Option, none, some, List,
  [], ◌∷◌, ◌++◌, append_assoc, append-nil, Bytes, is_empty, length, length-append, ltb, arith,
  Bool-cases, Option-cases, take, drop, take-append-drop, drop-drop, drop_all, some-injective, ◌==◌,
  subst,
}
use koya_plugins.Hypr.Socket.{
  Send, took, interrupted, broken, Sent, send_all, Block, block, closed, Received, max_reply,
  recv_all,
}
use mathlib.Core.Option

-- What the peer has, and what is still to be sent, make up the text.
abbrev pub IsPrefix : Bytes → Sent → Type 0
IsPrefix text s = s.delivered ++ drop s.sent text ≡ text

IsPrefix-took :
    (text : Bytes) (s : Sent) (n : ℕ)
    → IsPrefix text s
    → IsPrefix text
        (record { sent = s.sent + n; delivered = s.delivered ++ take n (drop s.sent text) })
IsPrefix-took text s n p =
    append_assoc s.delivered (take n (drop s.sent text)) (drop (s.sent + n) text)
    ∙ ap (λ rest. s.delivered ++ (take n (drop s.sent text) ++ rest))
        (sym (drop-drop s.sent n text))
    ∙ ap (λ rest. s.delivered ++ rest) (take-append-drop n (drop s.sent text))
    ∙ p

send_all-IsPrefix :
    (text : Bytes) (s : Sent) (answers : List Send) {s' : Sent}
    → IsPrefix text s
    → send_all text s answers ≡ some s'
    → IsPrefix text s'
unfolding send_all
send_all-IsPrefix text s [] {s'} p e = elim (Bool-cases (ltb s.sent (length text))) [
  | inl go ↦ cc (rw go at e)
  | inr all ↦ subst (IsPrefix text) (some-injective s s' (rw all at e)) p
]
send_all-IsPrefix text s (took n ∷ answers) {s'} p e =
    elim (Bool-cases (ltb s.sent (length text))) [
      | inl go ↦ elim (Bool-cases (n == 0)) [
        | inl none_taken ↦ subst (IsPrefix text) (some-injective s s' (rw (go, none_taken) at e)) p
        | inr some_taken ↦
            send_all-IsPrefix text
              (record { sent = s.sent + n; delivered = s.delivered ++ take n (drop s.sent text) })
              answers (IsPrefix-took text s n p) (rw (go, some_taken) at e)
      ]
      | inr all ↦ subst (IsPrefix text) (some-injective s s' (rw all at e)) p
    ]
send_all-IsPrefix text s (interrupted ∷ answers) {s'} p e =
    elim (Bool-cases (ltb s.sent (length text))) [
      | inl go ↦ send_all-IsPrefix text s answers p (rw go at e)
      | inr all ↦ subst (IsPrefix text) (some-injective s s' (rw all at e)) p
    ]
send_all-IsPrefix text s (broken ∷ answers) {s'} p e =
    elim (Bool-cases (ltb s.sent (length text))) [
      | inl go ↦ subst (IsPrefix text) (some-injective s s' (rw go at e)) p
      | inr all ↦ subst (IsPrefix text) (some-injective s s' (rw all at e)) p
    ]

abbrev pub unsent : Sent
unsent = record { sent = 0; delivered = [] }

-- However the text is cut up and whatever calls are interrupted, the peer has been given a prefix
-- of the text when the loop is left, the rest of it is what was not sent, and if the whole length was
-- sent the peer has the text itself.
pub send_all_delivers :
    (text : Bytes) (answers : List Send) {s : Sent}
    → send_all text unsent answers ≡ some s
    → (s.delivered ++ drop s.sent text ≡ text) × (s.sent ≡ length text → s.delivered ≡ text)
send_all_delivers text answers {s} e = (
  whole,
  λ all.
      sym (append-nil s.delivered)
      ∙ ap (λ rest. s.delivered ++ rest) (sym (drop_all s.sent text (omega arith)))
      ∙ whole,
)
  where
    whole : IsPrefix text s
    whole = send_all-IsPrefix text unsent answers refl e

-- The reply as the peer wrote it: the blocks up to the close, if the connection is closed before it
-- breaks.
abbrev pub reply : List Block → Option Bytes
reply [] = none
reply (block b ∷ answers) = Option.map (λ rest. b ++ rest) (reply answers)
reply (closed ∷ answers) = some []
reply (interrupted ∷ answers) = reply answers
reply (broken ∷ answers) = none

reply-block :
    (b : Bytes) (answers : List Block) (t : Bytes)
    → reply (block b ∷ answers) ≡ some t
    → (rest : Bytes) × (reply answers ≡ some rest) × (t ≡ b ++ rest)
reply-block b answers t e = elim (Option-cases (reply answers)) [
  | inl stuck ↦ cc
  | inr (rest, found) ↦ (rest, found, cc)
]

abbrev replied : Bytes → Received
replied out = record { ok = true; out = out }

abbrev at_close : Bytes → Received
at_close out = record { ok = not (is_empty out); out = out }

recv_all-reply_from :
    (out : Bytes) (answers : List Block) (t : Bytes)
    → reply answers ≡ some t
    → out ++ t ≢ []
    → length (out ++ t) ≤ max_reply
    → recv_all out answers ≡ some (record { ok = true; out = out ++ t })
unfolding recv_all
recv_all-reply_from out [] t e n l = cc
recv_all-reply_from out (block b ∷ answers) t e n l =
    let (rest, found, joined) = reply-block b answers t e in
    let same : out ++ t ≡ (out ++ b) ++ rest =
      ap (λ x. out ++ x) joined ∙ sym (append_assoc out b rest) in
    let fits : ltb max_reply (length out + length b) ≡ false =
      fits_of out b rest (subst (λ x. length x ≤ max_reply) same l) in
    rw fits (
      recv_all-reply_from (out ++ b) answers rest found (λ h. n (same ∙ h))
        (subst (λ x. length x ≤ max_reply) same l)
      ∙ ap (λ x. some (record { ok = true; out = x })) (sym same))
  where
    fits_of :
        (out b rest : Bytes)
        → length ((out ++ b) ++ rest) ≤ max_reply
        → ltb max_reply (length out + length b) ≡ false
    fits_of out b rest h = ground (arith, length-append (out ++ b) rest, length-append out b)
recv_all-reply_from out (closed ∷ answers) t e n l =
    let none_left = some-injective [] t e in
    subst (λ x. some (at_close out) ≡ some (replied (out ++ x))) none_left
      (closing out (λ h. n (subst (λ x. out ++ x ≡ []) none_left (append-nil out ∙ h))))
  where
    closing : (out : Bytes) → out ≢ [] → some (at_close out) ≡ some (replied (out ++ []))
    closing [] h = absurd (h refl)
    closing (c ∷ out) h =
        ap (λ x. some (record { ok = true; out = x })) (sym (append-nil (c ∷ out)))
recv_all-reply_from out (interrupted ∷ answers) t e n l = recv_all-reply_from out answers t e n l
recv_all-reply_from out (broken ∷ answers) t e n l = cc

recv_all_ok_from :
    (out : Bytes) (answers : List Block) {r : Received}
    → length out ≤ max_reply
    → recv_all out answers ≡ some r
    → r.ok ≡ true
    → (t : Bytes) × (reply answers ≡ some t)
      × (r.out ≡ out ++ t)
      × (r.out ≢ [])
      × (length r.out ≤ max_reply)
unfolding recv_all
recv_all_ok_from out [] l e ok = cc
recv_all_ok_from out (block b ∷ answers) {r} l e ok =
    elim (Bool-cases (ltb max_reply (length out + length b))) [
      | inl long ↦ cc (rw long at e)
      | inr fits ↦
          let (t, found, joined, n, bound) =
            recv_all_ok_from (out ++ b) answers (within out b fits) (rw fits at e) ok in
          (
            b ++ t,
            ap (Option.map (λ rest. b ++ rest)) found,
            joined ∙ append_assoc out b t,
            n,
            bound,
          )
    ]
  where
    within :
        (out b : Bytes)
        → ltb max_reply (length out + length b) ≡ false
        → length (out ++ b) ≤ max_reply
    within out b h = ground (arith, length-append out b)
recv_all_ok_from [] (closed ∷ answers) {r} l e ok = cc
recv_all_ok_from (c ∷ out) (closed ∷ answers) {r} l e ok =
    let same = some-injective (record { ok = true; out = c ∷ out }) r e in
    (
      [],
      refl,
      sym (ap (λ (x : Received). x.out) same) ∙ sym (append-nil (c ∷ out)),
      λ h. cc (ap (λ (x : Received). x.out) same),
      subst (λ (x : Received). length x.out ≤ max_reply) same l,
    )
recv_all_ok_from out (interrupted ∷ answers) l e ok = recv_all_ok_from out answers l e ok
recv_all_ok_from out (broken ∷ answers) l e ok = cc

-- The worker reports success exactly for the replies it should: if the connection is closed after a
-- reply that is not empty and has at most four mebibytes, the result is that reply, whatever calls
-- were interrupted and however it was cut up; and if success is reported, the connection was closed
-- after such a reply and the output is that reply.
pub recv_all-reply :
    (answers : List Block)
    → ((t : Bytes)
        → reply answers ≡ some t
        → t ≢ []
        → length t ≤ max_reply
        → recv_all [] answers ≡ some (record { ok = true; out = t }))
      × ((r : Received)
          → recv_all [] answers ≡ some r
          → r.ok ≡ true
          → (reply answers ≡ some r.out) × (r.out ≢ []) × (length r.out ≤ max_reply))
recv_all-reply answers = (
  λ t e n l. recv_all-reply_from [] answers t e n l,
  λ r e ok.
      let (t, found, joined, n, bound) = recv_all_ok_from [] answers (omega arith) e ok in
      (found ∙ ap some (sym joined), n, bound),
)
