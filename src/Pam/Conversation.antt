-- ===== src/Pam/Conversation.antt =====
-- conv_func and erase_password of pam/src/module.cpp. Memory is modelled by the contents of the
-- strings that are allocated and given back; `calloc` and `strdup` are parameters that say which
-- allocations succeed.
pub mod Replies
use koya_plugins.Base.{
  ℕ, zero, suc, ◌+◌, ◌≡◌, refl, Bool, true, false, ◌&&◌, ◌||◌, not, Option, none, some, List, [],
  ◌∷◌, ◌++◌, map, arith, length, All, Bytes, c_string, leb, if◌then◌else◌, is_empty,
}
use koya_plugins.Pam.Types.{AuthRequest}

-- `msg_style`: the four styles that the switch names, and any other value.
pub data MsgStyle : Type 0 where
  prompt_echo_off prompt_echo_on error_msg text_info : MsgStyle
  unknown_style : ℕ → MsgStyle

pub data ConvCode : Type 0 where
  success conv_err buf_err : ConvCode

-- What a call leaves behind: its code, the array that it stored in `*out`, the strings it
-- allocated, and the contents of those that it freed, at the time of `free`.
pub record ConvOutcome : Type 0 where
  pub code : ConvCode
  pub out : Option (List (Option Bytes))
  pub strdups : List Bytes
  pub freed : List Bytes

-- volatile char* bytes; bytes[i] = 0 for every i
abbrev pub zeros : Bytes → Bytes
zeros = map (λ _. 0)

-- The buffer after the loop, and the string after `clear`.
unfoldable pub erase_password : Bytes → Bytes × Bytes
erase_password password = (zeros password, [])

-- The loop of `fail`: each reply that is not null is overwritten and then freed.
free_replies : List (Option Bytes) → List Bytes
free_replies [] = []
free_replies (none ∷ replies) = free_replies replies
free_replies (some text ∷ replies) = zeros text ∷ free_replies replies

-- `fail`, after the allocations `strdups`.
fail : List Bytes → List (Option Bytes) → ConvCode → ConvOutcome
unfolding free_replies
fail strdups replies code = record {
  code = code;
  out = none;
  strdups = strdups;
  freed = free_replies replies;
}

-- The value that a style asks for; `none` is the default case.
pub reply_value : AuthRequest → MsgStyle → Option (Option Bytes)
reply_value request prompt_echo_off = some (some (c_string request.password))
reply_value request prompt_echo_on = some (some (c_string request.user))
reply_value request error_msg = some none
reply_value request text_info = some none
reply_value request (unknown_style n) = none

-- The loop from message `i` on; `strdups` are the strings that were allocated before it, and `replies`
-- the entries of the array. A null message is `none`.
fill :
    (ℕ → Bool)
    → AuthRequest
    → ℕ
    → List (Option MsgStyle)
    → List Bytes
    → List (Option Bytes)
    → ConvOutcome
unfolding fail reply_value
fill strdup request i [] strdups replies = record {
  code = success;
  out = some replies;
  strdups = strdups;
  freed = [];
}
fill strdup request i (none ∷ messages) strdups replies = fail strdups replies conv_err
fill strdup request i (some style ∷ messages) strdups replies = elim (reply_value request style) [
  | none ↦ fail strdups replies conv_err
  | some none ↦ fill strdup request (suc i) messages strdups (replies ++ none ∷ [])
  | some (some value) ↦ elim (strdup i) [
    | true ↦
        fill strdup request (suc i) messages (strdups ++ value ∷ []) (replies ++ some value ∷ [])
    | false ↦ fail strdups replies buf_err
  ]
]

abbrev refused : ConvCode → ConvOutcome
refused code = record { code = code; out = none; strdups = []; freed = [] }

-- A null pointer for `out` or `data` is `false`, for `messages` `none`; `count` is the length of
-- the array that `messages` points to.
pub conv_func :
    (max_num_msg : ℕ) (calloc : Bool) (strdup : ℕ → Bool) (out data' : Bool)
    → Option (List (Option MsgStyle))
    → AuthRequest
    → ConvOutcome
unfolding fill
conv_func max_num_msg calloc strdup out data' none request = refused conv_err
conv_func max_num_msg calloc strdup out data' (some messages) request =
    if not out || not data' || is_empty messages || not (leb (length messages) max_num_msg)
    then refused conv_err
    else if calloc
    then fill strdup request 0 messages [] []
    else refused buf_err
