-- ===== src/Hypr/Commands/Words.antt =====
-- The command texts and socket paths of hypr/src/module.cpp can be read back.
use koya_plugins.Base.{
  ◌≡◌, refl, ap, sym, ◌∙◌, false, List, [], ◌∷◌, ◌++◌, append_assoc, append-nil, arith, Bytes,
  codes, contains, All, ◌==◌, if◌then◌else◌,
}
use koya_plugins.Hypr.Commands.{append_args, json_command}

-- The words of a text, between single spaces.
pub words_from : Bytes → Bytes → List Bytes
words_from word [] = word ∷ []
words_from word (c ∷ text) =
    if c == b' ' then word ∷ words_from [] text else words_from (word ++ c ∷ []) text

pub words : Bytes → List Bytes
unfolding words_from
words text = words_from [] text

abbrev pub IsWord : Bytes → Type 0
IsWord text = contains b' ' text ≡ false

-- The arguments, each behind a space.
abbrev spaced : List Bytes → Bytes
spaced [] = []
spaced (arg ∷ args) = b' ' ∷ (arg ++ spaced args)

append_args-spaced :
    (full : Bytes) (args : List Bytes) → append_args full args ≡ full ++ spaced args
unfolding append_args
append_args-spaced full [] = sym (append-nil full)
append_args-spaced full (arg ∷ args) =
    append_args-spaced (full ++ b' ' ∷ arg) args ∙ append_assoc full (b' ' ∷ arg) (spaced args)

words_from-word :
    (word text rest : Bytes)
    → IsWord text
    → words_from word (text ++ rest) ≡ words_from (word ++ text) rest
unfolding words_from contains
words_from-word word [] rest h = rw (append-nil word) refl
words_from-word word (c ∷ text) rest h =
    ground (arith, words_from-word (word ++ c ∷ []) text rest, append_assoc word (c ∷ []) text)

words_from-spaced :
    (word : Bytes) (args : List Bytes)
    → All IsWord args
    → words_from word (spaced args) ≡ word ∷ args
unfolding words_from
words_from-spaced word [] h = refl
words_from-spaced word (arg ∷ args) h =
    ap (λ ws. word ∷ ws) (words_from-word [] arg (spaced args) h.0 ∙ words_from-spaced arg args h.1)

-- A query whose topic and arguments hold no space is read back by its words: the topic behind `j/`,
-- then the arguments in order.
pub json_command-words :
    (topic : Bytes) (args : List Bytes)
    → IsWord topic
    → All IsWord args
    → words (json_command topic args) ≡ (codes "j/" ++ topic) ∷ args
unfolding words json_command contains
json_command-words topic args t h =
    ap (words_from []) (append_args-spaced (codes "j/" ++ topic) args)
    ∙ words_from-word [] (codes "j/" ++ topic) (spaced args) t
    ∙ words_from-spaced (codes "j/" ++ topic) args h
