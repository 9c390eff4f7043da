-- ===== src/Hypr/Events/Parsing.antt =====
-- Event lines of hypr/src/module.cpp: a name, `>>`, and a payload.
use koya_plugins.Base.{
  ℕ, ◌≡◌, ◌≢◌, refl, subst, ◌&&◌, none, some, [], ◌∷◌, ◌++◌, arith, Bytes, Bool-cases, Option-cases,
  ◌⊎◌, inl, inr, ◌==◌,
}
use koya_plugins.Hypr.Events.{split, parse_event}

-- No `>>` starts in the text, also if a `>` follows it.
abbrev pub HasNoMark : Bytes → Type 0
HasNoMark [] = Unit
HasNoMark (c ∷ []) = c ≢ b'>'
HasNoMark (c ∷ d ∷ text) = ¬ ((c ≡ b'>') × (d ≡ b'>')) × HasNoMark (d ∷ text)

-- No `>>` stands in the text.
abbrev pub HasNoMarkInside : Bytes → Type 0
HasNoMarkInside [] = Unit
HasNoMarkInside (c ∷ []) = Unit
HasNoMarkInside (c ∷ d ∷ text) = ¬ ((c ≡ b'>') × (d ≡ b'>')) × HasNoMarkInside (d ∷ text)

split-mark :
    (name payload : Bytes)
    → HasNoMark name
    → split (name ++ b'>' ∷ b'>' ∷ payload) ≡ some (name, payload)
unfolding split
split-mark [] payload h = refl
split-mark (c ∷ []) payload h = ground arith
split-mark (c ∷ d ∷ name) payload h = ground (arith, split-mark (d ∷ name) payload h.1)

-- A line made of a name without a mark, `>>` and any payload, further marks included, is read back
-- as that name and that payload.
pub parse_event-mark :
    (name payload : Bytes)
    → HasNoMark name
    → parse_event (name ++ b'>' ∷ b'>' ∷ payload) ≡ record { name = name; payload_raw = payload }
unfolding parse_event
parse_event-mark name payload h = rw (split-mark name payload h, parse_event)

split_parts :
    (line name payload : Bytes)
    → split line ≡ some (name, payload)
    → line ≡ name ++ b'>' ∷ b'>' ∷ payload
unfolding split
split_parts [] name payload e = cc
split_parts (c ∷ []) name payload e = cc
split_parts (c ∷ d ∷ text) name payload e = elim (Option-cases (split (d ∷ text))) [
  | inl stuck ↦ ground arith
  | inr ((n, p), found) ↦ ground (arith, split_parts (d ∷ text) n p found)
]

HasNoMark-cons :
    (c d : ℕ) (text name payload : Bytes)
    → ¬ ((c ≡ b'>') × (d ≡ b'>'))
    → d ∷ text ≡ name ++ b'>' ∷ b'>' ∷ payload
    → HasNoMark name
    → HasNoMark (c ∷ name)
HasNoMark-cons c d text [] payload first e h = ground arith
HasNoMark-cons c d text (x ∷ name) payload first e h = (ground arith, h)

split-HasNoMark : (line name payload : Bytes) → split line ≡ some (name, payload) → HasNoMark name
unfolding split
split-HasNoMark [] name payload e = cc
split-HasNoMark (c ∷ []) name payload e = cc
split-HasNoMark (c ∷ d ∷ text) name payload e = elim (Bool-cases (c == b'>' && d == b'>')) [
  | inl mark ↦ subst HasNoMark (let empty : [] ≡ name = ground arith in empty) tt
  | inr none_here ↦ elim (Option-cases (split (d ∷ text))) [
    | inl stuck ↦ ground arith
    | inr ((n, p), found) ↦ subst HasNoMark (let grown : c ∷ n ≡ name = ground arith in grown) (
        HasNoMark-cons c d text n p (ground arith) (split_parts (d ∷ text) n p found)
          (split-HasNoMark (d ∷ text) n p found))
  ]
]

split-none : (line : Bytes) → split line ≡ none → HasNoMarkInside line
unfolding split
split-none [] e = tt
split-none (c ∷ []) e = tt
split-none (c ∷ d ∷ text) e = elim (Option-cases (split (d ∷ text))) [
  | inl stuck ↦ (ground arith, split-none (d ∷ text) stuck)
  | inr ((n, p), found) ↦ absurd (ground arith)
]

-- Every line is read as a name and a payload that make it up: either around the first `>>`, with no
-- mark in the name, or the whole line is the name, it holds no mark, and the payload is empty.
pub parse_event_parts :
    (line : Bytes)
    → let item = parse_event line in
      ((line ≡ item.name ++ b'>' ∷ b'>' ∷ item.payload_raw) × HasNoMark item.name)
      ⊎ ((line ≡ item.name) × (item.payload_raw ≡ []) × HasNoMarkInside line)
unfolding parse_event
parse_event_parts line = elim (Option-cases (split line)) [
  | inl stuck ↦ rw (stuck, parse_event) (inr (refl, refl, split-none line stuck))
  | inr ((n, p), found) ↦
      rw (found, parse_event) (inl (split_parts line n p found, split-HasNoMark line n p found))
]
