-- ===== src/Http/Url.antt =====
-- http/src/Http.cpp: the pattern of URLs, `^(https?):\/\/([^\/:]+)(?::([0-9]+))?(\/\S*)?$`, and what the
-- worker takes from a match. A byte of the host cannot begin what follows it, nor a digit what follows
-- the port, so that the greedy match is the only one.
pub mod Printing
pub mod Reading
use koya_plugins.Base.{
  ℕ, ◌+◌, ◌-◌, ◌*◌, Bool, true, false, Option, none, some, List, [], ◌∷◌, ◌++◌, Bytes, codes, ◌==◌,
  leb, ltb, if◌then◌else◌, ◌&&◌, ◌||◌, not, bytes_eq, is_empty,
}

-- The groups of a match: the scheme, the host, and the port and the path if they matched.
pub record UrlMatch : Type 0 where
  pub secure : Bool
  pub host : Bytes
  pub port : Option Bytes
  pub path : Option Bytes

abbrev pub slash : ℕ
slash = 47

abbrev pub colon : ℕ
colon = 58

-- [^\/:]
abbrev pub is_host : ℕ → Bool
is_host c = not (c == slash || c == colon)

-- [0-9]
abbrev pub is_digit : ℕ → Bool
is_digit c = leb 48 c && leb c 57

-- \S: no space, and none of the five control characters from the tabulator to the carriage return.
abbrev pub is_visible : ℕ → Bool
is_visible c = not (c == 32 || leb 9 c && leb c 13)

-- The longest prefix of which each byte passes, and the rest.
pub span : (ℕ → Bool) → Bytes → Bytes × Bytes
span p [] = ([], [])
span p (c ∷ text) = if p c then (c ∷ (span p text).0, (span p text).1) else ([], c ∷ text)

-- The text behind a given beginning.
pub behind : Bytes → Bytes → Option Bytes
behind [] text = some text
behind (c ∷ start) [] = none
behind (c ∷ start) (d ∷ text) = if c == d then behind start text else none

abbrev pub all : (ℕ → Bool) → Bytes → Bool
all p [] = true
all p (c ∷ text) = p c && all p text

-- (\/\S*)?$
abbrev pub match_path : Bool → Bytes → Option Bytes → Bytes → Option UrlMatch
match_path secure host port [] =
    some (record { secure = secure; host = host; port = port; path = none })
match_path secure host port (c ∷ text) =
    if c == slash && all is_visible text
    then some (record { secure = secure; host = host; port = port; path = some (c ∷ text) })
    else none

-- (?::([0-9]+))?
abbrev pub match_digits : Bool → Bytes → Bytes × Bytes → Option UrlMatch
match_digits secure host ([], rest) = none
match_digits secure host (d ∷ digits, rest) = match_path secure host (some (d ∷ digits)) rest

abbrev pub match_port : Bool → Bytes → Bytes → Option UrlMatch
match_port secure host [] = match_path secure host none []
match_port secure host (c ∷ text) =
    if c == colon
    then match_digits secure host (span is_digit text)
    else match_path secure host none (c ∷ text)

-- ([^\/:]+)
abbrev pub match_host : Bool → Bytes × Bytes → Option UrlMatch
match_host secure ([], rest) = none
match_host secure (c ∷ host, rest) = match_port secure (c ∷ host) rest

-- https?:\/\/
unfoldable pub match_url : Bytes → Option UrlMatch
unfolding span behind
match_url url = elim (behind (codes "https://") url) [
  | some rest ↦ match_host true (span is_host rest)
  | none ↦ elim (behind (codes "http://") url) [
    | some rest ↦ match_host false (span is_host rest)
    | none ↦ none
  ]
]

-- std::stoi of digits, which throws std::out_of_range at 2^31; nothing catches it in the worker.
pub digits_value : ℕ → Bytes → ℕ
digits_value value [] = value
digits_value value (d ∷ digits) = digits_value (value * 10 + (d - 48)) digits

unfoldable pub stoi : Bytes → Option ℕ
unfolding digits_value
stoi digits = if ltb (digits_value 0 digits) 2147483648 then some (digits_value 0 digits) else none

unfoldable pub port_of : UrlMatch → Option ℕ
unfolding stoi
port_of m = elim m.port [ none ↦ some (if m.secure then 443 else 80) | some digits ↦ stoi digits ]

unfoldable pub path_of : UrlMatch → Bytes
path_of m = elim m.path [ none ↦ codes "/" | some path ↦ path ]
