-- ===== src/Hypr/Socket/Lines.antt =====
-- read_line of hypr/src/module.cpp against the lines that the compositor writes.
use koya_plugins.Base.{
  ℕ, ◌+◌, ◌≤◌, ◌≡◌, ◌≢◌, sym, ap, false, List, [], ◌∷◌, ◌++◌, append_assoc, append-nil, Bytes,
  length, length-append, arith, contains, contains-append,
}
use koya_plugins.Hypr.Socket.{
  Recv, byte, closed, interrupted, broken, LineResult, line, max_line, read_line,
}

-- The answers bring the bytes of a text that has no newline, then a newline, then the rest; calls
-- may be interrupted anywhere.
pub data Delivers : Bytes → List Recv → List Recv → Type 0 where
  newline : {rest : List Recv} → Delivers [] (byte 10 ∷ rest) rest
  next :
      (c : ℕ) {text : Bytes} {answers rest : List Recv}
      → c ≢ 10
      → Delivers text answers rest
      → Delivers (c ∷ text) (byte c ∷ answers) rest
  again :
      {text : Bytes} {answers rest : List Recv}
      → Delivers text answers rest
      → Delivers text (interrupted ∷ answers) rest

read_line-Delivers_from :
    {text : Bytes} {answers rest : List Recv} (buf : Bytes)
    → Delivers text answers rest
    → length buf + length text ≤ max_line
    → read_line buf answers ≡ line (buf ++ text) rest
unfolding read_line
read_line-Delivers_from buf (newline {rest}) h = ap (λ b. line b rest) (sym (append-nil buf))
read_line-Delivers_from buf (next c {text} {answers} {rest} ne d) h = ground (
  arith,
  read_line-Delivers_from (buf ++ c ∷ []) d,
  length-append buf (c ∷ []),
  append_assoc buf (c ∷ []) text,
)
read_line-Delivers_from buf (again d) h = read_line-Delivers_from buf d h

-- A line of at most 65536 bytes is read whole whatever calls are interrupted, and no byte after its
-- newline is consumed.
pub read_line-Delivers :
    {text : Bytes} {answers rest : List Recv}
    → Delivers text answers rest
    → length text ≤ max_line
    → read_line [] answers ≡ line text rest
read_line-Delivers d h = read_line-Delivers_from [] d (omega (arith, h))

abbrev pub IsLine : LineResult → Type 0
IsLine (line text rest) = (length text ≤ max_line) × (contains 10 text ≡ false)
IsLine _ = Unit

-- Whatever the socket answers, a line that is returned has at most 65536 bytes and no newline, if
-- that held of the buffer that the reading started with.
pub read_line-IsLine :
    (buf : Bytes) (answers : List Recv)
    → length buf ≤ max_line
    → contains 10 buf ≡ false
    → IsLine (read_line buf answers)
unfolding read_line contains
read_line-IsLine buf [] h n = tt
read_line-IsLine [] (closed ∷ rest) h n = tt
read_line-IsLine (c ∷ buf) (closed ∷ rest) h n = (h, n)
read_line-IsLine buf (interrupted ∷ rest) h n = read_line-IsLine buf rest h n
read_line-IsLine buf (broken ∷ rest) h n = tt
read_line-IsLine buf (byte ch ∷ rest) h n = ground (
  arith,
  read_line-IsLine (buf ++ ch ∷ []) rest,
  length-append buf (ch ∷ []),
  contains-append 10 buf (ch ∷ []),
)
