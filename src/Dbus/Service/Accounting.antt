-- ===== src/Dbus/Service/Accounting.antt =====
-- Tallies of the references to calls in dbus/src/service.hpp, the invariant, and the changes that keep it.
use koya_plugins.Base.{
  ℕ, ◌+◌, ◌^◌, ◌<◌, ◌≤◌, ◌≡◌, Bool, true, false, not, ◌&&◌, Option, none, some, List, [], ◌∷◌, ◌++◌,
  arith, Table, find, erase, entries, entries-erase, tally, tally-append, tally-erase, ◌==◌,
  if◌then◌else◌,
}
use koya_plugins.Dbus.Calls.{
  Request, Answer, Effect, received, unref, sent, assigned, DbusState, note, finish_effects, finish,
}

abbrev pub one_if : Bool → ℕ
one_if b = if b then 1 else 0

-- References to a message that a queued call has, and those that end.
abbrev pub gets : ℕ → Effect → ℕ
gets m (received request) = one_if (request.message == m)
gets m e = 0

abbrev pub unrefs : ℕ → Effect → ℕ
unrefs m (unref message) = one_if (message == m)
unrefs m e = 0

-- Calls whose sender wants an answer, and answers.
abbrev pub owed : ℕ → Request → ℕ
owed m request = if request.no_reply then 0 else one_if (request.message == m)

abbrev pub wants : ℕ → Effect → ℕ
wants m (received request) = owed m request
wants m e = 0

abbrev pub sends : ℕ → Effect → ℕ
sends m (sent message answer) = one_if (message == m)
sends m e = 0

abbrev pub numbered : Effect → ℕ
numbered (assigned id) = 1
numbered e = 0

abbrev pub refers : ℕ → Request → ℕ
refers m request = one_if (request.message == m)

-- Over a table of invocations.
abbrev pub in_call : (Request → ℕ) → ℕ × Request → ℕ
in_call w (id, request) = w request

-- Before the numbers of invocations wrap around.
abbrev pub Within : DbusState → Type 0
Within s = 1 + tally numbered s.log < 2 ^ 32

-- The tallies of a list of effects.
abbrev pub Sums : ℕ → List Effect → (g u w a n : ℕ) → Type 0
Sums m es g u w a n =
    (tally (gets m) es ≡ g)
    × (tally (unrefs m) es ≡ u)
    × (tally (wants m) es ≡ w)
    × (tally (sends m) es ≡ a)
    × (tally numbered es ≡ n)

pub Sums-append :
    (m : ℕ) (xs ys : List Effect) (g u w a n g' u' w' a' n' : ℕ)
    → Sums m xs g u w a n
    → Sums m ys g' u' w' a' n'
    → Sums m (xs ++ ys) (g + g') (u + u') (w + w') (a + a') (n + n')
Sums-append m xs ys g u w a n g' u' w' a' n' h k = omega (
  arith,
  h,
  k,
  tally-append (gets m) xs ys,
  tally-append (unrefs m) xs ys,
  tally-append (wants m) xs ys,
  tally-append (sends m) xs ys,
  tally-append numbered xs ys,
)

-- What an answer adds, if there is a connection.
abbrev pub answered : Bool → ℕ → Request → ℕ
answered connection m request = if connection then owed m request else 0

finish_bits-Sums :
    (no_reply connection : Bool) (k : ℕ) (answer : Answer) (m : ℕ)
    → Sums m
        ((if not no_reply && connection then sent k answer ∷ [] else []) ++ unref k ∷ [])
        0
        (one_if (k == m))
        0
        (if connection then (if no_reply then 0 else one_if (k == m)) else 0)
        0
finish_bits-Sums true true k answer m = omega arith
finish_bits-Sums true false k answer m = omega arith
finish_bits-Sums false true k answer m = omega arith
finish_bits-Sums false false k answer m = omega arith

pub finish_effects-Sums :
    (connection : Bool) (request : Request) (answer : Answer) (m : ℕ)
    → Sums m
        (finish_effects connection request answer)
        0
        (refers m request)
        0
        (answered connection m request)
        0
finish_effects-Sums connection request answer m =
    finish_bits-Sums request.no_reply connection request.message answer m

-- A weight over the calls that were taken out to be served, those queued and those open.
abbrev pub load : (Request → ℕ) → List Request → List Request → Table Request → ℕ
load w taken_out methods t = tally w taken_out + (tally w methods + tally (in_call w) t)

pub record Inv (taken_out : List Request) (next : ℕ) (connection : Bool) (methods : List Request)
    (t : Table Request) (log : List Effect) : Type 0 where
  pub counted : next ≡ 1 + tally numbered log
  pub fresh : (a : ℕ) → next ≤ a → entries a t ≡ 0
  pub unique : (a : ℕ) → entries a t ≤ 1
  pub refs :
      (m : ℕ) → tally (gets m) log ≡ tally (unrefs m) log + load (refers m) taken_out methods t
  pub answers :
      connection ≡ true
      → (m : ℕ) → tally (wants m) log ≡ tally (sends m) log + load (owed m) taken_out methods t

abbrev pub Ok : List Request → DbusState → Type 0
Ok b s = Within s → Inv b s.next_invocation s.connection s.methods s.invocations s.log

-- A change of the calls, with effects that number no invocation.
pub change-Inv :
    (b b' : List Request) (s : DbusState) (methods : List Request) (t : Table Request)
    (es : List Effect) (g u w a : ℕ → ℕ)
    → ((m : ℕ) → Sums m es (g m) (u m) (w m) (a m) 0)
    → ((k : ℕ) → entries k t ≤ entries k s.invocations)
    → ((m : ℕ)
        → load (refers m) b s.methods s.invocations + g m ≡ u m + load (refers m) b' methods t)
    → (s.connection ≡ true
        → (m : ℕ)
        → load (owed m) b s.methods s.invocations + w m ≡ a m + load (owed m) b' methods t)
    → Ok b s
    → 1 + tally numbered (s.log ++ es) < 2 ^ 32
    → Inv b' s.next_invocation s.connection methods t (s.log ++ es)
change-Inv b b' s methods t es g u w a sums fewer refs answers ok within = record {
  counted = omega (arith, inv.counted, same);
  fresh = λ k le. omega (arith, inv.fresh k le, fewer k);
  unique = λ k. omega (arith, inv.unique k, fewer k);
  refs = λ m. omega (
    arith,
    inv.refs m,
    refs m,
    sums m,
    tally-append (gets m) s.log es,
    tally-append (unrefs m) s.log es,
  );
  answers = λ c m. omega (
    arith,
    inv.answers c m,
    answers c m,
    sums m,
    tally-append (wants m) s.log es,
    tally-append (sends m) s.log es,
  );
}
  where
    same : tally numbered (s.log ++ es) ≡ tally numbered s.log
    same = omega (arith, (sums 0).4, tally-append numbered s.log es)

    inv : Inv b s.next_invocation s.connection s.methods s.invocations s.log
    inv = ok (omega (arith, within, same))

-- Effects of other kinds.
pub quiet-Ok :
    (b : List Request) (s : DbusState) (es : List Effect)
    → ((m : ℕ) → Sums m es 0 0 0 0 0)
    → Ok b s
    → Ok b (note s es)
quiet-Ok b s es sums =
    change-Inv b b s s.methods s.invocations es (λ m. 0) (λ m. 0) (λ m. 0) (λ m. 0) sums
      (λ k. omega arith) (λ m. omega arith) (λ c m. omega arith)

pub finish-Ok :
    (b : List Request) (s : DbusState) (id : ℕ) (request : Request) (answer : Option Answer)
    → find id s.invocations ≡ some request
    → Ok b s
    → Ok b (finish s id request answer)
finish-Ok b s id request none e ok = ok
finish-Ok b s id request (some answer) e ok =
    change-Inv b b s s.methods (erase id s.invocations) (finish_effects s.connection request answer)
      (λ m. 0) (λ m. refers m request) (λ m. 0) (λ m. answered s.connection m request)
      (finish_effects-Sums s.connection request answer)
      (λ k. omega (arith, entries-erase id k s.invocations request e))
      (λ m. omega (arith, tally-erase (in_call (refers m)) id s.invocations request e))
      (λ c m. rw c (omega (arith, tally-erase (in_call (owed m)) id s.invocations request e))) ok
