-- ===== src/Hypr/Subscribers/Ownership.antt =====
-- The references to callbacks that js_on, js_off and hypr_shutdown of hypr/src/module.cpp take and
-- give back.
use koya_plugins.Base.{
  ℕ, ◌+◌, ◌≡◌, refl, Option, none, some, List, [], ◌∷◌, ◌++◌, arith, Bytes, bytes_eq, tally,
  tally-append, ◌==◌, if◌then◌else◌,
}
use koya_plugins.Hypr.Subscribers.{Subscribers, js_on, js_off, remove_first, keep_unless_empty}

first_match : ℕ → List ℕ → List ℕ
first_match func [] = []
first_match func (f ∷ funcs) = if f == func then f ∷ [] else first_match func funcs

-- The functions that js_off passes to JS_FreeValue.
freed_by : Subscribers → Bytes → Option ℕ → List ℕ
unfolding first_match
freed_by [] name func = []
freed_by ((key, funcs) ∷ subs) name func =
    let rest = freed_by subs name func in
    if bytes_eq key name then (elim func [ some f ↦ first_match f funcs | none ↦ funcs ]) else rest

-- The functions that hypr_shutdown passes to JS_FreeValue.
freed_at_end : Subscribers → List ℕ
freed_at_end [] = []
freed_at_end ((key, funcs) ∷ subs) = funcs ++ freed_at_end subs

-- The table, with the functions that were passed to JS_DupValue for it, and to JS_FreeValue.
pub record Owner : Type 0 where
  pub subs : Subscribers
  pub duplicated : List ℕ
  pub freed : List ℕ

pub data Call : Type 0 where
  subscribes : Bytes → ℕ → Call
  unsubscribes : Bytes → Option ℕ → Call

run_call : Owner → Call → Owner
unfolding freed_by
run_call o (subscribes name func) = record o {
  subs = js_on o.subs name func;
  duplicated = o.duplicated ++ func ∷ [];
}
run_call o (unsubscribes name func) = record o {
  subs = js_off o.subs name func;
  freed = o.freed ++ freed_by o.subs name func;
}

pub run_calls : Owner → List Call → Owner
unfolding run_call
run_calls o [] = o
run_calls o (c ∷ calls) = run_calls (run_call o c) calls

pub release : Owner → Owner
unfolding freed_at_end
release o = record o { subs = []; freed = o.freed ++ freed_at_end o.subs }

abbrev pub nothing : Owner
nothing = record { subs = []; duplicated = []; freed = [] }

abbrev pub same : ℕ → ℕ → ℕ
same a f = if f == a then 1 else 0

-- How often a function stands in the table.
abbrev pub held : ℕ → Subscribers → ℕ
held a [] = 0
held a ((key, funcs) ∷ subs) = tally (same a) funcs + held a subs

remove_first-first_match :
    (a f : ℕ) (funcs : List ℕ)
    → tally (same a) (remove_first f funcs) + tally (same a) (first_match f funcs)
      ≡ tally (same a) funcs
unfolding remove_first first_match
remove_first-first_match a f [] = refl
remove_first-first_match a f (g ∷ funcs) = ground (arith, remove_first-first_match a f funcs)

keep_unless_empty-held :
    (a : ℕ) (key : Bytes) (funcs : List ℕ) (subs : Subscribers)
    → held a (keep_unless_empty key funcs subs) ≡ tally (same a) funcs + held a subs
unfolding keep_unless_empty
keep_unless_empty-held a key [] subs = omega arith
keep_unless_empty-held a key (f ∷ funcs) subs = refl

js_on-held :
    (a : ℕ) (subs : Subscribers) (name : Bytes) (func : ℕ)
    → held a (js_on subs name func) ≡ held a subs + same a func
unfolding js_on
js_on-held a [] name func = omega arith
js_on-held a ((key, funcs) ∷ subs) name func =
    ground (arith, js_on-held a subs name func, tally-append (same a) funcs (func ∷ []))

js_off-held :
    (a : ℕ) (subs : Subscribers) (name : Bytes) (func : Option ℕ)
    → held a (js_off subs name func) + tally (same a) (freed_by subs name func) ≡ held a subs
unfolding js_off freed_by
js_off-held a [] name func = refl
js_off-held a ((key, funcs) ∷ subs) name none = ground (arith, js_off-held a subs name none)
js_off-held a ((key, funcs) ∷ subs) name (some f) = ground (
  arith,
  js_off-held a subs name (some f),
  remove_first-first_match a f funcs,
  keep_unless_empty-held a key (remove_first f funcs) subs,
)

freed_at_end-held : (a : ℕ) (subs : Subscribers) → tally (same a) (freed_at_end subs) ≡ held a subs
unfolding freed_at_end
freed_at_end-held a [] = refl
freed_at_end-held a ((key, funcs) ∷ subs) =
    omega (arith, tally-append (same a) funcs (freed_at_end subs), freed_at_end-held a subs)

abbrev Balanced : ℕ → Owner → Type 0
Balanced a o = tally (same a) o.duplicated ≡ tally (same a) o.freed + held a o.subs

run_call-Balanced : (a : ℕ) (o : Owner) (c : Call) → Balanced a o → Balanced a (run_call o c)
unfolding run_call
run_call-Balanced a o (subscribes name func) h =
    omega (arith, h, js_on-held a o.subs name func, tally-append (same a) o.duplicated (func ∷ []))
run_call-Balanced a o (unsubscribes name func) h = omega (
  arith,
  h,
  js_off-held a o.subs name func,
  tally-append (same a) o.freed (freed_by o.subs name func),
)

run_calls-Balanced :
    (a : ℕ) (o : Owner) (calls : List Call) → Balanced a o → Balanced a (run_calls o calls)
unfolding run_calls
run_calls-Balanced a o [] h = h
run_calls-Balanced a o (c ∷ calls) h =
    run_calls-Balanced a (run_call o c) calls (run_call-Balanced a o c h)

-- Whatever callbacks are subscribed and unsubscribed, under whatever names: each function was
-- duplicated as often as it was freed and still stands in the table, and after the shutdown as often
-- as it was freed.
pub callbacks_owned :
    (calls : List Call) (a : ℕ)
    → let o = run_calls nothing calls in
      (tally (same a) o.duplicated ≡ tally (same a) o.freed + held a o.subs)
      × (tally (same a) (release o).duplicated ≡ tally (same a) (release o).freed)
unfolding release
callbacks_owned calls a =
    let o : Owner = run_calls nothing calls in
    let h : Balanced a o = run_calls-Balanced a nothing calls refl in
    (
      h,
      omega (
        arith,
        h,
        tally-append (same a) o.freed (freed_at_end o.subs),
        freed_at_end-held a o.subs,
      ),
    )
