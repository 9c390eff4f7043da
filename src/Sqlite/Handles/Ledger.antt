-- ===== src/Sqlite/Handles/Ledger.antt =====
-- The openings and closings of databases by sqlite/src/module.cpp.
use koya_plugins.Base.{
  ℕ, ◌+◌, ◌%◌, ◌^◌, ◌<◌, ◌≤◌, ◌≡◌, refl, subst, Bool, true, false, Option, none, some, List, [],
  ◌∷◌, arith, Table, find, erase, entries, entries-erase, length, tally, tally-append, ◌==◌,
  if◌then◌else◌, Option-cases, inl, inr,
}
use koya_plugins.Sqlite.Handles.{
  Effect, opened, closed, refused, close_effect, Handles, Opening, succeeds, fails, set_handle,
  fail_open, keep_open, failure_effects, js_open, js_close, close_all, close_databases, Call, opens,
  closes, run_call, run_calls, no_handles,
}

abbrev one_if : Bool → ℕ
one_if b = if b then 1 else 0

-- Openings and closings of one database, and the entries that hold it.
abbrev pub openings : ℕ → Effect → ℕ
openings d (opened db) = one_if (db == d)
openings d _ = 0

abbrev pub closings : ℕ → Effect → ℕ
closings d (closed db) = one_if (db == d)
closings d _ = 0

-- Closings that SQLite refused, after which the plugin has no handle of the open database.
abbrev pub losses : ℕ → Effect → ℕ
losses d (refused db) = one_if (db == d)
losses d _ = 0

abbrev pub holding : ℕ → Table ℕ → ℕ
holding d [] = 0
holding d ((id, db) ∷ t) = one_if (db == d) + holding d t

holding-erase :
    (d k : ℕ) (t : Table ℕ) (db : ℕ)
    → find k t ≡ some db
    → holding d (erase k t) + one_if (db == d) ≡ holding d t
unfolding find erase
holding-erase d k [] db e = cc
holding-erase d k ((id, other) ∷ t) db e = ground (arith, holding-erase d k t db)

erase_absent : (k : ℕ) (t : Table ℕ) → entries k t ≡ 0 → erase k t ≡ t
unfolding erase
erase_absent k [] e = refl
erase_absent k ((id, db) ∷ t) e = ground (arith, erase_absent k t)

close_all-closings : (d : ℕ) (t : Table ℕ) → tally (closings d) (close_all t) ≡ holding d t
unfolding close_all
close_all-closings d [] = refl
close_all-closings d ((id, db) ∷ t) = omega (arith, close_all-closings d t)

close_all-openings : (d : ℕ) (t : Table ℕ) → tally (openings d) (close_all t) ≡ 0
unfolding close_all
close_all-openings d [] = refl
close_all-openings d ((id, db) ∷ t) = omega (arith, close_all-openings d t)

close_all-losses : (d : ℕ) (t : Table ℕ) → tally (losses d) (close_all t) ≡ 0
unfolding close_all
close_all-losses d [] = refl
close_all-losses d ((id, db) ∷ t) = omega (arith, close_all-losses d t)

-- After at most `n` calls.
record Inv (n : ℕ) (h : Handles) : Type 0 where
  pub counted : h.next_database_id ≤ 1 + n
  pub fresh : (a : ℕ) → h.next_database_id ≤ a → entries a h.databases ≡ 0
  pub balanced :
      (d : ℕ)
      → tally (openings d) h.log
        ≡ tally (closings d) h.log + tally (losses d) h.log + holding d h.databases

keep_open-Inv :
    (n : ℕ) (h : Handles) (db : ℕ) → Inv n h → 2 + n < 2 ^ 32 → Inv (1 + n) (keep_open h db).0
unfolding keep_open set_handle
keep_open-Inv n h db inv small = rw same (record {
  counted = omega (arith, inv.counted);
  fresh = λ a l. ground (arith, inv.counted, inv.fresh a);
  balanced = λ d. omega (
    arith,
    inv.balanced d,
    tally-append (openings d) h.log (opened db ∷ []),
    tally-append (closings d) h.log (opened db ∷ []),
    tally-append (losses d) h.log (opened db ∷ []),
  );
})
  where
    same : erase h.next_database_id h.databases ≡ h.databases
    same = erase_absent h.next_database_id h.databases (inv.fresh h.next_database_id (omega arith))

failure_effects_even :
    (d : ℕ) (db : Option ℕ)
    → (tally (openings d) (failure_effects db) ≡ tally (closings d) (failure_effects db))
      × (tally (losses d) (failure_effects db) ≡ 0)
failure_effects_even d none = (refl, refl)
failure_effects_even d (some db) = omega arith

fail_open-Inv : (n : ℕ) (h : Handles) (o : Opening) → Inv n h → Inv (1 + n) (fail_open h o).0
unfolding fail_open
fail_open-Inv n h o inv = record {
  counted = omega (arith, inv.counted);
  fresh = inv.fresh;
  balanced = λ d. omega (
    arith,
    inv.balanced d,
    tally-append (openings d) h.log (failure_effects o.db),
    tally-append (closings d) h.log (failure_effects o.db),
    tally-append (losses d) h.log (failure_effects o.db),
    failure_effects_even d o.db,
  );
}

close_effect-counts :
    (d db : ℕ) (busy : Bool)
    → (closings d (close_effect busy db) + losses d (close_effect busy db) ≡ one_if (db == d))
      × (openings d (close_effect busy db) ≡ 0)
close_effect-counts d db true = omega arith
close_effect-counts d db false = omega arith

js_close-Inv :
    (n : ℕ) (h : Handles) (id64 : ℕ) (busy : Bool) → Inv n h → Inv (1 + n) (js_close h id64 busy).0
unfolding js_close
js_close-Inv n h id64 busy inv = elim (Option-cases (find (id64 % 2 ^ 32) h.databases)) [
  | inl e ↦
      rw (e, js_close)
        (record {
          counted = omega (arith, inv.counted);
          fresh = inv.fresh;
          balanced = inv.balanced;
        })
  | inr (db, e) ↦
      rw (e, js_close)
        (record {
          counted = omega (arith, inv.counted);
          fresh =
              λ a l. omega (arith, inv.fresh a l, entries-erase (id64 % 2 ^ 32) a h.databases db e);
          balanced = λ d. omega (
            arith,
            inv.balanced d,
            holding-erase d (id64 % 2 ^ 32) h.databases db e,
            close_effect-counts d db busy,
            tally-append (openings d) h.log (close_effect busy db ∷ []),
            tally-append (closings d) h.log (close_effect busy db ∷ []),
            tally-append (losses d) h.log (close_effect busy db ∷ []),
          );
        })
]

run_call-Inv :
    (n : ℕ) (h : Handles) (c : Call) → Inv n h → 2 + n < 2 ^ 32 → Inv (1 + n) (run_call h c)
unfolding run_call js_open
run_call-Inv n h (opens (succeeds db)) inv small = keep_open-Inv n h db inv small
run_call-Inv n h (opens (fails o)) inv small = fail_open-Inv n h o inv
run_call-Inv n h (closes id64 busy) inv small = js_close-Inv n h id64 busy inv

run_calls-Inv :
    (n : ℕ) (h : Handles) (calls : List Call)
    → Inv n h
    → 1 + n + length calls < 2 ^ 32
    → Inv (n + length calls) (run_calls h calls)
unfolding run_calls
run_calls-Inv n h [] inv small = subst (λ m. Inv m h) (omega arith) inv
run_calls-Inv n h (c ∷ calls) inv small =
    subst (λ m. Inv m (run_calls (run_call h c) calls)) (omega arith)
      (run_calls-Inv (1 + n) (run_call h c) calls (run_call-Inv n h c inv (omega (arith, small)))
        (omega (arith, small)))

-- Whatever databases the script opens and closes, in fewer than 2^32 - 1 calls, by whatever numbers
-- and with whatever failures: a database that was opened is in the table, was closed, or was given to a
-- closing that SQLite refused because a statement was running, each time it was opened; and after the
-- shutdown it was closed or refused as often as it was opened.
pub databases_closed_once :
    (calls : List Call) (d : ℕ)
    → 1 + length calls < 2 ^ 32
    → let h = run_calls no_handles calls in
      (tally (openings d) h.log
        ≡ tally (closings d) h.log + tally (losses d) h.log + holding d h.databases)
      × (tally (openings d) (close_databases h).log
          ≡ tally (closings d) (close_databases h).log + tally (losses d) (close_databases h).log)
unfolding close_databases
databases_closed_once calls d small = (
  balanced,
  omega (
    arith,
    balanced,
    tally-append (openings d) h.log (close_all h.databases),
    tally-append (closings d) h.log (close_all h.databases),
    tally-append (losses d) h.log (close_all h.databases),
    close_all-losses d h.databases,
    close_all-closings d h.databases,
    close_all-openings d h.databases,
  ),
)
  where
    h : Handles
    h = run_calls no_handles calls

    balanced :
        tally (openings d) h.log
        ≡ tally (closings d) h.log + tally (losses d) h.log + holding d h.databases
    balanced =
        (run_calls-Inv 0 no_handles calls
            (record { counted = omega arith; fresh = λ a l. refl; balanced = λ d. refl })
            (omega (arith, small))).balanced
          d
