-- ===== src/Base/Tables.antt =====
-- std::unordered_map<uint32_t, V> and std::map<uint32_t, V>: entries in some order. `emplace` keeps
-- an entry that is there; `erase` by iterator takes out the entry that `find` found.
use Prim.Native.Nat.{ℕ, ◌+◌, ◌≤◌}
use mathlib.Core.Path.{◌≡◌, refl, subst}
use mathlib.Core.Bool.{true, false}
use mathlib.Core.Option.{Option, none, some}
use mathlib.Core.List.{List, [], ◌∷◌}
use native.Mathlib.Omega.{arith}
use koya_plugins.Base.Tests.{◌==◌, if◌then◌else◌, Option-cases, Bool-cases}
use mathlib.Core.Logic.{inl, inr}
use koya_plugins.Base.Lists.{length, tally, All}

abbrev pub Table {ℓ} : Type ℓ → Type ℓ
Table V = List (ℕ × V)

module _ {ℓ} {V : Type ℓ} where
  unfoldable pub find : ℕ → Table V → Option V
  find k [] = none
  find k ((j, v) ∷ t) = if j == k then some v else find k t

  unfoldable pub erase : ℕ → Table V → Table V
  erase k [] = []
  erase k ((j, v) ∷ t) = if j == k then t else (j, v) ∷ erase k t

  unfoldable pub emplace : ℕ → V → Table V → Table V
  unfolding find
  emplace k v t = elim (find k t) [ none ↦ (k, v) ∷ t | some _ ↦ t ]

  -- How many entries have the key `k`.
  abbrev pub entries : ℕ → Table V → ℕ
  entries k [] = 0
  entries k ((j, v) ∷ t) = (if j == k then 1 else 0) + entries k t

  pub find_absent : (k : ℕ) (t : Table V) → entries k t ≡ 0 → find k t ≡ none
  unfolding find
  find_absent k [] h = refl
  find_absent k ((j, v) ∷ t) h = ground (arith, find_absent k t)

  pub find_present : (k : ℕ) (t : Table V) → 1 ≤ entries k t → (v : V) × (find k t ≡ some v)
  unfolding find
  find_present k [] h = absurd (omega arith)
  find_present k ((j, v) ∷ t) h = elim (Option-cases (find k ((j, v) ∷ t))) [
    | inr found ↦ found
    | inl e ↦ absurd (ground (arith, find_present k t))
  ]

  pub find-entries : (k a : ℕ) (t : Table V) → find k t ≡ none → (k == a) ≡ true → entries a t ≡ 0
  unfolding find
  find-entries k a [] h e = refl
  find-entries k a ((j, v) ∷ t) h e = ground (arith, find-entries k a t)

  pub entries-erase :
      (k a : ℕ) (t : Table V) (v : V)
      → find k t ≡ some v
      → entries a (erase k t) + (if k == a then 1 else 0) ≡ entries a t
  unfolding find erase
  entries-erase k a [] v h = ground arith
  entries-erase k a ((j, w) ∷ t) v h = ground (arith, entries-erase k a t v)

  pub length-erase :
      (k : ℕ) (t : Table V) (v : V) → find k t ≡ some v → length (erase k t) + 1 ≡ length t
  unfolding find erase
  length-erase k [] v h = ground arith
  length-erase k ((j, w) ∷ t) v h = ground (arith, length-erase k t v)

  pub emplace_fresh : (k : ℕ) (v : V) (t : Table V) → entries k t ≡ 0 → emplace k v t ≡ (k, v) ∷ t
  unfolding emplace
  emplace_fresh k v t h = ground (arith, find_absent k t)

  -- table[key] = value
  unfoldable pub assign : ℕ → V → Table V → Table V
  assign k v t = (k, v) ∷ erase k t

  -- The entry that `find` finds is changed in its place.
  unfoldable pub replace : ℕ → V → Table V → Table V
  replace k v [] = []
  replace k v ((j, w) ∷ t) = if j == k then (j, v) ∷ t else (j, w) ∷ replace k v t

  pub erase_absent : (k : ℕ) (t : Table V) → entries k t ≡ 0 → erase k t ≡ t
  unfolding erase
  erase_absent k [] h = refl
  erase_absent k ((j, v) ∷ t) h = ground (arith, erase_absent k t)

  pub assign_fresh : (k : ℕ) (v : V) (t : Table V) → entries k t ≡ 0 → assign k v t ≡ (k, v) ∷ t
  unfolding assign
  assign_fresh k v t h = rw (erase_absent k t h) refl

  pub tally-erase :
      (w : ℕ × V → ℕ) (k : ℕ) (t : Table V) (v : V)
      → find k t ≡ some v
      → tally w (erase k t) + w (k, v) ≡ tally w t
  unfolding find erase
  tally-erase w k [] v h = cc
  tally-erase w k ((j, u) ∷ t) v h = ground (arith, tally-erase w k t v)

  pub tally-replace :
      (w : ℕ × V → ℕ) (k : ℕ) (t : Table V) (v u : V)
      → find k t ≡ some v
      → tally w (replace k u t) + w (k, v) ≡ tally w t + w (k, u)
  unfolding find replace
  tally-replace w k [] v u h = cc
  tally-replace w k ((j, x) ∷ t) v u h = ground (arith, tally-replace w k t v u)

  pub entries-replace : (k a : ℕ) (v : V) (t : Table V) → entries a (replace k v t) ≡ entries a t
  unfolding replace
  entries-replace k a v [] = refl
  entries-replace k a v ((j, u) ∷ t) = ground (arith, entries-replace k a v t)

  pub entries_found : (k : ℕ) (t : Table V) (v : V) → find k t ≡ some v → 1 ≤ entries k t
  unfolding find
  entries_found k [] v h = cc
  entries_found k ((j, u) ∷ t) v h = ground (arith, entries_found k t v)

  pub All-find {κ} :
      (P : ℕ × V → Type κ) (k : ℕ) (t : Table V) (v : V) → All P t → find k t ≡ some v → P (k, v)
  unfolding find
  All-find P k [] v a h = cc
  All-find P k ((j, u) ∷ t) v a h = elim (Bool-cases (j == k)) [
    | inl same ↦ subst P (let e : (j, u) ≡ (k, v) = ground arith in e) (a.0)
    | inr other ↦ All-find P k t v (a.1) (rw other at h)
  ]

  abbrev pub Differs : ℕ → ℕ × V → Type 0
  Differs k e = (e.0 == k) ≡ false

  All-Differs : (k : ℕ) (t : Table V) → entries k t ≡ 0 → All (Differs k) t
  All-Differs k [] h = tt
  All-Differs k ((j, v) ∷ t) h = (ground arith, All-Differs k t (omega arith))

  -- Where the key has one entry, erasing it leaves the others.
  pub erase-Differs : (k : ℕ) (t : Table V) → entries k t ≤ 1 → All (Differs k) (erase k t)
  unfolding erase
  erase-Differs k [] h = tt
  erase-Differs k ((j, v) ∷ t) h = elim (Bool-cases (j == k)) [
    | inl same ↦ rw (same, erase) (All-Differs k t (ground arith))
    | inr other ↦ rw (other, erase) (other, erase-Differs k t (ground arith))
  ]

  pub All-erase {κ} : (P : ℕ × V → Type κ) (k : ℕ) (t : Table V) → All P t → All P (erase k t)
  unfolding erase
  All-erase P k [] a = tt
  All-erase P k ((j, v) ∷ t) a = elim (Bool-cases (j == k)) [
    | inl same ↦ rw (same, erase) (a.1)
    | inr other ↦ rw (other, erase) (a.0, All-erase P k t (a.1))
  ]

  -- Without an entry of the key, a table with one at most has what it had.
  pub find-erase :
      (k a : ℕ) (t : Table V) (v : V)
      → entries k t ≤ 1
      → find a (erase k t) ≡ some v
      → find a t ≡ some v
  unfolding find erase
  find-erase k a [] v u h = h
  find-erase k a ((j, x) ∷ t) v u h = elim (Bool-cases (j == k)) [
    | inl same ↦ ground (arith, u, rw same at h, find_absent a t)
    | inr other ↦ ground (arith, find-erase k a t v, u, rw other at h)
  ]

  pub find-replace :
      (k : ℕ) (t : Table V) (v u : V) → find k t ≡ some v → find k (replace k u t) ≡ some u
  unfolding find replace
  find-replace k [] v u h = cc
  find-replace k ((j, x) ∷ t) v u h = elim (Bool-cases (j == k)) [
    | inl same ↦ rw (same, replace) (rw (same, find))
    | inr other ↦ rw (other, replace) (rw (other, find) (find-replace k t v u (rw other at h)))
  ]

  pub find-replace_other :
      (k a : ℕ) (t : Table V) (u : V) → (k == a) ≡ false → find a (replace k u t) ≡ find a t
  unfolding find replace
  find-replace_other k a [] u h = refl
  find-replace_other k a ((j, x) ∷ t) u h = elim (Bool-cases (j == k)) [
    | inl same ↦ rw (same, replace) (ground (arith, h))
    | inr other ↦
        rw (other, replace)
          (elim (Bool-cases (j == a)) [
            | inl here ↦ rw (here, find)
            | inr there ↦ rw (there, find) (find-replace_other k a t u h)
          ])
  ]
