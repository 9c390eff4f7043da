-- ===== src/Hypr/Events/Backoff.antt =====
-- The waiting times of the event thread of hypr/src/module.cpp.
use koya_plugins.Base.{ℕ, zero, suc, ◌+◌, ◌*◌, ◌^◌, ◌≡◌, refl, ap, ◌∙◌, min, List, [], ◌∷◌, arith}
use native.Mathlib.Numerals.{towards_suc}
use koya_plugins.Hypr.Events.{
  backoff_start, backoff_max, Loop, Turn, Place, connecting, reading, ended, connects, lost,
  refused, turn, turns, turn_at,
}

pub refusals : ℕ → List Turn
refusals zero = []
refusals (suc n) = refused ∷ refusals n

double : (k : ℕ) → 2 ^ (k + 1) ≡ 2 ^ k * 2
double k = simp towards_suc (omega arith)

doubled : (k : ℕ) → min 5000 (min 5000 (200 * 2 ^ k) * 2) ≡ min 5000 (200 * 2 ^ (k + 1))
doubled k = omega (arith, double k)

refusals-backoff_from :
    (n k : ℕ) (l : Loop)
    → l.place ≡ connecting
    → l.backoff ≡ min backoff_max (backoff_start * 2 ^ k)
    → (turns l (refusals n)).backoff ≡ min backoff_max (backoff_start * 2 ^ (k + n))
unfolding turns refusals turn turn_at
refusals-backoff_from zero k l p e =
    e ∙ ap (λ m. min backoff_max (backoff_start * 2 ^ m)) (omega arith)
refusals-backoff_from (suc n) k l p e =
    refusals-backoff_from n (k + 1) (turn l refused) ((λ i. (turn_at (p i) l refused).place) ∙ p)
      ((λ i. (turn_at (p i) l refused).backoff) ∙ ap (λ b. min backoff_max (b * 2)) e ∙ doubled k)
    ∙ ap (λ m. min backoff_max (backoff_start * 2 ^ m)) (omega arith)

abbrev resumed : Loop → Loop
resumed l = record { place = connecting; backoff = backoff_start; queue = l.queue }

connected-lost_at :
    (place : Place) (l : Loop)
    → place ≡ connecting
    → turn (turn_at place l connects) lost ≡ resumed (turn (turn_at place l connects) lost)
unfolding turn turn_at
connected-lost_at connecting l p = refl
connected-lost_at reading l p = cc
connected-lost_at ended l p = cc

connected-lost :
    (l : Loop)
    → l.place ≡ connecting
    → turn (turn l connects) lost ≡ resumed (turn (turn l connects) lost)
unfolding turn
connected-lost l p = connected-lost_at l.place l p

-- From the head of the outer loop, whatever came before, a connection that is made and lost and then
-- `n` refusals in a row leave a waiting time of 200 milliseconds doubled `n` times, and 5000 at most.
pub refusals-backoff :
    (l : Loop) (n : ℕ)
    → l.place ≡ connecting
    → (turns (turn (turn l connects) lost) (refusals n)).backoff
      ≡ min backoff_max (backoff_start * 2 ^ n)
refusals-backoff l n p =
    refusals-backoff_from n 0 (turn (turn l connects) lost)
      (ap (λ (x : Loop). x.place) (connected-lost l p))
      (ap (λ (x : Loop). x.backoff) (connected-lost l p))
    ∙ ap (λ m. min backoff_max (backoff_start * 2 ^ m)) (omega arith)
