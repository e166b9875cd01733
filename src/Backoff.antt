-- ===== src/Backoff.antt =====
-- github.com/cenkalti/backoff: what the repository relies on of its `Retry`.
use go_base.Base.{ℕ, zero, suc, ◌≡◌, Option, none}

module _ {S E : Type 0} where
  -- The state and the error after the attempts 0 to n of an operation.
  abbrev pub attempts : ℕ → (ℕ → S → S × Option E) → S → S × Option E
  attempts zero op s = op 0 s
  attempts (suc n) op s = op (suc n) (attempts n op s).0

-- `Retry` makes some attempts and stops at the first that returns no error. What it returns is an
-- error if the last attempt returned one.
pub record Retry (S E : Type 0) : Type 0 where
  pub run : (ℕ → S → S × Option E) → S → S × Option E
  pub stops : (op : ℕ → S → S × Option E) (s s' : S) → op 0 s ≡ (s', none) → run op s ≡ (s', none)
  pub runs :
      (op : ℕ → S → S × Option E) (s : S)
      → (n : ℕ) × ((run op s).0 ≡ (attempts n op s).0)
        × ((run op s).1 ≡ none → (attempts n op s).1 ≡ none)
