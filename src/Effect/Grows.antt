-- ===== src/Effect/Grows.antt =====
-- Bounds on how much coroutines add to a counter in their state.
use mcp_gateway.Base.{ℕ, ◌+◌, ◌≤◌, Bool, true, false, arith, if◌then◌else◌}
use mcp_gateway.Errors.{Exn}
use mcp_gateway.Effect.{Result, ok, raise, cut_off, Exec, pure, throw, lift, continue, ◌>>=◌}

-- A counter in the state grows by at most `k`.
pub record Grows {ℓ κ} {S : Type ℓ} {A : Type κ} (count : S → ℕ) (k : ℕ) (m : Exec S A)
    : Type ℓ where
  pub at : (s : S) → count (m s).1 ≤ count s + k

module _ {ℓ κ} {S : Type ℓ} {A : Type κ} {count : S → ℕ} where
  pub Grows-pure : (k : ℕ) (a : A) → Grows count k (pure a)
  unfolding pure
  Grows-pure k a = record { at = λ s. omega arith }

  pub Grows-throw : (k : ℕ) (e : Exn) → Grows {A = A} count k (throw e)
  unfolding throw
  Grows-throw k e = record { at = λ s. omega arith }

  pub Grows-lift : (k : ℕ) (r : Result A) → Grows count k (lift r)
  unfolding lift
  Grows-lift k r = record { at = λ s. omega arith }

  pub Grows-if :
      (k : ℕ) (b : Bool) (m n : Exec S A)
      → Grows count k m
      → Grows count k n
      → Grows count k (if b then m else n)
  Grows-if k true m n gm gn = gm
  Grows-if k false m n gm gn = gn

module _ {ℓ κ μ} {S : Type ℓ} {A : Type κ} {B : Type μ} {count : S → ℕ} where
  continue-Grows :
      (k : ℕ) (r : Result A) (f : A → Exec S B)
      → ((a : A) → Grows count k (f a))
      → Grows count k (continue r f)
  continue-Grows k (ok a) f gf = gf a
  continue-Grows k (raise e) f gf = record { at = λ s. omega arith }
  continue-Grows k cut_off f gf = record { at = λ s. omega arith }

  -- The first part leaves the counter.
  pub Grows-bind :
      (k : ℕ) (m : Exec S A) (f : A → Exec S B)
      → Grows count 0 m
      → ((a : A) → Grows count k (f a))
      → Grows count k (m >>= f)
  unfolding ◌>>=◌
  Grows-bind k m f gm gf = record {
    at = λ s. let (r, s') = m s in omega (arith, gm.at s, (continue-Grows k r f gf).at s');
  }

pub ruleset grows_rules = (Grows-pure, Grows-throw, Grows-lift, Grows-if, Grows-bind)
