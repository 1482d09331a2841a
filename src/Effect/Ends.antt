-- ===== src/Effect/Ends.antt =====
-- Coroutines that end: they return or raise, whatever the state, and are never cut short.
use mcp_gateway.Base.{◌≡◌, refl, Bool, true, false, if◌then◌else◌}
use mcp_gateway.Errors.{Exn}
use mcp_gateway.Effect.{Result, ok, raise, cut_off, Exec, pure, throw, reads, modify}
use mcp_gateway.Effect.{continue, ◌>>=◌, is_cut_off}

pub record Ends {ℓ κ} {S : Type ℓ} {A : Type κ} (m : Exec S A) : Type ℓ where
  pub at : (s : S) → is_cut_off (m s).0 ≡ false

module _ {ℓ κ} {S : Type ℓ} {A : Type κ} where
  pub Ends-pure : (a : A) → Ends {S = S} (pure a)
  unfolding pure
  Ends-pure a = record { at = λ s. refl }

  pub Ends-throw : (e : Exn) → Ends {S = S} {A = A} (throw e)
  unfolding throw
  Ends-throw e = record { at = λ s. refl }

  pub Ends-reads : (f : S → A × S) → Ends (reads f)
  unfolding reads
  Ends-reads f = record { at = λ s. refl }

  pub Ends-if : (b : Bool) (m n : Exec S A) → Ends m → Ends n → Ends (if b then m else n)
  Ends-if true m n em en = em
  Ends-if false m n em en = en

pub Ends-modify {ℓ} : {S : Type ℓ} (f : S → S) → Ends (modify f)
unfolding modify
Ends-modify f = record { at = λ s. refl }

module _ {ℓ κ μ} {S : Type ℓ} {A : Type κ} {B : Type μ} where
  continue-Ends :
      (r : Result A) (f : A → Exec S B)
      → is_cut_off r ≡ false
      → ((a : A) → Ends (f a))
      → Ends (continue r f)
  continue-Ends (ok a) f e ef = ef a
  continue-Ends (raise x) f e ef = record { at = λ s. refl }
  continue-Ends cut_off f e ef = record { at = λ s. e }

  pub Ends-bind :
      (m : Exec S A) (f : A → Exec S B) → Ends m → ((a : A) → Ends (f a)) → Ends (m >>= f)
  unfolding ◌>>=◌
  Ends-bind m f em ef = record {
    at = λ s. let (r, s') = m s in (continue-Ends r f (em.at s) ef).at s';
  }

pub ruleset ends_rules = (Ends-pure, Ends-throw, Ends-reads, Ends-if, Ends-modify, Ends-bind)
