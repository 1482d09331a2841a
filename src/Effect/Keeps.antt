-- ===== src/Effect/Keeps.antt =====
-- Invariants of coroutines, with one rule for each way to build one.
use mcp_gateway.Base.{Bool, true, false, if◌then◌else◌}
use mcp_gateway.Errors.{Exn}
use mcp_gateway.Effect.{
  Result, ok, raise, cut_off, Exec, pure, throw, lift, gets, reads, catch, finally,
}
use mcp_gateway.Effect.{modify, caught, finish, continue, ◌>>=◌}

-- `m` keeps `P`, whether it returns, raises or is cut short.
pub record Keeps {ℓ κ μ} {S : Type ℓ} {A : Type κ} (P : S → Type μ) (m : Exec S A)
    : Type (ℓ ⊔ μ) where
  pub at : (s : S) → P s → P (m s).1

module _ {ℓ κ μ} {S : Type ℓ} {A : Type κ} {P : S → Type μ} where
  pub Keeps-if :
      (test : Bool) (m n : Exec S A) → Keeps P m → Keeps P n → Keeps P (if test then m else n)
  Keeps-if false m n km kn = kn
  Keeps-if true m n km kn = km

  pub Keeps-reads : (f : S → A × S) → ((w : S) → P w → P (f w).1) → Keeps P (reads f)
  unfolding reads
  Keeps-reads f kept = record { at = kept }

  pub Keeps-throw : (e : Exn) → Keeps P (throw {A = A} e)
  unfolding throw
  Keeps-throw e = record { at = λ w p. p }

  pub Keeps-gets : (f : S → A) → Keeps P (gets f)
  unfolding gets
  Keeps-gets f = record { at = λ w p. p }

  pub Keeps-pure : (x : A) → Keeps P (pure x)
  unfolding pure
  Keeps-pure x = record { at = λ w p. p }

  pub Keeps-lift : (outcome : Result A) → Keeps P (lift outcome)
  unfolding lift
  Keeps-lift outcome = record { at = λ w p. p }

  caught-Keeps :
      (h : Exn → Exec S A) (r : Result A) → ((e : Exn) → Keeps P (h e)) → Keeps P (caught h r)
  caught-Keeps h (ok a) kh = record { at = λ s p. p }
  caught-Keeps h (raise e) kh = kh e
  caught-Keeps h cut_off kh = record { at = λ s p. p }

  pub Keeps-catch :
      (m : Exec S A) (h : Exn → Exec S A)
      → Keeps P m
      → ((e : Exn) → Keeps P (h e))
      → Keeps P (catch m h)
  unfolding catch
  Keeps-catch m h km kh = record {
    at = λ s p. let (r, s') = m s in (caught-Keeps h r kh).at s' (km.at s p);
  }

  finish-Keeps : (f : S → S) (r : Result A) → ((s : S) → P s → P (f s)) → Keeps P (finish f r)
  finish-Keeps f (ok a) kf = record { at = kf }
  finish-Keeps f (raise e) kf = record { at = kf }
  finish-Keeps f cut_off kf = record { at = λ s p. p }

  pub Keeps-finally :
      (m : Exec S A) (f : S → S) → Keeps P m → ((s : S) → P s → P (f s)) → Keeps P (finally m f)
  unfolding finally
  Keeps-finally m f km kf = record {
    at = λ s p. let (r, s') = m s in (finish-Keeps f r kf).at s' (km.at s p);
  }

module _ {ℓ κ} {S : Type ℓ} {P : S → Type κ} where
  pub Keeps-modify : (f : S → S) → ((s : S) → P s → P (f s)) → Keeps P (modify f)
  unfolding modify
  Keeps-modify f kf = record { at = kf }

module _ {ℓ κ μ ν} {S : Type ℓ} {A : Type κ} {B : Type μ} {P : S → Type ν} where
  continue-Keeps :
      (r : Result A) (f : A → Exec S B) → ((a : A) → Keeps P (f a)) → Keeps P (continue r f)
  continue-Keeps (ok a) f kf = kf a
  continue-Keeps (raise e) f kf = record { at = λ s p. p }
  continue-Keeps cut_off f kf = record { at = λ s p. p }

  -- A block keeps what its first statement and its rest keep.
  pub Keeps-bind :
      (first : Exec S A) (rest : A → Exec S B)
      → Keeps P first
      → ((x : A) → Keeps P (rest x))
      → Keeps P (first >>= rest)
  unfolding ◌>>=◌
  Keeps-bind first rest one others = record {
    at = λ w p.
        let (outcome, w') = first w in (continue-Keeps outcome rest others).at w' (one.at w p);
  }

pub ruleset keeps_rules =
    (Keeps-pure, Keeps-throw, Keeps-lift, Keeps-gets, Keeps-if, Keeps-catch, Keeps-bind)
