-- ===== src/Effect.antt =====
-- Python's control flow: a value, an exception that derives from `Exception`, or neither, where a loop
-- has not ended within its fuel or a `BaseException` such as `CancelledError` goes through; and
-- coroutines that read and write a state, which stays written when they raise.
pub mod Keeps
pub mod Ends
pub mod Grows
pub mod Guards
pub mod Answers
use mcp_gateway.Base.{Option, none, some, Bool, true, false, ◌≡◌, refl}
use mcp_gateway.Errors.{Exn, GatewayError, gateway, other}

pub data Result {ℓ} (A : Type ℓ) : Type ℓ where
  ok : A → Result A
  raise : Exn → Result A
  cut_off : Result A

abbrev pub Exec {ℓ κ} : Type ℓ → Type κ → Type (ℓ ⊔ κ)
Exec S A = S → Result A × S

module _ {ℓ κ} {S : Type ℓ} {A : Type κ} where
  -- A read of the state.
  unfoldable pub gets : (S → A) → Exec S A
  gets f w = (ok (f w), w)

  -- `raise e`
  unfoldable pub throw : Exn → Exec S A
  throw e w = (raise e, w)

  -- A function that may raise and that writes nothing.
  unfoldable pub lift : Result A → Exec S A
  lift outcome w = (outcome, w)

  -- `return x`
  unfoldable pub pure : A → Exec S A
  pure x w = (ok x, w)

  -- A call that reads the state's clock, random source or environment and cannot raise.
  unfoldable pub reads : (S → A × S) → Exec S A
  reads f s = let (a, s') = f s in (ok a, s')

  -- What runs after a coroutine has ended, on each way that it ends.
  abbrev pub caught : (Exn → Exec S A) → Result A → Exec S A
  caught h (ok a) s = (ok a, s)
  caught h (raise e) s = h e s
  caught h cut_off s = (cut_off, s)

  -- `try: m` with `except Exception as error: h error`
  unfoldable pub catch : Exec S A → (Exn → Exec S A) → Exec S A
  catch m h s = let (r, s') = m s in caught h r s'

  abbrev pub finish : (S → S) → Result A → Exec S A
  finish f cut_off s = (cut_off, s)
  finish f (ok a) s = (ok a, f s)
  finish f (raise e) s = (raise e, f s)

  -- `try: m` with a `finally:` that only writes the state. Where the block is cut off, what the
  -- `finally` writes is not followed.
  unfoldable pub finally : Exec S A → (S → S) → Exec S A
  finally m f s = let (r, s') = m s in finish f r s'

unfoldable pub modify {ℓ} : {S : Type ℓ} → (S → S) → Exec S (Unit {0})
modify f s = (ok tt, f s)

module _ {ℓ κ μ} {S : Type ℓ} {A : Type κ} {B : Type μ} where
  -- The rest of a block after its first statement has ended.
  abbrev pub continue : Result A → (A → Exec S B) → Exec S B
  continue cut_off rest w = (cut_off, w)
  continue (raise e) rest w = (raise e, w)
  continue (ok x) rest w = rest x w

  infixl 5 ◌>>=◌ ◌>>◌
  unfoldable pub ◌>>=◌ : Exec S A → (A → Exec S B) → Exec S B
  ◌>>=◌ first rest w = let (outcome, w') = first w in continue outcome rest w'

  abbrev pub ◌>>◌ : Exec S A → Exec S B → Exec S B
  first >> second = first >>= λ u. second

  pub pure-bind : (x : A) (rest : A → Exec S B) → (pure x >>= rest) ≡ rest x
  unfolding ◌>>=◌ pure
  pure-bind x rest = refl

-- `except GatewayError as error: h error`: any other exception goes on.
abbrev pub on_gateway {ℓ κ} : {S : Type ℓ} {A : Type κ} → (GatewayError → Exec S A) → Exn → Exec S A
on_gateway h (gateway e) = h e
on_gateway h (other m) = throw (other m)

-- The value, if there is one.
abbrev pub result {ℓ} : {A : Type ℓ} → Result A → Option A
result (ok a) = some a
result (raise e) = none
result cut_off = none

abbrev pub is_cut_off {ℓ} : {A : Type ℓ} → Result A → Bool
is_cut_off cut_off = true
is_cut_off (ok a) = false
is_cut_off (raise e) = false
