-- ===== src/Effect/Answers.antt =====
-- Coroutines that end, and raise nothing but what is foreseen.
use mcp_gateway.Base.{◌≡◌, refl, Bool, true, false, if◌then◌else◌}
use mcp_gateway.Errors.{Exn, GatewayError, gateway, other}
use mcp_gateway.Effect.{
  Result, ok, raise, cut_off, Exec, pure, throw, lift, gets, reads, catch, finally,
}
use mcp_gateway.Effect.{modify, caught, finish, continue, on_gateway, ◌>>=◌, is_cut_off}
use mcp_gateway.Effect.Ends.{Ends}

-- A value, or an exception of which `E` holds.
abbrev pub Foreseen {ℓ} : {A : Type ℓ} → (Exn → Type 0) → Result A → Type 0
Foreseen E (ok a) = Unit
Foreseen E (raise e) = E e
Foreseen E cut_off = ⊥

abbrev pub AnyError : Exn → Type 0
AnyError e = Unit

abbrev pub NoError : Exn → Type 0
NoError e = ⊥

pub record Answers {S A : Type 0} (E : Exn → Type 0) (m : Exec S A) : Type 0 where
  pub at : (s : S) → Foreseen E (m s).0

pub foreseen_ended : {A : Type 0} (r : Result A) → is_cut_off r ≡ false → Foreseen AnyError r
foreseen_ended (ok a) h = tt
foreseen_ended (raise e) h = tt
foreseen_ended cut_off h = absurd (cc h)

ended_foreseen : {A : Type 0} (r : Result A) → Foreseen AnyError r → is_cut_off r ≡ false
ended_foreseen (ok a) h = refl
ended_foreseen (raise e) h = refl
ended_foreseen cut_off h = absurd h

module _ {S A : Type 0} where
  pub Answers-Ends : (m : Exec S A) → Ends m → Answers AnyError m
  Answers-Ends m h = record { at = λ s. foreseen_ended (m s).0 (h.at s) }

  pub Ends-Answers : (m : Exec S A) → Answers AnyError m → Ends m
  Ends-Answers m h = record { at = λ s. ended_foreseen (m s).0 (h.at s) }

  module _ {E : Exn → Type 0} where
    pub Answers-pure : (a : A) → Answers {S = S} E (pure a)
    unfolding pure
    Answers-pure a = record { at = λ s. tt }

    pub Answers-throw : (e : Exn) → E e → Answers {S = S} {A = A} E (throw e)
    unfolding throw
    Answers-throw e h = record { at = λ s. h }

    pub Answers-lift : (r : Result A) → Foreseen E r → Answers {S = S} E (lift r)
    unfolding lift
    Answers-lift r h = record { at = λ s. h }

    pub Answers-gets : (f : S → A) → Answers E (gets f)
    unfolding gets
    Answers-gets f = record { at = λ s. tt }

    pub Answers-reads : (f : S → A × S) → Answers E (reads f)
    unfolding reads
    Answers-reads f = record { at = λ s. tt }

    pub Answers-if :
        (b : Bool) (m n : Exec S A) → Answers E m → Answers E n → Answers E (if b then m else n)
    Answers-if true m n am an = am
    Answers-if false m n am an = an

    caught-Answers :
        (E' : Exn → Type 0) (h : Exn → Exec S A) (r : Result A)
        → ((e : Exn) → E' e → Answers E (h e))
        → Foreseen E' r
        → Answers E (caught h r)
    caught-Answers E' h (ok a) ah f = record { at = λ s. tt }
    caught-Answers E' h (raise e) ah f = ah e f
    caught-Answers E' h cut_off ah f = absurd f

    -- A handler is asked about the exceptions that the block may raise.
    pub Answers-catch :
        (E' : Exn → Type 0) (m : Exec S A) (h : Exn → Exec S A)
        → Answers E' m
        → ((e : Exn) → E' e → Answers E (h e))
        → Answers E (catch m h)
    unfolding catch
    Answers-catch E' m h am ah = record {
      at = λ s. let (r, s') = m s in (caught-Answers E' h r ah (am.at s)).at s';
    }

    finish-Answers : (f : S → S) (r : Result A) → Foreseen E r → Answers E (finish f r)
    finish-Answers f (ok a) h = record { at = λ s. h }
    finish-Answers f (raise e) h = record { at = λ s. h }
    finish-Answers f cut_off h = absurd h

    pub Answers-finally : (m : Exec S A) (f : S → S) → Answers E m → Answers E (finally m f)
    unfolding finally
    Answers-finally m f am = record {
      at = λ s. let (r, s') = m s in (finish-Answers f r (am.at s)).at s';
    }

pub Answers-modify : {S : Type 0} {E : Exn → Type 0} (f : S → S) → Answers E (modify f)
unfolding modify
Answers-modify f = record { at = λ s. tt }

module _ {S A B : Type 0} {E : Exn → Type 0} where
  continue-Answers :
      (r : Result A) (f : A → Exec S B)
      → Foreseen E r
      → ((a : A) → Answers E (f a))
      → Answers E (continue r f)
  continue-Answers (ok a) f h af = af a
  continue-Answers (raise x) f h af = record { at = λ s. h }
  continue-Answers cut_off f h af = absurd h

  pub Answers-bind :
      (m : Exec S A) (f : A → Exec S B)
      → Answers E m
      → ((a : A) → Answers E (f a))
      → Answers E (m >>= f)
  unfolding ◌>>=◌
  Answers-bind m f am af = record {
    at = λ s. let (r, s') = m s in (continue-Answers r f (am.at s) af).at s';
  }

wider :
    {A : Type 0} (E E' : Exn → Type 0)
    → ((e : Exn) → E e → E' e)
    → (r : Result A) → Foreseen E r
    → Foreseen E' r
wider E E' h (ok a) f = tt
wider E E' h (raise e) f = h e f
wider E E' h cut_off f = f

pub Answers-weaken :
    {S A : Type 0} {E E' : Exn → Type 0} {m : Exec S A}
    → ((e : Exn) → E e → E' e)
    → Answers E m
    → Answers E' m
Answers-weaken {E = E} {E'} {m} h am = record { at = λ s. wider E E' h (m s).0 (am.at s) }

-- The rules where any exception is foreseen.
module _ {S A : Type 0} where
  pub Answers-any : {E : Exn → Type 0} {m : Exec S A} → Answers E m → Answers AnyError m
  Answers-any am = Answers-weaken (λ e h. tt) am

  pub throw_any : (e : Exn) → Answers {S = S} {A = A} AnyError (throw e)
  throw_any e = Answers-throw e tt

  pub catch_any :
      (m : Exec S A) (h : Exn → Exec S A)
      → Answers AnyError m
      → ((e : Exn) → Answers AnyError (h e))
      → Answers AnyError (catch m h)
  catch_any m h am ah = Answers-catch AnyError m h am λ e u. ah e

  pub gateway_any :
      (h : GatewayError → Exec S A) (e : Exn)
      → ((g : GatewayError) → Answers AnyError (h g))
      → Answers AnyError (on_gateway h e)
  gateway_any h (gateway g) ah = ah g
  gateway_any h (other m) ah = throw_any (other m)

pub ruleset any_rules = (throw_any, catch_any, gateway_any)

pub ruleset answers_rules = (
  Answers-pure, Answers-gets, Answers-reads, Answers-if, Answers-modify, Answers-bind,
  Answers-finally,
)
