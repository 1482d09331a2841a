-- ===== src/Effect/Guards.antt =====
-- Triples of coroutines: what holds before, and after a value, after an exception, and where a
-- coroutine is cut short.
use mcp_gateway.Base.{◌≡◌, refl, Bool, true, false, if◌then◌else◌}
use mcp_gateway.Errors.{Exn}
use mcp_gateway.Effect.{Result, ok, raise, cut_off, Exec, pure, throw, lift, gets, catch, finally}
use mcp_gateway.Effect.{modify, caught, finish, continue, ◌>>=◌}

-- What holds of a result and the state that it leaves.
pub record Post (S A : Type 0) : Type 1 where
  pub value : A → S → Type 0
  pub exception : S → Type 0
  pub cut : S → Type 0

abbrev pub post : {S A : Type 0} → (A → S → Type 0) → (S → Type 0) → (S → Type 0) → Post S A
post q e d = record { value = q; exception = e; cut = d }

abbrev pub After : {S A : Type 0} → Post S A → Result A × S → Type 0
After q (ok a, s) = q.value a s
After q (raise e, s) = q.exception s
After q (cut_off, s) = q.cut s

pub record Guards {S A : Type 0} (P : S → Type 0) (m : Exec S A) (q : Post S A) : Type 0 where
  pub at : (s : S) → P s → After q (m s)

module _ {S A : Type 0} {E D : S → Type 0} {Q : A → S → Type 0} where
  caught-After :
      (E' : S → Type 0) (h : Exn → Exec S A) (r : Result A) (s : S)
      → ((e : Exn) → Guards E' (h e) (post Q E D))
      → After (post Q E' D) (r, s)
      → After (post Q E D) (caught h r s)
  caught-After E' h (ok a) s gh p = p
  caught-After E' h (raise e) s gh p = (gh e).at s p
  caught-After E' h cut_off s gh p = p

  module _ {P : S → Type 0} where
    pub Guards-pure : (a : A) → ((s : S) → P s → Q a s) → Guards P (pure a) (post Q E D)
    unfolding pure
    Guards-pure a h = record { at = h }

    pub Guards-throw : (e : Exn) → ((s : S) → P s → E s) → Guards P (throw e) (post Q E D)
    unfolding throw
    Guards-throw e h = record { at = h }

    pub Guards-gets : (f : S → A) → ((s : S) → P s → Q (f s) s) → Guards P (gets f) (post Q E D)
    unfolding gets
    Guards-gets f h = record { at = h }

    pub Guards-if :
        (b : Bool) (m n : Exec S A)
        → Guards P m (post Q E D)
        → Guards P n (post Q E D)
        → Guards P (if b then m else n) (post Q E D)
    Guards-if true m n gm gn = gm
    Guards-if false m n gm gn = gn

    pub Guards-catch :
        {E' : S → Type 0} (m : Exec S A) (h : Exn → Exec S A)
        → Guards P m (post Q E' D)
        → ((e : Exn) → Guards E' (h e) (post Q E D))
        → Guards P (catch m h) (post Q E D)
    unfolding catch
    Guards-catch {E'} m h gm gh = record {
      at = λ s p. let (r, s') = m s in caught-After E' h r s' gh (gm.at s p);
    }

    -- A known result: the second argument is asked of its value.
    pub Guards-lift :
        (r : Result A)
        → ((a : A) → r ≡ ok a → (s : S) → P s → Q a s)
        → ((s : S) → P s → E s)
        → ((s : S) → P s → D s)
        → Guards P (lift r) (post Q E D)
    unfolding lift
    Guards-lift (ok a) h e d = record { at = h a refl }
    Guards-lift (raise x) h e d = record { at = e }
    Guards-lift cut_off h e d = record { at = d }

finish-After :
    {S A : Type 0} (Q Q' : A → S → Type 0) (E E' D : S → Type 0) (f : S → S) (r : Result A) (s : S)
    → ((a : A) (s : S) → Q a s → Q' a (f s))
    → ((s : S) → E s → E' (f s))
    → After (post Q E D) (r, s)
    → After (post Q' E' D) (finish f r s)
finish-After Q Q' E E' D f (ok a) s fq fe p = fq a s p
finish-After Q Q' E E' D f (raise e) s fq fe p = fe s p
finish-After Q Q' E E' D f cut_off s fq fe p = p

pub Guards-finally :
    {S A : Type 0} {P E E' D : S → Type 0} {Q Q' : A → S → Type 0} (m : Exec S A) (f : S → S)
    → ((a : A) (s : S) → Q a s → Q' a (f s))
    → ((s : S) → E s → E' (f s))
    → Guards P m (post Q E D)
    → Guards P (finally m f) (post Q' E' D)
unfolding finally
Guards-finally {E = E} {E'} {D} {Q} {Q'} m f fq fe gm = record {
  at = λ s p. let (r, s') = m s in finish-After Q Q' E E' D f r s' fq fe (gm.at s p);
}

pub Guards-modify :
    {S : Type 0} {P E D : S → Type 0} {Q : Unit {0} → S → Type 0} (f : S → S)
    → ((s : S) → P s → Q tt (f s))
    → Guards P (modify f) (post Q E D)
unfolding modify
Guards-modify f h = record { at = h }

module _ {S A B : Type 0} {E D : S → Type 0} {R : B → S → Type 0} where
  continue-After :
      (Q : A → S → Type 0) (r : Result A) (s : S) (f : A → Exec S B)
      → ((a : A) → Guards (Q a) (f a) (post R E D))
      → After (post Q E D) (r, s)
      → After (post R E D) (continue r f s)
  continue-After Q (ok a) s f gf p = (gf a).at s p
  continue-After Q (raise e) s f gf p = p
  continue-After Q cut_off s f gf p = p

  pub Guards-bind :
      {P : S → Type 0} {Q : A → S → Type 0} (m : Exec S A) (f : A → Exec S B)
      → Guards P m (post Q E D)
      → ((a : A) → Guards (Q a) (f a) (post R E D))
      → Guards P (m >>= f) (post R E D)
  unfolding ◌>>=◌
  Guards-bind {Q = Q} m f gm gf = record {
    at = λ s p. let (r, s') = m s in continue-After Q r s' f gf (gm.at s p);
  }

weaken-After :
    {S A : Type 0} (Q Q' : A → S → Type 0) (E E' D : S → Type 0) (o : Result A × S)
    → ((a : A) (s : S) → Q a s → Q' a s)
    → ((s : S) → E s → E' s)
    → After (post Q E D) o
    → After (post Q' E' D) o
weaken-After Q Q' E E' D (ok a, s) q e h = q a s h
weaken-After Q Q' E E' D (raise x, s) q e h = e s h
weaken-After Q Q' E E' D (cut_off, s) q e h = h

-- Weaker before, stronger after.
pub Guards-weaken :
    {S A : Type 0} {P P' E E' D : S → Type 0} {Q Q' : A → S → Type 0} {m : Exec S A}
    → ((s : S) → P' s → P s)
    → ((a : A) (s : S) → Q a s → Q' a s)
    → ((s : S) → E s → E' s)
    → Guards P m (post Q E D)
    → Guards P' m (post Q' E' D)
Guards-weaken {E = E} {E'} {D} {Q} {Q'} {m} p q e g = record {
  at = λ s h. weaken-After Q Q' E E' D (m s) q e (g.at s (p s h));
}
