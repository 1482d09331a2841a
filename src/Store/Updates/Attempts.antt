-- ===== src/Store/Updates/Attempts.antt =====
-- Which attempt `finish_attempt` completes.
use mcp_gateway.Base.{ℕ, String, ◌≡◌, ◌≢◌, refl, ap, Option, none, some, List, [], ◌∷◌, ◌++◌, All}
use mcp_gateway.Base.{arith, Option-cases, inl, inr, nat_eq}
use mcp_gateway.Models.{AttemptRecord}
use mcp_gateway.Store.Updates.{complete, complete_last}

module _ (now n : ℕ) (outcome : String) (error : Option String) where
  -- `b` has the number `n`, no later attempt has it, and `new` is `old` with `b` completed.
  pub record CompletesLast (old new : List AttemptRecord) : Type 0 where
    pub before : List AttemptRecord
    pub this : AttemptRecord
    pub after : List AttemptRecord
    pub old_list : old ≡ before ++ this ∷ after
    pub new_list : new ≡ before ++ complete now outcome error this ∷ after
    pub number : this.attempt ≡ n
    pub last : All (λ (b : AttemptRecord). b.attempt ≢ n) after

  pub complete_last-none :
      (xs : List AttemptRecord)
      → complete_last now n outcome error xs ≡ none
      → All (λ (b : AttemptRecord). b.attempt ≢ n) xs
  unfolding complete_last
  complete_last-none [] h = tt
  complete_last-none (a ∷ rest) h = elim (Option-cases (complete_last now n outcome error rest)) [
    | inl e ↦ (ground arith, complete_last-none rest e)
    | inr e ↦ absurd (ground (arith, e.1))
  ]

  step_over :
      (a : AttemptRecord) {old new : List AttemptRecord}
      → CompletesLast old new
      → CompletesLast (a ∷ old) (a ∷ new)
  step_over a c = record {
    before = a ∷ c.before;
    this = c.this;
    after = c.after;
    old_list = ap (λ l. a ∷ l) c.old_list;
    new_list = ap (λ l. a ∷ l) c.new_list;
    number = c.number;
    last = c.last;
  }

  -- The attempt that is completed is the last one with the given number: it is found, and the others,
  -- before and after it, are left as they were.
  pub complete_last-CompletesLast :
      (xs ys : List AttemptRecord)
      → complete_last now n outcome error xs ≡ some ys
      → CompletesLast xs ys
  unfolding complete_last
  complete_last-CompletesLast [] ys h = absurd (cc h)
  complete_last-CompletesLast (a ∷ rest) ys h =
      elim (Option-cases (complete_last now n outcome error rest)) [
        | inl e ↦ record {
          before = [];
          this = a;
          after = rest;
          old_list = refl;
          new_list = ground (arith, e);
          number = ground (arith, e);
          last = complete_last-none rest e;
        }
        | inr (zs, e) ↦ rw (list_of zs e) (step_over a (complete_last-CompletesLast rest zs e))
      ]
    where
      list_of :
          (zs : List AttemptRecord) → complete_last now n outcome error rest ≡ some zs → ys ≡ a ∷ zs
      list_of zs e = ground (arith, e)
