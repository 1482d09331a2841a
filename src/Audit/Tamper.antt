-- ===== src/Audit/Tamper.antt =====
-- What gateway/audit/verify.py detects: with a hash of the end of the log kept elsewhere, any change
-- of the records before it.
use mathlib.Core.Option.{some-injective}
use mcp_gateway.Base.{ℕ, suc, String, ◌≡◌, ◌≢◌, refl, sym, ◌∙◌, ap, ◌⊎◌, inl, inr}
use mcp_gateway.Base.{false, Option, none, some, List, [], ◌∷◌, length, arith, All}
use mcp_gateway.Base.{◌==◌, string_eq, Bool-cases, ==→eq}
use mcp_gateway.Base.Json.{
  Json, null, bool, number, str, arr, obj, Fields, json_get, json_del, as_str,
}
use mcp_gateway.Base.Json.{json_get-json_del}
use mcp_gateway.Audit.Log.{Format, genesis, record_hash}
use mcp_gateway.Audit.Verify.{Verdict, intact, faulty, expected_hash}
use mcp_gateway.Audit.Verify.{check_line, verify_from, verify}

-- The signed text of a line: its object without the hash, in canonical form.
abbrev pub signed_text : Format → String → Option String
signed_text f l = elim (f.parse l) [
  | some (obj fs) ↦ some (f.canonical (json_del "record_hash" fs))
  | _ ↦ none
]

-- Two files with the same signed texts, line by line.
abbrev pub SameRecords : Format → List String → List String → Type 0
SameRecords f [] [] = Unit
SameRecords f (x ∷ xs) (y ∷ ys) = (signed_text f x ≡ signed_text f y) × SameRecords f xs ys
SameRecords f [] (y ∷ ys) = ⊥
SameRecords f (x ∷ xs) [] = ⊥

-- Two texts with one digest.
abbrev pub Collision : Format → Type 0
Collision f = (a : String) × (b : String) × (a ≢ b) × (f.digest a ≡ f.digest b)

-- A canonical text determines the object's link.
abbrev pub DeterminesLink : Format → Type 0
DeterminesLink f =
    (a b : Fields)
    → f.canonical a ≡ f.canonical b
    → as_str (json_get "previous_hash" a) ≡ as_str (json_get "previous_hash" b)

abbrev pub NoBlank : Format → List String → Type 0
NoBlank f = All (λ (l : String). f.is_blank l ≡ false)

module _ (f : Format) where
  -- What a line that passes the checks holds.
  record Passes (previous line hash : String) : Type 0 where
    payload : Fields
    parsed : f.parse line ≡ some (obj payload)
    linked : as_str (json_get "previous_hash" payload) ≡ some previous
    hashed : hash ≡ expected_hash f payload

  object-Passes :
      (previous line hash : String) (n : ℕ) (fs : Fields)
      → f.parse line ≡ some (obj fs)
      → check_line f previous n (some (obj fs)) ≡ intact hash
      → Passes previous line hash
  unfolding check_line
  object-Passes previous line hash n fs e h = record {
    payload = fs;
    parsed = e;
    linked = ground arith;
    hashed = ground arith;
  }

  line-Passes :
      (previous line hash : String) (n : ℕ) (o : Option Json)
      → f.parse line ≡ o
      → check_line f previous n o ≡ intact hash
      → Passes previous line hash
  unfolding check_line
  line-Passes previous line hash n (some (obj fs)) e h = object-Passes previous line hash n fs e h
  line-Passes previous line hash n none e h = absurd (cc h)
  line-Passes previous line hash n (some null) e h = absurd (cc h)
  line-Passes previous line hash n (some (bool b)) e h = absurd (cc h)
  line-Passes previous line hash n (some (number t)) e h = absurd (cc h)
  line-Passes previous line hash n (some (str t)) e h = absurd (cc h)
  line-Passes previous line hash n (some (arr t)) e h = absurd (cc h)

  verify_from-cons :
      (previous line final : String) (n : ℕ) (ls : List String)
      → f.is_blank line ≡ false
      → verify_from f previous n (line ∷ ls) ≡ intact final
      → (hash : String) × Passes previous line hash × (verify_from f hash (suc n) ls ≡ intact final)
  unfolding verify_from
  verify_from-cons previous line final n ls text h =
      go (check_line f previous n (f.parse line)) refl
    where
      go :
          (v : Verdict)
          → check_line f previous n (f.parse line) ≡ v
          → (hash : String) × Passes previous line hash
            × (verify_from f hash (suc n) ls ≡ intact final)
      go (intact hash) e =
          (hash, line-Passes previous line hash n (f.parse line) refl e, ground (arith, text, e, h))
      go (faulty x) e = absurd (ground (arith, text, e, h))

  -- Equal digests of two texts are those of one text, or a collision.
  one_text : (a b : String) → f.digest a ≡ f.digest b → (a ≡ b) ⊎ Collision f
  one_text a b h = elim (Bool-cases (a == b)) [
    | inl e ↦ inl (==→eq a b e)
    | inr e ↦ inr (a, b, (λ p. ground arith), h)
  ]

  signed_text-Passes :
      (previous line hash : String) (p : Passes previous line hash)
      → signed_text f line ≡ some (f.canonical (json_del "record_hash" p.payload))
  signed_text-Passes previous line hash p = rw (p.parsed, signed_text)

  link_del :
      (fs : Fields)
      → json_get "previous_hash" (json_del "record_hash" fs) ≡ json_get "previous_hash" fs
  unfolding string_eq
  link_del fs = json_get-json_del "record_hash" "previous_hash" fs refl

  module _ (links : DeterminesLink f) where
    same_line :
        (p q x y g h : String)
        → g ≡ h
        → Passes p x g
        → Passes q y h
        → ((p ≡ q) × (signed_text f x ≡ signed_text f y)) ⊎ Collision f
    unfolding record_hash
    same_line p q x y g h e a b =
        elim (one_text (f.canonical (json_del "record_hash" a.payload))
          (f.canonical (json_del "record_hash" b.payload)) (sym a.hashed ∙ (e ∙ b.hashed))) [
            | inr c ↦ inr c
            | inl t ↦ inl (
              some-injective p q (
                  sym a.linked
                  ∙ (ap as_str (sym (link_del a.payload))
                      ∙ (links _ _ t ∙ (ap as_str (link_del b.payload) ∙ b.linked)))),
              signed_text-Passes p x g a ∙ (ap some t ∙ sym (signed_text-Passes q y h b)),
            )
          ]

    same_records :
        (p q h : String) (n m : ℕ) (xs ys : List String)
        → NoBlank f xs
        → NoBlank f ys
        → length xs ≡ length ys
        → verify_from f p n xs ≡ intact h
        → verify_from f q m ys ≡ intact h
        → ((p ≡ q) × SameRecords f xs ys) ⊎ Collision f
    same_records p q h n m [] [] bx by len vx vy = inl (ends, tt)
      where
        ends : p ≡ q
        ends = unfold verify_from in ground arith
    same_records p q h n m [] (y ∷ ys) bx by len vx vy = absurd (omega arith)
    same_records p q h n m (x ∷ xs) [] bx by len vx vy = absurd (omega arith)
    same_records p q h n m (x ∷ xs) (y ∷ ys) bx by len vx vy =
        let (gx, px, rx) = verify_from-cons p x h n xs bx.0 vx in
        let (gy, py, ry) = verify_from-cons q y h m ys by.0 vy in
        elim (same_records gx gy h (suc n) (suc m) xs ys bx.1 by.1 (omega (arith, len)) rx ry) [
          | inr c ↦ inr c
          | inl (e, rest) ↦ elim (same_line p q x y gx gy e px py) [
            | inr c ↦ inr c
            | inl (l, t) ↦ inl (l, (t, rest))
          ]
        ]

    -- Two files that verify, with as many records and the same final hash, have the same signed
    -- text in every line, or exhibit two texts with one digest. Blank lines are left out.
    pub verify-SameRecords :
        (h : String) (xs ys : List String)
        → NoBlank f xs
        → NoBlank f ys
        → length xs ≡ length ys
        → verify f xs ≡ intact h
        → verify f ys ≡ intact h
        → SameRecords f xs ys ⊎ Collision f
    unfolding verify
    verify-SameRecords h xs ys bx by len vx vy =
        elim (same_records genesis genesis h 1 1 xs ys bx by len vx vy) [
          | inl (l, same) ↦ inl same
          | inr c ↦ inr c
        ]
