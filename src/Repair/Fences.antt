-- ===== src/Repair/Fences.antt =====
-- What gateway/repair/advisor.py makes of a model's answer: text in a Markdown fence, and arguments.
use Prim.Native.Char.{Char, code}
use mcp_gateway.Base.{
  String, ◌≡◌, refl, sym, ◌∙◌, ap, Bool, true, false, [], ◌∷◌, arith, ◌==◌, string_eq, nat_eq, not,
  ==→eq, Bool-cases, inl, inr, ◌&&◌,
}
use mcp_gateway.Base.Text.{
  is_break, before_line, strip, strip_left, strip_right, split_lines, starts_with, ends_with, join,
}
use mcp_gateway.Repair.Advisor.{is_fenced, normalized}

abbrev pub is_line : String → Bool
is_line String.[] = true
is_line (String.◌∷◌ c s) = not (is_break (code c)) && is_line s

split-break :
    (c : Char) (s : String)
    → is_break (code c) ≡ true
    → (code c == 13) ≡ false
    → split_lines (String.◌∷◌ c s) ≡ "" ∷ split_lines s
unfolding split_lines
split-break c String.[] h n = ground (arith, h)
split-break c (String.◌∷◌ d s) h n = ground (arith, h, n)

not_return : (c : Char) → is_break (code c) ≡ false → (code c == 13) ≡ false
not_return c h = ground (arith, h)

split-char :
    (c : Char) (s : String)
    → is_break (code c) ≡ false
    → split_lines (String.◌∷◌ c s) ≡ before_line c (split_lines s)
unfolding split_lines
split-char c String.[] h = ground (arith, h)
split-char c (String.◌∷◌ d s) h = ground (arith, h, not_return c h)

-- One text after the other.
abbrev pub glue : String → String → String
glue String.[] t = t
glue (String.◌∷◌ c s) t = String.◌∷◌ c (glue s t)

split-line : (s : String) → is_line s ≡ true → split_lines (glue s "\n```") ≡ s ∷ "```" ∷ []
unfolding nat_eq split_lines
split-line String.[] h = refl
split-line (String.◌∷◌ c s) h =
    split-char c (glue s "\n```") (ground (arith, h))
    ∙ ap (before_line c) (split-line s (ground (arith, h)))

abbrev is_nil : String → Bool
is_nil String.[] = true
is_nil (String.◌∷◌ c s) = false

not_empty : (c : Char) (s : String) → (String.◌∷◌ c s == "") ≡ false
not_empty c s = elim (Bool-cases (String.◌∷◌ c s == "")) [
  | inl e ↦ absurd (cc (ap is_nil (==→eq (String.◌∷◌ c s) "" e)))
  | inr e ↦ e
]

strip_right-kept :
    (c : Char) (s : String)
    → strip_right s ≡ s
    → (s == "") ≡ false
    → strip_right (String.◌∷◌ c s) ≡ String.◌∷◌ c s
unfolding strip_right
strip_right-kept c s h n = ground (arith, h, n)

glue_not_empty : (s : String) → (glue s "\n```" == "") ≡ false
glue_not_empty String.[] = not_empty "\n" "```"
glue_not_empty (String.◌∷◌ c s) = not_empty c (glue s "\n```")

strip_right-fence : (s : String) → strip_right (glue s "\n```") ≡ glue s "\n```"
unfolding strip_right nat_eq string_eq
strip_right-fence String.[] = refl
strip_right-fence (String.◌∷◌ c s) =
    strip_right-kept c (glue s "\n```") (strip_right-fence s) (glue_not_empty s)

ends_with-fence : (s : String) → ends_with (glue s "\n```") "```" ≡ true
unfolding ends_with string_eq
ends_with-fence String.[] = refl
ends_with-fence (String.◌∷◌ c s) = ground (arith, ends_with-fence s)

-- A text in a fence, on a line of its own, with a label such as `json` after the opening fence.
abbrev pub fence : String → String → String
fence label text = glue "```" (glue label (glue "\n" (glue text "\n```")))

abbrev opened : String → String → String
opened label text = glue "```" (glue label (glue "\n" text))

glue_assoc : (s : String) (t u : String) → glue s (glue t u) ≡ glue (glue s t) u
glue_assoc String.[] t u = refl
glue_assoc (String.◌∷◌ c s) t u = ap (String.◌∷◌ c) (glue_assoc s t u)

fence-eq-opened : (label text : String) → fence label text ≡ glue (opened label text) "\n```"
fence-eq-opened label text = ap (glue "```") (glue_assoc label (glue "\n" text) "\n```")

strip-fence : (label text : String) → strip (fence label text) ≡ fence label text
unfolding strip strip_left nat_eq
strip-fence label text =
    ap strip_right (fence-eq-opened label text)
    ∙ strip_right-fence (opened label text)
    ∙ sym (fence-eq-opened label text)

fence-is_fenced : (label text : String) → is_fenced (fence label text) ≡ true
unfolding is_fenced starts_with nat_eq
fence-is_fenced label text =
    ap (λ t. ends_with t "```") (fence-eq-opened label text) ∙ ends_with-fence (opened label text)

split-first :
    (s rest : String)
    → is_line s ≡ true
    → split_lines (glue s (glue "\n" rest)) ≡ s ∷ split_lines rest
unfolding nat_eq
split-first String.[] rest h = split-break "\n" rest refl refl
split-first (String.◌∷◌ c s) rest h =
    split-char c (glue s (glue "\n" rest)) (ground (arith, h))
    ∙ ap (before_line c) (split-first s rest (ground (arith, h)))

split-fence :
    (label text : String)
    → is_line label ≡ true
    → is_line text ≡ true
    → split_lines (fence label text) ≡ glue "```" label ∷ text ∷ "```" ∷ []
unfolding nat_eq
split-fence label text l h =
    split-first (glue "```" label) (glue text "\n```") l
    ∙ ap (λ ls. glue "```" label ∷ ls) (split-line text h)

-- A model's answer that is one line in a Markdown fence of backquotes, with any label on the line of
-- the opening fence or none, comes to that line, if the line has no space at its ends.
pub normalized-fence :
    (label text : String)
    → is_line label ≡ true
    → is_line text ≡ true
    → strip text ≡ text
    → normalized (fence label text) ≡ text
unfolding normalized join
normalized-fence label text b l s =
    ground
      (arith, strip-fence label text, fence-is_fenced label text, split-fence label text b l, s)
