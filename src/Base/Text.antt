-- ===== src/Base/Text.antt =====
-- Python's operations on text that the program calls, by code points.
use Prim.Native.Char.{Char, code}
use Prim.Native.Nat.{ℕ, ◌+◌}
use Prim.Native.String.{String, ◌++◌ as ◌<>◌}
use mathlib.Core.Bool.{Bool, true, false, ◌&&◌, ◌||◌}
use mathlib.Core.List.{List, [], ◌∷◌}
use mcp_gateway.Base.Tests.{leb, if◌then◌else◌}
use mcp_gateway.Base.Equality.{◌==◌, nat_eq, string_eq}

-- `lower()` of an ASCII character.
abbrev pub lower_code : ℕ → ℕ
lower_code c = if leb b'A' c && leb c b'Z' then c + 32 else c

-- `s.lower() == t.lower()`: of ASCII texts, and of Latin-1 ones where one of the two is ASCII.
abbrev pub same_lower : String → String → Bool
same_lower String.[] String.[] = true
same_lower String.[] (String.◌∷◌ d t) = false
same_lower (String.◌∷◌ c s) String.[] = false
same_lower (String.◌∷◌ c s) (String.◌∷◌ d t) =
    lower_code (code c) == lower_code (code d) && same_lower s t

-- `s.partition(" ")`, without the separator
abbrev pub partition_space : String → String × String
partition_space String.[] = ("", "")
partition_space (String.◌∷◌ c s) =
    let rest = partition_space s in
    if code c == b' ' then ("", s) else (String.◌∷◌ c rest.0, rest.1)

-- `c.isspace()` and the characters at which `splitlines` breaks.
abbrev is_space : ℕ → Bool
is_space c =
    leb 9 c && leb c 13
    || leb 28 c && leb c 32
    || c == 133
    || c == 160
    || c == 5760
    || leb 8192 c && leb c 8202
    || c == 8232
    || c == 8233
    || c == 8239
    || c == 8287
    || c == 12288

abbrev pub is_break : ℕ → Bool
is_break c = leb 10 c && leb c 13 || leb 28 c && leb c 30 || c == 133 || c == 8232 || c == 8233

unfoldable pub strip_left : String → String
strip_left String.[] = ""
strip_left (String.◌∷◌ c s) = if is_space (code c) then strip_left s else String.◌∷◌ c s

unfoldable pub strip_right : String → String
strip_right String.[] = ""
strip_right (String.◌∷◌ c s) =
    let rest = strip_right s in if is_space (code c) && rest == "" then "" else String.◌∷◌ c rest

-- `s.strip()`
unfoldable pub strip : String → String
unfolding strip_left strip_right
strip s = strip_right (strip_left s)

abbrev pub before_line : Char → List String → List String
before_line c [] = String.◌∷◌ c "" ∷ []
before_line c (line ∷ lines) = String.◌∷◌ c line ∷ lines

-- `s.splitlines()`
unfoldable pub split_lines : String → List String
split_lines String.[] = []
split_lines (String.◌∷◌ c String.[]) = if is_break (code c) then "" ∷ [] else String.◌∷◌ c "" ∷ []
split_lines (String.◌∷◌ c (String.◌∷◌ d s)) =
    let rest = split_lines (String.◌∷◌ d s) in
    if code c == 13 && code d == 10
    then rest
    else if is_break (code c)
    then "" ∷ rest
    else before_line c rest

-- `s.startswith(prefix)`
unfoldable pub starts_with : String → String → Bool
starts_with s String.[] = true
starts_with String.[] (String.◌∷◌ d t) = false
starts_with (String.◌∷◌ c s) (String.◌∷◌ d t) = code c == code d && starts_with s t

-- `s.endswith(suffix)`
unfoldable pub ends_with : String → String → Bool
ends_with String.[] suffix = suffix == ""
ends_with (String.◌∷◌ c s) suffix = String.◌∷◌ c s == suffix || ends_with s suffix

-- `separator.join(lines)`
unfoldable pub join : String → List String → String
join separator [] = ""
join separator (line ∷ []) = line
join separator (line ∷ next ∷ lines) = line <> separator <> join separator (next ∷ lines)

-- `xs[1:-1]`
abbrev pub init {ℓ} : {A : Type ℓ} → List A → List A
init [] = []
init (x ∷ []) = []
init (x ∷ y ∷ xs) = x ∷ init (y ∷ xs)

abbrev pub inner {ℓ} : {A : Type ℓ} → List A → List A
inner [] = []
inner (x ∷ xs) = init xs
