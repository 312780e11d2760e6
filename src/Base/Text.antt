-- ===== src/Base/Text.antt =====
-- What the program uses of Go's package strings, by code points.
use Prim.Native.Char.{Char, code}
use Prim.Native.String.{String}
use Prim.Native.Nat.{ℕ, ◌+◌}
use text.Mathlib.Text
use text.Mathlib.Text.{starts_with}
use mathlib.Core.Bool.{Bool, true, false, ◌&&◌, ◌||◌}
use mathlib.Core.Option.{Option, none, some}
use calendar_bridge.Base.Bools.{leb, eqb, if◌then◌else◌}

-- Before and after the first of these characters, without it: `strings.Cut` at one byte.
abbrev prepend : Char → Option (String × String) → Option (String × String)
prepend c none = none
prepend c (some (before, after)) = some (String.◌∷◌ c before, after)

unfoldable pub cut_at : ℕ → String → Option (String × String)
cut_at mark String.[] = none
cut_at mark (String.◌∷◌ c s) = if eqb (code c) mark then some ("", s) else prepend c (cut_at mark s)

-- An ASCII letter in lower case.
abbrev lower : ℕ → ℕ
lower c = if leb b'A' c && leb c b'Z' then c + 32 else c

-- `strings.EqualFold`, where one text has ASCII letters without k and s only: no other letter folds to
-- one of those.
unfoldable pub equal_fold : String → String → Bool
equal_fold String.[] String.[] = true
equal_fold String.[] (String.◌∷◌ d t) = false
equal_fold (String.◌∷◌ c s) String.[] = false
equal_fold (String.◌∷◌ c s) (String.◌∷◌ d t) =
    eqb (lower (code c)) (lower (code d)) && equal_fold s t

-- `unicode.IsSpace`
unfoldable pub is_space : ℕ → Bool
is_space c =
    (leb 9 c && leb c 13)
    || eqb c 32
    || eqb c 0x85
    || eqb c 0xA0
    || eqb c 0x1680
    || (leb 0x2000 c && leb c 0x200A)
    || eqb c 0x2028
    || eqb c 0x2029
    || eqb c 0x202F
    || eqb c 0x205F
    || eqb c 0x3000

unfoldable pub trim_left : String → String
trim_left String.[] = ""
trim_left (String.◌∷◌ c s) = if is_space (code c) then trim_left s else String.◌∷◌ c s

abbrev before_end : Char → String → String
before_end c String.[] = if is_space (code c) then "" else String.◌∷◌ c ""
before_end c (String.◌∷◌ d s) = String.◌∷◌ c (String.◌∷◌ d s)

unfoldable pub trim_right : String → String
trim_right String.[] = ""
trim_right (String.◌∷◌ c s) = before_end c (trim_right s)

-- `strings.TrimSpace`
unfoldable pub trim_space : String → String
unfolding trim_left trim_right is_space
trim_space s = trim_left (trim_right s)

unfoldable pub contains_char : ℕ → String → Bool
contains_char mark String.[] = false
contains_char mark (String.◌∷◌ c s) = eqb (code c) mark || contains_char mark s

abbrev prepend_to : Char → Option String → Option String
prepend_to c none = none
prepend_to c (some s) = some (String.◌∷◌ c s)

abbrev last_is : ℕ → Char → String → Option String → Option String
last_is mark c String.[] rest = if eqb (code c) mark then some "" else none
last_is mark c (String.◌∷◌ d s) rest = prepend_to c rest

-- The text before this last character.
unfoldable pub without_last : ℕ → String → Option String
without_last mark String.[] = none
without_last mark (String.◌∷◌ c s) = last_is mark c s (without_last mark s)

-- The text between these first and last characters.
unfoldable pub between : ℕ → ℕ → String → Option String
unfolding without_last
between first last String.[] = none
between first last (String.◌∷◌ c s) = if eqb (code c) first then without_last last s else none

-- `strings.Contains`
unfoldable pub contains_text : String → String → Bool
contains_text part String.[] = starts_with "" part
contains_text part (String.◌∷◌ c s) = starts_with (String.◌∷◌ c s) part || contains_text part s

-- `strings.HasSuffix`
unfoldable pub has_suffix : String → String → Bool
has_suffix String.[] suffix = Text.◌==◌ "" suffix
has_suffix (String.◌∷◌ c s) suffix = Text.◌==◌ (String.◌∷◌ c s) suffix || has_suffix s suffix
