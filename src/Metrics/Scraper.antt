-- ===== src/Metrics/Scraper.antt =====
-- A reader of the text format, as a scraper has one: an automaton that reads a text character by
-- character. It is not part of the program.
use Prim.Native.Char.{Char, code}
use calendar_bridge.Base.{String, ◌<>◌, Option, none, some, List, [], ◌∷◌, ◌++◌, eqb, if◌then◌else◌}
use calendar_bridge.Metrics.Text.{Labels}

pub record Reading : Type 0 where
  pub name : String
  pub labels : Labels
  pub value : String

-- Where the reader is in a line, with what it has read of it.
pub data State : Type 0 where
  start comment failed : State
  in_name : String → State
  in_key : String → Labels → String → State
  opening : String → Labels → String → State
  in_label escaping : String → Labels → String → String → State
  closing spacing : String → Labels → State
  in_value : String → Labels → String → State

abbrev pub with_char : String → Char → String
with_char s c = s <> String.◌∷◌ c ""

abbrev pub with_label : Labels → String → String → Labels
with_label labels key label = labels ++ ((key, label) ∷ [])

abbrev stay : State → List Reading × State
stay s = ([], s)

unfoldable pub step : State → Char → List Reading × State
step start c = stay (if eqb (code c) b'#' then comment else in_name (String.◌∷◌ c ""))
step comment c = stay (if eqb (code c) b'\n' then start else comment)
step failed c = stay failed
step (in_name n) c = stay (
    if eqb (code c) b'{'
    then in_key n [] ""
    else if eqb (code c) b' '
    then in_value n [] ""
    else if eqb (code c) b'\n'
    then failed
    else in_name (with_char n c))
step (in_key n ls k) c =
    stay (if eqb (code c) b'=' then opening n ls k else in_key n ls (with_char k c))
step (opening n ls k) c = stay (if eqb (code c) b'"' then in_label n ls k "" else failed)
step (in_label n ls k v) c = stay (
    if eqb (code c) b'"'
    then closing n (with_label ls k v)
    else if eqb (code c) b'\\'
    then escaping n ls k v
    else if eqb (code c) b'\n'
    then failed
    else in_label n ls k (with_char v c))
step (escaping n ls k v) c = stay (
    if eqb (code c) b'n'
    then in_label n ls k (v <> "\n")
    else if eqb (code c) b'"'
    then in_label n ls k (v <> "\"")
    else if eqb (code c) b'\\'
    then in_label n ls k (v <> "\\")
    else failed)
step (closing n ls) c = stay (
    if eqb (code c) b','
    then in_key n ls ""
    else if eqb (code c) b'}'
    then spacing n ls
    else failed)
step (spacing n ls) c = stay (if eqb (code c) b' ' then in_value n ls "" else failed)
step (in_value n ls v) c =
    if eqb (code c) b'\n'
    then (record { name = n; labels = ls; value = v } ∷ [], start)
    else stay (in_value n ls (with_char v c))

abbrev pub then_read : List Reading × State → (State → List Reading × State) → List Reading × State
then_read (readings, s) rest = (readings ++ (rest s).0, (rest s).1)

unfoldable pub run : State → String → List Reading × State
run s String.[] = ([], s)
run s (String.◌∷◌ c text) = then_read (step s c) (λ s'. run s' text)

abbrev pub at_end : List Reading × State → Option (List Reading)
at_end (readings, start) = some readings
at_end (readings, _) = none

-- The samples of a text, if it has the format.
unfoldable pub scrape : String → Option (List Reading)
scrape text = at_end (run start text)
