-- ===== src/Metrics/Reads.antt =====
-- How the reader of the text format of internal/metrics/metrics.go reads a text in parts.
use Prim.Native.Char.{Char, code}
use Prim.Native.String.append
use text.Mathlib.TextLemmas.{append_assoc, append-nil}
use mathlib.Core.List.{append_assoc as list-append_assoc}
use calendar_bridge.Base.{
  String, ◌<>◌, ◌≡◌, refl, sym, ap, ◌∙◌, ◌||◌, Bool, false, List, [], ◌++◌, eqb, arith,
}
use calendar_bridge.Metrics.Text.{Labels}
use calendar_bridge.Metrics.Scraper.{
  Reading, State, comment, in_name, in_key, in_value, with_char, step, run, then_read,
}

run-append : (s : State) (a b : String) → run s (a <> b) ≡ then_read (run s a) (λ s'. run s' b)
unfolding run
run-append s String.[] b = rw (append.nil b) refl
run-append s (String.◌∷◌ c a) b =
    ap (run s) (append.cons c a b)
    ∙ ap (λ (r : List Reading × State). ((step s c).0 ++ r.0, r.1)) (run-append (step s c).1 a b)
    ∙ ap (λ (l : List Reading). (l, (run (run (step s c).1 a).1 b).1))
        (sym (list-append_assoc (step s c).0 _ _))

-- From here the reader reads this text to there, with these samples.
abbrev pub Reads : State → String → State → List Reading → Type 0
Reads s text s' readings = run s text ≡ (readings, s')

pub Reads-then :
    (s : State) (a b : String) {s' s'' : State} {l m : List Reading}
    → Reads s a s' l
    → Reads s' b s'' m
    → Reads s (a <> b) s'' (l ++ m)
Reads-then s a b {s'} {s''} {l} {m} first second =
    run-append s a b
    ∙ ap (λ r. then_read r (λ s'. run s' b)) first
    ∙ ap (λ r. (l ++ r.0, r.1)) second

pub snoc-append : (c : Char) (a s : String) → with_char a c <> s ≡ a <> String.◌∷◌ c s
snoc-append c a s =
    append_assoc a (String.◌∷◌ c "") s
    ∙ ap (λ t. a <> t) (append.cons c "" s ∙ ap (String.◌∷◌ c) (append.nil s))

-- One of the characters of the text is in the class.
abbrev pub any : (Char → Bool) → String → Bool
any p String.[] = false
any p (String.◌∷◌ c s) = p c || any p s

pub any-cons :
    (p : Char → Bool) (c : Char) (s : String)
    → any p (String.◌∷◌ c s) ≡ false
    → (p c ≡ false) × (any p s ≡ false)
any-cons p c s h = ground arith

-- The reader takes the characters outside the class into what it has read.
absorb :
    (s : String → State) (p : Char → Bool)
    → ((acc : String) (c : Char) → p c ≡ false → step (s acc) c ≡ ([], s (with_char acc c)))
    → (acc text : String) → any p text ≡ false
    → Reads (s acc) text (s (acc <> text)) []
unfolding run
absorb s p takes acc String.[] free = ap (λ t. ([], s t)) (sym (append-nil acc))
absorb s p takes acc (String.◌∷◌ c text) free =
    let (here, rest) = any-cons p c text free in
    ap (λ (r : List Reading × State). then_read r (λ s'. run s' text)) (takes acc c here)
    ∙ absorb s p takes (with_char acc c) text rest
    ∙ ap (λ t. ([], s t)) (snoc-append c acc text)

abbrev pub is_newline : Char → Bool
is_newline c = eqb (code c) b'\n'

abbrev pub is_equals : Char → Bool
is_equals c = eqb (code c) b'='

abbrev pub is_delimiter : Char → Bool
is_delimiter c = eqb (code c) b'{' || eqb (code c) b' ' || eqb (code c) b'\n'

step_name :
    (acc : String) (c : Char)
    → is_delimiter c ≡ false
    → step (in_name acc) c ≡ ([], in_name (with_char acc c))
unfolding step
step_name acc c free = ground arith

pub read_name :
    (acc name : String)
    → any is_delimiter name ≡ false
    → Reads (in_name acc) name (in_name (acc <> name)) []
read_name acc name free = absorb in_name is_delimiter step_name acc name free

step_key :
    (n : String) (ls : Labels) (acc : String) (c : Char)
    → is_equals c ≡ false
    → step (in_key n ls acc) c ≡ ([], in_key n ls (with_char acc c))
unfolding step
step_key n ls acc c free = ground arith

step_value :
    (n : String) (ls : Labels) (acc : String) (c : Char)
    → is_newline c ≡ false
    → step (in_value n ls acc) c ≡ ([], in_value n ls (with_char acc c))
unfolding step
step_value n ls acc c free = ground arith

step_comment : (c : Char) → is_newline c ≡ false → step comment c ≡ ([], comment)
unfolding step
step_comment c free = ground arith

pub read_key :
    (n : String) (ls : Labels) (key : String)
    → any is_equals key ≡ false
    → Reads (in_key n ls "") key (in_key n ls key) []
read_key n ls key free =
    absorb (in_key n ls) is_equals (step_key n ls) "" key free
    ∙ ap (λ t. ([], in_key n ls t)) (append.nil key)

pub read_value :
    (n : String) (ls : Labels) (value : String)
    → any is_newline value ≡ false
    → Reads (in_value n ls "") value (in_value n ls value) []
read_value n ls value free =
    absorb (in_value n ls) is_newline (step_value n ls) "" value free
    ∙ ap (λ t. ([], in_value n ls t)) (append.nil value)

pub read_comment : (text : String) → any is_newline text ≡ false → Reads comment text comment []
read_comment text free = absorb (λ acc. comment) is_newline (λ acc. step_comment) "" text free
