-- ===== src/Metrics/Scrape.antt =====
-- What a scraper reads of a sample of internal/metrics/metrics.go.
use Prim.Native.Char.{Char, code}
use Prim.Native.String.append
use Prim.Native.Nat.{compare, Ordering}
use text.Mathlib.TextLemmas.{append-nil}
use text.Mathlib.TextEquality.{codes_equal}
use mathlib.Core.List.{append_assoc as list-append_assoc, append-nil as list-append-nil}
use calendar_bridge.Base.{
  ℕ, String, ◌<>◌, ◌≡◌, refl, sym, ap, ◌∙◌, inl, inr, true, false, List, [], ◌∷◌, ◌++◌, eqb,
  Bool-cases, arith,
}
use calendar_bridge.Metrics.Text.{
  Labels, Sample, escaped_char, escape_label, label_text, more_labels, labels_text, write_sample,
  Value,
}
use calendar_bridge.Metrics.Scraper.{
  Reading, State, start, in_name, in_key, in_label, closing, spacing, in_value, with_char,
  with_label, step, run, then_read,
}
use calendar_bridge.Metrics.Reads.{
  Reads, Reads-then, any, is_newline, is_equals, is_delimiter, read_name, read_key, read_value,
  snoc-append,
}

eqb-compare : (a b : ℕ) → eqb a b ≡ true → compare a b ≡ Ordering.eq
eqb-compare a b h = ground arith

step_label :
    (n : String) (ls : Labels) (k acc : String) (c : Char)
    → eqb (code c) b'\\' ≡ false
    → eqb (code c) b'"' ≡ false
    → eqb (code c) b'\n' ≡ false
    → step (in_label n ls k acc) c ≡ ([], in_label n ls k (with_char acc c))
unfolding step
step_label n ls k acc c h h' h'' = ground arith

read_escaped_char :
    (n : String) (ls : Labels) (k acc : String) (c : Char)
    → Reads (in_label n ls k acc) (escaped_char c) (in_label n ls k (with_char acc c)) []
unfolding escaped_char run step
read_escaped_char n ls k acc c = elim (Bool-cases (eqb (code c) b'\\')) [
  | inl h ↦ rw (codes_equal c "\\" (eqb-compare (code c) b'\\' h)) refl
  | inr h ↦ elim (Bool-cases (eqb (code c) b'"')) [
    | inl h' ↦ rw (codes_equal c "\"" (eqb-compare (code c) b'"' h')) refl
    | inr h' ↦ elim (Bool-cases (eqb (code c) b'\n')) [
      | inl h'' ↦ rw (codes_equal c "\n" (eqb-compare (code c) b'\n' h'')) refl
      | inr h'' ↦
          rw (h, h', h'')
            (ap (λ (r : List Reading × State). then_read r (λ s'. run s' ""))
              (step_label n ls k acc c h h' h''))
    ]
  ]
]

read_escaped :
    (n : String) (ls : Labels) (k acc label : String)
    → Reads (in_label n ls k acc) (escape_label label) (in_label n ls k (acc <> label)) []
unfolding escape_label run
read_escaped n ls k acc String.[] = ap (λ t. ([], in_label n ls k t)) (sym (append-nil acc))
read_escaped n ls k acc (String.◌∷◌ c label) =
    Reads-then _ (escaped_char c) (escape_label label) (read_escaped_char n ls k acc c)
      (read_escaped n ls k (with_char acc c) label)
    ∙ ap (λ t. ([], in_label n ls k t)) (snoc-append c acc label)

read_label :
    (n : String) (ls : Labels) (key label : String)
    → any is_equals key ≡ false
    → Reads (in_key n ls "") (label_text (key, label)) (closing n (with_label ls key label)) []
unfolding label_text run step
read_label n ls key label free = Reads-then _ key _ (read_key n ls key free) (
    Reads-then (in_key n ls key) "=\"" (escape_label label <> "\"") {s' = in_label n ls key ""} refl
      (Reads-then _ (escape_label label) "\"" (read_escaped n ls key "" label)
        (ap (λ t. ([], closing n (with_label ls key t))) (append.nil label))))

-- What the labels after some first ones add to them.
abbrev pub AllKeys : Labels → Type 0
AllKeys [] = Unit
AllKeys ((key, label) ∷ labels) = (any is_equals key ≡ false) × AllKeys labels

read_more :
    (n : String) (ls more : Labels)
    → AllKeys more
    → Reads (closing n ls) (more_labels more) (closing n (ls ++ more)) []
unfolding more_labels run step
read_more n ls [] all = ap (λ l. ([], closing n l)) (sym (list-append-nil ls))
read_more n ls ((key, label) ∷ more) (free, all) =
    Reads-then (closing n ls) "," (label_text (key, label) <> more_labels more)
      {s' = in_key n ls ""} refl
      (Reads-then _ (label_text (key, label)) (more_labels more) (read_label n ls key label free)
        (read_more n (with_label ls key label) more all))
    ∙ ap (λ l. ([], closing n l)) (list-append_assoc ls ((key, label) ∷ []) more)

abbrev after_labels : String → Labels → State
after_labels n [] = in_name n
after_labels n (label ∷ labels) = spacing n (label ∷ labels)

read_labels :
    (n : String) (labels : Labels)
    → AllKeys labels
    → Reads (in_name n) (labels_text labels) (after_labels n labels) []
unfolding labels_text run step
read_labels n [] all = refl
read_labels n ((key, label) ∷ labels) (free, all) =
    Reads-then (in_name n) "{" (label_text (key, label) <> more_labels labels <> "}")
      {s' = in_key n [] ""} refl
      (Reads-then _ (label_text (key, label)) (more_labels labels <> "}")
        (read_label n [] key label free)
        (Reads-then _ (more_labels labels) "}" (read_more n ((key, label) ∷ []) labels all) refl))

read_space :
    (n : String) (labels : Labels) → Reads (after_labels n labels) " " (in_value n labels "") []
unfolding run step
read_space n [] = refl
read_space n (label ∷ labels) = refl

-- What is read of a sample.
abbrev pub reading : (Value → String) → String → Sample → Reading
reading format name s = record {
  name = "calendar_bridge_" <> name;
  labels = s.labels;
  value = format s.value;
}

read_end :
    (n : String) (ls : Labels) (v : String)
    → Reads (in_value n ls v) "\n" start (record { name = n; labels = ls; value = v } ∷ [])
unfolding run step
read_end n ls v = refl

read_prefix : Reads start "calendar_bridge" (in_name "calendar_bridge") []
unfolding run step
read_prefix = refl

read_underscore : Reads (in_name "calendar_bridge") "_" (in_name "calendar_bridge_") []
unfolding run step
read_underscore = refl

abbrev pub IsName : String → Type 0
IsName name = any is_delimiter name ≡ false

pub read_sample :
    (format : Value → String) (name : String) (labels : Labels) (v : Value)
    → IsName name
    → AllKeys labels
    → any is_newline (format v) ≡ false
    → Reads start
        (write_sample format name labels v)
        start
        (reading format name (record { labels = labels; value = v }) ∷ [])
unfolding write_sample
read_sample format name labels v is_name keys one_line =
    Reads-then _ "calendar_bridge" _ read_prefix (
      Reads-then _ "_" _ read_underscore (
        Reads-then _ name _ (read_name "calendar_bridge_" name is_name) (
          Reads-then _ (labels_text labels) _ (read_labels _ labels keys) (
            Reads-then _ " " _ (read_space _ labels) (
              Reads-then _ (format v) _ (read_value _ labels (format v) one_line)
                (read_end _ labels (format v)))))))
