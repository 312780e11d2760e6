-- ===== src/Metrics/Comments.antt =====
-- The comments that `header` of internal/metrics/metrics.go writes, as a scraper reads them.
use Prim.Native.Char.{Char, code}
use Prim.Native.String.append
use calendar_bridge.Base.{
  String, ◌<>◌, ◌≡◌, refl, inl, inr, Bool, false, [], eqb, Bool-cases, arith,
}
use calendar_bridge.Metrics.Text.{escaped_help, escape_help, header}
use calendar_bridge.Metrics.Scraper.{start, comment, run, step}
use calendar_bridge.Metrics.Reads.{
  Reads, Reads-then, any, any-cons, is_newline, is_delimiter, read_comment,
}
use calendar_bridge.Metrics.Scrape.{IsName}

any-append :
    (p : Char → Bool) (a b : String) → any p a ≡ false → any p b ≡ false → any p (a <> b) ≡ false
any-append p String.[] b ha hb = rw (append.nil b) hb
any-append p (String.◌∷◌ c a) b ha hb =
    let (here, rest) = any-cons p c a ha in
    rw (append.cons c a b) (rw here (any-append p a b rest hb))

escaped_help_free : (c : Char) → any is_newline (escaped_help c) ≡ false
unfolding escaped_help
escaped_help_free c = elim (Bool-cases (eqb (code c) b'\\')) [
  | inl h ↦ rw h refl
  | inr h ↦ elim (Bool-cases (eqb (code c) b'\n')) [
    | inl h' ↦ rw (h, h') refl
    | inr h' ↦ rw (h, h') (rw h' refl)
  ]
]

escape_help_free : (help : String) → any is_newline (escape_help help) ≡ false
unfolding escape_help
escape_help_free String.[] = refl
escape_help_free (String.◌∷◌ c s) =
    any-append is_newline (escaped_help c) (escape_help s) (escaped_help_free c)
      (escape_help_free s)

name_free : (name : String) → IsName name → any is_newline name ≡ false
name_free String.[] h = refl
name_free (String.◌∷◌ c s) h =
    let (here, rest) = any-cons is_delimiter c s h in one (name_free s rest) here
  where
    one :
        any is_newline s ≡ false → is_delimiter c ≡ false → any is_newline (String.◌∷◌ c s) ≡ false
    one r h = ground arith

read_end_of_comment : Reads comment "\n" start []
unfolding run step
read_end_of_comment = refl

read_help : Reads start "# HELP " comment []
unfolding run step
read_help = refl

read_type : Reads start "# TYPE " comment []
unfolding run step
read_type = refl

-- A comment after its first characters.
read_rest :
    (name text : String)
    → IsName name
    → any is_newline text ≡ false
    → Reads comment ("calendar_bridge" <> "_" <> name <> " " <> text <> "\n") start []
read_rest name text is_name free =
    Reads-then _ "calendar_bridge" _ (read_comment "calendar_bridge" refl) (
      Reads-then _ "_" _ (read_comment "_" refl) (
        Reads-then _ name _ (read_comment name (name_free name is_name)) (
          Reads-then _ " " _ (read_comment " " refl)
            (Reads-then _ text _ (read_comment text free) read_end_of_comment))))

pub read_header :
    (name typ help : String)
    → IsName name
    → any is_newline typ ≡ false
    → Reads start (header name typ help) start []
unfolding header
read_header name typ help is_name free =
    Reads-then start
      ("# HELP " <> "calendar_bridge" <> "_" <> name <> " " <> escape_help help <> "\n") _
      (Reads-then _ "# HELP " _ read_help
        (read_rest name (escape_help help) is_name (escape_help_free help)))
      (Reads-then _ "# TYPE " _ read_type (read_rest name typ is_name free))
