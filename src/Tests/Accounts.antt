-- ===== src/Tests/Accounts.antt =====
-- The tokens of accounts.
use text.Mathlib.TextLemmas.{cons-ne-nil}
use calendar_bridge.Base.{
  ◌≡◌, ◌≢◌, refl, String, ◌<>◌, Option, none, some, List, [], ◌∷◌, string_eq, arith, ◌==◌,
  if◌then◌else◌,
}
use calendar_bridge.Base.Int.{pos}
use calendar_bridge.Base.Dict
use calendar_bridge.Fault.{message, token_unreadable, errors_is}
use calendar_bridge.Effect.{Result, ok, err}
use calendar_bridge.Disk.{
  Io, answer, returned, File, works, breaks, Machine, become, next_call, system, touch, opened,
  open_file, read_open, contents_of, read_file, Survives, in_live, in_stored, gone, kept, torn,
  AfterCrash,
}
use calendar_bridge.GoogleAuth.Tokens.{
  Token, TokenCodec, token_from_file, decode_open, path_free_err,
}
use calendar_bridge.GoogleAuth.Source.{Cache, tokens}
use calendar_bridge.GoogleAuth.Refresh.{IsRefreshable, refreshable, IsKept, tokens-IsKept}
use calendar_bridge.GoogleAuth.Client.{
  OauthLibrary, client, connect, explained_result, token_error, load_oauth_config,
}
use calendar_bridge.GoogleAuth.Setup.{Setup}
use calendar_bridge.GoogleAuth.Authorize.{Query}
use calendar_bridge.GoogleAuth.Interactive.{Prompt}
use calendar_bridge.Config.{Config}
use calendar_bridge.Daemon.Auth.{find_account, auth_found, auth_loaded, run_auth}
use calendar_bridge.Daemon.Authorized.{AuthEnd, authorizing, run_auth-AuthEnd}
use calendar_bridge.Tests.Settings.{pair_config}
use calendar_bridge.Tests.Disks.{here, dotted, disk_of}

abbrev token_with : String → Token
token_with refresh = record { access_token = "a"; refresh_token = refresh; expiry = pos 0 }

-- Tokens with one refresh token have a text.
abbrev codec : TokenCodec
codec = record {
  decode = λ text. some (token_with "r");
  encode = λ tok. if tok.refresh_token == "r" then ok "token" else err (message "another token");
}

round :
    (tok : Token) (text : String)
    → codec.encode tok ≡ ok text
    → (back : Token) × (codec.decode (text <> "\n") ≡ some back)
      × (back.refresh_token ≡ tok.refresh_token)
round tok text h = (token_with "r", refl, ground arith)

no_empty : ◌≢◌ {A = String} "r" ""
no_empty same = cons-ne-nil "r" "" same

text_left :
    {entry : Option File} {c : Option String}
    → AfterCrash entry c
    → entry ≢ none
    → IsRefreshable codec here "c.yaml" c
text_left gone there = absurd (there refl)
text_left (kept f) there = refreshable f.contents (token_with "r") refl no_empty
text_left (torn f text unsynced) there = refreshable text (token_with "r") refl no_empty

old_there : Dict.lookup "c.yaml" (disk_of "old").live ≢ none
unfolding Dict.lookup string_eq
old_there = λ same. cc

file_left :
    (text : Option String)
    → Survives (disk_of "old") "c.yaml" text
    → IsRefreshable codec here "c.yaml" text
file_left _ (in_live c h) = text_left h old_there
file_left _ (in_stored c h) = text_left h old_there

-- The first write fails when it syncs.
abbrev cache : Cache
cache = record {
  last = some (token_with "r");
  machine = record { disk = disk_of "old"; events = breaks "" "" ∷ []; suffixes = "1" ∷ "2" ∷ [] };
}

cache-IsKept : IsKept codec here "c.yaml" cache
cache-IsKept = record { last = (token_with "r", refl, no_empty); file = file_left }

-- A new access token without a refresh token.
abbrev rotated : String → Token
rotated access = record { access_token = access; refresh_token = ""; expiry = pos 3600 }

-- Two rotations, with a fault between them.
abbrev answers : List (Result Token)
answers = ok (rotated "b") ∷ err (message "offline") ∷ ok (rotated "c") ∷ []

tokens-IsKept_example : IsKept codec here "c.yaml" (tokens codec here "c.yaml" answers cache)
tokens-IsKept_example = tokens-IsKept codec here "c.yaml" round dotted answers cache cache-IsKept

abbrev library : OauthLibrary
library = record {
  OauthConfig = Unit {0};
  Service = Unit {0};
  config_from_json = λ text. ok tt;
  new_service = λ c t. ok tt;
}

abbrev quiet : Machine
quiet = record { disk = disk_of "old"; events = []; suffixes = [] }

-- The third call, which reads the token, fails.
abbrev failing : Machine
failing = record quiet { events = works ∷ works ∷ breaks "input/output error" "" ∷ [] }

unreadable_run :
    (client codec library "c.yaml" "c.yaml" failing).0 ≡ returned (err token_unreadable)
unfolding client load_oauth_config connect explained_result token_error token_from_file decode_open
    open_file opened read_open read_file contents_of touch system next_call become path_free_err
    Dict.lookup string_eq errors_is
unreadable_run = refl

-- The query of a redirect with the state "s" and the code "4/0A".
abbrev query : Query
query = record { get = λ key. if key == "state" then "s" else if key == "code" then "4/0A" else "" }

abbrev asked : Prompt
asked = record { state = ok "s"; line = "http://localhost:1/?code=4/0A&state=s"; line_error = none }

abbrev loading : String → Io Config
loading path = answer (ok pair_config)

abbrev exchange : Unit {0} → String → Result Token
exchange config code = ok (token_with "r")

strange_run :
    (run_auth loading
      (authorizing loading
        (λ url. ok query)
        codec
        here
        library
        exchange
        asked
        "c.yaml"
        "office"
        quiet)
      "c.yaml"
      "office"
      quiet).0
    ≡ returned (ok 2)
unfolding run_auth auth_loaded auth_found find_account string_eq
strange_run = refl

run_auth-AuthEnd_example :
    AuthEnd loading
      (λ url. ok query)
      codec
      here
      library
      exchange
      asked
      "c.yaml"
      "work"
      quiet
      (run_auth loading
        (authorizing loading
          (λ url. ok query)
          codec
          here
          library
          exchange
          asked
          "c.yaml"
          "work"
          quiet)
        "c.yaml"
        "work"
        quiet)
run_auth-AuthEnd_example =
    run_auth-AuthEnd loading (λ url. ok query) codec here library exchange asked "c.yaml" "work"
      quiet
