-- ===== src/Tests/Settings.antt =====
-- A configuration of internal/config/config.go, over a time package that writes durations as a row of
-- marks.
use Prim.Native.Char.{Char, code}
use Prim.Native.String.{count, ◌∷◌ as ◌:>◌}
use text.Mathlib.TextLemmas.{length-cons, head-eq_of_cons-eq}
use calendar_bridge.Base.{
  ℕ, zero, suc, ◌*◌, min, ◌≡◌, ◌≢◌, refl, ap, ◌∙◌, String, true, false, Option, none, some, List,
  [], ◌∷◌, ◌==◌, string_eq, arith, if◌then◌else◌,
}
use calendar_bridge.Base.Int.{ℤ, pos, negsuc}
use calendar_bridge.Fault.{message}
use calendar_bridge.Effect.{Result, ok, err}
use calendar_bridge.Config.{AccountConfig, Config}
use calendar_bridge.Config.Defaults.{
  Durations, or_default, is_zero, three_times, three_poll_intervals, default_webhook,
  default_metrics, apply_defaults,
}
use calendar_bridge.Config.Validate.{
  Url, Problem, duplicate_name, account_problem, accounts_problem, url_problem, debounce_problem,
  ttl_problem, interval_problem, max_age_problem, if_set, enabled_problem, webhook_problem,
  metrics_problem, validate,
}
use calendar_bridge.Config.Laws.{IsValid, validate-IsValid}
use calendar_bridge.Config.Defaulted.{
  DurationLaws, three_poll_intervals_lem, validate-apply_defaults,
}

abbrev pub marks : ℕ → String
marks zero = ""
marks (suc n) = "~" :> marks n

abbrev pub marked : ℤ → String
marked (pos n) = "~" :> marks n
marked (negsuc n) = ""

abbrev pub less_one : ℕ → ℕ
less_one zero = zero
less_one (suc n) = n

abbrev pub read : String → Result ℤ
read text =
    if text == "5s"
    then ok (pos 5_000_000_000)
    else if text == "5m"
    then ok (pos 300_000_000_000)
    else if text == "15m"
    then ok (pos 900_000_000_000)
    else if text == "24h"
    then ok (pos 86_400_000_000_000)
    else ok (pos (less_one (count text)))

abbrev pub tally : Durations
tally = record { parse = read; show = marked }

count-marks : (n : ℕ) → count (marks n) ≡ n
count-marks zero = refl
count-marks (suc n) = length-cons _ (marks n) ∙ ap suc (count-marks n)

head_differs : (c d : Char) (s t : String) → code c ≢ code d → (c :> s) ≢ (d :> t)
head_differs c d s t differ same = differ (ap code (head-eq_of_cons-eq same))

marked_is_no_literal :
    (n : ℕ)
    → (marked (pos n) ≢ "5s")
      × (marked (pos n) ≢ "5m")
      × (marked (pos n) ≢ "15m")
      × (marked (pos n) ≢ "24h")
marked_is_no_literal n = (
  head_differs "~" "5" (marks n) "s" (omega arith),
  head_differs "~" "5" (marks n) "m" (omega arith),
  head_differs "~" "1" (marks n) "5m" (omega arith),
  head_differs "~" "2" (marks n) "4h" (omega arith),
)

read-marked : (n : ℕ) → read (marked (pos n)) ≡ ok (pos n)
read-marked n = ground (arith, marked_is_no_literal n, length-cons "~" (marks n), count-marks n)

pub tally-laws : DurationLaws tally
unfolding string_eq
tally-laws = record {
  five_seconds = refl;
  five_minutes = refl;
  quarter_hour = refl;
  one_day = refl;
  round = λ n small. read-marked n;
}

five_minutes_read : read "5m" ≡ ok (pos 300_000_000_000)
unfolding string_eq
five_minutes_read = refl

-- `url.Parse`, for these tests.
abbrev pub parse_url : String → Result Url
parse_url text =
    if text == "https://cb.example.com"
    then ok (record {
      scheme = "https";
      host = "cb.example.com";
      has_user = false;
      raw_query = "";
      fragment = "";
    })
    else err (message "no URL")

abbrev pub account : String → AccountConfig
account name = record {
  name = name;
  credentials_file = "c.json";
  token_file = "t.json";
  calendar_id = "primary";
}

abbrev pub config_of : List AccountConfig → Config
config_of accounts = record {
  accounts = accounts;
  poll_interval = "5m";
  lookahead_days = pos 0;
  block_title = "";
  webhook = record {
    enabled = true;
    public_url = "https://cb.example.com";
    listen_addr = "";
    verification_token = "secret";
    channel_ttl = "24h";
    debounce_interval = "";
  };
  web_ui = record { enabled = false; listen_addr = ""; auth_token = "" };
  metrics = record { enabled = true; listen_addr = ""; ready_max_age = "" };
}

abbrev pub pair_config : Config
pair_config = config_of (account "home" ∷ account "work" ∷ [])

unfoldable pub problem_of : Config → Option Problem
unfolding validate accounts_problem account_problem webhook_problem enabled_problem url_problem
    if_set debounce_problem ttl_problem interval_problem max_age_problem metrics_problem string_eq
problem_of c = validate tally parse_url c

pub pair_is_clear : validate tally parse_url pair_config ≡ none
unfolding problem_of
pair_is_clear = refl

twins_are_refused :
    validate tally parse_url (config_of (account "home" ∷ account "home" ∷ []))
    ≡ some (duplicate_name 1 "home")
unfolding problem_of
twins_are_refused = refl

unfoldable pub filled : Config → Config
unfolding apply_defaults default_webhook default_metrics or_default is_zero three_poll_intervals
    three_times string_eq
filled c = apply_defaults tally c

defaults_run : (apply_defaults tally pair_config).webhook.debounce_interval ≡ "5s"
unfolding filled
defaults_run = refl

validate-IsValid_example : IsValid tally parse_url pair_config
validate-IsValid_example = validate-IsValid tally parse_url pair_config pair_is_clear

validate-apply_defaults_example : validate tally parse_url (apply_defaults tally pair_config) ≡ none
validate-apply_defaults_example =
    validate-apply_defaults tally tally-laws parse_url pair_config pair_is_clear

three_poll_intervals_lem_example :
    read (three_poll_intervals tally "5m")
    ≡ ok (pos (min (3 * 300_000_000_000) 9_223_372_036_854_775_807))
three_poll_intervals_lem_example =
    three_poll_intervals_lem tally tally-laws "5m" 300_000_000_000 five_minutes_read (omega arith)
