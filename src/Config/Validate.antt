-- ===== src/Config/Validate.antt =====
-- `Validate` of internal/config/config.go.
use calendar_bridge.Base.{
  ℕ, suc, String, Bool, true, false, ◌&&◌, not, Option, none, some, List, [], ◌∷◌, ◌==◌, ◌/=◌,
  contains, length, ltb, string_eq, if◌then◌else◌,
}
use calendar_bridge.Base.Int.{ℤ, pos, leb_ℤ, ltb_ℤ}
use calendar_bridge.Fault.{Fault}
use calendar_bridge.Effect.{Result, ok, err}
use calendar_bridge.Config.{AccountConfig, MetricsConfig, WebhookConfig, Config}
use calendar_bridge.Config.Defaults.{Durations, third_of_max}

-- What `Validate` finds wrong, one for each of its returns.
pub data Problem : Type 0 where
  too_few_accounts : ℕ → Problem
  name_required : ℕ → Problem
  duplicate_name : ℕ → String → Problem
  credentials_file_required token_file_required calendar_id_required : ℕ → String → Problem
  public_url_required : Problem
  public_url_invalid : Fault → Problem
  public_url_not_https : String → Problem
  public_url_without_host public_url_with_user public_url_with_query : Problem
  verification_token_required : Problem
  debounce_interval_invalid : Fault → Problem
  channel_ttl_invalid : Fault → Problem
  channel_ttl_not_positive : Problem
  poll_interval_invalid : Fault → Problem
  poll_interval_not_positive poll_interval_too_large : Problem
  lookahead_days_negative : Problem
  ready_max_age_invalid : Fault → Problem
  ready_max_age_negative : Problem

-- The fields of `*url.URL` that are read.
pub record Url : Type 0 where
  pub scheme : String
  pub host : String
  pub has_user : Bool
  pub raw_query : String
  pub fragment : String

-- The first problem.
infixr 20 ◌or_else◌
abbrev pub ◌or_else◌ : Option Problem → Option Problem → Option Problem
some p or_else rest = some p
none or_else rest = rest

-- A problem, if the test fails.
abbrev pub unless : Bool → Problem → Option Problem
unless true p = none
unless false p = some p

-- The loop over the accounts, with the index of the next and the names seen.
unfoldable pub account_problem : ℕ → List String → AccountConfig → Option Problem
account_problem i seen a =
    unless (a.name /= "") (name_required i)
    or_else unless (not (contains seen a.name)) (duplicate_name i a.name)
    or_else unless (a.credentials_file /= "") (credentials_file_required i a.name)
    or_else unless (a.token_file /= "") (token_file_required i a.name)
    or_else unless (a.calendar_id /= "") (calendar_id_required i a.name)

unfoldable pub accounts_problem : ℕ → List String → List AccountConfig → Option Problem
accounts_problem i seen [] = none
accounts_problem i seen (a ∷ accounts) =
    account_problem i seen a or_else accounts_problem (suc i) (a.name ∷ seen) accounts

unfoldable pub url_problem : Result Url → Option Problem
url_problem (err e) = some (public_url_invalid e)
url_problem (ok u) =
    unless (u.scheme == "https") (public_url_not_https u.scheme)
    or_else unless (u.host /= "") public_url_without_host
    or_else unless (not u.has_user) public_url_with_user
    or_else unless (u.raw_query == "" && u.fragment == "") public_url_with_query

unfoldable pub debounce_problem : Result ℤ → Option Problem
debounce_problem (err e) = some (debounce_interval_invalid e)
debounce_problem (ok d) = none

unfoldable pub ttl_problem : Result ℤ → Option Problem
ttl_problem (err e) = some (channel_ttl_invalid e)
ttl_problem (ok d) = unless (not (leb_ℤ d (pos 0))) channel_ttl_not_positive

unfoldable pub interval_problem : Result ℤ → Option Problem
interval_problem (err e) = some (poll_interval_invalid e)
interval_problem (ok d) =
    unless (not (leb_ℤ d (pos 0))) poll_interval_not_positive
    or_else unless (not (ltb_ℤ third_of_max d)) poll_interval_too_large

unfoldable pub max_age_problem : Result ℤ → Option Problem
max_age_problem (err e) = some (ready_max_age_invalid e)
max_age_problem (ok d) = unless (not (ltb_ℤ d (pos 0))) ready_max_age_negative

-- A problem of a text that may be left empty.
unfoldable pub if_set : String → Option Problem → Option Problem
if_set text problem = if text == "" then none else problem

-- `parse_url` is `url.Parse`.
module _ (durations : Durations) (parse_url : String → Result Url) where
  unfoldable pub enabled_problem : WebhookConfig → Option Problem
  enabled_problem h =
      unless (h.public_url /= "") public_url_required
      or_else url_problem (parse_url h.public_url)
      or_else unless (h.verification_token /= "") verification_token_required
      or_else if_set h.debounce_interval (debounce_problem (durations.parse h.debounce_interval))
      or_else if_set h.channel_ttl (ttl_problem (durations.parse h.channel_ttl))

  unfoldable pub webhook_problem : WebhookConfig → Option Problem
  webhook_problem h = if not h.enabled then none else enabled_problem h

  unfoldable pub metrics_problem : MetricsConfig → Option Problem
  metrics_problem m =
      if not m.enabled
      then none
      else if_set m.ready_max_age (max_age_problem (durations.parse m.ready_max_age))

  unfoldable pub validate : Config → Option Problem
  validate c =
      unless (not (ltb (length c.accounts) 2)) (too_few_accounts (length c.accounts))
      or_else accounts_problem 0 [] c.accounts
      or_else webhook_problem c.webhook
      or_else if_set c.poll_interval (interval_problem (durations.parse c.poll_interval))
      or_else unless (not (ltb_ℤ c.lookahead_days (pos 0))) lookahead_days_negative
      or_else metrics_problem c.metrics
