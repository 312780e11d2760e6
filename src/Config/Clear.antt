-- ===== src/Config/Clear.antt =====
-- What it means that a step of `Validate` (internal/config/config.go) finds no problem.
use mathlib.Core.Path.{subst}
use calendar_bridge.Base.{
  ℕ, suc, ◌*◌, ◌≤◌, ◌<◌, ◌≡◌, ◌≢◌, refl, ap, String, Bool, true, false, not, ◌&&◌, ◌⊎◌, inl, inr,
  Option, none, some, List, [], ◌∷◌, All, ◌==◌, ◌/=◌, contains, string_eq, ltb, arith,
  if◌then◌else◌,
}
use calendar_bridge.Base.Int.{ℤ, pos, negsuc, ◌≤ℤ◌, leb_ℤ, ltb_ℤ}
use calendar_bridge.Effect.{Result, ok, err}
use calendar_bridge.Config.{AccountConfig}
use calendar_bridge.Config.Defaults.{third_of_max}
use calendar_bridge.Config.Validate.{
  Problem, poll_interval_not_positive, poll_interval_too_large, channel_ttl_not_positive,
  ready_max_age_negative, Url, ◌or_else◌, unless, account_problem, accounts_problem, url_problem,
  debounce_problem, ttl_problem, interval_problem, max_age_problem, if_set,
}

pub or_else-none : (p q : Option Problem) → (p or_else q) ≡ none → (p ≡ none) × (q ≡ none)
or_else-none none q h = (refl, h)
or_else-none (some p) q h = cc

pub unless-none : (b : Bool) (p : Problem) → unless b p ≡ none → b ≡ true
unless-none true p h = refl
unless-none false p h = cc

pub not_empty : (s : String) → (s /= "") ≡ true → s ≢ ""
not_empty s h = ground arith

pub if_set-none : (s : String) (p : Option Problem) → if_set s p ≡ none → (s ≡ "") ⊎ (p ≡ none)
unfolding if_set
if_set-none s p h = ground arith

pub if_on-none :
    (on : Bool) (p : Option Problem)
    → (if not on then none else p) ≡ none
    → (on ≡ false) ⊎ (p ≡ none)
if_on-none true p h = inr h
if_on-none false p h = inl refl

pub enough_accounts : (n : ℕ) (p : Problem) → unless (not (ltb n 2)) p ≡ none → 2 ≤ n
enough_accounts n p h = ground (arith, unless-none (not (ltb n 2)) p h)

pub not_below_zero : (d : ℤ) (p : Problem) → unless (not (ltb_ℤ d (pos 0))) p ≡ none → pos 0 ≤ℤ d
not_below_zero d p h = ground (arith, unless-none (not (ltb_ℤ d (pos 0))) p h)

pub record IsComplete (a : AccountConfig) : Type 0 where
  pub name : a.name ≢ ""
  pub credentials_file : a.credentials_file ≢ ""
  pub token_file : a.token_file ≢ ""
  pub calendar_id : a.calendar_id ≢ ""

-- No account has the name of a later one.
abbrev pub Distinct : List AccountConfig → Type 0
Distinct [] = Unit
Distinct (a ∷ accounts) = All (λ (b : AccountConfig). b.name ≢ a.name) accounts × Distinct accounts

abbrev pub Unseen : List String → List AccountConfig → Type 0
Unseen seen accounts = All (λ (a : AccountConfig). contains seen a.name ≡ false) accounts

pub record IsPublic (u : Url) : Type 0 where
  pub scheme : u.scheme ≡ "https"
  pub host : u.host ≢ ""
  pub has_user : u.has_user ≡ false
  pub raw_query : u.raw_query ≡ ""
  pub fragment : u.fragment ≡ ""

pub account_problem-IsComplete :
    (i : ℕ) (seen : List String) (a : AccountConfig)
    → account_problem i seen a ≡ none
    → IsComplete a × (contains seen a.name ≡ false)
unfolding account_problem
account_problem-IsComplete i seen a h =
    let (name, h1) = or_else-none _ _ h in
    let (fresh, h2) = or_else-none _ _ h1 in
    let (credentials, h3) = or_else-none _ _ h2 in
    let (token, calendar) = or_else-none _ _ h3 in
    (
      record {
        name = not_empty _ (unless-none _ _ name);
        credentials_file = not_empty _ (unless-none _ _ credentials);
        token_file = not_empty _ (unless-none _ _ token);
        calendar_id = not_empty _ (unless-none _ _ calendar);
      },
      not_true _ (unless-none _ _ fresh),
    )
  where
    not_true : (b : Bool) → not b ≡ true → b ≡ false
    not_true true h = cc
    not_true false h = refl

pub unseen_cons :
    (k x : String) (xs : List String)
    → contains (x ∷ xs) k ≡ false
    → (k ≢ x) × (contains xs k ≡ false)
unseen_cons k x xs h = (ground arith, ground arith)

pub Unseen-tail :
    (name : String) (seen : List String) (accounts : List AccountConfig)
    → Unseen (name ∷ seen) accounts
    → All (λ (b : AccountConfig). b.name ≢ name) accounts × Unseen seen accounts
Unseen-tail name seen [] h = (tt, tt)
Unseen-tail name seen (a ∷ accounts) h =
    let unseen = unseen_cons a.name name seen h.0 in
    let (others, rest) = Unseen-tail name seen accounts h.1 in
    ((unseen.0, others), (unseen.1, rest))

pub accounts_problem-Distinct :
    (i : ℕ) (seen : List String) (accounts : List AccountConfig)
    → accounts_problem i seen accounts ≡ none
    → All IsComplete accounts × Distinct accounts × Unseen seen accounts
unfolding accounts_problem
accounts_problem-Distinct i seen [] h = (tt, tt, tt)
accounts_problem-Distinct i seen (a ∷ accounts) h =
    let (here, later) = or_else-none _ _ h in
    let (complete, fresh) = account_problem-IsComplete i seen a here in
    let (all, distinct, unseen) =
      accounts_problem-Distinct (suc i) (a.name ∷ seen) accounts later in
    let (others, rest) = Unseen-tail a.name seen accounts unseen in
    ((complete, all), (others, distinct), (fresh, rest))

pub url_problem-IsPublic :
    (r : Result Url) → url_problem r ≡ none → (u : Url) × (r ≡ ok u) × IsPublic u
unfolding url_problem
url_problem-IsPublic (err e) h = cc
url_problem-IsPublic (ok u) h =
    let (scheme, h1) = or_else-none _ _ h in
    let (host, h2) = or_else-none _ _ h1 in
    let (user, query) = or_else-none _ _ h2 in
    (
      u,
      refl,
      url_fields u (unless-none _ _ scheme) (unless-none _ _ host) (unless-none _ _ user)
          (unless-none _ _ query),
    )
  where
    url_fields :
        (u : Url)
        → (u.scheme == "https") ≡ true
        → (u.host /= "") ≡ true
        → not u.has_user ≡ true
        → (u.raw_query == "" && u.fragment == "") ≡ true
        → IsPublic u
    url_fields u scheme host user query = record {
      scheme = ground arith;
      host = ground arith;
      has_user = ground arith;
      raw_query = ground arith;
      fragment = ground arith;
    }

-- A duration that is positive, and of which three times is a duration as well.
abbrev pub IsInterval : Result ℤ → Type 0
IsInterval r = (n : ℕ) × (r ≡ ok (pos n)) × (0 < n) × (3 * n < 9_223_372_036_854_775_808)

abbrev pub IsPositive : Result ℤ → Type 0
IsPositive r = (n : ℕ) × (r ≡ ok (pos n)) × (0 < n)

abbrev pub IsAge : Result ℤ → Type 0
IsAge r = (n : ℕ) × (r ≡ ok (pos n))

pub above_zero :
    (d : ℤ) (p : Problem)
    → unless (not (leb_ℤ d (pos 0))) p ≡ none
    → (n : ℕ) × (d ≡ pos n) × (0 < n)
above_zero (pos n) p h = (n, refl, ground (arith, unless-none (not (leb_ℤ (pos n) (pos 0))) p h))
above_zero (negsuc n) p h = ground (arith, unless-none (not (leb_ℤ (negsuc n) (pos 0))) p h)

pub small_third :
    (n : ℕ) (p : Problem)
    → unless (not (ltb_ℤ third_of_max (pos n))) p ≡ none
    → 3 * n < 9_223_372_036_854_775_808
small_third n p h = ground (arith, unless-none (not (ltb_ℤ third_of_max (pos n))) p h)

pub interval_problem-IsInterval : (r : Result ℤ) → interval_problem r ≡ none → IsInterval r
unfolding interval_problem
interval_problem-IsInterval (err e) h = cc
interval_problem-IsInterval (ok d) h =
    let (positive, small) =
      or_else-none (unless (not (leb_ℤ d (pos 0))) poll_interval_not_positive)
        (unless (not (ltb_ℤ third_of_max d)) poll_interval_too_large) h in
    let (n, same, above) = above_zero d _ positive in
    (
      n,
      ap ok same,
      above,
      small_third n poll_interval_too_large (
          subst (λ x. unless (not (ltb_ℤ third_of_max x)) poll_interval_too_large ≡ none) same
            small),
    )

pub ttl_problem-IsPositive : (r : Result ℤ) → ttl_problem r ≡ none → IsPositive r
unfolding ttl_problem
ttl_problem-IsPositive (err e) h = cc
ttl_problem-IsPositive (ok d) h =
    let (n, same, above) = above_zero d channel_ttl_not_positive h in (n, ap ok same, above)

pub max_age_problem-IsAge : (r : Result ℤ) → max_age_problem r ≡ none → IsAge r
unfolding max_age_problem
max_age_problem-IsAge (err e) h = cc
max_age_problem-IsAge (ok (pos n)) h = (n, refl)
max_age_problem-IsAge (ok (negsuc n)) h =
    ground (arith, unless-none (not (ltb_ℤ (negsuc n) (pos 0))) ready_max_age_negative h)

pub debounce_problem-ok : (r : Result ℤ) → debounce_problem r ≡ none → (d : ℤ) × (r ≡ ok d)
unfolding debounce_problem
debounce_problem-ok (err e) h = cc
debounce_problem-ok (ok d) h = (d, refl)
