-- ===== src/Daemon/Authorized.antt =====
-- What the command `auth` of cmd/calendar-bridge/main.go does to the files, and its exit codes.
use mathlib.Core.List.{Memᴰ}
use calendar_bridge.Base.{
  ℕ, ◌≡◌, ◌≢◌, refl, sym, ap, ◌∙◌, ◌⊎◌, inl, inr, String, none, some, List, [], ◌∷◌, ◌==◌,
  string_eq, true, false, arith,
}
use calendar_bridge.Fault.{Fault}
use calendar_bridge.Effect.{Result, ok, err}
use calendar_bridge.Disk.{Machine, Outcome, returned, died, Io}
use calendar_bridge.AtomicFile.{Paths}
use calendar_bridge.Config.{AccountConfig, Config}
use calendar_bridge.GoogleAuth.Tokens.{Token, TokenCodec}
use calendar_bridge.GoogleAuth.Client.{OauthLibrary}
use calendar_bridge.GoogleAuth.Authorize.{Query}
use calendar_bridge.GoogleAuth.Interactive.{Prompt, authorize_account}
use calendar_bridge.GoogleAuth.Tried.{Tried, authorize_account-Tried}
use calendar_bridge.Daemon.Auth.{find_account, end_auth, auth_found, auth_loaded, run_auth}

-- No account has this name, or the first that has is found.
find_account-first :
    (name : String) (accounts : List AccountConfig)
    → ((find_account name accounts ≡ none)
        × ((a : AccountConfig) → Memᴰ a accounts → a.name ≢ name))
      ⊎ ((a : AccountConfig) × (find_account name accounts ≡ some a)
          × Memᴰ a accounts
          × (a.name ≡ name))
unfolding find_account
find_account-first name [] = inl (refl, λ a here. elim here [ ])
find_account-first name (a ∷ accounts) = elim (string_eq.dec a.name name) [
  | yes same ↦ inr (a, ground arith, Memᴰ.head refl, same)
  | no other ↦ elim (find_account-first name accounts) [
    | inl (missing, nowhere) ↦ inl (ground arith, every other nowhere)
    | inr (b, found, here, same) ↦ inr (b, ground arith, Memᴰ.tail here, same)
  ]
]
  where
    every :
        a.name ≢ name
        → ((b : AccountConfig) → Memᴰ b accounts → b.name ≢ name)
        → (b : AccountConfig) → Memᴰ b (a ∷ accounts)
        → b.name ≢ name
    every other nowhere b (Memᴰ.head p) same =
        other (ap (λ (x : AccountConfig). x.name) (sym p) ∙ same)
    every other nowhere b (Memᴰ.tail here) same = nowhere b here same

module _ (load : String → Io Config) (parse_query : String → Result Query) (codec : TokenCodec)
    (paths : Paths) (lib : OauthLibrary) (exchange : lib.OauthConfig → String → Result Token)
    (prompt : Prompt) (config_path name : String) (before : Machine) where
  -- `Authorize` has been tried on the token file of an account of this name, with this outcome.
  pub record Attempted (r : Outcome (Unit {0}) × Machine) : Type 0 where
    pub cfg : Config
    pub account : AccountConfig
    pub loaded_machine : Machine
    pub loaded : load config_path before ≡ (returned (ok cfg), loaded_machine)
    pub listed : Memᴰ account cfg.accounts
    pub same_name : account.name ≡ name
    pub outcome :
        Tried parse_query codec paths lib exchange prompt account.token_file loaded_machine r

  -- Without an account to authorize the process exits, and no file has changed since the configuration
  -- was read. With one, `Authorize` has been tried, and its success and its errors are told apart.
  pub data AuthEnd : Outcome ℕ × Machine → Type 0 where
    unnamed : name ≡ "" → AuthEnd (returned (ok 2), before)
    unloaded :
        (e : Fault) (m : Machine)
        → name ≢ ""
        → load config_path before ≡ (returned (err e), m)
        → AuthEnd (returned (ok 3), m)
    crashed : (m : Machine) → name ≢ "" → load config_path before ≡ (died, m) → AuthEnd (died, m)
    unknown :
        (cfg : Config) (m : Machine)
        → name ≢ ""
        → load config_path before ≡ (returned (ok cfg), m)
        → ((a : AccountConfig) → Memᴰ a cfg.accounts → a.name ≢ name)
        → AuthEnd (returned (ok 2), m)
    succeeded :
        (m : Machine) → name ≢ "" → Attempted (returned (ok tt), m) → AuthEnd (returned (ok 0), m)
    failed :
        (e : Fault) (m : Machine)
        → name ≢ ""
        → Attempted (returned (err e), m)
        → AuthEnd (returned (ok 4), m)
    crashed_later : (m : Machine) → name ≢ "" → Attempted (died, m) → AuthEnd (died, m)

  abbrev pub authorizing : String → String → Io (Unit {0})
  authorizing = authorize_account parse_query codec paths lib exchange prompt

  end_auth-AuthEnd :
      (r : Outcome (Unit {0}) × Machine) → name ≢ "" → Attempted r → AuthEnd (end_auth r)
  unfolding end_auth
  end_auth-AuthEnd (returned (ok u), m) given attempted = succeeded m given attempted
  end_auth-AuthEnd (returned (err e), m) given attempted = failed e m given attempted
  end_auth-AuthEnd (died, m) given attempted = crashed_later m given attempted

  auth_loaded-AuthEnd :
      (r : Outcome Config × Machine)
      → name ≢ ""
      → load config_path before ≡ r
      → AuthEnd (auth_loaded load authorizing name r)
  unfolding auth_loaded auth_found
  auth_loaded-AuthEnd (returned (ok cfg), m) given loaded =
      elim (find_account-first name cfg.accounts) [
        | inl (missing, nowhere) ↦ rw missing (unknown cfg m given loaded nowhere)
        | inr (a, found, here, same) ↦ rw found (
            end_auth-AuthEnd _ given (record {
              cfg = cfg;
              account = a;
              loaded_machine = m;
              loaded = loaded;
              listed = here;
              same_name = same;
              outcome =
                  authorize_account-Tried parse_query codec paths lib exchange prompt a.token_file m
                    a.credentials_file;
            }))
      ]
  auth_loaded-AuthEnd (returned (err e), m) given loaded = unloaded e m given loaded
  auth_loaded-AuthEnd (died, m) given loaded = crashed m given loaded

  named_empty : name ≡ "" → (name == "") ≡ true
  named_empty empty = ground arith

  named_given : name ≢ "" → (name == "") ≡ false
  named_given given = ground arith

  -- The command `auth` exits with code 2 without a name or for a name that no account has, and with code 3
  -- for a configuration that cannot be loaded, and then has only loaded it. Otherwise it is the outcome of
  -- `Authorize` for the account of that name, with code 0 for success and 4 for an error: no file has
  -- changed, or a token was saved to that account's token file, which has a refresh token and was given
  -- for a bare code that was pasted, or for the code of a redirect URL with the state of this run.
  pub run_auth-AuthEnd : AuthEnd (run_auth load authorizing config_path name before)
  unfolding run_auth
  run_auth-AuthEnd = elim (string_eq.dec name "") [
    | yes empty ↦ rw (named_empty empty) (unnamed empty)
    | no given ↦ rw (named_given given) (auth_loaded-AuthEnd (load config_path before) given refl)
  ]
