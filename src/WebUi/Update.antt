-- ===== src/WebUi/Update.antt =====
-- What a PUT of a configuration to internal/webui/handlers.go may leave in the file, wherever it fails.
use calendar_bridge.Base.{
  ◌≡◌, ◌≢◌, ◌↔◌, refl, sym, ap, ◌∙◌, String, Bool, not, if◌then◌else◌, true, false, ◌⊎◌, inl, inr,
  Option, none, some, ltb, Bool-cases, string_eq, arith,
}
use mathlib.Core.Path.{subst}
use Prim.Native.String
use calendar_bridge.Base.Dict.{Dict}
use calendar_bridge.Effect.{Result, ok, err}
use calendar_bridge.Disk.{Disk, Machine, Outcome, returned, died, Io, read_file, Survives}
use calendar_bridge.Disk.Reads.{read_file-disk}
use calendar_bridge.Disk.Rules.{explained-machine, after-answer}
use calendar_bridge.AtomicFile.{temp_path, owner_only, write}
use calendar_bridge.AtomicFile.Crash.{write-Survives}
use calendar_bridge.Config.{WebhookConfig, Config}
use calendar_bridge.Config.Validate.{Problem, validate}
use calendar_bridge.Config.Files.{load, load_text, save, save_checked, save_text}
use calendar_bridge.WebUi.Http.{Request, World, write_json, write_error}
use calendar_bridge.WebUi.Handlers.{
  Packages, Server, or_existing, is_no_webhook, merged_web_ui, merged, answer_saved, put_loaded,
  put_decoded, max_body, handle_put_config,
}

-- `config.Webhook{}`
abbrev pub no_webhook : WebhookConfig
no_webhook = record {
  enabled = false;
  public_url = "";
  listen_addr = "";
  verification_token = "";
  channel_ttl = "";
  debounce_interval = "";
}

-- A text that was sent, or the one that was there where none was sent.
abbrev pub Carried : String → String → String → Type 0
Carried existing incoming saved =
    ((incoming ≢ "") × (saved ≡ incoming)) ⊎ ((incoming ≡ "") × (saved ≡ existing))

-- What is saved is what was sent, but for the settings of the UI that were not sent, which are as they
-- were, and for the webhook, which is as it was if nothing of it was sent.
pub record Merges (existing incoming saved : Config) : Type 0 where
  pub accounts : saved.accounts ≡ incoming.accounts
  pub poll_interval : saved.poll_interval ≡ incoming.poll_interval
  pub lookahead_days : saved.lookahead_days ≡ incoming.lookahead_days
  pub block_title : saved.block_title ≡ incoming.block_title
  pub metrics : saved.metrics ≡ incoming.metrics
  pub enabled :
      (saved.web_ui.enabled ≡ true)
      ↔ ((incoming.web_ui.enabled ≡ true) ⊎ (existing.web_ui.enabled ≡ true))
  pub listen_addr :
      Carried existing.web_ui.listen_addr incoming.web_ui.listen_addr saved.web_ui.listen_addr
  pub auth_token :
      Carried existing.web_ui.auth_token incoming.web_ui.auth_token saved.web_ui.auth_token
  pub webhook :
      ((incoming.webhook ≡ no_webhook) × (saved.webhook ≡ existing.webhook))
      ⊎ ((incoming.webhook ≢ no_webhook) × (saved.webhook ≡ incoming.webhook))

or_existing-Carried :
    (incoming existing : String) → Carried existing incoming (or_existing incoming existing)
or_existing-Carried incoming existing = elim (string_eq.dec incoming "") [
  | yes empty ↦ inr (empty, ground arith)
  | no set ↦ inl (set, ground arith)
]

enabled_cases :
    (incoming existing : Bool)
    → ((if not incoming then existing else incoming) ≡ true)
      ↔ ((incoming ≡ true) ⊎ (existing ≡ true))
enabled_cases true existing = ((λ h. inl refl), λ h. refl)
enabled_cases false true = ((λ h. inr refl), λ h. refl)
enabled_cases false false = ((λ h. cc), λ h. elim h [ inl a ↦ a | inr b ↦ b ])

webhook_empty : (h : WebhookConfig) → is_no_webhook h ≡ true → h ≡ no_webhook
unfolding is_no_webhook
webhook_empty h e = λ i. record {
  enabled = enabled_off i;
  public_url = url i;
  listen_addr = listen i;
  verification_token = token i;
  channel_ttl = ttl i;
  debounce_interval = debounce i;
}
  where
    enabled_off : h.enabled ≡ false
    enabled_off = ground arith

    url : h.public_url ≡ ""
    url = ground arith

    listen : h.listen_addr ≡ ""
    listen = ground arith

    token : h.verification_token ≡ ""
    token = ground arith

    ttl : h.channel_ttl ≡ ""
    ttl = ground arith

    debounce : h.debounce_interval ≡ ""
    debounce = ground arith

no_webhook_empty : is_no_webhook no_webhook ≡ true
unfolding is_no_webhook string_eq
no_webhook_empty = refl

webhook_sent : (h : WebhookConfig) → is_no_webhook h ≡ false → h ≢ no_webhook
webhook_sent h e same = true_is_not_false (sym (ap is_no_webhook same ∙ no_webhook_empty) ∙ e)
  where
    true_is_not_false : ◌≢◌ {A = Bool} true false
    true_is_not_false = λ h. cc

webhook_cases :
    (existing incoming : WebhookConfig)
    → ((incoming ≡ no_webhook)
        × ((if is_no_webhook incoming then existing else incoming) ≡ existing))
      ⊎ ((incoming ≢ no_webhook)
          × ((if is_no_webhook incoming then existing else incoming) ≡ incoming))
webhook_cases existing incoming = elim (Bool-cases (is_no_webhook incoming)) [
  | inl h ↦ inl (webhook_empty incoming h, rw h refl)
  | inr h ↦ inr (webhook_sent incoming h, rw h refl)
]

merged-Merges : (existing incoming : Config) → Merges existing incoming (merged existing incoming)
unfolding merged merged_web_ui
merged-Merges existing incoming = record {
  accounts = refl;
  poll_interval = refl;
  lookahead_days = refl;
  block_title = refl;
  metrics = refl;
  enabled = enabled_cases incoming.web_ui.enabled existing.web_ui.enabled;
  listen_addr = or_existing-Carried _ _;
  auth_token = or_existing-Carried _ _;
  webhook = webhook_cases existing.webhook incoming.webhook;
}

module _ {W : Type 0} (p : Packages) (s : Server W) where
  abbrev pub load_config : Io Config
  load_config = load p.durations p.parse_url p.explain p.yaml s.config_path

  abbrev pub save_config : Config → Io (Unit {0})
  save_config = save p.durations p.parse_url p.explain p.yaml p.paths s.config_path

  load_config-disk : (m : Machine) → (load_config m).1.disk ≡ m.disk
  unfolding load
  load_config-disk m =
      ap (λ (n : Machine). n.disk)
        (after-answer _ (load_text p.durations p.parse_url p.explain p.yaml)
          ∙ explained-machine _ (read_file s.config_path m))
      ∙ read_file-disk s.config_path m

  -- The body is this configuration with nothing after it.
  abbrev pub Sent : String → Config → Type 0
  Sent body incoming =
      (rest : String) × (p.decode body ≡ some (incoming, rest)) × (p.is_ended rest ≡ true)

  -- What a PUT of this body saves: the valid merge of what it has sent with what `Load` read before.
  pub record Saved (m : Machine) (body text : String) : Type 0 where
    pub existing : Config
    pub incoming : Config
    pub saved : Config
    pub sent : Sent body incoming
    pub loaded : (load_config m).0 ≡ returned (ok existing)
    pub merges : Merges existing incoming saved
    pub valid : validate p.durations p.parse_url saved ≡ none
    pub marshaled : p.yaml.marshal saved ≡ ok text

  -- What can be read after a crash of a machine that was `m` before the PUT.
  abbrev pub Left : Machine → String → Option String → Type 0
  Left m body c =
      Survives m.disk s.config_path c ⊎ ((text : String) × (c ≡ some text) × Saved m body text)

  module _ (m : Machine) (body : String) (c : Option String)
      (other : (suffix : String) → temp_path p.paths s.config_path suffix ≢ s.config_path) where
    save_text-Left :
        (existing incoming : Config) (text : Result String) (m₁ : Machine)
        → m₁.disk ≡ m.disk
        → Sent body incoming
        → (load_config m).0 ≡ returned (ok existing)
        → validate p.durations p.parse_url (merged existing incoming) ≡ none
        → p.yaml.marshal (merged existing incoming) ≡ text
        → Survives
            (save_text p.durations p.parse_url p.explain p.yaml p.paths s.config_path text
              m₁).1.disk
            s.config_path
            c
        → Left m body c
    unfolding save_text
    save_text-Left existing incoming (err e) m₁ same sent loaded valid marshaled left =
        inl (subst (λ (d : Disk). Survives d s.config_path c) same left)
    save_text-Left existing incoming (ok text) m₁ same sent loaded valid marshaled left =
        elim (write-Survives p.paths s.config_path text owner_only m₁ c other (
          subst (λ (n : Machine). Survives n.disk s.config_path c)
            (explained-machine _ (write p.paths s.config_path text owner_only m₁)) left)) [
              | inl new ↦ inr (
                text,
                new,
                record {
                  existing = existing;
                  incoming = incoming;
                  saved = merged existing incoming;
                  sent = sent;
                  loaded = loaded;
                  merges = merged-Merges existing incoming;
                  valid = valid;
                  marshaled = marshaled;
                },
              )
              | inr (old, failed) ↦ inl (subst (λ (d : Disk). Survives d s.config_path c) same old)
            ]

    save_checked-Left :
        (existing incoming : Config) (problem : Option Problem) (m₁ : Machine)
        → m₁.disk ≡ m.disk
        → Sent body incoming
        → (load_config m).0 ≡ returned (ok existing)
        → validate p.durations p.parse_url (merged existing incoming) ≡ problem
        → Survives
            (save_checked p.durations p.parse_url p.explain p.yaml p.paths s.config_path
              (merged existing incoming)
              problem
              m₁).1.disk
            s.config_path
            c
        → Left m body c
    unfolding save_checked
    save_checked-Left existing incoming (some problem) m₁ same sent loaded found left =
        inl (subst (λ (d : Disk). Survives d s.config_path c) same left)
    save_checked-Left existing incoming none m₁ same sent loaded found left =
        save_text-Left existing incoming (p.yaml.marshal (merged existing incoming)) m₁ same sent
          loaded found refl left

    answer_saved-machine :
        (headers : Dict String) (w : World W) (r : Outcome (Unit {0}) × Machine)
        → (answer_saved p s headers w r).1.machine ≡ r.1
    unfolding answer_saved write_error write_json
    answer_saved-machine headers w (returned (ok a), n) = refl
    answer_saved-machine headers w (returned (err e), n) = refl
    answer_saved-machine headers w (died, n) = refl

    put_loaded-Left :
        (incoming : Config) (headers : Dict String) (w : World W) (r : Outcome Config × Machine)
        → r.1.disk ≡ m.disk
        → Sent body incoming
        → load_config m ≡ r
        → Survives (put_loaded p s incoming headers w r).1.machine.disk s.config_path c
        → Left m body c
    unfolding put_loaded write_error write_json save
    put_loaded-Left incoming headers w (returned (ok existing), m₁) same sent loaded left =
        save_checked-Left existing incoming _ m₁ same sent
          (ap (λ (x : Outcome Config × Machine). x.0) loaded) refl
          (subst (λ (n : Machine). Survives n.disk s.config_path c)
            (answer_saved-machine headers w (save_config (merged existing incoming) m₁)) left)
    put_loaded-Left incoming headers w (returned (err e), m₁) same sent loaded left =
        inl (subst (λ (d : Disk). Survives d s.config_path c) same left)
    put_loaded-Left incoming headers w (died, m₁) same sent loaded left =
        inl (subst (λ (d : Disk). Survives d s.config_path c) same left)

  module _ (headers : Dict String) (w : World W) (c : Option String)
      (other : (suffix : String) → temp_path p.paths s.config_path suffix ≢ s.config_path) where
    put_decoded-Left :
        (body : String) (decoded : Option (Config × String))
        → p.decode body ≡ decoded
        → Survives (put_decoded p s decoded headers w).1.machine.disk s.config_path c
        → Left w.machine body c
    unfolding put_decoded write_error write_json
    put_decoded-Left body none same left = inl left
    put_decoded-Left body (some (incoming, rest)) same left = elim (Bool-cases (p.is_ended rest)) [
      | inl h ↦
          put_loaded-Left w.machine body c other incoming headers w (load_config w.machine)
            (load_config-disk w.machine) (rest, same, h) refl (rw h at left)
      | inr h ↦ inl (rw h at left)
    ]

    -- Wherever a PUT of a configuration fails and whenever the machine crashes, what can be read of the
    -- configuration file after a crash could be read there before, or is the text of a configuration
    -- that `Validate` accepts: the one that is the whole body of the request, but with the listen address
    -- and the token of the UI that `Load` had read where the body has none, with the UI on if it is on in
    -- either, and with the webhook that `Load` had read where the body has an empty one; if no temporary
    -- file has the path for its name.
    pub handle_put_config-Left :
        (req : Request)
        → Survives (handle_put_config p s req headers w).1.machine.disk s.config_path c
        → Left w.machine req.body c
    unfolding handle_put_config write_error write_json
    handle_put_config-Left req left = elim (Bool-cases (ltb max_body (String.len req.body))) [
      | inl h ↦ inl (rw h at left)
      | inr h ↦ put_decoded-Left req.body (p.decode req.body) refl (rw h at left)
    ]
