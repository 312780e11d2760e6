-- ===== src/Webhook/Renewal.antt =====
-- The renewal of channels in internal/webhook/manager.go: each calendar has a fresh channel where the
-- watcher gives it.
use mathlib.Core.List.{Memᴰ}
use mathlib.Core.Path.{subst}
use calendar_bridge.Base.{
  ◌≡◌, ◌≢◌, refl, sym, ap, ◌∙◌, String, false, ◌⊎◌, inl, inr, Option, none, some, List, [], ◌∷◌,
  string_eq, Bool-cases,
}
use calendar_bridge.Base.Int.{ℤ, ◌+ℤ◌, ltb_ℤ}
use calendar_bridge.Base.Dict
use calendar_bridge.Base.Dict.{Dict}
use calendar_bridge.Fault.{Fault}
use calendar_bridge.Effect.{Result, ok, err}
use calendar_bridge.Webhook.Manager.{
  Channel, Target, Manager, key, note_channel, register, after_register, needs_renew, renew_target,
  renew_expiring,
}

abbrev pub target_key : Target → String
target_key t = key t.account t.calendar_id

module _ {W : Type 0} where
  abbrev pub watch : Manager W → Target → W → Result Channel × W
  watch m t w = m.watcher.watch t.account t.calendar_id m.callback_url m.token m.ttl w

  abbrev with_channel : Manager W → Target → Channel → Manager W
  with_channel m t ch = record m { channels = Dict.insert (target_key t) ch m.channels }

  after_watch :
      (m : Manager W) (t : Target) (old : Option Channel) (r : Result Channel × W)
      → ((e : Fault) × (w : W) × (r ≡ (err e, w))
          × ((after_register old (note_channel m t r.0, r.1)).0 ≡ m))
        ⊎ ((ch : Channel) × (w : W) × (r ≡ (ok ch, w))
            × ((after_register old (note_channel m t r.0, r.1)).0 ≡ with_channel m t ch))
  unfolding after_register note_channel
  after_watch m t old (err e, w) = inl (e, w, refl, refl)
  after_watch m t old (ok ch, w) = inr (ch, w, refl, refl)

  -- A renewal leaves the manager as it is, because the channel is fresh or the watcher fails, or it
  -- puts the watcher's channel in place.
  renew_target-cases :
      (now : ℤ) (t : Target) (m : Manager W) (w : W)
      → ((needs_renew now m (Dict.lookup (target_key t) m.channels) ≡ false)
          × ((renew_target now t m w).0 ≡ m))
        ⊎ (((e : Fault) × (w' : W) × (watch m t w ≡ (err e, w')) × ((renew_target now t m w).0 ≡ m))
            ⊎ ((ch : Channel) × (w' : W) × (watch m t w ≡ (ok ch, w'))
                × ((renew_target now t m w).0 ≡ with_channel m t ch)))
  unfolding renew_target register
  renew_target-cases now t m w =
      elim (Bool-cases (needs_renew now m (Dict.lookup (target_key t) m.channels))) [
        | inl due ↦ rw due (inr (after_watch m t _ (watch m t w)))
        | inr fresh ↦ rw fresh (inl (refl, refl))
      ]

needs_renew-fresh :
    {W : Type 0} (now : ℤ) (m : Manager W) (o : Option Channel)
    → needs_renew now m o ≡ false
    → (ch : Channel) × (o ≡ some ch) × (ltb_ℤ ch.expiry (now +ℤ m.renew_skew) ≡ false)
unfolding needs_renew
needs_renew-fresh now m none h = cc
needs_renew-fresh now m (some ch) h = (ch, refl, h)

ok-eq : (c d : Channel) → ◌≡◌ {A = Result Channel} (ok c) (ok d) → c ≡ d
ok-eq c d same = cc

module _ {W : Type 0} (now : ℤ) (m : Manager W) where
  -- The channel under this key needs no renewal.
  abbrev pub Fresh : String → Dict Channel → Type 0
  Fresh k channels =
      (ch : Channel) × (Dict.lookup k channels ≡ some ch)
      × (ltb_ℤ ch.expiry (now +ℤ m.renew_skew) ≡ false)

module _ {W : Type 0} (now : ℤ) (m : Manager W)
    (reliable : (t : Target) (w : W)
      → (ch : Channel) × (w' : W) × (watch m t w ≡ (ok ch, w'))
        × (ltb_ℤ ch.expiry (now +ℤ m.renew_skew) ≡ false)) where
  abbrev holding : Dict Channel → Manager W
  holding channels = record m { channels = channels }

  given_is_fresh :
      (t : Target) (w : W) (ch : Channel) (w' : W)
      → watch m t w ≡ (ok ch, w')
      → ltb_ℤ ch.expiry (now +ℤ m.renew_skew) ≡ false
  given_is_fresh t w ch w' call =
      let (given, v, answer, fresh) = reliable t w in
      subst (λ (c : Channel). ltb_ℤ c.expiry (now +ℤ m.renew_skew) ≡ false)
        (ok-eq given ch (ap (λ (r : Result Channel × W). r.0) (sym answer ∙ call))) fresh

  insert-Fresh :
      (k j : String) (ch : Channel) (channels : Dict Channel)
      → ltb_ℤ ch.expiry (now +ℤ m.renew_skew) ≡ false
      → Fresh now m k channels
      → Fresh now m k (Dict.insert j ch channels)
  insert-Fresh k j ch channels given (old, found, fresh) = elim (string_eq.dec j k) [
    | yes same ↦ (ch, rw (sym same) (Dict.lookup-insert_self j ch channels), given)
    | no other ↦ (old, Dict.lookup-insert_ne j k ch channels other ∙ found, fresh)
  ]

  -- What a renewal makes of the channels.
  abbrev Renewed : Target → Dict Channel → Manager W → Type 0
  Renewed t channels result =
      (after : Dict Channel) × (result ≡ holding after)
      × Fresh now m (target_key t) after
      × ((k : String) → Fresh now m k channels → Fresh now m k after)

  renew_target-Renewed :
      (t : Target) (channels : Dict Channel) (w : W)
      → Renewed t channels (renew_target now t (holding channels) w).0
  renew_target-Renewed t channels w = elim (renew_target-cases now t (holding channels) w) [
    | inl (fresh, same) ↦
        (channels, same, needs_renew-fresh now (holding channels) _ fresh, λ k old. old)
    | inr (inl (e, w', call, same)) ↦
        let (given, v, answer, fresh) = reliable t w in
        absurd (ok_is_no_error given e (ap (λ (r : Result Channel × W). r.0) (sym answer ∙ call)))
    | inr (inr (ch, w', call, same)) ↦ (
      Dict.insert (target_key t) ch channels,
      same,
      (ch, Dict.lookup-insert_self (target_key t) ch channels, given_is_fresh t w ch w' call),
      λ k old. insert-Fresh k (target_key t) ch channels (given_is_fresh t w ch w' call) old,
    )
  ]
    where
      ok_is_no_error : (c : Channel) (e : Fault) → ◌≢◌ {A = Result Channel} (ok c) (err e)
      ok_is_no_error c e same = cc

  abbrev AllRenewed : List Target → Dict Channel → Manager W → Type 0
  AllRenewed targets channels result =
      (after : Dict Channel) × (result ≡ holding after)
      × ((t : Target) → Memᴰ t targets → Fresh now m (target_key t) after)
      × ((k : String) → Fresh now m k channels → Fresh now m k after)

  renew_expiring-AllRenewed :
      (targets : List Target) (channels : Dict Channel) (w : W)
      → AllRenewed targets channels (renew_expiring now targets (holding channels) w).0
  unfolding renew_expiring
  renew_expiring-AllRenewed [] channels w =
      (channels, refl, (λ t here. elim here [ ]), λ k old. old)
  renew_expiring-AllRenewed (t ∷ targets) channels w =
      let (between, same, fresh, kept) = renew_target-Renewed t channels w in
      let (after, same', all, kept') =
        renew_expiring-AllRenewed targets between (renew_target now t (holding channels) w).1 in
      (
        after,
        ap (λ x. (renew_expiring now targets x (renew_target now t (holding channels) w).1).0) same
            ∙ same',
        every between after fresh kept' all,
        λ k old. kept' k (kept k old),
      )
    where
      every :
          (between after : Dict Channel)
          → Fresh now m (target_key t) between
          → ((k : String) → Fresh now m k between → Fresh now m k after)
          → ((u : Target) → Memᴰ u targets → Fresh now m (target_key u) after)
          → (u : Target) → Memᴰ u (t ∷ targets)
          → Fresh now m (target_key u) after
      every between after fresh kept all u (Memᴰ.head p) =
          subst (λ (v : Target). Fresh now m (target_key v) after) (sym p) (kept _ fresh)
      every between after fresh kept all u (Memᴰ.tail here) = all u here

  -- After a renewal every target has a channel that needs none, if the watcher answers each request
  -- by a channel that outlives the time of the renewal by the skew at least.
  pub renew_expiring-Fresh :
      (targets : List Target) (w : W) (t : Target)
      → Memᴰ t targets
      → Fresh now m (target_key t) (renew_expiring now targets m w).0.channels
  renew_expiring-Fresh targets w t here =
      let (after, same, all, kept) = renew_expiring-AllRenewed targets m.channels w in
      rw same (all t here)
