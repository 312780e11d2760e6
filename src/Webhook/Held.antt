-- ===== src/Webhook/Held.antt =====
-- The channels that the manager of internal/webhook/manager.go holds, against those that are live at the
-- provider, through a renewal.
use mathlib.Core.Path.{subst}
use calendar_bridge.Base.{
  ◌⊎◌, ◌≡◌, ◌≢◌, refl, sym, ap, ◌∙◌, String, Option, none, some, List, [], ◌∷◌, string_eq,
  Bool-cases, inl, inr,
}
use calendar_bridge.Base.Int.{ℤ}
use calendar_bridge.Base.Dict
use calendar_bridge.Base.Dict.{Dict}
use calendar_bridge.Effect.{Result, ok, err}
use calendar_bridge.Webhook.Manager.{
  Channel, Target, ChannelWatcher, Manager, note_channel, register, stop_old, after_register,
  needs_renew, renew_target, renew_expiring,
}
use calendar_bridge.Webhook.Renewal.{target_key, watch}

same_channel : (c d : Channel) → ◌≡◌ {A = Option Channel} (some c) (some d) → c ≡ d
same_channel c d same = cc

-- The channel under a key after another was put under a key.
insert-cases :
    (k j : String) (ch d : Channel) (channels : Dict Channel)
    → Dict.lookup k (Dict.insert j ch channels) ≡ some d
    → ((k ≡ j) × (d ≡ ch)) ⊎ ((k ≢ j) × (Dict.lookup k channels ≡ some d))
insert-cases k j ch d channels found = elim (string_eq.dec k j) [
  | yes same ↦ inl (
    same,
    sym (
        same_channel ch d (
          sym (Dict.lookup-insert_self j ch channels)
          ∙ ap (λ x. Dict.lookup x (Dict.insert j ch channels)) (sym same)
          ∙ found)),
  )
  | no other ↦
      inr (other, sym (Dict.lookup-insert_ne j k ch channels (λ same. other (sym same))) ∙ found)
]

module _ {W : Type 0} where
  -- The manager has a channel under this key.
  abbrev pub Has : String → Manager W → Type 0
  Has k m = (ch : Channel) × (Dict.lookup k m.channels ≡ some ch)

  insert-Has :
      (k j : String) (ch : Channel) (m : Manager W)
      → Has k m
      → Has k (record m { channels = Dict.insert j ch m.channels })
  insert-Has k j ch m (old, found) = elim (string_eq.dec j k) [
    | yes same ↦ (ch, rw (sym same) (Dict.lookup-insert_self j ch m.channels))
    | no other ↦ (old, Dict.lookup-insert_ne j k ch m.channels other ∙ found)
  ]

module _ {W : Type 0} (Live : Channel → W → Type 0) where
  -- What the provider does for a watcher: a channel that it gives is live, and is none of those that
  -- were live before; asking for one ends none, and stopping one ends no other.
  pub record Provides (watcher : ChannelWatcher W) : Type 0 where
    pub gives_live :
        (account calendar url token : String) (ttl : ℤ) (w : W) (ch : Channel) (w' : W)
        → watcher.watch account calendar url token ttl w ≡ (ok ch, w')
        → Live ch w'
    pub gives_new :
        (account calendar url token : String) (ttl : ℤ) (w : W) (ch : Channel) (w' : W)
        → watcher.watch account calendar url token ttl w ≡ (ok ch, w')
        → (d : Channel) → Live d w
        → d ≢ ch
    pub watch_ends_none :
        (account calendar url token : String) (ttl : ℤ) (w : W) (d : Channel)
        → Live d w
        → Live d (watcher.watch account calendar url token ttl w).1
    pub stop_ends_no_other :
        (ch d : Channel) (w : W) → d ≢ ch → Live d w → Live d (watcher.stop ch w).1

  -- Every channel that the manager holds is live, and under one key.
  pub record Holds (m : Manager W) (w : W) : Type 0 where
    pub all_live : (k : String) (ch : Channel) → Dict.lookup k m.channels ≡ some ch → Live ch w
    pub one_key :
        (k j : String) (ch : Channel)
        → Dict.lookup k m.channels ≡ some ch
        → Dict.lookup j m.channels ≡ some ch
        → k ≡ j

  -- What a renewal leaves of a manager: the channels are live, and no key has lost its channel.
  pub record Renews (m : Manager W) (r : Manager W × W) : Type 0 where
    pub same_watcher : r.0.watcher ≡ m.watcher
    pub holds : Holds r.0 r.1
    pub still_has : (k : String) → Has k m → Has k r.0

  module _ (m : Manager W) (provides : Provides m.watcher) (t : Target) where
    abbrev with_new : Channel → Manager W
    with_new ch = record m { channels = Dict.insert (target_key t) ch m.channels }

    stop_old-Live :
        (ch d : Channel) (old : Option Channel) (w : W)
        → ((o : Channel) → old ≡ some o → d ≢ o)
        → Live d w
        → Live d (stop_old (with_new ch) old w)
    unfolding stop_old
    stop_old-Live ch d none w other lives = lives
    stop_old-Live ch d (some o) w other lives =
        provides.stop_ends_no_other o d w (other o refl) lives

    module _ (w : W) (held : Holds m w) (old : Option Channel)
        (was : Dict.lookup (target_key t) m.channels ≡ old) where
      kept-Live :
          (ch : Channel) (w' : W) (k : String) (d : Channel)
          → Live d w'
          → k ≢ target_key t
          → Dict.lookup k m.channels ≡ some d
          → Live d (stop_old (with_new ch) old w')
      kept-Live ch w' k d lives other found =
          stop_old-Live ch d old w'
            (λ o same equal.
              other (held.one_key k (target_key t) d found (was ∙ same ∙ ap some (sym equal))))
            lives

      module _ (ch : Channel) (w' : W) (call : watch m t w ≡ (ok ch, w')) where
        is_new : (k : String) (d : Channel) → Dict.lookup k m.channels ≡ some d → d ≢ ch
        is_new k d found = provides.gives_new _ _ _ _ _ w ch w' call d (held.all_live k d found)

        earlier-Live : (k : String) (d : Channel) → Dict.lookup k m.channels ≡ some d → Live d w'
        earlier-Live k d found =
            subst (λ (r : Result Channel × W). Live d r.1) call
              (provides.watch_ends_none _ _ _ _ _ w d (held.all_live k d found))

        new-Live : Live ch (stop_old (with_new ch) old w')
        new-Live =
            stop_old-Live ch ch old w'
              (λ o same equal. is_new (target_key t) o (was ∙ same) (sym equal))
              (provides.gives_live _ _ _ _ _ w ch w' call)

        replaced-Live :
            (k : String) (d : Channel)
            → Dict.lookup k (with_new ch).channels ≡ some d
            → Live d (stop_old (with_new ch) old w')
        replaced-Live k d found = elim (insert-cases k (target_key t) ch d m.channels found) [
          | inl (same, new) ↦
              subst (λ (c : Channel). Live c (stop_old (with_new ch) old w')) (sym new) new-Live
          | inr (other, here) ↦ kept-Live ch w' k d (earlier-Live k d here) other here
        ]

        replaced_key :
            (k j : String) (d : Channel)
            → Dict.lookup k (with_new ch).channels ≡ some d
            → Dict.lookup j (with_new ch).channels ≡ some d
            → k ≡ j
        replaced_key k j d at_k at_j = elim (insert-cases k (target_key t) ch d m.channels at_k) [
          | inl (same, new) ↦ elim (insert-cases j (target_key t) ch d m.channels at_j) [
            | inl (same', new') ↦ same ∙ sym same'
            | inr (other, here) ↦ absurd (is_new j d here new)
          ]
          | inr (other, here) ↦ elim (insert-cases j (target_key t) ch d m.channels at_j) [
            | inl (same', new') ↦ absurd (is_new k d here new')
            | inr (other', here') ↦ held.one_key k j d here here'
          ]
        ]

      registered-Renews :
          (r : Result Channel × W)
          → watch m t w ≡ r
          → Renews m (after_register old (note_channel m t r.0, r.1))
      unfolding after_register note_channel
      registered-Renews (err e, w') call = record {
        same_watcher = refl;
        holds = record {
          all_live = λ k d found.
              subst (λ (r : Result Channel × W). Live d r.1) call
                (provides.watch_ends_none _ _ _ _ _ w d (held.all_live k d found));
          one_key = held.one_key;
        };
        still_has = λ k has. has;
      }
      registered-Renews (ok ch, w') call = record {
        same_watcher = refl;
        holds = record { all_live = replaced-Live ch w' call; one_key = replaced_key ch w' call };
        still_has = λ k has. insert-Has k (target_key t) ch m has;
      }

    renew_target-Renews : (now : ℤ) (w : W) → Holds m w → Renews m (renew_target now t m w)
    unfolding renew_target register
    renew_target-Renews now w held =
        elim (Bool-cases (needs_renew now m (Dict.lookup (target_key t) m.channels))) [
          | inl due ↦ rw due (registered-Renews w held _ refl (watch m t w) refl)
          | inr fresh ↦
              rw fresh (record { same_watcher = refl; holds = held; still_has = λ k has. has })
        ]

  -- If all channels that the manager holds are live at the provider, each under one key, then they are
  -- after a renewal too, and every key that had a channel has one, whatever the watcher answers: if the
  -- provider's new channels are live and new, and no call but its own stop ends a channel.
  pub renew_expiring-Holds :
      (now : ℤ) (targets : List Target) (m : Manager W) (w : W)
      → Provides m.watcher
      → Holds m w
      → Holds (renew_expiring now targets m w).0 (renew_expiring now targets m w).1
        × ((k : String) → Has k m → Has k (renew_expiring now targets m w).0)
  unfolding renew_expiring
  renew_expiring-Holds now [] m w provides held = (held, λ k has. has)
  renew_expiring-Holds now (t ∷ targets) m w provides held =
      let first = renew_target-Renews m provides t now w held in
      let (holds, has) =
        renew_expiring-Holds now targets _ _ (subst Provides (sym first.same_watcher) provides)
          first.holds in
      (holds, λ k here. has k (first.still_has k here))
