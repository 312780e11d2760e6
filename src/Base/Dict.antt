-- ===== src/Base/Dict.antt =====
-- Go maps with text keys, as association lists with one entry for a key.
use Prim.Native.String.{String}
use mathlib.Core.Path.{◌≡◌, refl, sym, ◌∙◌, subst₂}
use mathlib.Core.Logic.{◌≢◌}
use mathlib.Core.Option.{Option, none, some, some-injective}
use mathlib.Core.List.{List, [], ◌∷◌}
use native.Mathlib.Omega.{arith}
use calendar_bridge.Base.Bools.{◌==◌, string_eq, if◌then◌else◌}

abbrev pub Dict {ℓ} : Type ℓ → Type ℓ
Dict V = List (String × V)

module _ {ℓ} {V : Type ℓ} where
  unfoldable pub lookup : String → Dict V → Option V
  lookup k [] = none
  lookup k ((j, v) ∷ d) = if j == k then some v else lookup k d

  -- `d[k] = v`
  unfoldable pub insert : String → V → Dict V → Dict V
  insert k v [] = (k, v) ∷ []
  insert k v ((j, w) ∷ d) = if j == k then (k, v) ∷ d else (j, w) ∷ insert k v d

  -- `delete(d, k)`
  unfoldable pub remove : String → Dict V → Dict V
  remove k [] = []
  remove k ((j, v) ∷ d) = if j == k then remove k d else (j, v) ∷ remove k d

  -- `d[k] = f(d[k])`, if the key is there.
  unfoldable pub update : String → (V → V) → Dict V → Dict V
  update k f [] = []
  update k f ((j, v) ∷ d) = if j == k then (j, f v) ∷ d else (j, v) ∷ update k f d

  pub lookup-insert :
      (k j : String) (v : V) (d : Dict V)
      → lookup j (insert k v d) ≡ (if k == j then some v else lookup j d)
  unfolding lookup insert
  lookup-insert k j v [] = refl
  lookup-insert k j v ((i, w) ∷ d) = ground (arith, lookup-insert k j v d)

module _ {ℓ} {V : Type ℓ} where
  pub lookup-remove :
      (k j : String) (d : Dict V) → lookup j (remove k d) ≡ (if k == j then none else lookup j d)
  unfolding lookup remove
  lookup-remove k j [] = ground arith
  lookup-remove k j ((i, v) ∷ d) = ground (arith, lookup-remove k j d)

  pub lookup-update_self :
      (k : String) (f : V → V) (d : Dict V) (v : V)
      → lookup k d ≡ some v
      → lookup k (update k f d) ≡ some (f v)
  unfolding lookup update
  lookup-update_self k f [] v h = cc
  lookup-update_self k f ((i, w) ∷ d) v h = ground (arith, lookup-update_self k f d v)

  pub lookup-update_ne :
      (k j : String) (f : V → V) (d : Dict V) → k ≢ j → lookup j (update k f d) ≡ lookup j d
  unfolding lookup update
  lookup-update_ne k j f [] other = refl
  lookup-update_ne k j f ((i, w) ∷ d) other = ground (arith, lookup-update_ne k j f d other)

  pub lookup-remove_ne : (k j : String) (d : Dict V) → k ≢ j → lookup j (remove k d) ≡ lookup j d
  lookup-remove_ne k j d other = ground (arith, lookup-remove k j d)

-- `d[k]` where a missing key reads as the zero value.
unfoldable pub get : String → Dict String → String
unfolding lookup
get k d = elim (lookup k d) [ none ↦ "" | some v ↦ v ]

module _ {ℓ} {V : Type ℓ} where
  pub lookup-insert_self : (k : String) (v : V) (d : Dict V) → lookup k (insert k v d) ≡ some v
  lookup-insert_self k v d = ground (arith, lookup-insert k k v d)

  pub lookup-insert_ne :
      (k j : String) (v : V) (d : Dict V) → k ≢ j → lookup j (insert k v d) ≡ lookup j d
  lookup-insert_ne k j v d other = ground (arith, lookup-insert k j v d)

module _ {ℓ κ} {V : Type ℓ} (P : String → V → Type κ) where
  -- What holds of each entry holds after an insertion for which it holds.
  pub insert_entries :
      (key : String) (v : V) (d : Dict V)
      → P key v
      → ((k : String) (c : V) → lookup k d ≡ some c → P k c)
      → (k : String) (c : V) → lookup k (insert key v d) ≡ some c
      → P k c
  insert_entries key v d new old k c found = elim (string_eq.dec key k) [
    | yes same ↦
        subst₂ P same
          (some-injective v c (sym (lookup-insert_self key v d) ∙ (rw (← same) at found))) new
    | no other ↦ old k c (sym (lookup-insert_ne key k v d other) ∙ found)
  ]
