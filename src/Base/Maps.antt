-- ===== src/Base/Maps.antt =====
-- Go maps with string keys, as association lists without an order that a caller can see.
use mathlib.Core.Path.{◌≡◌, refl}
use mathlib.Core.Bool.{Bool}
use mathlib.Core.Option.{Option, none, some}
use mathlib.Core.List.{List, [], ◌∷◌}
use native.Mathlib.Omega.{arith}
use zeus_dns_cli.Base.Tests.{if◌then◌else◌}
use zeus_dns_cli.Base.Bytes.{Text, text_eq, text_eq_iff}

abbrev pub Dict {ℓ} : Type ℓ → Type ℓ
Dict V = List (Text × V)

module _ {ℓ} {V : Type ℓ} where
  -- `v, ok := m[k]`
  unfoldable pub lookup : Text → Dict V → Option V
  lookup k [] = none
  lookup k ((j, v) ∷ m) = if text_eq j k then some v else lookup k m

  -- `m[k] = v`
  unfoldable pub insert : Text → V → Dict V → Dict V
  insert k v [] = (k, v) ∷ []
  insert k v ((j, w) ∷ m) = if text_eq j k then (k, v) ∷ m else (j, w) ∷ insert k v m

  -- `delete(m, k)`
  unfoldable pub erase : Text → Dict V → Dict V
  erase k [] = []
  erase k ((j, w) ∷ m) = let rest = erase k m in if text_eq j k then rest else (j, w) ∷ rest

  pub lookup-insert :
      (j k : Text) (v : V) (m : Dict V)
      → lookup j (insert k v m) ≡ (if text_eq k j then some v else lookup j m)
  unfolding lookup insert
  lookup-insert j k v [] = refl
  lookup-insert j k v ((i, w) ∷ m) =
      ground (arith, text_eq_iff k j, text_eq_iff i k, text_eq_iff i j, lookup-insert j k v m)

  pub lookup-erase :
      (j k : Text) (m : Dict V) → lookup j (erase k m) ≡ (if text_eq k j then none else lookup j m)
  unfolding lookup erase
  lookup-erase j k [] = ground arith
  lookup-erase j k ((i, w) ∷ m) =
      ground (arith, text_eq_iff k j, text_eq_iff i k, text_eq_iff i j, lookup-erase j k m)

module _ {ℓ} {V : Type ℓ} where
  -- The keys of a Go map are distinct.
  abbrev pub NodupKeys : Dict V → Type ℓ
  NodupKeys [] = Unit
  NodupKeys ((k, v) ∷ m) = (lookup k m ≡ none) × NodupKeys m

  pub insert-NodupKeys : (k : Text) (v : V) (m : Dict V) → NodupKeys m → NodupKeys (insert k v m)
  unfolding insert lookup
  insert-NodupKeys k v [] u = (refl, tt)
  insert-NodupKeys k v ((j, w) ∷ m) (new, u) =
      ground
        (arith, text_eq_iff j k, text_eq_iff k j, insert-NodupKeys k v m u, lookup-insert j k v m)

  -- `for k, v := range m { if !keep(v) { delete(m, k) } }`
  unfoldable pub retain : (V → Bool) → Dict V → Dict V
  retain keep [] = []
  retain keep ((k, v) ∷ m) = let rest = retain keep m in if keep v then (k, v) ∷ rest else rest

  pub lookup-retain_absent :
      (keep : V → Bool) (j : Text) (m : Dict V)
      → lookup j m ≡ none
      → lookup j (retain keep m) ≡ none
  unfolding lookup retain
  lookup-retain_absent keep j [] h = refl
  lookup-retain_absent keep j ((k, v) ∷ m) h = ground (arith, lookup-retain_absent keep j m)

  pub lookup-retain :
      (keep : V → Bool) (j : Text) (m : Dict V)
      → NodupKeys m
      → lookup j (retain keep m)
        ≡ elim (lookup j m) [ none ↦ none | some v ↦ if keep v then some v else none ]
  unfolding lookup retain
  lookup-retain keep j [] u = refl
  lookup-retain keep j ((k, v) ∷ m) (new, u) =
      ground (arith, text_eq_iff k j, lookup-retain keep j m u, lookup-retain_absent keep k m new)

  pub retain-NodupKeys : (keep : V → Bool) (m : Dict V) → NodupKeys m → NodupKeys (retain keep m)
  unfolding retain
  retain-NodupKeys keep [] u = tt
  retain-NodupKeys keep ((k, v) ∷ m) (new, u) =
      ground (arith, retain-NodupKeys keep m u, lookup-retain_absent keep k m new)
