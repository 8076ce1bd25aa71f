-- ===== src/Common/Dict.antt =====
-- A Go map with text keys, as an association list that repeats no key.
use mathlib.Core.Path.{subst}
use mathlib.Core.Option.{some-injective, none-ne-some}
use Prim.Native.String.{String}
use mathlib.Core.Path.{◌≡◌, refl, sym, ◌∙◌}
use mathlib.Core.Logic.{inl, inr}
use mathlib.Core.Bool.{Bool, true}
use mathlib.Core.Option.{Option, none, some}
use mathlib.Core.List.{List, [], ◌∷◌}
use native.Mathlib.Omega.{arith}
use text.Mathlib.Text.{◌==◌}
use text.Mathlib.TextEquality.{eq_iff}
use text.Mathlib.TextPositions.{eq_refl}
use abctl.Common.Tests.{if◌then◌else◌, Bool-cases}
use abctl.Common.Lists.{any}

module _ {ℓ} {V : Type ℓ} where
  -- v, ok := m[key]
  unfoldable pub lookup : String → List (String × V) → Option V
  lookup key [] = none
  lookup key ((head, value) ∷ tail) =
      let below = lookup key tail in if head == key then some value else below

  -- m[key] = value
  unfoldable pub insert : String → V → List (String × V) → List (String × V)
  insert key value [] = (key, value) ∷ []
  insert key value ((head, old) ∷ tail) =
      let below = insert key value tail in
      if head == key then (key, value) ∷ tail else (head, old) ∷ below

  pub lookup-insert :
      (key at : String) (value : V) (entries : List (String × V))
      → lookup at (insert key value entries) ≡ (if key == at then some value else lookup at entries)
  unfolding lookup insert
  lookup-insert key at value [] = refl
  lookup-insert key at value ((head, old) ∷ tail) =
      ground
        (arith, lookup-insert key at value tail, eq_iff head key, eq_iff head at, eq_iff key at)

  abbrev pub IsUnique : List (String × V) → Type ℓ
  IsUnique [] = Unit
  IsUnique ((k, v) ∷ m) = (lookup k m ≡ none) × IsUnique m

  pub insert-IsUnique :
      (k : String) (v : V) (m : List (String × V)) → IsUnique m → IsUnique (insert k v m)
  unfolding lookup insert
  insert-IsUnique k v [] u = (refl, tt)
  insert-IsUnique k v ((j, w) ∷ m) (fresh, u) = elim (Bool-cases (j == k)) [
    | inl same ↦ rw same (subst (λ (i : String). lookup i m ≡ none) ((eq_iff j k).0 same) fresh, u)
    | inr other ↦
        rw other
          (ground (arith, lookup-insert k j v m, eq_iff j k, eq_iff k j), insert-IsUnique k v m u)
  ]

  -- An entry that the map holds is among those that a range over it visits.
  pub any-lookup :
      (p : String × V → Bool) (k : String) {v : V} (m : List (String × V))
      → lookup k m ≡ some v
      → p (k, v) ≡ true
      → any p m ≡ true
  unfolding lookup
  any-lookup p k [] e h = cc
  any-lookup p k {v} ((j, w) ∷ m) e h = elim (Bool-cases (j == k)) [
    | inl same ↦
        let visited : p (j, w) ≡ true =
          subst (λ (x : V). p (j, x) ≡ true) (sym (some-injective w v (rw same at e)))
            (subst (λ (i : String). p (i, v) ≡ true) (sym ((eq_iff j k).0 same)) h) in
        rw visited
    | inr other ↦ ground (arith, any-lookup p k m (rw other at e) h)
  ]

  lookup-tail :
      (j k : String) {v : V} (w : V) (m : List (String × V))
      → lookup j m ≡ none
      → lookup k m ≡ some v
      → lookup k ((j, w) ∷ m) ≡ some v
  unfolding lookup
  lookup-tail j k {v} w m fresh found = elim (Bool-cases (j == k)) [
    | inl same ↦ absurd (
        none-ne-some v
          (subst (λ (i : String). none ≡ lookup i m) ((eq_iff j k).0 same) (sym fresh) ∙ found))
    | inr other ↦ rw other found
  ]

  -- An entry that a range visits is what the map holds at its key.
  pub any_sound :
      (p : String × V → Bool) (m : List (String × V))
      → IsUnique m
      → any p m ≡ true
      → (k : String) × (v : V) × (lookup k m ≡ some v) × (p (k, v) ≡ true)
  unfolding lookup
  any_sound p [] u h = cc
  any_sound p ((j, w) ∷ m) (fresh, u) h = elim (Bool-cases (p (j, w))) [
    | inl here ↦ (j, w, rw (eq_refl j), here)
    | inr not_here ↦
        let (k, v, found, holds) = any_sound p m u (rw not_here at h) in
        (k, v, lookup-tail j k w m fresh found, holds)
  ]
