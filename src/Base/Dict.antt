-- ===== src/Base/Dict.antt =====
-- A Go map with string keys: an association list in which a key stands once.
use red_team_coin.Base.Tests.{if◌then◌else◌, Bool-cases}
use red_team_coin.Base.Strings.{Text, text_eq, text_eq_iff}
use mathlib.Core.Path.{◌≡◌, refl, subst}
use mathlib.Core.Logic.{inl, inr}
use mathlib.Core.Bool.{Bool, false}
use mathlib.Core.List.{List, [], ◌∷◌}
use mathlib.Core.Option.{Option, none, some}
use native.Mathlib.Omega.{arith}

abbrev pub Dict {ℓ} : Type ℓ → Type ℓ
Dict V = List (Text × V)

module _ {ℓ} {V : Type ℓ} where
  unfoldable pub lookup : Text → Dict V → Option V
  lookup k [] = none
  lookup k ((j, v) ∷ m) = if text_eq j k then some v else lookup k m

  unfoldable pub insert : Text → V → Dict V → Dict V
  insert k v [] = (k, v) ∷ []
  insert k v ((j, w) ∷ m) = if text_eq j k then (k, v) ∷ m else (j, w) ∷ insert k v m

  unfoldable pub delete : Text → Dict V → Dict V
  delete k [] = []
  delete k ((j, v) ∷ m) = if text_eq j k then delete k m else (j, v) ∷ delete k m

  -- The loop `for k, v := range m { if test(v) { delete(m, k) } }`.
  unfoldable pub delete_where : (V → Bool) → Dict V → Dict V
  delete_where test [] = []
  delete_where test ((j, v) ∷ m) =
      if test v then delete_where test m else (j, v) ∷ delete_where test m

  abbrev pub IsDict : Dict V → Type ℓ
  IsDict [] = Unit
  IsDict ((j, v) ∷ m) = (lookup j m ≡ none) × IsDict m

  pub lookup-insert :
      (k j : Text) (v : V) (m : Dict V)
      → lookup j (insert k v m) ≡ (if text_eq k j then some v else lookup j m)
  unfolding lookup insert
  lookup-insert k j v [] = refl
  lookup-insert k j v ((i, w) ∷ m) =
      ground (arith, text_eq_iff k j, text_eq_iff i k, text_eq_iff i j, lookup-insert k j v m)

  pub lookup-delete :
      (k j : Text) (m : Dict V) → lookup j (delete k m) ≡ (if text_eq k j then none else lookup j m)
  unfolding lookup delete
  lookup-delete k j [] = ground arith
  lookup-delete k j ((i, w) ∷ m) =
      ground (arith, text_eq_iff k j, text_eq_iff i k, text_eq_iff i j, lookup-delete k j m)

  pub lookup-delete_where-none :
      (test : V → Bool) (k : Text) (m : Dict V)
      → lookup k m ≡ none
      → lookup k (delete_where test m) ≡ none
  unfolding lookup delete_where
  lookup-delete_where-none test k [] h = refl
  lookup-delete_where-none test k ((i, w) ∷ m) h = ground (arith, lookup-delete_where-none test k m)

  unfoldable pub drop_if : (V → Bool) → Option V → Option V
  drop_if test none = none
  drop_if test (some v) = if test v then none else some v

  pub lookup-delete_where :
      (test : V → Bool) (k : Text) (m : Dict V)
      → IsDict m
      → lookup k (delete_where test m) ≡ drop_if test (lookup k m)
  unfolding lookup delete_where drop_if
  lookup-delete_where test k [] h = refl
  lookup-delete_where test k ((i, w) ∷ m) h =
      ground (
        arith,
        text_eq_iff i k,
        lookup-delete_where test k m h.1,
        lookup-delete_where-none test k m,
      )

  pub insert-IsDict : (k : Text) (v : V) (m : Dict V) → IsDict m → IsDict (insert k v m)
  unfolding insert lookup
  insert-IsDict k v [] h = (refl, tt)
  insert-IsDict k v ((i, w) ∷ m) h =
      ground
        (arith, text_eq_iff i k, text_eq_iff k i, insert-IsDict k v m h.1, lookup-insert k i v m)

  pub delete-IsDict : (k : Text) (m : Dict V) → IsDict m → IsDict (delete k m)
  unfolding delete lookup
  delete-IsDict k [] h = tt
  delete-IsDict k ((i, w) ∷ m) h =
      ground (arith, text_eq_iff i k, text_eq_iff k i, delete-IsDict k m h.1, lookup-delete k i m)

  pub delete_where-IsDict : (test : V → Bool) (m : Dict V) → IsDict m → IsDict (delete_where test m)
  unfolding delete_where lookup
  delete_where-IsDict test [] h = tt
  delete_where-IsDict test ((i, w) ∷ m) h =
      ground (arith, delete_where-IsDict test m h.1, lookup-delete_where-none test i m)

-- A predicate of every value.
module _ {ℓ κ} {V : Type ℓ} where
  abbrev pub AllValues : (V → Type κ) → Dict V → Type κ
  AllValues P [] = Unit
  AllValues P ((j, v) ∷ m) = P v × AllValues P m

module _ {ℓ κ} {V : Type ℓ} (P : V → Type κ) where
  pub AllValues-lookup : (k : Text) (m : Dict V) {v : V} → AllValues P m → lookup k m ≡ some v → P v
  unfolding lookup
  AllValues-lookup k [] h e = cc
  AllValues-lookup k ((j, w) ∷ m) {v} h e = elim (Bool-cases (text_eq j k)) [
    | inl hit ↦ let same : w ≡ v = ground arith in subst P same h.0
    | inr miss ↦ AllValues-lookup k m h.1 (rw miss at e)
  ]

  pub AllValues-insert :
      (k : Text) (v : V) (m : Dict V) → P v → AllValues P m → AllValues P (insert k v m)
  unfolding insert
  AllValues-insert k v [] p h = (p, tt)
  AllValues-insert k v ((j, w) ∷ m) p h = elim (Bool-cases (text_eq j k)) [
    | inl hit ↦ rw hit (p, h.1)
    | inr miss ↦ rw miss (h.0, AllValues-insert k v m p h.1)
  ]

  pub AllValues-delete : (k : Text) (m : Dict V) → AllValues P m → AllValues P (delete k m)
  unfolding delete
  AllValues-delete k [] h = tt
  AllValues-delete k ((j, w) ∷ m) h = elim (Bool-cases (text_eq j k)) [
    | inl hit ↦ rw hit (AllValues-delete k m h.1)
    | inr miss ↦ rw miss (h.0, AllValues-delete k m h.1)
  ]

  pub AllValues-delete_where :
      (test : V → Bool) (m : Dict V) → AllValues P m → AllValues P (delete_where test m)
  unfolding delete_where
  AllValues-delete_where test [] h = tt
  AllValues-delete_where test ((j, w) ∷ m) h = elim (Bool-cases (test w)) [
    | inl hit ↦ rw hit (AllValues-delete_where test m h.1)
    | inr miss ↦ rw miss (h.0, AllValues-delete_where test m h.1)
  ]

  pub AllValues-map {η} :
      (Q : V → Type η) (f : (v : V) → P v → Q v) (m : Dict V) → AllValues P m → AllValues Q m
  AllValues-map Q f [] h = tt
  AllValues-map Q f ((j, w) ∷ m) h = (f w h.0, AllValues-map Q f m h.1)

module _ {ℓ} {V : Type ℓ} where
  -- What the loop leaves fails the test.
  pub delete_where-AllValues :
      (test : V → Bool) (m : Dict V) → AllValues (λ v. test v ≡ false) (delete_where test m)
  unfolding delete_where
  delete_where-AllValues test [] = tt
  delete_where-AllValues test ((j, w) ∷ m) = elim (Bool-cases (test w)) [
    | inl hit ↦ rw hit (delete_where-AllValues test m)
    | inr miss ↦ rw miss (miss, delete_where-AllValues test m)
  ]
