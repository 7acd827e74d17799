-- ===== src/Prelude/Maps.antt =====
-- JavaScript's `Map<string, V>` as an association list in insertion order, and its laws.
use Prim.Native.String.{String}
use mathlib.Core.Path.{◌≡◌, refl, ◌∙◌}
use mathlib.Core.Option.{Option, none, some}
use mathlib.Core.List.{List, [], ◌∷◌}
use native.Mathlib.Omega.{arith}
use text.Mathlib.Text.{◌==◌ as str_eq}
use text.Mathlib.TextEquality.{eq_iff}
use mathlib.Core.Bool.{Bool}
use mathlib.Core.Logic.{inl, inr}
use pdatahub.Prelude.Tests.{if◌then◌else◌, Bool-cases}
use pdatahub.Prelude.Lists.{keep}

abbrev pub Dict {ℓ} : Type ℓ → Type ℓ
Dict V = List (String × V)

module _ {ℓ} {V : Type ℓ} where
  unfoldable pub lookup : String → Dict V → Option V
  lookup k [] = none
  lookup k ((j, v) ∷ m) = let rest = lookup k m in if str_eq j k then some v else rest

  -- `map.set(k, v)`: an old key keeps its place, a new one goes last.
  unfoldable pub insert : String → V → Dict V → Dict V
  insert k v [] = (k, v) ∷ []
  insert k v ((j, w) ∷ m) =
      let rest = insert k v m in if str_eq j k then (j, v) ∷ m else (j, w) ∷ rest

  -- `map.delete(k)`
  unfoldable pub remove : String → Dict V → Dict V
  remove k [] = []
  remove k ((j, w) ∷ m) = let rest = remove k m in if str_eq j k then rest else (j, w) ∷ rest

  pub lookup-insert :
      (k j : String) (v : V) (m : Dict V)
      → lookup j (insert k v m) ≡ (if str_eq k j then some v else lookup j m)
  unfolding lookup insert
  lookup-insert k j v [] = ground arith
  lookup-insert k j v ((i, w) ∷ m) =
      ground (arith, eq_iff k j, eq_iff i k, eq_iff i j, lookup-insert k j v m)

  pub lookup-remove :
      (k j : String) (m : Dict V)
      → lookup j (remove k m) ≡ (if str_eq k j then none else lookup j m)
  unfolding lookup remove
  lookup-remove k j [] = ground arith
  lookup-remove k j ((i, w) ∷ m) =
      ground (arith, eq_iff k j, eq_iff i k, eq_iff i j, lookup-remove k j m)

-- No key occurs twice.
abbrev pub IsKeyed {ℓ} : {V : Type ℓ} → Dict V → Type ℓ
IsKeyed [] = Unit
IsKeyed ((k, v) ∷ m) = (lookup k m ≡ none) × IsKeyed m

module _ {ℓ} {V : Type ℓ} where
  pub insert-IsKeyed : (k : String) (v : V) (m : Dict V) → IsKeyed m → IsKeyed (insert k v m)
  unfolding insert
  insert-IsKeyed k v [] h = (unfold lookup in refl, tt)
  insert-IsKeyed k v ((j, w) ∷ m) h = elim (Bool-cases (str_eq j k)) [
    | inl same ↦ rw same h
    | inr other ↦
        rw other
          (rw lookup-insert (ground (arith, eq_iff j k, eq_iff k j, h.0)), insert-IsKeyed k v m h.1)
  ]

  pub remove-IsKeyed : (k : String) (m : Dict V) → IsKeyed m → IsKeyed (remove k m)
  unfolding remove
  remove-IsKeyed k [] h = tt
  remove-IsKeyed k ((j, w) ∷ m) h = elim (Bool-cases (str_eq j k)) [
    | inl same ↦ rw same (remove-IsKeyed k m h.1)
    | inr other ↦ rw other (lookup-remove k j m ∙ ground (arith, h.0), remove-IsKeyed k m h.1)
  ]

  pub lookup-cons :
      (k j : String) (v : V) (m : Dict V)
      → lookup k ((j, v) ∷ m) ≡ (if str_eq j k then some v else lookup k m)
  unfolding lookup
  lookup-cons k j v m = refl

  lookup-keep-none :
      (p : String × V → Bool) (k : String) (m : Dict V)
      → lookup k m ≡ none
      → lookup k (keep p m) ≡ none
  unfolding lookup
  lookup-keep-none p k [] h = refl
  lookup-keep-none p k ((j, w) ∷ m) h = ground (arith, lookup-keep-none p k m)

  pub keep-IsKeyed : (p : String × V → Bool) (m : Dict V) → IsKeyed m → IsKeyed (keep p m)
  keep-IsKeyed p [] h = tt
  keep-IsKeyed p ((j, w) ∷ m) h = elim (Bool-cases (p (j, w))) [
    | inl stays ↦ rw stays (lookup-keep-none p j m h.0, keep-IsKeyed p m h.1)
    | inr goes ↦ rw goes (keep-IsKeyed p m h.1)
  ]

  -- Of a map with distinct keys, the filtered map holds an entry exactly if it passes the test.
  pub lookup-keep :
      (p : V → Bool) (k : String) (m : Dict V)
      → IsKeyed m
      → lookup k (keep (λ e. p e.1) m)
        ≡ elim (lookup k m) [ none ↦ none | some v ↦ if p v then some v else none ]
  unfolding lookup
  lookup-keep p k [] h = refl
  lookup-keep p k ((j, w) ∷ m) h = ground (
    arith,
    eq_iff j k,
    lookup-keep p k m h.1,
    lookup-keep-none (λ (e : String × V). p e.1) k m,
    h.0,
  )

pub ruleset dict_laws = (lookup-insert, lookup-remove)
