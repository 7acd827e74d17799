-- ===== src/Prelude/Order.antt =====
-- `ORDER BY key DESC`: a stable sort by a number, and membership in filtered and sorted lists.
use Prim.Native.Nat.{ℕ, ◌≤◌}
use mathlib.Core.Path.{◌≡◌, refl, sym, subst}
use mathlib.Core.Logic.{◌⊎◌, inl, inr}
use mathlib.Core.Bool.{Bool, true}
use mathlib.Core.Option.{Option, none, some}
use mathlib.Core.List.{List, [], ◌∷◌, ◌++◌, Memᴰ}
use native.Mathlib.Omega.{arith}
use pdatahub.Prelude.Tests.{if◌then◌else◌, ltb, Bool-cases}
use pdatahub.Prelude.Lists.{All, keep}

-- The first row of a result, for `LIMIT 1` and `.get()`.
abbrev pub first {ℓ} : {A : Type ℓ} → List A → Option A
first [] = none
first (x ∷ xs) = some x

module _ {ℓ} {A : Type ℓ} where
  pub cases_member : {a b : A} {l : List A} → Memᴰ a (b ∷ l) → (a ≡ b) ⊎ Memᴰ a l
  cases_member (Memᴰ.head e) = inl e
  cases_member (Memᴰ.tail m) = inr m

  pub Memᴰ-first : (xs : List A) {x : A} → first xs ≡ some x → Memᴰ x xs
  Memᴰ-first [] h = cc
  Memᴰ-first (y ∷ ys) h = Memᴰ.head (ground arith)

  pub Memᴰ-last : (xs : List A) (x : A) → Memᴰ x (xs ++ x ∷ [])
  Memᴰ-last [] x = Memᴰ.head refl
  Memᴰ-last (y ∷ ys) x = Memᴰ.tail (Memᴰ-last ys x)

  pub All-Memᴰ {κ} : (P : A → Type κ) {x : A} {xs : List A} → All P xs → Memᴰ x xs → P x
  All-Memᴰ P all (Memᴰ.head e) = subst P (sym e) all.0
  All-Memᴰ P all (Memᴰ.tail m) = All-Memᴰ P all.1 m

  pub All-of_Memᴰ {κ} : (P : A → Type κ) (xs : List A) → ((x : A) → Memᴰ x xs → P x) → All P xs
  All-of_Memᴰ P [] h = tt
  All-of_Memᴰ P (x ∷ xs) h = (h x (Memᴰ.head refl), All-of_Memᴰ P xs (λ y m. h y (Memᴰ.tail m)))

  -- What a WHERE clause selects: the rows that pass the test.
  pub Memᴰ-keep :
      (p : A → Bool) (x : A) (xs : List A) → Memᴰ x (keep p xs) → Memᴰ x xs × (p x ≡ true)
  Memᴰ-keep p x [] m = elim m [ ]
  Memᴰ-keep p x (y ∷ ys) m = elim (Bool-cases (p y)) [
    | inl passes ↦ elim (cases_member (rw passes at m)) [
      | inl e ↦ (Memᴰ.head e, rw e passes)
      | inr later ↦ let r = Memᴰ-keep p x ys later in (Memᴰ.tail r.0, r.1)
    ]
    | inr fails ↦ let r = Memᴰ-keep p x ys (rw fails at m) in (Memᴰ.tail r.0, r.1)
  ]

  pub keep-Memᴰ : (p : A → Bool) (x : A) (xs : List A) → Memᴰ x xs → p x ≡ true → Memᴰ x (keep p xs)
  keep-Memᴰ p x [] m h = elim m [ ]
  keep-Memᴰ p x (y ∷ ys) (Memᴰ.head e) h = let h' : p y ≡ true = rw e at h in rw h' (Memᴰ.head e)
  keep-Memᴰ p x (y ∷ ys) (Memᴰ.tail m) h = elim (Bool-cases (p y)) [
    | inl passes ↦ rw passes (Memᴰ.tail (keep-Memᴰ p x ys m h))
    | inr fails ↦ rw fails (keep-Memᴰ p x ys m h)
  ]

-- SQL leaves the order of equal keys open; here it is that of the rows.
module _ {ℓ} {A : Type ℓ} (key : A → ℕ) where
  unfoldable pub insert_desc : A → List A → List A
  insert_desc x [] = x ∷ []
  insert_desc x (y ∷ ys) =
      let rest = insert_desc x ys in if ltb (key x) (key y) then y ∷ rest else x ∷ y ∷ ys

  unfoldable pub sort_desc : List A → List A
  unfolding insert_desc
  sort_desc [] = []
  sort_desc (x ∷ xs) = insert_desc x (sort_desc xs)

  Memᴰ-insert : (z x : A) (ys : List A) → Memᴰ z (insert_desc x ys) → (z ≡ x) ⊎ Memᴰ z ys
  unfolding insert_desc
  Memᴰ-insert z x [] m = cases_member m
  Memᴰ-insert z x (y ∷ ys) m = elim (Bool-cases (ltb (key x) (key y))) [
    | inl lt ↦ elim (cases_member (rw lt at m)) [
      | inl e ↦ inr (Memᴰ.head e)
      | inr later ↦ elim (Memᴰ-insert z x ys later) [ inl e ↦ inl e | inr l ↦ inr (Memᴰ.tail l) ]
    ]
    | inr ge ↦ cases_member (rw ge at m)
  ]

  insert-Memᴰ : (z x : A) (ys : List A) → (z ≡ x) ⊎ Memᴰ z ys → Memᴰ z (insert_desc x ys)
  unfolding insert_desc
  insert-Memᴰ z x [] (inl e) = Memᴰ.head e
  insert-Memᴰ z x [] (inr m) = elim m [ ]
  insert-Memᴰ z x (y ∷ ys) h = elim (Bool-cases (ltb (key x) (key y))) [
    | inl lt ↦ rw lt (elim h [
      | inl e ↦ Memᴰ.tail (insert-Memᴰ z x ys (inl e))
      | inr m ↦ elim (cases_member m) [
        | inl e ↦ Memᴰ.head e
        | inr later ↦ Memᴰ.tail (insert-Memᴰ z x ys (inr later))
      ]
    ])
    | inr ge ↦ rw ge (elim h [ inl e ↦ Memᴰ.head e | inr m ↦ Memᴰ.tail m ])
  ]

  pub Memᴰ-sort : (z : A) (xs : List A) → Memᴰ z (sort_desc xs) → Memᴰ z xs
  unfolding sort_desc
  Memᴰ-sort z [] m = m
  Memᴰ-sort z (x ∷ xs) m = elim (Memᴰ-insert z x (sort_desc xs) m) [
    | inl e ↦ Memᴰ.head e
    | inr later ↦ Memᴰ.tail (Memᴰ-sort z xs later)
  ]

  pub sort-Memᴰ : (z : A) (xs : List A) → Memᴰ z xs → Memᴰ z (sort_desc xs)
  unfolding sort_desc
  sort-Memᴰ z [] m = elim m [ ]
  sort-Memᴰ z (x ∷ xs) (Memᴰ.head e) = insert-Memᴰ z x (sort_desc xs) (inl e)
  sort-Memᴰ z (x ∷ xs) (Memᴰ.tail m) = insert-Memᴰ z x (sort_desc xs) (inr (sort-Memᴰ z xs m))

  -- Keys do not rise.
  abbrev pub IsDescending : List A → Type 0
  IsDescending [] = Unit
  IsDescending (x ∷ xs) = All (λ y. key y ≤ key x) xs × IsDescending xs

  All-insert :
      (n : ℕ) (x : A) (ys : List A)
      → key x ≤ n
      → All (λ y. key y ≤ n) ys
      → All (λ y. key y ≤ n) (insert_desc x ys)
  unfolding insert_desc
  All-insert n x [] le all = (le, tt)
  All-insert n x (y ∷ ys) le all = ground (arith, All-insert n x ys le all.1)

  All-le_trans : (n m : ℕ) (ys : List A) → n ≤ m → All (λ y. key y ≤ n) ys → All (λ y. key y ≤ m) ys
  All-le_trans n m [] le all = tt
  All-le_trans n m (y ∷ ys) le all = (omega arith, All-le_trans n m ys le all.1)

  insert-IsDescending : (x : A) (ys : List A) → IsDescending ys → IsDescending (insert_desc x ys)
  unfolding insert_desc
  insert-IsDescending x [] d = (tt, tt)
  insert-IsDescending x (y ∷ ys) d = elim (Bool-cases (ltb (key x) (key y))) [
    | inl lt ↦ rw lt (All-insert (key y) x ys (ground arith) d.0, insert-IsDescending x ys d.1)
    | inr ge ↦ rw ge ((ground arith, All-le_trans (key y) (key x) ys (ground arith) d.0), d)
  ]

  pub sort-IsDescending : (xs : List A) → IsDescending (sort_desc xs)
  unfolding sort_desc
  sort-IsDescending [] = tt
  sort-IsDescending (x ∷ xs) = insert-IsDescending x (sort_desc xs) (sort-IsDescending xs)

  -- The first of the sorted rows has the largest key.
  pub first-sort_max :
      (xs : List A) {x z : A} → first (sort_desc xs) ≡ some x → Memᴰ z xs → key z ≤ key x
  first-sort_max xs {x} {z} h m = go (sort_desc xs) (sort-IsDescending xs) h (sort-Memᴰ z xs m)
    where
      go : (ys : List A) → IsDescending ys → first ys ≡ some x → Memᴰ z ys → key z ≤ key x
      go [] d h' n = elim n [ ]
      go (y ∷ ys) d h' n = elim (cases_member n) [
        | inl e ↦ ground arith
        | inr later ↦
            let le : key z ≤ key y = All-Memᴰ (λ w. key w ≤ key y) d.0 later in ground arith
      ]

  -- No first row, no row.
  pub first-sort_none : (xs : List A) → first (sort_desc xs) ≡ none → xs ≡ []
  first-sort_none [] h = refl
  first-sort_none (x ∷ xs) h = go (sort_desc (x ∷ xs)) h (sort-Memᴰ x (x ∷ xs) (Memᴰ.head refl))
    where
      go : (ys : List A) → first ys ≡ none → Memᴰ x ys → x ∷ xs ≡ []
      go [] h' m = elim m [ ]
      go (y ∷ ys) h' m = cc
