-- ===== src/Delegations/Latest.antt =====
-- delegation.ts, `findReceivedMatch`: the order of its rows.
use pdatahub.Delegations.{DelegationReceivedRow, ReceivedTable, insert_latest, sort_latest}
use pdatahub.Delegations.Canonical.{str_le}
use pdatahub.Delegations.Canonical.KeyOrder.{str_le-total, str_le_trans}
use pdatahub.Prelude.{◌≡◌, ◌⊎◌, Memᴰ, cases_member, [], ◌∷◌, inl, inr, true, All, Bool-cases}

Memᴰ-insert :
    (z x : DelegationReceivedRow) (ys : ReceivedTable)
    → Memᴰ z (insert_latest x ys)
    → (z ≡ x) ⊎ Memᴰ z ys
unfolding insert_latest
Memᴰ-insert z x [] m = cases_member m
Memᴰ-insert z x (y ∷ ys) m = elim (Bool-cases (str_le y.expires_at x.expires_at)) [
  | inl le ↦ cases_member (rw le at m)
  | inr gt ↦ elim (cases_member (rw gt at m)) [
    | inl e ↦ inr (Memᴰ.head e)
    | inr later ↦ elim (Memᴰ-insert z x ys later) [ inl e ↦ inl e | inr l ↦ inr (Memᴰ.tail l) ]
  ]
]

insert-Memᴰ :
    (z x : DelegationReceivedRow) (ys : ReceivedTable)
    → (z ≡ x) ⊎ Memᴰ z ys
    → Memᴰ z (insert_latest x ys)
unfolding insert_latest
insert-Memᴰ z x [] (inl e) = Memᴰ.head e
insert-Memᴰ z x [] (inr m) = elim m [ ]
insert-Memᴰ z x (y ∷ ys) h = elim (Bool-cases (str_le y.expires_at x.expires_at)) [
  | inl le ↦ rw le (elim h [ inl e ↦ Memᴰ.head e | inr m ↦ Memᴰ.tail m ])
  | inr gt ↦ rw gt (elim h [
    | inl e ↦ Memᴰ.tail (insert-Memᴰ z x ys (inl e))
    | inr m ↦ elim (cases_member m) [
      | inl e ↦ Memᴰ.head e
      | inr later ↦ Memᴰ.tail (insert-Memᴰ z x ys (inr later))
    ]
  ])
]

pub Memᴰ-sort_latest :
    (z : DelegationReceivedRow) (xs : ReceivedTable) → Memᴰ z (sort_latest xs) → Memᴰ z xs
unfolding sort_latest
Memᴰ-sort_latest z [] m = m
Memᴰ-sort_latest z (x ∷ xs) m = elim (Memᴰ-insert z x (sort_latest xs) m) [
  | inl e ↦ Memᴰ.head e
  | inr later ↦ Memᴰ.tail (Memᴰ-sort_latest z xs later)
]

pub sort_latest-Memᴰ :
    (z : DelegationReceivedRow) (xs : ReceivedTable) → Memᴰ z xs → Memᴰ z (sort_latest xs)
unfolding sort_latest
sort_latest-Memᴰ z [] m = elim m [ ]
sort_latest-Memᴰ z (x ∷ xs) (Memᴰ.head e) = insert-Memᴰ z x (sort_latest xs) (inl e)
sort_latest-Memᴰ z (x ∷ xs) (Memᴰ.tail m) =
    insert-Memᴰ z x (sort_latest xs) (inr (sort_latest-Memᴰ z xs m))

-- The text of its expiry is not behind that of the other.
abbrev pub IsBefore : DelegationReceivedRow → DelegationReceivedRow → Type 0
IsBefore x y = str_le y.expires_at x.expires_at ≡ true

-- No row stands behind one whose expiry is an earlier text.
abbrev pub IsLatestFirst : ReceivedTable → Type 0
IsLatestFirst [] = Unit
IsLatestFirst (x ∷ xs) = All (IsBefore x) xs × IsLatestFirst xs

All-insert :
    (q x : DelegationReceivedRow) (ys : ReceivedTable)
    → IsBefore q x
    → All (IsBefore q) ys
    → All (IsBefore q) (insert_latest x ys)
unfolding insert_latest
All-insert q x [] le all = (le, tt)
All-insert q x (y ∷ ys) le all = elim (Bool-cases (str_le y.expires_at x.expires_at)) [
  | inl e ↦ rw e (le, all)
  | inr e ↦ rw e (all.0, All-insert q x ys le all.1)
]

All-IsBefore :
    (x y : DelegationReceivedRow) (ys : ReceivedTable)
    → IsBefore x y
    → All (IsBefore y) ys
    → All (IsBefore x) ys
All-IsBefore x y [] le all = tt
All-IsBefore x y (z ∷ ys) le all =
    (str_le_trans z.expires_at y.expires_at x.expires_at all.0 le, All-IsBefore x y ys le all.1)

insert-IsLatestFirst :
    (x : DelegationReceivedRow) (ys : ReceivedTable)
    → IsLatestFirst ys
    → IsLatestFirst (insert_latest x ys)
unfolding insert_latest
insert-IsLatestFirst x [] d = (tt, tt)
insert-IsLatestFirst x (y ∷ ys) d = elim (Bool-cases (str_le y.expires_at x.expires_at)) [
  | inl le ↦ rw le ((le, All-IsBefore x y ys le d.0), d)
  | inr gt ↦ rw gt (
    All-insert y x ys (str_le-total y.expires_at x.expires_at gt) d.0,
    insert-IsLatestFirst x ys d.1,
  )
]

pub sort_latest-IsLatestFirst : (xs : ReceivedTable) → IsLatestFirst (sort_latest xs)
unfolding sort_latest
sort_latest-IsLatestFirst [] = tt
sort_latest-IsLatestFirst (x ∷ xs) =
    insert-IsLatestFirst x (sort_latest xs) (sort_latest-IsLatestFirst xs)
