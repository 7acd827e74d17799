-- ===== src/Migrations/Resume.antt =====
-- `runMigrations` in steps: a later run goes on where an earlier one ended.
use pdatahub.Prelude.{
  [], some, inl, inr, refl, ok, ℕ, Option, List, ◌≤◌, ◌∷◌, arith, ◌++◌, ◌≡◌, ◌<◌, ◌⊎◌, Bool-cases,
  leb, Option-cases, none, true, false, ◌∙◌, subst, sym, ap,
}
use pdatahub.Migrations.{Migration, Database, exec, is_gap, apply_from, run_migrations}

-- Every version is above the given one, and they ascend.
abbrev pub Ascending : ℕ → List Migration → Type 0
Ascending low [] = Unit
Ascending low (m ∷ ms) = (low < m.version) × Ascending m.version ms

last_version : ℕ → List Migration → ℕ
last_version low [] = low
last_version low (m ∷ ms) = last_version m.version ms

last_entry : Option ℕ → List Migration → Option ℕ
last_entry prev [] = prev
last_entry prev (m ∷ ms) = last_entry (some m.version) ms

last_version-low : (low : ℕ) (ms : List Migration) → Ascending low ms → low ≤ last_version low ms
unfolding last_version
last_version-low low [] h = omega arith
last_version-low low (m ∷ ms) (h, hs) = let later = last_version-low m.version ms hs in omega arith

Ascending-split :
    (low : ℕ) (ms ns : List Migration)
    → Ascending low (ms ++ ns)
    → Ascending low ms × Ascending (last_version low ms) ns
unfolding last_version
Ascending-split low [] ns h = (tt, h)
Ascending-split low (m ∷ ms) ns (h, hs) =
    let (a, b) = Ascending-split m.version ms ns hs in ((h, a), b)

-- The greater of the last version and the version at the start.
abbrev Reached : ℕ → ℕ → ℕ → Type 0
Reached low current v = ((low ≤ current) × (v ≡ current)) ⊎ ((current ≤ low) × (v ≡ low))

-- The database after a migration whose statements all succeeded.
abbrev after_up : Migration → Database → Database
after_up m db = record { schema = (exec m.up db.schema).schema; user_version = m.version }

apply_from-nil :
    (prev : Option ℕ) (current applied : ℕ) (db : Database) {db' : Database} {v : ℕ}
    → apply_from prev [] current applied db ≡ (db', ok v)
    → (db ≡ db') × (applied ≡ v)
unfolding apply_from
apply_from-nil prev current applied db h = (cc, cc)

apply_from-skip :
    (prev : Option ℕ) (m : Migration) (ms : List Migration) (current applied : ℕ) (db : Database)
    → leb m.version current ≡ true
    → apply_from prev (m ∷ ms) current applied db
      ≡ apply_from (some m.version) ms current applied db
unfolding apply_from
apply_from-skip prev m ms current applied db e = rw (e, apply_from) refl

apply_from-apply :
    (prev : Option ℕ) (m : Migration) (ms : List Migration) (current applied : ℕ) (db : Database)
    → leb m.version current ≡ false
    → is_gap prev m.version ≡ false
    → (exec m.up db.schema).error ≡ none
    → apply_from prev (m ∷ ms) current applied db
      ≡ apply_from (some m.version) ms current m.version (after_up m db)
unfolding apply_from
apply_from-apply prev m ms current applied db e g f = rw (e, g, f, apply_from) refl

-- A run that ended skipped the first entry or applied it.
data Stepped (prev : Option ℕ) (m : Migration) (current : ℕ) (db : Database) : Type 0 where
  skipped : leb m.version current ≡ true → Stepped prev m current db
  applied_up :
      leb m.version current ≡ false
      → is_gap prev m.version ≡ false
      → (exec m.up db.schema).error ≡ none
      → Stepped prev m current db

apply_from-Stepped :
    (prev : Option ℕ) (m : Migration) (ms : List Migration) (current applied : ℕ) (db : Database)
    {db' : Database} {v : ℕ}
    → apply_from prev (m ∷ ms) current applied db ≡ (db', ok v)
    → Stepped prev m current db
unfolding apply_from
apply_from-Stepped prev m ms current applied db h = elim (Bool-cases (leb m.version current)) [
  | inl e ↦ skipped e
  | inr e ↦ elim (Bool-cases (is_gap prev m.version)) [
    | inl g ↦ absurd (ground (arith, e, g, h))
    | inr g ↦ elim (Option-cases (exec m.up db.schema).error) [
      | inr (x, f) ↦ absurd (ground (arith, e, g, f, h))
      | inl f ↦ applied_up e g f
    ]
  ]
]

-- After a run that ended, the list goes on behind it.
apply_from-append :
    (prev : Option ℕ) (ms ns : List Migration) (current applied : ℕ) (db : Database)
    {db' : Database} {v : ℕ}
    → apply_from prev ms current applied db ≡ (db', ok v)
    → apply_from prev (ms ++ ns) current applied db
      ≡ apply_from (last_entry prev ms) ns current v db'
unfolding apply_from last_entry
apply_from-append prev [] ns current applied db {db'} {v} h =
    let same : db ≡ db' = cc in let at : applied ≡ v = cc in rw (same, at) refl
apply_from-append prev (m ∷ ms) ns current applied db h =
    elim (apply_from-Stepped prev m ms current applied db h) [
      | skipped e ↦
          apply_from-skip prev m (ms ++ ns) current applied db e
          ∙ apply_from-append (some m.version) ms ns current applied db
              (sym (apply_from-skip prev m ms current applied db e) ∙ h)
      | applied_up e g f ↦
          apply_from-apply prev m (ms ++ ns) current applied db e g f
          ∙ apply_from-append (some m.version) ms ns current m.version (after_up m db)
              (sym (apply_from-apply prev m ms current applied db e g f) ∙ h)
    ]

-- The result of a run that ended, and its `user_version`, is the greater of the start and the last version.
apply_from-Reached :
    (prev : Option ℕ) (low : ℕ) (ms : List Migration) (current applied : ℕ) (db : Database)
    {db' : Database} {v : ℕ}
    → Ascending low ms
    → Reached low current applied
    → db.user_version ≡ applied
    → apply_from prev ms current applied db ≡ (db', ok v)
    → Reached (last_version low ms) current v × (db'.user_version ≡ v)
unfolding last_version
apply_from-Reached prev low [] current applied db {db'} {v} a r at h =
    let (same, end) = apply_from-nil prev current applied db h in
    (subst (λ x. Reached low current x) end r, ap (λ x. x.user_version) (sym same) ∙ at ∙ end)
apply_from-Reached prev low (m ∷ ms) current applied db (a, rest) r at h =
    elim (apply_from-Stepped prev m ms current applied db h) [
      | skipped e ↦
          let below : m.version ≤ current = ground (arith, e, leb) in
          apply_from-Reached (some m.version) m.version ms current applied db rest (grind arith) at
            (sym (apply_from-skip prev m ms current applied db e) ∙ h)
      | applied_up e g f ↦
          let above : current < m.version = ground (arith, e, leb) in
          apply_from-Reached (some m.version) m.version ms current m.version (after_up m db) rest
            (inr (omega arith, refl)) refl
            (sym (apply_from-apply prev m ms current applied db e g f) ∙ h)
    ]

-- What the start's version has reached already is skipped.
apply_from-skip_all :
    (prev : Option ℕ) (low : ℕ) (ms ns : List Migration) (current applied : ℕ) (db : Database)
    → Ascending low ms
    → last_version low ms ≤ current
    → apply_from prev (ms ++ ns) current applied db
      ≡ apply_from (last_entry prev ms) ns current applied db
unfolding last_version last_entry
apply_from-skip_all prev low [] ns current applied db a h = refl
apply_from-skip_all prev low (m ∷ ms) ns current applied db (a, rest) h =
    let later = last_version-low m.version ms rest in
    apply_from-skip prev m (ms ++ ns) current applied db
      (let at : m.version ≤ current = omega arith in ground (arith, at, leb))
    ∙ apply_from-skip_all (some m.version) m.version ms ns current applied db rest h

-- Two starts that no version above `low` tells apart give the same run.
apply_from-start :
    (prev : Option ℕ) (low : ℕ) (ns : List Migration) (current v applied : ℕ) (db : Database)
    → Ascending low ns
    → ((n : ℕ) → low < n → leb n v ≡ leb n current)
    → apply_from prev ns v applied db ≡ apply_from prev ns current applied db
unfolding apply_from
apply_from-start prev low [] current v applied db a r = refl
apply_from-start prev low (m ∷ ns) current v applied db (a, rest) r =
    let above : (n : ℕ) → m.version < n → leb n v ≡ leb n current = λ n h. r n (omega arith) in
    let same = r m.version a in
    let next = some m.version in
    elim (Bool-cases (leb m.version current)) [
      | inl e ↦
          apply_from-skip prev m ns v applied db (same ∙ e)
          ∙ apply_from-start next m.version ns current v applied db rest above
          ∙ sym (apply_from-skip prev m ns current applied db e)
      | inr e ↦ elim (Bool-cases (is_gap prev m.version)) [
        | inl g ↦ rw (same, e, g, apply_from) refl
        | inr g ↦ elim (Option-cases (exec m.up db.schema).error) [
          | inr (x, f) ↦ rw (same, e, g, f, apply_from) refl
          | inl f ↦
              apply_from-apply prev m ns v applied db (same ∙ e) g f
              ∙ apply_from-start next m.version ns current v m.version (after_up m db) rest above
              ∙ sym (apply_from-apply prev m ns current applied db e g f)
        ]
      ]
    ]

Reached-leb : (low current v n : ℕ) → Reached low current v → low < n → leb n v ≡ leb n current
Reached-leb low current v n r h = ground (arith, r, leb)

-- For versions that start above 0 and ascend: when a run with the first migrations ended, the run with all of
-- them on the database that it left gives the same database, result and error as one run with all of them on
-- the first database. With no further migrations: a second run changes nothing and returns the same version.
pub run_migrations-resume :
    (ms ns : List Migration) (db : Database) {db' : Database} {v : ℕ}
    → Ascending 0 (ms ++ ns)
    → run_migrations ms db ≡ (db', ok v)
    → run_migrations (ms ++ ns) db' ≡ run_migrations (ms ++ ns) db
unfolding run_migrations
run_migrations-resume ms ns db {db'} {v} a h =
    let start = db.user_version in
    let (first, later) = Ascending-split 0 ms ns a in
    let (r, at) =
      apply_from-Reached none 0 ms start start db first (inl (omega arith, refl)) refl h in
    let last = last_version 0 ms in
    let low : last ≤ v = ground (arith, r) in
    ap (λ x. apply_from none (ms ++ ns) x x db') at
    ∙ (apply_from-skip_all none 0 ms ns v v db' first low
        ∙ apply_from-start (last_entry none ms) last ns start v v db' later
            (λ n b. Reached-leb last start v n r b)
        ∙ sym (apply_from-append none ms ns start start db h))
