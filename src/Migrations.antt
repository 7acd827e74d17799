-- ===== src/Migrations.antt =====
-- packages/hub-core/src/migrations.ts: the versioned schema migrations. A database is its tables with their
-- columns, its indexes and `user_version`; the rows are left out, since no migration touches them.
pub mod Tables
pub mod Resume
pub mod Stores
mod Tests
use pdatahub.Prelude.{
  String, [], none, some, true, false, ok, err, List, Dict, Result, Option, ℕ, Bool, lookup, ◌∷◌,
  insert, str_append, not, leb, if◌then◌else◌, ◌==◌, ◌++◌, ◌+◌,
}

-- A column: its name and its declaration.
abbrev pub Column : Type 0
Column = String × String

-- The statements that the listed migrations run. `create_table` and `create_index` have `IF NOT EXISTS`.
pub data Statement : Type 0 where
  create_table : String → List Column → Statement
  create_index : String → String → String → Statement
  add_column : String → Column → Statement

pub record Schema : Type 0 where
  pub tables : Dict (List Column)
  pub indexes : Dict (String × String)

-- `lookup` finds no column of that name.
unfoldable pub has_column : String → List Column → Bool
has_column name columns = elim (lookup name columns) [ none ↦ false | some d ↦ true ]

unfoldable pub exec_create_table : String → List Column → Schema → Schema
exec_create_table name columns s = elim (lookup name s.tables) [
  | some old ↦ s
  | none ↦ record s { tables = insert name columns s.tables }
]

unfoldable pub exec_create_index : String → String → String → Schema → Result Schema
exec_create_index name table columns s = elim (lookup name s.indexes) [
  | some old ↦ ok s
  | none ↦ elim (lookup table s.tables) [
    | none ↦ err (str_append "no such table: " table)
    | some c ↦ ok (record s { indexes = insert name (table, columns) s.indexes })
  ]
]

unfoldable pub exec_add_column : String → Column → Schema → Result Schema
exec_add_column table (name, declaration) s = elim (lookup table s.tables) [
  | none ↦ err (str_append "no such table: " table)
  | some columns ↦
      if has_column name columns
      then err (str_append "duplicate column name: " name)
      else ok (record s { tables = insert table (columns ++ (name, declaration) ∷ []) s.tables })
]

-- What SQLite does with a statement: the new schema, or an error.
unfoldable pub exec_statement : Statement → Schema → Result Schema
exec_statement (create_table name columns) s = ok (exec_create_table name columns s)
exec_statement (create_index name table columns) s = exec_create_index name table columns s
exec_statement (add_column table column) s = exec_add_column table column s

pub record Executed : Type 0 where
  pub schema : Schema
  pub error : Option String

-- `db.exec`: what stands before a statement that fails stays done.
unfoldable pub exec : List Statement → Schema → Executed
exec [] s = record { schema = s; error = none }
exec (q ∷ qs) s = elim (exec_statement q s) [
  | err e ↦ record { schema = s; error = some e }
  | ok s' ↦ exec qs s'
]

-- `Migration`. In the source `up` is any function of the database; each of the listed ones runs these statements.
pub record Migration : Type 0 where
  pub version : ℕ
  pub up : List Statement

pub record Database : Type 0 where
  pub schema : Schema
  pub user_version : ℕ

-- The version behind the one of the entry before; the first entry may have any.
unfoldable pub is_gap : Option ℕ → ℕ → Bool
is_gap none version = false
is_gap (some prev) version = not (version == prev + 1)

-- The loop of `runMigrations`: the entry before, the version at the start, and the one applied last.
unfoldable pub apply_from : Option ℕ → List Migration → ℕ → ℕ → Database → Database × Result ℕ
apply_from prev [] current applied db = (db, ok applied)
apply_from prev (m ∷ ms) current applied db = elim (leb m.version current) [
  | true ↦ apply_from (some m.version) ms current applied db
  | false ↦ elim (is_gap prev m.version) [
    | true ↦ (db, err "migration gap")
    | false ↦ elim (exec m.up db.schema).error [
      | some e ↦ (record db { schema = (exec m.up db.schema).schema }, err e)
      | none ↦
          apply_from (some m.version) ms current m.version
            (record { schema = (exec m.up db.schema).schema; user_version = m.version })
    ]
  ]
]

-- `runMigrations`, with the list of the migrations.
unfoldable pub run_migrations : List Migration → Database → Database × Result ℕ
run_migrations ms db = apply_from none ms db.user_version db.user_version db
