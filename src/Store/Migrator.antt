-- ===== src/Store/Migrator.antt =====
-- pkg/services/sqlstore/migrator/migrator.go: GetMigrationLog, Start, exec and inTransaction. The database is a
-- parameter: what a migration's condition and its statements make of the tables. A transaction begins and
-- commits, the log table is there, and it takes the rows that are inserted.
pub mod Resumed
mod Samples
use text.Mathlib.Text.{◌==◌ as str_eq}
use worldping_api.Prelude.{
  String, Bool, true, false, not, ◌&&◌, Option, none, some, List, [], ◌∷◌, ◌++◌, any, if◌then◌else◌,
  Outcome, ok, err,
}

-- Migration: its id, GetCondition, and the statements with ExecOnSuccess in one transaction. A condition
-- is whether its query gives rows without an error.
pub record Migration (Db : Type 0) : Type 0 where
  pub id : String
  pub condition : Option (Db → Bool)
  pub statements : Db → Outcome String Db

-- MigrationLog
pub record MigrationLog : Type 0 where
  pub migration_id : String
  pub success : Bool

pub record MigratedDb (Db : Type 0) : Type 0 where
  pub tables : Db
  pub log : List MigrationLog

-- Whether the map of GetMigrationLog has the id.
unfoldable pub is_logged : String → List MigrationLog → Bool
is_logged id = any λ l. l.success && str_eq l.migration_id id

module _ {Db : Type 0} where
  -- A condition that does not hold rolls the transaction back and is no error.
  guarded : Option (Db → Bool) → Outcome String Db → Db → Outcome String Db
  guarded none done db = done
  guarded (some holds) done db = if holds db then done else ok db

  unfoldable pub exec : Migration Db → Db → Outcome String Db
  unfolding guarded
  exec m db = guarded m.condition (m.statements db) db

  -- The row of the log that a migration leaves.
  pub logged : Migration Db → Bool → List MigrationLog → List MigrationLog
  logged m success log = log ++ record { migration_id = m.id; success = success } ∷ []

  -- What follows a migration: an error ends the loop.
  pub after_exec :
      Migration Db
      → Outcome String Db
      → MigratedDb Db
      → (MigratedDb Db → MigratedDb Db × Option String)
      → MigratedDb Db × Option String
  unfolding logged
  after_exec m (err e) s later = (record s { log = logged m false s.log }, some e)
  after_exec m (ok db) s later = later (record { tables = db; log = logged m true s.log })

  -- The loop over the migrations, with the log as it was read.
  pub run_from :
      List MigrationLog → List (Migration Db) → MigratedDb Db → MigratedDb Db × Option String
  unfolding after_exec
  run_from seen [] s = (s, none)
  run_from seen (m ∷ ms) s = elim (is_logged m.id seen) [
    | true ↦ run_from seen ms s
    | false ↦ after_exec m (exec m s.tables) s (run_from seen ms)
  ]

  unfoldable pub start : List (Migration Db) → MigratedDb Db → MigratedDb Db × Option String
  unfolding run_from
  start ms s = run_from s.log ms s
