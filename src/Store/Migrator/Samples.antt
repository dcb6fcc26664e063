-- ===== src/Store/Migrator/Samples.antt =====
-- Three migrations: one is in the log, one has a condition that does not hold, and one counts a table.
use worldping_api.Prelude.{
  ℕ, suc, String, ◌≡◌, refl, Bool, true, Option, none, some, List, [], ◌∷◌, ◌==◌, ok,
}
use worldping_api.Store.Migrator.{
  Migration, MigratedDb, is_logged, exec, guarded, logged, after_exec, run_from, start,
}
use worldping_api.Store.Migrator.Resumed.{pending, drain, start-drain}

abbrev counts : String → Option (ℕ → Bool) → Migration ℕ
counts id c = record { id = id; condition = c; statements = λ n. ok (suc n) }

abbrev three : List (Migration ℕ)
three = counts "a" none ∷ counts "b" (some (λ n. n == 7)) ∷ counts "c" none ∷ []

abbrev before : MigratedDb ℕ
before = record { tables = 1; log = record { migration_id = "a"; success = true } ∷ [] }

no_error : (start three before).1 ≡ none
unfolding start run_from is_logged after_exec exec guarded logged
no_error = refl

-- The second is skipped by its condition and is in the log as a success.
counted : (start three before).0.tables ≡ 2
unfolding start run_from is_logged after_exec exec guarded logged
counted = refl

start-drain_example :
    ((start three before).0.tables, pending three (start three before).0.log)
    ≡ drain (pending three before.log) 1
start-drain_example = start-drain three before (refl, (refl, (refl, tt)))
