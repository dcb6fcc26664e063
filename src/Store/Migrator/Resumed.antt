-- ===== src/Store/Migrator/Resumed.antt =====
-- pkg/services/sqlstore/migrator/migrator.go, Start: the migrations that are left after a start.
use text.Mathlib.Text.{◌==◌ as str_eq}
use text.Mathlib.TextEquality.{eq_iff}
use mathlib.Core.Path.{subst}
use worldping_api.Prelude.{
  String, ◌≡◌, refl, sym, ap, ◌∙◌, Bool, true, false, not, ◌&&◌, ◌||◌, Option, none, some, List, [],
  ◌∷◌, any, select, All, arith, Bool-cases, inl, inr, Outcome, ok, err,
}
use worldping_api.Store.Migrator.{
  Migration, MigrationLog, MigratedDb, is_logged, exec, logged, after_exec, run_from, start,
}

module _ {Db : Type 0} where
  abbrev pub has_id : String → List (Migration Db) → Bool
  has_id id = any λ m. str_eq m.id id

  abbrev pub DistinctIds : List (Migration Db) → Type 0
  DistinctIds [] = Unit
  DistinctIds (m ∷ ms) = (has_id m.id ms ≡ false) × DistinctIds ms

  -- The migrations that the log does not have.
  abbrev pub pending : List (Migration Db) → List MigrationLog → List (Migration Db)
  pending ms log = select (λ m. not (is_logged m.id log)) ms

  -- A queue of migrations, which are executed in order up to the first that fails: the tables and
  -- the queue that is left.
  abbrev pub drain : List (Migration Db) → Db → Db × List (Migration Db)
  drain [] db = (db, [])
  drain (m ∷ ms) db = elim (exec m db) [ err e ↦ (db, m ∷ ms) | ok db' ↦ drain ms db' ]

  is_logged-logged :
      (id : String) (m : Migration Db) (b : Bool) (log : List MigrationLog)
      → is_logged id (logged m b log) ≡ (is_logged id log || (b && str_eq m.id id))
  unfolding is_logged logged
  is_logged-logged id m b [] = ground (arith)
  is_logged-logged id m b (l ∷ log) = ground (arith, is_logged-logged id m b log)

  after_exec-grows :
      (id : String) (m : Migration Db) (o : Outcome String Db) (s : MigratedDb Db)
      (later : MigratedDb Db → MigratedDb Db × Option String)
      → ((s' : MigratedDb Db) → is_logged id s'.log ≡ true → is_logged id (later s').0.log ≡ true)
      → is_logged id s.log ≡ true
      → is_logged id (after_exec m o s later).0.log ≡ true
  unfolding after_exec
  after_exec-grows id m (err e) s later grow h = is_logged-logged id m false s.log ∙ rw h refl
  after_exec-grows id m (ok db) s later grow h =
      grow _ (is_logged-logged id m true s.log ∙ rw h refl)

  run_from-logged :
      (seen : List MigrationLog) (m : Migration Db) (ms : List (Migration Db)) (s : MigratedDb Db)
      → is_logged m.id seen ≡ true
      → run_from seen (m ∷ ms) s ≡ run_from seen ms s
  unfolding run_from
  run_from-logged seen m ms s e = rw (run_from, e) refl

  run_from-fresh :
      (seen : List MigrationLog) (m : Migration Db) (ms : List (Migration Db)) (s : MigratedDb Db)
      → is_logged m.id seen ≡ false
      → run_from seen (m ∷ ms) s ≡ after_exec m (exec m s.tables) s (run_from seen ms)
  unfolding run_from
  run_from-fresh seen m ms s e = rw (run_from, e) refl

  run_from-grows :
      (id : String) (seen : List MigrationLog) (ms : List (Migration Db)) (s : MigratedDb Db)
      → is_logged id s.log ≡ true
      → is_logged id (run_from seen ms s).0.log ≡ true
  unfolding run_from
  run_from-grows id seen [] s h = h
  run_from-grows id seen (m ∷ ms) s h = elim (Bool-cases (is_logged m.id seen)) [
    | inl e ↦ rw (run_from-logged seen m ms s e) (run_from-grows id seen ms s h)
    | inr e ↦
        rw (run_from-fresh seen m ms s e) (
          after_exec-grows id m (exec m s.tables) s (run_from seen ms) (run_from-grows id seen ms)
            h)
  ]

  -- Two logs that say the same of each of some migrations.
  abbrev Agree : List MigrationLog → List MigrationLog → List (Migration Db) → Type 0
  Agree l k = All λ m. is_logged m.id l ≡ is_logged m.id k

  pending-Agree :
      (l k : List MigrationLog) (ms : List (Migration Db))
      → Agree l k ms
      → pending ms l ≡ pending ms k
  pending-Agree l k [] a = refl
  pending-Agree l k (m ∷ ms) a = rw (a.0, pending-Agree l k ms a.1) refl

  Agree-logged :
      (l k : List MigrationLog) (m : Migration Db) (b : Bool) (ms : List (Migration Db))
      → has_id m.id ms ≡ false
      → Agree l k ms
      → Agree (logged m b l) k ms
  Agree-logged l k m b [] d a = tt
  Agree-logged l k m b (x ∷ ms) d a = (
    is_logged-logged x.id m b l ∙ ground (arith, a.0, eq_iff x.id m.id, eq_iff m.id x.id),
    Agree-logged l k m b ms (ground (arith)) a.1,
  )

  snapshot : List (Migration Db) → MigratedDb Db × Option String → Db × List (Migration Db)
  snapshot ms r = (r.0.tables, pending ms r.0.log)

  logged_itself :
      (m : Migration Db) (log : List MigrationLog) → is_logged m.id (logged m true log) ≡ true
  logged_itself m log = is_logged-logged m.id m true log ∙ ground (arith, eq_iff m.id m.id)

  run_from_lem :
      (seen : List MigrationLog) (ms : List (Migration Db)) (s : MigratedDb Db)
      → DistinctIds ms
      → Agree s.log seen ms
      → snapshot ms (run_from seen ms s) ≡ drain (pending ms seen) s.tables
  unfolding snapshot after_exec
  run_from_lem seen [] s d a = unfold run_from in refl
  run_from_lem seen (m ∷ ms) s d a = elim (Bool-cases (is_logged m.id seen)) [
    | inl e ↦
        ap (snapshot (m ∷ ms)) (run_from-logged seen m ms s e)
        ∙ rw (e, run_from-grows m.id seen ms s (a.0 ∙ e)) (run_from_lem seen ms s d.1 a.1)
    | inr e ↦
        ap (snapshot (m ∷ ms)) (run_from-fresh seen m ms s e)
        ∙ executed (exec m s.tables) (λ s' b. run_from_lem seen ms s' d.1 b) e
        ∙ rw e refl
  ]
    where
      executed :
          (o : Outcome String Db)
          → ((s' : MigratedDb Db)
              → Agree s'.log seen ms
              → snapshot ms (run_from seen ms s') ≡ drain (pending ms seen) s'.tables)
          → is_logged m.id seen ≡ false
          → snapshot (m ∷ ms) (after_exec m o s (run_from seen ms)) ≡ (elim o [
            | err x ↦ (s.tables, m ∷ pending ms seen)
            | ok db ↦ drain (pending ms seen) db
          ])
      executed (err x) rest e =
          let fresh : is_logged m.id (logged m false s.log) ≡ false =
            is_logged-logged m.id m false s.log ∙ rw (a.0 ∙ e) refl in
          rw
            (
              fresh,
              pending-Agree (logged m false s.log) seen ms
                  (Agree-logged s.log seen m false ms d.0 a.1),
            )
            refl
      executed (ok db) rest e =
          let s' : MigratedDb Db = record { tables = db; log = logged m true s.log } in
          rw (run_from-grows m.id seen ms s' (logged_itself m s.log))
            (rest s' (Agree-logged s.log seen m true ms d.0 a.1))

  Agree-self : (l : List MigrationLog) (ms : List (Migration Db)) → Agree l l ms
  Agree-self l [] = tt
  Agree-self l (m ∷ ms) = (refl, Agree-self l ms)

  -- A start executes the migrations that the log does not have, in order, up to the first that fails, and the
  -- migrations that the log does not have after it are those that are left: the one that failed and those
  -- behind it. A later start so goes on there. No two migrations have one id.
  pub start-drain :
      (ms : List (Migration Db)) (s : MigratedDb Db)
      → DistinctIds ms
      → ((start ms s).0.tables, pending ms (start ms s).0.log) ≡ drain (pending ms s.log) s.tables
  unfolding start snapshot
  start-drain ms s d = run_from_lem s.log ms s d (Agree-self s.log ms)

  -- No error leaves nothing.
  after_exec-none :
      (m : Migration Db) (o : Outcome String Db) (s : MigratedDb Db)
      (later : MigratedDb Db → MigratedDb Db × Option String)
      → (after_exec m o s later).1 ≡ none
      → (db : Db) × (o ≡ ok db)
        × (after_exec m o s later ≡ later (record { tables = db; log = logged m true s.log }))
  unfolding after_exec
  after_exec-none m (err e) s later h = absurd (let bad : some e ≡ none = h in cc)
  after_exec-none m (ok db) s later h = (db, refl, refl)

  run_from-none :
      (seen : List MigrationLog) (ms : List (Migration Db)) (s : MigratedDb Db)
      → Agree s.log seen ms
      → DistinctIds ms
      → (run_from seen ms s).1 ≡ none
      → All (λ m. is_logged m.id (run_from seen ms s).0.log ≡ true) ms
  run_from-none seen [] s a d h = tt
  run_from-none seen (m ∷ ms) s a d h = elim (Bool-cases (is_logged m.id seen)) [
    | inl e ↦
        let step = run_from-logged seen m ms s e in
        subst (λ r. All (λ x. is_logged x.id r.0.log ≡ true) (m ∷ ms)) (sym step)
          (
            run_from-grows m.id seen ms s (a.0 ∙ e),
            run_from-none seen ms s a.1 d.1 (ap (λ r. r.1) (sym step) ∙ h),
          )
    | inr e ↦
        let step = run_from-fresh seen m ms s e in
        let (db, made, later) =
          after_exec-none m (exec m s.tables) s (run_from seen ms) (ap (λ r. r.1) (sym step) ∙ h) in
        let s' : MigratedDb Db = record { tables = db; log = logged m true s.log } in
        let both = step ∙ later in
        subst (λ r. All (λ x. is_logged x.id r.0.log ≡ true) (m ∷ ms)) (sym both)
          (
            run_from-grows m.id seen ms s' (logged_itself m s.log),
            run_from-none seen ms s' (Agree-logged s.log seen m true ms d.0 a.1) d.1
                (ap (λ r. r.1) (sym both) ∙ h),
          )
  ]

  run_from-done :
      (seen : List MigrationLog) (ms : List (Migration Db)) (s : MigratedDb Db)
      → All (λ m. is_logged m.id seen ≡ true) ms
      → run_from seen ms s ≡ (s, none)
  run_from-done seen [] s a = unfold run_from in refl
  run_from-done seen (m ∷ ms) s a = run_from-logged seen m ms s a.0 ∙ run_from-done seen ms s a.1

  -- After a start without an error a second start does nothing: the tables and the log stay as they are.
  -- No two migrations have one id.
  pub start-start :
      (ms : List (Migration Db)) (s : MigratedDb Db)
      → DistinctIds ms
      → (start ms s).1 ≡ none
      → start ms (start ms s).0 ≡ ((start ms s).0, none)
  unfolding start
  start-start ms s d h =
      run_from-done (start ms s).0.log ms (start ms s).0
        (run_from-none s.log ms s (Agree-self s.log ms) d h)
