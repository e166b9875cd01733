-- ===== src/Queue/Setup/Alter.antt =====
-- pkg/queue/postgres/setup.go: what the ALTER TABLE of `syncTable` does to the tables.
use go_base.Base.{◌≡◌, ◌≢◌, sym, ap, ◌∙◌, List, [], ◌∷◌, String, Result, ok, unless, >>=-eq-ok}
use go_base.Queue.Setup.{
  Error, ColumnSet, Catalog, Library, SyncEnv, find_columns, altered, alter, alter_table,
  alter_catalog, cascade,
}
use go_base.Queue.Setup.Columns.{alter_table-eq-ok}
use go_base.Queue.Setup.Cascade.{cascade_nil}

module _ (lib : Library) (env : SyncEnv) (table : String) where
  abbrev pub Others : Catalog → Catalog → Type 0
  Others db db' = (other : String) → other ≢ table → find_columns other db' ≡ find_columns other db

  abbrev ok_catalog : Catalog → Result Error Catalog
  ok_catalog db = ok db

  ok-injective : {a b : Catalog} → ok_catalog a ≡ ok_catalog b → a ≡ b
  ok-injective h = cc

  alter_catalog-eq-ok :
      (adds : ColumnSet) (drops : List String) (db : Catalog) {db' : Catalog}
      → alter_catalog lib env.now table adds drops db ≡ ok db'
      → (altered lib env.now adds drops (find_columns table db) ≡ ok (find_columns table db'))
        × Others db db'
        × (db'.dependents ≡ cascade lib env.now table drops db.dependents)
  alter_catalog-eq-ok adds drops db {db'} h =
      let (ts, a, b) = >>=-eq-ok (alter_table lib env.now table adds drops db.tables) _ h in
      let (here, others) = alter_table-eq-ok lib env.now table adds drops db.tables a in
      let e : record { tables = ts; dependents = cascade lib env.now table drops db.dependents }
          ≡ db' =
        ok-injective b in
      (
        here ∙ ap (λ (d : Catalog). ok (find_columns table d)) e,
        λ other away. sym (ap (find_columns other) e) ∙ others other away,
        sym (ap (λ (d : Catalog). d.dependents) e),
      )

  pub alter-eq-ok :
      (adds : ColumnSet) (drops : List String) (db : Catalog) {db' : Catalog}
      → alter lib env table adds drops db ≡ ok db'
      → (altered lib env.now adds drops (find_columns table db) ≡ ok (find_columns table db'))
        × Others db db'
        × (db'.dependents ≡ cascade lib env.now table drops db.dependents)
  alter-eq-ok [] [] db {db'} h =
      let e : db ≡ db' = ok-injective h in
      (
        ap (λ (d : Catalog). ok (find_columns table d)) e,
        λ other away. ap (find_columns other) (sym e),
        sym (cascade_nil lib env.now table db.dependents ∙ ap (λ (d : Catalog). d.dependents) e),
      )
  alter-eq-ok [] (n ∷ ns) db h =
      let (_, _, h') = >>=-eq-ok (unless env.exec tt) _ h in alter_catalog-eq-ok [] (n ∷ ns) db h'
  alter-eq-ok (p ∷ ps) drops db h =
      let (_, _, h') = >>=-eq-ok (unless env.exec tt) _ h in
      alter_catalog-eq-ok (p ∷ ps) drops db h'
