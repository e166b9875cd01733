-- ===== src/Queue/Setup/UpToDate.antt =====
-- pkg/queue/postgres/setup.go: the table that a `syncTable` leaves, whichever statement it ran.
use go_base.Base.{
  ◌≡◌, refl, sym, ap, subst, ◌∙◌, ◌⊎◌, ◌↔◌, inl, inr, false, List, [], ◌∷◌, map, listed, Mem-map,
  Mem-map_inv, Memᴰ, String, ok, unless, >>=-eq-ok, unless-eq-ok,
}
use go_base.Queue.Setup.{
  ForeignReference, ColumnSet, Column, Table, Dependent, Catalog, Library, SyncEnv, names_of,
  column_names, expected_columns, find_columns, list_columns, new_columns, adds_of, drops_of, alter,
  sync_with, sync_table,
}
use go_base.Queue.Setup.Columns.{reference_names, expected-names, create_table_new}
use go_base.Queue.Setup.Cascade.{IsUntouched, cascade_iff}
use go_base.Queue.Setup.Alter.{Others, alter-eq-ok}
use go_base.Queue.Setup.Sync.{AreFolded, IsSynced, new-inv, new-Mem, altered-IsSynced}

module _ (lib : Library) (env : SyncEnv) (table : String) where
  -- Exactly those dependents are kept that stand on no column of the table but those wanted.
  abbrev pub Kept : List String → Catalog → Catalog → Type 0
  Kept wanted db db' =
      (d : Dependent)
      → Memᴰ d db'.dependents
        ↔ (Memᴰ d db.dependents × IsUntouched lib env.now table (list_columns table db) wanted d)

  -- The table is there with a column, or it is not there.
  abbrev pub IsUsual : Catalog → Type 0
  IsUsual db =
      list_columns table db ≡ [] → listed table (map (λ (t : Table). t.name) db.tables) ≡ false

  no_columns : (cols : List Column) → column_names cols ≡ [] → cols ≡ []
  no_columns [] h = refl
  no_columns (c ∷ cs) h = absurd (cc)

  created-IsSynced :
      (expected : ColumnSet) (cols : List Column)
      → cols ≡ []
      → IsSynced lib env.now expected cols (new_columns lib env.now (lib.walk_set expected))
  created-IsSynced expected cols nil = record {
    named = λ c m.
        let (made, (p, k, e)) = new-inv lib env.now expected cols (lib.walk_set expected) c m in
        inr (made, (p, lib.set_sound expected p k, e));
    there = λ n m.
        let (p, k, e) = Mem-map_inv (λ (p : String × String). p.0) expected m in
        inr (
          new-Mem lib env.now expected cols (lib.walk_set expected) n (
            subst (λ x. Memᴰ x (names_of (lib.walk_set expected))) (sym e)
              (Mem-map _ (lib.walk_set expected) (lib.set_complete expected p k))));
    kept = λ c m i. elim (subst (Memᴰ c) nil m) [ ];
  }

  sync_with-IsSynced :
      (expected : ColumnSet) (db : Catalog) (current : List String) {db' : Catalog}
      → list_columns table db ≡ current
      → AreFolded lib (list_columns table db)
      → IsUsual db
      → sync_with lib env table expected db current ≡ ok db'
      → IsSynced lib env.now expected (find_columns table db) (find_columns table db')
        × Others lib env table db db'
        × Kept (names_of expected) db db'
  sync_with-IsSynced expected db [] {db'} e folded usual h =
      let (_, new) = unless-eq-ok env.exec h in
      let (here, others) =
        create_table_new lib env.now table (lib.walk_set expected) db.tables (usual e) in
      let same : db.dependents ≡ db'.dependents = ap (λ (d : Catalog). d.dependents) new in
      (
        subst (IsSynced lib env.now expected (find_columns table db))
            (sym here ∙ ap (find_columns table) new)
            (created-IsSynced expected (find_columns table db)
              (no_columns (find_columns table db) e)),
        λ other away. sym (ap (find_columns other) new) ∙ others other away,
        λ d. (
          λ m. (
            subst (Memᴰ d) (sym same) m,
            λ n c need. elim (subst (λ (l : List String). Memᴰ n l) e c) [ ],
          ),
          λ (m, free). subst (Memᴰ d) same m,
        ),
      )
  sync_with-IsSynced expected db (n ∷ ns) {db'} e folded usual h =
      let h' : alter lib env table (adds_of lib expected (list_columns table db))
            (drops_of lib expected (list_columns table db)) db
          ≡ ok db' =
        subst
          (λ l. alter lib env table (adds_of lib expected l) (drops_of lib expected l) db ≡ ok db')
          (sym e) h in
      let (here, others, cascaded) = alter-eq-ok lib env table _ _ db h' in
      (
        altered-IsSynced lib env.now expected (find_columns table db) folded here,
        others,
        λ d.
            subst
              (λ l. Memᴰ d l ↔ (
                Memᴰ d db.dependents
                × IsUntouched lib env.now table (list_columns table db) (names_of expected) d))
              (sym cascaded)
              (cascade_iff lib env.now table expected (list_columns table db) db.dependents d
                folded),
      )

  pub sync_table-IsSynced :
      (init : ColumnSet) (refs : List ForeignReference) (db : Catalog) {db' : Catalog}
      → AreFolded lib (list_columns table db)
      → IsUsual db
      → sync_table lib env table init refs db ≡ ok db'
      → (expected : ColumnSet) × (expected_columns init refs ≡ ok expected)
        × IsSynced lib env.now expected (find_columns table db) (find_columns table db')
        × Others lib env table db db'
        × Kept (names_of expected) db db'
  unfolding sync_table
  sync_table-IsSynced init refs db folded usual h =
      let (expected, x, h1) = >>=-eq-ok (expected_columns init refs) _ h in
      let (current, l, h2) = >>=-eq-ok (unless env.list (list_columns table db)) _ h1 in
      let (_, e) = unless-eq-ok env.list l in
      let (synced, others, kept) = sync_with-IsSynced expected db current e folded usual h2 in
      (expected, x, synced, others, kept)

  -- The table has the system columns and the references, and nothing else; a column that is one of
  -- them is still the one it was; no column of another table has changed; and exactly the views and
  -- foreign keys elsewhere are gone that stand on a column of the table that is none of them.
  pub record IsUpToDate (init : ColumnSet) (refs : List ForeignReference) (db db' : Catalog)
      : Type 0 where
    pub exact :
        (n : String)
        → Memᴰ n (list_columns table db') ↔ (Memᴰ n (names_of init) ⊎ Memᴰ n (reference_names refs))
    pub kept :
        (c : Column)
        → Memᴰ c (find_columns table db)
        → Memᴰ c.name (names_of init) ⊎ Memᴰ c.name (reference_names refs)
        → Memᴰ c (find_columns table db')
    pub others : Others lib env table db db'
    pub untouched :
        (d : Dependent)
        → Memᴰ d db'.dependents ↔ (
            Memᴰ d db.dependents
            × ((n : String)
                → Memᴰ n (list_columns table db)
                → Memᴰ (table, n) d.needs
                → Memᴰ n (names_of init) ⊎ Memᴰ n (reference_names refs)))

  -- If no name of a system column, of a reference or of a column of the table changes when it is
  -- folded, and the table is not there or has a column, then a `syncTable` that returned no error
  -- leaves the table with the system columns and the references only, has kept every one of them
  -- that was there and every column of the other tables, and has taken away exactly the views and
  -- the foreign keys of tables that are not set up here that stood on one of the columns that are
  -- gone.
  pub sync_table-IsUpToDate :
      (init : ColumnSet) (refs : List ForeignReference) (db : Catalog) {db' : Catalog}
      → AreFolded lib (names_of init)
      → AreFolded lib (reference_names refs)
      → AreFolded lib (list_columns table db)
      → IsUsual db
      → sync_table lib env table init refs db ≡ ok db'
      → IsUpToDate init refs db db'
  sync_table-IsUpToDate init refs db {db'} fi fr fc usual h =
      let (expected, x, s, others, k) = sync_table-IsSynced init refs db fc usual h in
      let back : (n : String)
          → Memᴰ n (names_of init) ⊎ Memᴰ n (reference_names refs)
          → Memᴰ n (names_of expected) =
        λ n k. elim k [
          | inl m ↦ (expected-names init refs x n).1 m
          | inr m ↦ (expected-names init refs x n).2 m
        ] in
      let same : (n : String) → Memᴰ n (names_of expected) → lib.fold n ≡ n =
        λ n m. elim ((expected-names init refs x n).0 m) [ inl k ↦ fi n k | inr k ↦ fr n k ] in
      record {
        exact = λ n. (
          λ m.
              let (c, k, e) = Mem-map_inv (λ (c : Column). c.name) (find_columns table db') m in
              elim (s.named c k) [
                | inl (_, i) ↦
                    (expected-names init refs x n).0
                      (subst (λ y. Memᴰ y (names_of expected)) (sym e) i)
                | inr (_, (p, i, f)) ↦
                    let named = Mem-map (λ (p : String × String). p.0) expected i in
                    (expected-names init refs x n).0
                      (subst (λ y. Memᴰ y (names_of expected)) (sym (e ∙ f ∙ same p.0 named)) named)
              ],
          λ k. elim (s.there n (back n k)) [
            | inl m ↦
                let (c, i, e) = Mem-map_inv (λ (c : Column). c.name) (find_columns table db) m in
                subst (λ y. Memᴰ y (list_columns table db')) (sym e)
                  (Mem-map (λ (c : Column). c.name) (find_columns table db')
                    (s.kept c i (subst (λ y. Memᴰ y (names_of expected)) e (back n k))))
            | inr m ↦ subst (λ y. Memᴰ y (list_columns table db')) (same n (back n k)) m
          ],
        );
        kept = λ c m k. s.kept c m (back c.name k);
        others = others;
        untouched = λ d. (
          λ m.
              let (held, free) = (k d).0 m in
              (held, λ n c need. (expected-names init refs x n).0 (free n c need)),
          λ (held, free). (k d).1 (held, λ n c need. back n (free n c need)),
        );
      }
