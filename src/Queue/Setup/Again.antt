-- ===== src/Queue/Setup/Again.antt =====
-- pkg/queue/postgres/setup.go: what the next call of `syncTable` does.
use go_base.Base.{
  ◌≡◌, refl, ap, subst, ◌∙◌, ◌⊎◌, ◌↔◌, inl, inr, Bool, false, not, none, List, [], ◌∷◌, filter,
  listed, Mem-listed, Mem-map, Memᴰ, String, ok, >>=_ok, unless_ok, arith,
}
use go_base.Queue.Setup.{
  ForeignReference, ColumnSet, Column, Catalog, Library, SyncEnv, names_of, expected_columns,
  find_columns, list_columns, adds_of, drops_of, alter, sync_with, sync_table,
}
use go_base.Queue.Setup.Columns.{reference_names, expected-names}
use go_base.Queue.Setup.Sync.{AreFolded}
use go_base.Queue.Setup.UpToDate.{IsUsual, sync_table-IsSynced, sync_table-IsUpToDate}

filter_nothing {ℓ} :
    {A : Type ℓ} (p : A → Bool) (l : List A) → ((a : A) → Memᴰ a l → p a ≡ false) → filter p l ≡ []
filter_nothing p [] h = refl
filter_nothing p (x ∷ xs) h =
    let rest = filter_nothing p xs (λ a m. h a (Memᴰ.tail m)) in
    ground (arith, h x (Memᴰ.head refl))

module _ (lib : Library) (table : String) where
  sync_with_same :
      (env : SyncEnv) (expected : ColumnSet) (db : Catalog) (current : List String) {n : String}
      → Memᴰ n current
      → adds_of lib expected current ≡ []
      → drops_of lib expected current ≡ []
      → sync_with lib env table expected db current ≡ ok db
  sync_with_same env expected db [] m a d = elim m [ ]
  sync_with_same env expected db (x ∷ xs) m a d =
      ap (λ adds. alter lib env table adds (drops_of lib expected (x ∷ xs)) db) a
      ∙ ap (λ drops. alter lib env table [] drops db) d

  module _ (init : ColumnSet) (refs : List ForeignReference) where
    -- The table has the system columns and the references, and nothing else.
    abbrev pub IsExact : Catalog → Type 0
    IsExact db =
        (n : String)
        → Memᴰ n (list_columns table db) ↔ (Memᴰ n (names_of init) ⊎ Memᴰ n (reference_names refs))

    -- Such a table is left as it is.
    pub exact_same :
        (env : SyncEnv) (db : Catalog) {expected : ColumnSet} {n : String}
        → env.list ≡ none
        → Memᴰ n (names_of init)
        → expected_columns init refs ≡ ok expected
        → IsExact db
        → sync_table lib env table init refs db ≡ ok db
    unfolding sync_table
    exact_same env db {expected} {n} l m x exact =
        >>=_ok _ x
        ∙ >>=_ok _ (unless_ok (list_columns table db) l)
        ∙ sync_with_same env expected db (list_columns table db) ((exact n).1 (inl m))
            (filter_nothing (λ (p : String × String). not (listed p.0 (list_columns table db)))
              (lib.walk_set expected)
              (λ p k.
                let named =
                  Mem-map (λ (q : String × String). q.0) expected (lib.set_sound expected p k) in
                let here = (exact p.0).1 ((expected-names init refs x p.0).0 named) in
                ground (arith, Mem-listed p.0 (list_columns table db) here)))
            (filter_nothing (λ y. not (listed y (names_of expected)))
              (lib.walk_names (list_columns table db))
              (λ y k.
                let here = (exact y).0 (lib.names_sound (list_columns table db) y k) in
                let named : Memᴰ y (names_of expected) = elim here [
                  | inl i ↦ (expected-names init refs x y).1 i
                  | inr i ↦ (expected-names init refs x y).2 i
                ] in
                ground (arith, Mem-listed y (names_of expected) named)))

    -- If there is a system column, no name of a system column, of a reference or of a column of the
    -- table changes when it is folded, and the table is not there or has a column, then after a
    -- `syncTable` that returned no error the next one that can list the columns returns no error,
    -- runs no statement and leaves the database as it is.
    pub sync_table_twice :
        (env env' : SyncEnv) (db : Catalog) {db' : Catalog} {n : String}
        → Memᴰ n (names_of init)
        → AreFolded lib (names_of init)
        → AreFolded lib (reference_names refs)
        → AreFolded lib (list_columns table db)
        → IsUsual lib env table db
        → sync_table lib env table init refs db ≡ ok db'
        → env'.list ≡ none
        → sync_table lib env' table init refs db' ≡ ok db'
    sync_table_twice env env' db {db'} m fi fr fc usual h l =
        let (expected, x, _, _, _) = sync_table-IsSynced lib env table init refs db fc usual h in
        let u = sync_table-IsUpToDate lib env table init refs db fi fr fc usual h in
        exact_same env' db' l m x u.exact

    -- If no name of a column of the table changes when it is folded, and the table is not there or
    -- has a column, then a column whose name is a folded one that is neither a system column nor a
    -- reference is made anew by every `syncTable` that returns no error, with what it held lost.
    pub sync_table_remakes :
        (env : SyncEnv) (db : Catalog) {db' : Catalog} (ref : ForeignReference) (c : Column)
        → AreFolded lib (list_columns table db)
        → IsUsual lib env table db
        → Memᴰ ref refs
        → (Memᴰ (lib.fold ref.column_name) (names_of init) → ⊥)
        → (Memᴰ (lib.fold ref.column_name) (reference_names refs) → ⊥)
        → sync_table lib env table init refs db ≡ ok db'
        → Memᴰ c (find_columns table db')
        → c.name ≡ lib.fold ref.column_name
        → c.made ≡ env.now
    sync_table_remakes env db ref c fc usual in_refs not_init not_ref h m e =
        let (expected, x, s, _, _) = sync_table-IsSynced lib env table init refs db fc usual h in
        elim (s.named c m) [
          | inr (made, _) ↦ made
          | inl (_, i) ↦
              absurd
                (elim ((expected-names init refs x (lib.fold ref.column_name)).0
                  (subst (λ y. Memᴰ y (names_of expected)) e i)) [
                    | inl k ↦ not_init k
                    | inr k ↦ not_ref k
                  ])
        ]
