-- ===== src/Queue/Setup/Columns.antt =====
-- pkg/queue/postgres/setup.go: which columns the statements of `syncTable` leave.
use mathlib.Core.List.{append_assoc, append-nil}
use go_base.Base.{
  ℕ, ◌≡◌, ◌≢◌, refl, sym, ap, subst, ◌∙◌, ◌⊎◌, inl, inr, false, not, List, [], ◌∷◌, ◌++◌, map,
  filter, listed, Mem-filter, Mem-filter_inv, Memᴰ, String, str_eq, eq_iff, Bool-cases, ok,
  >>=-eq-ok, arith,
}
use go_base.Queue.Setup.{
  ForeignReference, ColumnSet, Column, Table, Library, names_of, column_names, reference_definition,
  expected_columns, columns_in, new_columns, drop_columns, add_columns, create_table, altered,
  alter_table,
}

abbrev pub reference_names : List ForeignReference → List String
reference_names refs = map (λ (r : ForeignReference). r.column_name) refs

-- The expected names are the system columns' and the references'.
pub expected-names :
    (set : ColumnSet) (refs : List ForeignReference) {expected : ColumnSet}
    → expected_columns set refs ≡ ok expected
    → (n : String)
    → (Memᴰ n (names_of expected) → Memᴰ n (names_of set) ⊎ Memᴰ n (reference_names refs))
      × (Memᴰ n (names_of set) → Memᴰ n (names_of expected))
      × (Memᴰ n (reference_names refs) → Memᴰ n (names_of expected))
expected-names set [] {expected} h n =
    let e : set ≡ expected = ground arith in rw (← e) (λ m. inl m, λ m. m, λ m. elim m [ ])
expected-names set (ref ∷ refs) h n = elim (Bool-cases (listed ref.column_name (names_of set))) [
  | inl t ↦ let h' = rw t at h in absurd (cc)
  | inr t ↦
      let (a, b, c) =
        expected-names ((ref.column_name, reference_definition ref) ∷ set) refs (rw t at h) n in
      (
        λ m. elim (a m) [
          | inl (Memᴰ.head e) ↦ inr (Memᴰ.head e)
          | inl (Memᴰ.tail k) ↦ inl k
          | inr k ↦ inr (Memᴰ.tail k)
        ],
        λ m. b (Memᴰ.tail m),
        λ m. elim m [ Memᴰ.head e ↦ b (Memᴰ.head e) | Memᴰ.tail k ↦ c k ],
      )
]

module _ (lib : Library) (now : ℕ) where
  -- The columns that a list of DROP parts leaves.
  pub drop_columns-inv :
      (drops : List String) (cols : List Column) {cols' : List Column} (c : Column)
      → drop_columns lib now drops cols ≡ ok cols'
      → Memᴰ c cols'
      → Memᴰ c cols × ((n : String) → Memᴰ n drops → c.name ≢ lib.fold n)
  drop_columns-inv [] cols {cols'} c h m =
      let e : cols ≡ cols' = ground arith in (subst (Memᴰ c) (sym e) m, λ n k. elim k [ ])
  drop_columns-inv (x ∷ xs) cols c h m =
      elim (Bool-cases (listed (lib.fold x) (column_names cols))) [
        | inr t ↦ let h' = rw t at h in absurd (cc)
        | inl t ↦
            let (a, b) =
              drop_columns-inv xs (filter (λ (d : Column). not (str_eq d.name (lib.fold x))) cols) c
                (rw t at h) m in
            let (k, away) =
              Mem-filter_inv (λ (d : Column). not (str_eq d.name (lib.fold x))) cols a in
            (
              k,
              λ n i. elim i [
                | Memᴰ.head e ↦ λ same.
                    let q = (eq_iff c.name (lib.fold x)).1 (same ∙ ap lib.fold e) in ground arith
                | Memᴰ.tail j ↦ b n j
              ],
            )
      ]

  pub drop_columns-keep :
      (drops : List String) (cols : List Column) {cols' : List Column} (c : Column)
      → drop_columns lib now drops cols ≡ ok cols'
      → Memᴰ c cols
      → ((n : String) → Memᴰ n drops → c.name ≢ lib.fold n)
      → Memᴰ c cols'
  drop_columns-keep [] cols {cols'} c h m k =
      let e : cols ≡ cols' = ground arith in subst (Memᴰ c) e m
  drop_columns-keep (x ∷ xs) cols c h m k =
      elim (Bool-cases (listed (lib.fold x) (column_names cols))) [
        | inr t ↦ let h' = rw t at h in absurd (cc)
        | inl t ↦
            drop_columns-keep xs (filter (λ (d : Column). not (str_eq d.name (lib.fold x))) cols) c
              (rw t at h)
              (Mem-filter (λ (d : Column). not (str_eq d.name (lib.fold x))) cols m
                (elim (Bool-cases (str_eq c.name (lib.fold x))) [
                  | inl e ↦ absurd (k x (Memᴰ.head refl) ((eq_iff c.name (lib.fold x)).0 e))
                  | inr e ↦ ground arith
                ]))
              (λ n i. k n (Memᴰ.tail i))
      ]

  pub add_columns-eq-ok :
      (adds : ColumnSet) (cols : List Column) {cols' : List Column}
      → add_columns lib now adds cols ≡ ok cols'
      → cols ++ new_columns lib now adds ≡ cols'
  add_columns-eq-ok [] cols h = append-nil cols ∙ ground arith
  add_columns-eq-ok ((n, d) ∷ set) cols h =
      elim (Bool-cases (listed (lib.fold n) (column_names cols))) [
        | inl t ↦ let h' = rw t at h in absurd (cc)
        | inr t ↦
            sym (append_assoc cols (new_columns lib now ((n, d) ∷ [])) (new_columns lib now set))
            ∙ add_columns-eq-ok set (cols ++ new_columns lib now ((n, d) ∷ [])) (rw t at h)
      ]

  -- What the two statements do to the table, and to the others.
  pub alter_table-eq-ok :
      (table : String) (adds : ColumnSet) (drops : List String) (db : List Table) {db' : List Table}
      → alter_table lib now table adds drops db ≡ ok db'
      → (altered lib now adds drops (columns_in table db) ≡ ok (columns_in table db'))
        × ((other : String) → other ≢ table → columns_in other db' ≡ columns_in other db)
  alter_table-eq-ok table adds drops [] h = absurd (cc)
  alter_table-eq-ok table adds drops (t ∷ ts) {db'} h = elim (Bool-cases (str_eq t.name table)) [
    | inl e ↦
        let (cols, a, b) = >>=-eq-ok (altered lib now adds drops t.columns) _ (rw e at h) in
        let new : record t { columns = cols } ∷ ts ≡ db' = ground arith in
        (
          rw (← new) (rw e a),
          λ other away. rw (← new) (elim (Bool-cases (str_eq t.name other)) [
            | inl o ↦ absurd (away (sym ((eq_iff t.name other).0 o) ∙ (eq_iff t.name table).0 e))
            | inr o ↦ rw o refl
          ]),
        )
    | inr e ↦
        let (rest, a, b) = >>=-eq-ok (alter_table lib now table adds drops ts) _ (rw e at h) in
        let new : t ∷ rest ≡ db' = ground arith in
        let (here, others) = alter_table-eq-ok table adds drops ts a in
        (rw (← new) (rw e here), λ other away. rw (← new) (ground (arith, others other away)))
  ]

  pub create_table_new :
      (table : String) (set : ColumnSet) (db : List Table)
      → listed table (map (λ (t : Table). t.name) db) ≡ false
      → (columns_in table (create_table lib now table set db) ≡ new_columns lib now set)
        × ((other : String)
            → other ≢ table
            → columns_in other (create_table lib now table set db) ≡ columns_in other db)
  create_table_new table set [] h = (
    ground (arith, eq_iff table table),
    λ other away. elim (Bool-cases (str_eq table other)) [
      | inl o ↦ absurd (away (sym ((eq_iff table other).0 o)))
      | inr o ↦ rw o refl
    ],
  )
  create_table_new table set (t ∷ ts) h =
      let (a, b) = create_table_new table set ts (ground arith) in
      (ground (arith, a), λ other away. ground (arith, b other away))
