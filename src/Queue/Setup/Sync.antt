-- ===== src/Queue/Setup/Sync.antt =====
-- pkg/queue/postgres/setup.go: what a `syncTable` that returned no error has made of the table.
use go_base.Base.{
  ℕ, ◌≡◌, sym, ap, subst, ◌∙◌, ◌⊎◌, inl, inr, true, false, not, List, listed, listed-Mem,
  Mem-listed, Mem-filter, Mem-filter_inv, Mem-map, Mem-map_inv, Mem-append_left, Mem-append_right,
  Mem-append_inv, Memᴰ, String, Bool-cases, ok, >>=-eq-ok, arith,
}
use go_base.Queue.Setup.{
  ColumnSet, Column, Library, names_of, column_names, new_columns, drop_columns, altered, adds_of,
  drops_of,
}
use go_base.Queue.Setup.Columns.{drop_columns-inv, drop_columns-keep, add_columns-eq-ok}

module _ (lib : Library) where
  -- No name of the list changes when it is folded.
  abbrev pub AreFolded : List String → Type 0
  AreFolded names = (n : String) → Memᴰ n names → lib.fold n ≡ n

  not-listed : (n : String) (l : List String) → not (listed n l) ≡ true → Memᴰ n l → ⊥
  not-listed n l h m = let k = Mem-listed n l m in absurd (ground arith)

  pub drops-inv :
      (expected : ColumnSet) (current : List String) (n : String)
      → Memᴰ n (drops_of lib expected current)
      → Memᴰ n current × (Memᴰ n (names_of expected) → ⊥)
  drops-inv expected current n m =
      let (k, t) =
        Mem-filter_inv (λ x. not (listed x (names_of expected))) (lib.walk_names current) m in
      (lib.names_sound current n k, not-listed n (names_of expected) t)

  pub drops-Mem :
      (expected : ColumnSet) (current : List String) (n : String)
      → Memᴰ n current
      → listed n (names_of expected) ≡ false
      → Memᴰ n (drops_of lib expected current)
  drops-Mem expected current n m t =
      Mem-filter (λ x. not (listed x (names_of expected))) (lib.walk_names current)
        (lib.names_complete current n m) (ground arith)

  -- What an ALTER TABLE with these parts makes of the columns of a table.
  module _ (now : ℕ) (expected : ColumnSet) (cols : List Column) where
    pub record IsSynced (cols' : List Column) : Type 0 where
      pub named :
          (c : Column)
          → Memᴰ c cols'
          → (Memᴰ c cols × Memᴰ c.name (names_of expected))
            ⊎ ((c.made ≡ now) × ((p : String × String) × Memᴰ p expected × (c.name ≡ lib.fold p.0)))
      pub there :
          (n : String)
          → Memᴰ n (names_of expected)
          → Memᴰ n (column_names cols) ⊎ Memᴰ (lib.fold n) (column_names cols')
      pub kept : (c : Column) → Memᴰ c cols → Memᴰ c.name (names_of expected) → Memᴰ c cols'

    pub new-inv :
        (set : ColumnSet) (c : Column)
        → Memᴰ c (new_columns lib now set)
        → (c.made ≡ now) × ((p : String × String) × Memᴰ p set × (c.name ≡ lib.fold p.0))
    new-inv set c m =
        let (p, k, e) = Mem-map_inv _ set m in
        (ap (λ (x : Column). x.made) e, (p, k, ap (λ (x : Column). x.name) e))

    pub new-Mem :
        (set : ColumnSet) (n : String)
        → Memᴰ n (names_of set)
        → Memᴰ (lib.fold n) (column_names (new_columns lib now set))
    new-Mem set n m =
        let (p, k, e) = Mem-map_inv (λ (p : String × String). p.0) set m in
        subst (λ x. Memᴰ (lib.fold x) (column_names (new_columns lib now set))) (sym e)
          (Mem-map (λ (c : Column). c.name) (new_columns lib now set) (Mem-map _ set k))

    pub altered-IsSynced :
        {cols' : List Column}
        → AreFolded (column_names cols)
        → altered lib now
            (adds_of lib expected (column_names cols))
            (drops_of lib expected (column_names cols))
            cols
          ≡ ok cols'
        → IsSynced cols'
    altered-IsSynced {cols'} folded h =
        let adds = adds_of lib expected (column_names cols) in
        let drops = drops_of lib expected (column_names cols) in
        let (mid, d, a) = >>=-eq-ok (drop_columns lib now drops cols) _ h in
        let joined = add_columns-eq-ok lib now adds mid a in
        record {
          named = λ c m. elim (Mem-append_inv mid (subst (Memᴰ c) (sym joined) m)) [
            | inl k ↦
                let (old, away) = drop_columns-inv lib now drops cols c d k in
                let here = Mem-map (λ (x : Column). x.name) cols old in
                elim (Bool-cases (listed c.name (names_of expected))) [
                  | inl t ↦ inl (old, listed-Mem c.name (names_of expected) t)
                  | inr t ↦ absurd (
                      away c.name (drops-Mem expected (column_names cols) c.name here t)
                        (sym (folded c.name here)))
                ]
            | inr k ↦
                let (made, (p, i, e)) = new-inv adds c k in
                inr (
                  made,
                  (
                    p,
                    lib.set_sound expected p
                        (Mem-filter_inv
                          (λ (q : String × String). not (listed q.0 (column_names cols)))
                          (lib.walk_set expected) i).0,
                    e,
                  ),
                )
          ];
          there = λ n m. elim (Bool-cases (listed n (column_names cols))) [
            | inl t ↦ inl (listed-Mem n (column_names cols) t)
            | inr t ↦
                let (p, k, e) = Mem-map_inv (λ (p : String × String). p.0) expected m in
                let in_adds : Memᴰ p adds =
                  Mem-filter (λ (q : String × String). not (listed q.0 (column_names cols)))
                    (lib.walk_set expected) (lib.set_complete expected p k)
                    (ground (arith, ap (λ x. listed x (column_names cols)) (sym e) ∙ t)) in
                let c = Mem-map _ adds in_adds in
                inr (
                  subst (λ x. Memᴰ (lib.fold x) (column_names cols')) (sym e)
                    (Mem-map (λ (x : Column). x.name) cols'
                      (subst (Memᴰ _) joined (Mem-append_right mid c))))
          ];
          kept = λ c m i. subst (Memᴰ c) joined (
              Mem-append_left mid _ (
                drop_columns-keep lib now drops cols c d m (λ n k same.
                  let (in_cols, out) = drops-inv expected (column_names cols) n k in
                  out (subst (λ x. Memᴰ x (names_of expected)) (same ∙ folded n in_cols) i))));
        }
