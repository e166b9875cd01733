-- ===== src/Queue/Setup/Cascade.antt =====
-- pkg/queue/postgres/setup.go: what the CASCADE of the dropped columns takes with it.
use go_base.Base.{
  ℕ, ◌≡◌, refl, sym, ap, subst, ◌↔◌, inl, inr, true, false, not, List, [], ◌∷◌, listed, listed-Mem,
  Mem-filter, Mem-filter_inv, Memᴰ, String, str_eq, eq_iff, Bool-cases, arith,
}
use go_base.Queue.Setup.{
  ColumnSet, Dependent, Library, names_of, drops_of, needs_column, stands_on, cascade,
}
use go_base.Queue.Setup.Sync.{AreFolded, drops-inv, drops-Mem}

module _ (lib : Library) (now : ℕ) (table : String) where
  needs_column-Mem :
      (n : String) (l : List (String × String))
      → needs_column lib now table n l ≡ true
      → Memᴰ (table, n) l
  needs_column-Mem n [] h = absurd (cc)
  needs_column-Mem n ((t, c) ∷ l) h = elim (Bool-cases (str_eq t table)) [
    | inl a ↦ elim (Bool-cases (str_eq c n)) [
      | inl b ↦ Memᴰ.head (λ i. (sym ((eq_iff t table).0 a) i, sym ((eq_iff c n).0 b) i))
      | inr b ↦ Memᴰ.tail (needs_column-Mem n l (rw (a, b) at h))
    ]
    | inr a ↦ Memᴰ.tail (needs_column-Mem n l (rw a at h))
  ]

  Mem-needs_column :
      (n : String) (l : List (String × String))
      → Memᴰ (table, n) l
      → needs_column lib now table n l ≡ true
  Mem-needs_column n [] m = elim m [ ]
  Mem-needs_column n ((t, c) ∷ l) (Memᴰ.head e) =
      let a = (eq_iff t table).1 (sym (ap (λ (p : String × String). p.0) e)) in
      let b = (eq_iff c n).1 (sym (ap (λ (p : String × String). p.1) e)) in rw (a, b) refl
  Mem-needs_column n ((t, c) ∷ l) (Memᴰ.tail m) =
      let k = Mem-needs_column n l m in
      elim (Bool-cases (str_eq t table)) [
        | inl a ↦ elim (Bool-cases (str_eq c n)) [ inl b ↦ rw (a, b) refl | inr b ↦ rw (a, b) k ]
        | inr a ↦ rw a k
      ]

  stands_on-inv :
      (drops : List String) (d : Dependent)
      → stands_on lib now table drops d ≡ false
      → (n : String) → Memᴰ n drops
      → ¬ Memᴰ (table, lib.fold n) d.needs
  stands_on-inv [] d h n m k = elim m [ ]
  stands_on-inv (x ∷ xs) d h n (Memᴰ.head e) k =
      let k' = subst (λ y. Memᴰ (table, lib.fold y) d.needs) e k in
      let t = Mem-needs_column (lib.fold x) d.needs k' in absurd (ground arith)
  stands_on-inv (x ∷ xs) d h n (Memᴰ.tail m) k = stands_on-inv xs d (ground arith) n m k

  stands_on-none :
      (drops : List String) (d : Dependent)
      → ((n : String) → Memᴰ n drops → ¬ Memᴰ (table, lib.fold n) d.needs)
      → stands_on lib now table drops d ≡ false
  stands_on-none [] d h = refl
  stands_on-none (x ∷ xs) d h =
      let rest = stands_on-none xs d (λ n m. h n (Memᴰ.tail m)) in
      elim (Bool-cases (needs_column lib now table (lib.fold x) d.needs)) [
        | inl t ↦ absurd (h x (Memᴰ.head refl) (needs_column-Mem (lib.fold x) d.needs t))
        | inr t ↦ rw (t, rest) refl
      ]

  -- None of the columns of the table that it stands on is redundant.
  abbrev pub IsUntouched : List String → List String → Dependent → Type 0
  IsUntouched current wanted d =
      (n : String) → Memᴰ n current → Memᴰ (table, n) d.needs → Memᴰ n wanted

  pub cascade_nil : (ds : List Dependent) → cascade lib now table [] ds ≡ ds
  cascade_nil [] = refl
  cascade_nil (d ∷ ds) = ap (λ l. d ∷ l) (cascade_nil ds)

  -- The dropping of the redundant columns keeps exactly what stands on none of them.
  pub cascade_iff :
      (expected : ColumnSet) (current : List String) (ds : List Dependent) (d : Dependent)
      → AreFolded lib current
      → Memᴰ d (cascade lib now table (drops_of lib expected current) ds)
        ↔ (Memᴰ d ds × IsUntouched current (names_of expected) d)
  cascade_iff expected current ds d folded = (
    λ m.
        let (k, t) =
          Mem-filter_inv (λ x. not (stands_on lib now table (drops_of lib expected current) x)) ds
            m in
        (
          k,
          λ n c need. elim (Bool-cases (listed n (names_of expected))) [
            | inl l ↦ listed-Mem n (names_of expected) l
            | inr l ↦
                let none_ = stands_on-inv (drops_of lib expected current) d (ground arith) n in
                absurd (
                  none_ (drops-Mem lib expected current n c l)
                    (subst (λ y. Memᴰ (table, y) d.needs) (sym (folded n c)) need))
          ],
        ),
    λ (k, free).
        let t = stands_on-none (drops_of lib expected current) d (λ n m need.
          let (c, away) = drops-inv lib expected current n m in
          away (free n c (subst (λ y. Memᴰ (table, y) d.needs) (folded n c) need))) in
        Mem-filter (λ x. not (stands_on lib now table (drops_of lib expected current) x)) ds k
          (rw t refl),
  )
