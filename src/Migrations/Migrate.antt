-- ===== src/Migrations/Migrate.antt =====
-- pkg/db/migrations/migrations.go: which statements a run of `migrate` executes.
use text.Mathlib.TextLemmas.{append-eq-nil_iff}
use go_base.Base.{
  listed, listed-Mem, Mem-listed, ℕ, suc, ◌≡◌, refl, sym, ap, ◌∙◌, ◌⊎◌, inl, inr, true, false, none,
  List, [], ◌∷◌, Memᴰ, String, str_eq, eq_iff, Bool-cases, Result, ok, err, unless, >>=-eq-ok,
  unless-eq-ok, >>=_ok, ◌↔◌, Option-cases, arith,
}
use go_base.Migrations.{
  Error, migrations, Library, Database, wrap, get_sql, scan_version, version_of, StepEnv, done,
  MigrateEnv, exec_statement, run_statement, run_statements, end_migrate, migrate,
}

pub wrap-eq-ok {ℓ} :
    {A : Type ℓ} (text : String) (m : Result Error A) {a : A} → wrap text m ≡ ok a → m ≡ ok a
wrap-eq-ok text (ok a) h = h
wrap-eq-ok text (err e) h = absurd (cc)

pub version_of-ne : (name hash : String) → version_of name hash ≡ "" → ⊥
version_of-ne name hash h =
    let (_, e) = append-eq-nil_iff.0 h in
    let (e', _) = append-eq-nil_iff.0 e in let t : false ≡ true = (eq_iff "_" "").1 e' in cc

-- What the loop learns of a version from the row it scanned.
pub scan_version-Mem :
    (v : String) (l : List String) → (v ≡ "" → ⊥) → str_eq (scan_version v l) v ≡ true → Memᴰ v l
scan_version-Mem v l n h = elim (Bool-cases (listed v l)) [
  | inl s ↦ listed-Mem v l s
  | inr s ↦ absurd (n (sym ((eq_iff "" v).0 (rw s at h))))
]

pub Mem-scan_version :
    (v : String) (l : List String) → Memᴰ v l → str_eq (scan_version v l) v ≡ true
Mem-scan_version v l m = ground (arith, Mem-listed v l m, eq_iff v v)

module _ {S : Type 0} (lib : Library S) where
  -- The text of a statement, and the version that its hash gives it.
  pub record Version (name : String) : Type 0 where
    pub stmt : String
    pub hash : String
    pub loaded : get_sql lib name migrations ≡ ok stmt
    pub hashed : lib.hash stmt ≡ ok hash

  abbrev pub version : {name : String} → Version name → String
  version {name} v = version_of name v.hash

  -- A run that skips the statements whose versions are stored and executes the others, in order.
  pub data Migrates (stored : List String) : List String → S → S → Type 0 where
    finished : {s : S} → Migrates stored [] s s
    skip :
        {name : String} {names : List String} {s s' : S} (v : Version name)
        → Memᴰ (version v) stored
        → Migrates stored names s s'
        → Migrates stored (name ∷ names) s s'
    execute :
        {name : String} {names : List String} {s s' s'' : S} (v : Version name)
        → (Memᴰ (version v) stored → ⊥)
        → lib.exec v.stmt s ≡ ok s'
        → Migrates stored names s' s''
        → Migrates stored (name ∷ names) s s''

  run_statement-cases :
      (env : StepEnv) (stored : List String) (name : String) (s : S) {s' : S}
      → run_statement lib env stored name s ≡ ok s'
      → (v : Version name) × ((Memᴰ (version v) stored × (s ≡ s'))
          ⊎ ((Memᴰ (version v) stored → ⊥) × (lib.exec v.stmt s ≡ ok s')))
  run_statement-cases env stored name s {s'} h =
      let (stmt, l, h1) = >>=-eq-ok (wrap "migration failed" (get_sql lib name migrations)) _ h in
      let (hash, k, h2) = >>=-eq-ok (wrap "can not hash sql statement" (lib.hash stmt)) _ h1 in
      let (found, f, h3) =
        >>=-eq-ok
          (wrap "version hash scan err"
            (unless env.select (scan_version (version_of name hash) stored)))
          _ h2 in
      let v : Version name = record {
        stmt = stmt;
        hash = hash;
        loaded = wrap-eq-ok _ _ l;
        hashed = wrap-eq-ok _ _ k;
      } in
      let (_, same) = unless-eq-ok env.select (wrap-eq-ok _ _ f) in
      (
        v,
        elim (Bool-cases (str_eq found (version_of name hash))) [
          | inl e ↦ inl (
            scan_version-Mem (version_of name hash) stored (version_of-ne name hash)
                (ap (λ x. str_eq x (version_of name hash)) same ∙ e),
            ground arith,
          )
          | inr e ↦
              let (_, _, h4) =
                >>=-eq-ok (unless env.exec tt) _
                  (wrap-eq-ok "migration failed" (exec_statement lib env stmt s) (rw e at h3)) in
              let (s1, x, h5) = >>=-eq-ok (lib.exec stmt s) _ h4 in
              let (_, last) = unless-eq-ok env.affected h5 in
              inr (
                λ m. let t = Mem-scan_version _ stored m in ground (arith, same),
                x ∙ ap (λ (y : S). ok y) last,
              )
        ],
      )

  pub run_statements-Migrates :
      (env : ℕ → StepEnv) (i : ℕ) (stored names : List String) (s : S) {s' : S}
      → run_statements lib env i stored names s ≡ ok s'
      → Migrates stored names s s'
  unfolding run_statements
  run_statements-Migrates env i stored [] s {s'} h =
      let e : s ≡ s' = ground arith in rw (← e) finished
  run_statements-Migrates env i stored (name ∷ names) s h =
      let (s1, a, b) = >>=-eq-ok (run_statement lib (env i) stored name s) _ h in
      let rest = run_statements-Migrates env (suc i) stored names s1 b in
      let (v, c) = run_statement-cases (env i) stored name s a in
      elim c [ inl (m, e) ↦ skip v m (rw e rest) | inr (n, x) ↦ execute v n x rest ]

  run_statement_skip :
      (env : StepEnv) (stored : List String) {name : String} (v : Version name) (s : S)
      → env.select ≡ none
      → Memᴰ (version v) stored
      → run_statement lib env stored name s ≡ ok s
  run_statement_skip env stored {name} v s q m =
      rw (v.loaded, v.hashed, q, Mem-scan_version (version_of name v.hash) stored m)

  run_statement_execute :
      (env : StepEnv) (stored : List String) {name : String} (v : Version name) {s s' : S}
      → (env.select ≡ none) × (env.exec ≡ none) × (env.affected ≡ none)
      → (Memᴰ (version v) stored → ⊥)
      → lib.exec v.stmt s ≡ ok s'
      → run_statement lib env stored name s ≡ ok s'
  run_statement_execute env stored {name} v (q, x, a) n e =
      let differs : str_eq (scan_version (version_of name v.hash) stored) (version_of name v.hash)
          ≡ false =
        elim (Bool-cases (str_eq (scan_version (version v) stored) (version v))) [
          | inl same ↦
              absurd (n (scan_version-Mem (version v) stored (version_of-ne name v.hash) same))
          | inr d ↦ d
        ] in
      rw (v.loaded, v.hashed, q, differs, x, e, a)

  pub Migrates-run_statements :
      (env : ℕ → StepEnv) (stored : List String) (i : ℕ) {names : List String} {s s' : S}
      → ((j : ℕ) → ((env j).select ≡ none) × ((env j).exec ≡ none) × ((env j).affected ≡ none))
      → Migrates stored names s s'
      → run_statements lib env i stored names s ≡ ok s'
  unfolding run_statements
  Migrates-run_statements env stored i q finished = refl
  Migrates-run_statements env stored i {s = s} q (skip v m rest) =
      >>=_ok _ (run_statement_skip (env i) stored v s (q i).0 m)
      ∙ Migrates-run_statements env stored (suc i) q rest
  Migrates-run_statements env stored i q (execute v n x rest) =
      >>=_ok _ (run_statement_execute (env i) stored v (q i) n x)
      ∙ Migrates-run_statements env stored (suc i) q rest

  -- No call of a `migrate` fails, but for the statements themselves.
  pub record IsQuiet (env : MigrateEnv) : Type 0 where
    pub begin : env.begin ≡ none
    pub steps :
        (j : ℕ)
        → ((env.steps j).select ≡ none)
          × ((env.steps j).exec ≡ none)
          × ((env.steps j).affected ≡ none)
    pub commit : env.commit ≡ done

  pub end_migrate-eq-ok :
      (env : MigrateEnv) (db : Database S) (m : Result Error S) {db' : Database S}
      → env.commit ≡ done
      → end_migrate lib env db m ≡ (db', none)
      → (s : S) × (m ≡ ok s) × (record db { schema = s } ≡ db')
  end_migrate-eq-ok env db (ok s) c h = (s, refl, ap (λ p. p.0) (rw c at h))
  end_migrate-eq-ok env db (err e) c h = absurd (cc)

  pub migrate-eq-ok :
      (env : MigrateEnv) (list : List String) (db : Database S) {db' : Database S}
      → env.commit ≡ done
      → migrate lib env list db ≡ (db', none)
      → (db'.versions ≡ db.versions) × Migrates db.versions list db.schema db'.schema
  unfolding migrate
  migrate-eq-ok env list db c h = elim (Option-cases env.begin) [
    | inl b ↦
        let (s, m, e) = end_migrate-eq-ok env db _ c (rw b at h) in
        (rw (← e) refl, rw (← e) (run_statements-Migrates env.steps 0 db.versions list db.schema m))
    | inr (x, b) ↦ let h' = rw b at h in absurd (cc)
  ]

  -- If no call but the statements themselves can fail, `migrate` returns no error and a schema s
  -- exactly if s is reached by executing, in order, the statements of the list whose versions are
  -- not stored, each of which succeeds, and by skipping the others.
  pub migrate_ok_iff :
      (env : MigrateEnv) (list : List String) (db : Database S) (s : S)
      → IsQuiet env
      → (migrate lib env list db ≡ (record db { schema = s }, none))
        ↔ Migrates db.versions list db.schema s
  unfolding migrate
  migrate_ok_iff env list db s q = (
    λ h. (migrate-eq-ok env list db q.commit h).1,
    λ m. rw (q.begin, Migrates-run_statements env.steps db.versions 0 q.steps m, q.commit),
  )
