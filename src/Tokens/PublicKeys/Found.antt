-- ===== src/Tokens/PublicKeys/Found.antt =====
-- pkg/tokens/public_keys.go: that `sync` takes a new file into the cache.
use go_base.Base.{
  ◌≡◌, ◌≢◌, ◌≤◌, ◌<◌, refl, sym, ap, ◌∙◌, inl, inr, Bool, true, false, ◌&&◌, not, Option, none,
  some, List, [], ◌∷◌, filter, Memᴰ, String, str_eq, eq_iff, ◌==◌, Bool-cases, Option-cases,
  Mem-filter, Result, ok, err, >>=-eq-ok, unless, arith,
}
use go_base.Tokens.PublicKeys.{
  Error, FileInfo, DirEntry, KeyEntry, Library, to_key_entry, lookup, find_file, put_hash, put_file,
  by_hashes, remove, listed, State, loaded, compared, visit_found, visit, visit_all, initial,
  replace, sync,
}
use go_base.Tokens.PublicKeys.Files.{find_file-Mem, put_file-inv, put_file-keep, by_files-Mem}
use go_base.Tokens.PublicKeys.Scan.{to_key_entry-filename}
use go_base.Tokens.PublicKeys.Sync.{all_files}

remove-listed :
    (x name : String) (l : List String) → listed x l ≡ false → listed x (remove name l) ≡ false
remove-listed x name [] h = refl
remove-listed x name (y ∷ ys) h = ground (arith, remove-listed x name ys)

removed : (x : String) (l : List String) → listed x (remove x l) ≡ false
removed x [] = refl
removed x (y ∷ ys) = ground (arith, removed x ys)

module _ {Key : Type 0} where
  lookup-filter :
      (h : String) (e : KeyEntry Key) (l : List (KeyEntry Key)) {d : KeyEntry Key}
      → str_eq e.hash h ≡ false
      → lookup h l ≡ some d
      → lookup h (filter (λ (x : KeyEntry Key). not (str_eq x.hash e.hash)) l) ≡ some d
  lookup-filter h e [] ne q = q
  lookup-filter h e (x ∷ xs) {d} ne q = elim (Bool-cases (str_eq x.hash e.hash)) [
    | inl a ↦
        let i = (eq_iff x.hash e.hash).0 a in
        let b : str_eq x.hash h ≡ false = rw i ne in ground (arith, lookup-filter h e xs {d = d} ne)
    | inr a ↦ ground (arith, lookup-filter h e xs {d = d} ne)
  ]

  lookup-put_hash :
      (h : String) (e : KeyEntry Key) (es : List (KeyEntry Key)) {d : KeyEntry Key}
      → lookup h es ≡ some d
      → (x : KeyEntry Key) × (lookup h (put_hash e es) ≡ some x)
  lookup-put_hash h e es {d} q = elim (Bool-cases (str_eq e.hash h)) [
    | inl same ↦ (e, rw same refl)
    | inr differs ↦ (d, rw differs (lookup-filter h e es differs q))
  ]

  by_hashes-lookup :
      (es : List (KeyEntry Key)) (e : KeyEntry Key)
      → Memᴰ e es
      → (x : KeyEntry Key) × (lookup e.hash (by_hashes es) ≡ some x)
  by_hashes-lookup [] e m = elim m [ ]
  by_hashes-lookup (y ∷ ys) e (Memᴰ.head i) =
      let same : str_eq y.hash e.hash ≡ true =
        (eq_iff y.hash e.hash).1 (ap (λ (z : KeyEntry Key). z.hash) (sym i)) in
      (y, rw same refl)
  by_hashes-lookup (y ∷ ys) e (Memᴰ.tail m) =
      let (x, q) = by_hashes-lookup ys e m in lookup-put_hash e.hash y (by_hashes ys) q

-- The names of a directory are different.
abbrev pub AreApart : List DirEntry → Type 0
AreApart [] = Unit {0}
AreApart (f ∷ fs) = ((g : DirEntry) → Memᴰ g fs → g.name ≢ f.name) × AreApart fs

module _ {Key : Type 0} (lib : Library Key) where
  -- What the visit of one file does to the state.
  data Change (name : String) (s s' : State Key) : Type 0 where
    same : s' ≡ s → Change name s s'
    kept : s' ≡ record s { deletes = remove name s.deletes } → Change name s s'
    put :
        (k : KeyEntry Key)
        → k.filename ≡ name
        → s'.current ≡ put_file k s.current
        → s'.deletes ≡ remove name s.deletes
        → s.added ≤ s'.added
        → Change name s s'

  loaded-Change :
      (g : DirEntry) (exists : Bool) (s : State Key) (r : Result Error (KeyEntry Key))
      → to_key_entry lib g ≡ r
      → Change g.name s (loaded lib g.name exists s r)
  loaded-Change g exists s (err e) h = same refl
  loaded-Change g true s (ok k) h = put k (to_key_entry-filename lib g h) refl refl (omega arith)
  loaded-Change g false s (ok k) h = put k (to_key_entry-filename lib g h) refl refl (omega arith)

  compared-Change :
      (g : DirEntry) (known : KeyEntry Key) (s : State Key) (r : Result Error FileInfo)
      → Change g.name s (compared lib g known s r)
  compared-Change g known s (err e) = same refl
  compared-Change g known s (ok i) =
      elim (Bool-cases ((i.mod_time == known.mod_time) && (i.size == known.size))) [
        | inl b ↦ rw b (kept refl)
        | inr b ↦ rw b (loaded-Change g true s (to_key_entry lib g) refl)
      ]

  visit_found-Change :
      (g : DirEntry) (s : State Key) (found : Option (KeyEntry Key))
      → Change g.name s (visit_found lib g s found)
  visit_found-Change g s none = loaded-Change g false s (to_key_entry lib g) refl
  visit_found-Change g s (some known) = compared-Change g known s g.stat

  visit-Change : (g : DirEntry) (s : State Key) → Change g.name s (visit lib g s)
  visit-Change g s = elim (Bool-cases g.is_regular) [
    | inl b ↦ rw b (visit_found-Change g s (find_file g.name s.current))
    | inr b ↦ rw b (same refl)
  ]

  module _ (f : DirEntry) (k : KeyEntry Key) (regular : f.is_regular ≡ true)
      (reads : to_key_entry lib f ≡ ok k) where
    -- Before the file is visited no entry has its name; after it the entry is there to stay.
    abbrev Before : State Key → Type 0
    Before s = (e : KeyEntry Key) → Memᴰ e s.current → e.filename ≢ f.name

    record After (s : State Key) : Type 0 where
      held : Memᴰ k s.current
      free : listed f.name s.deletes ≡ false
      grown : 0 < s.added

    Before-Change :
        (g : String) (s s' : State Key) → g ≢ f.name → Change g s s' → Before s → Before s'
    Before-Change g s s' ne (same q) b e m i = b e (rw q at m) i
    Before-Change g s s' ne (kept q) b e m i = b e (rw q at m) i
    Before-Change g s s' ne (put j named cur del add) b e m i =
        elim (put_file-inv j s.current e (rw cur at m)) [
          | inl is_j ↦ ne (sym named ∙ ap (λ (z : KeyEntry Key). z.filename) (sym is_j) ∙ i)
          | inr (old, apart) ↦ b e old i
        ]

    After-Change : (g : String) (s s' : State Key) → g ≢ f.name → Change g s s' → After s → After s'
    After-Change g s s' ne (same q) a = rw q a
    After-Change g s s' ne (kept q) a =
        rw q
          record { held = a.held; free = remove-listed f.name g s.deletes a.free; grown = a.grown }
    After-Change g s s' ne (put j named cur del add) a = record {
      held = rw cur (
          put_file-keep j s.current a.held
            (λ i. ne (sym named ∙ sym i ∙ to_key_entry-filename lib f reads)));
      free = rw del (remove-listed f.name g s.deletes a.free);
      grown = omega (arith, a.grown);
    }

    visit-After : (s : State Key) → Before s → After (visit lib f s)
    visit-After s b =
        let absent : find_file f.name s.current ≡ none =
          elim (Option-cases (find_file f.name s.current)) [
            | inl e ↦ e
            | inr (e, found) ↦ let (m, i) = find_file-Mem f.name s.current found in absurd (b e m i)
          ] in
        rw (regular, absent, reads)
          record { held = Memᴰ.head refl; free = removed f.name s.deletes; grown = omega arith }

    visit_all-After :
        (todo : List (Option Error × DirEntry)) (s : State Key) {s' : State Key}
        → ((g : DirEntry) → Memᴰ g (all_files todo) → g.name ≢ f.name)
        → After s
        → visit_all lib todo s ≡ ok s'
        → After s'
    visit_all-After [] s {s'} apart a h = let e : s ≡ s' = ground arith in rw (← e) a
    visit_all-After ((some x, g) ∷ gs) s {s'} apart a h = absurd (cc)
    visit_all-After ((none, g) ∷ gs) s {s'} apart a h =
        visit_all-After gs (visit lib g s) (λ x m. apart x (Memᴰ.tail m))
          (After-Change g.name s (visit lib g s) (apart g (Memᴰ.head refl)) (visit-Change g s) a) h

    visit_all-found :
        (todo : List (Option Error × DirEntry)) (s : State Key) {s' : State Key}
        → AreApart (all_files todo)
        → Memᴰ f (all_files todo)
        → Before s
        → visit_all lib todo s ≡ ok s'
        → After s'
    visit_all-found [] s apart m b h = elim m [ ]
    visit_all-found ((some x, g) ∷ gs) s apart m b h = absurd (cc)
    visit_all-found ((none, g) ∷ gs) s (away, apart) (Memᴰ.head i) b h =
        let now : After (visit lib g s) = rw (← i) (visit-After s b) in
        visit_all-After gs (visit lib g s) (λ x m. rw i (away x m)) now h
    visit_all-found ((none, g) ∷ gs) s (away, apart) (Memᴰ.tail m) b h =
        visit_all-found gs (visit lib g s) apart m
          (Before-Change g.name s (visit lib g s) (λ i. away f m (sym i)) (visit-Change g s) b) h

    replace-found :
        (cache : List (KeyEntry Key)) (s : State Key)
        → After s
        → (e : KeyEntry Key) × (lookup k.hash (replace lib cache s) ≡ some e)
    replace-found cache s a =
        let new : (s.added == 0) ≡ false = ground (arith, a.grown) in
        let named : listed k.filename s.deletes ≡ false =
          ap (λ n. listed n s.deletes) (to_key_entry-filename lib f reads) ∙ a.free in
        let m =
          Mem-filter (λ (e : KeyEntry Key). not (listed e.filename s.deletes)) s.current a.held
            (ap not named) in
        rw new (by_hashes-lookup _ k (lib.walk_complete _ k m))

    -- If the names of the directory are different, a regular file can be read as a key and no
    -- cached entry has its name, then after a `sync` that read the directory a key is found under
    -- the hash of that file.
    pub sync-found :
        (ctx ctx' : Option Error) (files : List (Option Error × DirEntry))
        (cache : List (KeyEntry Key)) {cache' : List (KeyEntry Key)}
        → AreApart (all_files files)
        → Memᴰ f (all_files files)
        → ((e : KeyEntry Key) → Memᴰ e cache → e.filename ≢ f.name)
        → sync lib ctx ctx' (ok files) cache ≡ ok cache'
        → (e : KeyEntry Key) × (lookup k.hash cache' ≡ some e)
    unfolding sync
    sync-found ctx ctx' [] cache apart m absent h = elim m [ ]
    sync-found ctx ctx' (g ∷ gs) cache {cache'} apart m absent h =
        let (_, _, h1) = >>=-eq-ok (unless ctx tt) _ h in
        let (_, _, h2) = >>=-eq-ok (unless ctx' tt) _ h1 in
        let (s, scanned, h3) = >>=-eq-ok (visit_all lib (g ∷ gs) (initial lib cache)) _ h2 in
        let a =
          visit_all-found (g ∷ gs) (initial lib cache) apart m
            (λ e me. absent e (lib.walk_sound cache e (by_files-Mem (lib.walk cache) e me)))
            scanned in
        let new : replace lib cache s ≡ cache' = ground arith in
        rw (← new) (replace-found cache s a)
