-- ===== src/Tokens/PublicKeys/Sync.antt =====
-- pkg/tokens/public_keys.go: which keys the cache holds after `sync`, and what `KeyFunction` answers.
use go_base.Base.{
  ◌≡◌, sym, ap, ◌∙◌, inl, inr, true, ◌&&◌, not, Option, some, List, [], ◌∷◌, map, Memᴰ, String,
  str_eq, eq_iff, ◌==◌, ==_iff, Bool-cases, Mem-filter_inv, ok, >>=-eq-ok, unless, arith,
}
use go_base.Tokens.PublicKeys.{
  Error, DirEntry, KeyEntry, Library, lookup, by_hashes, listed, State, visit_all, initial,
  is_empty, replace, sync,
}
use go_base.Tokens.PublicKeys.Files.{HasFiles, by_files-all}
use go_base.Tokens.PublicKeys.Scan.{IsBacked, Inv, visit_all-Inv, initial-Inv}

module _ {Key : Type 0} where
  pub lookup-Mem :
      (h : String) (es : List (KeyEntry Key)) {e : KeyEntry Key}
      → lookup h es ≡ some e
      → Memᴰ e es × (e.hash ≡ h)
  lookup-Mem h [] q = absurd (cc)
  lookup-Mem h (x ∷ xs) {e} q = elim (Bool-cases (str_eq x.hash h)) [
    | inl same ↦
        let i : x ≡ e = ground arith in
        (Memᴰ.head (sym i), ap (λ (y : KeyEntry Key). y.hash) (sym i) ∙ (eq_iff x.hash h).0 same)
    | inr differs ↦ let (m, i) = lookup-Mem h xs (ground arith) in (Memᴰ.tail m, i)
  ]

  pub by_hashes-Mem :
      (es : List (KeyEntry Key)) (e : KeyEntry Key) → Memᴰ e (by_hashes es) → Memᴰ e es
  by_hashes-Mem [] e m = m
  by_hashes-Mem (x ∷ xs) e (Memᴰ.head i) = Memᴰ.head i
  by_hashes-Mem (x ∷ xs) e (Memᴰ.tail m) = Memᴰ.tail (
      by_hashes-Mem xs e
        (Mem-filter_inv (λ (y : KeyEntry Key). not (str_eq y.hash x.hash)) (by_hashes xs) m).0)

listed_of_Mem : (x : String) (l : List String) → Memᴰ x l → listed x l ≡ true
listed_of_Mem x [] m = elim m [ ]
listed_of_Mem x (y ∷ ys) (Memᴰ.head i) = ground (arith, (eq_iff y x).1 (sym i))
listed_of_Mem x (y ∷ ys) (Memᴰ.tail m) = ground (arith, listed_of_Mem x ys m)

abbrev pub all_files : List (Option Error × DirEntry) → List DirEntry
all_files files = map (λ (p : Option Error × DirEntry). p.1) files

module _ {Key : Type 0} (lib : Library Key) where
  -- What `replace` keeps of a scan whose state is as it should be.
  replace-Backed :
      (files : List DirEntry) (cache : List (KeyEntry Key)) (s : State Key) (e : KeyEntry Key)
      → HasFiles cache
      → Inv lib files cache s
      → Memᴰ e (replace lib cache s)
      → IsBacked lib files cache e
  replace-Backed files cache s e u v m =
      elim (Bool-cases ((s.added == 0) && ((s.updated == 0) && is_empty lib s.deletes))) [
        | inl b ↦
            let old : Memᴰ e cache = rw b at m in
            let a : s.added ≡ 0 = ground (arith, ==_iff s.added 0) in
            let c : s.updated ≡ 0 = ground (arith, ==_iff s.updated 0) in
            let none_left : is_empty lib s.deletes ≡ true = ground arith in
            let walked =
              by_files-all (lib.walk cache) e
                (λ x y mx my. u x y (lib.walk_sound cache x mx) (lib.walk_sound cache y my))
                (lib.walk_complete cache e old) in
            let now : Memᴰ e s.current = rw (v.same a c) walked in
            elim (v.held e now) [
              | inr backed ↦ backed
              | inl d ↦ absurd (nothing_in e.filename s.deletes none_left d)
            ]
        | inr b ↦
            let new = rw b at m in
            let kept = lib.walk_sound _ e (by_hashes-Mem _ e new) in
            let (now, free) =
              Mem-filter_inv (λ (x : KeyEntry Key). not (listed x.filename s.deletes)) s.current
                kept in
            elim (v.held e now) [
              | inr backed ↦ backed
              | inl d ↦ absurd (ground (arith, listed_of_Mem e.filename s.deletes d))
            ]
      ]
    where
      nothing_in : (x : String) (l : List String) → is_empty lib l ≡ true → Memᴰ x l → ⊥
      nothing_in x [] h mx = elim mx [ ]
      nothing_in x (y ∷ ys) h mx = absurd (cc)

  -- If the cached entries are of different files, then after a `sync` that read the directory a
  -- regular file of the directory stands behind every cached entry: the entry was read from it in
  -- this call, or was cached before and the file has its time and size.
  pub sync-IsBacked :
      (ctx ctx' : Option Error) (files : List (Option Error × DirEntry))
      (cache : List (KeyEntry Key)) {cache' : List (KeyEntry Key)} (e : KeyEntry Key)
      → HasFiles cache
      → sync lib ctx ctx' (ok files) cache ≡ ok cache'
      → Memᴰ e cache'
      → IsBacked lib (all_files files) cache e
  unfolding sync
  sync-IsBacked ctx ctx' [] cache {cache'} e u h m =
      let (_, _, h') = >>=-eq-ok (unless ctx tt) _ h in
      let gone : [] ≡ cache' = ground arith in elim (rw (← gone) at m) [ ]
  sync-IsBacked ctx ctx' (f ∷ fs) cache {cache'} e u h m =
      let (_, _, h1) = >>=-eq-ok (unless ctx tt) _ h in
      let (_, _, h2) = >>=-eq-ok (unless ctx' tt) _ h1 in
      let (s, scanned, h3) = >>=-eq-ok (visit_all lib (f ∷ fs) (initial lib cache)) _ h2 in
      let v =
        visit_all-Inv lib (all_files (f ∷ fs)) cache (f ∷ fs) (initial lib cache) (λ g mg. mg)
          (initial-Inv lib (all_files (f ∷ fs)) cache) scanned in
      let new : replace lib cache s ≡ cache' = ground arith in
      replace-Backed (all_files (f ∷ fs)) cache s e u v (rw (← new) at m)

  -- If the cached entries are of different files, they are so after a `sync` that read the
  -- directory.
  pub sync-HasFiles :
      (ctx ctx' : Option Error) (files : List (Option Error × DirEntry))
      (cache : List (KeyEntry Key)) {cache' : List (KeyEntry Key)}
      → HasFiles cache
      → sync lib ctx ctx' (ok files) cache ≡ ok cache'
      → HasFiles cache'
  unfolding sync
  sync-HasFiles ctx ctx' [] cache {cache'} u h =
      let (_, _, h') = >>=-eq-ok (unless ctx tt) _ h in
      let gone : [] ≡ cache' = ground arith in rw (← gone) (λ d e md me i. elim md [ ])
  sync-HasFiles ctx ctx' (f ∷ fs) cache {cache'} u h =
      let (_, _, h1) = >>=-eq-ok (unless ctx tt) _ h in
      let (_, _, h2) = >>=-eq-ok (unless ctx' tt) _ h1 in
      let (s, scanned, h3) = >>=-eq-ok (visit_all lib (f ∷ fs) (initial lib cache)) _ h2 in
      let v =
        visit_all-Inv lib (all_files (f ∷ fs)) cache (f ∷ fs) (initial lib cache) (λ g mg. mg)
          (initial-Inv lib (all_files (f ∷ fs)) cache) scanned in
      let new : replace lib cache s ≡ cache' = ground arith in
      elim (Bool-cases ((s.added == 0) && ((s.updated == 0) && is_empty lib s.deletes))) [
        | inl b ↦ rw (← new, b) u
        | inr b ↦
            rw (← new, b)
              (λ d e md me.
                v.names d e
                  (Mem-filter_inv (λ (x : KeyEntry Key). not (listed x.filename s.deletes))
                    s.current (lib.walk_sound _ d (by_hashes-Mem _ d md))).0
                  (Mem-filter_inv (λ (x : KeyEntry Key). not (listed x.filename s.deletes))
                    s.current (lib.walk_sound _ e (by_hashes-Mem _ e me))).0)
      ]
