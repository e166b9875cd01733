-- ===== src/Tokens/PublicKeys/Scan.antt =====
-- pkg/tokens/public_keys.go: what the loop of `sync` over the files keeps.
use go_base.Base.{
  ◌≡◌, refl, sym, ap, ◌∙◌, ◌⊎◌, inl, inr, Bool, true, false, ◌&&◌, Option, none, some, List, [],
  ◌∷◌, map, Memᴰ, str_eq, eq_iff, ◌==◌, ==_iff, Bool-cases, Mem-map, Result, ok, err, >>=-eq-ok,
  arith,
}
use go_base.Tokens.PublicKeys.{
  Error, FileInfo, DirEntry, KeyEntry, Library, to_key_entry, find_file, put_file, remove, State,
  loaded, compared, visit_found, visit, visit_all, initial,
}
use go_base.Tokens.PublicKeys.Files.{
  find_file-Mem, HasFiles, put_file-inv, put_file-HasFiles, by_files-HasFiles, by_files-Mem,
  remove-keep,
}

module _ {Key : Type 0} (lib : Library Key) where
  pub to_key_entry-filename :
      (file : DirEntry) {e : KeyEntry Key} → to_key_entry lib file ≡ ok e → e.filename ≡ file.name
  to_key_entry-filename file {e} h =
      let (info, _, h1) = >>=-eq-ok file.info _ h in
      let (bytes, _, h2) = >>=-eq-ok file.content _ h1 in
      let (key, _, h3) = >>=-eq-ok (lib.parse bytes) _ h2 in ground arith

  module _ (files : List DirEntry) (cache : List (KeyEntry Key)) where
    -- A regular file of the directory stands behind the entry: the entry was read from it now, or
    -- was cached before and the file has its time and size.
    abbrev pub IsBacked : KeyEntry Key → Type 0
    IsBacked e =
        (f : DirEntry) × Memᴰ f files
        × (f.is_regular ≡ true)
        × (f.name ≡ e.filename)
        × ((to_key_entry lib f ≡ ok e)
            ⊎ (Memᴰ e cache
                × (i : FileInfo) × (f.stat ≡ ok i)
                × (i.mod_time ≡ e.mod_time)
                × (i.size ≡ e.size)))

    pub record Inv (s : State Key) : Type 0 where
      pub names : HasFiles s.current
      pub origin : (e : KeyEntry Key) → Memᴰ e s.current → Memᴰ e cache ⊎ IsBacked e
      pub held : (e : KeyEntry Key) → Memᴰ e s.current → Memᴰ e.filename s.deletes ⊎ IsBacked e
      pub same : s.added ≡ 0 → s.updated ≡ 0 → s.current ≡ (initial lib cache).current

    module _ (f : DirEntry) (m : Memᴰ f files) (regular : f.is_regular ≡ true) where
      loaded_parts :
          (s : State Key) (k : KeyEntry Key) (e : KeyEntry Key)
          → to_key_entry lib f ≡ ok k
          → Inv s
          → Memᴰ e (put_file k s.current)
          → (Memᴰ e cache ⊎ IsBacked e) × (Memᴰ e.filename (remove f.name s.deletes) ⊎ IsBacked e)
      loaded_parts s k e h v me =
          let named = to_key_entry-filename f h in
          elim (put_file-inv k s.current e me) [
            | inl i ↦
                let backed : IsBacked e = (
                  f,
                  m,
                  regular,
                  sym (ap (λ (y : KeyEntry Key). y.filename) i ∙ named),
                  inl (h ∙ ap ok (sym i)),
                ) in
                (inr backed, inr backed)
            | inr (old, apart) ↦ (
              v.origin e old,
              elim (v.held e old) [
                | inl d ↦
                    inl (remove-keep f.name e.filename s.deletes d (λ i. apart (i ∙ sym named)))
                | inr b ↦ inr b
              ],
            )
          ]

      loaded-Inv :
          (exists : Bool) (s : State Key) (r : Result Error (KeyEntry Key))
          → to_key_entry lib f ≡ r
          → Inv s
          → Inv (loaded lib f.name exists s r)
      loaded-Inv exists s (err e) h v = v
      loaded-Inv true s (ok k) h v = record {
        names = put_file-HasFiles k s.current v.names;
        origin = λ e me. (loaded_parts s k e h v me).0;
        held = λ e me. (loaded_parts s k e h v me).1;
        same = λ a u. absurd (omega (arith, u));
      }
      loaded-Inv false s (ok k) h v = record {
        names = put_file-HasFiles k s.current v.names;
        origin = λ e me. (loaded_parts s k e h v me).0;
        held = λ e me. (loaded_parts s k e h v me).1;
        same = λ a u. absurd (omega (arith, a));
      }

      unchanged_held :
          (s : State Key) (known : KeyEntry Key) (i : FileInfo)
          → find_file f.name s.current ≡ some known
          → f.stat ≡ ok i
          → i.mod_time ≡ known.mod_time
          → i.size ≡ known.size
          → Inv s
          → (e : KeyEntry Key) → Memᴰ e s.current
          → Memᴰ e.filename (remove f.name s.deletes) ⊎ IsBacked e
      unchanged_held s known i found stat time size v e me =
          let (mk, named) = find_file-Mem f.name s.current found in
          elim (v.held e me) [
            | inr b ↦ inr b
            | inl d ↦ elim (Bool-cases (str_eq e.filename f.name)) [
              | inl b ↦
                  let is_known : known ≡ e =
                    v.names known e mk me (named ∙ sym ((eq_iff e.filename f.name).0 b)) in
                  elim (v.origin e me) [
                    | inr backed ↦ inr backed
                    | inl cached ↦ inr (
                      f,
                      m,
                      regular,
                      sym ((eq_iff e.filename f.name).0 b),
                      inr (
                        cached,
                        i,
                        stat,
                        time ∙ ap (λ (y : KeyEntry Key). y.mod_time) is_known,
                        size ∙ ap (λ (y : KeyEntry Key). y.size) is_known,
                      ),
                    )
                  ]
              | inr b ↦ inl (
                  remove-keep f.name e.filename s.deletes d
                    (λ q. ground (arith, (eq_iff e.filename f.name).1 q)))
            ]
          ]

      compared-Inv :
          (s : State Key) (known : KeyEntry Key) (r : Result Error FileInfo)
          → find_file f.name s.current ≡ some known
          → f.stat ≡ r
          → Inv s
          → Inv (compared lib f known s r)
      compared-Inv s known (err e) found stat v = v
      compared-Inv s known (ok i) found stat v =
          elim (Bool-cases ((i.mod_time == known.mod_time) && (i.size == known.size))) [
            | inl b ↦
                let time : i.mod_time ≡ known.mod_time =
                  ground (arith, ==_iff i.mod_time known.mod_time) in
                let size : i.size ≡ known.size = ground (arith, ==_iff i.size known.size, b) in
                rw b record {
                  names = v.names;
                  origin = v.origin;
                  held = unchanged_held s known i found stat time size v;
                  same = v.same;
                }
            | inr b ↦ rw b (loaded-Inv true s (to_key_entry lib f) refl v)
          ]

      visit_found-Inv :
          (s : State Key) (found : Option (KeyEntry Key))
          → find_file f.name s.current ≡ found
          → Inv s
          → Inv (visit_found lib f s found)
      visit_found-Inv s none h v = loaded-Inv false s (to_key_entry lib f) refl v
      visit_found-Inv s (some known) h v = compared-Inv s known f.stat h refl v

    pub visit-Inv : (f : DirEntry) (s : State Key) → Memᴰ f files → Inv s → Inv (visit lib f s)
    visit-Inv f s m v = elim (Bool-cases f.is_regular) [
      | inl b ↦ rw b (visit_found-Inv f m b s (find_file f.name s.current) refl v)
      | inr b ↦ rw b v
    ]

    pub visit_all-Inv :
        (todo : List (Option Error × DirEntry)) (s : State Key) {s' : State Key}
        → ((f : DirEntry) → Memᴰ f (map (λ (p : Option Error × DirEntry). p.1) todo) → Memᴰ f files)
        → Inv s
        → visit_all lib todo s ≡ ok s'
        → Inv s'
    visit_all-Inv [] s {s'} sub v h = let e : s ≡ s' = ground arith in rw (← e) v
    visit_all-Inv ((some x, f) ∷ fs) s sub v h = absurd (cc)
    visit_all-Inv ((none, f) ∷ fs) s sub v h =
        visit_all-Inv fs (visit lib f s) (λ g mg. sub g (Memᴰ.tail mg))
          (visit-Inv f s (sub f (Memᴰ.head refl)) v) h

    pub initial-Inv : Inv (initial lib cache)
    initial-Inv = record {
      names = by_files-HasFiles (lib.walk cache);
      origin = λ e m. inl (lib.walk_sound cache e (by_files-Mem (lib.walk cache) e m));
      held = λ e m. inl (
          Mem-map (λ (x : KeyEntry Key). x.filename) (lib.walk cache)
            (by_files-Mem (lib.walk cache) e m));
      same = λ a u. refl;
    }
