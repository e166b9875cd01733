-- ===== src/Tokens/PublicKeys.antt =====
-- pkg/tokens/public_keys.go: the cache of the public keys that a directory holds.
pub mod Files
pub mod Scan
pub mod Sync
pub mod Found
use go_base.Base.{
  ℕ, suc, ◌+◌, ◌≡◌, Bool, true, false, ◌&&◌, not, Option, none, some, List, [], ◌∷◌, map, filter,
  Memᴰ, String, str_eq, ◌==◌, Result, ok, err, ◌>>=◌, ◌>>◌, unless, if◌then◌else◌,
}

pub data Error : Type 0 where
  key_not_found malformed_key_id unsupported_signing_method : Error
  system : String → Error

pub record FileInfo : Type 0 where
  pub mod_time : ℕ
  pub size : ℕ

-- A file of the directory as one call of `sync` finds it: `stat` is the first `Info`, `info` that of
-- `fileToKeyEntry`, `content` what `ReadFile` gives.
pub record DirEntry : Type 0 where
  pub name : String
  pub is_regular : Bool
  pub stat : Result Error FileInfo
  pub info : Result Error FileInfo
  pub content : Result Error String

pub record KeyEntry (Key : Type 0) : Type 0 where
  pub filename : String
  pub mod_time : ℕ
  pub size : ℕ
  pub hash : String
  pub key : Key

-- What is not in this repository: `jwt.ParseRSAPublicKeyFromPEM`, the hexadecimal SHA512/256, and the
-- order in which Go walks a map.
pub record Library (Key : Type 0) : Type 0 where
  pub parse : String → Result Error Key
  pub hash : String → String
  pub walk : List (KeyEntry Key) → List (KeyEntry Key)
  pub walk_sound : (l : List (KeyEntry Key)) (e : KeyEntry Key) → Memᴰ e (walk l) → Memᴰ e l
  pub walk_complete : (l : List (KeyEntry Key)) (e : KeyEntry Key) → Memᴰ e l → Memᴰ e (walk l)

abbrev pub to_key_entry : {Key : Type 0} → Library Key → DirEntry → Result Error (KeyEntry Key)
to_key_entry lib file = do
  info ← file.info
  bytes ← file.content
  key ← lib.parse bytes
  ok record {
    filename = file.name;
    mod_time = info.mod_time;
    size = info.size;
    hash = lib.hash bytes;
    key = key;
  }

module _ {Key : Type 0} where
  -- A map from hashes is the list of its entries, since each entry holds its hash; a map from
  -- filenames likewise.
  abbrev pub lookup : String → List (KeyEntry Key) → Option (KeyEntry Key)
  lookup h [] = none
  lookup h (e ∷ es) = if str_eq e.hash h then some e else lookup h es

  abbrev pub find_file : String → List (KeyEntry Key) → Option (KeyEntry Key)
  find_file name [] = none
  find_file name (e ∷ es) = if str_eq e.filename name then some e else find_file name es

  abbrev pub put_hash : KeyEntry Key → List (KeyEntry Key) → List (KeyEntry Key)
  put_hash e es = e ∷ filter (λ (x : KeyEntry Key). not (str_eq x.hash e.hash)) es

  abbrev pub put_file : KeyEntry Key → List (KeyEntry Key) → List (KeyEntry Key)
  put_file e es = e ∷ filter (λ (x : KeyEntry Key). not (str_eq x.filename e.filename)) es

  -- The two loops that fill a map, the last entry first.
  abbrev pub by_hashes : List (KeyEntry Key) → List (KeyEntry Key)
  by_hashes [] = []
  by_hashes (e ∷ es) = put_hash e (by_hashes es)

  abbrev pub by_files : List (KeyEntry Key) → List (KeyEntry Key)
  by_files [] = []
  by_files (e ∷ es) = put_file e (by_files es)

-- `delete(deletes, filename)`.
abbrev pub remove : String → List String → List String
remove name l = filter (λ (x : String). not (str_eq x name)) l

abbrev pub listed : String → List String → Bool
listed name [] = false
listed name (x ∷ xs) = if str_eq x name then true else listed name xs

-- The local state of `sync` while it goes over the files.
pub record State (Key : Type 0) : Type 0 where
  pub current : List (KeyEntry Key)
  pub deletes : List String
  pub added : ℕ
  pub updated : ℕ

module _ {Key : Type 0} (lib : Library Key) where
  abbrev pub loaded : String → Bool → State Key → Result Error (KeyEntry Key) → State Key
  loaded name exists s (err e) = s
  loaded name true s (ok key) = record s {
    current = put_file key s.current;
    deletes = remove name s.deletes;
    updated = suc s.updated;
  }
  loaded name false s (ok key) = record s {
    current = put_file key s.current;
    deletes = remove name s.deletes;
    added = suc s.added;
  }

  abbrev pub compared : DirEntry → KeyEntry Key → State Key → Result Error FileInfo → State Key
  compared file known s (err e) = s
  compared file known s (ok info) =
      let reloaded = loaded file.name true s (to_key_entry lib file) in
      if (info.mod_time == known.mod_time) && (info.size == known.size)
      then record s { deletes = remove file.name s.deletes }
      else reloaded

  abbrev pub visit_found : DirEntry → State Key → Option (KeyEntry Key) → State Key
  visit_found file s (some known) = compared file known s file.stat
  visit_found file s none = loaded file.name false s (to_key_entry lib file)

  -- The body of the loop over the files.
  abbrev pub visit : DirEntry → State Key → State Key
  visit file s =
      let found = visit_found file s (find_file file.name s.current) in
      if file.is_regular then found else s

  -- Every file comes with what `ctx.Err()` says before it.
  abbrev pub visit_all : List (Option Error × DirEntry) → State Key → Result Error (State Key)
  visit_all [] s = ok s
  visit_all ((some e, file) ∷ files) s = err e
  visit_all ((none, file) ∷ files) s = visit_all files (visit file s)

  abbrev pub initial : List (KeyEntry Key) → State Key
  initial cache = record {
    current = by_files (lib.walk cache);
    deletes = map (λ (e : KeyEntry Key). e.filename) (lib.walk cache);
    added = 0;
    updated = 0;
  }

  abbrev pub is_empty : List String → Bool
  is_empty [] = true
  is_empty (x ∷ xs) = false

  -- "no change detected", or the new map.
  abbrev pub replace : List (KeyEntry Key) → State Key → List (KeyEntry Key)
  replace cache s =
      if (s.added == 0) && ((s.updated == 0) && is_empty s.deletes)
      then cache
      else by_hashes
          (lib.walk (filter (λ (e : KeyEntry Key). not (listed e.filename s.deletes)) s.current))

  -- What `sync` does with the directory: an error or no files clears the cache. An error of the
  -- context is returned, and leaves the cache.
  abbrev pub sync_files :
      Option Error
      → List (Option Error × DirEntry)
      → List (KeyEntry Key)
      → Result Error (List (KeyEntry Key))
  sync_files ctx [] cache = ok []
  sync_files ctx (f ∷ files) cache = do
    unless ctx tt
    s ← visit_all (f ∷ files) (initial cache)
    ok (replace cache s)

  abbrev pub sync_read :
      Option Error
      → Result Error (List (Option Error × DirEntry))
      → List (KeyEntry Key)
      → Result Error (List (KeyEntry Key))
  sync_read ctx (err e) cache = ok []
  sync_read ctx (ok files) cache = sync_files ctx files cache

  unfoldable pub sync :
      Option Error
      → Option Error
      → Result Error (List (Option Error × DirEntry))
      → List (KeyEntry Key)
      → Result Error (List (KeyEntry Key))
  sync ctx ctx' files cache = unless ctx tt >> sync_read ctx' files cache

  abbrev pub init_file :
      DirEntry → Result Error (KeyEntry Key) → List (KeyEntry Key) → List (KeyEntry Key)
  init_file file (err e) keys = keys
  init_file file (ok key) keys = put_hash key keys

  -- The loop of `init`: every regular file that can be read, where a later one replaces an earlier
  -- one of the same content.
  unfoldable pub init_files : List DirEntry → List (KeyEntry Key) → List (KeyEntry Key)
  init_files [] keys = keys
  init_files (f ∷ fs) keys =
      let added = init_files fs (init_file f (to_key_entry lib f) keys) in
      let skipped = init_files fs keys in if f.is_regular then added else skipped

-- The method of a token, and the key identifier of its header, if that is a string.
pub record Header : Type 0 where
  pub is_rsa : Bool
  pub kid : Option String

module _ {Key : Type 0} where
  abbrev pub found_key : Option (KeyEntry Key) → Result Error Key
  found_key none = err key_not_found
  found_key (some e) = ok e.key

  abbrev pub with_kid : List (KeyEntry Key) → Option String → Result Error Key
  with_kid cache none = err malformed_key_id
  with_kid cache (some kid) = found_key (lookup kid cache)

  unfoldable pub key_function : List (KeyEntry Key) → Header → Result Error Key
  key_function cache token =
      if token.is_rsa then with_kid cache token.kid else err unsupported_signing_method
