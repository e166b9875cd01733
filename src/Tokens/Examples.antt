-- ===== src/Tokens/Examples.antt =====
-- pkg/tokens: a directory with a kept file, a new one and one that cannot be read, and a created token.
use go_base.Base.{
  ◌≢◌, sym, ap, ◌∙◌, ◌+◌, ◌≤◌, ◌<◌, ◌↔◌, str_eq, eq_iff, false, arith, ◌≡◌, refl, true, none, some,
  Option, List, [], ◌∷◌, Memᴰ, String, ok, err,
}
use go_base.Tokens.Claims.{Claims, validate, seconds, received}
use go_base.Tokens.Creator.{Options, new_creator, create, request_token, create-validate}
use go_base.Tokens.PublicKeys.{Error, system, FileInfo, DirEntry, KeyEntry, Library, sync}
use go_base.Tokens.PublicKeys.{lookup}
use go_base.Tokens.PublicKeys.Found.{AreApart, sync-found}
use go_base.Tokens.PublicKeys.Sync.{all_files}

abbrev lib : Library String
lib = record {
  parse = λ s. ok s;
  hash = λ s. s;
  walk = λ l. l;
  walk_sound = λ l e m. m;
  walk_complete = λ l e m. m;
}

abbrev info : FileInfo
info = record { mod_time = 7; size = 3 }

abbrev file : String → String → DirEntry
file name content = record {
  name = name;
  is_regular = true;
  stat = ok info;
  info = ok info;
  content = ok content;
}

abbrev entry : String → String → KeyEntry String
entry name content = record {
  filename = name;
  mod_time = 7;
  size = 3;
  hash = content;
  key = content;
}

abbrev broken : DirEntry
broken = record (file "broken" "k3") { content = err (system "denied") }

abbrev files : List (Option Error × DirEntry)
files = (none, file "kept" "k1") ∷ (none, file "new" "k2") ∷ (none, broken) ∷ []

abbrev cache : List (KeyEntry String)
cache = entry "kept" "k1" ∷ []

abbrev synced : List (KeyEntry String)
synced = entry "new" "k2" ∷ entry "kept" "k1" ∷ []

sync_test : sync lib none none (ok files) cache ≡ ok synced
unfolding sync
sync_test = refl

abbrev options : Options
options = record { audience = "hub"; project_id = "p"; id = ""; user_id = "" }

apart : (s t : String) → str_eq s t ≡ false → (s ≡ t) → ⊥
apart s t h e = ground (arith, eq_iff s t)

away_from_kept : (g : DirEntry) → Memᴰ g (file "new" "k2" ∷ broken ∷ []) → g.name ≢ "kept"
away_from_kept g (Memᴰ.head i) e =
    apart "new" "kept" refl (ap (λ (x : DirEntry). x.name) (sym i) ∙ e)
away_from_kept g (Memᴰ.tail (Memᴰ.head i)) e =
    apart "broken" "kept" refl (ap (λ (x : DirEntry). x.name) (sym i) ∙ e)
away_from_kept g (Memᴰ.tail (Memᴰ.tail m)) e = elim m [ ]

away_from_new : (g : DirEntry) → Memᴰ g (broken ∷ []) → g.name ≢ "new"
away_from_new g (Memᴰ.head i) e =
    apart "broken" "new" refl (ap (λ (x : DirEntry). x.name) (sym i) ∙ e)
away_from_new g (Memᴰ.tail m) e = elim m [ ]

names_apart : AreApart (all_files files)
names_apart = (away_from_kept, (away_from_new, ((λ g m. elim m [ ]), tt)))

new_to_cache : (e : KeyEntry String) → Memᴰ e cache → e.filename ≢ "new"
new_to_cache e (Memᴰ.head i) q =
    apart "kept" "new" refl (ap (λ (x : KeyEntry String). x.filename) (sym i) ∙ q)
new_to_cache e (Memᴰ.tail m) q = elim m [ ]

sync-found_example : (e : KeyEntry String) × (lookup "k2" synced ≡ some e)
sync-found_example =
    sync-found lib (file "new" "k2") (entry "new" "k2") refl refl none none files cache names_apart
      (Memᴰ.tail (Memᴰ.head refl)) new_to_cache sync_test

abbrev created : Claims
created = request_token (λ s t. s) "u" "0" 7500000000 (new_creator "idp" true 0) "task" options

nil_uuid_text : (created.user_id ≡ "") → ⊥
unfolding request_token
nil_uuid_text e = ground (arith, eq_iff "0" "")

-- Created in the eighth second with the least lifetime.
create-validate_example : (validate 9000000000 (received created) ≡ ok tt) ↔ (
    (seconds 7500000000 ≤ 9000000000)
    × (9000000000 < seconds (7500000000 + (new_creator "idp" true 0).lifetime)))
unfolding create new_creator
create-validate_example =
    create-validate (λ s t. s) "u" "0" "idp" "task" 0 options 7500000000 9000000000 nil_uuid_text
      (omega arith) refl
