-- ===== src/Watcher/Local/Examples.antt =====
-- Concrete directories, for the watcher of the local files.
use dove.Base.{
  ◌≡◌, refl, true, false, none, List, [], ◌∷◌, Bytes, codes, bytes_beq, nat_eq, bytes_eq, contains,
}
use dove.Base.Text.{has_suffix, join, split}
use dove.Watcher.Local.{System, loop_watch_event, remove, create, Local, update_schemafile}

abbrev dir_a : Bytes
dir_a = codes "/a"

abbrev dir_b : Bytes
dir_b = codes "/b"

abbrev dir_c : Bytes
dir_c = codes "/c"

-- The directories of the list are there.
abbrev system : List Bytes → System
system dirs = record { exists = contains dirs; watchable = λ d. true; entries = λ d. none }

abbrev nothing_failed : Local
nothing_failed = record {
  watched = dir_a ∷ [];
  failed_dirs = record { before = []; elements = []; after = [] };
}

-- A file of a watched directory is gone; the slash at the end of a directory of the settings hides it.
test_deleted :
    (loop_watch_event
      (system [])
      false
      (codes "config.debug.toml")
      (dir_a ∷ [])
      (codes "/a/x.schema.php")
      remove
      nothing_failed).1.failed_dirs.elements
    ≡ dir_a ∷ []
unfolding loop_watch_event contains bytes_beq has_suffix join split
test_deleted = refl

test_slash :
    (loop_watch_event
      (system [])
      false
      (codes "config.debug.toml")
      (codes "/a/" ∷ [])
      (codes "/a/x.schema.php")
      remove
      nothing_failed).1.failed_dirs.elements
    ≡ []
unfolding loop_watch_event contains bytes_beq has_suffix join split
test_slash = refl

test_create :
    (loop_watch_event
      (system (codes "/a/x.schema.php" ∷ []))
      false
      (codes "config.debug.toml")
      (dir_a ∷ [])
      (codes "/a/x.schema.php")
      create
      nothing_failed).0
    ≡ update_schemafile (codes "/a/x.schema.php")
unfolding loop_watch_event contains bytes_beq has_suffix join split
test_create = refl
