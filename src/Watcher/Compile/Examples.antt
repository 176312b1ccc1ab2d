-- ===== src/Watcher/Compile/Examples.antt =====
-- The compilation on two settings.
use dove.Base.{
  ℕ, suc, ◌-◌, ◌≡◌, refl, true, false, Option, none, some, List, [], ◌∷◌, ◌++◌, arith, nat_beq,
  if◌then◌else◌, length, take, All, ◌==◌, Bytes, codes, bytes_beq, nat_eq, bytes_eq, contains,
}
use dove.Base.Dict.{Dict, lookup}
use dove.Base.Text.{has_prefix, replace_all, index_of, trim_space}
use dove.Schema.{is_word, is_name, is_name_byte, get_compilation_caution}
use dove.Schema.Placeholders.{render}
use dove.Watcher.Compile.{Php, compile_schema_file, php_value, php_content, with_caution, json_text}
use dove.Watcher.Compile.Toml.{compile_toml_file}
use dove.Watcher.Compile.Substituted.{
  IsValued, IsValuedSegment, substituted, compile_schema_file-substituted,
}

two_php : Php
unfolding php_content
two_php = record {
  temp_file = λ _. true;
  temp_written = λ _. true;
  runs = λ attempt script. nat_beq attempt 1;
  temp_read = λ script. some (if script == php_content (codes "1") then codes "1" else codes "'x'");
  target_opens = true;
  target_written = true;
}

abbrev container : Dict Bytes (Option Bytes)
container = (codes "cache", none) ∷ (codes "db.host", some (codes "1")) ∷ []

abbrev no_fetch : Bytes → ℕ → Option Bytes × ℕ
no_fetch item s = (none, suc s)

abbrev val : Bytes → Bytes
val item = if bytes_beq item (codes "db.host") then codes "1" else codes "'x'"

abbrev segments : List (Bytes × Bytes)
segments =
    (codes "db.host", codes ",\n") ∷ (codes "cache", codes "+") ∷ (codes "db.host", codes ";") ∷ []

db_host-IsValued : IsValued two_php container val (codes "db.host")
unfolding two_php php_value lookup bytes_beq json_text is_word is_name_byte is_name
db_host-IsValued = record {
  named = record { bytes = ground arith; ends = refl };
  json = some (codes "1");
  stored = refl;
  valued = refl;
  plain_val = ground arith;
}

cache-IsValued : IsValued two_php container val (codes "cache")
unfolding two_php php_value lookup bytes_beq json_text is_word is_name_byte is_name
cache-IsValued = record {
  named = record { bytes = ground arith; ends = refl };
  json = none;
  stored = refl;
  valued = refl;
  plain_val = ground arith;
}

segments-IsValuedSegment : All (IsValuedSegment two_php container val) segments
unfolding has_prefix
segments-IsValuedSegment = (
  (db_host-IsValued, record { quotes = ground arith; start = refl; some_byte = omega arith }),
  (
    (cache-IsValued, record { quotes = ground arith; start = refl; some_byte = omega arith }),
    (
      (db_host-IsValued, record { quotes = ground arith; start = refl; some_byte = omega arith }),
      tt,
    ),
  ),
)

compile_schema_file-substituted_example :
    compile_schema_file no_fetch two_php container
      (some (codes "<?php return " ++ render segments))
      (codes "/app/db.schema.php")
      0
    ≡ (
      some (record {
        target = some (
          take (length (codes "/app/db.schema.php") - 11) (codes "/app/db.schema.php")
              ++ codes ".php",
          with_caution (codes "<?php return " ++ substituted val segments),
        );
        errors = [];
      }),
      0,
    )
unfolding two_php
compile_schema_file-substituted_example =
    compile_schema_file-substituted two_php container val no_fetch (codes "<?php return ")
      (codes "/app/db.schema.php") segments 0 (ground arith) segments-IsValuedSegment refl refl

with_caution_run :
    with_caution (codes "<?php return " ++ substituted val segments)
    ≡ codes "<?php" ++ (get_compilation_caution false ++ codes " return 1,\n'x'+1;")
unfolding with_caution index_of has_prefix trim_space bytes_beq
with_caution_run = refl

abbrev toml_of : Bytes → ℕ → Option Bytes × ℕ
toml_of name s = (
  if bytes_beq name (codes "app.db")
      then some (codes "[db]\nhost = 1\n[db.slave]\nhost = 2")
      else if bytes_beq name (codes "app.port")
      then some (codes "port=80 # http")
      else none,
  suc s,
)

toml_run :
    compile_toml_file toml_of
      (some
        (codes "title = 1\n\n [server] \n\"#{app.db}\"\nport = \"#{app.port}\"\nx = \"#{gone}\""))
      true
      (codes "/app/db.schema.toml")
      0
    ≡ (
      record {
        target = some (
          codes "/app/db.toml",
          codes
              "title = 1\n[server]\nhost = 1\n[server.slave]\nhost = 2\n\nport = 80\nx = \"#{gone}\"\n",
        );
        errors = dove.Watcher.Compile.no_value (codes "gone") ∷ [];
      },
      3,
    )
unfolding compile_toml_file dove.Watcher.Compile.Toml.compile_lines dove.Base.Text.replace_first
    dove.Base.Text.split bytes_beq trim_space contains replace_all
toml_run = refl
