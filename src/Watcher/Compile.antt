-- ===== src/Watcher/Compile.antt =====
-- The compilation of a schema file: compile and compileSchemaFile of configwatcher/zk_watcher.go. The
-- values that are fetched on the way, the PHP interpreter and the files are arguments.
pub mod Toml
pub mod Replaced
pub mod Substituted
mod Examples
use dove.Base.{
  ℕ, ◌+◌, ◌-◌, Bool, true, false, not, ◌&&◌, ◌||◌, Option, none, some, List, [], ◌∷◌, ◌++◌, leb,
  nat_beq, if◌then◌else◌, length, take, drop, Bytes, codes, nat_eq, bytes_eq, Result, ok, err,
}
use dove.Base.Dict.{Dict, lookup}
use dove.Base.Text.{replace_all, index_of, trim_space}
use dove.Schema.{parse_items, get_compilation_caution, open_tag, close_tag}

-- What the operating system does: a temporary file for an item is made and written, its script is run
-- by PHP, which may be tried twice, and read again; the target is written.
pub record Php : Type 0 where
  pub temp_file : Bytes → Bool
  pub temp_written : Bytes → Bool
  pub runs : ℕ → Bytes → Bool
  pub temp_read : Bytes → Option Bytes
  pub target_opens : Bool
  pub target_written : Bool

-- Why an item was not replaced, or the file not written.
pub data CompileError : Type 0 where
  unknown_type unreadable no_target : CompileError
  no_value no_temp decode_failed no_decoded : Bytes → CompileError

-- What was compiled: the content that was written, if it was, and what went wrong.
pub record Compiled : Type 0 where
  pub target : Option (Bytes × Bytes)
  pub errors : List CompileError

-- A backslash and a quote are php_escaped within the text of the script.
php_escaped : Bytes → Bytes
unfolding replace_all
php_escaped json =
    replace_all (replace_all json (codes "\\") (codes "\\\\")) (codes "'") (codes "\\'")

unfoldable pub php_content : Bytes → Bytes
unfolding php_escaped
php_content json =
    codes "<?php\nini_set('serialize_precision', 14);$data=var_export(json_decode('"
    ++ (php_escaped json ++ codes "',true), true);file_put_contents(__FILE__, $data);")

-- Two attempts.
php_runs : Php → Bytes → Bool
php_runs php script = php.runs 0 script || php.runs 1 script

-- The value of an item in PHP, by a script. `none` is a panic: the name of a temporary file that could
-- not be made is asked for.
unfoldable pub php_value : Php → Bytes → Bytes → Option (Result CompileError Bytes)
unfolding php_content php_runs
php_value php item json =
    if not (php.temp_file item)
    then none
    else if not (php.temp_written item)
    then some (err (no_temp item))
    else if not (php_runs php (php_content json))
    then some (err (decode_failed item))
    else elim (php.temp_read (php_content json)) [
      | none ↦ some (err (no_decoded item))
      | some v ↦ some (ok v)
    ]

abbrev pub placeholder_of : Bytes → Bytes
placeholder_of item = open_tag ++ (item ++ close_tag)

-- `string(nil)` is the empty text.
unfoldable pub json_text : Option Bytes → Bytes
json_text none = []
json_text (some json) = json

-- The caution stands behind the first tag that opens PHP; where there is none, or only space in front
-- of it, the caution stands in front of the file in tags of its own.
unfoldable pub with_caution : Bytes → Bytes
unfolding index_of trim_space
with_caution content = elim (index_of content (codes "<?php")) [
  | none ↦ get_compilation_caution true ++ content
  | some pos ↦
      if leb 1 pos && (elim (index_of (trim_space content) (codes "<?php")) [
        | none ↦ false
        | some i ↦ nat_beq i 0
      ])
      then get_compilation_caution true ++ content
      else take (pos + 5) content ++ (get_compilation_caution false ++ drop (pos + 5) content)
]

target_errors : Php → List CompileError
target_errors php = if php.target_opens && php.target_written then [] else no_target ∷ []

module _ {S : Type 0} (fetch : Bytes → S → Option Bytes × S) where
  -- The new value of an item, or else the one that `GetConfig` gives.
  unfoldable pub value_of_item : Dict Bytes (Option Bytes) → Bytes → S → Option Bytes × S
  unfolding json_text
  value_of_item container item s = elim (lookup item container) [
    | none ↦ fetch item s
    | some json ↦ (some (json_text json), s)
  ]

  -- `none` is a panic.
  unfoldable pub replace_items :
      Php
      → Dict Bytes (Option Bytes)
      → List Bytes
      → Bytes
      → List CompileError
      → S
      → Option (Bytes × List CompileError) × S
  unfolding value_of_item php_value
  replace_items php container [] content errors s = (some (content, errors), s)
  replace_items php container (item ∷ items) content errors s =
      let (value, s') = value_of_item container item s in
      elim value [
        | none ↦ replace_items php container items content (errors ++ no_value item ∷ []) s'
        | some json ↦ elim (php_value php item json) [
          | none ↦ (none, s')
          | some (err e) ↦ replace_items php container items content (errors ++ e ∷ []) s'
          | some (ok v) ↦
              replace_items php container items (replace_all content (placeholder_of item) v) errors
                s'
        ]
      ]

  -- `.schema.php` has 11 bytes.
  unfoldable pub compile_schema_file :
      Php → Dict Bytes (Option Bytes) → Option Bytes → Bytes → S → Option Compiled × S
  unfolding replace_items with_caution target_errors
  compile_schema_file php container file path s = elim file [
    | none ↦ (some (record { target = none; errors = unreadable ∷ [] }), s)
    | some content ↦ elim (parse_items (some content)) [
      | none ↦ (some (record { target = none; errors = unreadable ∷ [] }), s)
      | some items ↦
          let (replaced, s') = replace_items php container items content [] s in
          (
            elim replaced [
              | none ↦ none
              | some (text, errors) ↦ some (record {
                target =
                    if php.target_opens && php.target_written
                    then some (take (length path - 11) path ++ codes ".php", with_caution text)
                    else none;
                errors = errors ++ target_errors php;
              })
            ],
            s',
          )
    ]
  ]
