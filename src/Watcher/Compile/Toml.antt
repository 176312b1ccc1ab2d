-- ===== src/Watcher/Compile/Toml.antt =====
-- The compilation of a schema file in TOML: compileTomlFile of configwatcher/zk_watcher.go.
use dove.Base.{
  ℕ, zero, suc, ◌+◌, Bool, true, false, ◌&&◌, ◌||◌, Option, none, some, List, [], ◌∷◌, ◌++◌, map,
  ltb, nat_beq, if◌then◌else◌, length, drop, ◌==◌, Bytes, codes, nat_eq, bytes_eq, contains,
}
use dove.Base.Text.{has_prefix, trim, trim_space, split, replace_all, replace_first}
use dove.Base.Text.{has_suffix}
use dove.Base.Dict.{Dict}
use dove.Callbacks.{Pending, add_updated_schemafiles}
use dove.Watcher.Compile.{
  CompileError, Compiled, Php, no_value, no_target, unreadable, unknown_type, compile_schema_file,
}

last_of : Bytes → List Bytes → Bytes
last_of w [] = w
last_of w (v ∷ ws) = last_of v ws

-- The part of a name behind its last dot.
unfoldable pub last_name : Bytes → Bytes
unfolding last_of
last_name name = last_of [] (split name b'.')

ends_bracket : Bytes → Bool
ends_bracket [] = false
ends_bracket (c ∷ s) = elim s [ [] ↦ nat_beq c b']' | d ∷ r ↦ ends_bracket s ]

-- The regular expression `^ *\[.+?\] *$`, on one line.
unfoldable pub is_section : Bytes → Bool
unfolding ends_bracket
is_section line =
    let t = trim line (codes " ") in
    has_prefix t (codes "[") && (ends_bracket t && ltb 2 (length t))

-- The name of a placeholder `"#{.+?}"` at the start of a text behind `"#{`: at least one byte, up to
-- the first `}"`; and what stands behind it.
name_until : Bytes → Option (Bytes × Bytes)
name_until [] = none
name_until (c ∷ s) =
    let more = name_until s in
    elim (has_prefix s (codes "}\"")) [
      | true ↦ some (c ∷ [], drop 2 s)
      | false ↦ elim more [ none ↦ none | some (n, r) ↦ some (c ∷ n, r) ]
    ]

-- The names of the placeholders of a line, of which at most `count` are looked for; the text is
-- walked through by `fuel` steps, its length.
find_names : ℕ → ℕ → Bytes → List Bytes
unfolding name_until
find_names zero count line = []
find_names (suc fuel) zero line = []
find_names (suc fuel) (suc count) [] = []
find_names (suc fuel) (suc count) (c ∷ s) =
    let next = find_names fuel (suc count) s in
    elim (has_prefix (c ∷ s) (codes "\"#{")) [
      | false ↦ next
      | true ↦ elim (name_until (drop 2 s)) [
        | none ↦ next
        | some (n, rest) ↦ n ∷ find_names fuel count rest
      ]
    ]

-- The names are trimmed of the bytes of the placeholder.
unfoldable pub names_of_line : Bytes → List Bytes
unfolding find_names
names_of_line line = map (λ n. trim n (codes "\"#{}")) (find_names (length line) 1000 line)

-- Up to the last byte `b` of the text, if it is there.
up_to_last : ℕ → Bytes → Option Bytes
up_to_last b [] = none
up_to_last b (c ∷ s) = elim (up_to_last b s) [
  | some t ↦ some (c ∷ t)
  | none ↦ if nat_beq c b then some (c ∷ []) else none
]

line_of : Bytes → Bytes
line_of [] = []
line_of (c ∷ s) = if nat_beq c b'\n' then [] else c ∷ line_of s

plain_run : Bytes → Bytes
plain_run [] = []
plain_run (c ∷ s) = if contains (codes " #[\t\n") c then [] else c ∷ plain_run s

or_run : Option Bytes → Bytes → Option Bytes
or_run (some t) run = some t
or_run none [] = none
or_run none (c ∷ run) = some (c ∷ run)

-- `(?:("[^\n]*")|([^ #\[\t\n]+)|(\[(.|\n|\r)*\]))` at the start of a text.
unfoldable pub value_match : Bytes → Option Bytes
unfolding up_to_last line_of plain_run or_run
value_match [] = none
value_match (c ∷ s) =
    if nat_beq c b'"'
    then or_run (elim (up_to_last b'"' (line_of s)) [ none ↦ none | some t ↦ some (c ∷ t) ])
        (plain_run (c ∷ s))
    else if nat_beq c b'['
    then elim (up_to_last b']' s) [ none ↦ none | some t ↦ some (c ∷ t) ]
    else or_run none (plain_run (c ∷ s))

-- The value behind the first `name=` that one stands behind. The name is taken as it is; the code
-- puts it in a regular expression, where a byte of a name has no other meaning than itself as long as
-- it is a letter, a digit, `_` or `-`.
value_behind : Bytes → Bytes → Option Bytes
unfolding value_match
value_behind name [] = none
value_behind name (c ∷ s) =
    let later = value_behind name s in
    elim (has_prefix (c ∷ s) (name ++ codes "=")) [
      | false ↦ later
      | true ↦ elim (value_match (drop (length name + 1) (c ∷ s))) [
        | none ↦ later
        | some v ↦ some v
      ]
    ]

-- A row of a table that is put below the section of the schema file: the rows are trimmed; the first
-- one, if it names the table, and blank rows and comments are left out; the sections are renamed.
table_row : Bytes → Bytes → Bool → Bytes → Bytes
unfolding is_section
table_row last section names_table row =
    let r = trim_space row in
    if names_table || (r == [] || has_prefix r (codes "#"))
    then []
    else if is_section r
    then codes "["
      ++ (trim
            (replace_first r (last ++ codes ".")
              (if section == [] then [] else section ++ codes "."))
            (codes "[] ")
          ++ codes "]\n")
    else r ++ codes "\n"

table_rows : Bytes → Bytes → Bool → List Bytes → Bytes
unfolding table_row
table_rows last section names_table [] = []
table_rows last section names_table (row ∷ rows) =
    table_row last section names_table row ++ table_rows last section false rows

-- What a placeholder is replaced by: the rows of a table, or the value of the setting.
unfoldable pub node_data : Bytes → Bytes → Bytes → Bytes
unfolding last_name table_rows value_behind
node_data section name content =
    let last = last_name name in
    let whole = has_prefix content (codes "[" ++ (last ++ codes "]")) in
    if whole || has_prefix content (codes "[" ++ (last ++ codes "."))
    then table_rows last section whole (split content b'\n')
    else elim (value_behind last content) [ none ↦ content | some v ↦ v ]

-- The argument gives the TOML of a setting, of what was fetched before, or is fetched now.
module _ {S : Type 0} (raw_toml : Bytes → S → Option Bytes × S) where
  unfoldable pub replace_names : Bytes → List Bytes → Bytes → S → Bytes × List CompileError × S
  unfolding node_data
  replace_names section [] line s = (line, [], s)
  replace_names section (name ∷ names) line s =
      let (content, s') = raw_toml name s in
      let line' : Bytes = elim content [
        | none ↦ line
        | some c ↦
            replace_all line (codes "\"#{" ++ (name ++ codes "}\"")) (node_data section name c)
      ] in
      let (text, errors, t) = replace_names section names line' s' in
      (text, elim content [ none ↦ no_value name ∷ errors | some _ ↦ errors ], t)

  -- The section, the text and the errors behind one line.
  unfoldable pub compile_line : Bytes → Bytes → S → Bytes × Bytes × List CompileError × S
  unfolding replace_names is_section names_of_line
  compile_line section raw s =
      let line = trim_space raw in
      if line == []
      then (section, [], [], s)
      else if is_section line
      then (trim line (codes "[] "), line ++ codes "\n", [], s)
      else let (text, errors, t) = replace_names section (names_of_line line) line s in
        (section, text ++ codes "\n", errors, t)

  unfoldable pub compile_lines : Bytes → List Bytes → S → Bytes × List CompileError × S
  unfolding compile_line
  compile_lines section [] s = ([], [], s)
  compile_lines section (line ∷ lines) s =
      let (section', text, errors, s') = compile_line section line s in
      let (texts, more, t) = compile_lines section' lines s' in (text ++ texts, errors ++ more, t)

  -- The file, and whether the target can be written: an error of the write itself is not looked at.
  unfoldable pub compile_toml_file : Option Bytes → Bool → Bytes → S → Compiled × S
  unfolding compile_lines
  compile_toml_file none opens path s = (record { target = none; errors = unreadable ∷ [] }, s)
  compile_toml_file (some content) opens path s =
      let (text, errors, t) = compile_lines [] (split content b'\n') s in
      (
        record {
          target =
              if opens
              then some (replace_first path (codes ".schema.") (codes "."), text)
              else none;
          errors = errors ++ (if opens then [] else no_target ∷ []);
        },
        t,
      )

module _ {S : Type 0} (fetch : Bytes → S → Option Bytes × S)
    (raw_toml : Bytes → S → Option Bytes × S) where
  compiled_toml : Php → Option Bytes → Bytes → Pending → S → Option Compiled × Pending × S
  unfolding compile_toml_file
  compiled_toml php file path p s =
      let (c, t) = compile_toml_file raw_toml file php.target_opens path s in
      (some c, add_updated_schemafiles path p, t)

  compiled_php :
      Php
      → Dict Bytes (Option Bytes)
      → Option Bytes
      → Bytes
      → Pending
      → S
      → Option Compiled × Pending × S
  unfolding compile_schema_file
  compiled_php php container file path p s =
      let (c, t) = compile_schema_file fetch php container file path s in
      (c, add_updated_schemafiles path p, t)

  -- By the type of the file, which is recorded for the callbacks before it is compiled. `none` is a
  -- panic.
  unfoldable pub compile :
      Php
      → Dict Bytes (Option Bytes)
      → Option Bytes
      → Bytes
      → Pending
      → S
      → Option Compiled × Pending × S
  unfolding compiled_toml compiled_php
  compile php container file path p s =
      if has_suffix path (codes ".schema.toml")
      then compiled_toml php file path p s
      else if has_suffix path (codes ".schema.php")
      then compiled_php php container file path p s
      else (some (record { target = none; errors = unknown_type ∷ [] }), p, s)
