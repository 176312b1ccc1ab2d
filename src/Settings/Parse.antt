-- ===== src/Settings/Parse.antt =====
-- The settings file: ParseExtraConfig of config/utils.go.
use dove.Base.{
  ℕ, ◌+◌, Bool, ◌||◌, Option, none, some, List, [], ◌∷◌, if◌then◌else◌, ◌==◌, Bytes, codes, nat_eq,
  bytes_eq, Result, ◌>>=◌, ok, err,
}
use dove.Base.Dict.{lookup, insert}
use dove.Base.Text.{has_prefix, trim, split, cut, to_lower}
use dove.Util.{string_split}
use dove.Settings.{
  Value, Config, SettingsError, text, texts, flag, int, float, rules, panics, unreadable,
  bad_version, no_equals,
}

unfoldable pub is_list_field : Bytes → Bool
is_list_field key =
    key == codes "CONFIG_DIR"
    || (key == codes "POST_UPDATE_CALLBACKS" || key == codes "POST_UPDATE_SCRIPTS")

-- `reflect.Value.SetString` panics for a field of another type.
unfoldable pub set_string : Bytes → Bytes → Value → Config → Result SettingsError Config
set_string key value (text _) c = ok (insert key (text value) c)
set_string key value (texts _) c = err panics
set_string key value (flag _) c = err panics
set_string key value (int _) c = err panics
set_string key value (float _) c = err panics
set_string key value (rules _) c = err panics

unfoldable pub set_version :
    (Bytes → Option ℕ) → Bytes → Bytes → Config → Result SettingsError Config
set_version parse_float key value c = elim (parse_float value) [
  | none ↦ err bad_version
  | some n ↦ ok (insert key (float n) c)
]

-- A name that is no field is passed over.
unfoldable pub set_setting :
    (Bytes → Option ℕ) → Bytes → Bytes → Config → Result SettingsError Config
unfolding set_string set_version is_list_field
set_setting parse_float key value c = elim (lookup key c) [
  | none ↦ ok c
  | some old ↦
      if is_list_field key
      then ok (insert key (texts (string_split value b',')) c)
      else if key == codes "ENCRYPT_ENABLE"
      then ok (insert key (flag (to_lower value == codes "1" || to_lower value == codes "true")) c)
      else if key == codes "ENCRYPT_VER"
      then set_version parse_float key value c
      else set_string key value old c
]

-- The argument is strconv.ParseFloat.
unfoldable pub parse_line : (Bytes → Option ℕ) → ℕ → Bytes → Config → Result SettingsError Config
unfolding set_setting
parse_line parse_float line_no line c =
    if has_prefix line (codes "#") then ok c else elim (cut b'=' line) [
      | none ↦ err (no_equals line_no)
      | some (key, value) ↦
          set_setting parse_float (trim key (codes " ")) (trim value (codes " \"")) c
    ]

unfoldable pub parse_lines :
    (Bytes → Option ℕ) → ℕ → List Bytes → Config → Result SettingsError Config
unfolding parse_line
parse_lines parse_float line_no [] c = ok c
parse_lines parse_float line_no (line ∷ lines) c =
    parse_line parse_float line_no line c >>= parse_lines parse_float (line_no + 1) lines

-- The content of the file, if it can be read, over the settings that there are.
unfoldable pub parse_extra_config :
    (Bytes → Option ℕ) → Option Bytes → Config → Result SettingsError Config
unfolding parse_lines
parse_extra_config parse_float none c = err unreadable
parse_extra_config parse_float (some content) c =
    parse_lines parse_float 0 (split (trim content (codes " \n\r\n")) b'\n') c
