-- ===== src/Settings/Typed.antt =====
-- That the settings keep the types of the fields of Config: config/utils.go.
use dove.Base.{
  ℕ, ◌+◌, ◌≡◌, refl, sym, ap, ◌∙◌, inl, inr, Bool, true, false, ◌||◌, Option, none, some, List, [],
  ◌∷◌, arith, Bool-cases, Option-cases, ◌==◌, Bytes, codes, bytes_beq, bytes_beq_iff, nat_eq,
  bytes_eq, Result, ◌>>=◌, ok, err,
}
use dove.Base.Dict.{Dict, lookup, insert}
use dove.Base.Text.{trim, split, cut, has_prefix}
use dove.Util.{string_split}
use dove.Settings.{
  Value, Kind, Config, SettingsError, kind_of, kinds, IsTyped, fields_of_config, text, texts, flag,
  int, float, rules, texts_kind, flag_kind, float_kind,
}
use dove.Settings.Parse.{
  set_setting, parse_line, parse_lines, parse_extra_config, set_string, set_version, is_list_field,
}

pub lookup-kinds :
    (name : Bytes) (c : Config) (v : Value)
    → lookup name c ≡ some v
    → lookup name (kinds c) ≡ some (kind_of v)
unfolding lookup
lookup-kinds name [] v h = cc
lookup-kinds name ((n, w) ∷ c) v h = ground (arith, lookup-kinds name c v)

kinds-insert :
    (name : Bytes) (v : Value) (c : Config)
    → kinds (insert name v c) ≡ insert name (kind_of v) (kinds c)
unfolding insert
kinds-insert name v [] = refl
kinds-insert name v ((n, w) ∷ c) = ground (arith, kinds-insert name v c)

insert_same :
    (name : Bytes) (k : Kind) (m : Dict Bytes Kind) → lookup name m ≡ some k → insert name k m ≡ m
unfolding insert lookup
insert_same name k [] h = cc
insert_same name k ((n, j) ∷ m) h = ground (arith, bytes_beq_iff n name, insert_same name k m)

-- Storing a value of the type of its field.
pub insert-IsTyped :
    (name : Bytes) (v : Value) (c : Config)
    → lookup name fields_of_config ≡ some (kind_of v)
    → IsTyped c
    → IsTyped (insert name v c)
insert-IsTyped name v c h t =
    kinds-insert name v c
    ∙ ap (insert name (kind_of v)) t
    ∙ insert_same name (kind_of v) fields_of_config h

pub kind_of_field :
    (name : Bytes) (c : Config) (v : Value)
    → IsTyped c
    → lookup name c ≡ some v
    → lookup name fields_of_config ≡ some (kind_of v)
kind_of_field name c v t h = ap (lookup name) (sym t) ∙ lookup-kinds name c v h

-- Whatever settings come back are typed.
abbrev pub GivesTyped : Result SettingsError Config → Type 0
GivesTyped (ok c) = IsTyped c
GivesTyped (err e) = Unit

pub >>=-GivesTyped :
    (r : Result SettingsError Config) (f : Config → Result SettingsError Config)
    → GivesTyped r
    → ((c : Config) → IsTyped c → GivesTyped (f c))
    → GivesTyped (r >>= f)
>>=-GivesTyped (ok c) f h k = k c h
>>=-GivesTyped (err e) f h k = tt

set_string-GivesTyped :
    (name value : Bytes) (old : Value) (c : Config)
    → lookup name c ≡ some old
    → IsTyped c
    → GivesTyped (set_string name value old c)
unfolding set_string
set_string-GivesTyped name value (text s) c h t =
    insert-IsTyped name (text value) c (kind_of_field name c (text s) t h) t
set_string-GivesTyped name value (texts _) c h t = tt
set_string-GivesTyped name value (flag _) c h t = tt
set_string-GivesTyped name value (int _) c h t = tt
set_string-GivesTyped name value (float _) c h t = tt
set_string-GivesTyped name value (rules _) c h t = tt

set_version-GivesTyped :
    (parse_float : Bytes → Option ℕ) (key value : Bytes) (c : Config)
    → lookup key fields_of_config ≡ some float_kind
    → IsTyped c
    → GivesTyped (set_version parse_float key value c)
unfolding set_version
set_version-GivesTyped parse_float key value c h t = elim (Option-cases (parse_float value)) [
  | inl e ↦ rw (e, set_version) tt
  | inr (n, e) ↦ rw (e, set_version) (insert-IsTyped key (float n) c h t)
]

or_right : (a b : Bool) → (a || b) ≡ true → a ≡ false → b ≡ true
or_right true b h e = absurd cc
or_right false b h e = h

list_field_kind :
    (key : Bytes) → is_list_field key ≡ true → lookup key fields_of_config ≡ some texts_kind
unfolding is_list_field lookup fields_of_config bytes_beq
list_field_kind key h = elim (Bool-cases (key == codes "CONFIG_DIR")) [
  | inl a ↦ ap (λ k. lookup k fields_of_config) ((bytes_beq_iff key (codes "CONFIG_DIR")).0 a)
  | inr a ↦ elim (Bool-cases (key == codes "POST_UPDATE_CALLBACKS")) [
    | inl b ↦
        ap (λ k. lookup k fields_of_config)
          ((bytes_beq_iff key (codes "POST_UPDATE_CALLBACKS")).0 b)
    | inr b ↦
        ap (λ k. lookup k fields_of_config)
          ((bytes_beq_iff key (codes "POST_UPDATE_SCRIPTS")).0 (or_right _ _ (or_right _ _ h a) b))
  ]
]

lookup_field :
    (key name : Bytes) (k : Kind)
    → (key == name) ≡ true
    → lookup name fields_of_config ≡ some k
    → lookup key fields_of_config ≡ some k
lookup_field key name k e h = ap (λ n. lookup n fields_of_config) ((bytes_beq_iff key name).0 e) ∙ h

field_kinds :
    (lookup (codes "ENCRYPT_ENABLE") fields_of_config ≡ some flag_kind)
    × (lookup (codes "ENCRYPT_VER") fields_of_config ≡ some float_kind)
unfolding lookup fields_of_config bytes_beq
field_kinds = (refl, refl)

set_setting-cases :
    (parse_float : Bytes → Option ℕ) (key value : Bytes) (c : Config) (o : Option Value)
    → lookup key c ≡ o
    → IsTyped c
    → GivesTyped (set_setting parse_float key value c)
unfolding set_setting
set_setting-cases parse_float key value c none e t = rw (e, set_setting) t
set_setting-cases parse_float key value c (some old) e t = elim (Bool-cases (is_list_field key)) [
  | inl a ↦
      rw (e, a, set_setting)
        (insert-IsTyped key (texts (string_split value b',')) c (list_field_kind key a) t)
  | inr a ↦ elim (Bool-cases (key == codes "ENCRYPT_ENABLE")) [
    | inl b ↦
        rw (e, a, b, set_setting)
          (insert-IsTyped key _ c
            (lookup_field key (codes "ENCRYPT_ENABLE") flag_kind b field_kinds.0) t)
    | inr b ↦ elim (Bool-cases (key == codes "ENCRYPT_VER")) [
      | inl d ↦
          rw (e, a, b, d, set_setting)
            (set_version-GivesTyped parse_float key value c
              (lookup_field key (codes "ENCRYPT_VER") float_kind d field_kinds.1) t)
      | inr d ↦ rw (e, a, b, d, set_setting) (set_string-GivesTyped key value old c e t)
    ]
  ]
]

parse_line-GivesTyped :
    (parse_float : Bytes → Option ℕ) (line_no : ℕ) (line : Bytes) (c : Config)
    → IsTyped c
    → GivesTyped (parse_line parse_float line_no line c)
unfolding parse_line
parse_line-GivesTyped parse_float line_no line c t =
    elim (Bool-cases (has_prefix line (codes "#"))) [
      | inl a ↦ rw (a, parse_line) t
      | inr a ↦ elim (Option-cases (cut b'=' line)) [
        | inl b ↦ rw (a, b, parse_line) tt
        | inr ((key, value), b) ↦
            rw (a, b, parse_line)
              (set_setting-cases parse_float (trim key (codes " ")) (trim value (codes " \"")) c _
                refl t)
      ]
    ]

parse_lines-GivesTyped :
    (parse_float : Bytes → Option ℕ) (line_no : ℕ) (lines : List Bytes) (c : Config)
    → IsTyped c
    → GivesTyped (parse_lines parse_float line_no lines c)
unfolding parse_lines
parse_lines-GivesTyped parse_float line_no [] c t = t
parse_lines-GivesTyped parse_float line_no (line ∷ lines) c t =
    >>=-GivesTyped (parse_line parse_float line_no line c)
      (parse_lines parse_float (line_no + 1) lines)
      (parse_line-GivesTyped parse_float line_no line c t)
      (λ d u. parse_lines-GivesTyped parse_float (line_no + 1) lines d u)

-- Whatever the file holds, the settings that come back from it have a value of its type in each field.
pub parse_extra_config-GivesTyped :
    (parse_float : Bytes → Option ℕ) (file : Option Bytes) (c : Config)
    → IsTyped c
    → GivesTyped (parse_extra_config parse_float file c)
unfolding parse_extra_config
parse_extra_config-GivesTyped parse_float none c t = tt
parse_extra_config-GivesTyped parse_float (some content) c t =
    parse_lines-GivesTyped parse_float 0 (split (trim content (codes " \n\r\n")) b'\n') c t
