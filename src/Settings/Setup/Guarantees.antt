-- ===== src/Settings/Setup/Guarantees.antt =====
-- What holds of the settings when Setup of config/setup_config.go has succeeded.
use dove.Base.{
  ◌<◌, ◌≡◌, refl, sym, ap, ◌∙◌, inl, inr, true, false, not, ◌||◌, Option, some, List, [], ◌∷◌, ◌++◌,
  arith, Bool-cases, Option-cases, length, All, ◌==◌, Bytes, codes, bytes_beq, bytes_beq_iff,
  nat_eq, bytes_eq, contains, is_ok, Result-cases, ok,
}
use dove.Base.Dict.{Dict, lookup, insert, keys, lookup-insert}
use dove.Settings.Server.{EnvInfo}
use dove.Settings.{
  Value, Kind, Config, text, int, text_kind, kinds, kind_of, IsTyped, fields_of_config, get_text,
  no_secrets,
}
use dove.Settings.Setup.{
  System, from_environment, variable_of, setup_checked, setup, set_debug_dir, debug_dir, set_etcd,
  etcd_ints, or_error, init_zk_config, text_or_panic, int_or_panic, Started, timeouts, intervals,
}
use dove.Settings.Setup.Environment.{
  Gives, fails, gives, Gives-at, from_environment-kept, from_environment-text,
  from_environment-panics, panics_kind,
}
use dove.Settings.Setup.Checked.{Ready, IsChecked, setup_checked-Ready}

abbrev AreFound : Dict Bytes Kind → Type 0
AreFound = All (λ (f : Bytes × Kind). lookup f.0 fields_of_config ≡ some f.1)

fields_found : AreFound fields_of_config
unfolding lookup fields_of_config bytes_beq
fields_found = ground arith

abbrev AreTyped : Config → Type 0
AreTyped = All (λ (f : Bytes × Value). lookup f.0 fields_of_config ≡ some (kind_of f.1))

found_fields : (c : Config) → AreFound (kinds c) → AreTyped c
found_fields [] h = tt
found_fields ((n, v) ∷ c) h = (h.0, found_fields c h.1)

IsTyped-AreTyped : (c : Config) → IsTyped c → AreTyped c
IsTyped-AreTyped c t = found_fields c (rw t fields_found)

-- Every entry of the name of a text field is a text.
only_text :
    (name : Bytes) (c : Config)
    → lookup name fields_of_config ≡ some text_kind
    → AreTyped c
    → All (λ (f : Bytes × Value). (f.0 == name) ≡ true → kind_of f.1 ≡ text_kind) c
only_text name [] l h = tt
only_text name ((n, v) ∷ c) l h = (
  λ e.
      let same : lookup n fields_of_config ≡ lookup name fields_of_config =
        ap (λ k. lookup k fields_of_config) ((bytes_beq_iff n name).0 e) in
      cc (sym h.0 ∙ same ∙ l),
  only_text name c l h.1,
)

keys-kinds : (c : Config) → keys (kinds c) ≡ keys c
keys-kinds [] = refl
keys-kinds ((n, v) ∷ c) = ap (λ l. n ∷ l) (keys-kinds c)

abbrev iv_field : Bytes
iv_field = codes "ENCRYPT_IV"

abbrev key_field : Bytes
key_field = codes "ENCRYPT_KEY"

iv_is_field :
    (lookup iv_field fields_of_config ≡ some text_kind)
    × (contains (keys fields_of_config) iv_field ≡ true)
unfolding fields_of_config contains bytes_beq lookup
iv_is_field = (refl, refl)

-- The steps behind the variables leave a field alone that is none of theirs.
record IsOther (name : Bytes) : Type 0 where
  dev_mode : (codes "DEVMODE" == name) ≡ false
  config_dir : (codes "CONFIG_DIR" == name) ≡ false
  etcd : (n : Bytes) → ((codes "ETCD_" ++ n) == name) ≡ false

iv_field-IsOther : IsOther iv_field
unfolding bytes_beq
iv_field-IsOther = record { dev_mode = refl; config_dir = refl; etcd = λ n. refl }

key_field-IsOther : IsOther key_field
unfolding bytes_beq
key_field-IsOther = record { dev_mode = refl; config_dir = refl; etcd = λ n. refl }

lookup-other :
    (name other : Bytes) (v : Value) (c : Config)
    → (name == other) ≡ false
    → lookup other (insert name v c) ≡ lookup other c
lookup-other name other v c h = lookup-insert name other v c ∙ rw h

set_debug_dir-other :
    (sys : System) (c : Config) (other : Bytes)
    → IsOther other
    → lookup other (set_debug_dir sys c) ≡ lookup other c
unfolding set_debug_dir
set_debug_dir-other sys c other o =
    elim (Bool-cases (
      get_text (codes "DEBUG_FILE") c == []
      || not (sys.file_exists (get_text (codes "DEBUG_FILE") c)))) [
        | inl e ↦ rw e
        | inr e ↦ elim (Option-cases (debug_dir (get_text (codes "DEBUG_FILE") c))) [
          | inl d ↦ rw (e, d)
          | inr (dir, d) ↦
              rw (e, d)
                (lookup-other (codes "DEVMODE") other _ _ o.dev_mode
                  ∙ lookup-other (codes "CONFIG_DIR") other _ c o.config_dir)
        ]
      ]

etcd_ints-other :
    (secret : Bytes → Option Value) (names : List Bytes) (c : Config) (other : Bytes)
    → IsOther other
    → Gives (λ d. lookup other d ≡ lookup other c) (etcd_ints secret names c)
unfolding etcd_ints
etcd_ints-other secret [] c other o = gives refl
etcd_ints-other secret (name ∷ names) c other o =
    elim (Result-cases (int_or_panic (secret (codes "Etcd." ++ name)))) [
      | inr (x, e) ↦ rw e (fails x)
      | inl (n, e) ↦ rw e (
          rw (lookup-other (codes "ETCD_" ++ name) other (int n) c (o.etcd name)) at
            (etcd_ints-other secret names (insert (codes "ETCD_" ++ name) (int n) c) other o))
    ]

set_etcd-other :
    (secret : Bytes → Option Value) (c : Config) (other : Bytes)
    → IsOther other
    → Gives (λ d. lookup other d ≡ lookup other c) (set_etcd secret c)
unfolding set_etcd
set_etcd-other secret c other o = elim (Result-cases (etcd_ints secret timeouts c)) [
  | inr (x, e) ↦ rw e (fails x)
  | inl (c1, e) ↦
      let first =
        Gives-at (λ d. lookup other d ≡ lookup other c) _ c1
          (etcd_ints-other secret timeouts c other o) e in
      elim (Result-cases (text_or_panic (secret (codes "Etcd.HEARTBEAT_KEY")))) [
        | inr (x, d) ↦ rw (e, d) (fails x)
        | inl (key, d) ↦
            rw (e, d)
              (rw
                (lookup-other (codes "ETCD_HEARTBEAT_KEY") other (text key) c1
                    (o.etcd (codes "HEARTBEAT_KEY"))
                  ∙ first)
                at
                (etcd_ints-other secret intervals
                  (insert (codes "ETCD_HEARTBEAT_KEY") (text key) c1) other o))
      ]
]

-- What `Setup` came through when it succeeded.
record Parts (sys : System) (c0 c : Config) : Type 0 where
  secret : Bytes → Option Value
  checked : Config × Option EnvInfo × List Bytes
  overridden : Config
  checked_lem : setup_checked sys secret c0 ≡ ok checked
  overridden_lem : from_environment sys.getenv checked.0 checked.0 ≡ ok overridden
  final_lem : set_etcd secret (set_debug_dir sys overridden) ≡ ok c

setup-Parts :
    (sys : System) (c0 : Config) → Gives (λ (st : Started). Parts sys c0 st.config) (setup sys c0)
unfolding setup
setup-Parts sys c0 = elim (Result-cases (or_error sys.secret no_secrets)) [
  | inr (x, e) ↦ rw e (fails x)
  | inl (secret, e) ↦ elim (Result-cases (setup_checked sys secret c0)) [
    | inr (x, e1) ↦ rw (e, e1) (fails x)
    | inl (checked, e1) ↦ elim (Result-cases (from_environment sys.getenv checked.0 checked.0)) [
      | inr (x, e2) ↦ rw (e, e1, e2) (fails x)
      | inl (c1, e2) ↦
          elim (Result-cases (init_zk_config sys secret checked.1 (set_debug_dir sys c1))) [
            | inr (x, e3) ↦ rw (e, e1, e2, e3) (fails x)
            | inl (zk, e3) ↦ elim (Result-cases (set_etcd secret (set_debug_dir sys c1))) [
              | inr (x, e4) ↦ rw (e, e1, e2, e3, e4) (fails x)
              | inl (c3, e4) ↦
                  rw (e, e1, e2, e3, e4)
                    (gives (record {
                      secret = secret;
                      checked = checked;
                      overridden = c1;
                      checked_lem = e1;
                      overridden_lem = e2;
                      final_lem = e4;
                    }))
            ]
          ]
    ]
  ]
]

module _ (sys : System) (c0 : Config) (st : Started) (typed : IsTyped c0)
    (done : setup sys c0 ≡ ok st) where
  parts : Parts sys c0 st.config
  parts =
      Gives-at (λ (s : Started). Parts sys c0 s.config) (setup sys c0) st (setup-Parts sys c0) done

  settings-IsChecked : IsChecked parts.checked.0
  settings-IsChecked =
      Gives-at (Ready sys parts.secret) (setup_checked sys parts.secret c0) parts.checked
        (setup_checked-Ready sys parts.secret c0 typed) parts.checked_lem

  behind : (other : Bytes) → IsOther other → lookup other st.config ≡ lookup other parts.overridden
  behind other o =
      Gives-at (λ d. lookup other d ≡ lookup other (set_debug_dir sys parts.overridden)) _ st.config
        (set_etcd-other parts.secret (set_debug_dir sys parts.overridden) other o) parts.final_lem
      ∙ set_debug_dir-other sys parts.overridden other o

  kept :
      (other : Bytes)
      → IsOther other
      → (sys.getenv (variable_of other) == []) ≡ true
      → lookup other st.config ≡ lookup other parts.checked.0
  kept other o g =
      behind other o
      ∙ Gives-at (λ d. lookup other d ≡ lookup other parts.checked.0) _ parts.overridden
          (from_environment-kept sys.getenv other parts.checked.0 parts.checked.0 g)
          parts.overridden_lem

  -- When `Setup` succeeds, and neither the vector nor the key is taken from the environment, the vector
  -- has the 8 bytes of a block of the cipher, and the key is not empty.
  pub setup-iv_size :
      (sys.getenv (variable_of iv_field) == []) ≡ true
      → (sys.getenv (variable_of key_field) == []) ≡ true
      → (length (get_text iv_field st.config) ≡ 8) × (0 < length (get_text key_field st.config))
  unfolding get_text
  setup-iv_size g k = (
    rw (kept iv_field iv_field-IsOther g) (settings-IsChecked.iv_lem),
    rw (kept key_field key_field-IsOther k) (settings-IsChecked.key_lem),
  )

  -- A vector that is taken from the environment is not checked: when `Setup` succeeds it is the one of
  -- the settings, whatever its size.
  pub setup-iv_unchecked :
      (sys.getenv (variable_of iv_field) == []) ≡ false
      → get_text iv_field st.config ≡ sys.getenv (variable_of iv_field)
  unfolding get_text
  setup-iv_unchecked g =
      let c = parts.checked.0 in
      let e : lookup iv_field parts.overridden ≡ some (text (sys.getenv (variable_of iv_field))) =
        Gives-at (λ d. lookup iv_field d ≡ some (text (sys.getenv (variable_of iv_field)))) _
          parts.overridden
          (from_environment-text sys.getenv iv_field c c
            (only_text iv_field c iv_is_field.0 (IsTyped-AreTyped c settings-IsChecked.typed))
            (rw (sym (keys-kinds c) ∙ ap keys settings-IsChecked.typed) iv_is_field.1) g)
          parts.overridden_lem in
      rw (behind iv_field iv_field-IsOther ∙ e)

-- Whatever the settings are, `Setup` does not succeed when the environment has a variable for a field
-- that is a flag or a number: storing the text panics.
setup-env_panics :
    (sys : System) (c0 : Config) (name : Bytes) (k : Kind)
    → IsTyped c0
    → lookup name fields_of_config ≡ some k
    → panics_kind k ≡ true
    → (sys.getenv (variable_of name) == []) ≡ false
    → is_ok (setup sys c0) ≡ false
setup-env_panics sys c0 name k t l p g = elim (Result-cases (setup sys c0)) [
  | inr (x, e) ↦ rw e
  | inl (st, e) ↦
      let q = parts sys c0 st t e in
      let checked = settings-IsChecked sys c0 st t e in
      let bad : false ≡ true =
        Gives-at (λ (d : Config). false ≡ true) _ q.overridden
          (from_environment-panics sys.getenv name k q.checked.0 q.checked.0
            (ap (lookup name) checked.typed ∙ l) p g)
          q.overridden_lem in
      absurd (cc bad)
]
