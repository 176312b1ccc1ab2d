-- ===== src/Settings/Setup/Checked.antt =====
-- What Setup of config/setup_config.go guarantees of the settings.
use dove.Base.{
  ◌<◌, ◌≡◌, refl, inl, inr, Bool, true, false, Option, none, some, List, [], ◌++◌, arith, ltb,
  nat_beq, if◌then◌else◌, nat_beq_iff, Bool-cases, length, ◌==◌, Bytes, codes, bytes_beq, nat_eq,
  bytes_eq, Result-cases, ok, err,
}
use dove.Base.Dict.{lookup}
use dove.Settings.{
  Value, Config, text, flag, int, float, rules, IsTyped, fields_of_config, get_text,
}
use dove.Settings.Typed.{insert-IsTyped, GivesTyped, parse_extra_config-GivesTyped}
use dove.Settings.Parse.{parse_extra_config}
use dove.Settings.Server.{EnvInfo}
use dove.Settings.Setup.{
  System, Fallible, setup_checked, set_rules, env_info, text_or_panic, daemon_ids, make_dir,
  set_data_root, set_addresses, set_paths, set_secrets, set_encrypt_ver, check_secrets, placed,
  with_version, with_dev_mode, with_ids, float_or_panic,
}
use dove.Base.Decimal.{ℤ}
use dove.Settings.Setup.Environment.{Gives, fails, gives, >>=-Gives, Gives-any, Gives-at}

if-Gives :
    (b : Bool) {r s : Fallible Config}
    → Gives IsTyped r
    → Gives IsTyped s
    → Gives IsTyped (if b then r else s)
if-Gives true g h = g
if-Gives false g h = h

GivesTyped-Gives : (r : Fallible Config) → GivesTyped r → Gives IsTyped r
GivesTyped-Gives (ok c) h = gives h
GivesTyped-Gives (err e) h = fails e

-- The field that is stored to is found by evaluation.
set_rules-IsTyped : (sys : System) (c : Config) → IsTyped c → Gives IsTyped (set_rules sys c)
unfolding set_rules lookup fields_of_config bytes_beq
set_rules-IsTyped sys c t =
    elim (Bool-cases (get_text (codes "POST_UPDATE_SCRIPTS_RULE") c == [])) [
      | inl e ↦ rw e (gives t)
      | inr e ↦ rw e (
          >>=-Gives (λ (r : List (List Bytes)). Unit {0}) IsTyped _ _ (Gives-any _)
            (λ r _. gives (insert-IsTyped (codes "PostUpdateRule") (rules r) c refl t)))
    ]

set_data_root-IsTyped : (c : Config) → IsTyped c → IsTyped (set_data_root c)
unfolding set_data_root lookup fields_of_config bytes_beq
set_data_root-IsTyped c t =
    insert-IsTyped (codes "DATA_ROOT") (text _) _ refl
      (elim (Bool-cases (get_text (codes "DATA_DIR") c == [])) [
        | inl e ↦ rw e (insert-IsTyped (codes "DATA_ROOT") (text _) c refl t)
        | inr e ↦ rw e t
      ])

set_addresses-IsTyped : (c : Config) → IsTyped c → IsTyped (set_addresses c)
unfolding set_addresses lookup fields_of_config bytes_beq
set_addresses-IsTyped c t = elim (Bool-cases (get_text (codes "ListenAddr") c == [])) [
  | inl e ↦ rw e (
      insert-IsTyped (codes "ListenAddrTransi") (text _) _ refl
        (insert-IsTyped (codes "ListenAddr") (text _) c refl t))
  | inr e ↦ rw e t
]

set_paths-IsTyped : (sys : System) (c : Config) → IsTyped c → IsTyped (set_paths sys c)
unfolding set_paths lookup fields_of_config bytes_beq
set_paths-IsTyped sys c t = insert-IsTyped (codes "DATA_DIR") (text _) _ refl (
    insert-IsTyped (codes "PidFile") (text _) _ refl
      (insert-IsTyped (codes "InstallDir") (text _) c refl t))

set_secrets-IsTyped :
    (secret : Bytes → Option Value) (info : Option EnvInfo) (c : Config)
    → IsTyped c
    → Gives IsTyped (set_secrets secret info c)
unfolding set_secrets lookup fields_of_config bytes_beq
set_secrets-IsTyped secret none c t =
    let name = λ (s : Bytes). codes "Encrypt." ++ (get_text (codes "ENV") c ++ s) in
    elim (Result-cases (text_or_panic (secret (name (codes ".iv"))))) [
      | inr (x, e) ↦ rw e (fails x)
      | inl (iv, e) ↦ rw e (elim (Result-cases (text_or_panic (secret (name (codes ".key"))))) [
        | inr (x, d) ↦ rw d (fails x)
        | inl (key, d) ↦ rw d (
            gives (
              insert-IsTyped (codes "ENCRYPT_KEY") (text key) _ refl
                (insert-IsTyped (codes "ENCRYPT_IV") (text iv) c refl t)))
      ])
    ]
set_secrets-IsTyped secret (some e) c t = gives (
    insert-IsTyped (codes "ENCRYPT_KEY") (text e.key) _ refl
      (insert-IsTyped (codes "ENCRYPT_IV") (text e.iv) c refl t))

set_encrypt_ver-IsTyped :
    (secret : Bytes → Option Value) (c : Config)
    → IsTyped c
    → Gives IsTyped (set_encrypt_ver secret c)
unfolding set_encrypt_ver lookup fields_of_config bytes_beq
set_encrypt_ver-IsTyped secret c t =
    elim (Result-cases (float_or_panic (secret (codes "Encrypt.Ver")))) [
      | inl (n, e) ↦
          rw e
            (if-Gives _ (gives t) (gives (insert-IsTyped (codes "ENCRYPT_VER") (float n) c refl t)))
      | inr (x, e) ↦ rw e (if-Gives _ (gives t) (fails x))
    ]

-- What the check leaves: settings of their types, a vector of one block and a key.
pub record IsChecked (c : Config) : Type 0 where
  pub typed : IsTyped c
  pub iv_lem : length (get_text (codes "ENCRYPT_IV") c) ≡ 8
  pub key_lem : 0 < length (get_text (codes "ENCRYPT_KEY") c)

check_secrets-IsChecked : (c : Config) → IsTyped c → Gives IsChecked (check_secrets c)
unfolding check_secrets
check_secrets-IsChecked c t =
    elim (Bool-cases (nat_beq (length (get_text (codes "ENCRYPT_IV") c)) 8)) [
      | inr e ↦ rw e (fails _)
      | inl e ↦ elim (Bool-cases (ltb (length (get_text (codes "ENCRYPT_KEY") c)) 1)) [
        | inl d ↦ rw (e, d) (fails _)
        | inr d ↦
            rw (e, d)
              (gives
                (record { typed = t; iv_lem = (nat_beq_iff _ 8).0 e; key_lem = ground (arith, d) }))
      ]
    ]

with_version-IsTyped : (ver : Bytes) (c : Config) → IsTyped c → IsTyped (with_version ver c)
unfolding with_version lookup fields_of_config bytes_beq
with_version-IsTyped ver c t = insert-IsTyped (codes "ClientVer") (text ver) c refl t

with_dev_mode-IsTyped : (c : Config) → IsTyped c → IsTyped (with_dev_mode c)
unfolding with_dev_mode lookup fields_of_config bytes_beq
with_dev_mode-IsTyped c t = insert-IsTyped (codes "DEVMODE") (flag _) c refl t

with_ids-IsTyped : (ids : ℤ × ℤ) (c : Config) → IsTyped c → IsTyped (with_ids ids c)
unfolding with_ids lookup fields_of_config bytes_beq
with_ids-IsTyped ids c t =
    insert-IsTyped (codes "DAEMON_GID") (int ids.1) _ refl
      (insert-IsTyped (codes "DAEMON_UID") (int ids.0) c refl t)

module _ (sys : System) (secret : Bytes → Option Value) where
  abbrev pub Ready : Config × Option EnvInfo × List Bytes → Type 0
  Ready r = IsChecked r.0

  placed-Ready :
      (info : Option EnvInfo) (c : Config) → IsTyped c → Gives Ready (placed sys secret info c)
  unfolding placed
  placed-Ready info c t = elim (Result-cases (make_dir sys (get_text (codes "DATA_ROOT") c) [])) [
    | inr (x, e) ↦ rw e (fails x)
    | inl (dirs, e) ↦
        elim (Result-cases (set_secrets secret info (set_paths sys (set_addresses c)))) [
          | inr (x, e7) ↦ rw (e, e7) (fails x)
          | inl (c7, e7) ↦
              let t7 : IsTyped c7 =
                Gives-at IsTyped _ c7
                  (set_secrets-IsTyped secret info _
                    (set_paths-IsTyped sys _ (set_addresses-IsTyped c t)))
                  e7 in
              elim (Result-cases (set_encrypt_ver secret c7)) [
                | inr (x, e8) ↦ rw (e, e7, e8) (fails x)
                | inl (c8, e8) ↦
                    let t8 : IsTyped c8 =
                      Gives-at IsTyped _ c8 (set_encrypt_ver-IsTyped secret c7 t7) e8 in
                    elim (Result-cases (check_secrets c8)) [
                      | inr (x, e9) ↦ rw (e, e7, e8, e9) (fails x)
                      | inl (c9, e9) ↦
                          let t9 : IsChecked c9 =
                            Gives-at IsChecked _ c9 (check_secrets-IsChecked c8 t8) e9 in
                          elim (Result-cases (make_dir sys (get_text (codes "DATA_DIR") c9) dirs)) [
                            | inr (x, d) ↦ rw (e, e7, e8, e9, d) (fails x)
                            | inl (dirs', d) ↦ rw (e, e7, e8, e9, d) (gives t9)
                          ]
                    ]
              ]
        ]
  ]

  pub setup_checked-Ready : (c : Config) → IsTyped c → Gives Ready (setup_checked sys secret c)
  unfolding setup_checked
  setup_checked-Ready c t = elim (Result-cases (parse_extra_config sys.parse_float sys.file c)) [
    | inr (x, e1) ↦ rw e1 (fails x)
    | inl (c1, e1) ↦
        let t1 : IsTyped c1 =
          Gives-at IsTyped _ c1
            (GivesTyped-Gives _ (parse_extra_config-GivesTyped sys.parse_float sys.file c t)) e1 in
        elim (Result-cases (set_rules sys c1)) [
          | inr (x, e2) ↦ rw (e1, e2) (fails x)
          | inl (c2, e2) ↦
              let t2 : IsTyped c2 = Gives-at IsTyped _ c2 (set_rules-IsTyped sys c1 t1) e2 in
              elim (Result-cases (text_or_panic (secret (codes "Ver")))) [
                | inr (x, e3) ↦ rw (e1, e2, e3) (fails x)
                | inl (ver, e3) ↦
                    let t3 : IsTyped (with_dev_mode (with_version ver c2)) =
                      with_dev_mode-IsTyped _ (with_version-IsTyped ver c2 t2) in
                    elim (Result-cases (env_info sys secret (with_version ver c2))) [
                      | inr (x, e4) ↦ rw (e1, e2, e3, e4) (fails x)
                      | inl (info, e4) ↦
                          elim (Result-cases
                            (daemon_ids sys (with_dev_mode (with_version ver c2)))) [
                              | inr (x, e5) ↦ rw (e1, e2, e3, e4, e5) (fails x)
                              | inl (ids, e5) ↦
                                  rw (e1, e2, e3, e4, e5)
                                    (placed-Ready info _
                                      (set_data_root-IsTyped _ (with_ids-IsTyped ids _ t3)))
                            ]
                    ]
              ]
        ]
  ]
