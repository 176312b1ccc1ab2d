-- ===== src/Settings/Setup/Environment.antt =====
-- The environment variables that Setup of config/setup_config.go takes.
use dove.Base.{
  ◌≡◌, refl, sym, ap, ◌∙◌, inl, inr, Bool, true, false, some, [], ◌∷◌, if◌then◌else◌, Bool-cases,
  All, ◌==◌, Bytes, bytes_beq_iff, nat_eq, bytes_eq, beq_refl, contains, Result, ◌>>=◌, is_ok, ok,
  err,
}
use dove.Base.Dict.{lookup, keys, lookup-insert}
use dove.Settings.{
  Value, Kind, Config, SettingsError, text, texts, flag, int, float, rules, text_kind, texts_kind,
  flag_kind, int_kind, float_kind, rules_kind, kinds, kind_of, IsTyped, fields_of_config,
}
use dove.Settings.Typed.{insert-IsTyped}
use dove.Settings.Setup.{from_environment, set_from_env, variable_of, Fallible}

-- A result that is an error, or a value with the property.
pub data Gives {ℓ κ} {A : Type ℓ} (P : A → Type κ) : Result SettingsError A → Type (ℓ ⊔ κ) where
  fails : (e : SettingsError) → Gives P (err e)
  gives : {a : A} → P a → Gives P (ok a)

pub >>=-Gives {ℓ κ μ ν} :
    {A : Type ℓ} {B : Type κ} (P : A → Type μ) (Q : B → Type ν) (r : Result SettingsError A)
    (f : A → Result SettingsError B)
    → Gives P r
    → ((a : A) → P a → Gives Q (f a))
    → Gives Q (r >>= f)
>>=-Gives P Q (ok a) f (gives p) h = h a p
>>=-Gives P Q (err e) f g h = fails e

pub Gives-ok {ℓ κ} : {A : Type ℓ} (P : A → Type κ) (a : A) → Gives P (ok a) → P a
Gives-ok P a (gives p) = p

pub Gives-at {ℓ κ} :
    {A : Type ℓ} (P : A → Type κ) (r : Result SettingsError A) (a : A) → Gives P r → r ≡ ok a → P a
Gives-at P r a g e = Gives-ok P a (rw e at g)

pub Gives-is_ok {ℓ} :
    {A : Type ℓ} (r : Result SettingsError A) → Gives (λ (a : A). false ≡ true) r → is_ok r ≡ false
Gives-is_ok (ok a) (gives p) = sym p
Gives-is_ok (err e) g = refl

pub Gives-any {ℓ} : {A : Type ℓ} (r : Result SettingsError A) → Gives (λ (a : A). Unit {0}) r
Gives-any (ok a) = gives tt
Gives-any (err e) = fails e

-- The variable of a field that is neither a text nor a list of texts or rules.
abbrev pub panics_kind : Kind → Bool
panics_kind text_kind = false
panics_kind texts_kind = false
panics_kind rules_kind = false
panics_kind flag_kind = true
panics_kind int_kind = true
panics_kind float_kind = true

module _ (getenv : Bytes → Bytes) where
  abbrev pub given : Bytes → Bytes
  given name = getenv (variable_of name)

  -- One round of the loop.
  abbrev step : Bytes → Value → Config → Fallible Config
  step name v c = if given name == [] then ok c else set_from_env name (given name) v c

  set-IsTyped :
      (name e : Bytes) (v : Value) (c : Config)
      → lookup name fields_of_config ≡ some (kind_of v)
      → IsTyped c
      → Gives IsTyped (set_from_env name e v c)
  unfolding set_from_env
  set-IsTyped name e (text _) c h t = gives (insert-IsTyped name (text e) c h t)
  set-IsTyped name e (texts _) c h t = gives (insert-IsTyped name (texts _) c h t)
  set-IsTyped name e (rules _) c h t = gives t
  set-IsTyped name e (flag _) c h t = fails _
  set-IsTyped name e (int _) c h t = fails _
  set-IsTyped name e (float _) c h t = fails _

  -- The fields that are left are fields of Config, with values of their types.
  abbrev pub AreFields : Config → Type 0
  AreFields = All (λ (f : Bytes × Value). lookup f.0 fields_of_config ≡ some (kind_of f.1))

  pub from_environment-IsTyped :
      (fields c : Config)
      → AreFields fields
      → IsTyped c
      → Gives IsTyped (from_environment getenv fields c)
  unfolding from_environment
  from_environment-IsTyped [] c h t = gives t
  from_environment-IsTyped ((name, v) ∷ fields) c h t =
      >>=-Gives IsTyped IsTyped (step name v c) (from_environment getenv fields)
        (elim (Bool-cases (given name == [])) [
          | inl e ↦ rw e (gives t)
          | inr e ↦ rw e (set-IsTyped name (given name) v c h.0 t)
        ])
        (λ d u. from_environment-IsTyped fields d h.1 u)

  -- A field whose variable is not there keeps its value.
  set-kept :
      (name e other : Bytes) (v : Value) (c : Config)
      → (name == other) ≡ false
      → Gives (λ d. lookup other d ≡ lookup other c) (set_from_env name e v c)
  unfolding set_from_env
  set-kept name e other (text _) c h = gives (lookup-insert name other (text e) c ∙ rw h)
  set-kept name e other (texts _) c h = gives (lookup-insert name other (texts _) c ∙ rw h)
  set-kept name e other (rules _) c h = gives refl
  set-kept name e other (flag _) c h = fails _
  set-kept name e other (int _) c h = fails _
  set-kept name e other (float _) c h = fails _

  differs :
      (name other : Bytes)
      → (given name == []) ≡ false
      → (given other == []) ≡ true
      → (name == other) ≡ false
  differs name other e h = elim (Bool-cases (name == other)) [
    | inl y ↦
        let same : (given other == []) ≡ false =
          ap (λ n. given n == []) (sym ((bytes_beq_iff name other).0 y)) ∙ e in
        cc
    | inr n ↦ n
  ]

  pub from_environment-kept :
      (other : Bytes) (fields c : Config)
      → (given other == []) ≡ true
      → Gives (λ d. lookup other d ≡ lookup other c) (from_environment getenv fields c)
  unfolding from_environment
  from_environment-kept other [] c h = gives refl
  from_environment-kept other ((name, v) ∷ fields) c h =
      >>=-Gives (λ d. lookup other d ≡ lookup other c) (λ d. lookup other d ≡ lookup other c)
        (step name v c) (from_environment getenv fields)
        (elim (Bool-cases (given name == [])) [
          | inl e ↦ rw e (gives refl)
          | inr e ↦ rw e (set-kept name (given name) other v c (differs name other e h))
        ])
        (λ d u. rw u at (from_environment-kept other fields d h))

  -- A field of text whose variable is there takes its value, and keeps it.
  abbrev pub OnlyText : Bytes → Config → Type 0
  OnlyText name = All (λ (f : Bytes × Value). (f.0 == name) ≡ true → kind_of f.1 ≡ text_kind)

  set-text :
      (e : Bytes) (name : Bytes) (v : Value) (c : Config)
      → kind_of v ≡ text_kind
      → Gives (λ d. lookup name d ≡ some (text e)) (set_from_env name e v c)
  unfolding set_from_env
  set-text e name (text _) c h = gives (lookup-insert name name (text e) c ∙ rw (beq_refl name))
  set-text e name (texts _) c h = cc
  set-text e name (rules _) c h = cc
  set-text e name (flag _) c h = cc
  set-text e name (int _) c h = cc
  set-text e name (float _) c h = cc

  from_environment-text_kept :
      (name : Bytes) (fields c : Config)
      → OnlyText name fields
      → lookup name c ≡ some (text (given name))
      → Gives (λ d. lookup name d ≡ some (text (given name))) (from_environment getenv fields c)
  unfolding from_environment
  from_environment-text_kept name [] c o h = gives h
  from_environment-text_kept name ((n, v) ∷ fields) c o h =
      >>=-Gives (λ d. lookup name d ≡ some (text (given name)))
        (λ d. lookup name d ≡ some (text (given name))) (step n v c)
        (from_environment getenv fields)
        (elim (Bool-cases (given n == [])) [
          | inl e ↦ rw e (gives h)
          | inr e ↦ rw e (elim (Bool-cases (n == name)) [
            | inl y ↦ rw ((bytes_beq_iff n name).0 y) (set-text (given name) name v c (o.0 y))
            | inr y ↦ rw h at (set-kept n (given n) name v c y)
          ])
        ])
        (λ d u. from_environment-text_kept name fields d o.1 u)

  pub from_environment-text :
      (name : Bytes) (fields c : Config)
      → OnlyText name fields
      → contains (keys fields) name ≡ true
      → (given name == []) ≡ false
      → Gives (λ d. lookup name d ≡ some (text (given name))) (from_environment getenv fields c)
  unfolding from_environment contains
  from_environment-text name [] c o k h = cc
  from_environment-text name ((n, v) ∷ fields) c o k h = elim (Bool-cases (n == name)) [
    | inl y ↦
        >>=-Gives (λ d. lookup name d ≡ some (text (given name)))
          (λ d. lookup name d ≡ some (text (given name))) (step n v c)
          (from_environment getenv fields)
          (rw ((bytes_beq_iff n name).0 y, h) (set-text (given name) name v c (o.0 y)))
          (λ d u. from_environment-text_kept name fields d o.1 u)
    | inr y ↦
        >>=-Gives (λ (d : Config). Unit {0}) (λ d. lookup name d ≡ some (text (given name)))
          (step n v c) (from_environment getenv fields) (Gives-any (step n v c))
          (λ d u. from_environment-text name fields d o.1 (rw y at k) h)
  ]

  set-panics :
      (name e : Bytes) (v : Value) (c : Config)
      → panics_kind (kind_of v) ≡ true
      → Gives (λ (d : Config). false ≡ true) (set_from_env name e v c)
  unfolding set_from_env
  set-panics name e (text _) c h = cc
  set-panics name e (texts _) c h = cc
  set-panics name e (rules _) c h = cc
  set-panics name e (flag _) c h = fails _
  set-panics name e (int _) c h = fails _
  set-panics name e (float _) c h = fails _

  kind_panics :
      (v : Value) (k : Kind)
      → some (kind_of v) ≡ some k
      → panics_kind k ≡ true
      → panics_kind (kind_of v) ≡ true
  kind_panics v k l h = let e : kind_of v ≡ k = cc in ap panics_kind e ∙ h

  pub from_environment-panics :
      (name : Bytes) (k : Kind) (fields c : Config)
      → lookup name (kinds fields) ≡ some k
      → panics_kind k ≡ true
      → (given name == []) ≡ false
      → Gives (λ (d : Config). false ≡ true) (from_environment getenv fields c)
  unfolding from_environment lookup
  from_environment-panics name k [] c l h g = cc
  from_environment-panics name k ((n, v) ∷ fields) c l h g = elim (Bool-cases (n == name)) [
    | inl y ↦
        >>=-Gives (λ (d : Config). false ≡ true) (λ (d : Config). false ≡ true) (step n v c)
          (from_environment getenv fields)
          (rw ((bytes_beq_iff n name).0 y, g)
            (set-panics name (given name) v c (kind_panics v k (rw y at l) h)))
          (λ d u. absurd cc)
    | inr y ↦
        >>=-Gives (λ (d : Config). Unit {0}) (λ (d : Config). false ≡ true) (step n v c)
          (from_environment getenv fields) (Gives-any (step n v c))
          (λ d u. from_environment-panics name k fields d (rw y at l) h g)
  ]
