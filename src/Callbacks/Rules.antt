-- ===== src/Callbacks/Rules.antt =====
-- Which customised scripts callbacks/callback.go selects, and with what parameters.
use dove.Base.{
  ◌≡◌, refl, Bool, false, ◌&&◌, ◌||◌, List, [], ◌∷◌, ◌++◌, map, arith, ◌==◌, Bytes, codes,
  bytes_beq_iff, nat_eq, bytes_eq, contains, contains-append, Distinct, Distinct-snoc,
}
use dove.Base.Text.{join}
use dove.Util.Arrays.{in_array_string-contains}
use dove.Callbacks.{
  Pending, any_updated, apply_rule, apply_rules, with_params, get_customize_callbacks,
}

-- One of the two lists' entries is common to both.
abbrev pub overlaps : List Bytes → List Bytes → Bool
overlaps updated [] = false
overlaps updated (file ∷ files) = contains updated file || overlaps updated files

-- A rule asks for the script that it names: always, or when one of its files was updated.
abbrev pub asks_for : List Bytes → Bytes → List Bytes → Bool
asks_for updated s [] = false
asks_for updated s (script ∷ []) = script == s
asks_for updated s (script ∷ file ∷ more) = (script == s) && overlaps updated (file ∷ more)

abbrev pub some_rule : List Bytes → Bytes → List (List Bytes) → Bool
some_rule updated s [] = false
some_rule updated s (rule ∷ rules) = asks_for updated s rule || some_rule updated s rules

any_updated-overlaps :
    (updated files : List Bytes) → any_updated updated files ≡ overlaps updated files
unfolding any_updated
any_updated-overlaps updated [] = refl
any_updated-overlaps updated (file ∷ files) =
    ground (arith, any_updated-overlaps updated files, in_array_string-contains updated file)

contains-snoc :
    (xs : List Bytes) (y a : Bytes) → contains (xs ++ y ∷ []) a ≡ (contains xs a || (y == a))
unfolding contains
contains-snoc xs y a = ground (arith, contains-append xs (y ∷ []) a)

contains-apply_rule :
    (updated scripts rule : List Bytes) (s : Bytes)
    → contains (apply_rule updated scripts rule) s ≡ (contains scripts s || asks_for updated s rule)
unfolding apply_rule
contains-apply_rule updated scripts [] s = ground arith
contains-apply_rule updated scripts (script ∷ []) s = ground (
  arith,
  contains-snoc scripts script s,
  in_array_string-contains scripts script,
  bytes_beq_iff script s,
)
contains-apply_rule updated scripts (script ∷ file ∷ more) s = ground (
  arith,
  contains-snoc scripts script s,
  in_array_string-contains scripts script,
  bytes_beq_iff script s,
  any_updated-overlaps updated (file ∷ more),
)

apply_rule-Distinct :
    (updated scripts rule : List Bytes)
    → Distinct scripts
    → Distinct (apply_rule updated scripts rule)
unfolding apply_rule
apply_rule-Distinct updated scripts [] d = d
apply_rule-Distinct updated scripts (script ∷ []) d =
    ground (arith, Distinct-snoc scripts script d, in_array_string-contains scripts script)
apply_rule-Distinct updated scripts (script ∷ file ∷ more) d =
    ground (arith, Distinct-snoc scripts script d, in_array_string-contains scripts script)

apply_rules-Distinct :
    (updated scripts : List Bytes) (rules : List (List Bytes))
    → Distinct scripts
    → Distinct (apply_rules updated scripts rules)
unfolding apply_rules
apply_rules-Distinct updated scripts [] d = d
apply_rules-Distinct updated scripts (rule ∷ rules) d =
    apply_rules-Distinct updated (apply_rule updated scripts rule) rules
      (apply_rule-Distinct updated scripts rule d)

contains-apply_rules :
    (updated scripts : List Bytes) (rules : List (List Bytes)) (s : Bytes)
    → contains (apply_rules updated scripts rules) s
      ≡ (contains scripts s || some_rule updated s rules)
unfolding apply_rules
contains-apply_rules updated scripts [] s = ground arith
contains-apply_rules updated scripts (rule ∷ rules) s = ground (
  arith,
  contains-apply_rules updated (apply_rule updated scripts rule) rules s,
  contains-apply_rule updated scripts rule s,
)

-- The customised command lines are those of a list of distinct scripts, each with the updated
-- nodes behind it; a script is in that list exactly when some rule asks for it. Afterwards no
-- schema file and no node is pending, and the record of each file's nodes is as before.
pub get_customize_callbacks_lem :
    (rules : List (List Bytes)) (p : Pending)
    → (scripts : List Bytes) × ((get_customize_callbacks rules p).0
        ≡ map (with_params (join p.updated_nodes (codes ","))) scripts)
      × Distinct scripts
      × ((s : Bytes) → contains scripts s ≡ some_rule p.updated_schema_files s rules)
      × ((get_customize_callbacks rules p).1.updated_schema_files ≡ [])
      × ((get_customize_callbacks rules p).1.updated_nodes ≡ [])
      × ((get_customize_callbacks rules p).1.schema_to_nodes ≡ p.schema_to_nodes)
unfolding get_customize_callbacks contains
get_customize_callbacks_lem rules p = (
  apply_rules p.updated_schema_files [] rules,
  refl,
  apply_rules-Distinct p.updated_schema_files [] rules tt,
  contains-apply_rules p.updated_schema_files [] rules,
  refl,
  refl,
  refl,
)
