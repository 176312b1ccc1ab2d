-- ===== src/Watcher/Compile/Substituted.antt =====
-- That the compilation of a schema file substitutes the values of its items: compileSchemaFile of
-- configwatcher/zk_watcher.go.
use dove.Base.{
  ◌-◌, ◌≡◌, refl, sym, ap, ◌∙◌, ◌≢◌, inl, inr, true, ◌||◌, Option, some, List, [], ◌∷◌, ◌++◌, arith,
  if◌then◌else◌, Bool-cases, length, take, All, All-append, ◌==◌, Bytes, codes, bytes_beq_iff,
  nat_eq, bytes_eq, beq_refl, contains, ok,
}
use dove.Base.Dict.{Dict, lookup}
use dove.Base.Text.{replace_all, replace_from}
use dove.Schema.Placeholders.{
  IsItem, IsSegment, render, placeholder, item_names, parse_items-render,
}
use dove.Util.{append_all_missing, append_missing, in_array_string}
use dove.Util.Arrays.{contains-append_all_missing}
use dove.Watcher.Compile.{
  Php, replace_items, compile_schema_file, php_value, value_of_item, with_caution, json_text,
  target_errors,
}
use dove.Watcher.Compile.Replaced.{IsFiller, plain, hit, miss}

-- The value of the item is found, and PHP gives its text.
pub record IsValued (php : Php) (container : Dict Bytes (Option Bytes)) (val : Bytes → Bytes)
    (item : Bytes) : Type 0 where
  pub named : IsItem item
  pub json : Option Bytes
  pub stored : lookup item container ≡ some json
  pub valued : php_value php item (json_text json) ≡ some (ok (val item))
  pub plain_val : All (λ c. c ≢ b'"') (val item)

-- A schema file in which the items `xs` are replaced.
abbrev pub mixed : (Bytes → Bytes) → List Bytes → List (Bytes × Bytes) → Bytes
mixed val xs [] = []
mixed val xs ((n, f) ∷ segs) =
    (if contains xs n then val n else placeholder n) ++ (f ++ mixed val xs segs)

-- A schema file with the values for its placeholders.
abbrev pub substituted : (Bytes → Bytes) → List (Bytes × Bytes) → Bytes
substituted val [] = []
substituted val ((n, f) ∷ segs) = val n ++ (f ++ substituted val segs)

module _ (php : Php) (container : Dict Bytes (Option Bytes)) (val : Bytes → Bytes) where
  abbrev pub IsValuedSegment : Bytes × Bytes → Type 0
  IsValuedSegment seg = IsValued php container val seg.0 × IsFiller seg.1

  step :
      (a : Bytes) (xs : List Bytes) (segs : List (Bytes × Bytes))
      → IsItem a
      → All IsValuedSegment segs
      → replace_from (placeholder a) (val a) 0 (mixed val xs segs) ≡ mixed val (a ∷ xs) segs
  unfolding contains replace_from
  step a xs [] ia h = refl
  step a xs ((n, f) ∷ segs) ia h =
      let rest = mixed val xs segs in
      let old = placeholder a in
      let on : replace_from old (val a) 0 rest ≡ mixed val (a ∷ xs) segs = step a xs segs ia h.1 in
      let filled = plain f rest a (val a) h.0.1.quotes ∙ ap (λ t. f ++ t) on in
      elim (Bool-cases (contains xs n)) [
        | inl there ↦
            let or_there : (a == n || contains xs n) ≡ true = ground (arith, there) in
            rw (or_there, there)
              (plain (val n) (f ++ rest) a (val a) h.0.0.plain_val ∙ ap (λ t. val n ++ t) filled)
        | inr new ↦ elim (Bool-cases (a == n)) [
          | inl same ↦
              let a_is_n = (bytes_beq_iff a n).0 same in
              rw (same, new)
                (ap (λ m. replace_from old (val a) 0 (placeholder m ++ (f ++ rest))) (sym a_is_n)
                  ∙ hit a (val a) (f ++ rest)
                  ∙ ap (λ t. val a ++ t) filled
                  ∙ ap (λ m. val m ++ (f ++ mixed val (a ∷ xs) segs)) a_is_n)
          | inr other ↦
              rw (other, new)
                (miss a n (val a) f rest ia h.0.0.named other h.0.1
                  ∙ ap (λ t. placeholder n ++ (f ++ t)) on)
        ]
      ]

  -- The names that are replaced when the loop has gone through some more.
  abbrev added : List Bytes → List Bytes → List Bytes
  added xs [] = xs
  added xs (a ∷ items) = added (a ∷ xs) items

  contains-added :
      (xs items : List Bytes) (n : Bytes)
      → contains (added xs items) n ≡ (contains xs n || contains items n)
  unfolding contains
  contains-added xs [] n = ground arith
  contains-added xs (a ∷ items) n = ground (arith, contains-added (a ∷ xs) items n)

  all_substituted :
      (xs : List Bytes) (segs : List (Bytes × Bytes))
      → All (λ n. contains xs n ≡ true) (item_names segs)
      → mixed val xs segs ≡ substituted val segs
  all_substituted xs [] h = refl
  all_substituted xs ((n, f) ∷ segs) h =
      rw (h.0) (ap (λ t. val n ++ (f ++ t)) (all_substituted xs segs h.1))

  all-added :
      (items : List Bytes) (names : List Bytes)
      → All (λ n. contains items n ≡ true) names
      → All (λ n. contains (added [] items) n ≡ true) names
  unfolding contains
  all-added items [] h = tt
  all-added items (n ∷ names) h = (contains-added [] items n ∙ h.0, all-added items names h.1)

  all-found :
      (items names : List Bytes)
      → (within : (n : Bytes) → contains names n ≡ true → contains items n ≡ true)
      → All (λ n. contains items n ≡ true) names
  unfolding contains
  all-found items [] within = tt
  all-found items (n ∷ names) within = (
    within n (ground (arith, beq_refl n)),
    all-found items names (λ m h. within m (ground (arith, h))),
  )

  from_names :
      (names : List Bytes) (n : Bytes)
      → contains names n ≡ true
      → contains (append_all_missing [] names) n ≡ true
  unfolding contains
  from_names names n h = contains-append_all_missing [] names n ∙ h

  sets :
      (xs names : List Bytes)
      → All (IsValued php container val) xs
      → All (IsValued php container val) names
      → All (IsValued php container val) (append_all_missing xs names)
  unfolding append_all_missing append_missing
  sets xs [] hx h = hx
  sets xs (n ∷ names) hx h = elim (Bool-cases (in_array_string xs n)) [
    | inl old ↦ rw old (sets xs names hx h.1)
    | inr new ↦ rw new (
        sets (xs ++ n ∷ []) names (All-append (IsValued php container val) xs (n ∷ []) hx (h.0, tt))
          h.1)
  ]

  names_set :
      (segs : List (Bytes × Bytes))
      → All IsValuedSegment segs
      → All (IsValued php container val) (item_names segs)
  names_set [] h = tt
  names_set (seg ∷ segs) h = (h.0.0, names_set segs h.1)

  segments : (segs : List (Bytes × Bytes)) → All IsValuedSegment segs → All IsSegment segs
  segments [] h = tt
  segments (seg ∷ segs) h = ((h.0.0.named, h.0.1.quotes), segments segs h.1)

  mixed-render : (segs : List (Bytes × Bytes)) → render segs ≡ mixed val [] segs
  unfolding contains
  mixed-render [] = refl
  mixed-render ((n, f) ∷ segs) = ap (λ t. placeholder n ++ (f ++ t)) (mixed-render segs)

  module _ {S : Type 0} (fetch : Bytes → S → Option Bytes × S) where
    value_found :
        (a : Bytes) (s : S)
        → (h : IsValued php container val a)
        → value_of_item fetch container a s ≡ (some (json_text h.json), s)
    unfolding value_of_item
    value_found a s h = rw (h.stored, value_of_item) refl

    loop :
        (lead : Bytes) (items xs : List Bytes) (segs : List (Bytes × Bytes)) (s : S)
        → All (λ c. c ≢ b'"') lead
        → All (IsValued php container val) items
        → All IsValuedSegment segs
        → replace_items fetch php container items (lead ++ mixed val xs segs) [] s
          ≡ (some (lead ++ mixed val (added xs items) segs, []), s)
    unfolding replace_items replace_all
    loop lead [] xs segs s hl hi hs = refl
    loop lead (a ∷ items) xs segs s hl hi hs =
        rw (replace_items, value_found a s hi.0, hi.0.valued, value_found a s hi.0)
          (ap (λ t. replace_items fetch php container items t [] s)
              (plain lead (mixed val xs segs) a (val a) hl
                ∙ ap (λ t. lead ++ t) (step a xs segs hi.0.named hs))
            ∙ loop lead items (a ∷ xs) segs s hl hi.1 hs)

    -- Take a schema file in which no quote stands outside the placeholders, and each placeholder has some
    -- text behind it that does not start with `#`. If every item in it has a new value that PHP turns
    -- into a text without a quote, and the target can be written, then the compilation writes the file
    -- in which each placeholder is that text for its item, wherever and however often it stands, with
    -- the caution put in; it reports no error and fetches nothing.
    pub compile_schema_file-substituted :
        (lead path : Bytes) (segs : List (Bytes × Bytes)) (s : S)
        → All (λ c. c ≢ b'"') lead
        → All IsValuedSegment segs
        → php.target_opens ≡ true
        → php.target_written ≡ true
        → compile_schema_file fetch php container (some (lead ++ render segs)) path s ≡ (
          some (record {
            target = some (
              take (length path - 11) path ++ codes ".php",
              with_caution (lead ++ substituted val segs),
            );
            errors = [];
          }),
          s,
        )
    unfolding compile_schema_file target_errors
    compile_schema_file-substituted lead path segs s hl hs ho hw =
        let items = append_all_missing [] (item_names segs) in
        let all_items = sets [] (item_names segs) tt (names_set segs hs) in
        let found = all-found items (item_names segs) (from_names (item_names segs)) in
        let replaced : replace_items fetch php container items (lead ++ render segs) [] s
            ≡ (some (lead ++ substituted val segs, []), s) =
          ap (λ t. replace_items fetch php container items (lead ++ t) [] s) (mixed-render segs)
          ∙ loop lead items [] segs s hl all_items hs
          ∙ ap (λ t. (some (lead ++ t, []), s))
              (all_substituted (added [] items) segs (all-added items (item_names segs) found)) in
        rw
          (
            parse_items-render lead segs hl (segments segs hs),
            replaced,
            ho,
            hw,
            compile_schema_file,
          )
          refl
