-- ===== src/Projconfig/Debug/Nearest.antt =====
-- Which debug file projconfig/debugconfig.go chooses for a schema file.
use dove.Base.{
  ℕ, ◌≤◌, ◌≡◌, refl, ap, Option, none, some, List, [], ◌∷◌, arith, All, Bytes, nat_eq, bytes_eq,
}
use dove.Base.Dict.{Dict, keys, lookup}
use dove.Util.Json.{TomlTree}
use dove.Projconfig.Debug.{first_difference, nearest_step, nearest_loop, chosen_file}

-- How far a name agrees with the expected one; 0 for a name that is a prefix of it.
abbrev pub agreement : Option ℕ → ℕ
agreement none = 0
agreement (some pos) = pos

nearest_step_lem :
    (o : Option ℕ) (test_pos : ℕ) (nearest name : Bytes)
    → (test_pos ≤ (nearest_step o test_pos nearest name).0)
      × (agreement o ≤ (nearest_step o test_pos nearest name).0)
unfolding nearest_step
nearest_step_lem none test_pos nearest name = (omega arith, omega arith)
nearest_step_lem (some pos) test_pos nearest name = (ground arith, ground arith)

nearest_loop-le :
    (expected : Bytes) (test_pos : ℕ) (nearest : Bytes) (names : List Bytes)
    → test_pos ≤ (nearest_loop expected test_pos nearest names).0
unfolding nearest_loop
nearest_loop-le expected test_pos nearest [] = omega arith
nearest_loop-le expected test_pos nearest (name ∷ names) =
    let s = nearest_step (first_difference name expected) test_pos nearest name in
    omega (
      arith,
      (nearest_step_lem (first_difference name expected) test_pos nearest name).0,
      nearest_loop-le expected s.0 s.1 names,
    )

-- No debug file agrees with the expected path further than the loop's final position.
nearest_loop-IsFurthest :
    (expected : Bytes) (test_pos : ℕ) (nearest : Bytes) (names : List Bytes)
    → All
        (λ name.
          agreement (first_difference name expected)
          ≤ (nearest_loop expected test_pos nearest names).0)
        names
unfolding nearest_loop
nearest_loop-IsFurthest expected test_pos nearest [] = tt
nearest_loop-IsFurthest expected test_pos nearest (name ∷ names) =
    let s = nearest_step (first_difference name expected) test_pos nearest name in
    (
      omega (
        arith,
        (nearest_step_lem (first_difference name expected) test_pos nearest name).1,
        nearest_loop-le expected s.0 s.1 names,
      ),
      nearest_loop-IsFurthest expected s.0 s.1 names,
    )

-- The final position is that of the nearest file, unless no round changed anything.
nearest_step-found :
    (expected : Bytes) (test_pos : ℕ) (nearest name : Bytes) (o : Option ℕ)
    → first_difference name expected ≡ o
    → test_pos ≡ agreement (first_difference nearest expected)
    → (nearest_step o test_pos nearest name).0
      ≡ agreement (first_difference (nearest_step o test_pos nearest name).1 expected)
unfolding nearest_step
nearest_step-found expected test_pos nearest name none e h = h
nearest_step-found expected test_pos nearest name (some pos) e h = ground (arith, ap agreement e)

nearest_loop-found :
    (expected : Bytes) (test_pos : ℕ) (nearest : Bytes) (names : List Bytes)
    → test_pos ≡ agreement (first_difference nearest expected)
    → (nearest_loop expected test_pos nearest names).0
      ≡ agreement (first_difference (nearest_loop expected test_pos nearest names).1 expected)
unfolding nearest_loop
nearest_loop-found expected test_pos nearest [] h = h
nearest_loop-found expected test_pos nearest (name ∷ names) h =
    let s = nearest_step (first_difference name expected) test_pos nearest name in
    nearest_loop-found expected s.0 s.1 names
      (nearest_step-found expected test_pos nearest name (first_difference name expected) refl h)

All-le :
    (f : Bytes → ℕ) (m n : ℕ) (names : List Bytes)
    → m ≡ n
    → All (λ name. f name ≤ m) names
    → All (λ name. f name ≤ n) names
All-le f m n [] e h = tt
All-le f m n (name ∷ names) e h = (omega (arith, e, h.0), All-le f m n names e h.1)

-- When there is no debug file beside the schema file, no debug file agrees with the path of that one
-- over more bytes than the chosen file does, before the first difference.
chosen_file_lem :
    (configs : Dict Bytes TomlTree) (expected : Bytes)
    → lookup expected configs ≡ none
    → All
        (λ name.
          agreement (first_difference name expected)
          ≤ agreement (first_difference (chosen_file configs expected) expected))
        (keys configs)
unfolding chosen_file first_difference
chosen_file_lem configs expected e =
    rw (e, chosen_file)
      (All-le (λ name. agreement (first_difference name expected)) _ _ (keys configs)
        (nearest_loop-found expected 0 [] (keys configs) refl)
        (nearest_loop-IsFurthest expected 0 [] (keys configs)))
