-- ===== src/Watcher/Gc/Kicked.antt =====
-- Which roots are kept by the collector of configwatcher/gc_watcher.go.
use dove.Base.{
  ℕ, ◌-◌, ◌≤◌, ◌≡◌, refl, sym, ap, ◌∙◌, ◌⊎◌, inl, inr, Bool, true, false, not, ◌&&◌, ◌||◌, Option,
  none, some, List, [], ◌∷◌, ◌++◌, arith, leb, if◌then◌else◌, Bool-cases, All, ◌==◌, Bytes,
  bytes_beq_iff, nat_eq, bytes_eq, contains, contains-append, Distinct,
}
use dove.Base.Dict.{Dict, keys, lookup}
use dove.Util.{in_array_string}
use dove.Util.Arrays.{in_array_string-contains}
use dove.Watcher.Nodes.{RegisteredNodeInfo, Nodes, root_of, is_watched}
use dove.Watcher.Gc.{
  threshold_gc_item, values_of, roots_last_access, expired_loop, unneeded_loop, nodes_to_be_kicked,
}
use dove.Watcher.Gc.LastAccess.{since, roots_last_access-Distinct, roots_last_access-covers}

expires : ℕ → Option ℕ → Bool
expires t none = false
expires t (some l) = leb threshold_gc_item (t - l)

contains-snoc_if :
    (b : Bool) (xs : List Bytes) (y a : Bytes)
    → contains (if b then xs ++ y ∷ [] else xs) a ≡ (contains xs a || (b && (y == a)))
unfolding contains
contains-snoc_if b xs y a = ground (arith, contains-append xs (y ∷ []) a)

expired_step : ℕ → List Bytes → Nodes → List Bytes → Bytes × ℕ → List Bytes
expired_step t schema_items s kicked entry =
    if not (is_watched entry.0 s)
    then kicked
    else if leb threshold_gc_item (t - entry.1) && not (in_array_string schema_items entry.0)
    then kicked ++ entry.0 ∷ []
    else kicked

contains-expired_step :
    (t : ℕ) (schema_items : List Bytes) (s : Nodes) (kicked : List Bytes) (entry : Bytes × ℕ)
    (a : Bytes)
    → contains (expired_step t schema_items s kicked entry) a ≡ (
        contains kicked a
        || ((entry.0 == a)
            && (is_watched a s && (expires t (some entry.1) && not (contains schema_items a)))))
unfolding expired_step expires
contains-expired_step t schema_items s kicked entry a = elim (Bool-cases (entry.0 == a)) [
  | inl y ↦
      let same : entry.0 ≡ a = (bytes_beq_iff entry.0 a).0 y in
      ground (
        arith,
        y,
        ap (λ k. is_watched k s) same,
        ap (λ k. contains schema_items k) same,
        in_array_string-contains schema_items entry.0,
        contains-snoc_if true kicked entry.0 a,
      )
  | inr n ↦ ground (arith, n, contains-snoc_if true kicked entry.0 a)
]

lookup_absent : (a : Bytes) (m : Dict Bytes ℕ) → contains (keys m) a ≡ false → lookup a m ≡ none
unfolding lookup contains
lookup_absent a [] h = refl
lookup_absent a (entry ∷ m) h = ground (arith, h, lookup_absent a m)

expires_below : ℕ → List Bytes → Nodes → Bytes → Option ℕ → Bool
expires_below t schema_items s a o =
    is_watched a s && (expires t o && not (contains schema_items a))

expires_below-none :
    (t : ℕ) (schema_items : List Bytes) (s : Nodes) (a : Bytes)
    → expires_below t schema_items s a none ≡ false
unfolding expires_below expires
expires_below-none t schema_items s a = ground arith

contains-expired_loop :
    (t : ℕ) (schema_items : List Bytes) (s : Nodes) (kicked : List Bytes) (m : Dict Bytes ℕ)
    (a : Bytes)
    → Distinct (keys m)
    → contains (expired_loop t schema_items s kicked m) a
      ≡ (contains kicked a || expires_below t schema_items s a (lookup a m))
unfolding expired_loop lookup expired_step
contains-expired_loop t schema_items s kicked [] a d =
    ground (arith, expires_below-none t schema_items s a)
contains-expired_loop t schema_items s kicked (entry ∷ m) a d =
    contains-expired_loop t schema_items s (expired_step t schema_items s kicked entry) m a d.1
    ∙ elim (Bool-cases (entry.0 == a)) [
      | inl y ↦
          let same : entry.0 ≡ a = (bytes_beq_iff entry.0 a).0 y in
          ground (
            arith,
            y,
            step,
            expires_below-none t schema_items s a,
            lookup_absent a m (ap (contains (keys m)) (sym same) ∙ d.0),
          )
      | inr n ↦ ground (arith, n, step)
    ]
  where
    step :
        contains (expired_step t schema_items s kicked entry) a
        ≡ (contains kicked a || ((entry.0 == a) && expires_below t schema_items s a (some entry.1)))
    step = unfold expires_below in contains-expired_step t schema_items s kicked entry a

unneeded_step : List Bytes → Dict Bytes ℕ → Nodes → List Bytes → Bytes → List Bytes
unneeded_step schema_items last s kicked root =
    if not (is_watched root s)
    then kicked
    else if not (contains (keys last) root)
        && not (in_array_string kicked root)
        && not (in_array_string schema_items root)
    then kicked ++ root ∷ []
    else kicked

-- A root that a setting or a schema file needs is not added.
contains-unneeded_step :
    (schema_items : List Bytes) (last : Dict Bytes ℕ) (s : Nodes) (kicked : List Bytes)
    (root a : Bytes)
    → (contains (keys last) a || contains schema_items a) ≡ true
    → contains (unneeded_step schema_items last s kicked root) a ≡ contains kicked a
unfolding unneeded_step
contains-unneeded_step schema_items last s kicked root a h = elim (Bool-cases (root == a)) [
  | inl y ↦
      let same : root ≡ a = (bytes_beq_iff root a).0 y in
      ground (
        arith,
        h,
        ap (λ k. contains (keys last) k) same,
        ap (λ k. contains schema_items k) same,
        in_array_string-contains schema_items root,
      )
  | inr n ↦ ground (arith, n, contains-snoc_if true kicked root a)
]

contains-unneeded_loop :
    (schema_items : List Bytes) (last : Dict Bytes ℕ) (s : Nodes) (kicked roots : List Bytes)
    (a : Bytes)
    → (contains (keys last) a || contains schema_items a) ≡ true
    → contains (unneeded_loop schema_items last s kicked roots) a ≡ contains kicked a
unfolding unneeded_loop unneeded_step
contains-unneeded_loop schema_items last s kicked [] a h = refl
contains-unneeded_loop schema_items last s kicked (root ∷ roots) a h =
    contains-unneeded_loop schema_items last s (unneeded_step schema_items last s kicked root) roots
      a h
    ∙ contains-unneeded_step schema_items last s kicked root a h

nodes_to_be_kicked-schema :
    (t : ℕ) (schema_items : List Bytes) (s : Nodes) (a : Bytes)
    → contains schema_items a ≡ true
    → contains (nodes_to_be_kicked t schema_items s) a ≡ false
unfolding nodes_to_be_kicked contains
nodes_to_be_kicked-schema t schema_items s a h =
    let last = roots_last_access (values_of s.registered_nodes) [] in
    contains-unneeded_loop schema_items last s (expired_loop t schema_items s [] last)
      (keys s.watch_list) a (ground (arith, h))
    ∙ contains-expired_loop t schema_items s [] last a
        (roots_last_access-Distinct (values_of s.registered_nodes) [] tt)
    ∙ unfold expires_below in ground (arith, h)

recent_step :
    (t l : ℕ) (schema_items : List Bytes) (s : Nodes) (r : Bytes) (o : Option ℕ)
    → lookup r (roots_last_access (values_of s.registered_nodes) []) ≡ o
    → since l o ≡ true
    → (contains (nodes_to_be_kicked t schema_items s) r ≡ false) ⊎ (threshold_gc_item ≤ t - l)
unfolding nodes_to_be_kicked contains
recent_step t l schema_items s r none e h = absurd cc
recent_step t l schema_items s r (some x) e h =
    let last = roots_last_access (values_of s.registered_nodes) [] in
    let there : contains (keys last) r ≡ true = elim (Bool-cases (contains (keys last) r)) [
      | inl y ↦ y
      | inr n ↦ absurd (ground (arith, e, lookup_absent r last n))
    ] in
    let loops : contains (nodes_to_be_kicked t schema_items s) r
        ≡ expires_below t schema_items s r (some x) =
      contains-unneeded_loop schema_items last s (expired_loop t schema_items s [] last)
        (keys s.watch_list) r (ground (arith, there))
      ∙ contains-expired_loop t schema_items s [] last r
          (roots_last_access-Distinct (values_of s.registered_nodes) [] tt)
      ∙ ap (expires_below t schema_items s r) e in
    elim (Bool-cases (leb threshold_gc_item (t - x))) [
      | inl y ↦ inr (ground (arith, y, h))
      | inr n ↦ inl (loops ∙ unfold expires_below expires in ground (arith, n))
    ]

recent_nodes :
    (t : ℕ) (schema_items : List Bytes) (s : Nodes) (infos : List RegisteredNodeInfo)
    → All
        (λ info.
          since info.last_access_time
            (lookup (root_of info.name) (roots_last_access (values_of s.registered_nodes) []))
          ≡ true)
        infos
    → All
        (λ info.
          (contains (nodes_to_be_kicked t schema_items s) (root_of info.name) ≡ false)
          ⊎ (threshold_gc_item ≤ t - info.last_access_time))
        infos
recent_nodes t schema_items s [] h = tt
recent_nodes t schema_items s (info ∷ infos) h = (
  recent_step t info.last_access_time schema_items s (root_of info.name)
      (lookup (root_of info.name) (roots_last_access (values_of s.registered_nodes) [])) refl h.0,
  recent_nodes t schema_items s infos h.1,
)

-- The root of a schema file is never given up; and for each registered setting, its root is not given
-- up, or the setting was last asked for at least 600 seconds ago.
pub nodes_to_be_kicked_lem :
    (t : ℕ) (schema_items : List Bytes) (s : Nodes)
    → ((a : Bytes)
        → (contains schema_items a && contains (nodes_to_be_kicked t schema_items s) a) ≡ false)
      × All
          (λ info.
            (contains (nodes_to_be_kicked t schema_items s) (root_of info.name) ≡ false)
            ⊎ (threshold_gc_item ≤ t - info.last_access_time))
          (values_of s.registered_nodes)
nodes_to_be_kicked_lem t schema_items s = (
  λ a. elim (Bool-cases (contains schema_items a)) [
    | inl y ↦ rw (y, nodes_to_be_kicked-schema t schema_items s a y)
    | inr n ↦ rw n
  ],
  recent_nodes t schema_items s (values_of s.registered_nodes)
      (roots_last_access-covers (values_of s.registered_nodes) []),
)
