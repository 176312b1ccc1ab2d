-- ===== src/Watcher/Gc/LastAccess.antt =====
-- The last access of each root, as the collector of configwatcher/gc_watcher.go works it out.
use dove.Base.{
  ℕ, ◌≤◌, ◌≡◌, refl, sym, ap, ◌∙◌, inl, inr, Bool, true, false, Option, none, some, List, [], ◌∷◌,
  arith, ltb, leb, Bool-cases, All, ◌==◌, Bytes, bytes_beq_iff, nat_eq, bytes_eq, beq_refl,
  Distinct,
}
use dove.Base.Dict.{Dict, keys, lookup, insert, lookup-insert, insert-Distinct}
use dove.Watcher.Nodes.{RegisteredNodeInfo, root_of}
use dove.Watcher.Gc.{last_access_step, roots_last_access}

-- A root has a last access that is no earlier than the time given.
abbrev pub since : ℕ → Option ℕ → Bool
since n none = false
since n (some l) = leb n l

abbrev IsUpTo : ℕ → Option ℕ → Type 0
IsUpTo x none = Unit
IsUpTo x (some l) = l ≤ x

insert-since :
    (r root : Bytes) (x n : ℕ) (m : Dict Bytes ℕ) (o : Option ℕ)
    → lookup r m ≡ o
    → IsUpTo x o
    → since n (lookup root m) ≡ true
    → since n (lookup root (insert r x m)) ≡ true
insert-since r root x n m o e u h = elim (Bool-cases (r == root)) [
  | inr d ↦ ground (arith, d, lookup-insert r root x m)
  | inl y ↦
      let there : lookup root m ≡ o = ap (λ k. lookup k m) (sym ((bytes_beq_iff r root).0 y)) ∙ e in
      rw (lookup-insert r root x m, y) (later o there u)
]
  where
    later : (o : Option ℕ) → lookup root m ≡ o → IsUpTo x o → since n (some x) ≡ true
    later none t u = ground (arith, t)
    later (some l) t u = ground (arith, t)

last_access_step-since :
    (info : RegisteredNodeInfo) (m : Dict Bytes ℕ) (root : Bytes) (n : ℕ) (o : Option ℕ)
    → lookup (root_of info.name) m ≡ o
    → since n (lookup root m) ≡ true
    → since n (lookup root (last_access_step info m)) ≡ true
unfolding last_access_step
last_access_step-since info m root n none e h =
    rw (e, last_access_step)
      (insert-since (root_of info.name) root info.last_access_time n m none e tt h)
last_access_step-since info m root n (some l) e h =
    elim (Bool-cases (ltb l info.last_access_time)) [
      | inl y ↦
          rw (e, y, last_access_step)
            (insert-since (root_of info.name) root info.last_access_time n m (some l) e
              (ground arith) h)
      | inr d ↦ rw (e, d, last_access_step) h
    ]

last_access_step-at :
    (info : RegisteredNodeInfo) (m : Dict Bytes ℕ) (o : Option ℕ)
    → lookup (root_of info.name) m ≡ o
    → since info.last_access_time (lookup (root_of info.name) (last_access_step info m)) ≡ true
unfolding last_access_step
last_access_step-at info m none e = ground (
  arith,
  e,
  lookup-insert (root_of info.name) (root_of info.name) info.last_access_time m,
  beq_refl (root_of info.name),
)
last_access_step-at info m (some l) e = ground (
  arith,
  e,
  lookup-insert (root_of info.name) (root_of info.name) info.last_access_time m,
  beq_refl (root_of info.name),
)

last_access_step-Distinct :
    (info : RegisteredNodeInfo) (m : Dict Bytes ℕ)
    → Distinct (keys m)
    → Distinct (keys (last_access_step info m))
unfolding last_access_step
last_access_step-Distinct info m d =
    ground (arith, insert-Distinct (root_of info.name) info.last_access_time m d)

roots_last_access-since :
    (infos : List RegisteredNodeInfo) (m : Dict Bytes ℕ) (root : Bytes) (n : ℕ)
    → since n (lookup root m) ≡ true
    → since n (lookup root (roots_last_access infos m)) ≡ true
unfolding roots_last_access
roots_last_access-since [] m root n h = h
roots_last_access-since (info ∷ infos) m root n h =
    roots_last_access-since infos (last_access_step info m) root n
      (last_access_step-since info m root n (lookup (root_of info.name) m) refl h)

pub roots_last_access-Distinct :
    (infos : List RegisteredNodeInfo) (m : Dict Bytes ℕ)
    → Distinct (keys m)
    → Distinct (keys (roots_last_access infos m))
unfolding roots_last_access
roots_last_access-Distinct [] m d = d
roots_last_access-Distinct (info ∷ infos) m d =
    roots_last_access-Distinct infos (last_access_step info m) (last_access_step-Distinct info m d)

-- The entry of a root covers every setting below it.
pub roots_last_access-covers :
    (infos : List RegisteredNodeInfo) (m : Dict Bytes ℕ)
    → All
        (λ info.
          since info.last_access_time (lookup (root_of info.name) (roots_last_access infos m))
          ≡ true)
        infos
unfolding roots_last_access
roots_last_access-covers [] m = tt
roots_last_access-covers (info ∷ infos) m = (
  roots_last_access-since infos (last_access_step info m) (root_of info.name) info.last_access_time
      (last_access_step-at info m (lookup (root_of info.name) m) refl),
  roots_last_access-covers infos (last_access_step info m),
)
