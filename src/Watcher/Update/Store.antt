-- ===== src/Watcher/Update/Store.antt =====
-- What an update of configwatcher/zk_watcher.go leaves in memory and for the callbacks.
use dove.Base.{
  ◌≡◌, refl, sym, ap, ◌∙◌, inl, inr, Bool, true, false, ◌&&◌, Option, some, List, [], ◌∷◌, arith,
  if◌then◌else◌, Bool-cases, ◌==◌, Bytes, bytes_beq_iff, nat_eq, bytes_eq, contains, Distinct,
}
use dove.Base.Dict.{Dict, keys, lookup, lookup-insert, lookup-contains}
use dove.Storage.{Memory, get_from_mem, store_to_mem}
use dove.Callbacks.Nodes.{contains-add_updated_nodes}
use dove.Projconfig.Local.{Values}
use dove.Callbacks.{add_updated_nodes}
use dove.Watcher.Update.Fetched.{
  IsFetched, AreFetched, none-AreFetched, schemas_loop-AreFetched, registered_loop-AreFetched,
}
use dove.Watcher.Update.{
  Outside, Pass, note_all, first_pass, schemas_loop, registered_loop, is_saved, store_all, persist,
  Watcher, update_by_root_node,
}
use dove.Watcher.Update.Collected.{
  IsCollected, first_pass-IsCollected, schemas_loop-IsCollected, registered_loop-IsCollected,
}

get_from_mem-store_to_mem :
    (a name : Bytes) (json : Option Bytes) (m : Memory)
    → get_from_mem a (store_to_mem name json m) ≡ (if name == a then json else get_from_mem a m)
unfolding get_from_mem store_to_mem
get_from_mem-store_to_mem a name json m =
    ground (arith, lookup-insert name a json m.project_configs)

store_step : (Bytes → Bool) → Bytes × Option Bytes → Values → Values
store_step saved entry v =
    if saved entry.0 then record v { memory = store_to_mem entry.0 entry.1 v.memory } else v

get_from_mem-store_step :
    (saved : Bytes → Bool) (entry : Bytes × Option Bytes) (v : Values) (a : Bytes)
    → get_from_mem a (store_step saved entry v).memory
      ≡ (if saved entry.0 && (entry.0 == a) then entry.1 else get_from_mem a v.memory)
unfolding store_step
get_from_mem-store_step saved entry v a =
    ground (arith, get_from_mem-store_to_mem a entry.0 entry.1 v.memory)

-- A name that is no key keeps what the memory holds for it.
store_all-other :
    (saved : Bytes → Bool) (m : Dict Bytes (Option Bytes)) (v : Values) (a : Bytes)
    → contains (keys m) a ≡ false
    → get_from_mem a (store_all saved m v).memory ≡ get_from_mem a v.memory
unfolding store_all contains store_step
store_all-other saved [] v a h = refl
store_all-other saved (entry ∷ m) v a h =
    store_all-other saved m (store_step saved entry v) a (ground (arith, h))
    ∙ get_from_mem-store_step saved entry v a
    ∙ ground (arith, h)

-- A key that is saved holds its value afterwards.
store_all-key :
    (saved : Bytes → Bool) (m : Dict Bytes (Option Bytes)) (v : Values) (a : Bytes)
    (json : Option Bytes)
    → Distinct (keys m)
    → lookup a m ≡ some json
    → saved a ≡ true
    → get_from_mem a (store_all saved m v).memory ≡ json
unfolding store_all contains lookup store_step
store_all-key saved [] v a json d e s = cc
store_all-key saved (entry ∷ m) v a json d e s = elim (Bool-cases (entry.0 == a)) [
  | inl y ↦
      let same : entry.0 ≡ a = (bytes_beq_iff entry.0 a).0 y in
      store_all-other saved m (store_step saved entry v) a (ap (contains (keys m)) (sym same) ∙ d.0)
      ∙ get_from_mem-store_step saved entry v a
      ∙ ground (arith, y, e, s, ap saved same)
  | inr n ↦ store_all-key saved m (store_step saved entry v) a json d.1 (ground (arith, n, e)) s
]

pass_of : Outside → Bytes → Bool → List (Bytes × Option Bytes) → List Bytes → Values → Pass × Values
pass_of o root force files registered v =
    registered_loop o root registered (schemas_loop o root force files (first_pass, v))

pass_of-IsCollected :
    (o : Outside) (root : Bytes) (force : Bool) (files : List (Bytes × Option Bytes))
    (registered : List Bytes) (v : Values)
    → IsCollected (pass_of o root force files registered v).0
unfolding pass_of
pass_of-IsCollected o root force files registered v =
    let r = schemas_loop o root force files (first_pass, v) in
    registered_loop-IsCollected o root registered r.0 r.1
      (schemas_loop-IsCollected o root force files first_pass v first_pass-IsCollected)

pass_of-AreFetched :
    (o : Outside) (root : Bytes) (force : Bool) (files : List (Bytes × Option Bytes))
    (registered : List Bytes) (v : Values)
    → AreFetched o (pass_of o root force files registered v).0.serialized
unfolding pass_of
pass_of-AreFetched o root force files registered v =
    let r = schemas_loop o root force files (first_pass, v) in
    registered_loop-AreFetched o root registered r.0 r.1
      (schemas_loop-AreFetched o root force files first_pass v none-AreFetched)

persist-key :
    (o : Outside) (s : Pass) (v : Values) (a : Bytes)
    → IsCollected s
    → contains s.items_has_update a ≡ true
    → is_saved o.env.dev_mode s a ≡ true
    → (json : Option Bytes) × (lookup a s.serialized ≡ some json)
      × (get_from_mem a (persist o s v).memory ≡ json)
unfolding persist
persist-key o s v a c h i =
    let (json, e) = lookup-contains a s.serialized (ground (arith, c.kept a)) in
    let yes : s.has_update_overall ≡ true = ground (arith, c.overall a) in
    (
      json,
      e,
      rw (yes, persist)
          (store_all-key (is_saved o.env.dev_mode s) s.serialized _ a json c.distinct e i),
    )

-- After an update without a panic, each item of a schema file that was found to have an update, other than
-- one whose value is from a debug file in development mode, is in memory with the JSON that
-- GetNewValueOfConfig gave for it, and is among the nodes for the callbacks.
pub update_by_root_node-stored :
    (o : Outside) (root : Bytes) (force : Bool) (files : List (Bytes × Option Bytes))
    (registered : List Bytes) (w w' : Watcher) (s : Pass) (a : Bytes)
    → update_by_root_node o root force files registered w ≡ some (s, w')
    → contains s.items_has_update a ≡ true
    → is_saved o.env.dev_mode s a ≡ true
    → (json : Option Bytes) × (lookup a s.serialized ≡ some json)
      × IsFetched o a json
      × (get_from_mem a w'.values.memory ≡ json)
      × (contains w'.pending.updated_nodes a ≡ true)
unfolding update_by_root_node pass_of
update_by_root_node-stored o root force files registered w w' s a u h i =
    let r = pass_of o root force files registered w.values in
    elim (Bool-cases r.0.panicked) [
      | inl p ↦ absurd (ground (arith, u, p))
      | inr l ↦
          let done : (s ≡ r.0)
              × (w'.values ≡ persist o r.0 r.1)
              × (w'.pending
                  ≡ add_updated_nodes r.0.items_has_update
                      (note_all r.0.compiled_files w.pending)) =
            ground (arith, u, l) in
          let (x, y, z) = done in
          let (json, e, m) =
            persist-key o r.0 r.1 a (pass_of-IsCollected o root force files registered w.values)
              (ap (λ t. contains t.items_has_update a) (sym x) ∙ h)
              (ap (λ t. is_saved o.env.dev_mode t a) (sym x) ∙ i) in
          (
            json,
            ap (λ t. lookup a t.serialized) x ∙ e,
            (pass_of-AreFetched o root force files registered w.values).fetched a json e,
            ap (λ t. get_from_mem a t.memory) y ∙ m,
            ap (λ t. contains t.updated_nodes a) z
                ∙ ground (
                  arith,
                  ap (λ t. contains t.items_has_update a) (sym x),
                  h,
                  contains-add_updated_nodes r.0.items_has_update
                      (note_all r.0.compiled_files w.pending) a,
                ),
          )
    ]
