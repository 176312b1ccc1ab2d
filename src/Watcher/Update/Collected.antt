-- ===== src/Watcher/Update/Collected.antt =====
-- What holds of the variables of `updateProjectConfigByRootNode`, configwatcher/zk_watcher.go, during
-- its loops.
use dove.Base.{
  ◌≡◌, refl, inl, inr, Bool, true, false, not, ◌&&◌, ◌||◌, Option, none, some, List, [], ◌∷◌, arith,
  if◌then◌else◌, Bool-cases, Bytes, bytes_beq_iff, nat_eq, bytes_eq, beq_refl, contains, Distinct,
}
use dove.Base.Dict.{keys, contains-insert, insert-Distinct}
use dove.Util.{in_array_string, exists_in_map}
use dove.Util.Arrays.{contains-append_missing}
use dove.Schema.{parse_items}
use dove.Projconfig.Local.{Values}
use dove.Watcher.NewValue.{NewValue, get_new_value_of_config}
use dove.Watcher.Update.{
  note_item, note_registered_item, is_panic_of, compiled_as, Outside, Pass, first_pass, keep_value,
  note_failure, note_update, note_debug, is_none, item_step, items_loop, compile_step, schema_step,
  schemas_loop, note_registered, registered_loop, concerns, is_compilable,
}

-- No setting has two values, every item with an update has a value, and an item with an update is an
-- update of the whole.
pub record IsCollected (s : Pass) : Type 0 where
  pub distinct : Distinct (keys s.serialized)
  pub kept :
      (a : Bytes) → (contains s.items_has_update a && not (contains (keys s.serialized) a)) ≡ false
  pub overall : (a : Bytes) → (contains s.items_has_update a && not s.has_update_overall) ≡ false

pub first_pass-IsCollected : IsCollected first_pass
unfolding contains
first_pass-IsCollected = record { distinct = tt; kept = λ a. refl; overall = λ a. refl }

keep_value-IsCollected :
    (item : Bytes) (nv : NewValue) (s : Pass) → IsCollected s → IsCollected (keep_value item nv s)
unfolding keep_value
keep_value-IsCollected item nv s c = elim (Bool-cases (is_none nv.c_err)) [
  | inl e ↦
      rw (e, keep_value)
        (record {
          distinct = insert-Distinct item nv.value_serialized s.serialized c.distinct;
          kept = λ a.
              ground (arith, c.kept a, contains-insert item a nv.value_serialized s.serialized);
          overall = c.overall;
        })
  | inr e ↦ rw (e, keep_value) c
]

-- The item that was just kept has a value.
keep_value-contains :
    (item : Bytes) (nv : NewValue) (s : Pass)
    → is_none nv.c_err ≡ true
    → contains (keys (keep_value item nv s).serialized) item ≡ true
unfolding keep_value
keep_value-contains item nv s e =
    ground (arith, e, contains-insert item item nv.value_serialized s.serialized, beq_refl item)

note_update-IsCollected :
    (item : Bytes) (nv : NewValue) (s : Pass)
    → IsCollected s
    → (is_none nv.c_err && not (contains (keys s.serialized) item)) ≡ false
    → IsCollected (note_update item nv s)
unfolding note_update
note_update-IsCollected item nv s c h = elim (Bool-cases (is_none nv.c_err && nv.has_update)) [
  | inl e ↦
      rw (e, note_update)
        (record {
          distinct = c.distinct;
          kept = λ a. ground (
            arith,
            e,
            h,
            c.kept a,
            contains-append_missing s.items_has_update item a,
            bytes_beq_iff item a,
          );
          overall = λ a. ground arith;
        })
  | inr e ↦ rw (e, note_update) c
]

note_debug-IsCollected :
    (item : Bytes) (nv : NewValue) (s : Pass) → IsCollected s → IsCollected (note_debug item nv s)
unfolding note_debug
note_debug-IsCollected item nv s c = elim (Bool-cases (is_none nv.c_err && nv.is_debug_value)) [
  | inl e ↦
      rw (e, note_debug) (record { distinct = c.distinct; kept = c.kept; overall = c.overall })
  | inr e ↦ rw (e, note_debug) c
]

note_failure-IsCollected :
    (item : Bytes) (nv : NewValue) (s : Pass) → IsCollected s → IsCollected (note_failure item nv s)
unfolding note_failure
note_failure-IsCollected item nv s c =
    elim (Bool-cases (not (is_none nv.c_err) || not nv.new_version_checked)) [
      | inl e ↦
          rw (e, note_failure)
            (record { distinct = c.distinct; kept = c.kept; overall = c.overall })
      | inr e ↦ rw (e, note_failure) c
    ]

note_registered-IsCollected :
    (item : Bytes) (nv : NewValue) (s : Pass)
    → IsCollected s
    → IsCollected (note_registered item nv s)
unfolding note_registered
note_registered-IsCollected item nv s c = elim (Bool-cases (is_none nv.c_err)) [
  | inl e ↦
      rw (e, note_registered) (record { distinct = c.distinct; kept = c.kept; overall = c.overall })
  | inr e ↦ rw (e, note_registered) c
]

noted : Bytes → NewValue → Pass → Pass
noted item nv s =
    note_failure item nv (note_debug item nv (note_update item nv (keep_value item nv s)))

noted-IsCollected :
    (item : Bytes) (nv : NewValue) (s : Pass) → IsCollected s → IsCollected (noted item nv s)
unfolding noted
noted-IsCollected item nv s c =
    note_failure-IsCollected item nv
      (note_debug item nv (note_update item nv (keep_value item nv s)))
      (note_debug-IsCollected item nv (note_update item nv (keep_value item nv s)) (
        note_update-IsCollected item nv (keep_value item nv s) (keep_value-IsCollected item nv s c)
          (elim (Bool-cases (is_none nv.c_err)) [
            | inl e ↦ ground (arith, keep_value-contains item nv s e)
            | inr e ↦ ground (arith, e)
          ])))

-- The flag of a file does not matter.
flag-IsCollected :
    (s : Pass) (b : Bool) → IsCollected s → IsCollected (record s { schema_contains_update = b })
flag-IsCollected s b c = record { distinct = c.distinct; kept = c.kept; overall = c.overall }

panicked-IsCollected : (s : Pass) → IsCollected s → IsCollected (record s { panicked = true })
panicked-IsCollected s c = record { distinct = c.distinct; kept = c.kept; overall = c.overall }

note_item-IsCollected :
    (item : Bytes) (nv : NewValue) (s : Pass) → IsCollected s → IsCollected (note_item item nv s)
unfolding note_item noted
note_item-IsCollected item nv s c = elim (Bool-cases (is_panic_of nv)) [
  | inl e ↦ rw (e, note_item) (panicked-IsCollected s c)
  | inr e ↦ rw (e, note_item) (noted-IsCollected item nv s c)
]

note_registered_item-IsCollected :
    (item : Bytes) (nv : NewValue) (s : Pass)
    → IsCollected s
    → IsCollected (note_registered_item item nv s)
unfolding note_registered_item
note_registered_item-IsCollected item nv s c = elim (Bool-cases (is_panic_of nv)) [
  | inl e ↦ rw (e, note_registered_item) (panicked-IsCollected s c)
  | inr e ↦
      rw (e, note_registered_item)
        (note_failure-IsCollected item nv (note_registered item nv (keep_value item nv s)) (
          note_registered-IsCollected item nv (keep_value item nv s)
            (keep_value-IsCollected item nv s c)))
]

compiled_as-IsCollected :
    (failed : Option Bool) (path : Bytes) (s : Pass)
    → IsCollected s
    → IsCollected (compiled_as failed path s)
unfolding compiled_as
compiled_as-IsCollected none path s c = panicked-IsCollected s c
compiled_as-IsCollected (some f) path s c = record {
  distinct = c.distinct;
  kept = c.kept;
  overall = c.overall;
}

if-IsCollected :
    (b : Bool) (x y : Pass × Values)
    → IsCollected x.0
    → IsCollected y.0
    → IsCollected (if b then x else y).0
if-IsCollected true x y c d = c
if-IsCollected false x y c d = d

item_step-IsCollected :
    (o : Outside) (root path item : Bytes) (s : Pass) (v : Values)
    → IsCollected s
    → IsCollected (item_step o root path item (s, v)).0
unfolding item_step
item_step-IsCollected o root path item s v c =
    let r = get_new_value_of_config o.env (o.reply item) (o.debug item path) item v in
    if-IsCollected s.panicked (s, v) _ c
      (if-IsCollected (in_array_string s.items_has_update item && not o.env.dev_mode) _ _
        (flag-IsCollected s true c)
        (if-IsCollected
          (o.env.dev_mode || (concerns root item && not (exists_in_map s.encrypted item)))
          (note_item item r.0 s, r.1) (s, v) (note_item-IsCollected item r.0 s c) c))

items_loop-IsCollected :
    (o : Outside) (root path : Bytes) (items : List Bytes) (s : Pass) (v : Values)
    → IsCollected s
    → IsCollected (items_loop o root path items (s, v)).0
unfolding items_loop
items_loop-IsCollected o root path [] s v c = c
items_loop-IsCollected o root path (item ∷ items) s v c =
    let r = item_step o root path item (s, v) in
    items_loop-IsCollected o root path items r.0 r.1 (item_step-IsCollected o root path item s v c)

compile_step-IsCollected :
    (o : Outside) (force : Bool) (path : Bytes) (s : Pass) (v : Values)
    → IsCollected s
    → IsCollected (compile_step o force path (s, v)).0
unfolding compile_step
compile_step-IsCollected o force path s v c =
    if-IsCollected (not s.panicked && (force || s.schema_contains_update)) _ (s, v)
      (if-IsCollected (is_compilable path) _ _
        (compiled_as-IsCollected (o.compile s.serialized path v).0 path s c)
        (record { distinct = c.distinct; kept = c.kept; overall = c.overall }))
      c

schema_step_parsed :
    (o : Outside) (root : Bytes) (force : Bool) (path : Bytes) (content : Option Bytes)
    (items : Option (List Bytes)) (s : Pass) (v : Values)
    → parse_items content ≡ items
    → IsCollected s
    → IsCollected (schema_step o root force (path, content) (s, v)).0
unfolding schema_step
schema_step_parsed o root force path content none s v e c =
    rw (schema_step, e)
      (if-IsCollected s.panicked (s, v) _ c
        (record { distinct = c.distinct; kept = c.kept; overall = c.overall }))
schema_step_parsed o root force path content (some items) s v e c =
    let r = items_loop o root path items (record s { schema_contains_update = false }, v) in
    rw (schema_step, e)
      (if-IsCollected s.panicked (s, v) _ c
        (compile_step-IsCollected o force path r.0 r.1 (
          items_loop-IsCollected o root path items (record s { schema_contains_update = false }) v
            (flag-IsCollected s false c))))

pub schemas_loop-IsCollected :
    (o : Outside) (root : Bytes) (force : Bool) (files : List (Bytes × Option Bytes)) (s : Pass)
    (v : Values)
    → IsCollected s
    → IsCollected (schemas_loop o root force files (s, v)).0
unfolding schemas_loop
schemas_loop-IsCollected o root force [] s v c = c
schemas_loop-IsCollected o root force ((path, content) ∷ files) s v c =
    let r = schema_step o root force (path, content) (s, v) in
    schemas_loop-IsCollected o root force files r.0 r.1
      (schema_step_parsed o root force path content (parse_items content) s v refl c)

pub registered_loop-IsCollected :
    (o : Outside) (root : Bytes) (items : List Bytes) (s : Pass) (v : Values)
    → IsCollected s
    → IsCollected (registered_loop o root items (s, v)).0
unfolding registered_loop
registered_loop-IsCollected o root [] s v c = c
registered_loop-IsCollected o root (item ∷ items) s v c =
    let r = get_new_value_of_config o.env (o.reply item) (o.debug item []) item v in
    let next : Pass × Values =
      if not s.panicked && (concerns root item && not (exists_in_map s.encrypted item))
      then (note_registered_item item r.0 s, r.1)
      else (s, v) in
    registered_loop-IsCollected o root items next.0 next.1 (
      if-IsCollected
        (not s.panicked && (concerns root item && not (exists_in_map s.encrypted item))) _ (s, v)
        (note_registered_item-IsCollected item r.0 s c) c)
