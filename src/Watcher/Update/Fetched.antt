-- ===== src/Watcher/Update/Fetched.antt =====
-- That the values which updateProjectConfigByRootNode of configwatcher/zk_watcher.go collects are those of
-- GetNewValueOfConfig.
use dove.Base.{
  ◌≡◌, sym, inl, inr, Bool, true, false, not, ◌&&◌, ◌||◌, Option, none, some, List, [], ◌∷◌, arith,
  if◌then◌else◌, Bool-cases, Option-cases, ◌==◌, Bytes, bytes_beq_iff, nat_eq, bytes_eq,
}
use mathlib.Core.Path.{subst}
use dove.Base.Dict.{Dict, lookup, lookup-insert}
use dove.Schema.{parse_items}
use dove.Util.{in_array_string, exists_in_map}
use dove.Projconfig.Local.{Values}
use dove.Watcher.NewValue.{NewValue, get_new_value_of_config}
use dove.Watcher.Update.{
  Outside, Pass, keep_value, note_failure, note_update, note_debug, item_step, items_loop,
  compile_step, schema_step, schemas_loop, note_registered, registered_loop, concerns, note_item,
  note_registered_item, is_panic_of, compiled_as,
}

-- The JSON is that of a value which GetNewValueOfConfig gave for the name without an error.
abbrev pub IsFetched : Outside → Bytes → Option Bytes → Type 0
IsFetched o a json =
    (path : Bytes) × (v : Values) × ((get_new_value_of_config o.env (o.reply a) (o.debug a path) a
        v).0.c_err
      ≡ none)
    × ((get_new_value_of_config o.env (o.reply a) (o.debug a path) a v).0.value_serialized ≡ json)

pub record AreFetched (o : Outside) (m : Dict Bytes (Option Bytes)) : Type 0 where
  pub fetched : (a : Bytes) (json : Option Bytes) → lookup a m ≡ some json → IsFetched o a json

pub none-AreFetched : {o : Outside} → AreFetched o []
unfolding lookup
none-AreFetched = record { fetched = λ a json e. cc e }

keep_value-AreFetched :
    (o : Outside) (path item : Bytes) (v : Values) (s : Pass)
    → AreFetched o s.serialized
    → AreFetched o
        (keep_value item
          (get_new_value_of_config o.env (o.reply item) (o.debug item path) item v).0
          s).serialized
unfolding keep_value
keep_value-AreFetched o path item v s c =
    let nv = (get_new_value_of_config o.env (o.reply item) (o.debug item path) item v).0 in
    elim (Option-cases nv.c_err) [
      | inr (x, e) ↦ rw (e, keep_value) c
      | inl e ↦
          rw (e, keep_value)
            (record {
              fetched = λ a json f. elim (Bool-cases (item == a)) [
                | inl y ↦
                    let same : item ≡ a = (bytes_beq_iff item a).0 y in
                    let value : nv.value_serialized ≡ json =
                      ground (arith, y, f, lookup-insert item a nv.value_serialized s.serialized) in
                    subst (λ b. IsFetched o b json) same (path, v, e, value)
                | inr n ↦
                    c.fetched a json
                      (ground (arith, n, f, lookup-insert item a nv.value_serialized s.serialized))
              ];
            })
    ]

note_item-serialized :
    (item : Bytes) (nv : NewValue) (s : Pass)
    → (note_item item nv s).serialized
      ≡ (if is_panic_of nv then s.serialized else (keep_value item nv s).serialized)
unfolding note_item note_failure note_debug note_update
note_item-serialized item nv s = ground arith

note_registered_item-serialized :
    (item : Bytes) (nv : NewValue) (s : Pass)
    → (note_registered_item item nv s).serialized
      ≡ (if is_panic_of nv then s.serialized else (keep_value item nv s).serialized)
unfolding note_registered_item note_failure note_registered
note_registered_item-serialized item nv s = ground arith

if-AreFetched :
    (o : Outside) (b : Bool) (x y : Dict Bytes (Option Bytes))
    → AreFetched o x
    → AreFetched o y
    → AreFetched o (if b then x else y)
if-AreFetched o true x y c d = c
if-AreFetched o false x y c d = d

pass-AreFetched :
    (o : Outside) (b : Bool) (x y : Pass × Values)
    → AreFetched o x.0.serialized
    → AreFetched o y.0.serialized
    → AreFetched o (if b then x else y).0.serialized
pass-AreFetched o true x y c d = c
pass-AreFetched o false x y c d = d

item_step-AreFetched :
    (o : Outside) (root path item : Bytes) (s : Pass) (v : Values)
    → AreFetched o s.serialized
    → AreFetched o (item_step o root path item (s, v)).0.serialized
unfolding item_step
item_step-AreFetched o root path item s v c =
    let r = get_new_value_of_config o.env (o.reply item) (o.debug item path) item v in
    pass-AreFetched o s.panicked (s, v) _ c
      (pass-AreFetched o (in_array_string s.items_has_update item && not o.env.dev_mode) _ _ c (
        pass-AreFetched o
          (o.env.dev_mode || (concerns root item && not (exists_in_map s.encrypted item)))
          (note_item item r.0 s, r.1) (s, v)
          (subst (AreFetched o) (sym (note_item-serialized item r.0 s))
            (if-AreFetched o (is_panic_of r.0) _ _ c (keep_value-AreFetched o path item v s c)))
          c))

items_loop-AreFetched :
    (o : Outside) (root path : Bytes) (items : List Bytes) (s : Pass) (v : Values)
    → AreFetched o s.serialized
    → AreFetched o (items_loop o root path items (s, v)).0.serialized
unfolding items_loop
items_loop-AreFetched o root path [] s v c = c
items_loop-AreFetched o root path (item ∷ items) s v c =
    let r = item_step o root path item (s, v) in
    items_loop-AreFetched o root path items r.0 r.1 (item_step-AreFetched o root path item s v c)

compile_step-serialized :
    (o : Outside) (force : Bool) (path : Bytes) (s : Pass) (v : Values)
    → (compile_step o force path (s, v)).0.serialized ≡ s.serialized
unfolding compile_step compiled_as
compile_step-serialized o force path s v = ground arith

schema_step-AreFetched :
    (o : Outside) (root : Bytes) (force : Bool) (path : Bytes) (content : Option Bytes) (s : Pass)
    (v : Values)
    → AreFetched o s.serialized
    → AreFetched o (schema_step o root force (path, content) (s, v)).0.serialized
unfolding schema_step
schema_step-AreFetched o root force path content s v c = elim (Option-cases (parse_items content)) [
  | inl e ↦ rw (schema_step, e) (pass-AreFetched o s.panicked (s, v) _ c c)
  | inr (items, e) ↦
      let start : Pass = record s { schema_contains_update = false } in
      let r = items_loop o root path items (start, v) in
      rw (schema_step, e)
        (pass-AreFetched o s.panicked (s, v) _ c
          (subst (AreFetched o) (sym (compile_step-serialized o force path r.0 r.1))
            (items_loop-AreFetched o root path items start v c)))
]

pub schemas_loop-AreFetched :
    (o : Outside) (root : Bytes) (force : Bool) (files : List (Bytes × Option Bytes)) (s : Pass)
    (v : Values)
    → AreFetched o s.serialized
    → AreFetched o (schemas_loop o root force files (s, v)).0.serialized
unfolding schemas_loop
schemas_loop-AreFetched o root force [] s v c = c
schemas_loop-AreFetched o root force ((path, content) ∷ files) s v c =
    let r = schema_step o root force (path, content) (s, v) in
    schemas_loop-AreFetched o root force files r.0 r.1
      (schema_step-AreFetched o root force path content s v c)

pub registered_loop-AreFetched :
    (o : Outside) (root : Bytes) (items : List Bytes) (s : Pass) (v : Values)
    → AreFetched o s.serialized
    → AreFetched o (registered_loop o root items (s, v)).0.serialized
unfolding registered_loop
registered_loop-AreFetched o root [] s v c = c
registered_loop-AreFetched o root (item ∷ items) s v c =
    let r = get_new_value_of_config o.env (o.reply item) (o.debug item []) item v in
    let go = not s.panicked && (concerns root item && not (exists_in_map s.encrypted item)) in
    let next : Pass × Values = if go then (note_registered_item item r.0 s, r.1) else (s, v) in
    registered_loop-AreFetched o root items next.0 next.1 (
      pass-AreFetched o go (note_registered_item item r.0 s, r.1) (s, v)
        (subst (AreFetched o) (sym (note_registered_item-serialized item r.0 s))
          (if-AreFetched o (is_panic_of r.0) _ _ c (keep_value-AreFetched o [] item v s c)))
        c)
