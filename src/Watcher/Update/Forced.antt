-- ===== src/Watcher/Update/Forced.antt =====
-- Which schema files a forced update hands to the callbacks: configwatcher/zk_watcher.go.
use dove.Base.{
  ◌≡◌, refl, sym, ap, ◌∙◌, inl, inr, Bool, true, false, not, ◌&&◌, ◌||◌, Option, none, some, List,
  [], ◌∷◌, ◌++◌, arith, if◌then◌else◌, Bool-cases, Option-cases, Bytes, nat_eq, bytes_eq, beq_refl,
  contains, contains-append,
}
use dove.Callbacks.{Pending, add_updated_schemafiles, add_updated_nodes}
use dove.Util.Arrays.{contains-append_missing}
use dove.Schema.{parse_items}
use dove.Util.{exists_in_map}
use dove.Projconfig.Local.{Values}
use dove.Watcher.NewValue.{NewValue, get_new_value_of_config}
use dove.Watcher.Update.{
  Outside, Pass, Watcher, first_pass, keep_value, note_failure, note_update, note_debug, item_step,
  items_loop, compile_step, schema_step, schemas_loop, note_registered, registered_loop, concerns,
  is_compilable, note_all, update_by_root_node, note_item, note_registered_item, compiled_as,
}

note_item-files :
    (item : Bytes) (nv : NewValue) (s : Pass)
    → (note_item item nv s).compiled_files ≡ s.compiled_files
unfolding note_item keep_value note_failure note_update note_debug
note_item-files item nv s = ground arith

note_registered_item-files :
    (item : Bytes) (nv : NewValue) (s : Pass)
    → (note_registered_item item nv s).compiled_files ≡ s.compiled_files
unfolding note_registered_item keep_value note_failure note_registered
note_registered_item-files item nv s = ground arith

item_step-files :
    (o : Outside) (root path item : Bytes) (s : Pass) (v : Values)
    → (item_step o root path item (s, v)).0.compiled_files ≡ s.compiled_files
unfolding item_step
item_step-files o root path item s v =
    let r = get_new_value_of_config o.env (o.reply item) (o.debug item path) item v in
    ground (arith, note_item-files item r.0 s)

items_loop-files :
    (o : Outside) (root path : Bytes) (items : List Bytes) (s : Pass) (v : Values)
    → (items_loop o root path items (s, v)).0.compiled_files ≡ s.compiled_files
unfolding items_loop
items_loop-files o root path [] s v = refl
items_loop-files o root path (item ∷ items) s v =
    let r = item_step o root path item (s, v) in
    items_loop-files o root path items r.0 r.1 ∙ item_step-files o root path item s v

registered_loop-files :
    (o : Outside) (root : Bytes) (items : List Bytes) (s : Pass) (v : Values)
    → (registered_loop o root items (s, v)).0.compiled_files ≡ s.compiled_files
unfolding registered_loop
registered_loop-files o root [] s v = refl
registered_loop-files o root (item ∷ items) s v =
    let r = get_new_value_of_config o.env (o.reply item) (o.debug item []) item v in
    let next : Pass × Values =
      if not s.panicked && (concerns root item && not (exists_in_map s.encrypted item))
      then (note_registered_item item r.0 s, r.1)
      else (s, v) in
    registered_loop-files o root items next.0 next.1
    ∙ ground (arith, note_registered_item-files item r.0 s)

registered_loop-panicked :
    (o : Outside) (root : Bytes) (items : List Bytes) (s : Pass) (v : Values)
    → s.panicked ≡ true
    → registered_loop o root items (s, v) ≡ (s, v)
unfolding registered_loop
registered_loop-panicked o root [] s v h = refl
registered_loop-panicked o root (item ∷ items) s v h =
    let r = get_new_value_of_config o.env (o.reply item) (o.debug item []) item v in
    let next : Pass × Values = (note_registered_item item r.0 s, r.1) in
    let cond = concerns root item && not (exists_in_map s.encrypted item) in
    ap (λ b. registered_loop o root items (if not b && cond then next else (s, v))) h
    ∙ registered_loop-panicked o root items s v h

schema_step-panicked :
    (o : Outside) (root : Bytes) (force : Bool) (file : Bytes × Option Bytes) (s : Pass)
    (v : Values)
    → s.panicked ≡ true
    → schema_step o root force file (s, v) ≡ (s, v)
unfolding schema_step
schema_step-panicked o root force (path, content) s v h = rw (schema_step, h) refl

schemas_loop-panicked :
    (o : Outside) (root : Bytes) (force : Bool) (files : List (Bytes × Option Bytes)) (s : Pass)
    (v : Values)
    → s.panicked ≡ true
    → schemas_loop o root force files (s, v) ≡ (s, v)
unfolding schemas_loop
schemas_loop-panicked o root force [] s v h = refl
schemas_loop-panicked o root force (file ∷ files) s v h =
    ap (schemas_loop o root force files) (schema_step-panicked o root force file s v h)
    ∙ schemas_loop-panicked o root force files s v h

-- A pass that ends without a panic has met none.
schemas_loop-lived :
    (o : Outside) (root : Bytes) (force : Bool) (files : List (Bytes × Option Bytes)) (s : Pass)
    (v : Values)
    → (schemas_loop o root force files (s, v)).0.panicked ≡ false
    → s.panicked ≡ false
schemas_loop-lived o root force files s v h = elim (Bool-cases s.panicked) [
  | inl p ↦ absurd (
      ground (arith, h, p, ap (λ r. r.0.panicked) (schemas_loop-panicked o root force files s v p)))
  | inr l ↦ l
]

registered_loop-lived :
    (o : Outside) (root : Bytes) (items : List Bytes) (s : Pass) (v : Values)
    → (registered_loop o root items (s, v)).0.panicked ≡ false
    → s.panicked ≡ false
registered_loop-lived o root items s v h = elim (Bool-cases s.panicked) [
  | inl p ↦
      absurd
        (ground (arith, h, p, ap (λ r. r.0.panicked) (registered_loop-panicked o root items s v p)))
  | inr l ↦ l
]

compile_step-lived :
    (o : Outside) (force : Bool) (path : Bytes) (s : Pass) (v : Values)
    → (compile_step o force path (s, v)).0.panicked ≡ false
    → s.panicked ≡ false
unfolding compile_step
compile_step-lived o force path s v h = elim (Bool-cases s.panicked) [
  | inl p ↦ absurd (ground (arith, h, p))
  | inr l ↦ l
]

compiled_as-keeps :
    (failed : Option Bool) (path a : Bytes) (s : Pass)
    → contains s.compiled_files a ≡ true
    → contains (compiled_as failed path s).compiled_files a ≡ true
unfolding compiled_as
compiled_as-keeps none path a s h = h
compiled_as-keeps (some f) path a s h =
    ground (arith, h, contains-append s.compiled_files (path ∷ []) a)

compile_step-keeps :
    (o : Outside) (force : Bool) (path a : Bytes) (s : Pass) (v : Values)
    → contains s.compiled_files a ≡ true
    → contains (compile_step o force path (s, v)).0.compiled_files a ≡ true
unfolding compile_step
compile_step-keeps o force path a s v h =
    ground (arith, h, compiled_as-keeps (o.compile s.serialized path v).0 path a s h)

-- A file stays among those that are compiled.
schema_step-keeps :
    (o : Outside) (root : Bytes) (force : Bool) (path a : Bytes) (content : Option Bytes) (s : Pass)
    (v : Values)
    → contains s.compiled_files a ≡ true
    → contains (schema_step o root force (path, content) (s, v)).0.compiled_files a ≡ true
unfolding schema_step
schema_step-keeps o root force path a content s v h = elim (Option-cases (parse_items content)) [
  | inl e ↦ rw (schema_step, e) (ground (arith, h))
  | inr (items, e) ↦
      let start : Pass = record s { schema_contains_update = false } in
      let r = items_loop o root path items (start, v) in
      let kept =
        compile_step-keeps o force path a r.0 r.1
          (ap (λ l. contains l a) (items_loop-files o root path items start v) ∙ h) in
      rw (schema_step, e) (ground (arith, h, kept))
]

schemas_loop-keeps :
    (o : Outside) (root : Bytes) (force : Bool) (files : List (Bytes × Option Bytes)) (a : Bytes)
    (s : Pass) (v : Values)
    → contains s.compiled_files a ≡ true
    → contains (schemas_loop o root force files (s, v)).0.compiled_files a ≡ true
unfolding schemas_loop
schemas_loop-keeps o root force [] a s v h = h
schemas_loop-keeps o root force ((path, content) ∷ files) a s v h =
    let r = schema_step o root force (path, content) (s, v) in
    schemas_loop-keeps o root force files a r.0 r.1
      (schema_step-keeps o root force path a content s v h)

compiled_as-adds :
    (failed : Option Bool) (path : Bytes) (s : Pass)
    → (compiled_as failed path s).panicked ≡ false
    → contains (compiled_as failed path s).compiled_files path ≡ true
unfolding compiled_as contains
compiled_as-adds none path s l = absurd (ground (arith, l))
compiled_as-adds (some f) path s l =
    ground (arith, contains-append s.compiled_files (path ∷ []) path, beq_refl path)

compile_step-adds :
    (o : Outside) (path : Bytes) (s : Pass) (v : Values)
    → is_compilable path ≡ true
    → (compile_step o true path (s, v)).0.panicked ≡ false
    → contains (compile_step o true path (s, v)).0.compiled_files path ≡ true
unfolding compile_step
compile_step-adds o path s v h l =
    let d = compile_step-lived o true path s v l in
    let failed = (o.compile s.serialized path v).0 in
    let done : (compile_step o true path (s, v)).0 ≡ compiled_as failed path s =
      rw (compile_step, d, h) refl in
    ap (λ t. contains t.compiled_files path) done
    ∙ compiled_as-adds failed path s (ap (λ t. t.panicked) (sym done) ∙ l)

schema_step-adds :
    (o : Outside) (root path : Bytes) (content : Option Bytes) (items : List Bytes) (s : Pass)
    (v : Values)
    → is_compilable path ≡ true
    → parse_items content ≡ some items
    → (schema_step o root true (path, content) (s, v)).0.panicked ≡ false
    → contains (schema_step o root true (path, content) (s, v)).0.compiled_files path ≡ true
unfolding schema_step
schema_step-adds o root path content items s v h e l =
    let r = items_loop o root path items (record s { schema_contains_update = false }, v) in
    elim (Bool-cases s.panicked) [
      | inl p ↦ absurd (
          ground (
            arith,
            l,
            p,
            ap (λ x. x.0.panicked) (schema_step-panicked o root true (path, content) s v p),
          ))
      | inr d ↦
          let parsed : schema_step o root true (path, content) (s, v)
              ≡ (if s.panicked then (s, v) else compile_step o true path r) =
            rw (schema_step, e) refl in
          let done : schema_step o root true (path, content) (s, v) ≡ compile_step o true path r =
            parsed ∙ ap (λ b. if b then (s, v) else compile_step o true path r) d in
          ap (λ x. contains x.0.compiled_files path) done
          ∙ compile_step-adds o path r.0 r.1 h (ap (λ x. x.0.panicked) (sym done) ∙ l)
    ]

schemas_loop-adds :
    (o : Outside) (root : Bytes) (before after : List (Bytes × Option Bytes)) (path : Bytes)
    (content : Option Bytes) (items : List Bytes) (s : Pass) (v : Values)
    → is_compilable path ≡ true
    → parse_items content ≡ some items
    → (schemas_loop o root true (before ++ (path, content) ∷ after) (s, v)).0.panicked ≡ false
    → contains
        (schemas_loop o root true (before ++ (path, content) ∷ after) (s, v)).0.compiled_files
        path
      ≡ true
unfolding schemas_loop
schemas_loop-adds o root [] after path content items s v h e l =
    let r = schema_step o root true (path, content) (s, v) in
    schemas_loop-keeps o root true after path r.0 r.1 (
      schema_step-adds o root path content items s v h e
        (schemas_loop-lived o root true after r.0 r.1 l))
schemas_loop-adds o root ((f, c) ∷ before) after path content items s v h e l =
    let r = schema_step o root true (f, c) (s, v) in
    schemas_loop-adds o root before after path content items r.0 r.1 h e l

add_updated_nodes-files :
    (nodes : List Bytes) (p : Pending) (a : Bytes)
    → contains (add_updated_nodes nodes p).updated_schema_files a
      ≡ contains p.updated_schema_files a
unfolding add_updated_nodes
add_updated_nodes-files nodes p a = ground arith

note_all-contains :
    (files : List Bytes) (p : Pending) (a : Bytes)
    → contains (note_all files p).updated_schema_files a
      ≡ (contains p.updated_schema_files a || contains files a)
unfolding note_all add_updated_schemafiles contains
note_all-contains [] p a = ground arith
note_all-contains (f ∷ files) p a = ground (
  arith,
  note_all-contains files (add_updated_schemafiles f p) a,
  contains-append_missing p.updated_schema_files f a,
)

-- A forced update that does not panic hands every schema file of a known type that can be read and parsed
-- to the callbacks, whether its compilation fails or not.
pub update_by_root_node-forced :
    (o : Outside) (root : Bytes) (before after : List (Bytes × Option Bytes)) (path : Bytes)
    (content : Option Bytes) (items registered : List Bytes) (w w' : Watcher) (s : Pass)
    → is_compilable path ≡ true
    → parse_items content ≡ some items
    → update_by_root_node o root true (before ++ (path, content) ∷ after) registered w
      ≡ some (s, w')
    → contains w'.pending.updated_schema_files path ≡ true
unfolding update_by_root_node
update_by_root_node-forced o root before after path content items registered w w' s h e u =
    let r = schemas_loop o root true (before ++ (path, content) ∷ after) (first_pass, w.values) in
    let t = registered_loop o root registered r in
    elim (Bool-cases t.0.panicked) [
      | inl p ↦ absurd (ground (arith, u, p))
      | inr l ↦
          let lived : r.0.panicked ≡ false = registered_loop-lived o root registered r.0 r.1 l in
          let done : w'.pending
              ≡ add_updated_nodes t.0.items_has_update (note_all t.0.compiled_files w.pending) =
            ground (arith, u, l) in
          ap (λ x. contains x.updated_schema_files path) done
          ∙ add_updated_nodes-files t.0.items_has_update (note_all t.0.compiled_files w.pending)
              path
          ∙ note_all-contains t.0.compiled_files w.pending path
          ∙ ground (
            arith,
            registered_loop-files o root registered r.0 r.1,
            schemas_loop-adds o root before after path content items first_pass w.values h e lived,
          )
    ]
