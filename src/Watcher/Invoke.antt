-- ===== src/Watcher/Invoke.antt =====
-- The callbacks and the scripts behind an update: invokeCallbacks and invokeCallbackScripts of
-- configwatcher/zk_watcher.go. How a callback and a command end is an argument.
use dove.Base.{
  ◌≡◌, refl, sym, ap, ◌∙◌, ◌≢◌, inl, inr, Option, none, some, List, [], ◌∷◌, ◌++◌, map,
  append_assoc, append-nil, Bool-cases, All, Bytes, codes, nat_eq, bytes_eq,
}
use dove.Base.Dict.{Dict, lookup, insert}
use dove.Base.Text.{fields, fields_from, emit, is_space, join}
use dove.Callbacks.{
  Pending, callback_scripts, get_customize_callbacks, get_updated_nodes, with_params,
}
use dove.Watcher.Monitor.{error_text}

script_report : Bytes → Bytes → Option Bytes → Bytes
unfolding error_text
script_report script out e = script ++ (codes ":\n" ++ (out ++ (codes "\nERR:" ++ error_text e)))

module _ {S : Type 0} where
  -- A callback gives a text and an error; `shown` is how the map of the callbacks is printed.
  unfoldable pub invoke_callbacks :
      List Bytes
      → Dict Bytes (S → (Bytes × Option Bytes) × S)
      → Bytes
      → Dict Bytes Bytes
      → S
      → Dict Bytes Bytes × S
  unfolding error_text
  invoke_callbacks [] valid_callbacks shown result s = (result, s)
  invoke_callbacks (callback ∷ callbacks) valid_callbacks shown result s =
      elim (lookup callback valid_callbacks) [
        | none ↦
            invoke_callbacks callbacks valid_callbacks shown
              (insert callback
                (codes "Invalid callback["
                  ++ (callback
                      ++ (codes "], available callbacks are["
                          ++ (shown ++ codes "], please check your client configs."))))
                result)
              s
        | some cb ↦
            let ((re, e), s') = cb s in
            invoke_callbacks callbacks valid_callbacks shown
              (insert callback (re ++ (codes "\n" ++ error_text e)) result) s'
      ]

  -- `none` is a panic: a script of space alone has no first word.
  unfoldable pub run_scripts :
      (Bytes → List Bytes → S → (Bytes × Option Bytes) × S)
      → List Bytes
      → Dict Bytes Bytes
      → S
      → Option (Dict Bytes Bytes) × S
  unfolding script_report
  run_scripts run [] result s = (some result, s)
  run_scripts run (script ∷ scripts) result s = elim (fields script) [
    | [] ↦ (none, s)
    | program ∷ params ↦
        let ((out, e), s') = run program params s in
        run_scripts run scripts (insert script (script_report script out e) result) s'
  ]

  unfoldable pub invoke_callback_scripts :
      (Bytes → List Bytes → S → (Bytes × Option Bytes) × S)
      → List Bytes
      → List (List Bytes)
      → Pending
      → S
      → Option (Dict Bytes Bytes) × Pending × S
  unfolding run_scripts
  invoke_callback_scripts run post_update_scripts rules p s =
      let (scripts, p') = callback_scripts post_update_scripts rules p in
      let (result, t) = run_scripts run scripts [] s in (result, p', t)

-- A system that notes the commands.
abbrev pub noted :
    (List Bytes → Bytes × Option Bytes)
    → Bytes
    → List Bytes
    → List (List Bytes)
    → (Bytes × Option Bytes) × List (List Bytes)
noted ends program params log = (ends (program ∷ params), log ++ (program ∷ params) ∷ [])

first_word : (ws : List Bytes) → ws ≢ [] → (w : Bytes) × (more : List Bytes) × (ws ≡ w ∷ more)
first_word [] h = absurd (h refl)
first_word (w ∷ ws) h = (w, ws, refl)

run_scripts-step :
    (ends : List Bytes → Bytes × Option Bytes) (script program : Bytes)
    (params scripts : List Bytes) (result : Dict Bytes Bytes) (log : List (List Bytes))
    → fields script ≡ program ∷ params
    → run_scripts (noted ends) (script ∷ scripts) result log
      ≡ run_scripts
          (noted ends)
          scripts
          (insert script
            (script_report script (ends (program ∷ params)).0 (ends (program ∷ params)).1)
            result)
          (log ++ (program ∷ params) ∷ [])
unfolding run_scripts
run_scripts-step ends script program params scripts result log e = rw (e, run_scripts) refl

run_scripts-commands :
    (ends : List Bytes → Bytes × Option Bytes) (scripts : List Bytes) (result : Dict Bytes Bytes)
    (log : List (List Bytes))
    → All (λ script. fields script ≢ []) scripts
    → (d : Dict Bytes Bytes) × (run_scripts (noted ends) scripts result log
        ≡ (some d, log ++ map fields scripts))
unfolding run_scripts
run_scripts-commands ends [] result log h =
    (result, ap (λ l. (some result, l)) (sym (append-nil log)))
run_scripts-commands ends (script ∷ scripts) result log h =
    let (program, params, e) = first_word (fields script) h.0 in
    let out = ends (program ∷ params) in
    let (d, f) =
      run_scripts-commands ends scripts (insert script (script_report script out.0 out.1) result)
        (log ++ (program ∷ params) ∷ []) h.1 in
    (
      d,
      run_scripts-step ends script program params scripts result log e
          ∙ f
          ∙ ap (λ l. (some d, l))
              (append_assoc log ((program ∷ params) ∷ []) (map fields scripts)
                ∙ ap (λ ws. log ++ ws ∷ map fields scripts) (sym e)),
    )

emit-append : (w : Bytes) (xs ys : List Bytes) → emit w xs ++ ys ≡ emit w (xs ++ ys)
unfolding emit
emit-append [] xs ys = refl
emit-append (c ∷ w) xs ys = refl

fields_from-space :
    (w a b : Bytes) → fields_from w (a ++ b' ' ∷ b) ≡ fields_from w a ++ fields_from [] b
unfolding fields_from
fields_from-space w [] b = sym (emit-append w [] (fields_from [] b))
fields_from-space w (c ∷ a) b = elim (Bool-cases (is_space c)) [
  | inl space ↦
      rw (space, fields_from)
        (ap (emit w) (fields_from-space [] a b)
          ∙ sym (emit-append w (fields_from [] a) (fields_from [] b)))
  | inr more ↦ rw (more, fields_from) (fields_from-space (w ++ c ∷ []) a b)
]

fields-with_params :
    (nodes script : Bytes) → fields (with_params nodes script) ≡ fields script ++ fields nodes
unfolding fields
fields-with_params nodes script = fields_from-space [] script nodes

map-with_params :
    (nodes : Bytes) (scripts more : List Bytes)
    → map fields (map (with_params nodes) scripts ++ more)
      ≡ map (λ script. fields script ++ fields nodes) scripts ++ map fields more
map-with_params nodes [] more = refl
map-with_params nodes (script ∷ scripts) more =
    cc (fields-with_params nodes script, map-with_params nodes scripts more)

-- When none of the command lines is blank, the scripts of the settings run first, in their order, each
-- with its own words and the words of the updated nodes, joined by commas, behind them; then run the
-- customised scripts, in their order. Each runs once, none is a panic, and the lists of what was
-- updated are as the customised scripts leave them.
pub invoke_callback_scripts-commands :
    (ends : List Bytes → Bytes × Option Bytes) (post : List Bytes) (rules : List (List Bytes))
    (p : Pending) (log : List (List Bytes))
    → All (λ script. fields script ≢ []) (callback_scripts post rules p).0
    → (d : Dict Bytes Bytes) × (invoke_callback_scripts (noted ends) post rules p log ≡ (
      some d,
      (get_customize_callbacks rules p).1,
      log
          ++ (map (λ script. fields script ++ fields (join (get_updated_nodes p) (codes ","))) post
              ++ map fields (get_customize_callbacks rules p).0),
    ))
unfolding invoke_callback_scripts callback_scripts
invoke_callback_scripts-commands ends post rules p log h =
    let (custom, p') = get_customize_callbacks rules p in
    let nodes = join (get_updated_nodes p) (codes ",") in
    let (d, e) = run_scripts-commands ends (callback_scripts post rules p).0 [] log h in
    (
      d,
      ap (λ r. (r.0, p', r.1)) e
          ∙ ap (λ l. (some d, p', log ++ l)) (map-with_params nodes post custom),
    )
