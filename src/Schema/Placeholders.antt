-- ===== src/Schema/Placeholders.antt =====
-- What configschema/configschema.go finds in a schema file.
use dove.Base.{
  ℕ, zero, suc, ◌≤◌, ◌≡◌, refl, ap, ◌∙◌, ◌≢◌, true, false, none, some, List, [], ◌∷◌, ◌++◌, map,
  append_assoc, arith, length, length-append, All, Bytes, codes, nat_eq, bytes_eq, contains,
}
use dove.Base.Text.{has_prefix, trim, trim_left, trim_right}
use dove.Util.{append_all_missing}
use dove.Schema.{
  is_word, is_name_byte, open_tag, close_tag, name_run, last_is_word, is_name, match_placeholder,
  find_all, trim_item, parse_items, parse_item_placeholders,
}

-- A name that the regular expression matches as a whole.
pub record IsItem (name : Bytes) : Type 0 where
  pub bytes : All (λ c. is_name_byte c ≡ true) name
  pub ends : is_name name ≡ true

abbrev pub placeholder : Bytes → Bytes
placeholder name = open_tag ++ (name ++ close_tag)

-- A text: placeholders, each with text behind it that holds no quote.
abbrev pub render : List (Bytes × Bytes) → Bytes
render [] = []
render ((name, filler) ∷ segs) = placeholder name ++ (filler ++ render segs)

abbrev pub item_names : List (Bytes × Bytes) → List Bytes
item_names [] = []
item_names ((name, filler) ∷ segs) = name ∷ item_names segs

abbrev pub IsSegment : Bytes × Bytes → Type 0
IsSegment seg = IsItem seg.0 × All (λ c. c ≢ b'"') seg.1

name_run-append :
    (name rest : Bytes)
    → All (λ c. is_name_byte c ≡ true) name
    → name_run (name ++ b'}' ∷ rest) ≡ (name, b'}' ∷ rest)
unfolding name_run
name_run-append [] rest h = refl
name_run-append (c ∷ name) rest h = rw (h.0, name_run-append name rest h.1)

match-placeholder :
    (name rest : Bytes)
    → IsItem name
    → match_placeholder (placeholder name ++ rest) ≡ some (placeholder name, rest)
unfolding match_placeholder has_prefix
match-placeholder name rest h =
    rw (append_assoc name close_tag rest, name_run-append name (b'"' ∷ rest) h.bytes, h.ends)

-- A byte of a word is none of the bytes that `trim_item` cuts off.
word-not-cut : (c : ℕ) → is_word c ≡ true → contains (codes "\"#{}") c ≡ false
unfolding is_word contains
word-not-cut c h = ground arith

trim_right-append :
    (name : Bytes)
    → last_is_word name ≡ true
    → trim_right (name ++ close_tag) (codes "\"#{}") ≡ name
unfolding trim_right last_is_word contains
trim_right-append [] h = cc
trim_right-append (c ∷ []) h = ground (arith, word-not-cut c h)
trim_right-append (c ∷ d ∷ name) h = ground (arith, trim_right-append (d ∷ name) h)

trim_left-placeholder :
    (c : ℕ) (s : Bytes) → is_word c ≡ true → trim_left (open_tag ++ c ∷ s) (codes "\"#{}") ≡ c ∷ s
unfolding trim_left contains
trim_left-placeholder c s h = ground (arith, word-not-cut c h)

is_name-parts :
    (c : ℕ) (s : Bytes)
    → is_name (c ∷ s) ≡ true
    → (is_word c ≡ true) × (last_is_word (c ∷ s) ≡ true)
unfolding is_name
is_name-parts c s h = ground arith

trim_item-placeholder : (name : Bytes) → IsItem name → trim_item (placeholder name) ≡ name
unfolding trim_item trim is_name
trim_item-placeholder [] h = cc h.ends
trim_item-placeholder (c ∷ name) h =
    let (starts, stops) = is_name-parts c name h.ends in
    rw (trim_left-placeholder c (name ++ close_tag) starts) (trim_right-append (c ∷ name) stops)

match_no_quote : (c : ℕ) (s : Bytes) → c ≢ b'"' → match_placeholder (c ∷ s) ≡ none
unfolding match_placeholder has_prefix
match_no_quote c s h = ground arith

-- The scan of a text that starts with bytes which are no quotes.
find_all-render :
    (fuel : ℕ) (filler : Bytes) (segs : List (Bytes × Bytes))
    → All (λ c. c ≢ b'"') filler
    → All IsSegment segs
    → length (filler ++ render segs) ≤ fuel
    → find_all fuel (filler ++ render segs) ≡ map placeholder (item_names segs)
unfolding find_all
find_all-render zero [] [] hf hs h = refl
find_all-render zero [] (seg ∷ segs) hf hs h = absurd (omega arith)
find_all-render zero (c ∷ filler) segs hf hs h = absurd (omega arith)
find_all-render (suc fuel) [] [] hf hs h = refl
find_all-render (suc fuel) (c ∷ filler) segs hf hs h =
    rw (match_no_quote c (filler ++ render segs) hf.0, find_all)
      (find_all-render fuel filler segs hf.1 hs (omega arith))
find_all-render (suc fuel) [] ((name, filler) ∷ segs) hf hs h =
    rw (match-placeholder name (filler ++ render segs) hs.0.0, find_all)
      (ap (λ l. placeholder name ∷ l)
        (find_all-render fuel filler segs hs.0.1 hs.1
          (omega (arith, length-append (name ++ close_tag) (filler ++ render segs)))))

map-trim_item :
    (segs : List (Bytes × Bytes))
    → All IsSegment segs
    → map trim_item (map placeholder (item_names segs)) ≡ item_names segs
map-trim_item [] h = refl
map-trim_item ((name, filler) ∷ segs) h =
    cc (trim_item-placeholder name h.0.0, map-trim_item segs h.1)

-- The items of a text are exactly the names of its placeholders, each once, in the order in which
-- they first stand there, when no quote stands outside the placeholders.
pub parse_items-render :
    (lead : Bytes) (segs : List (Bytes × Bytes))
    → All (λ c. c ≢ b'"') lead
    → All IsSegment segs
    → parse_items (some (lead ++ render segs)) ≡ some (append_all_missing [] (item_names segs))
unfolding parse_items parse_item_placeholders
parse_items-render lead segs hl h =
    let text = lead ++ render segs in
    ap (λ l. some (append_all_missing [] l))
      (ap (map trim_item) (find_all-render (length text) lead segs hl h (omega arith))
        ∙ map-trim_item segs h)
