-- ===== src/Watcher/Compile/Replaced.antt =====
-- The replacement of one placeholder in a schema file: bytes.Replace in compileSchemaFile of
-- configwatcher/zk_watcher.go.
use dove.Base.{
  ℕ, ◌-◌, ◌<◌, ◌≡◌, refl, sym, ap, ◌∙◌, ◌≢◌, true, false, [], ◌∷◌, ◌++◌, append_assoc, arith,
  length, All, All-append, ◌==◌, Bytes, codes, bytes_beq, nat_eq, bytes_eq,
}
use dove.Base.Text.{has_prefix, replace_from}
use dove.Schema.{is_name_byte, is_word, close_tag}
use dove.Schema.Placeholders.{IsItem, placeholder}

abbrev IsPlain : Bytes → Type 0
IsPlain = All (λ c. c ≢ b'"')

-- Bytes without a quote are passed over.
pub plain :
    (t rest a new : Bytes)
    → IsPlain t
    → replace_from (placeholder a) new 0 (t ++ rest) ≡ t ++ replace_from (placeholder a) new 0 rest
unfolding replace_from has_prefix
plain [] rest a new h = refl
plain (c ∷ t) rest a new h = ground (arith, h.0, plain t rest a new h.1)

skipped :
    (t rest old new : Bytes)
    → replace_from old new (length t) (t ++ rest) ≡ replace_from old new 0 rest
unfolding replace_from
skipped [] rest old new = refl
skipped (c ∷ t) rest old new = skipped t rest old new

has_prefix_self : (p s : Bytes) → has_prefix (p ++ s) p ≡ true
unfolding has_prefix
has_prefix_self [] s = refl
has_prefix_self (c ∷ p) s = ground (arith, has_prefix_self p s)

replaced_here :
    (o : ℕ) (os new rest : Bytes)
    → replace_from (o ∷ os) new 0 ((o ∷ os) ++ rest) ≡ new ++ replace_from (o ∷ os) new 0 rest
unfolding replace_from
replaced_here o os new rest =
    let n : length (o ∷ os) - 1 ≡ length os = omega arith in
    rw (has_prefix_self (o ∷ os) rest, replace_from)
      (ap (λ k. new ++ replace_from (o ∷ os) new k (os ++ rest)) n
        ∙ ap (λ t. new ++ t) (skipped os rest (o ∷ os) new))

-- An occurrence is replaced.
pub hit :
    (a new rest : Bytes)
    → replace_from (placeholder a) new 0 (placeholder a ++ rest)
      ≡ new ++ replace_from (placeholder a) new 0 rest
hit a new rest = replaced_here b'"' (b'#' ∷ (b'{' ∷ (a ++ close_tag))) new rest

-- The placeholders of two names have no common start.
names_differ :
    (a b q r : Bytes)
    → All (λ c. c ≢ b'}') a
    → All (λ c. c ≢ b'}') b
    → (a == b) ≡ false
    → has_prefix (b ++ b'}' ∷ r) (a ++ b'}' ∷ q) ≡ false
unfolding has_prefix bytes_beq
names_differ [] [] q r ha hb e = cc
names_differ [] (c ∷ b) q r ha hb e = ground (arith, hb.0)
names_differ (x ∷ a) [] q r ha hb e = ground (arith, ha.0)
names_differ (x ∷ a) (c ∷ b) q r ha hb e = ground (arith, names_differ a b q r ha.1 hb.1)

pub name-IsPlain :
    (name : Bytes) → All (λ c. is_name_byte c ≡ true) name → All (λ c. c ≢ b'}') name × IsPlain name
unfolding is_name_byte is_word
name-IsPlain [] h = (tt, tt)
name-IsPlain (c ∷ name) h =
    let (x, y) = name-IsPlain name h.1 in ((ground (arith, h.0), x), (ground (arith, h.0), y))

-- A text that does not start with the placeholder keeps its first byte.
passed :
    (c : ℕ) (s old new : Bytes)
    → has_prefix (c ∷ s) old ≡ false
    → replace_from old new 0 (c ∷ s) ≡ c ∷ replace_from old new 0 s
unfolding replace_from
passed c s old new h = rw (h, replace_from) refl

-- What stands behind a placeholder: some bytes, without a quote, that do not start with `#`.
pub record IsFiller (f : Bytes) : Type 0 where
  pub quotes : All (λ c. c ≢ b'"') f
  pub start : has_prefix f (codes "#") ≡ false
  pub some_byte : 0 < length f

closing :
    (f rest a new : Bytes) → IsFiller f → has_prefix (b'"' ∷ (f ++ rest)) (placeholder a) ≡ false
unfolding has_prefix
closing [] rest a new h = absurd (omega (arith, h.some_byte))
closing (c ∷ f) rest a new h = ground (arith, h.start)

regrouped :
    (b rest : Bytes)
    → placeholder b ++ rest ≡ b'"' ∷ ((b'#' ∷ (b'{' ∷ (b ++ b'}' ∷ []))) ++ (b'"' ∷ rest))
regrouped b rest = rw (append_assoc b close_tag rest, append_assoc b (b'}' ∷ []) (b'"' ∷ rest)) refl

-- Another placeholder, with what stands behind it, is passed over.
pub miss :
    (a b new f rest : Bytes)
    → IsItem a
    → IsItem b
    → (a == b) ≡ false
    → IsFiller f
    → replace_from (placeholder a) new 0 (placeholder b ++ (f ++ rest))
      ≡ placeholder b ++ (f ++ replace_from (placeholder a) new 0 rest)
unfolding has_prefix
miss a b new f rest ia ib e h =
    let old = placeholder a in
    let (na, pa) = name-IsPlain a ia.bytes in
    let (nb, pb) = name-IsPlain b ib.bytes in
    let tail : replace_from old new 0 (b'"' ∷ (f ++ rest))
        ≡ b'"' ∷ (f ++ replace_from old new 0 rest) =
      passed b'"' (f ++ rest) old new (closing f rest a new h)
      ∙ ap (λ t. b'"' ∷ t) (plain f rest a new h.quotes) in
    let inner : Bytes = b'#' ∷ (b'{' ∷ (b ++ b'}' ∷ [])) in
    let whole : placeholder b ++ (f ++ rest) ≡ b'"' ∷ (inner ++ (b'"' ∷ (f ++ rest))) =
      regrouped b (f ++ rest) in
    let first : has_prefix (b'"' ∷ (inner ++ (b'"' ∷ (f ++ rest)))) old ≡ false =
      rw (append_assoc b (b'}' ∷ []) (b'"' ∷ (f ++ rest)))
        (names_differ a b (b'"' ∷ []) (b'"' ∷ (f ++ rest)) na nb e) in
    let inner_plain : IsPlain inner =
      (omega arith, (omega arith, All-append (λ c. c ≢ b'"') b (b'}' ∷ []) pb (omega arith, tt))) in
    ap (replace_from old new 0) whole
    ∙ passed b'"' (inner ++ (b'"' ∷ (f ++ rest))) old new first
    ∙ ap (λ t. b'"' ∷ t)
        (plain inner (b'"' ∷ (f ++ rest)) a new inner_plain ∙ ap (λ t. inner ++ t) tail)
    ∙ sym (regrouped b (f ++ replace_from old new 0 rest))
