-- ===== src/Storage/Paths.antt =====
-- Names of settings and paths on the configuration server: storage/zk/util.go.
use dove.Base.{
  ℕ, ◌≡◌, refl, sym, ap, ◌∙◌, ◌≢◌, true, false, not, ◌&&◌, [], ◌∷◌, ◌++◌, append_assoc, arith,
  nat_beq, if◌then◌else◌, length, drop-append, Bytes, codes, bytes_beq, nat_eq, bytes_eq, contains,
}
use dove.Base.Text.{has_prefix, trim_left, trim_right, trim, trim_prefix, replace_byte}

-- `root` is the setting "root" of the server's settings.
unfoldable pub cn_to_path : Bytes → Bytes → Bytes
cn_to_path root name =
    if not (bytes_beq name []) && not (bytes_beq name (codes "/"))
    then trim_right (root ++ (b'/' ∷ replace_byte name b'.' b'/')) (codes "/")
    else root

unfoldable pub path_to_cn : Bytes → Bytes → Bytes
path_to_cn root path =
    let name = trim_prefix path (trim_right root (codes "/") ++ b'/' ∷ []) in
    replace_byte (trim name (codes "/")) b'/' b'.'

trim_left-replace :
    (s : Bytes)
    → trim_left (replace_byte s b'.' b'/') (codes "/")
      ≡ replace_byte (trim_left s (codes "./")) b'.' b'/'
unfolding trim_left replace_byte contains
trim_left-replace [] = refl
trim_left-replace (c ∷ s) = ground (arith, trim_left-replace s)

trim_right-replace :
    (s : Bytes)
    → trim_right (replace_byte s b'.' b'/') (codes "/")
      ≡ replace_byte (trim_right s (codes "./")) b'.' b'/'
unfolding trim_right replace_byte contains
trim_right-replace [] = refl
trim_right-replace (c ∷ s) = ground (arith, trim_right-replace s)

trim_right-behind :
    (s t cut u : Bytes) (x : ℕ) → trim_right t cut ≡ x ∷ u → trim_right (s ++ t) cut ≡ s ++ x ∷ u
unfolding trim_right
trim_right-behind [] t cut u x h = h
trim_right-behind (c ∷ []) t cut u x h = ground arith
trim_right-behind (c ∷ d ∷ s) t cut u x h = ground (arith, trim_right-behind (d ∷ s) t cut u x h)

replace_byte-back :
    (s : Bytes) → contains s b'/' ≡ false → replace_byte (replace_byte s b'.' b'/') b'/' b'.' ≡ s
unfolding replace_byte contains
replace_byte-back [] h = refl
replace_byte-back (c ∷ s) h = ground (arith, replace_byte-back s)

has_prefix_self : (p s : Bytes) → has_prefix (p ++ s) p ≡ true
unfolding has_prefix
has_prefix_self [] s = refl
has_prefix_self (c ∷ p) s = ground (arith, has_prefix_self p s)

trim_prefix-append : (p s : Bytes) → trim_prefix (p ++ s) p ≡ s
unfolding trim_prefix has_prefix
trim_prefix-append p s = rw (has_prefix_self p s) (drop-append p s (length p) refl)

-- The name of a setting whose path is written: some byte, no slash, no dot at either end.
pub record IsName (name : Bytes) : Type 0 where
  pub not_empty : name ≢ []
  pub no_slash : contains name b'/' ≡ false
  pub left_lem : trim_left name (codes "./") ≡ name
  pub right_lem : trim_right name (codes "./") ≡ name

slashed : Bytes → Bytes
slashed name = replace_byte name b'.' b'/'

slashed-left : (name : Bytes) → IsName name → trim_left (slashed name) (codes "/") ≡ slashed name
unfolding slashed
slashed-left name n = trim_left-replace name ∙ ap (λ s. replace_byte s b'.' b'/') n.left_lem

slashed-right : (name : Bytes) → IsName name → trim_right (slashed name) (codes "/") ≡ slashed name
unfolding slashed
slashed-right name n = trim_right-replace name ∙ ap (λ s. replace_byte s b'.' b'/') n.right_lem

slashed-not-nil : (name : Bytes) → name ≢ [] → slashed name ≢ []
unfolding slashed replace_byte
slashed-not-nil [] h = absurd (h refl)
slashed-not-nil (c ∷ name) h = λ e. cc

head : ℕ → ℕ
head c = if nat_beq c b'.' then b'/' else c

not_root :
    (c : ℕ) (name : Bytes)
    → contains (c ∷ name) b'/' ≡ false
    → (not (bytes_beq (c ∷ name) []) && not (bytes_beq (c ∷ name) (codes "/"))) ≡ true
unfolding contains bytes_beq
not_root c name h = ground arith

-- The path of a name is its words behind the root, with slashes.
cn_to_path-name :
    (root name : Bytes) → IsName name → cn_to_path root name ≡ (root ++ b'/' ∷ []) ++ slashed name
unfolding cn_to_path slashed head replace_byte
cn_to_path-name root [] n = absurd (n.not_empty refl)
cn_to_path-name root (c ∷ name) n =
    rw (not_root c name n.no_slash, cn_to_path)
      (trim_right-behind root (b'/' ∷ slashed (c ∷ name)) (codes "/") (slashed (c ∷ name)) b'/' (
          trim_right-behind (b'/' ∷ []) (slashed (c ∷ name)) (codes "/") (slashed name) (head c)
            (slashed-right (c ∷ name) n))
        ∙ sym (append_assoc root (b'/' ∷ []) (slashed (c ∷ name))))

-- Below a root that does not end in a slash, the path of a name that is not empty, holds no slash and
-- neither starts nor ends with a dot gives the name back.
pub path_to_cn-cn_to_path :
    (root name : Bytes)
    → trim_right root (codes "/") ≡ root
    → IsName name
    → path_to_cn root (cn_to_path root name) ≡ name
unfolding path_to_cn trim slashed
path_to_cn-cn_to_path root name r n =
    rw
      (
        cn_to_path-name root name n,
        r,
        trim_prefix-append (root ++ b'/' ∷ []) (slashed name),
        slashed-left name n,
        slashed-right name n,
      )
      (replace_byte-back name n.no_slash)
