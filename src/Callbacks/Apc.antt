-- ===== src/Callbacks/Apc.antt =====
-- The callback `ClearApc` and the detection of php-fpm: callbacks/callback.go. The output of
-- `netstat`, the FastCGI connection and its answer are arguments.
use dove.Base.Text.{to_lower}
use dove.Base.{
  ℕ, ◌+◌, ◌≤◌, ◌<◌, ◌≡◌, refl, ◌∙◌, ◌≢◌, Bool, ◌&&◌, ◌||◌, Option, none, some, List, [], ◌∷◌, ◌++◌,
  arith, ltb, leb, nat_beq, if◌then◌else◌, lt→ltb, length, get_elem?, take, length-append,
  take-append_le, All, Bytes, codes, bytes_beq, nat_eq, bytes_eq, Result, ◌>>=◌, ok, err,
}
use dove.Base.Text.{split, first, fields}
use dove.Base.Decimal.{ℤ, pos, atoi}

pub record FcgiHost : Type 0 where
  pub net : Bytes
  pub addr : Bytes
  pub port : ℤ

-- `panics` is an index out of range, or a request on a client that is nil.
pub data ApcError : Type 0 where
  no_fpm_addr connect_failed request_failed netstat_failed unsupported_os panics : ApcError

-- The rest behind the second newline; empty when there are fewer.
pub after_newlines : ℕ → Bytes → Bytes
after_newlines sep_count [] = []
after_newlines sep_count (c ∷ s) =
    let n : ℕ = if nat_beq c b'\n' then sep_count + 1 else sep_count in
    let rest = after_newlines n s in if leb 2 n then s else rest

-- An answer with a header loses what stands up to the second newline.
pub apc_result : Bytes → Bytes
unfolding to_lower
apc_result raw =
    if ltb 12 (length raw) && bytes_beq (to_lower (take 12 raw)) (to_lower (codes "content-type"))
    then after_newlines 0 raw
    else raw

-- How the two calls of the FastCGI client end: whether a connection is made, and its answer.
pub run_clear_apc : FcgiHost → Bool → Option Bytes → Result ApcError Bytes
unfolding apc_result
run_clear_apc host connected answer =
    if bytes_beq host.addr []
    then err no_fpm_addr
    else if bytes_beq host.net (codes "tcp") || bytes_beq host.net (codes "unix")
    then (if connected
        then (elim answer [ none ↦ err request_failed | some raw ↦ ok (apc_result raw) ])
        else err connect_failed)
    else err panics

-- words[i], which panics out of range.
word : List Bytes → ℕ → Result ApcError Bytes
word words i = elim (get_elem? words i) [ none ↦ err panics | some w ↦ ok w ]

-- `port, _ = strconv.Atoi(…)`.
port_of : Bytes → ℤ
port_of s = elim (atoi s) [ none ↦ pos 0 | some n ↦ n ]

-- The first line of the output of `netstat -nlp | grep php-fpm`; `none` is a failed command.
pub get_fpm_host : Bool → Option Bytes → Result ApcError FcgiHost
unfolding word port_of
get_fpm_host linux out =
    if linux
    then (elim out [
      | none ↦ err netstat_failed
      | some text ↦
          let line = fields (first (split text b'\n')) in
          word line 0 >>= λ net.
          if bytes_beq net (codes "tcp")
          then (word line 3 >>= λ host_port. word (split host_port b':') 0 >>= λ addr.
              word (split host_port b':') 1 >>= λ port.
              ok (record { net = net; addr = addr; port = port_of port }))
          else if bytes_beq net (codes "unix")
          then (word line 9 >>= λ addr. ok (record { net = net; addr = addr; port = pos 0 }))
          else ok (record { net = net; addr = []; port = pos 0 })
    ])
    else err unsupported_os

after_newlines_skip :
    (n : ℕ) (h s : Bytes)
    → n < 2
    → All (λ c. c ≢ b'\n') h
    → after_newlines n (h ++ s) ≡ after_newlines n s
unfolding after_newlines
after_newlines_skip n [] s p q = refl
after_newlines_skip n (c ∷ h) s p q = ground (arith, after_newlines_skip n h s p q.1)

after_newlines-newline : (s : Bytes) → after_newlines 0 (b'\n' ∷ s) ≡ after_newlines 1 s
unfolding after_newlines
after_newlines-newline s = refl

after_newlines-body : (s : Bytes) → after_newlines 1 (b'\n' ∷ s) ≡ s
unfolding after_newlines
after_newlines-body s = refl

-- Behind one header line, which starts with "content-type" in letters of either case, and one further
-- line, the body comes out whole, newlines included.
pub apc_result-header :
    (h line body : Bytes)
    → to_lower (take 12 h) ≡ codes "content-type"
    → 12 ≤ length h
    → All (λ c. c ≢ b'\n') h
    → All (λ c. c ≢ b'\n') line
    → apc_result (h ++ (b'\n' ∷ (line ++ (b'\n' ∷ body)))) ≡ body
unfolding apc_result
apc_result-header h line body t l p q =
    rw
      (
        take-append_le h (b'\n' ∷ (line ++ (b'\n' ∷ body))) 12 l,
        t,
        lt→ltb 12 (length (h ++ (b'\n' ∷ (line ++ (b'\n' ∷ body)))))
            (omega (arith, length-append h (b'\n' ∷ (line ++ (b'\n' ∷ body))))),
      )
      (unfold bytes_beq to_lower in
        (after_newlines_skip 0 h (b'\n' ∷ (line ++ (b'\n' ∷ body))) (omega arith) p
          ∙ after_newlines-newline (line ++ (b'\n' ∷ body))
          ∙ after_newlines_skip 1 line (b'\n' ∷ body) (omega arith) q
          ∙ after_newlines-body body))
