-- ===== src/Callbacks/Reload.antt =====
-- The start of the callback ClearApc and the callback that reloads the PHP server: initClearApc and
-- CbReloadPHPServer.Run of callbacks/callback.go.
use dove.Base.{
  ℕ, ◌+◌, ◌-◌, ◌≤◌, ◌<◌, ◌≡◌, sym, ap, ◌∙◌, inl, inr, Bool, true, false, not, ◌||◌, Option, none,
  some, List, [], ◌∷◌, ◌++◌, append_assoc, append-nil, arith, leb, if◌then◌else◌, Bool-cases,
  length, take, replicate, length-append, length-take, take-append_le, take-append_ge, take_all,
  Bytes, codes, nat_eq, bytes_eq, contains, Result, ok, err,
}
use dove.Base.Text.{trim_right}

pub data ReloadError : Type 0 where
  not_connected not_executed : ReloadError

pub data InitError : Type 0 where
  no_script no_fpm_host : InitError

-- The file of the script, and the host of php-fpm, if the callback is to be used. `fpm_host` is how
-- GetFpmHost ends.
pub record ClearApc {ℓ} (H : Type ℓ) : Type ℓ where
  pub script_file : Bytes
  pub host : Option H

unfoldable pub init_clear_apc {ℓ} :
    {H : Type ℓ}
    → List Bytes
    → Bytes
    → Bool
    → Option H
    → ClearApc H
    → Result InitError (Unit {0}) × ClearApc H
init_clear_apc callbacks data_dir written fpm_host s =
    let s' = record s { script_file = data_dir ++ codes "apc_clear.php" } in
    if not (contains callbacks (codes "ClearApc"))
    then (ok tt, s)
    else if not written
    then (err no_script, s')
    else elim fpm_host [
      | none ↦ (err no_fpm_host, record s' { host = none })
      | some h ↦ (ok tt, record s' { host = some h })
    ]

abbrev pub max_result : ℕ
max_result = 500

-- What was read: each read gives at most what there is room for, and an error or none; the reads end
-- with an error, or when the buffer is full. A read that gives nothing more ends at its deadline.
unfoldable pub read_result : List (Bytes × Bool) → Bytes → Bytes
read_result [] result = result
read_result ((got, failed) ∷ more) result =
    let result' = result ++ take (max_result - length result) got in
    let rest = read_result more result' in
    elim (failed || leb max_result (length result')) [ true ↦ result' | false ↦ rest ]

-- The buffer has 500 bytes, so that its length is never 0, and an error of a read is dropped.
unfoldable pub run_reload : Bool → Bool → List (Bytes × Bool) → Result ReloadError Bytes
unfolding read_result
run_reload connects writes reads =
    if not connects
    then err not_connected
    else if not writes
    then err not_executed
    else (let result = read_result reads [] in
        ok (trim_right (result ++ replicate (max_result - length result) 0) (0 ∷ [])))

-- All bytes up to the first error.
abbrev pub received : List (Bytes × Bool) → Bytes
received [] = []
received ((got, failed) ∷ more) = got ++ (if failed then [] else received more)

-- The buffer is full behind a read, and nothing more is read.
take-full :
    (xs ys : Bytes) (n : ℕ)
    → length xs ≤ n
    → n ≤ length xs + length (take (n - length xs) ys)
    → (zs : Bytes) → xs ++ take (n - length xs) ys ≡ take n (xs ++ (ys ++ zs))
take-full xs ys n h full zs =
    ap (λ l. xs ++ l)
      (sym (take-append_le ys zs (n - length xs) (omega (arith, length-take (n - length xs) ys))))
    ∙ sym (take-append_ge xs (ys ++ zs) n h)

read_result-received :
    (reads : List (Bytes × Bool)) (result : Bytes)
    → length result < max_result
    → read_result reads result ≡ take max_result (result ++ received reads)
unfolding read_result
read_result-received [] result h =
    sym (ap (take max_result) (append-nil result) ∙ take_all result max_result (omega arith))
read_result-received ((got, failed) ∷ more) result h =
    let room = max_result - length result in
    let result' = result ++ take room got in
    elim (Bool-cases failed) [
      | inl f ↦ rw (f) (
          ap (λ l. result ++ take room l) (sym (append-nil got))
          ∙ sym (take-append_ge result (got ++ []) max_result (omega arith)))
      | inr f ↦ elim (Bool-cases (leb max_result (length result'))) [
        | inl full ↦
            rw (f, read_result, full)
              (take-full result got max_result (omega arith)
                (ground (arith, length-append result (take room got))) (received more))
        | inr space ↦
            let whole : take room got ≡ got =
              take_all got room
                (ground (arith, length-append result (take room got), length-take room got)) in
            rw (f, read_result, space)
              (read_result-received more result' (ground arith)
                ∙ ap (λ l. take max_result ((result ++ l) ++ received more)) whole
                ∙ ap (take max_result) (append_assoc result got (received more)))
      ]
    ]

-- Whatever error ends the reads, there is an answer without an error: the first 500 bytes of what came
-- up to that error, without the zero bytes at the end of the buffer.
run_reload-received :
    (reads : List (Bytes × Bool))
    → run_reload true true reads
      ≡ ok (
          trim_right
            (take max_result (received reads)
              ++ replicate (max_result - length (take max_result (received reads))) 0)
            (0 ∷ []))
unfolding run_reload
run_reload-received reads =
    ap (λ l. ok (trim_right (l ++ replicate (max_result - length l) 0) (0 ∷ [])))
      (read_result-received reads [] (omega arith))
